-- ===== src/Altserver/Identity/Tests.antt =====
-- Runs of `server_id` of src/altserver.rs.
use alt_keeper.Base.Action.{Run, ok}
use alt_keeper.Altserver.Identity.{
  Host, instance_name, server_id, saved_id, hex, hostname, fresh_id, first_piece, after_random,
  after_write,
}
use alt_keeper.Base.{
  ℕ, zero, ap, sym, suc, Option, [], ◌≡◌, ◌<◌, arith, none, refl, ◌∷◌, some, length, All,
}
use alt_keeper.Base.Text.{Str, codes, split, is_ascii_digit}
use alt_keeper.Base.Bytes.{Bytes}
use alt_keeper.Altserver.Identity.Stable.{server_id_stable}
use alt_keeper.Base.Trim.{trim}
use mathlib.Core.Path.{subst}

abbrev zero_bytes : ℕ → Bytes
zero_bytes zero = []
zero_bytes (suc n) = 0 ∷ zero_bytes n

zero_bytes-All : (n : ℕ) → (length (zero_bytes n) ≡ n) × All (λ b. b < 256) (zero_bytes n)
zero_bytes-All zero = (refl, tt)
zero_bytes-All (suc n) = let (size, small) = zero_bytes-All n in (ap suc size, (omega arith, small))

-- The world is the file of the id.
abbrev host : Host (Option Str)
host = record {
  read_to_string = λ path w. w;
  random = λ n w. (ok (zero_bytes n), w);
  create_dir_all = λ path w. w;
  write = λ path s w. (ok tt, some s);
  hostname_output = λ w. some (codes "casa2.local");
}

names_itself : instance_name host none ≡ codes "altkeeper-casa2"
unfolding instance_name hostname trim first_piece split is_ascii_digit
names_itself = refl

first_run : server_id host none ≡ (ok (hex (zero_bytes 16)), some (hex (zero_bytes 16)))
unfolding server_id saved_id fresh_id after_random after_write
first_run = refl

server_id_stable_example :
    server_id host (some (hex (zero_bytes 16)))
    ≡ (ok (hex (zero_bytes 16)), some (hex (zero_bytes 16)))
server_id_stable_example =
    server_id_stable host (λ path s w w' h. sym (ap (λ (x : Run (Unit {0}) × Option Str). x.1) h))
      (λ n w w' bs h.
        let drawn : zero_bytes n ≡ bs = cc (ap (λ (x : Run Bytes × Option Str). x.0) h) in
        subst (λ (l : Bytes). (length l ≡ n) × All (λ b. b < 256) l) drawn (zero_bytes-All n))
      none (some (hex (zero_bytes 16))) (hex (zero_bytes 16)) first_run
