-- ===== src/Altserver/Identity.antt =====
-- `server_id`, `hostname` and `instance_name` of src/altserver.rs: how the server names itself.
pub mod Stable
mod Tests
use alt_keeper.Base.Action.{Run, Action, ok, err, panic, stuck}
use alt_keeper.Base.Text.{Str, codes, split, is_empty, is_ascii_digit}
use alt_keeper.Base.{
  Option, ◌∷◌, ℕ, some, [], ◌/◌, none, if◌then◌else◌, ◌||◌, ◌%◌, ◌-◌, List, ◌++◌, ◌+◌, leb, ltb,
  length, all,
}
use alt_keeper.Base.Bytes.{Bytes}
use alt_keeper.Base.Trim.{trim}

-- What the code uses of the file system, of the system's random bytes and of the command `hostname`,
-- whose output is there where it succeeds and is UTF-8.
pub record Host (World : Type 0) : Type 0 where
  pub read_to_string : Str → World → Option Str
  pub random : ℕ → Action World Bytes
  pub create_dir_all : Str → World → World
  pub write : Str → Str → Action World (Unit {0})
  pub hostname_output : World → Option Str

abbrev pub id_file : Str
id_file = codes "state/altserver-id"

unfoldable pub hex_digit : ℕ → ℕ
hex_digit n = if ltb n 10 then b'0' + n else b'a' + (n - 10)

-- `{b:02x}` of each byte.
unfoldable pub hex : Bytes → Str
unfolding hex_digit
hex [] = []
hex (b ∷ bs) = hex_digit (b / 16) ∷ hex_digit (b % 16) ∷ hex bs

-- `s.split('.').next()`
unfoldable pub first_piece : List Str → Str
first_piece [] = []
first_piece (p ∷ ps) = p

-- The outcome of the write of a new id.
unfoldable pub after_write : Str → Run (Unit {0}) → Run Str
after_write id (ok u) = ok id
after_write id (err e) = err (codes "non riesco a salvare il serverID: " ++ e)
after_write id panic = panic
after_write id stuck = stuck

module _ {World : Type 0} (H : Host World) where
  -- The id in the file, where it is long enough.
  unfoldable pub saved_id : World → Option Str
  saved_id w = elim (H.read_to_string id_file w) [
    | none ↦ none
    | some s ↦ if leb 8 (length (trim s)) then some (trim s) else none
  ]

  -- From the random bytes on.
  unfoldable pub after_random : Run Bytes → World → Run Str × World
  unfolding hex after_write
  after_random (ok bytes) w =
      let id = hex bytes in
      let (r, w') = H.write id_file id (H.create_dir_all (codes "state") w) in
      (after_write id r, w')
  after_random (err e) w = (err (codes "non riesco a generare il serverID: " ++ e), w)
  after_random panic w = (panic, w)
  after_random stuck w = (stuck, w)

  unfoldable pub fresh_id : Action World Str
  unfolding after_random
  fresh_id w = let (r, w') = H.random 16 w in after_random r w'

  unfoldable pub server_id : Action World Str
  unfolding saved_id fresh_id
  server_id w = elim (saved_id w) [ none ↦ fresh_id w | some s ↦ (ok s, w) ]

  unfoldable pub hostname : World → Str
  unfolding first_piece
  hostname w = elim (H.hostname_output w) [
    | none ↦ codes "altkeeper"
    | some s ↦
        let name = first_piece (split b'.' (trim s)) in
        if is_empty name || all is_ascii_digit name then codes "altkeeper" else name
  ]

  unfoldable pub instance_name : World → Str
  unfolding hostname
  instance_name w = codes "altkeeper-" ++ hostname w
