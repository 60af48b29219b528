-- ===== src/Altserver/Identity/Stable.antt =====
-- The id of `server_id` of src/altserver.rs is kept.
use alt_keeper.Base.Action.{Run, ok, err, panic, stuck}
use alt_keeper.Base.{
  some, ◌∷◌, ◌<◌, ℕ, refl, [], ◌≡◌, true, arith, ◌/◌, ◌%◌, ◌*◌, All, length, leb, none, Option, ◌∙◌,
  ap,
}
use alt_keeper.Altserver.Identity.{
  hex, Host, hex_digit, saved_id, fresh_id, id_file, after_random, server_id, after_write,
}
use alt_keeper.Base.Text.{Str, codes}
use alt_keeper.Base.Trim.{IsGraphic, trim_graphic}
use alt_keeper.Base.Bytes.{Bytes}
use mathlib.Core.Path.{subst}

hex_digit-IsGraphic : (n : ℕ) → n < 16 → IsGraphic (hex_digit n)
unfolding hex_digit
hex_digit-IsGraphic n h = ground arith

hex-IsGraphic : (bs : Bytes) → All (λ b. b < 256) bs → All IsGraphic (hex bs)
unfolding hex
hex-IsGraphic [] h = tt
hex-IsGraphic (b ∷ bs) (hb, h) =
    let rest = hex-IsGraphic bs h in
    (hex_digit-IsGraphic (b / 16) (omega arith), (hex_digit-IsGraphic (b % 16) (omega arith), rest))

length-hex : (bs : Bytes) → length (hex bs) ≡ 2 * length bs
unfolding hex
length-hex [] = refl
length-hex (b ∷ bs) = let ih = length-hex bs in omega arith

module _ {World : Type 0} (H : Host World)
    (reads_back : (path s : Str) (w w' : World)
      → H.write path s w ≡ (ok tt, w')
      → H.read_to_string path w' ≡ some s)
    (random_bytes : (n : ℕ) (w w' : World) (bs : Bytes)
      → H.random n w ≡ (ok bs, w')
      → (length bs ≡ n) × All (λ b. b < 256) bs) where
  saved_id-hex :
      (w : World) (bs : Bytes)
      → H.read_to_string id_file w ≡ some (hex bs)
      → length bs ≡ 16
      → All (λ b. b < 256) bs
      → saved_id H w ≡ some (hex bs)
  unfolding saved_id
  saved_id-hex w bs e size h =
      let long : leb 8 (length (hex bs)) ≡ true = let l = length-hex bs in ground arith in
      rw (saved_id, e, trim_graphic (hex bs) (hex-IsGraphic bs h), long) refl

  -- The id of a run that has none in the file is in the file after it.
  fresh_id-saved : (w w' : World) (id : Str) → fresh_id H w ≡ (ok id, w') → saved_id H w' ≡ some id
  unfolding fresh_id after_random after_write
  fresh_id-saved w w' id h = go (H.random 16 w).0 (H.random 16 w).1 refl h
    where
      go :
          (r : Run Bytes) (w1 : World)
          → H.random 16 w ≡ (r, w1)
          → after_random H r w1 ≡ (ok id, w')
          → saved_id H w' ≡ some id
      go (err e) w1 drawn k = absurd (cc (ap (λ (x : Run Str × World). x.0) k))
      go panic w1 drawn k = absurd (cc (ap (λ (x : Run Str × World). x.0) k))
      go stuck w1 drawn k = absurd (cc (ap (λ (x : Run Str × World). x.0) k))
      go (ok bs) w1 drawn k =
          wrote (H.write id_file (hex bs) (H.create_dir_all (codes "state") w1)).0
            (H.write id_file (hex bs) (H.create_dir_all (codes "state") w1)).1 refl k
        where
          wrote :
              (r : Run (Unit {0})) (w2 : World)
              → H.write id_file (hex bs) (H.create_dir_all (codes "state") w1) ≡ (r, w2)
              → ◌≡◌ {A = Run Str × World} (after_write (hex bs) r, w2) (ok id, w')
              → saved_id H w' ≡ some id
          wrote (ok u) w2 there k =
              let same : hex bs ≡ id = cc (ap (λ (x : Run Str × World). x.0) k) in
              let world : w2 ≡ w' = ap (λ (x : Run Str × World). x.1) k in
              let (size, bytes) = random_bytes 16 w w1 bs drawn in
              subst (λ v. saved_id H v ≡ some id) world
                (saved_id-hex w2 bs (reads_back id_file (hex bs) _ w2 there) size bytes
                  ∙ ap some same)
          wrote (err e) w2 there k = absurd (cc (ap (λ (x : Run Str × World). x.0) k))
          wrote panic w2 there k = absurd (cc (ap (λ (x : Run Str × World). x.0) k))
          wrote stuck w2 there k = absurd (cc (ap (λ (x : Run Str × World). x.0) k))

  -- Once `server_id` has returned an id, it returns the same id again and changes nothing, so that the
  -- server is known by it after a restart: given that a file is read as it was written, and that the
  -- system gives as many random bytes as it is asked for.
  pub server_id_stable :
      (w w' : World) (id : Str) → server_id H w ≡ (ok id, w') → server_id H w' ≡ (ok id, w')
  unfolding server_id
  server_id_stable w w' id h = go (saved_id H w) refl h
    where
      from_file : saved_id H w' ≡ some id → server_id H w' ≡ (ok id, w')
      from_file e = rw (server_id, e) refl

      go :
          (o : Option Str)
          → saved_id H w ≡ o
          → server_id H w ≡ (ok id, w')
          → server_id H w' ≡ (ok id, w')
      go none e k = from_file (fresh_id-saved w w' id (rw (server_id, e) at k))
      go (some s) e k =
          let pair : ◌≡◌ {A = Run Str × World} (ok s, w) (ok id, w') = rw (server_id, e) at k in
          let same : s ≡ id = cc (ap (λ (x : Run Str × World). x.0) pair) in
          let world : w ≡ w' = ap (λ (x : Run Str × World). x.1) pair in
          from_file (subst (λ v. saved_id H v ≡ some id) world (e ∙ ap some same))
