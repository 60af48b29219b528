-- ===== src/Web/Texts.antt =====
-- `friendly_error`, `short_error` and `short_apple_error` of src/web.rs.
pub mod Bounds
use alt_keeper.Base.{
  Option, ℕ, zero, some, suc, ◌∷◌, if◌then◌else◌, true, ◌||◌, none, ◌&&◌, false, not, [], List,
  Bool, leb, length, ltb,
}
use alt_keeper.Base.Text.{Str, strip_prefix, split, is_empty, codes, strip_suffix}
use alt_keeper.Profile.Parse.{position}
use alt_keeper.Base.Trim.{trim}
use alt_keeper.Base.Utf8.{is_continuation}

-- `s.contains(p)`, for `p` not empty.
unfoldable pub contains_text : Str → Str → Bool
contains_text p s = elim (position p s) [ none ↦ false | some _ ↦ true ]

-- `s.chars().take(n).collect()`
unfoldable pub take_chars : ℕ → Str → Str
take_chars n [] = []
take_chars zero (c ∷ s) = if is_continuation c then c ∷ take_chars zero s else []
take_chars (suc n) (c ∷ s) =
    let more = take_chars (suc n) s in
    let fewer = take_chars n s in if is_continuation c then c ∷ more else c ∷ fewer

-- `strip_suffix('\r')` of a line that ended with a line feed.
unfoldable pub strip_cr : Str → Str
strip_cr line = elim (strip_suffix (13 ∷ []) line) [ none ↦ line | some s ↦ s ]

-- The last piece has no line feed, and is no line where it is empty.
unfoldable pub lines_of : List Str → List Str
unfolding strip_cr
lines_of [] = []
lines_of (p ∷ []) = if is_empty p then [] else p ∷ []
lines_of (p ∷ q ∷ ps) = strip_cr p ∷ lines_of (q ∷ ps)

-- `s.lines()`
unfoldable pub lines : Str → List Str
unfolding lines_of
lines s = lines_of (split 10 s)

-- The first line that is not empty once trimmed, or `other`.
unfoldable pub first_line : Str → List Str → Str
first_line other [] = other
first_line other (l ∷ ls) =
    let rest = first_line other ls in if is_empty (trim l) then rest else trim l

unfoldable pub short_error : Str → Str
unfolding lines first_line take_chars
short_error err = take_chars 240 (first_line err (lines err))

unfoldable pub contains_any : List Str → Str → Bool
unfolding contains_text
contains_any [] s = false
contains_any (p ∷ ps) s = contains_text p s || contains_any ps s

abbrev pub bullet : Str
bullet = 226 ∷ 151 ∷ 143 ∷ []

-- The last line with a bullet.
unfoldable pub last_bullet : List Str → Option Str
unfolding contains_text
last_bullet [] = none
last_bullet (l ∷ ls) = elim (last_bullet ls) [
  | some m ↦ some m
  | none ↦ if contains_text bullet l then some l else none
]

-- `trim_start_matches(p)`: each round drops a copy of `p`, so the length is enough rounds.
unfoldable pub trim_start_matches : ℕ → Str → Str → Str
trim_start_matches zero p s = s
trim_start_matches (suc fuel) p s = elim (strip_prefix p s) [
  | none ↦ s
  | some rest ↦ trim_start_matches fuel p rest
]

abbrev pub pairing_missing : Str
pairing_missing = codes "iPhone pairing is missing. Set it up once over USB (see the guide)."

abbrev pub pairing_unknown : Str
pairing_unknown = codes "The iPhone no longer recognizes the pairing: set it up again over USB."

abbrev pub no_phone : Str
no_phone =
    codes "I cannot find the iPhone on the network. Is it on and connected to your home Wi-Fi?"

abbrev pub wrong_password : Str
wrong_password = codes "Incorrect Apple ID or password."

abbrev pub rate_limited : Str
rate_limited = codes "Apple is rate-limiting requests. Wait a while, then try once."

abbrev pub canceled : Str
canceled = codes "Sign-in canceled: the code did not arrive in time."

-- What an error in lower case says.
unfoldable pub is_unpaired : Str → Bool
unfolding contains_text
is_unpaired e = contains_text (codes "manca il pairing") e

unfoldable pub is_unknown : Str → Bool
unfolding contains_any
is_unknown e = contains_any (codes "early eof" ∷ codes "pairing con l'iphone non riuscito" ∷ []) e

unfoldable pub is_unreachable : Str → Bool
unfolding contains_any
is_unreachable e =
    contains_any
      (codes "no route to host"
        ∷ codes "hostunreachable"
        ∷ codes "non risponde"
        ∷ codes "non trovo l'iphone"
        ∷ codes "timed out"
        ∷ codes "refused"
        ∷ [])
      e

unfoldable pub is_wrong_password : Str → Bool
unfolding contains_any
is_wrong_password e = contains_any (codes "-20101" ∷ codes "entered incorrectly" ∷ []) e

unfoldable pub is_rate_limited : Str → Bool
unfolding contains_any
is_rate_limited e = contains_any (codes "429" ∷ codes "too many requests" ∷ []) e

unfoldable pub is_canceled : Str → Bool
unfolding contains_any
is_canceled e = contains_any (codes "aborted" ∷ codes "abort" ∷ []) e

-- `to_lowercase` is that of the standard library, for all of Unicode.
module _ (to_lowercase : Str → Str) where
  unfoldable pub friendly_error : Str → Str
  unfolding short_error is_unpaired is_unknown is_unreachable
  friendly_error err =
      let e = to_lowercase err in
      if is_unpaired e
      then pairing_missing
      else if is_unknown e
      then pairing_unknown
      else if is_unreachable e
      then no_phone
      else short_error err

  -- The text after the bullet of the last line that has one.
  unfoldable pub bullet_text : Str → Str
  unfolding last_bullet trim_start_matches lines
  bullet_text err = elim (last_bullet (lines err)) [
    | none ↦ short_error err
    | some l ↦ trim (trim_start_matches (length (trim l)) bullet (trim l))
  ]

  unfoldable pub short_apple_error : Str → Str
  unfolding bullet_text is_wrong_password is_rate_limited is_canceled
  short_apple_error err =
      let e = to_lowercase err in
      if is_wrong_password e
      then wrong_password
      else if is_rate_limited e
      then rate_limited
      else if is_canceled e
      then canceled
      else take_chars 240 (bullet_text err)
