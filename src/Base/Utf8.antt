-- ===== src/Base/Utf8.antt =====
-- `str::from_utf8` and `String::from_utf8_lossy` of the standard library.
use alt_keeper.Base.Tests.{ltb, leb, ◌==◌, if◌then◌else◌}
use alt_keeper.Base.Lists.{get_or, All}
use alt_keeper.Base.Text.{Str, IsAscii}
use Prim.Native.Nat.{ℕ, zero, suc}
use mathlib.Core.Path.{◌≡◌, refl, ap}
use mathlib.Core.Bool.{Bool, true, false, ◌&&◌}
use mathlib.Core.List.{[], ◌∷◌, ◌++◌}
use native.Mathlib.Omega.{arith}

unfoldable pub within : ℕ → ℕ → ℕ → Bool
within lo hi c = leb lo c && leb c hi

-- 0x80..=0xBF
abbrev pub is_continuation : ℕ → Bool
is_continuation c = within 0x80 0xbf c

-- What begins at a byte: a sequence of that many more bytes, or an invalid one to be replaced whole.
pub data Chunk : Type 0 where
  valid : ℕ → Chunk
  invalid : ℕ → Chunk

-- The second byte of a three-byte sequence.
second_of_three : ℕ → ℕ → Bool
unfolding within
second_of_three a b =
    if a == 0xe0
    then within 0xa0 0xbf b
    else if a == 0xed
    then within 0x80 0x9f b
    else is_continuation b

-- The second byte of a four-byte sequence.
second_of_four : ℕ → ℕ → Bool
unfolding within
second_of_four a b =
    if a == 0xf0
    then within 0x90 0xbf b
    else if a == 0xf4
    then within 0x80 0x8f b
    else is_continuation b

-- A byte that is not there is read as 0, as `Utf8Chunks` does.
unfoldable pub chunk_at : ℕ → Str → Chunk
unfolding within second_of_three second_of_four
chunk_at a rest =
    let b = get_or rest 0 0 in
    let c = get_or rest 1 0 in
    let d = get_or rest 2 0 in
    if ltb a 0x80
    then valid 0
    else if within 0xc2 0xdf a
    then (if is_continuation b then valid 1 else invalid 0)
    else if within 0xe0 0xef a
    then (if second_of_three a b
        then (if is_continuation c then valid 2 else invalid 1)
        else invalid 0)
    else if within 0xf0 0xf4 a
    then (if second_of_four a b
        then (if is_continuation c
            then (if is_continuation d then valid 3 else invalid 2)
            else invalid 1)
        else invalid 0)
    else invalid 0

-- U+FFFD
abbrev pub replacement : Str
replacement = 0xef ∷ 0xbf ∷ 0xbd ∷ []

-- `passing` bytes of a valid sequence are still to be copied, or `skipping` of an invalid one dropped.
lossy_from : ℕ → ℕ → Str → Str
lossy_from passing skipping [] = []
lossy_from (suc p) skipping (a ∷ rest) = a ∷ lossy_from p skipping rest
lossy_from zero (suc s) (a ∷ rest) = lossy_from zero s rest
lossy_from zero zero (a ∷ rest) = elim (chunk_at a rest) [
  | valid n ↦ a ∷ lossy_from n zero rest
  | invalid n ↦ replacement ++ lossy_from zero n rest
]

unfoldable pub from_utf8_lossy : Str → Str
unfolding lossy_from chunk_at
from_utf8_lossy s = lossy_from 0 0 s

valid_from : ℕ → Str → Bool
valid_from n [] = true
valid_from (suc n) (a ∷ rest) = valid_from n rest
valid_from zero (a ∷ rest) = elim (chunk_at a rest) [
  | valid n ↦ valid_from n rest
  | invalid n ↦ false
]

-- `String::from_utf8` accepts these bytes.
unfoldable pub is_utf8 : Str → Bool
unfolding valid_from chunk_at
is_utf8 s = valid_from 0 s

chunk_at_ascii : (a : ℕ) (rest : Str) → IsAscii a → chunk_at a rest ≡ valid 0
unfolding chunk_at
chunk_at_ascii a rest h = ground arith

lossy_from_ascii : (s : Str) → All IsAscii s → lossy_from 0 0 s ≡ s
unfolding lossy_from
lossy_from_ascii [] h = refl
lossy_from_ascii (a ∷ s) (ha, hs) =
    rw (chunk_at_ascii a s ha, lossy_from) (ap (◌∷◌ a) (lossy_from_ascii s hs))

-- ASCII is read as it is.
pub from_utf8_lossy_ascii : (s : Str) → All IsAscii s → from_utf8_lossy s ≡ s
unfolding from_utf8_lossy
from_utf8_lossy_ascii s h = lossy_from_ascii s h

valid_from_ascii : (s : Str) → All IsAscii s → valid_from 0 s ≡ true
unfolding valid_from
valid_from_ascii [] h = refl
valid_from_ascii (a ∷ s) (ha, hs) = rw (chunk_at_ascii a s ha, valid_from) (valid_from_ascii s hs)

pub is_utf8_ascii : (s : Str) → All IsAscii s → is_utf8 s ≡ true
unfolding is_utf8
is_utf8_ascii s h = valid_from_ascii s h

-- Where the result is ASCII nothing was replaced.
ascii_lossy_from : (s : Str) → All IsAscii (lossy_from 0 0 s) → lossy_from 0 0 s ≡ s
unfolding lossy_from
ascii_lossy_from [] h = refl
ascii_lossy_from (a ∷ s) h = go (ascii_lossy_from s) (chunk_at a s) refl
  where
    go :
        (All IsAscii (lossy_from 0 0 s) → lossy_from 0 0 s ≡ s)
        → (k : Chunk) → chunk_at a s ≡ k
        → lossy_from 0 0 (a ∷ s) ≡ a ∷ s
    go later (invalid n) e = absurd (omega (arith, (rw (e, lossy_from) at h).0))
    go later (valid n) e =
        let small : IsAscii a = (rw (e, lossy_from) at h).0 in
        let first : chunk_at a s ≡ valid 0 = chunk_at_ascii a s small in
        rw (first, lossy_from) (ap (◌∷◌ a) (later (rw (first, lossy_from) at h).1))

pub ascii_from_utf8_lossy : (s : Str) → All IsAscii (from_utf8_lossy s) → from_utf8_lossy s ≡ s
unfolding from_utf8_lossy
ascii_from_utf8_lossy s h = ascii_lossy_from s h

-- `chars().count()`: every byte but the continuation bytes begins a character.
unfoldable pub count_chars : Str → ℕ
count_chars [] = 0
count_chars (c ∷ s) = let rest = count_chars s in if is_continuation c then rest else suc rest
