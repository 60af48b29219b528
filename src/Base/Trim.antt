-- ===== src/Base/Trim.antt =====
-- `str::trim` of the standard library: it removes the characters with the Unicode property
-- White_Space, here by their UTF-8 bytes.
use mathlib.Core.List.{[], ◌∷◌, reverse, reverse-reverse, reverse-append}
use Prim.Native.Nat.{ℕ, suc, ◌≤◌, zero, ◌<◌}
use mathlib.Core.Path.{◌≡◌, refl}
use mathlib.Core.Bool.{Bool, ◌&&◌, ◌||◌}
use alt_keeper.Base.Tests.{◌==◌, if◌then◌else◌}
use native.Mathlib.Omega.{arith}
use alt_keeper.Base.Text.{Str}
use alt_keeper.Base.Utf8.{within}
use alt_keeper.Base.Lists.{length, drop, get_or, All, All-append}

pub data Edge : Type 0 where
  from_start from_end : Edge

-- One-byte whitespace: tab to carriage return, and the space.
abbrev one_byte : ℕ → Bool
one_byte c = within 9 13 c || c == 32

-- U+0085 and U+00A0.
abbrev two_bytes : ℕ → ℕ → Bool
two_bytes a b = a == 0xc2 && (b == 0x85 || b == 0xa0)

-- U+1680, U+2000 to U+200A, U+2028, U+2029, U+202F, U+205F and U+3000.
abbrev three_bytes : ℕ → ℕ → ℕ → Bool
three_bytes a b c =
    (a == 0xe1 && (b == 0x9a && c == 0x80))
    || (a == 0xe2 && (b == 0x80 && (within 0x80 0x8a c || (c == 0xa8 || (c == 0xa9 || c == 0xaf)))))
    || (a == 0xe2 && (b == 0x81 && c == 0x9f))
    || (a == 0xe3 && (b == 0x80 && c == 0x80))

-- How many bytes of whitespace stand at the edge; at the end the text is read backwards.
white_bytes : Edge → Str → ℕ
unfolding within
white_bytes from_start s =
    let a = get_or s 0 0 in
    let b = get_or s 1 0 in
    let c = get_or s 2 0 in
    if one_byte a then 1 else if two_bytes a b then 2 else if three_bytes a b c then 3 else 0
white_bytes from_end s =
    let a = get_or s 0 0 in
    let b = get_or s 1 0 in
    let c = get_or s 2 0 in
    if one_byte a then 1 else if two_bytes b a then 2 else if three_bytes c b a then 3 else 0

-- Each round drops a byte at least, so the length of the text is enough rounds.
trim_edge : ℕ → Edge → Str → Str
trim_edge zero e s = s
trim_edge (suc fuel) e s = elim (white_bytes e s) [
  | zero ↦ s
  | suc n ↦ trim_edge fuel e (drop (suc n) s)
]

unfoldable pub trim : Str → Str
unfolding trim_edge white_bytes
trim s =
    let front = trim_edge (length s) from_start s in
    reverse (trim_edge (length front) from_end (reverse front))

-- A printable ASCII byte other than the space.
abbrev pub IsGraphic : ℕ → Type 0
IsGraphic c = (33 ≤ c) × (c < 127)

trim_edge_graphic : (fuel : ℕ) (e : Edge) (s : Str) → All IsGraphic s → trim_edge fuel e s ≡ s
unfolding trim_edge white_bytes
trim_edge_graphic zero e s h = refl
trim_edge_graphic (suc fuel) from_start [] h = refl
trim_edge_graphic (suc fuel) from_end [] h = refl
trim_edge_graphic (suc fuel) from_start (c ∷ s) (hc, hs) =
    let none_here : white_bytes from_start (c ∷ s) ≡ 0 = ground arith in
    rw (none_here, trim_edge) refl
trim_edge_graphic (suc fuel) from_end (c ∷ s) (hc, hs) =
    let none_here : white_bytes from_end (c ∷ s) ≡ 0 = ground arith in
    rw (none_here, trim_edge) refl

All-reverse {κ} : (P : ℕ → Type κ) (s : Str) → All P s → All P (reverse s)
All-reverse P [] h = tt
All-reverse P (c ∷ s) (hc, hs) =
    rw (reverse-append (c ∷ []) s) (All-append P (reverse s) (c ∷ []) (All-reverse P s hs) (hc, tt))

-- A text with no whitespace is left as it is.
pub trim_graphic : (s : Str) → All IsGraphic s → trim s ≡ s
unfolding trim
trim_graphic s h =
    rw
      (
        trim_edge_graphic (length s) from_start s h,
        trim_edge_graphic (length s) from_end (reverse s) (All-reverse IsGraphic s h),
      )
      (reverse-reverse s)
