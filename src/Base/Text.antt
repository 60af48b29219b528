-- ===== src/Base/Text.antt =====
-- Rust's `str` as its UTF-8 bytes, with the methods of the standard library that the program calls.
use mathlib.Core.Option
use Prim.Native.Nat.{ℕ, ◌+◌, ◌-◌, ◌*◌, ◌<◌}
use Prim.Native.Char.{code}
use Prim.Native.String.{String}
use mathlib.Core.Path.{◌≡◌, refl, ap}
use mathlib.Core.Logic.{◌↔◌}
use mathlib.Core.Bool.{Bool, true, false, ◌&&◌}
use mathlib.Core.Option.{Option, none, some}
use mathlib.Core.List.{List, [], ◌∷◌, ◌++◌, map, reverse, reverse-append, reverse-reverse}
use native.Mathlib.Omega.{arith}
use alt_keeper.Base.Tests.{leb, ◌==◌, if◌then◌else◌}
use alt_keeper.Base.Lists.{All}

abbrev pub Str : Type 0
Str = List ℕ

-- The bytes of an ASCII literal.
abbrev pub codes : String → Str
codes String.[] = []
codes (String.◌∷◌ c s) = code c ∷ codes s

abbrev pub IsAscii : ℕ → Type 0
IsAscii c = c < 128

-- `==` on strings.
unfoldable pub str_eq : Str → Str → Bool
str_eq [] [] = true
str_eq (x ∷ a) (y ∷ b) = x == y && str_eq a b
str_eq _ _ = false

pub str_eq_iff : (a b : Str) → (str_eq a b ≡ true) ↔ (a ≡ b)
unfolding str_eq
str_eq_iff (x ∷ a) (y ∷ b) = ground (arith, str_eq_iff a b)
str_eq_iff _ _ = ground arith

abbrev pub is_empty : Str → Bool
is_empty [] = true
is_empty (c ∷ s) = false

-- `u8::to_ascii_lowercase`, and `str::to_ascii_lowercase`.
unfoldable pub lower_byte : ℕ → ℕ
lower_byte c = if leb b'A' c && leb c b'Z' then c + 32 else c

abbrev pub to_ascii_lowercase : Str → Str
to_ascii_lowercase = map lower_byte

unfoldable pub is_ascii_digit : ℕ → Bool
is_ascii_digit c = leb b'0' c && leb c b'9'

-- `str::strip_prefix`.
unfoldable pub strip_prefix : Str → Str → Option Str
strip_prefix [] s = some s
strip_prefix (p ∷ ps) [] = none
strip_prefix (p ∷ ps) (c ∷ s) = let rest = strip_prefix ps s in if p == c then rest else none

-- `str::strip_suffix`: the suffix is a prefix of the reversed text.
unfoldable pub strip_suffix : Str → Str → Option Str
unfolding strip_prefix
strip_suffix p s = Option.map reverse (strip_prefix (reverse p) (reverse s))

-- `str::split` at one ASCII byte: always one piece at least.
abbrev pub onto_first : ℕ → List Str → List Str
onto_first c [] = (c ∷ []) ∷ []
onto_first c (p ∷ ps) = (c ∷ p) ∷ ps

unfoldable pub split : ℕ → Str → List Str
split d [] = [] ∷ []
split d (c ∷ s) = let rest = split d s in if c == d then [] ∷ rest else onto_first c rest

-- `[T]::join`.
unfoldable pub join : ℕ → List Str → Str
join d [] = []
join d (p ∷ []) = p
join d (p ∷ q ∷ ps) = p ++ (d ∷ join d (q ∷ ps))

-- `str::trim_matches` at one ASCII byte.
trim_start : ℕ → Str → Str
trim_start d [] = []
trim_start d (c ∷ s) = let rest = trim_start d s in if c == d then rest else c ∷ s

unfoldable pub trim_matches : ℕ → Str → Str
unfolding trim_start
trim_matches d s = reverse (trim_start d (reverse (trim_start d s)))

-- `str::parse` to an unsigned integer type with this largest value: one leading `+` is accepted,
-- no digit at all, another byte and an overflow are errors.
parse_digits : ℕ → ℕ → Str → Option ℕ
parse_digits largest acc [] = some acc
parse_digits largest acc (c ∷ s) =
    let acc' = acc * 10 + (c - b'0') in
    let rest = parse_digits largest acc' s in
    if is_ascii_digit c && leb acc' largest then rest else none

unsigned_body : Str → Str
unsigned_body [] = []
unsigned_body (c ∷ s) = if c == b'+' then s else c ∷ s

digits_or_none : ℕ → Str → Option ℕ
digits_or_none largest [] = none
digits_or_none largest (c ∷ s) = parse_digits largest 0 (c ∷ s)

unfoldable pub parse_unsigned : ℕ → Str → Option ℕ
unfolding parse_digits digits_or_none unsigned_body is_ascii_digit
parse_unsigned largest s = digits_or_none largest (unsigned_body s)

lower_byte-IsAscii : (c : ℕ) → IsAscii (lower_byte c) → IsAscii c
unfolding lower_byte
lower_byte-IsAscii c h = ground arith

pub lowercase-IsAscii : (s : Str) → All IsAscii (to_ascii_lowercase s) → All IsAscii s
lowercase-IsAscii [] h = tt
lowercase-IsAscii (c ∷ s) (hc, hs) = (lower_byte-IsAscii c hc, lowercase-IsAscii s hs)

pub All-prefix {κ} : (P : ℕ → Type κ) (xs ys : Str) → All P (xs ++ ys) → All P xs × All P ys
All-prefix P [] ys h = (tt, h)
All-prefix P (x ∷ xs) ys (hx, h) = let (l, r) = All-prefix P xs ys h in ((hx, l), r)

pub All-join {κ} : (P : ℕ → Type κ) (d : ℕ) (ls : List Str) → All P (join d ls) → All (All P) ls
unfolding join
All-join P d [] h = tt
All-join P d (l ∷ []) h = (h, tt)
All-join P d (l ∷ m ∷ ls) h =
    let (hl, hr) = All-prefix P l (d ∷ join d (m ∷ ls)) h in (hl, All-join P d (m ∷ ls) hr.1)

lower_byte_idem : (c : ℕ) → lower_byte (lower_byte c) ≡ lower_byte c
unfolding lower_byte
lower_byte_idem c = ground arith

-- A text with no capital ASCII letter.
abbrev pub IsLower : Str → Type 0
IsLower s = to_ascii_lowercase s ≡ s

pub lowercase-IsLower : (s : Str) → IsLower (to_ascii_lowercase s)
lowercase-IsLower [] = refl
lowercase-IsLower (c ∷ s) = cc (lower_byte_idem c, lowercase-IsLower s)

pub str_eq_refl : (s : Str) → str_eq s s ≡ true
str_eq_refl s = (str_eq_iff s s).1 refl

pub strip_prefix-append : (p s : Str) → strip_prefix p (p ++ s) ≡ some s
unfolding strip_prefix
strip_prefix-append [] s = refl
strip_prefix-append (c ∷ p) s = ground (arith, strip_prefix-append p s)

pub strip_suffix-append : (s p : Str) → strip_suffix p (s ++ p) ≡ some s
unfolding strip_suffix
strip_suffix-append s p =
    rw (reverse-append s p, strip_prefix-append (reverse p) (reverse s))
      (ap some (reverse-reverse s))
