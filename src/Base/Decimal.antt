-- ===== src/Base/Decimal.antt =====
-- Numbers below 256 as they are written in an address, for statements about what is parsed.
use mathlib.Core.Logic.{inl, ◌≢◌, inr}
use Prim.Native.Nat.{ℕ, ◌+◌, ◌<◌, ◌/◌, ◌%◌}
use mathlib.Core.Option.{some, none, Option}
use mathlib.Core.Path.{◌≡◌, refl, ap}
use mathlib.Core.List.{◌∷◌, []}
use mathlib.Core.Bool.{Bool, true, false}
use alt_keeper.Base.Tests.{◌==◌, if◌then◌else◌, ==_iff, Bool-cases, ltb}
use native.Mathlib.Omega.{arith}
use alt_keeper.Base.Bits.{table, table_sound}
use alt_keeper.Base.Text.{Str, parse_unsigned}
use alt_keeper.Base.Lists.{All}

-- No leading zeros.
unfoldable pub decimal : ℕ → Str
decimal n =
    if ltb n 10
    then (b'0' + n) ∷ []
    else if ltb n 100
    then (b'0' + n / 10) ∷ (b'0' + n % 10) ∷ []
    else (b'0' + n / 100) ∷ (b'0' + n / 10 % 10) ∷ (b'0' + n % 10) ∷ []

abbrev is_some_of : ℕ → Option ℕ → Bool
is_some_of n none = false
is_some_of n (some m) = m == n

is_some_of→eq : (n : ℕ) (o : Option ℕ) → is_some_of n o ≡ true → o ≡ some n
is_some_of→eq n none h = cc
is_some_of→eq n (some m) h = ap some ((==_iff m n).0 h)

-- `parse::<u8>` reads back what is written.
pub parse_unsigned-decimal : (n : ℕ) → n < 256 → parse_unsigned 255 (decimal n) ≡ some n
unfolding table decimal parse_unsigned
parse_unsigned-decimal n h =
    is_some_of→eq n (parse_unsigned 255 (decimal n))
      (table_sound 256 (λ n. is_some_of n (parse_unsigned 255 (decimal n))) n refl h)

pub decimal_no_dot : (n : ℕ) → All (λ c. c ≢ b'.') (decimal n)
unfolding decimal
decimal_no_dot n = elim (Bool-cases (ltb n 10)) [
  | inl small ↦ rw small (omega arith)
  | inr other ↦ elim (Bool-cases (ltb n 100)) [
    | inl two ↦ rw (other, two) (omega arith)
    | inr three ↦ rw (other, three) (omega arith)
  ]
]
