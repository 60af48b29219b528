-- ===== src/Base/Bits.antt =====
-- Laws of the bit operations at variables, each from the recursion on binary digits.
use Prim.Native.Nat.{
  digits, bitwise, differ, bit_and-bitwise, bit_or-bitwise, bit_xor-bitwise, ◌%◌, suc, ◌+◌, ℕ, ◌/◌,
  ◌≤◌, bit_or, zero, bit_and, ◌*◌, bit_xor, max, min, ◌<◌, ◌-◌, ◌^◌,
}
use native.Mathlib.Nat.{pow-suc, div-div-eq-div-mul, div-lt_iff_lt-mul}
use native.Mathlib.Omega.{arith}
use mathlib.Core.Path.{ap, refl, ◌≡◌, sym, ◌∙◌}
use mathlib.Core.Bool.{true, Bool, ◌&&◌}
use alt_keeper.Base.Tests.{◌==◌}

-- `f` joins two digits, and `z` is the result once the first number has run out.
module _ (z : ℕ → ℕ) (f : ℕ → ℕ → ℕ) where
  -- Any count of digits that is large enough gives the same number.
  digits_enough : (n m a b : ℕ) → a ≤ n → a ≤ m → digits z f n a b ≡ digits z f m a b
  digits_enough zero zero a b p q = refl
  digits_enough zero (suc m) zero b p q = refl
  digits_enough (suc n) zero zero b p q = refl
  digits_enough (suc n) (suc m) zero b p q = refl
  digits_enough zero (suc m) (suc a) b p q = absurd (omega arith)
  digits_enough (suc n) zero (suc a) b p q = absurd (omega arith)
  digits_enough (suc n) (suc m) (suc a) b p q =
      ap (λ t. t * 2 + f (suc a % 2) (b % 2))
        (digits_enough n m (suc a / 2) (b / 2) (omega arith) (omega arith))

  -- The lowest digits and the rest.
  bitwise_step :
      ((b : ℕ) → z b ≡ z (b / 2) * 2 + f 0 (b % 2))
      → (a b : ℕ) → bitwise z f a b ≡ bitwise z f (a / 2) (b / 2) * 2 + f (a % 2) (b % 2)
  bitwise_step run_out zero b = run_out b
  bitwise_step run_out (suc a) b =
      ap (λ t. t * 2 + f (suc a % 2) (b % 2))
        (digits_enough a (suc a / 2) (suc a / 2) (b / 2) (omega arith) (omega arith))

pub bit_and_step : (a b : ℕ) → bit_and a b ≡ bit_and (a / 2) (b / 2) * 2 + min (a % 2) (b % 2)
bit_and_step a b =
    rw (bit_and-bitwise a b, bit_and-bitwise (a / 2) (b / 2))
      (bitwise_step (λ _. 0) min (λ y. omega arith) a b)

pub bit_or_step : (a b : ℕ) → bit_or a b ≡ bit_or (a / 2) (b / 2) * 2 + max (a % 2) (b % 2)
bit_or_step a b =
    rw (bit_or-bitwise a b, bit_or-bitwise (a / 2) (b / 2))
      (bitwise_step (λ y. y) max (λ y. omega arith) a b)

pub bit_xor_step : (a b : ℕ) → bit_xor a b ≡ bit_xor (a / 2) (b / 2) * 2 + differ (a % 2) (b % 2)
bit_xor_step a b =
    rw (bit_xor-bitwise a b, bit_xor-bitwise (a / 2) (b / 2))
      (bitwise_step (λ y. y) differ (λ y. omega arith) a b)

bit_or_zero_fuel : (n a b : ℕ) → a ≤ n → b ≤ n → bit_or a b ≡ 0 → (a ≡ 0) × (b ≡ 0)
bit_or_zero_fuel zero a b p q h = omega arith
bit_or_zero_fuel (suc n) a b p q h =
    let step = bit_or_step a b in
    let (l, r) = bit_or_zero_fuel n (a / 2) (b / 2) (omega arith) (omega arith) (omega arith) in
    omega (arith, l, r, step)

-- An or is zero only where both are.
pub bit_or_zero : (a b : ℕ) → bit_or a b ≡ 0 → (a ≡ 0) × (b ≡ 0)
bit_or_zero a b = bit_or_zero_fuel (a + b) a b (omega arith) (omega arith)

differ_zero : (x y : ℕ) → differ x y ≡ 0 → x ≡ y
differ_zero zero y h = sym h
differ_zero (suc x) zero h = h
differ_zero (suc x) (suc y) h = ap suc (differ_zero x y h)

differ_self : (x : ℕ) → differ x x ≡ 0
differ_self zero = refl
differ_self (suc x) = differ_self x

bit_xor_zero_fuel : (n a b : ℕ) → a ≤ n → b ≤ n → bit_xor a b ≡ 0 → a ≡ b
bit_xor_zero_fuel zero a b p q h = omega arith
bit_xor_zero_fuel (suc n) a b p q h =
    let step = bit_xor_step a b in
    let rest = bit_xor_zero_fuel n (a / 2) (b / 2) (omega arith) (omega arith) (omega arith) in
    omega (arith, rest, step, differ_zero (a % 2) (b % 2) (omega arith))

-- An exclusive or is zero only where both are the same.
pub bit_xor_zero : (a b : ℕ) → bit_xor a b ≡ 0 → a ≡ b
bit_xor_zero a b = bit_xor_zero_fuel (a + b) a b (omega arith) (omega arith)

bit_xor_self_fuel : (n a : ℕ) → a ≤ n → bit_xor a a ≡ 0
bit_xor_self_fuel zero a p = let e : a ≡ 0 = omega arith in rw e refl
bit_xor_self_fuel (suc n) zero p = refl
bit_xor_self_fuel (suc n) (suc a) p = omega (
  arith,
  bit_xor_step (suc a) (suc a),
  bit_xor_self_fuel n (suc a / 2) (omega arith),
  differ_self (suc a % 2),
)

pub bit_xor_self : (a : ℕ) → bit_xor a a ≡ 0
bit_xor_self a = bit_xor_self_fuel a a (omega arith)

pub pow_pos : (k : ℕ) → 0 < 2 ^ k
pow_pos zero = omega arith
pow_pos (suc k) = rw (pow-suc 2 k) (omega (arith, pow_pos k))

-- A mask of ones that is wide enough changes nothing.
pub bit_and_ones : (k x : ℕ) → x < 2 ^ k → bit_and x (2 ^ k - 1) ≡ x
bit_and_ones zero x h = let e : x ≡ 0 = omega arith in rw e refl
bit_and_ones (suc k) x h =
    let double : 2 ^ suc k ≡ 2 ^ k * 2 = pow-suc 2 k in
    let pos = pow_pos k in
    let half : (2 ^ suc k - 1) / 2 ≡ 2 ^ k - 1 = omega arith in
    let ih : bit_and (x / 2) ((2 ^ suc k - 1) / 2) ≡ x / 2 =
      rw half (bit_and_ones k (x / 2) (omega arith)) in
    omega (arith, ih, bit_and_step x (2 ^ suc k - 1))

-- A mask whose lowest digits are zeros sees only the digits above.
pub bit_and_shifted : (k x m : ℕ) → bit_and x (m * 2 ^ k) ≡ bit_and (x / 2 ^ k) m * 2 ^ k
bit_and_shifted zero x m =
    let e : m * 2 ^ 0 ≡ m = omega arith in
    let d : x / 2 ^ 0 ≡ x = omega arith in rw (e, d) (omega arith)
bit_and_shifted (suc k) x m =
    let double : 2 ^ suc k ≡ 2 * 2 ^ k = omega (arith, pow-suc 2 k) in
    let low : m * 2 ^ suc k ≡ m * 2 ^ k * 2 = rw double (omega arith) in
    let half : m * 2 ^ suc k / 2 ≡ m * 2 ^ k = omega arith in
    let above : x / 2 / 2 ^ k ≡ x / 2 ^ suc k = div-div-eq-div-mul x 2 (2 ^ k) ∙ rw double refl in
    let ih : bit_and (x / 2) (m * 2 ^ suc k / 2) ≡ bit_and (x / 2 ^ suc k) m * 2 ^ k =
      rw (half, ← above) (bit_and_shifted k (x / 2) m) in
    omega (
      arith,
      ih,
      bit_and_step x (m * 2 ^ suc k),
      ap (λ (t : ℕ). bit_and (x / 2 ^ suc k) m * t) double,
    )

-- Over a small range, check every value by evaluation.
unfoldable pub table : ℕ → (ℕ → Bool) → Bool
table zero p = true
table (suc n) p = p n && table n p

pub table_sound : (n : ℕ) (p : ℕ → Bool) (x : ℕ) → table n p ≡ true → x < n → p x ≡ true
unfolding table
table_sound zero p x h lt = absurd (omega arith)
table_sound (suc n) p x h lt = ground (arith, table_sound n p x)

-- The mask of a 32-bit network: `k` zeros below `32 - k` ones.
mask_table :
    (k : ℕ)
    → k < 33
    → (((2 ^ 32 - 1) * 2 ^ k % 2 ^ 32 == (2 ^ (32 - k) - 1) * 2 ^ k)
        && (2 ^ (32 - k) * 2 ^ k == 2 ^ 32))
      ≡ true
unfolding table
mask_table k h =
    table_sound 33
      (λ k.
        ((2 ^ 32 - 1) * 2 ^ k % 2 ^ 32 == (2 ^ (32 - k) - 1) * 2 ^ k)
        && (2 ^ (32 - k) * 2 ^ k == 2 ^ 32))
      k refl h

-- Under the mask a 32-bit word keeps its upper digits.
pub bit_and_mask :
    (k x : ℕ) → k < 33 → x < 2 ^ 32 → bit_and x ((2 ^ 32 - 1) * 2 ^ k % 2 ^ 32) ≡ x / 2 ^ k * 2 ^ k
bit_and_mask k x h small =
    let t = mask_table k h in
    let mask : (2 ^ 32 - 1) * 2 ^ k % 2 ^ 32 ≡ (2 ^ (32 - k) - 1) * 2 ^ k = ground (arith, t) in
    let whole : 2 ^ (32 - k) * 2 ^ k ≡ 2 ^ 32 = ground (arith, t) in
    let upper : x / 2 ^ k < 2 ^ (32 - k) = (div-lt_iff_lt-mul (pow_pos k)).1 (rw whole small) in
    rw (mask, bit_and_shifted k x (2 ^ (32 - k) - 1), bit_and_ones (32 - k) (x / 2 ^ k) upper) refl
