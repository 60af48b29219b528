-- ===== src/Web/Compare.antt =====
-- `ct_eq` of src/web.rs: a comparison whose time depends on the lengths alone.
use alt_keeper.Base.{
  Bool, zero, inr, true, arith, ◌↔◌, ◌<◌, bit_or, inl, ◌+◌, ◌==◌, ◌≤◌, [], ◌≡◌, refl, bit_xor, ℕ,
  ◌∷◌, suc, ==_iff, get_or, length, Bool-cases,
}
use alt_keeper.Base.Bytes.{Bytes}
use alt_keeper.Base.Bits.{bit_xor_self, bit_or_zero, bit_xor_zero}
use Prim.Native.Nat.{max}
use mathlib.Core.Path.{ap₂}

-- The loop from index `i`, with `n` rounds to go: each round adds the bits in which two bytes
-- differ; a byte that is not there counts as 0.
ct_loop : ℕ → ℕ → Bytes → Bytes → ℕ → ℕ
ct_loop zero i a b diff = diff
ct_loop (suc n) i a b diff =
    ct_loop n (i + 1) a b (bit_or diff (bit_xor (get_or a i 0) (get_or b i 0)))

unfoldable pub ct_eq : Bytes → Bytes → Bool
unfolding ct_loop
ct_eq a b = ct_loop (max (length a) (length b)) 0 a b (bit_xor (length a) (length b)) == 0

-- A result of zero means that nothing differed, at the start or on the way.
ct_loop_zero :
    (n i : ℕ) (a b : Bytes) (diff : ℕ)
    → ct_loop n i a b diff ≡ 0
    → (diff ≡ 0) × ((j : ℕ) → i ≤ j → j < i + n → get_or a j 0 ≡ get_or b j 0)
unfolding ct_loop
ct_loop_zero zero i a b diff h = (h, λ j lo hi. absurd (omega arith))
ct_loop_zero (suc n) i a b diff h =
    let (before, later) =
      ct_loop_zero n (i + 1) a b (bit_or diff (bit_xor (get_or a i 0) (get_or b i 0))) h in
    let (was, here) = bit_or_zero diff (bit_xor (get_or a i 0) (get_or b i 0)) before in
    (
      was,
      λ j lo hi. elim (Bool-cases (j == i)) [
        | inl same ↦ rw ((==_iff j i).0 same) (bit_xor_zero (get_or a i 0) (get_or b i 0) here)
        | inr other ↦ later j (ground arith) (omega arith)
      ],
    )

ct_loop_same : (n i : ℕ) (a : Bytes) → ct_loop n i a a 0 ≡ 0
unfolding ct_loop
ct_loop_same zero i a = refl
ct_loop_same (suc n) i a = rw (bit_xor_self (get_or a i 0)) (ct_loop_same n (i + 1) a)

same_bytes :
    (a b : Bytes)
    → length a ≡ length b
    → ((j : ℕ) → j < length a → get_or a j 0 ≡ get_or b j 0)
    → a ≡ b
same_bytes [] [] e h = refl
same_bytes [] (y ∷ b) e h = absurd (omega arith)
same_bytes (x ∷ a) [] e h = absurd (omega arith)
same_bytes (x ∷ a) (y ∷ b) e h =
    ap₂ ◌∷◌ (h 0 (omega arith)) (same_bytes a b (omega arith) (λ j lt. h (suc j) (omega arith)))

-- `ct_eq` decides equality of byte strings, of whatever lengths.
pub ct_eq_iff : (a b : Bytes) → (ct_eq a b ≡ true) ↔ (a ≡ b)
unfolding ct_eq
ct_eq_iff a b = (
  λ h.
      let zero_end = (==_iff _ _).0 h in
      let (lengths, bytes) =
        ct_loop_zero (max (length a) (length b)) 0 a b (bit_xor (length a) (length b)) zero_end in
      same_bytes a b (bit_xor_zero (length a) (length b) lengths)
        (λ j lt. bytes j (omega arith) (omega arith)),
  λ e.
      rw (← e) (
        rw (bit_xor_self (length a))
          (ground (arith, ct_loop_same (max (length a) (length a)) 0 a))),
)
