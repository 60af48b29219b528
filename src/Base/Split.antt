-- ===== src/Base/Split.antt =====
-- What splitting a text at a byte gives, where its pieces do not hold that byte.
use mathlib.Core.List.{◌++◌, [], ◌∷◌, List}
use mathlib.Core.Path.{refl, ◌∙◌, ap, ◌≡◌}
use mathlib.Core.Logic.{◌≢◌}
use Prim.Native.Nat.{ℕ}
use native.Mathlib.Omega.{arith}
use alt_keeper.Base.Text.{join, split, Str}
use alt_keeper.Base.Lists.{All}

-- A text without a byte.
abbrev pub Has : ℕ → Str → Type 0
Has d = All (λ c. c ≢ d)

module _ (d : ℕ) where
  pub split_last : (p : Str) → Has d p → split d p ≡ p ∷ []
  unfolding split
  split_last [] h = refl
  split_last (c ∷ p) (hc, hp) = ground (arith, split_last p hp)

  pub split_more : (p s : Str) → Has d p → split d (p ++ d ∷ s) ≡ p ∷ split d s
  unfolding split
  split_more [] s h = ground arith
  split_more (c ∷ p) s (hc, hp) = ground (arith, split_more p s hp)

  -- Splitting undoes joining, where no part holds the separator.
  pub split-join :
      (l : Str) (ls : List Str) → All (Has d) (l ∷ ls) → split d (join d (l ∷ ls)) ≡ l ∷ ls
  unfolding join
  split-join l [] (hl, _) = split_last l hl
  split-join l (m ∷ ls) (hl, hls) = split_more l _ hl ∙ ap (◌∷◌ l) (split-join m ls hls)
