-- ===== src/Base/Distinct.antt =====
-- Lists without repetition.
use mathlib.Core.List.{◌++◌, ◌∷◌, List, []}
use mathlib.Core.Logic.{◌≢◌}
use alt_keeper.Base.Lists.{All}

module _ {ℓ} {A : Type ℓ} where
  abbrev pub IsDistinct : List A → Type ℓ
  IsDistinct [] = Unit
  IsDistinct (x ∷ xs) = All (λ y. x ≢ y) xs × IsDistinct xs

  All-append_right : (P : A → Type ℓ) (xs ys : List A) → All P (xs ++ ys) → All P xs × All P ys
  All-append_right P [] ys h = (tt, h)
  All-append_right P (x ∷ xs) ys (p, h) = let (l, r) = All-append_right P xs ys h in ((p, l), r)

  pub All-append {κ} : (P : A → Type κ) (xs ys : List A) → All P xs → All P ys → All P (xs ++ ys)
  All-append P [] ys h k = k
  All-append P (x ∷ xs) ys (p, h) k = (p, All-append P xs ys h k)

  pub IsDistinct-prefix : (xs ys : List A) → IsDistinct (xs ++ ys) → IsDistinct xs
  IsDistinct-prefix [] ys h = tt
  IsDistinct-prefix (x ∷ xs) ys (apart, h) =
      ((All-append_right (λ y. x ≢ y) xs ys apart).0, IsDistinct-prefix xs ys h)

  -- Each element of the second list is apart from all of the first.
  pub IsDistinct-append :
      (xs ys : List A)
      → IsDistinct xs
      → IsDistinct ys
      → All (λ y. All (λ x. x ≢ y) xs) ys
      → IsDistinct (xs ++ ys)
  IsDistinct-append [] ys h k apart = k
  IsDistinct-append (x ∷ xs) ys (hx, h) k apart = (
    All-append (λ y. x ≢ y) xs ys hx (heads ys apart),
    IsDistinct-append xs ys h k (tails ys apart),
  )
    where
      heads : (zs : List A) → All (λ y. All (λ z. z ≢ y) (x ∷ xs)) zs → All (λ y. x ≢ y) zs
      heads [] a = tt
      heads (z ∷ zs) ((p, _), a) = (p, heads zs a)

      tails :
          (zs : List A)
          → All (λ y. All (λ z. z ≢ y) (x ∷ xs)) zs
          → All (λ y. All (λ z. z ≢ y) xs) zs
      tails [] a = tt
      tails (z ∷ zs) ((_, q), a) = (q, tails zs a)
