-- ===== src/Web/Views/Sorted.antt =====
-- The order of the rows of `app_views` of src/web.rs.
use alt_keeper.Profile.Latest.{ℤ, pos, negsuc}
use alt_keeper.Base.{
  [], ◌≡◌, inr, arith, refl, ◌⊎◌, true, ◌∷◌, false, List, ap, inl, Bool-cases, All, ltb, ◌∙◌, sym,
  if_both,
}
use alt_keeper.Web.Views.{int_lt, str_leb, AppView, comes_first, insert_view, sort_views}
use alt_keeper.Base.Text.{Str}
use mathlib.Core.Path.{subst}

-- Each row comes no later than those after it: fewer days first, then by label.
unfoldable pub IsSorted : List AppView → Type 0
IsSorted [] = Unit
IsSorted (v ∷ vs) = All (λ u. comes_first v u ≡ true) vs × IsSorted vs

int_lt-cases : (a b : ℤ) → (int_lt a b ≡ true) ⊎ ((a ≡ b) ⊎ (int_lt b a ≡ true))
unfolding int_lt
int_lt-cases (pos m) (pos n) = elim (Bool-cases (ltb m n)) [
  | inl l ↦ inl l
  | inr l ↦ elim (Bool-cases (ltb n m)) [
    | inl k ↦ inr (inr k)
    | inr k ↦ let same : m ≡ n = ground arith in inr (inl (ap pos same))
  ]
]
int_lt-cases (pos m) (negsuc n) = inr (inr refl)
int_lt-cases (negsuc m) (pos n) = inl refl
int_lt-cases (negsuc m) (negsuc n) = elim (Bool-cases (ltb n m)) [
  | inl l ↦ inl l
  | inr l ↦ elim (Bool-cases (ltb m n)) [
    | inl k ↦ inr (inr k)
    | inr k ↦ let same : m ≡ n = ground arith in inr (inl (ap negsuc same))
  ]
]

int_lt_irrefl : (a : ℤ) → int_lt a a ≡ false
unfolding int_lt
int_lt_irrefl (pos m) = ground arith
int_lt_irrefl (negsuc m) = ground arith

int_lt_trans : (a b c : ℤ) → int_lt a b ≡ true → int_lt b c ≡ true → int_lt a c ≡ true
unfolding int_lt
int_lt_trans (pos a) (pos b) (pos c) h k = ground arith
int_lt_trans (pos a) (pos b) (negsuc c) h k = absurd (cc k)
int_lt_trans (pos a) (negsuc b) c h k = absurd (cc h)
int_lt_trans (negsuc a) (pos b) (pos c) h k = refl
int_lt_trans (negsuc a) (pos b) (negsuc c) h k = absurd (cc k)
int_lt_trans (negsuc a) (negsuc b) (pos c) h k = refl
int_lt_trans (negsuc a) (negsuc b) (negsuc c) h k = ground arith

str_leb-total : (s t : Str) → str_leb s t ≡ false → str_leb t s ≡ true
unfolding str_leb
str_leb-total [] t h = absurd (cc h)
str_leb-total (c ∷ s) [] h = refl
str_leb-total (c ∷ s) (d ∷ t) h = ground (arith, str_leb-total s t)

str_leb_trans : (s t u : Str) → str_leb s t ≡ true → str_leb t u ≡ true → str_leb s u ≡ true
unfolding str_leb
str_leb_trans [] t u h k = refl
str_leb_trans (c ∷ s) [] u h k = absurd (cc h)
str_leb_trans (c ∷ s) (d ∷ t) [] h k = absurd (cc k)
str_leb_trans (c ∷ s) (d ∷ t) (e ∷ u) h k = ground (arith, str_leb_trans s t u)

int_lt-asym : (a b : ℤ) → int_lt a b ≡ true → int_lt b a ≡ false
int_lt-asym a b h = elim (Bool-cases (int_lt b a)) [
  | inl back ↦ absurd (cc (int_lt_trans a b a h back, int_lt_irrefl a))
  | inr no' ↦ no'
]

-- Fewer days, or as many and a label that is no later.
IsBefore : AppView → AppView → Type 0
IsBefore v u =
    (int_lt v.days u.days ≡ true) ⊎ ((v.days ≡ u.days) × (str_leb v.label u.label ≡ true))

comes_first→before : (v u : AppView) → comes_first v u ≡ true → IsBefore v u
unfolding comes_first IsBefore
comes_first→before v u h = elim (int_lt-cases v.days u.days) [
  | inl l ↦ inl l
  | inr (inl same) ↦ inr (same, rw (same, int_lt_irrefl u.days) at h)
  | inr (inr later) ↦ absurd (cc (rw (int_lt-asym u.days v.days later, later) at h))
]

before→comes_first : (v u : AppView) → IsBefore v u → comes_first v u ≡ true
unfolding comes_first IsBefore
before→comes_first v u (inl l) = rw l refl
before→comes_first v u (inr (same, l)) = rw (same, int_lt_irrefl u.days, l) refl

comes_first-total : (v u : AppView) → comes_first v u ≡ false → comes_first u v ≡ true
unfolding IsBefore
comes_first-total v u h = elim (int_lt-cases v.days u.days) [
  | inl l ↦ absurd (cc (before→comes_first v u (inl l), h))
  | inr (inr later) ↦ before→comes_first u v (inl later)
  | inr (inl same) ↦ elim (Bool-cases (str_leb v.label u.label)) [
    | inl l ↦ absurd (cc (before→comes_first v u (inr (same, l)), h))
    | inr l ↦ before→comes_first u v (inr (sym same, str_leb-total v.label u.label l))
  ]
]

IsBefore-trans : (v u x : AppView) → IsBefore v u → IsBefore u x → IsBefore v x
unfolding IsBefore
IsBefore-trans v u x (inl h) (inl k) = inl (int_lt_trans v.days u.days x.days h k)
IsBefore-trans v u x (inl h) (inr (same, k)) = inl (subst (λ d. int_lt v.days d ≡ true) same h)
IsBefore-trans v u x (inr (same, h)) (inl k) =
    inl (subst (λ d. int_lt d x.days ≡ true) (sym same) k)
IsBefore-trans v u x (inr (e, h)) (inr (f, k)) =
    inr (e ∙ f, str_leb_trans v.label u.label x.label h k)

comes_first_trans :
    (v u x : AppView) → comes_first v u ≡ true → comes_first u x ≡ true → comes_first v x ≡ true
comes_first_trans v u x h k =
    before→comes_first v x
      (IsBefore-trans v u x (comes_first→before v u h) (comes_first→before u x k))

All-insert_view :
    (P : AppView → Type 0) (v : AppView) (us : List AppView)
    → P v
    → All P us
    → All P (insert_view v us)
unfolding insert_view
All-insert_view P v [] h k = (h, tt)
All-insert_view P v (u ∷ us) h (ku, k) =
    if_both (All P) (comes_first v u) (v ∷ u ∷ us) (u ∷ insert_view v us) (h, (ku, k))
      (ku, All-insert_view P v us h k)

All-first :
    (v u : AppView) (us : List AppView)
    → comes_first v u ≡ true
    → All (λ x. comes_first u x ≡ true) us
    → All (λ x. comes_first v x ≡ true) us
All-first v u [] h k = tt
All-first v u (x ∷ us) h (kx, k) = (comes_first_trans v u x h kx, All-first v u us h k)

insert_view-IsSorted : (v : AppView) (us : List AppView) → IsSorted us → IsSorted (insert_view v us)
unfolding insert_view IsSorted
insert_view-IsSorted v [] h = (tt, tt)
insert_view-IsSorted v (u ∷ us) (first, h) = elim (Bool-cases (comes_first v u)) [
  | inl l ↦ rw l ((l, All-first v u us l first), (first, h))
  | inr l ↦ rw l (
    All-insert_view (λ x. comes_first u x ≡ true) v us (comes_first-total v u l) first,
    insert_view-IsSorted v us h,
  )
]

-- The rows of `sort_views` are in order.
pub sort_views-IsSorted : (vs : List AppView) → IsSorted (sort_views vs)
unfolding sort_views IsSorted
sort_views-IsSorted [] = tt
sort_views-IsSorted (v ∷ vs) = insert_view-IsSorted v (sort_views vs) (sort_views-IsSorted vs)
