-- ===== src/Profile/Latest/Bundles.antt =====
-- The profiles of one bundle among those that `latest_by_bundle` of src/profile.rs returns.
use alt_keeper.Profile.Latest.Unique.{IsDistinct, IsApart, latest_by_bundle-All}
use alt_keeper.Base.{
  some, ◌∙◌, [], sym, Option, ◌≡◌, arith, inr, none, refl, ◌∷◌, ℕ, List, inl, All, ◌↔◌,
}
use alt_keeper.Profile.Latest.Winners.{In, IsFor, EndsNoEarlier, latest_by_bundle_covers}
use alt_keeper.Base.Text.{Str}
use alt_keeper.Profile.Parse.{PhoneProfile}
use mathlib.Core.Path.{subst}
use alt_keeper.Profile.Latest.{latest_by_bundle}

-- `p` is a profile of the list and of the bundle.
abbrev pub IsOf : Str → List PhoneProfile → PhoneProfile → Type 0
IsOf b ps p = In p ps × (p.bundle_id ≡ some b)

EndsNoEarlier-refl : (o : Option ℕ) → EndsNoEarlier o o
unfolding EndsNoEarlier
EndsNoEarlier-refl none = tt
EndsNoEarlier-refl (some n) = omega arith

pub All-In :
    (qs ps : List PhoneProfile) → ((p : PhoneProfile) → In p qs → In p ps) → All (λ p. In p ps) qs
unfolding In
All-In [] ps k = tt
All-In (q ∷ qs) ps k = (k q (inl refl), All-In qs ps λ p h. k p (inr h))

pub All-at :
    (P : PhoneProfile → Type 0) (ps : List PhoneProfile)
    → All P ps
    → (p : PhoneProfile) → In p ps
    → P p
unfolding In
All-at P [] h p k = absurd k
All-at P (q ∷ qs) (hq, h) p (inl e) = subst P (sym e) hq
All-at P (q ∷ qs) (hq, h) p (inr k) = All-at P qs h p k

-- Two entries of one bundle, in a list that has each bundle once, are one.
pub IsDistinct→eq :
    (b : Str) (ps : List PhoneProfile) (p q : PhoneProfile)
    → IsDistinct ps
    → IsOf b ps p
    → IsOf b ps q
    → p ≡ q
unfolding IsDistinct In IsApart
IsDistinct→eq b [] p q d (h, _) _ = absurd h
IsDistinct→eq b (r ∷ rs) p q (apart, d) (inl e, pb) (inl f, qb) = e ∙ sym f
IsDistinct→eq b (r ∷ rs) p q (apart, d) (inl e, pb) (inr k, qb) = absurd (
    All-at (λ s. IsApart r.bundle_id s.bundle_id) rs apart q k b
      (subst (λ (s : PhoneProfile). s.bundle_id ≡ some b) e pb) qb)
IsDistinct→eq b (r ∷ rs) p q (apart, d) (inr h, pb) (inl f, qb) = absurd (
    All-at (λ s. IsApart r.bundle_id s.bundle_id) rs apart p h b
      (subst (λ (s : PhoneProfile). s.bundle_id ≡ some b) f qb) pb)
IsDistinct→eq b (r ∷ rs) p q (apart, d) (inr h, pb) (inr k, qb) =
    IsDistinct→eq b rs p q d (h, pb) (k, qb)

-- What stands for a profile of a bundle is of that bundle and ends no earlier.
pub IsFor-bundle :
    (b : Str) (q p : PhoneProfile)
    → IsFor q p
    → p.bundle_id ≡ some b
    → (q.bundle_id ≡ some b) × EndsNoEarlier q.expires p.expires
unfolding IsFor
IsFor-bundle b q p (inl e) pb = (
  subst (λ (r : PhoneProfile). r.bundle_id ≡ some b) (sym e) pb,
  subst (λ (r : PhoneProfile). EndsNoEarlier r.expires p.expires) (sym e)
      (EndsNoEarlier-refl p.expires),
)
IsFor-bundle b q p (inr (c, qc, pc, h)) pb = (qc ∙ (sym pc ∙ pb), h)

-- `latest_by_bundle` loses no bundle and adds none.
pub latest_by_bundle-IsOf :
    (b : Str) (ps : List PhoneProfile)
    → ((p : PhoneProfile) × IsOf b (latest_by_bundle ps) p) ↔ ((p : PhoneProfile) × IsOf b ps p)
latest_by_bundle-IsOf b ps = (
  λ (p, (there, pb)). (
    p,
    (
      All-at (λ q. In q ps) (latest_by_bundle ps)
          (latest_by_bundle-All (λ q. In q ps) ps (All-In ps ps λ q h. h)) p there,
      pb,
    ),
  ),
  λ (p, (there, pb)).
      let (q, there', for') = latest_by_bundle_covers ps p there in
      (q, (there', (IsFor-bundle b q p for' pb).0)),
)
