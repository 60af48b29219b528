-- ===== src/Profile/Latest/Winners.antt =====
-- Which profiles `latest_by_bundle` of src/profile.rs keeps.
use alt_keeper.Profile.Latest.{is_later, same_bundle, keep_latest, latest_loop, latest_by_bundle}
use alt_keeper.Base.{
  ℕ, false, Option, ap, none, ◌⊎◌, arith, List, ◌≡◌, refl, inl, [], some, ◌∙◌, sym, ◌∷◌, inr, true,
  Bool-cases, ◌≤◌,
}
use alt_keeper.Profile.Parse.{PhoneProfile}
use alt_keeper.Base.Text.{Str, str_eq_iff}
use mathlib.Core.Path.{subst}

unfoldable pub In : PhoneProfile → List PhoneProfile → Type 0
In p [] = ⊥
In p (q ∷ qs) = (p ≡ q) ⊎ In p qs

-- The first expiry is no earlier than the second; no date counts as the earliest.
unfoldable pub EndsNoEarlier : Option ℕ → Option ℕ → Type 0
EndsNoEarlier q none = Unit
EndsNoEarlier none (some p) = ⊥
EndsNoEarlier (some q) (some p) = p ≤ q

-- `q` stands for `p`: it is `p`, or a profile of the same bundle that expires no earlier.
unfoldable pub IsFor : PhoneProfile → PhoneProfile → Type 0
IsFor q p =
    (q ≡ p)
    ⊎ ((b : Str) × (q.bundle_id ≡ some b)
        × (p.bundle_id ≡ some b)
        × EndsNoEarlier q.expires p.expires)

pub same_bundle-some :
    (o m : Option Str) → same_bundle o m ≡ true → (b : Str) × (o ≡ some b) × (m ≡ some b)
unfolding same_bundle
same_bundle-some none m h = absurd (cc h)
same_bundle-some (some b) none h = absurd (cc h)
same_bundle-some (some b) (some c) h = (b, refl, ap some ((str_eq_iff c b).0 h))

EndsNoEarlier-trans : (a b c : Option ℕ) → EndsNoEarlier a b → EndsNoEarlier b c → EndsNoEarlier a c
unfolding EndsNoEarlier
EndsNoEarlier-trans a b none h k = tt
EndsNoEarlier-trans a none (some z) h k = absurd k
EndsNoEarlier-trans none (some y) (some z) h k = h
EndsNoEarlier-trans (some x) (some y) (some z) h k = omega arith

later_ends : (a b : Option ℕ) → is_later a b ≡ true → EndsNoEarlier a b
unfolding is_later EndsNoEarlier
later_ends none b h = absurd (cc h)
later_ends (some x) none h = tt
later_ends (some x) (some y) h = ground arith

not_later_ends : (a b : Option ℕ) → is_later a b ≡ false → EndsNoEarlier b a
unfolding is_later EndsNoEarlier
not_later_ends none b h = tt
not_later_ends (some x) none h = absurd (cc h)
not_later_ends (some x) (some y) h = ground arith

IsFor-trans : (p q r : PhoneProfile) → IsFor p q → IsFor q r → IsFor p r
unfolding IsFor
IsFor-trans p q r (inl e) k = subst (λ x. IsFor x r) (sym e) k
IsFor-trans p q r (inr h) (inl e) = subst (λ x. IsFor p x) e (inr h)
IsFor-trans p q r (inr (b, pb, qb, h)) (inr (c, qc, rc, k)) =
    inr (b, pb, rc ∙ (sym qc ∙ qb), EndsNoEarlier-trans p.expires q.expires r.expires h k)

-- What `keep_latest` does at the entry that it meets, in its three cases.
pub keep_latest_cases :
    (p q : PhoneProfile) (qs : List PhoneProfile)
    → ((same_bundle p.bundle_id q.bundle_id ≡ true)
        × (is_later p.expires q.expires ≡ true)
        × (keep_latest p (q ∷ qs) ≡ p ∷ qs))
      ⊎ (((same_bundle p.bundle_id q.bundle_id ≡ true)
            × (is_later p.expires q.expires ≡ false)
            × (keep_latest p (q ∷ qs) ≡ q ∷ qs))
          ⊎ ((same_bundle p.bundle_id q.bundle_id ≡ false)
              × (keep_latest p (q ∷ qs) ≡ q ∷ keep_latest p qs)))
unfolding keep_latest
keep_latest_cases p q qs = elim (Bool-cases (same_bundle p.bundle_id q.bundle_id)) [
  | inr no' ↦ inr (inr (no', rw (no', keep_latest) refl))
  | inl yes' ↦ elim (Bool-cases (is_later p.expires q.expires)) [
    | inl l ↦ inl (yes', l, rw (yes', l, keep_latest) refl)
    | inr l ↦ inr (inl (yes', l, rw (yes', l, keep_latest) refl))
  ]
]

-- Some entry of a list stands for `p`.
unfoldable pub IsCovered : PhoneProfile → List PhoneProfile → Type 0
IsCovered p qs = (q : PhoneProfile) × In q qs × IsFor q p

keep_latest-new : (p : PhoneProfile) (qs : List PhoneProfile) → IsCovered p (keep_latest p qs)
unfolding keep_latest In IsFor IsCovered
keep_latest-new p [] = (p, inl refl, inl refl)
keep_latest-new p (q ∷ qs) = elim (keep_latest_cases p q qs) [
  | inl (_, _, e) ↦ rw e (p, inl refl, inl refl)
  | inr (inl (same, l, e)) ↦
      let (b, pb, qb) = same_bundle-some p.bundle_id q.bundle_id same in
      rw e (q, inl refl, inr (b, qb, pb, not_later_ends p.expires q.expires l))
  | inr (inr (_, e)) ↦ let (r, there, stands) = keep_latest-new p qs in rw e (r, inr there, stands)
]

keep_latest-old :
    (p r : PhoneProfile) (qs : List PhoneProfile) → In r qs → IsCovered r (keep_latest p qs)
unfolding In IsFor IsCovered
keep_latest-old p r [] h = absurd h
keep_latest-old p r (q ∷ qs) h = elim (keep_latest_cases p q qs) [
  | inl (same, l, e) ↦
      let (b, pb, qb) = same_bundle-some p.bundle_id q.bundle_id same in
      rw e (elim h [
        | inl r_q ↦
            let first : IsFor p q = inr (b, pb, qb, later_ends p.expires q.expires l) in
            (p, inl refl, subst (IsFor p) (sym r_q) first)
        | inr later ↦ (r, inr later, inl refl)
      ])
  | inr (inl (_, _, e)) ↦ rw e (r, h, inl refl)
  | inr (inr (_, e)) ↦ rw e (elim h [
    | inl r_q ↦ (r, inl r_q, inl refl)
    | inr later ↦ let (s, there, stands) = keep_latest-old p r qs later in (s, inr there, stands)
  ])
]

IsCovered-loop :
    (ps latest : List PhoneProfile) (r : PhoneProfile)
    → IsCovered r latest ⊎ In r ps
    → IsCovered r (latest_loop latest ps)
unfolding latest_loop In IsCovered
IsCovered-loop [] latest r (inl h) = h
IsCovered-loop [] latest r (inr h) = absurd h
IsCovered-loop (p ∷ ps) latest r (inl (q, there, stands)) =
    let (s, kept, first) = keep_latest-old p q latest there in
    IsCovered-loop ps (keep_latest p latest) r (inl (s, kept, IsFor-trans s q r first stands))
IsCovered-loop (p ∷ ps) latest r (inr (inl e)) =
    IsCovered-loop ps (keep_latest p latest) r
      (inl (subst (λ x. IsCovered x (keep_latest p latest)) (sym e) (keep_latest-new p latest)))
IsCovered-loop (p ∷ ps) latest r (inr (inr h)) = IsCovered-loop ps (keep_latest p latest) r (inr h)

-- Every profile is stood for in the result of `latest_by_bundle`: a profile without a bundle by
-- itself, one with a bundle by itself or by one of that bundle that expires no earlier.
pub latest_by_bundle_covers :
    (ps : List PhoneProfile) (p : PhoneProfile)
    → In p ps
    → (q : PhoneProfile) × In q (latest_by_bundle ps) × IsFor q p
unfolding latest_by_bundle IsCovered
latest_by_bundle_covers ps p h = IsCovered-loop ps [] p (inr h)
