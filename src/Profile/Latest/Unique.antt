-- ===== src/Profile/Latest/Unique.antt =====
-- `latest_by_bundle` of src/profile.rs makes up no profile and returns one for each bundle.
use alt_keeper.Base.{
  inl, some, ◌∷◌, false, sym, inr, [], Option, ◌∙◌, none, true, ◌≡◌, ◌≢◌, List, All,
}
use alt_keeper.Profile.Latest.{keep_latest, latest_by_bundle, latest_loop, same_bundle}
use alt_keeper.Base.Text.{Str, str_eq, str_eq_iff}
use alt_keeper.Profile.Parse.{PhoneProfile}
use alt_keeper.Profile.Latest.Winners.{keep_latest_cases, same_bundle-some}
use mathlib.Core.Path.{subst}

-- Two profiles do not have one bundle.
unfoldable pub IsApart : Option Str → Option Str → Type 0
IsApart o m = (b : Str) → o ≡ some b → m ≢ some b

-- No two profiles have the same bundle.
unfoldable pub IsDistinct : List PhoneProfile → Type 0
IsDistinct [] = Unit
IsDistinct (q ∷ qs) = All (λ r. IsApart q.bundle_id r.bundle_id) qs × IsDistinct qs

same_bundle-IsApart : (o m : Option Str) → same_bundle o m ≡ false → IsApart m o
unfolding same_bundle IsApart
same_bundle-IsApart none m h b p q = cc q
same_bundle-IsApart (some c) none h b p q = cc p
same_bundle-IsApart (some c) (some d) h b p q =
    let same : d ≡ c = cc (p, q) in
    let hit : str_eq d c ≡ true = (str_eq_iff d c).1 same in cc (hit, h)

All-keep_latest :
    (P : PhoneProfile → Type 0) (p : PhoneProfile) (qs : List PhoneProfile)
    → P p
    → All P qs
    → All P (keep_latest p qs)
unfolding keep_latest
All-keep_latest P p [] hp h = (hp, tt)
All-keep_latest P p (q ∷ qs) hp (hq, h) = elim (keep_latest_cases p q qs) [
  | inl (_, _, e) ↦ rw e (hp, h)
  | inr (inl (_, _, e)) ↦ rw e (hq, h)
  | inr (inr (_, e)) ↦ rw e (hq, All-keep_latest P p qs hp h)
]

keep_latest-IsDistinct :
    (p : PhoneProfile) (qs : List PhoneProfile) → IsDistinct qs → IsDistinct (keep_latest p qs)
unfolding keep_latest IsDistinct
keep_latest-IsDistinct p [] h = (tt, tt)
keep_latest-IsDistinct p (q ∷ qs) (apart, h) = elim (keep_latest_cases p q qs) [
  | inl (same, _, e) ↦
      let (b, pb, qb) = same_bundle-some p.bundle_id q.bundle_id same in
      rw e
        (subst (λ o. All (λ (r : PhoneProfile). IsApart o r.bundle_id) qs) (qb ∙ sym pb) apart, h)
  | inr (inl (_, _, e)) ↦ rw e (apart, h)
  | inr (inr (no', e)) ↦ rw e (
    All-keep_latest (λ r. IsApart q.bundle_id r.bundle_id) p qs
        (same_bundle-IsApart p.bundle_id q.bundle_id no') apart,
    keep_latest-IsDistinct p qs h,
  )
]

IsDistinct-loop :
    (ps latest : List PhoneProfile) → IsDistinct latest → IsDistinct (latest_loop latest ps)
unfolding latest_loop
IsDistinct-loop [] latest h = h
IsDistinct-loop (p ∷ ps) latest h =
    IsDistinct-loop ps (keep_latest p latest) (keep_latest-IsDistinct p latest h)

-- No two profiles that `latest_by_bundle` returns have the same bundle.
pub latest_by_bundle-IsDistinct : (ps : List PhoneProfile) → IsDistinct (latest_by_bundle ps)
unfolding latest_by_bundle IsDistinct
latest_by_bundle-IsDistinct ps = IsDistinct-loop ps [] tt

All-loop :
    (P : PhoneProfile → Type 0) (ps latest : List PhoneProfile)
    → All P latest
    → All P ps
    → All P (latest_loop latest ps)
unfolding latest_loop
All-loop P [] latest h k = h
All-loop P (p ∷ ps) latest h (kp, k) =
    All-loop P ps (keep_latest p latest) (All-keep_latest P p latest kp h) k

-- What holds of every profile given holds of every profile that `latest_by_bundle` returns: none is
-- made up.
pub latest_by_bundle-All :
    (P : PhoneProfile → Type 0) (ps : List PhoneProfile) → All P ps → All P (latest_by_bundle ps)
unfolding latest_by_bundle
latest_by_bundle-All P ps h = All-loop P ps [] tt h
