-- ===== src/Profile/Latest.antt =====
-- `latest_by_bundle` and `days_left` of src/profile.rs.
pub mod Winners
pub mod Unique
pub mod Days
pub mod Bundles
use alt_keeper.Base.{
  ◌*◌, ◌/◌, true, ◌-◌, if◌then◌else◌, some, List, none, Bool, ◌∷◌, Option, ◌^◌, [], ℕ, false, ltb,
  leb,
}
use alt_keeper.Profile.Parse.{PhoneProfile}
use alt_keeper.Base.Text.{Str, str_eq}

-- `p.bundle_id.is_some() && q.bundle_id == p.bundle_id`
unfoldable pub same_bundle : Option Str → Option Str → Bool
same_bundle (some b) (some c) = str_eq c b
same_bundle (some b) none = false
same_bundle none c = false

-- `when(p) > when(q)`: no date is before every date.
unfoldable pub is_later : Option ℕ → Option ℕ → Bool
is_later none q = false
is_later (some p) none = true
is_later (some p) (some q) = ltb q p

-- The body of the loop of `latest_by_bundle`: the first entry of the bundle is replaced where `p`
-- expires later; without one `p` is pushed.
unfoldable pub keep_latest : PhoneProfile → List PhoneProfile → List PhoneProfile
unfolding same_bundle is_later
keep_latest p [] = p ∷ []
keep_latest p (q ∷ qs) =
    let rest = keep_latest p qs in
    if same_bundle p.bundle_id q.bundle_id
    then (if is_later p.expires q.expires then p else q) ∷ qs
    else q ∷ rest

unfoldable pub latest_loop : List PhoneProfile → List PhoneProfile → List PhoneProfile
unfolding keep_latest
latest_loop latest [] = latest
latest_loop latest (p ∷ ps) = latest_loop (keep_latest p latest) ps

unfoldable pub latest_by_bundle : List PhoneProfile → List PhoneProfile
unfolding latest_loop
latest_by_bundle ps = latest_loop [] ps

-- Days as the program counts them: `pos n`, and `negsuc n` for -n - 1.
pub data ℤ : Type 0 where
  pos : ℕ → ℤ
  negsuc : ℕ → ℤ

-- `days_left`, at the instant `now`.
unfoldable pub days_left : ℕ → Option ℕ → Option ℤ
days_left now none = none
days_left now (some exp) =
    let day = 10 ^ 9 * 86400 in
    some (if leb now exp then pos ((exp - now) / day) else negsuc ((now - exp) / day))
