-- ===== src/Profile/Tests.antt =====
-- Runs of src/profile.rs, on the profiles of its own tests.
use alt_keeper.Base.{◌+◌, Option, ◌≡◌, ℕ, ◌∷◌, map, some, List, ◌<◌, [], ◌*◌, inl, refl, ◌↔◌, none}
use alt_keeper.Profile.Latest.{latest_by_bundle}
use alt_keeper.Base.Bytes.{Bytes}
use alt_keeper.Base.Text.{Str, codes, str_eq, strip_prefix}
use alt_keeper.Profile.Parse.{Plist, PhoneProfile, parse, position, rposition}
use alt_keeper.Base.Outcome.{panic}
use alt_keeper.Profile.Latest.Days.{day}
use alt_keeper.Profile.Parse.Safety.{parse_panics_iff}
use alt_keeper.Profile.Latest.Unique.{IsDistinct, latest_by_bundle-IsDistinct}
use alt_keeper.Profile.Latest.Winners.{In, IsFor, latest_by_bundle_covers}

abbrev profile : Str → Option Str → ℕ → PhoneProfile
profile uuid bundle days = record {
  uuid = uuid;
  name = codes "test";
  team_id = some (codes "TEAM");
  bundle_id = bundle;
  expires = some (days * day);
}

abbrev profiles : List PhoneProfile
profiles =
    profile (codes "vecchio") (some (codes "com.a")) 1
    ∷ profile (codes "nuovo") (some (codes "com.a")) 6
    ∷ profile (codes "medio") (some (codes "com.a")) 3
    ∷ profile (codes "altro") (some (codes "com.b")) 2
    ∷ []

latest_of_each :
    map (λ (p : PhoneProfile). p.uuid) (latest_by_bundle profiles)
    ≡ codes "nuovo" ∷ codes "altro" ∷ []
unfolding latest_by_bundle str_eq
latest_of_each = refl

abbrev oldest : PhoneProfile
oldest = profile (codes "vecchio") (some (codes "com.a")) 1

oldest-In : In oldest profiles
unfolding In
oldest-In = inl refl

latest_by_bundle_covers_example :
    (q : PhoneProfile) × In q (latest_by_bundle profiles) × IsFor q oldest
latest_by_bundle_covers_example = latest_by_bundle_covers profiles oldest oldest-In

latest_by_bundle-IsDistinct_example : IsDistinct (latest_by_bundle profiles)
latest_by_bundle-IsDistinct_example = latest_by_bundle-IsDistinct profiles

-- The dictionaries of a file that holds one entry, its UUID.
abbrev plist : Plist Str
plist = record {
  from_reader = λ xml. some xml;
  string_at = λ d k. some d;
  first_at = λ d k. none;
  dictionary_at = λ d k. none;
  date_at = λ d k. none;
}

abbrev crossed_marks : Bytes
crossed_marks = codes "</plist> <?xml"

parse_crossed : parse plist crossed_marks ≡ panic
unfolding parse strip_prefix
parse_crossed = refl

parse_panics_iff_example : (parse plist crossed_marks ≡ panic) ↔ (
    (start : ℕ) × (last : ℕ) × (position (codes "<?xml") crossed_marks ≡ some start)
    × (rposition (codes "</plist>") crossed_marks ≡ some last)
    × (last + 8 < start))
parse_panics_iff_example = parse_panics_iff plist crossed_marks
