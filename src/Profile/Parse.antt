-- ===== src/Profile/Parse.antt =====
-- `PhoneProfile` and `parse` of src/profile.rs.
pub mod Safety
use mathlib.Core.Option
use alt_keeper.Base.Text.{Str, strip_prefix, codes}
use alt_keeper.Base.{
  ◌&&◌, if◌then◌else◌, ◌++◌, ◌-◌, some, none, ◌+◌, suc, Option, ◌∷◌, [], ℕ, leb, length, take, drop,
  map,
}
use alt_keeper.Base.Bytes.{Bytes}
use alt_keeper.Base.Outcome.{Outcome, ok, panic, ◌>>=◌, from_option}

-- An instant is a number of nanoseconds after an origin that precedes them all.
pub record PhoneProfile : Type 0 where
  pub uuid : Str
  pub name : Str
  pub team_id : Option Str
  pub bundle_id : Option Str
  pub expires : Option ℕ

-- What the code uses of the crate `plist`: a dictionary read from XML, and a string, a first string
-- of an array, a dictionary and a date under a key.
pub record Plist {ℓ} (Dict : Type ℓ) : Type ℓ where
  pub from_reader : Bytes → Option Dict
  pub string_at : Dict → Str → Option Str
  pub first_at : Dict → Str → Option Str
  pub dictionary_at : Dict → Str → Option Dict
  pub date_at : Dict → Str → Option ℕ

-- `raw.windows(n).position(|w| w == pattern)`
unfoldable pub position : Str → Bytes → Option ℕ
position p [] = none
position p (b ∷ bs) =
    let later = position p bs in
    elim (strip_prefix p (b ∷ bs)) [ some _ ↦ some 0 | none ↦ Option.map suc later ]

-- `raw.windows(n).rposition(|w| w == pattern)`
unfoldable pub rposition : Str → Bytes → Option ℕ
rposition p [] = none
rposition p (b ∷ bs) = elim (rposition p bs) [
  | some i ↦ some (suc i)
  | none ↦ elim (strip_prefix p (b ∷ bs)) [ some _ ↦ some 0 | none ↦ none ]
]

-- `&raw[start..end]`, which panics where the ends cross or lie outside.
unfoldable pub slice : Bytes → ℕ → ℕ → Outcome Bytes
slice raw start end =
    if leb start end && leb end (length raw)
    then ok (take (end - start) (drop start raw))
    else panic

unfoldable pub or_empty : Option Str → Str
or_empty none = []
or_empty (some s) = s

-- The identifier without the team and a dot before it, where both are known.
unfoldable pub bundle_of : Option Str → Option Str → Option Str
bundle_of (some team) (some app) = strip_prefix (team ++ b'.' ∷ []) app
bundle_of (some team) none = none
bundle_of none app = none

module _ {ℓ} {Dict : Type ℓ} (P : Plist Dict) where
  unfoldable pub app_identifier : Dict → Option Str
  app_identifier d = elim (P.dictionary_at d (codes "Entitlements")) [
    | none ↦ none
    | some e ↦ P.string_at e (codes "application-identifier")
  ]

  unfoldable pub profile_of : Dict → Option PhoneProfile
  unfolding app_identifier bundle_of or_empty
  profile_of d = elim (P.string_at d (codes "UUID")) [
    | none ↦ none
    | some uuid ↦
        let team = P.first_at d (codes "TeamIdentifier") in
        some (record {
          uuid = uuid;
          name = or_empty (P.string_at d (codes "Name"));
          team_id = team;
          bundle_id = bundle_of team (app_identifier d);
          expires = P.date_at d (codes "ExpirationDate");
        })
  ]

  unfoldable pub parse : Bytes → Outcome PhoneProfile
  unfolding slice profile_of position rposition
  parse raw = do
    start ← from_option (position (codes "<?xml") raw)
    last ← from_option (rposition (codes "</plist>") raw)
    xml ← slice raw start (last + 8)
    d ← from_option (P.from_reader xml)
    from_option (profile_of d)
