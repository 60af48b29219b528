-- ===== src/Altserver/Handlers.antt =====
-- The handlers of src/altserver.rs, one per request. Each holds the lock on the phone while it uses
-- it, so no other operation comes between its steps.
pub mod Named
pub mod Profiles
use mathlib.Core.Option
use alt_keeper.Base.Outcome.{◌>>=◌, Outcome, ok, attempt}
use alt_keeper.Base.{
  ◌*◌, false, ◌||◌, Bool, map, [], List, Option, ℕ, ◌∷◌, some, none, ◌-◌, if◌then◌else◌, ltb,
}
use alt_keeper.Altserver.Services.{Services, Reply, anisette_response, error, simple}
use alt_keeper.Base.Text.{Str, str_eq, codes, is_empty}
use alt_keeper.Base.Bytes.{Bytes}
use alt_keeper.Altserver.Frame.{write_frame}
use alt_keeper.Web.Base64.{b64_decode}
use alt_keeper.Profile.Parse.{parse}

abbrev pub err_device_not_found : ℕ
err_device_not_found = 3

abbrev pub err_invalid_request : ℕ
err_invalid_request = 5

abbrev pub err_invalid_app : ℕ
err_invalid_app = 7

abbrev pub err_installation_failed : ℕ
err_installation_failed = 8

abbrev pub err_unsupported_ios : ℕ
err_unsupported_ios = 10

abbrev pub err_unknown_request : ℕ
err_unknown_request = 11

abbrev pub err_invalid_anisette : ℕ
err_invalid_anisette = 13

abbrev pub err_app_deletion_failed : ℕ
err_app_deletion_failed = 16

abbrev pub max_ipa : ℕ
max_ipa = 1024 * 1024 * 1024

abbrev pub anisette_ttl : ℕ
anisette_ttl = 20

-- `a.iter().filter_map(f)`, for elements that are already optional.
unfoldable pub present {ℓ} : {A : Type ℓ} → List (Option A) → List A
present [] = []
present (none ∷ os) = present os
present (some a ∷ os) = a ∷ present os

-- `collect::<Option<Vec<_>>>()`
unfoldable pub collect {ℓ} : {A : Type ℓ} → List (Option A) → Option (List A)
collect [] = some []
collect (none ∷ os) = none
collect (some a ∷ os) = Option.map (◌∷◌ a) (collect os)

-- `v.as_str().and_then(b64_decode)`
unfoldable pub decode_profile : Option Str → Option Bytes
decode_profile none = none
decode_profile (some s) = b64_decode s

unfoldable pub contains : Str → List Str → Bool
contains s [] = false
contains s (t ∷ ts) = str_eq t s || contains s ts

module _ {Value World Link Dict : Type 0} (S : Services Value World Link Dict) where
  unfoldable pub send : Reply Value → World → Bool × World
  send reply w = S.write_all (write_frame (S.json.to_vec reply)) w

  unfoldable pub anisette : Option (ℕ × Value) → World → Reply Value × (Option (ℕ × Value) × World)
  anisette cache w = elim (fresh cache) [
    | some v ↦ (anisette_response v, (cache, w))
    | none ↦
        let (made, w') = S.anisette_for_altstore w in
        elim made [
          | some v ↦ (anisette_response v, (some (S.now w', v), w'))
          | none ↦ (error err_invalid_anisette, (cache, w'))
        ]
  ]
    where
      fresh : Option (ℕ × Value) → Option Value
      fresh none = none
      fresh (some (at, v)) = if ltb (S.now w - at) anisette_ttl then some v else none

  unfoldable pub decode_profiles : Value → Option (List Bytes)
  unfolding collect decode_profile
  decode_profiles req = elim (S.json.array_at req (codes "provisioningProfiles")) [
    | none ↦ none
    | some vs ↦ collect (map decode_profile vs)
  ]

  -- The loop of `install_profiles`. The profile is read for its name in the log, and a panic of
  -- `parse` ends the thread.
  unfoldable pub install_each : Link → List Bytes → World → Outcome (Reply Value × World)
  install_each link [] w = ok (simple (codes "InstallProvisioningProfilesResponse"), w)
  install_each link (blob ∷ blobs) w = do
    _ ← attempt (parse S.plist blob)
    let (done, w') = S.install link blob w
    let rest = install_each link blobs w'
    if done then rest else ok (error err_installation_failed, w')

  -- `install_profiles`, once the blobs are decoded.
  unfoldable pub install_blobs : List Bytes → World → Outcome (Reply Value × World)
  unfolding install_each
  install_blobs [] w = ok (simple (codes "InstallProvisioningProfilesResponse"), w)
  install_blobs (blob ∷ blobs) w =
      let (found, w') = S.connect_auto w in
      elim found [
        | none ↦ ok (error err_device_not_found, w')
        | some link ↦ install_each link (blob ∷ blobs) w'
      ]

  unfoldable pub install_profiles : Value → World → Outcome (Reply Value × World)
  unfolding decode_profiles install_blobs
  install_profiles req w = elim (decode_profiles req) [
    | none ↦ ok (error err_invalid_request, w)
    | some blobs ↦ install_blobs blobs w
  ]

  unfoldable pub wanted : Value → List Str
  unfolding present
  wanted req = elim (S.json.array_at req (codes "bundleIdentifiers")) [
    | none ↦ []
    | some vs ↦ map S.to_lowercase (present vs)
  ]

  -- `p.bundle_id.as_ref().is_some_and(|b| wanted.contains(&b.to_lowercase()))`
  unfoldable pub matches : List Str → Option Str → Bool
  unfolding contains
  matches names none = false
  matches names (some b) = contains (S.to_lowercase b) names

  -- The loop of `remove_profiles`: what cannot be read is passed over, and a profile that cannot be
  -- removed is only logged.
  unfoldable pub remove_each : Link → List Str → List Bytes → World → Outcome World
  unfolding matches
  remove_each link names [] w = ok w
  remove_each link names (raw ∷ raws) w = do
    parsed ← attempt (parse S.plist raw)
    let unread = remove_each link names raws w
    elim parsed [
      | none ↦ unread
      | some p ↦
          let rest = remove_each link names raws (S.remove link p.uuid w).1 in
          if matches names p.bundle_id then rest else unread
    ]

  -- `remove_profiles`, once the names are known: without any, the phone is left alone.
  unfoldable pub remove_wanted : List Str → World → Outcome (Reply Value × World)
  unfolding remove_each
  remove_wanted [] w = ok (simple (codes "RemoveProvisioningProfilesResponse"), w)
  remove_wanted (name ∷ names) w =
      let (found, w1) = S.connect_auto w in
      elim found [
        | none ↦ ok (error err_device_not_found, w1)
        | some link ↦
            let (raws, w2) = S.copy_all link w1 in
            elim raws [
              | none ↦ ok (error err_installation_failed, w2)
              | some raws ↦ do
                w3 ← remove_each link (name ∷ names) raws w2
                ok (simple (codes "RemoveProvisioningProfilesResponse"), w3)
            ]
      ]

  unfoldable pub remove_profiles : Value → World → Outcome (Reply Value × World)
  unfolding wanted remove_wanted
  remove_profiles req w = remove_wanted (wanted req) w

  -- `req["bundleIdentifier"].as_str().filter(|b| !b.is_empty())`
  unfoldable pub bundle_identifier : Value → Option Str
  bundle_identifier req = elim (S.json.str_at req (codes "bundleIdentifier")) [
    | none ↦ none
    | some b ↦ if is_empty b then none else some b
  ]

  unfoldable pub remove_app : Value → World → Reply Value × World
  unfolding bundle_identifier
  remove_app req w = elim (bundle_identifier req) [
    | none ↦ (error err_invalid_request, w)
    | some bundle ↦
        let (found, w1) = S.connect_auto w in
        elim found [
          | none ↦ (error err_device_not_found, w1)
          | some link ↦
              let (done, w2) = S.uninstall link bundle w1 in
              (
                if done then simple (codes "RemoveAppResponse") else error err_app_deletion_failed,
                w2,
              )
        ]
  ]
