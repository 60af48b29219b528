-- ===== src/Apple/Anisette.antt =====
-- `anisette_for_altstore` of src/apple.rs: the anisette data that AltStore asks for.
use alt_keeper.Base.Action.{Action, pure, get, ◌>>=◌}
use alt_keeper.Apple.Session.{SignIn, anisette_provider}
use alt_keeper.Apple.Clock.{iso8601_utc}
use alt_keeper.Base.{List, ℕ, [], ◌∷◌}
use alt_keeper.Base.Text.{Str, codes}

-- What the code uses of the crate `isideload` to make the data, and the system's clock in seconds from
-- 1970. An error has the text of `to_string`.
pub record Isideload (World Provider Generator Info Slam Data : Type 0) : Type 0 where
  pub new_generator : Provider → Generator
  pub get_client_info : Generator → Action World Info
  pub client_info : Info → Str
  pub new_slam : Info → Action World Slam
  pub get_anisette_data : Generator → Slam → Action World Data
  pub machine_id : Data → Str
  pub one_time_password : Data → Str
  pub local_user_id : Data → Str
  pub routing_info : Data → Str
  pub device_unique_identifier : Data → Str
  pub now_secs : World → ℕ

module _ {World Provider Session Generator Info Slam Data : Type 0}
    (S : SignIn World Provider Session)
    (A : Isideload World Provider Generator Info Slam Data) where
  -- The object that `json!` makes, key by key.
  unfoldable pub anisette_fields : Info → Data → ℕ → List (Str × Str)
  anisette_fields info made now =
      (codes "machineID", A.machine_id made)
      ∷ (codes "oneTimePassword", A.one_time_password made)
      ∷ (codes "localUserID", A.local_user_id made)
      ∷ (codes "routingInfo", A.routing_info made)
      ∷ (codes "deviceUniqueIdentifier", A.device_unique_identifier made)
      ∷ (codes "deviceSerialNumber", codes "2")
      ∷ (codes "deviceDescription", A.client_info info)
      ∷ (codes "date", iso8601_utc now)
      ∷ (codes "locale", codes "en_US")
      ∷ (codes "timeZone", codes "GMT")
      ∷ []

  unfoldable pub anisette_for_altstore : Action World (List (Str × Str))
  unfolding anisette_fields
  anisette_for_altstore = do
    provider ← anisette_provider S
    let generator = A.new_generator provider
    info ← A.get_client_info generator
    slam ← A.new_slam info
    made ← A.get_anisette_data generator slam
    now ← get A.now_secs
    pure (anisette_fields info made now)
