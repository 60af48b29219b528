-- ===== src/Altserver/Session/Tests.antt =====
-- A session with the server of src/altserver.rs: an app is uploaded, and profiles are removed.
use alt_keeper.Altserver.Session.{
  upload, remove_all, Message, dialogue, nonsense, session, IsMessage,
}
use alt_keeper.Altserver.Session.Refines.{handle_connection-session}
use alt_keeper.Altserver.Tests.{services, Call}
use alt_keeper.Altserver.Connection.{handle_connection, identifier, content_size, is_begin}
use alt_keeper.Base.{[], refl, List, ◌∷◌, none, arith, ◌≡◌, some, All, if◌then◌else◌}
use alt_keeper.Altserver.Services.{Services}
use alt_keeper.Base.Text.{str_eq, Str, codes}
use alt_keeper.Altserver.Frame.{silent}

-- The services of the other tests, where each number is 3.
abbrev uploading : Services Str (List Call) (Unit {0}) Str
uploading = record services { json = record services.json { u64_at = λ v k. some 3 } }

abbrev messages : List (Message Str)
messages =
    record {
      body = codes "PrepareAppRequest";
      req = codes "PrepareAppRequest";
      command = upload (codes "PKx") (codes "BeginInstallationRequest");
    }
    ∷ record {
      body = codes "RemoveProvisioningProfilesRequest";
      req = codes "RemoveProvisioningProfilesRequest";
      command = remove_all;
    }
    ∷ []

-- Behind a message that is no JSON, nothing is read.
abbrev strict : Services Str (List Call) (Unit {0}) Str
strict = record uploading {
  json = record uploading.json { from_slice = λ f. if str_eq f (codes "?") then none else some f };
}

strict-IsMessage : All (IsMessage strict) messages
unfolding str_eq identifier content_size is_begin
strict-IsMessage = (
  (
    (omega arith, omega arith),
    refl,
    (refl, refl, omega arith, omega arith, (omega arith, omega arith), refl),
  ),
  (((omega arith, omega arith), refl, refl), tt),
)

handle_connection-session_example :
    handle_connection strict
      (record { bytes = dialogue messages (nonsense (codes "?") (codes "xyz")); ending = silent })
      (record { cache = none; world = [] })
    ≡ session strict messages
        (nonsense (codes "?") (codes "xyz"))
        (record { cache = none; world = [] })
unfolding str_eq
handle_connection-session_example =
    handle_connection-session strict messages (nonsense (codes "?") (codes "xyz")) silent
      (record { cache = none; world = [] }) strict-IsMessage ((omega arith, omega arith), refl)
