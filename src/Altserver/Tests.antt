-- ===== src/Altserver/Tests.antt =====
-- Runs of src/altserver.rs.
use mathlib.Core.Option.{some-injective}
use alt_keeper.Base.{
  ◌++◌, ◌≡◌, ◌∷◌, [], refl, ◌≤◌, arith, length, some, none, List, true, ◌⊎◌, if◌then◌else◌, All,
  ◌≢◌, ◌∙◌, sym, ap,
}
use alt_keeper.Altserver.Frame.{Stream, read_frame, frame, ended, write_frame, max_json}
use alt_keeper.Base.Text.{codes, Str, str_eq, strip_prefix, to_ascii_lowercase, lower_byte}
use alt_keeper.Altserver.Frame.RoundTrip.{read_frame-write_frame, read_frame_sound}
use alt_keeper.Altserver.Handlers.Named.{IsNamed-matches}
use alt_keeper.Altserver.Handlers.Profiles.{
  Keeps, Installed, install_profiles-Keeps, install_profiles_success, remove_profiles-Keeps,
  IsRequested,
}
use alt_keeper.Profile.Parse.{Plist, parse, profile_of, PhoneProfile, bundle_of}
use alt_keeper.Altserver.Handlers.{remove_profiles, install_profiles, send, wanted, matches}
use alt_keeper.Altserver.Connection.{handle_connection}
use alt_keeper.Altserver.Services.{Services, simple}
use alt_keeper.Base.Bytes.{Bytes}
use alt_keeper.Base.Outcome.{IsDone, ok}
use alt_keeper.Altserver.Connection.Termination.{handle_connection-IsDone}
use alt_keeper.Web.Base64.{b64_decode}
use alt_keeper.Profile.Parse.Safety.{parse-eq-ok}
use mathlib.Core.Path.{subst}

read_frame-write_frame_example :
    read_frame (record { bytes = write_frame (codes "{}") ++ codes "x"; ending = ended })
    ≡ frame (codes "{}") (record { bytes = codes "x"; ending = ended })
read_frame-write_frame_example =
    read_frame-write_frame (codes "{}") (codes "x") ended (omega arith) (omega arith)

abbrev sent : Stream
sent = record { bytes = 2 ∷ 0 ∷ 0 ∷ 0 ∷ 123 ∷ 125 ∷ []; ending = ended }

sent_read : read_frame sent ≡ frame (codes "{}") (record { bytes = []; ending = ended })
unfolding read_frame
sent_read = refl

read_frame_sound_example :
    (sent.bytes ≡ write_frame (codes "{}") ++ [])
    × (sent.ending ≡ ended)
    × (1 ≤ length (codes "{}"))
    × (length (codes "{}") ≤ max_json)
read_frame_sound_example =
    read_frame_sound sent (record { bytes = []; ending = ended }) (codes "{}") (omega arith)
      sent_read

-- A profile of a small plist: its bytes are the UUID, and it is of the bundle `com.a`, or of `com.b`
-- where it holds a `b`.
abbrev profile_a : Bytes
profile_a = codes "<?xml a</plist>"

abbrev profile_b : Bytes
profile_b = codes "<?xml b</plist>"

abbrev app_of : Str → Str
app_of xml = if str_eq xml profile_b then codes "T.com.b" else codes "T.com.a"

abbrev small_plist : Plist Str
small_plist = record {
  from_reader = λ xml. some xml;
  string_at = λ d k. some (if str_eq k (codes "UUID") then d else app_of d);
  first_at = λ d k. some (codes "T");
  dictionary_at = λ d k. some d;
  date_at = λ d k. none;
}

pub data Call : Type 0 where
  installed : Bytes → Call
  removed : Str → Call
  wrote : Bytes → Call

-- A phone with two profiles that does what it is asked, and a request that is its own identifier.
-- The world is the list of the calls made, the last one first.
abbrev pub services : Services Str (List Call) (Unit {0}) Str
services = record {
  json = record {
    from_slice = λ f. some f;
    to_vec = λ reply. codes "{}";
    null = [];
    str_at = λ v k. some v;
    u64_at = λ v k. none;
    array_at = λ v k.
        some (
          some (if str_eq k (codes "bundleIdentifiers") then codes "com.a" else codes "QUJD") ∷ []);
  };
  plist = small_plist;
  to_lowercase = to_ascii_lowercase;
  write_all = λ out w. (true, wrote out ∷ w);
  connect_auto = λ w. (some tt, w);
  install = λ link blob w. (true, installed blob ∷ w);
  copy_all = λ link w. (some (profile_a ∷ profile_b ∷ []), w);
  remove = λ link uuid w. (true, removed uuid ∷ w);
  uninstall = λ link bundle w. (true, w);
  install_bytes = λ report link ipa w. (true, report 100 w);
  anisette_for_altstore = λ w. (none, w);
  now = λ w. 0;
}

abbrev remove_request : Str
remove_request = codes "RemoveProvisioningProfilesRequest"

-- Only the profile of the bundle that the request names is removed.
removes_one :
    remove_profiles services remove_request []
    ≡ ok (simple (codes "RemoveProvisioningProfilesResponse"), removed profile_a ∷ [])
unfolding remove_profiles parse strip_prefix str_eq lower_byte
removes_one = refl

-- The client sends one request and closes.
abbrev one_request : Stream
one_request = record { bytes = write_frame remove_request; ending = ended }

serves_one :
    handle_connection services one_request (record { cache = none; world = [] })
    ≡ ok
        (record { cache = none; world = wrote (write_frame (codes "{}")) ∷ removed profile_a ∷ [] })
unfolding handle_connection read_frame write_frame remove_profiles parse strip_prefix str_eq
    lower_byte send
serves_one = refl

handle_connection-IsDone_example :
    IsDone (handle_connection services one_request (record { cache = none; world = [] }))
handle_connection-IsDone_example =
    handle_connection-IsDone services one_request (record { cache = none; world = [] })

installs_one :
    install_profiles services (codes "x") []
    ≡ ok (simple (codes "InstallProvisioningProfilesResponse"), installed (codes "ABC") ∷ [])
unfolding install_profiles parse strip_prefix str_eq b64_decode
installs_one = refl

install_profiles_success_example :
    (blobs : List Bytes) × IsRequested services (codes "x") blobs
    × (((blobs ≡ []) × ([] ≡ installed (codes "ABC") ∷ []))
        ⊎ ((link : Unit {0}) × (some tt ≡ some link)
            × Installed services link blobs [] (installed (codes "ABC") ∷ [])))
install_profiles_success_example =
    install_profiles_success services (codes "x") [] (installed (codes "ABC") ∷ [])
      (codes "InstallProvisioningProfilesResponse") installs_one

IsInstall : Call → Type 0
IsInstall (installed blob) = Unit
IsInstall (removed uuid) = ⊥
IsInstall (wrote out) = ⊥

install_profiles-Keeps_example : Keeps (All IsInstall) (install_profiles services (codes "x") [])
unfolding IsInstall
install_profiles-Keeps_example =
    install_profiles-Keeps services (All IsInstall) (λ w h. h) (λ link blob w h. (tt, h))
      (codes "x") [] tt

IsNotB : Call → Type 0
IsNotB (installed blob) = ⊥
IsNotB (removed uuid) = uuid ≢ profile_b
IsNotB (wrote out) = ⊥

not_b :
    (raw : Bytes) (p : PhoneProfile)
    → parse small_plist raw ≡ ok p
    → matches services (codes "com.a" ∷ []) p.bundle_id ≡ true
    → p.uuid ≢ profile_b
unfolding profile_of matches str_eq lower_byte strip_prefix
not_b raw p read m e =
    let (d, found) = parse-eq-ok small_plist raw p read in
    let same = some-injective _ _ found in
    let d_b : d ≡ profile_b = ap (λ (q : PhoneProfile). q.uuid) same ∙ e in
    let bundle : bundle_of (some (codes "T")) (some (app_of d)) ≡ p.bundle_id =
      ap (λ (q : PhoneProfile). q.bundle_id) same in
    let bad : matches services (codes "com.a" ∷ [])
          (bundle_of (some (codes "T")) (some (app_of profile_b)))
        ≡ true =
      subst (λ o. matches services (codes "com.a" ∷ []) o ≡ true)
        (sym bundle ∙ ap (λ x. bundle_of (some (codes "T")) (some (app_of x))) d_b) m in
    absurd (cc bad)

remove_profiles-Keeps_example : Keeps (All IsNotB) (remove_profiles services remove_request [])
unfolding IsNotB wanted lower_byte str_eq
remove_profiles-Keeps_example =
    remove_profiles-Keeps services (All IsNotB) (λ w h. h) (λ link w h. h) remove_request
      (λ link raw p w read named h.
        (not_b raw p read (IsNamed-matches services remove_request p.bundle_id named), h))
      [] tt
