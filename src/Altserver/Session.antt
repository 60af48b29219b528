-- ===== src/Altserver/Session.antt =====
-- What a client of src/altserver.rs sees of a connection: messages, each answered in turn. How they
-- lie in the stream, and the loop that reads them, are left out.
pub mod Refines
mod Tests
use alt_keeper.Base.Outcome.{◌>>=◌, Outcome, ok}
use alt_keeper.Base.{
  ◌≤◌, [], ◌++◌, some, true, ◌≡◌, ◌∷◌, List, false, if◌then◌else◌, All, length, ℕ, none, ◌<◌, ◌^◌,
}
use alt_keeper.Base.Bytes.{Bytes}
use alt_keeper.Altserver.Services.{Services, Reply, error}
use alt_keeper.Altserver.Frame.RoundTrip.{IsSent}
use alt_keeper.Altserver.Connection.{Server, identifier, content_size, is_begin, install_ipa}
use alt_keeper.Altserver.Frame.{write_frame, to_le32, length_refused}
use alt_keeper.Base.Text.{codes, str_eq}
use alt_keeper.Altserver.Handlers.{
  anisette, install_profiles, remove_profiles, max_ipa, remove_app, err_unsupported_ios,
  err_unknown_request, send, err_invalid_request,
}

-- What a message asks for. An app comes with its IPA and the request that begins the installation.
pub data Command : Type 0 where
  fetch_anisette install_all remove_all delete_app enable_jit unknown : Command
  upload : Bytes → Bytes → Command

-- A message: the JSON of its request, the value it stands for, and the command.
pub record Message (Value : Type 0) : Type 0 where
  pub body : Bytes
  pub req : Value
  pub command : Command

-- The bytes that a client sends behind the request.
unfoldable pub payload : Command → Bytes
payload (upload ipa begin) = ipa ++ write_frame begin
payload _ = []

unfoldable pub wire : {Value : Type 0} → Message Value → Bytes
unfolding payload
wire m = write_frame m.body ++ payload m.command

-- How a client ends: it sends no more, or what is no JSON, or a length that no frame has. What it sends
-- behind these is never read.
pub data Goodbye : Type 0 where
  silence : Goodbye
  nonsense : Bytes → Bytes → Goodbye
  bad_length : ℕ → Bytes → Goodbye

unfoldable pub goodbye_wire : Goodbye → Bytes
goodbye_wire silence = []
goodbye_wire (nonsense body more) = write_frame body ++ more
goodbye_wire (bad_length n more) = to_le32 n ++ more

-- All that a client sends.
unfoldable pub dialogue : {Value : Type 0} → List (Message Value) → Goodbye → Bytes
unfolding goodbye_wire wire
dialogue [] g = goodbye_wire g
dialogue (m ∷ ms) g = wire m ++ dialogue ms g

module _ {Value World Link Dict : Type 0} (S : Services Value World Link Dict) where
  -- The answer of a handler that leaves the cache alone.
  unfoldable pub answered :
      Server Value World
      → Outcome (Reply Value × World)
      → Outcome (Reply Value × Server Value World)
  answered server m = do (reply, w) ← m; ok (reply, record server { world = w })

  -- What the server promises for each command: the reply, and the server afterwards.
  unfoldable pub perform :
      Command → Value → Server Value World → Outcome (Reply Value × Server Value World)
  unfolding answered
  perform fetch_anisette req server =
      let (reply, (cache, w)) = anisette S server.cache server.world in
      ok (reply, record { cache = cache; world = w })
  perform install_all req server = answered server (install_profiles S req server.world)
  perform remove_all req server = answered server (remove_profiles S req server.world)
  perform delete_app req server = answered server (ok (remove_app S req server.world))
  perform enable_jit req server = answered server (ok (error err_unsupported_ios, server.world))
  perform unknown req server = answered server (ok (error err_unknown_request, server.world))
  perform (upload ipa begin) req server = answered server (ok (install_ipa S ipa server.world))

  -- Nonsense is answered with an error, and ends the session as the others do.
  unfoldable pub farewell : Goodbye → Server Value World → Outcome (Server Value World)
  farewell (nonsense body more) server =
      ok (record server { world = (send S (error err_invalid_request) server.world).1 })
  farewell silence server = ok server
  farewell (bad_length n more) server = ok server

  -- Each message is answered before the next is looked at; a reply that cannot be sent is the last.
  unfoldable pub session :
      List (Message Value) → Goodbye → Server Value World → Outcome (Server Value World)
  unfolding perform farewell
  session [] g server = farewell g server
  session (m ∷ ms) g server = do
    (reply, after) ← perform m.command m.req server
    let (sent, w) = send S reply after.world
    let more = session ms g (record after { world = w })
    if sent then more else ok (record after { world = w })

  -- The request names the command, and an IPA is as long as it says.
  abbrev pub Names : Command → Value → Type 0
  Names fetch_anisette req = identifier S req ≡ codes "AnisetteDataRequest"
  Names install_all req = identifier S req ≡ codes "InstallProvisioningProfilesRequest"
  Names remove_all req = identifier S req ≡ codes "RemoveProvisioningProfilesRequest"
  Names delete_app req = identifier S req ≡ codes "RemoveAppRequest"
  Names enable_jit req = identifier S req ≡ codes "EnableUnsignedCodeExecutionRequest"
  Names unknown req =
      All (λ name. str_eq (identifier S req) name ≡ false)
        (codes "AnisetteDataRequest"
          ∷ codes "InstallProvisioningProfilesRequest"
          ∷ codes "RemoveProvisioningProfilesRequest"
          ∷ codes "RemoveAppRequest"
          ∷ codes "EnableUnsignedCodeExecutionRequest"
          ∷ codes "PrepareAppRequest"
          ∷ [])
  Names (upload ipa begin) req =
      (identifier S req ≡ codes "PrepareAppRequest")
      × (content_size S req ≡ length ipa)
      × (1 ≤ length ipa)
      × (length ipa ≤ max_ipa)
      × IsSent begin
      × (is_begin S begin ≡ true)

  abbrev pub IsMessage : Message Value → Type 0
  IsMessage m = IsSent m.body × (S.json.from_slice m.body ≡ some m.req) × Names m.command m.req

  abbrev pub IsGoodbye : Goodbye → Type 0
  IsGoodbye silence = Unit
  IsGoodbye (nonsense body more) = IsSent body × (S.json.from_slice body ≡ none)
  IsGoodbye (bad_length n more) = (n < 2 ^ 32) × (length_refused n ≡ true)
