-- ===== src/Altserver/Connection.antt =====
-- A connection of src/altserver.rs: `receive_and_install` and `handle_connection`.
pub mod Termination
use alt_keeper.Base.Outcome.{◌>>=◌, Outcome, stuck, ok}
use alt_keeper.Altserver.Frame.{
  frame, closed, broken, filled, cut_short, Stream, read_frame, read_exact, drained, Filled, Frame,
}
use alt_keeper.Base.{
  ◌||◌, none, if◌then◌else◌, Option, some, ℕ, Bool, false, ◌==◌, ltb, [], suc, ◌+◌, zero, length,
}
use alt_keeper.Altserver.Services.{Services, progress, Reply, error}
use alt_keeper.Altserver.Handlers.{
  send, err_invalid_app, err_invalid_request, err_device_not_found, err_installation_failed,
  max_ipa, err_unknown_request, anisette, install_profiles, remove_profiles, remove_app,
  err_unsupported_ios,
}
use alt_keeper.Base.Text.{codes, str_eq, strip_prefix, Str}
use alt_keeper.Base.Bytes.{Bytes}
use Prim.Native.Nat.{min}

-- The state of the server that the connections share, and the world.
pub record Server (Value World : Type 0) : Type 0 where
  pub cache : Option (ℕ × Value)
  pub world : World

module _ {Value World Link Dict : Type 0} (S : Services Value World Link Dict) where
  -- The callback: 100 is left to the reply at the end.
  unfoldable pub report : ℕ → World → World
  report percent w = (send S (progress (min percent 99)) w).1

  -- `receive_and_install` from the installation on.
  unfoldable pub install_ipa : Bytes → World → Reply Value × World
  unfolding report
  install_ipa ipa w = elim (strip_prefix (codes "PK") ipa) [
    | none ↦ (error err_invalid_app, w)
    | some _ ↦
        let (found, w1) = S.connect_auto w in
        elim found [
          | none ↦ (error err_device_not_found, w1)
          | some link ↦
              let (done, w2) = S.install_bytes report link ipa w1 in
              (if done then progress 100 else error err_installation_failed, w2)
        ]
  ]

  -- `serde_json::from_slice(&f).unwrap_or(Value::Null)`, and the test on its identifier.
  unfoldable pub is_begin : Bytes → Bool
  is_begin f =
      let v : Value = elim (S.json.from_slice f) [ none ↦ S.json.null | some v ↦ v ] in
      elim (S.json.str_at v (codes "identifier")) [
        | none ↦ false
        | some id ↦ str_eq id (codes "BeginInstallationRequest")
      ]

  -- `receive_and_install` from the match on the next message on.
  unfoldable pub begin_install : Bytes → World → Frame → Reply Value × (Stream × World)
  unfolding install_ipa is_begin
  begin_install ipa w (closed rest) = (error err_invalid_request, (rest, w))
  begin_install ipa w (broken rest) = (error err_invalid_request, (rest, w))
  begin_install ipa w (frame f rest) =
      let (reply, w') = install_ipa ipa w in
      if is_begin f then (reply, (rest, w')) else (error err_unknown_request, (rest, w))

  -- `receive_and_install`, once its first `read_exact` is over.
  unfoldable pub receive_ipa : World → Filled → Reply Value × (Stream × World)
  unfolding begin_install
  receive_ipa w (filled ipa rest) = begin_install ipa w (read_frame rest)
  receive_ipa w (cut_short e) = (error err_invalid_request, (drained e, w))

  unfoldable pub content_size : Value → ℕ
  content_size req = elim (S.json.u64_at req (codes "contentSize")) [ none ↦ 0 | some n ↦ n ]

  -- `receive_and_install`, with the reply that its result comes to.
  unfoldable pub receive_and_install : Value → Stream → World → Reply Value × (Stream × World)
  unfolding receive_ipa content_size
  receive_and_install req s w =
      let size = content_size req in
      let received = receive_ipa w (read_exact size s) in
      if size == 0 || ltb max_ipa size then (error err_invalid_request, (s, w)) else received

  -- `req["identifier"].as_str().unwrap_or("")`
  unfoldable pub identifier : Value → Str
  identifier req = elim (S.json.str_at req (codes "identifier")) [ none ↦ [] | some id ↦ id ]

  -- The answer of a handler that leaves the stream and the cache alone.
  unfoldable pub replied :
      Stream
      → Server Value World
      → Outcome (Reply Value × World)
      → Outcome (Reply Value × (Stream × Server Value World))
  replied s server m = do (reply, w) ← m; ok (reply, (s, record server { world = w }))

  -- The match of `handle_connection` on the identifier: the reply, what is left to read, and the
  -- server afterwards.
  unfoldable pub respond :
      Value → Stream → Server Value World → Outcome (Reply Value × (Stream × Server Value World))
  unfolding identifier receive_and_install replied
  respond req s server =
      let id = identifier req in
      let w = server.world in
      if str_eq id (codes "AnisetteDataRequest")
      then ok (
        (anisette S server.cache w).0,
        (
          s,
          record {
            cache = (anisette S server.cache w).1.0;
            world = (anisette S server.cache w).1.1;
          },
        ),
      )
      else if str_eq id (codes "InstallProvisioningProfilesRequest")
      then replied s server (install_profiles S req w)
      else if str_eq id (codes "RemoveProvisioningProfilesRequest")
      then replied s server (remove_profiles S req w)
      else if str_eq id (codes "RemoveAppRequest")
      then replied s server (ok (remove_app S req w))
      else if str_eq id (codes "EnableUnsignedCodeExecutionRequest")
      then replied s server (ok (error err_unsupported_ios, w))
      else if str_eq id (codes "PrepareAppRequest")
      then ok (
        (receive_and_install req s w).0,
        (
          (receive_and_install req s w).1.0,
          record server { world = (receive_and_install req s w).1.1 },
        ),
      )
      else replied s server (ok (error err_unknown_request, w))

  -- The loop of `handle_connection`; each round reads at least a length of four bytes.
  unfoldable pub connection_loop : ℕ → Stream → Server Value World → Outcome (Server Value World)
  unfolding respond
  connection_loop zero s server = stuck
  connection_loop (suc fuel) s server = elim (read_frame s) [
    | closed _ ↦ ok server
    | broken _ ↦ ok server
    | frame body rest ↦ elim (S.json.from_slice body) [
      | none ↦ ok (record server { world = (send S (error err_invalid_request) server.world).1 })
      | some req ↦ do
        (reply, (left, after)) ← respond req rest server
        let (sent, w) = send S reply after.world
        let again = connection_loop fuel left (record after { world = w })
        if sent then again else ok (record after { world = w })
    ]
  ]

  unfoldable pub handle_connection : Stream → Server Value World → Outcome (Server Value World)
  unfolding connection_loop
  handle_connection s = connection_loop (length s.bytes + 1) s
