-- ===== src/Altserver/Session/Refines.antt =====
-- The connections of src/altserver.rs keep the promise of a session.
use alt_keeper.Altserver.Session.{
  Goodbye, silence, nonsense, bad_length, goodbye_wire, farewell, dialogue, IsGoodbye,
  fetch_anisette, install_all, remove_all, delete_app, enable_jit, unknown, upload, Command,
  Message, perform, session, wire, payload, Names, answered, IsMessage,
}
use alt_keeper.Altserver.Frame.RoundTrip.{
  read_exact-append, read_frame-write_frame, IsSent, read_frame_refused,
}
use alt_keeper.Base.Outcome.{◌>>=◌, Outcome, ok, refused, panic, stuck}
use alt_keeper.Base.{
  ◌≤◌, ◌++◌, ◌==◌, true, arith, ◌≡◌, refl, ◌||◌, false, length, ltb, ℕ, ap, suc, [], ◌∷◌, ◌<◌, List,
  append_assoc, zero, All, if◌then◌else◌, ◌∙◌, ◌+◌, length-append, some, none,
}
use alt_keeper.Altserver.Services.{Services, Reply, error}
use alt_keeper.Altserver.Frame.{
  Stream, Ending, write_frame, read_frame, read_exact, no_length, ended, failed, silent, frame,
  to_le32, broken,
}
use alt_keeper.Altserver.Connection.{
  respond, replied, receive_and_install, receive_ipa, begin_install, Server, content_size, is_begin,
  install_ipa, connection_loop, handle_connection,
}
use alt_keeper.Base.Bytes.{Bytes}
use alt_keeper.Altserver.Handlers.{
  install_profiles, remove_profiles, max_ipa, remove_app, err_unsupported_ios, err_unknown_request,
  send, err_invalid_request,
}
use alt_keeper.Base.Text.{str_eq}

-- The answer of a session, with what a connection has left to read.
unfoldable leaving :
    {A Server : Type 0} → Stream → Outcome (A × Server) → Outcome (A × (Stream × Server))
leaving s m = do (reply, after) ← m; ok (reply, (s, after))

bind-leaving :
    {A Server B : Type 0} (s : Stream) (m : Outcome (A × Server))
    (f : A × (Stream × Server) → Outcome B)
    → (leaving s m >>= f) ≡ (m >>= λ p. f (p.0, (s, p.1)))
unfolding leaving
bind-leaving s (ok a) f = refl
bind-leaving s refused f = refl
bind-leaving s panic f = refl
bind-leaving s stuck f = refl

bind_same :
    {A B : Type 0} (m : Outcome A) (f g : A → Outcome B)
    → ((a : A) → f a ≡ g a)
    → (m >>= f) ≡ (m >>= g)
bind_same (ok a) f g h = h a
bind_same refused f g h = refl
bind_same panic f g h = refl
bind_same stuck f g h = refl

wire_pos : {Value : Type 0} (m : Message Value) → 1 ≤ length (wire m)
unfolding wire write_frame
wire_pos m = omega arith

module _ {Value World Link Dict : Type 0} (S : Services Value World Link Dict) where
  replied-leaving :
      (s : Stream) (server : Server Value World) (m : Outcome (Reply Value × World))
      → replied S s server m ≡ leaving s (answered S server m)
  unfolding replied leaving answered
  replied-leaving s server (ok a) = refl
  replied-leaving s server refused = refl
  replied-leaving s server panic = refl
  replied-leaving s server stuck = refl

  -- An IPA of the size announced is read, with the request behind it.
  receive_upload :
      (ipa begin more : Bytes) (e : Ending) (req : Value) (w : World)
      → content_size S req ≡ length ipa
      → 1 ≤ length ipa
      → length ipa ≤ max_ipa
      → IsSent begin
      → is_begin S begin ≡ true
      → receive_and_install S req
          (record { bytes = ipa ++ (write_frame begin ++ more); ending = e })
          w
        ≡ ((install_ipa S ipa w).0, (record { bytes = more; ending = e }, (install_ipa S ipa w).1))
  unfolding receive_and_install receive_ipa begin_install
  receive_upload ipa begin more e req w size lo hi (blo, bhi) begins =
      let fine : (length ipa == 0 || ltb max_ipa (length ipa)) ≡ false = ground arith in
      rw
        (
          size,
          fine,
          read_exact-append ipa (write_frame begin ++ more) e,
          read_frame-write_frame begin more e blo bhi,
          begins,
        )
        refl

  respond_message :
      (c : Command) (req : Value) (more : Bytes) (e : Ending) (server : Server Value World)
      → Names S c req
      → respond S req (record { bytes = payload c ++ more; ending = e }) server
        ≡ leaving (record { bytes = more; ending = e }) (perform S c req server)
  unfolding respond perform leaving payload answered str_eq
  respond_message fetch_anisette req more e server h = rw (h, respond) refl
  respond_message install_all req more e server h =
      rw (h, respond) (replied-leaving _ server (install_profiles S req server.world))
  respond_message remove_all req more e server h =
      rw (h, respond) (replied-leaving _ server (remove_profiles S req server.world))
  respond_message delete_app req more e server h =
      rw (h, respond) (replied-leaving _ server (ok (remove_app S req server.world)))
  respond_message enable_jit req more e server h =
      rw (h, respond) (replied-leaving _ server (ok (error err_unsupported_ios, server.world)))
  respond_message unknown req more e server (a, (b, (c, (d, (f, (g, _)))))) =
      rw (a, b, c, d, f, g, respond)
        (replied-leaving _ server (ok (error err_unknown_request, server.world)))
  respond_message (upload ipa begin) req more e server (h, size, lo, hi, sent, begins) =
      let s : Stream = record { bytes = (ipa ++ write_frame begin) ++ more; ending = e } in
      let got : receive_and_install S req s server.world ≡ (
        (install_ipa S ipa server.world).0,
        (record { bytes = more; ending = e }, (install_ipa S ipa server.world).1),
      ) =
        rw (append_assoc ipa (write_frame begin) more)
          (receive_upload ipa begin more e req server.world size lo hi sent begins) in
      rw (h, respond)
        (ap
          (λ (r : Reply Value × (Stream × World)).
            ok (r.0, (r.1.0, record server { world = r.1.1 })))
          got)

  loop_nonsense :
      (s rest : Stream) (body : Bytes) (fuel : ℕ) (server : Server Value World)
      → read_frame s ≡ frame body rest
      → S.json.from_slice body ≡ none
      → connection_loop S (suc fuel) s server
        ≡ ok (record server { world = (send S (error err_invalid_request) server.world).1 })
  unfolding connection_loop
  loop_nonsense s rest body fuel server framed bad =
      rw (framed, connection_loop) (rw (bad, connection_loop) refl)

  loop_broken :
      (s rest : Stream) (fuel : ℕ) (server : Server Value World)
      → read_frame s ≡ broken rest
      → connection_loop S (suc fuel) s server ≡ ok server
  unfolding connection_loop
  loop_broken s rest fuel server e = rw (e, connection_loop) refl

  loop_silence :
      (fuel : ℕ) (e : Ending) (server : Server Value World)
      → connection_loop S (suc fuel) (record { bytes = []; ending = e }) server ≡ ok server
  unfolding connection_loop read_frame read_exact no_length
  loop_silence fuel ended server = refl
  loop_silence fuel failed server = refl
  loop_silence fuel silent server = refl

  loop_goodbye :
      (g : Goodbye) (fuel : ℕ) (e : Ending) (server : Server Value World)
      → IsGoodbye S g
      → connection_loop S (suc fuel) (record { bytes = goodbye_wire g; ending = e }) server
        ≡ farewell S g server
  unfolding goodbye_wire farewell
  loop_goodbye silence fuel e server h = loop_silence fuel e server
  loop_goodbye (nonsense body more) fuel e server ((lo, hi), bad) =
      let s : Stream = record { bytes = write_frame body ++ more; ending = e } in
      loop_nonsense s (record { bytes = more; ending = e }) body fuel server
        (read_frame-write_frame body more e lo hi) bad
  loop_goodbye (bad_length n more) fuel e server (small, bad) =
      loop_broken (record { bytes = to_le32 n ++ more; ending = e })
        (record { bytes = more; ending = e }) fuel server (read_frame_refused n more e small bad)

  loop_frame :
      (s rest : Stream) (body : Bytes) (req : Value) (fuel : ℕ) (server : Server Value World)
      → read_frame s ≡ frame body rest
      → S.json.from_slice body ≡ some req
      → connection_loop S (suc fuel) s server ≡ (
          respond S req rest server >>= λ p.
          let (sent, w) = send S p.0 p.1.1.world in
          let next = record p.1.1 { world = w } in
          let again = connection_loop S fuel p.1.0 next in if sent then again else ok next)
  unfolding connection_loop
  loop_frame s rest body req fuel server framed read =
      rw (framed, connection_loop) (rw (read, connection_loop) refl)

  -- One round of the loop, on the bytes of one message.
  loop_message :
      (m : Message Value) (fuel : ℕ) (more : Bytes) (e : Ending) (server : Server Value World)
      → IsMessage S m
      → connection_loop S (suc fuel) (record { bytes = wire m ++ more; ending = e }) server ≡ (
          perform S m.command m.req server >>= λ p.
          let (sent, w) = send S p.0 p.1.world in
          let next = record p.1 { world = w } in
          let again = connection_loop S fuel (record { bytes = more; ending = e }) next in
          if sent then again else ok next)
  unfolding wire
  loop_message m fuel more e server ((lo, hi), read, named) =
      let behind = payload m.command ++ more in
      let framed = read_frame-write_frame m.body behind e lo hi in
      rw (append_assoc (write_frame m.body) (payload m.command) more) (
        loop_frame (record { bytes = write_frame m.body ++ behind; ending = e })
          (record { bytes = behind; ending = e }) m.body m.req fuel server framed read
        ∙ rw (respond_message m.command m.req more e server named) (
            bind-leaving (record { bytes = more; ending = e }) (perform S m.command m.req server)
              _))

  loop_session :
      (ms : List (Message Value)) (g : Goodbye) (fuel : ℕ) (e : Ending)
      (server : Server Value World)
      → All (IsMessage S) ms
      → IsGoodbye S g
      → length (dialogue ms g) < fuel
      → connection_loop S fuel (record { bytes = dialogue ms g; ending = e }) server
        ≡ session S ms g server
  unfolding session dialogue
  loop_session ms g zero e server h bye enough = absurd (omega arith)
  loop_session [] g (suc fuel) e server h bye enough = loop_goodbye g fuel e server bye
  loop_session (m ∷ ms) g (suc fuel) e server (h, hs) bye enough =
      loop_message m fuel (dialogue ms g) e server h
      ∙ bind_same (perform S m.command m.req server) _ _ λ p.
        let (sent, w) = send S p.0 p.1.world in
        let next = record p.1 { world = w } in
        let fewer : length (dialogue ms g) < fuel =
          omega (arith, length-append (wire m) (dialogue ms g), wire_pos m) in
        let again = loop_session ms g fuel e next hs bye fewer in
        ap (λ r. if sent then r else ok next) again

  -- A connection refines the session of its messages. Where the client sends messages that name their
  -- commands, each frame of 1 byte to 4 MiB and each IPA of 1 byte to 1 GiB and as long as announced, and
  -- then falls silent, closes or breaks off, or goes on with what is no JSON or with a length that no
  -- frame has, `handle_connection` answers each message in turn as `perform` says, stops at the first
  -- reply that cannot be sent, answers the nonsense with an error, and reads nothing behind it.
  pub handle_connection-session :
      (ms : List (Message Value)) (g : Goodbye) (e : Ending) (server : Server Value World)
      → All (IsMessage S) ms
      → IsGoodbye S g
      → handle_connection S (record { bytes = dialogue ms g; ending = e }) server
        ≡ session S ms g server
  unfolding handle_connection
  handle_connection-session ms g e server h bye =
      loop_session ms g (length (dialogue ms g) + 1) e server h bye (omega arith)
