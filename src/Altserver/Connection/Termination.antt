-- ===== src/Altserver/Connection/Termination.antt =====
-- The loop of `handle_connection` of src/altserver.rs comes to an end.
use alt_keeper.Base.{
  ◌≤◌, ◌∷◌, [], List, length, option_both, if_both, inr, ℕ, ◌||◌, ◌==◌, inl, arith, Bool-cases, leb,
  ltb, drop, take, length-drop, ◌<◌, suc, ◌≡◌, zero, ◌+◌, ◌⊎◌, refl,
}
use alt_keeper.Altserver.Frame.{Stream, Frame, read_exact, closed, broken, frame, read_frame}
use alt_keeper.Altserver.Services.{Services, error, Reply}
use alt_keeper.Altserver.Handlers.{
  install_profiles, install_each, decode_profiles, install_blobs, remove_each, remove_wanted,
  matches, max_ipa, remove_profiles, wanted, remove_app, err_unsupported_ios, err_unknown_request,
  send,
}
use alt_keeper.Base.Outcome.{
  Outcome, ok, IsDone, IsDone-bind, attempt, refused, panic, stuck, IsDone-attempt, ◌>>=◌,
}
use alt_keeper.Base.Bytes.{Bytes}
use alt_keeper.Base.Text.{codes, Str, str_eq}
use alt_keeper.Profile.Parse.{parse}
use alt_keeper.Profile.Parse.Safety.{parse-IsDone}
use alt_keeper.Altserver.Connection.{
  begin_install, receive_and_install, receive_ipa, respond, Server, content_size, is_begin, replied,
  identifier, connection_loop, handle_connection,
}
use alt_keeper.Altserver.Frame.RoundTrip.{left_of, read_frame_left, read_frame_shrinks}

-- The handler came to an end, and what it leaves to read is no longer than what it was given.
abbrev Leaves : {A Server : Type 0} → Stream → Outcome (A × (Stream × Server)) → Type 0
Leaves s (ok (reply, (left, after))) = length left.bytes ≤ length s.bytes
Leaves s refused = Unit
Leaves s panic = Unit
Leaves s stuck = ⊥

Leaves-bind :
    {A Server B : Type 0} (s : Stream) (m : Outcome (A × (Stream × Server)))
    (f : A × (Stream × Server) → Outcome B)
    → Leaves s m
    → ((a : A) (left : Stream) (after : Server)
        → length left.bytes ≤ length s.bytes
        → IsDone (f (a, (left, after))))
    → IsDone (m >>= f)
Leaves-bind s (ok (a, (left, after))) f h k = k a left after h
Leaves-bind s refused f h k = tt
Leaves-bind s panic f h k = tt
Leaves-bind s stuck f h k = absurd h

Frame-cases :
    (f : Frame)
    → ((body : Bytes) × (rest : Stream) × (f ≡ frame body rest))
      ⊎ (((rest : Stream) × (f ≡ closed rest)) ⊎ ((rest : Stream) × (f ≡ broken rest)))
Frame-cases (frame body rest) = inl (body, rest, refl)
Frame-cases (closed rest) = inr (inl (rest, refl))
Frame-cases (broken rest) = inr (inr (rest, refl))

module _ {Value World Link Dict : Type 0} (S : Services Value World Link Dict) where
  install_each-IsDone :
      (link : Link) (blobs : List Bytes) (w : World) → IsDone (install_each S link blobs w)
  unfolding install_each
  install_each-IsDone link [] w = tt
  install_each-IsDone link (blob ∷ blobs) w =
      let rest = install_each-IsDone link blobs (S.install link blob w).1 in
      IsDone-bind (attempt (parse S.plist blob)) _
        (IsDone-attempt (parse S.plist blob) (parse-IsDone S.plist blob))
        λ _. if_both IsDone (S.install link blob w).0 _ _ rest tt

  install_blobs-IsDone : (blobs : List Bytes) (w : World) → IsDone (install_blobs S blobs w)
  unfolding install_blobs
  install_blobs-IsDone [] w = tt
  install_blobs-IsDone (blob ∷ blobs) w =
      option_both IsDone (S.connect_auto w).0 _ _ tt
        λ link. install_each-IsDone link (blob ∷ blobs) (S.connect_auto w).1

  install_profiles-IsDone : (req : Value) (w : World) → IsDone (install_profiles S req w)
  unfolding install_profiles
  install_profiles-IsDone req w =
      option_both IsDone (decode_profiles S req) _ _ tt λ blobs. install_blobs-IsDone blobs w

  remove_each-IsDone :
      (link : Link) (names : List Str) (raws : List Bytes) (w : World)
      → IsDone (remove_each S link names raws w)
  unfolding remove_each
  remove_each-IsDone link names [] w = tt
  remove_each-IsDone link names (raw ∷ raws) w =
      IsDone-bind (attempt (parse S.plist raw)) _
        (IsDone-attempt (parse S.plist raw) (parse-IsDone S.plist raw))
        λ parsed. option_both IsDone parsed _ _ (remove_each-IsDone link names raws w) λ p.
          if_both IsDone (matches S names p.bundle_id) _ _
            (remove_each-IsDone link names raws (S.remove link p.uuid w).1)
            (remove_each-IsDone link names raws w)

  remove_wanted-IsDone : (names : List Str) (w : World) → IsDone (remove_wanted S names w)
  unfolding remove_wanted
  remove_wanted-IsDone [] w = tt
  remove_wanted-IsDone (name ∷ names) w = option_both IsDone (S.connect_auto w).0 _ _ tt λ link.
      option_both IsDone (S.copy_all link (S.connect_auto w).1).0 _ _ tt λ raws.
        IsDone-bind
          (remove_each S link (name ∷ names) raws (S.copy_all link (S.connect_auto w).1).1) _
          (remove_each-IsDone link (name ∷ names) raws (S.copy_all link (S.connect_auto w).1).1)
          λ _. tt

  begin_install_left :
      (ipa : Bytes) (w : World) (f : Frame)
      → length (begin_install S ipa w f).1.0.bytes ≤ length (left_of f).bytes
  unfolding begin_install
  begin_install_left ipa w (closed rest) = omega arith
  begin_install_left ipa w (broken rest) = omega arith
  begin_install_left ipa w (frame f rest) =
      if_both (λ (r : Reply Value × (Stream × World)). length r.1.0.bytes ≤ length rest.bytes)
        (is_begin S f) _ _ (omega arith) (omega arith)

  receive_ipa_left :
      (w : World) (n : ℕ) (s : Stream)
      → length (receive_ipa S w (read_exact n s)).1.0.bytes ≤ length s.bytes
  unfolding receive_ipa read_exact
  receive_ipa_left w n s = elim (Bool-cases (leb n (length s.bytes))) [
    | inr short ↦ rw (short, receive_ipa) (omega arith)
    | inl long ↦
        let after = record s { bytes = drop n s.bytes } in
        rw (long, receive_ipa)
          (omega (
            arith,
            begin_install_left (take n s.bytes) w (read_frame after),
            read_frame_left after,
            length-drop n s.bytes,
          ))
  ]

  receive_and_install_left :
      (req : Value) (s : Stream) (w : World)
      → length (receive_and_install S req s w).1.0.bytes ≤ length s.bytes
  unfolding receive_and_install
  receive_and_install_left req s w =
      let size = content_size S req in
      if_both (λ (r : Reply Value × (Stream × World)). length r.1.0.bytes ≤ length s.bytes)
        (size == 0 || ltb max_ipa size) _ _ (omega arith) (receive_ipa_left w size s)

  replied-Leaves :
      (s : Stream) (server : Server Value World) (m : Outcome (Reply Value × World))
      → IsDone m
      → Leaves s (replied S s server m)
  unfolding replied
  replied-Leaves s server (ok a) h = omega arith
  replied-Leaves s server refused h = tt
  replied-Leaves s server panic h = tt
  replied-Leaves s server stuck h = absurd h

  respond-Leaves :
      (req : Value) (s : Stream) (server : Server Value World) → Leaves s (respond S req s server)
  unfolding respond remove_profiles remove_wanted
  respond-Leaves req s server =
      let id = identifier S req in
      let w = server.world in
      let P : Outcome (Reply Value × (Stream × Server Value World)) → Type 0 = Leaves s in
      let kept = replied-Leaves s server in
      if_both P (str_eq id (codes "AnisetteDataRequest")) _ _ (omega arith) (
        if_both P (str_eq id (codes "InstallProvisioningProfilesRequest")) _ _
          (kept (install_profiles S req w) (install_profiles-IsDone req w))
          (if_both P (str_eq id (codes "RemoveProvisioningProfilesRequest")) _ _
            (kept (remove_profiles S req w) (remove_wanted-IsDone (wanted S req) w))
            (if_both P (str_eq id (codes "RemoveAppRequest")) _ _
              (kept (ok (remove_app S req w)) tt)
              (if_both P (str_eq id (codes "EnableUnsignedCodeExecutionRequest")) _ _
                (kept (ok (error err_unsupported_ios, w)) tt)
                (if_both P (str_eq id (codes "PrepareAppRequest")) _ _
                  (receive_and_install_left req s w)
                  (kept (ok (error err_unknown_request, w)) tt))))))

  loop-IsDone :
      (fuel : ℕ) (s : Stream) (server : Server Value World)
      → length s.bytes < fuel
      → IsDone (connection_loop S fuel s server)
  unfolding connection_loop
  loop-IsDone zero s server h = absurd (omega arith)
  loop-IsDone (suc fuel) s server h = elim (Frame-cases (read_frame s)) [
    | inl (body, rest, e) ↦
        rw (e, connection_loop)
          (option_both IsDone (S.json.from_slice body) _ _ tt λ req.
            Leaves-bind rest (respond S req rest server) _ (respond-Leaves req rest server)
              λ reply left after fewer.
                let sent = send S reply after.world in
                let again = record after { world = sent.1 } in
                if_both IsDone sent.0 _ _
                  (loop-IsDone fuel left again (omega (arith, read_frame_shrinks s rest body e)))
                  tt)
    | inr (inl (rest, e)) ↦ rw (e, connection_loop) tt
    | inr (inr (rest, e)) ↦ rw (e, connection_loop) tt
  ]

  -- Whatever the client sends, the loop of `handle_connection` comes to an end: the rounds that the
  -- model allows, one more than the bytes that arrive, are enough.
  pub handle_connection-IsDone :
      (s : Stream) (server : Server Value World) → IsDone (handle_connection S s server)
  unfolding handle_connection
  handle_connection-IsDone s server = loop-IsDone (length s.bytes + 1) s server (omega arith)
