-- ===== src/Phone/Link/Tests.antt =====
-- A connection to the phone with src/phone.rs.
use alt_keeper.Base.Action.{ok, err, pure, Run}
use alt_keeper.Phone.Link.{Idevice, connect}
use alt_keeper.Phone.Link.Paired.{connect-Keeps, IsAt}
use alt_keeper.Phone.Address.{SocketAddr, v4, port_of, v6}
use alt_keeper.Base.{
  ◌⊎◌, none, ◌≡◌, ap, true, inr, refl, ℕ, List, [], if◌then◌else◌, ◌∷◌, inl, ◌==◌, Bool-cases,
}
use alt_keeper.Base.Text.{codes}

-- A phone that accepts the pairing 5 alone, which makes the client 5. The world is the port and the key
-- of the last tunnel.
abbrev accepts : ℕ → Run (ℕ × ℕ)
accepts pf = if pf == 5 then ok (5, pf) else err (codes "Unpaired")

abbrev idevice : Idevice (List ℕ) ℕ ℕ ℕ ℕ ℕ ℕ ℕ ℕ
idevice = record {
  exists = λ path w. true;
  read_to_string = λ path w. none;
  remove_file = λ path w. w;
  sleep = λ w. w;
  println = λ s w. w;
  read_pairing = λ path. pure 5;
  tcp_connect = λ addr. pure (port_of addr);
  new_client = λ tcp name. 0;
  connect_client = λ client pf ask w. (accepts pf, w);
  create_tcp_listener = λ client. pure 62078;
  encryption_key = λ client. client ∷ [];
  connect_tunnel = λ stream key w. (ok 1, stream ∷ key);
  client_address = λ tunnel. codes "fd00::2";
  server_address = λ tunnel. codes "fd00::1";
  server_rsd_port = λ tunnel. 58783;
  mtu = λ tunnel. 16000;
  parse_ip = λ s. ok 0;
  new_adapter = λ tunnel ours theirs. 0;
  set_mss = λ n adapter. adapter;
  to_async_handle = λ adapter. adapter;
  adapter_connect = λ port adapter. pure 0;
  new_rsd = λ stream. pure 0;
  connect_rsd = λ adapter hs. pure 0;
}

abbrev phone : SocketAddr
phone = v4 (record { a = 10; b = 0; c = 0; d = 2 }) 49152

-- There was no tunnel, or it goes to the port that the phone gave, with the key of the client that it
-- accepted.
abbrev IsOwn : List ℕ → Type 0
IsOwn w = (w ≡ []) ⊎ (w ≡ 62078 ∷ 5 ∷ [])

five : (pf client pf' : ℕ) → accepts pf ≡ ok (client, pf') → client ≡ 5
five pf client pf' e = elim (Bool-cases (pf == 5)) [
  | inl own ↦ cc (rw own at e)
  | inr other ↦ absurd (cc (rw other at e))
]

at_port :
    (stream port : ℕ) (target : SocketAddr)
    → 62078 ≡ port
    → IsAt phone port target
    → port_of target ≡ stream
    → stream ≡ 62078
at_port stream port (v4 ip p) given (same, at) dialled = cc (given, at, dialled)
at_port stream port (v6 groups p f s) given at dialled = absurd at

connect-Keeps_example : IsOwn (connect idevice phone (codes "rp-pairing.plist") []).1
connect-Keeps_example =
    connect-Keeps idevice IsOwn (codes "rp-pairing.plist") phone (λ w h. h) (λ w h. h)
      (λ client port v a given target at w h. h) (λ client pf w h. h) (λ client a w h. h)
      (λ client stream (pf, read, got, tcp, pf', v, e) (port, u, given, target, at, x, dialled) w h.
        inr (
          rw (five pf client pf' e)
            (ap (λ (n : ℕ). n ∷ 5 ∷ []) (at_port stream port target (cc given) at (cc dialled)))))
      (λ port adapter w h. h) (λ stream w h. h) (λ adapter hs w h. h) [] (inl refl)
