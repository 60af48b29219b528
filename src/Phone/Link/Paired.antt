-- ===== src/Phone/Link/Paired.antt =====
-- What `connect` of src/phone.rs relies on before it opens a tunnel to the phone.
use alt_keeper.Base.Action.{
  Run, ok, err, panic, of_run, call, Keeps, Keeps-bind, Keeps-bind_ok, Keeps-of_run, ◌>>=◌,
}
use alt_keeper.Phone.Link.{
  Idevice, PhoneLink, connect, connect_with, open_tunnel, open_services, pair, ask_pin, host_name,
  with_port, explain_pairing,
}
use alt_keeper.Base.{ℕ, ◌-◌, ◌≡◌, if_both, refl}
use alt_keeper.Base.Text.{Str}
use alt_keeper.Phone.Address.{SocketAddr, v4, v6}

-- The second address is that of the same machine, with this port.
abbrev pub IsAt : SocketAddr → ℕ → SocketAddr → Type 0
IsAt (v4 ip _) port (v4 other p) = (other ≡ ip) × (p ≡ port)
IsAt (v4 _ _) port (v6 _ _ _ _) = ⊥
IsAt (v6 _ _ _ _) port (v4 _ _) = ⊥
IsAt (v6 groups _ _ _) port (v6 other p _ _) = (other ≡ groups) × (p ≡ port)

with_port-IsAt : (addr : SocketAddr) (port : ℕ) → IsAt addr port (with_port addr port)
with_port-IsAt (v4 ip p) port = (refl, refl)
with_port-IsAt (v6 groups p f s) port = (refl, refl)

explained_ok : {A : Type 0} {a : A} (r : Run A) → explain_pairing r ≡ ok a → r ≡ ok a
explained_ok (ok b) e = e
explained_ok (err x) e = absurd (cc e)
explained_ok panic e = absurd (cc e)
explained_ok Run.stuck e = absurd (cc e)

module _ {World Pairing Stream Client Tunnel Ip Adapter Rsd Misagent : Type 0}
    (D : Idevice World Pairing Stream Client Tunnel Ip Adapter Rsd Misagent)
    (I : World → Type 0) where
  -- The phone accepted the pairing that was read from the file, and left this client.
  abbrev pub Accepted : Str → Client → Type 0
  Accepted path accepted =
      (pf : Pairing) × (read : World) × ((D.read_pairing path read).0 ≡ ok pf)
      × (tcp : Stream) × (pf' : Pairing) × (v : World) × ((D.connect_client
            (D.new_client tcp host_name) pf (call (ask_pin D)) v).0
          ≡ ok (accepted, pf'))

  -- The stream goes to the port that the phone gave the client, at this address.
  abbrev pub Dialled : SocketAddr → Client → Stream → Type 0
  Dialled addr client stream =
      (port : ℕ) × (v : World) × ((D.create_tcp_listener client v).0 ≡ ok port)
      × (target : SocketAddr) × IsAt addr port target
      × (u : World) × ((D.tcp_connect target u).0 ≡ ok stream)

  pair_ok :
      (client accepted : Client) (pf pf' : Pairing) (w : World)
      → (pair D client pf w).0 ≡ ok (accepted, pf')
      → (D.connect_client client pf (call (ask_pin D)) w).0 ≡ ok (accepted, pf')
  unfolding pair
  pair_ok client accepted pf pf' w e =
      explained_ok (D.connect_client client pf (call (ask_pin D)) w).0 e

  open_services-Keeps :
      ((port : ℕ) (adapter : Adapter) → Keeps I (D.adapter_connect port adapter))
      → ((stream : Stream) → Keeps I (D.new_rsd stream))
      → ((adapter : Adapter) (hs : Rsd) → Keeps I (D.connect_rsd adapter hs))
      → (client : Client) (tunnel : Tunnel) → Keeps I (open_services D client tunnel)
  unfolding open_services
  open_services-Keeps reaching shaking serving client tunnel =
      Keeps-bind I (of_run (D.parse_ip (D.client_address tunnel))) _
        (Keeps-of_run I (D.parse_ip (D.client_address tunnel)))
        λ our_ip.
          Keeps-bind I (of_run (D.parse_ip (D.server_address tunnel))) _
            (Keeps-of_run I (D.parse_ip (D.server_address tunnel)))
            λ their_ip.
              let adapter =
                D.to_async_handle
                  (D.set_mss (D.mtu tunnel - 60) (D.new_adapter tunnel our_ip their_ip)) in
              Keeps-bind I (D.adapter_connect (D.server_rsd_port tunnel) adapter) _
                (reaching _ adapter)
                λ stream. Keeps-bind I (D.new_rsd stream) _ (shaking stream) λ hs.
                  Keeps-bind I (D.connect_rsd adapter hs) _ (serving adapter hs) λ misagent w h. h

  -- `connect` opens a tunnel only with the key of a client that the phone has accepted with the pairing
  -- of the file, over a stream to the port that the phone gave this client, at the address of the phone:
  -- what all other calls keep, and the listener, the second dialling and the tunnel under these
  -- conditions, `connect` keeps, on every path.
  pub connect-Keeps :
      (path : Str) (addr : SocketAddr)
      → Keeps I (D.read_pairing path)
      → Keeps I (D.tcp_connect addr)
      → ((client : Client) (port : ℕ) (v : World)
          → Accepted path client
          → (D.create_tcp_listener client v).0 ≡ ok port
          → (target : SocketAddr) → IsAt addr port target
          → Keeps I (D.tcp_connect target))
      → ((client : Client) (pf : Pairing) → Keeps I (D.connect_client client pf (call (ask_pin D))))
      → ((client : Client) → Accepted path client → Keeps I (D.create_tcp_listener client))
      → ((client : Client) (stream : Stream)
          → Accepted path client
          → Dialled addr client stream
          → Keeps I (D.connect_tunnel stream (D.encryption_key client)))
      → ((port : ℕ) (adapter : Adapter) → Keeps I (D.adapter_connect port adapter))
      → ((stream : Stream) → Keeps I (D.new_rsd stream))
      → ((adapter : Adapter) (hs : Rsd) → Keeps I (D.connect_rsd adapter hs))
      → Keeps I (connect D addr path)
  unfolding connect connect_with open_tunnel
  connect-Keeps path addr reading dialling redialling pairing listening tunnelling reaching shaking
        serving w h =
      if_both (λ (r : Run (PhoneLink Client Adapter Rsd Misagent) × World). I r.1) (D.exists path w)
        _ _ (opened w h) h
    where
      tunnelled : (client : Client) → Accepted path client → Keeps I (open_tunnel D addr client)
      tunnelled client a =
          Keeps-bind_ok I (D.create_tcp_listener client) _ (listening client a) λ port v given.
            Keeps-bind_ok I (D.tcp_connect (with_port addr port)) _
              (redialling client port v a given (with_port addr port) (with_port-IsAt addr port))
              λ stream u dialled.
                Keeps-bind I (D.connect_tunnel stream (D.encryption_key client)) _
                  (tunnelling client stream a
                    (port, v, given, with_port addr port, with_port-IsAt addr port, u, dialled))
                  (open_services-Keeps reaching shaking serving client)

      opened : Keeps I (D.read_pairing path >>= connect_with D addr)
      opened = Keeps-bind_ok I (D.read_pairing path) (connect_with D addr) reading λ pf u read.
          Keeps-bind I (D.tcp_connect addr) _ dialling λ tcp.
            Keeps-bind_ok I (pair D (D.new_client tcp host_name) pf) _
              (pairing (D.new_client tcp host_name) pf)
              λ (client, pf') v paired. tunnelled client (
                pf,
                u,
                read,
                tcp,
                pf',
                v,
                pair_ok (D.new_client tcp host_name) client pf pf' v paired,
              )
