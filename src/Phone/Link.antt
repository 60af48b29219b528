-- ===== src/Phone/Link.antt =====
-- `ask_pin`, `connect` and `pair_usb` of src/phone.rs, over the crate `idevice`.
pub mod Paired
mod Tests
use alt_keeper.Base.Action.{
  Run, Action, ok, err, fail, pure, of_run, or_fail, effect, context, get, call, ◌>>=◌, ◌>>◌,
}
use alt_keeper.Phone.Address.{SocketAddr, v4, v6}
use alt_keeper.Base.{suc, none, ◌++◌, some, zero, [], ℕ, Bool, if◌then◌else◌, ◌-◌, Option}
use alt_keeper.Base.Text.{Str, codes, is_empty}
use alt_keeper.Base.Bytes.{Bytes}
use alt_keeper.Base.Trim.{trim}

abbrev pub host_name : Str
host_name = codes "casa2"

abbrev pub pin_file : Str
pin_file = codes "pin.txt"

-- `SocketAddr::new(addr.ip(), port)`
abbrev pub with_port : SocketAddr → ℕ → SocketAddr
with_port (v4 ip _) port = v4 ip port
with_port (v6 groups _ _ _) port = v6 groups port 0 0

-- What `connect` uses of the file system, of sockets and of the crate `idevice`; the errors have the
-- text of `dbg`. A client and its pairing file are changed by `connect_client`, whose callback asks for
-- the PIN.
pub record Idevice (World Pairing Stream Client Tunnel Ip Adapter Rsd Misagent : Type 0)
    : Type 0 where
  pub exists : Str → World → Bool
  pub read_to_string : Str → World → Option Str
  pub remove_file : Str → World → World
  pub sleep : World → World
  pub println : Str → World → World
  pub read_pairing : Str → Action World Pairing
  pub tcp_connect : SocketAddr → Action World Stream
  pub new_client : Stream → Str → Client
  pub connect_client : Client → Pairing → Action World Str → Action World (Client × Pairing)
  pub create_tcp_listener : Client → Action World ℕ
  pub encryption_key : Client → Bytes
  pub connect_tunnel : Stream → Bytes → Action World Tunnel
  pub client_address : Tunnel → Str
  pub server_address : Tunnel → Str
  pub server_rsd_port : Tunnel → ℕ
  pub mtu : Tunnel → ℕ
  pub parse_ip : Str → Run Ip
  pub new_adapter : Tunnel → Ip → Ip → Adapter
  pub set_mss : ℕ → Adapter → Adapter
  pub to_async_handle : Adapter → Adapter
  pub adapter_connect : ℕ → Adapter → Action World Stream
  pub new_rsd : Stream → Action World Rsd
  pub connect_rsd : Adapter → Rsd → Action World Misagent

pub record PhoneLink (Client Adapter Rsd Misagent : Type 0) : Type 0 where
  pub misagent : Misagent
  pub adapter : Adapter
  pub hs : Rsd
  pub keep : Client

abbrev pub refused_text : Str → Str
refused_text e =
    codes "pairing con l'iPhone non riuscito ("
    ++ (e
        ++ codes "). Se il telefono non riconosce questo pairing, rifallo con `altkeeper pair-usb`")

-- The `map_err` of the pairing.
abbrev pub explain_pairing : {A : Type 0} → Run A → Run A
explain_pairing (ok a) = ok a
explain_pairing (err e) = err (refused_text e)
explain_pairing Run.panic = Run.panic
explain_pairing Run.stuck = Run.stuck

module _ {World Pairing Stream Client Tunnel Ip Adapter Rsd Misagent : Type 0}
    (D : Idevice World Pairing Stream Client Tunnel Ip Adapter Rsd Misagent) where
  -- The text in the file, once trimmed, where there is one.
  unfoldable pub typed_pin : World → Option Str
  typed_pin w = elim (D.read_to_string pin_file w) [
    | none ↦ none
    | some s ↦ if is_empty (trim s) then none else some (trim s)
  ]

  -- The loop of `ask_pin`, with the rounds that are left.
  unfoldable pub wait_pin : ℕ → World → Str × World
  unfolding typed_pin
  wait_pin zero w = ([], w)
  wait_pin (suc left) w =
      let later = wait_pin left (D.sleep w) in
      elim (typed_pin w) [ none ↦ later | some pin ↦ (pin, D.remove_file pin_file w) ]

  unfoldable pub ask_pin : World → Str × World
  unfolding wait_pin
  ask_pin w =
      wait_pin 120
        (D.println (codes "   l'iPhone chiede un PIN: scrivilo in pin.txt (attendo 2 minuti)") w)

  -- `connect`, from the tunnel on.
  unfoldable pub open_services :
      Client → Tunnel → Action World (PhoneLink Client Adapter Rsd Misagent)
  open_services client tunnel = do
    our_ip ← of_run (D.parse_ip (D.client_address tunnel))
    their_ip ← of_run (D.parse_ip (D.server_address tunnel))
    let made = D.set_mss (D.mtu tunnel - 60) (D.new_adapter tunnel our_ip their_ip)
    let adapter = D.to_async_handle made
    stream ← D.adapter_connect (D.server_rsd_port tunnel) adapter
    hs ← D.new_rsd stream
    misagent ← D.connect_rsd adapter hs
    pure (record { misagent = misagent; adapter = adapter; hs = hs; keep = client })

  -- `connect`, once the phone has accepted the pairing.
  unfoldable pub open_tunnel :
      SocketAddr → Client → Action World (PhoneLink Client Adapter Rsd Misagent)
  unfolding open_services
  open_tunnel addr client = do
    port ← D.create_tcp_listener client
    stream ← D.tcp_connect (with_port addr port)
    tunnel ← D.connect_tunnel stream (D.encryption_key client)
    open_services client tunnel

  unfoldable pub pair : Client → Pairing → Action World (Client × Pairing)
  unfolding ask_pin
  pair client pf w =
      let done = D.connect_client client pf (call ask_pin) w in (explain_pairing done.0, done.1)

  -- `connect`, from the pairing file on.
  unfoldable pub connect_with :
      SocketAddr → Pairing → Action World (PhoneLink Client Adapter Rsd Misagent)
  unfolding pair open_tunnel
  connect_with addr pf = do
    tcp ← D.tcp_connect addr
    (client, _) ← pair (D.new_client tcp host_name) pf
    open_tunnel addr client

  unfoldable pub connect : SocketAddr → Str → Action World (PhoneLink Client Adapter Rsd Misagent)
  unfolding connect_with
  connect addr path w =
      let opened = (D.read_pairing path >>= connect_with addr) w in
      if D.exists path w then opened else (
        err (
            codes "manca il pairing remoto "
            ++ (path ++ codes ": crealo con `altkeeper pair-usb`")),
        w,
      )
