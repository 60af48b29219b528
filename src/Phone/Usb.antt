-- ===== src/Phone/Usb.antt =====
-- `pair_usb` of src/phone.rs, over the crate `idevice`.
pub mod Trusted
mod Tests
use alt_keeper.Base.Action.{
  Run, Action, ok, err, fail, pure, of_run, or_fail, effect, context, get, ◌>>=◌, ◌>>◌,
}
use alt_keeper.Phone.Address.{SocketAddr}
use alt_keeper.Phone.Link.{host_name}
use alt_keeper.Base.{none, ◌∷◌, some, [], ℕ, List, Bool, if◌then◌else◌, Option}
use alt_keeper.Base.Text.{Str, codes}

-- What `pair_usb` uses of the environment, of sockets and of the crate `idevice`; the errors have the
-- text of `dbg`.
pub record Usbmuxd (World Stream Mux Device Provider Service Client Pairing : Type 0) : Type 0 where
  pub env_var : Str → World → Option Str
  pub parse_addr : Str → Run SocketAddr
  pub tcp_connect : SocketAddr → Action World Stream
  pub new_mux : Stream → ℕ → Mux
  pub get_devices : Mux → Action World (List Device)
  -- `connection_type == Connection::Usb`
  pub is_usb : Device → Bool
  -- `UsbmuxdAddr::from_env_var`, and `to_provider` with it.
  pub to_provider : Device → Str → Action World Provider
  pub lockdown : Provider → Action World Service
  pub into_client : Service → Str → Run Client
  pub generate : Str → Pairing
  pub connect_client : Client → Pairing → Action World Str → Action World (Client × Pairing)
  pub write_to_file : Pairing → Str → Action World (Unit {0})

abbrev pub socket_variable : Str
socket_variable = codes "USBMUXD_SOCKET_ADDRESS"

abbrev pub no_socket : Str
no_socket = codes "manca USBMUXD_SOCKET_ADDRESS (ip:porta di un usbmuxd)"

abbrev pub no_iphone : Str
no_iphone = codes "nessun iPhone collegato via USB"

module _ {World Stream Mux Device Provider Service Client Pairing : Type 0}
    (U : Usbmuxd World Stream Mux Device Provider Service Client Pairing) where
  -- `devs.iter().find(|d| d.connection_type == Connection::Usb)`
  unfoldable pub find_usb : List Device → Option Device
  find_usb [] = none
  find_usb (d ∷ ds) = let rest = find_usb ds in if U.is_usb d then some d else rest

  -- `pair_usb`, from the phone on: the PIN is not needed on a channel that is trusted already.
  unfoldable pub pair_device : Str → Device → Action World (Unit {0})
  pair_device out dev = do
    provider ← U.to_provider dev (codes "altkeeper")
    service ← U.lockdown provider
    client ← of_run (U.into_client service host_name)
    (_, pf) ← U.connect_client client (U.generate host_name) (pure (codes "000000"))
    U.write_to_file pf out

  unfoldable pub pair_usb : Str → Action World (Unit {0})
  unfolding find_usb pair_device
  pair_usb out = do
    found ← get (U.env_var socket_variable)
    text ← or_fail no_socket found
    addr ← of_run (U.parse_addr text)
    stream ← U.tcp_connect addr
    devs ← U.get_devices (U.new_mux stream 1)
    dev ← or_fail no_iphone (find_usb devs)
    pair_device out dev
