-- ===== src/Phone/Usb/Trusted.antt =====
-- What `pair_usb` of src/phone.rs relies on before it writes a pairing file.
use alt_keeper.Base.Action.{
  ok, or_fail, of_run, pure, Keeps, Keeps-bind, Keeps-bind_ok, Keeps-or_fail, Keeps-of_run,
}
use alt_keeper.Phone.Usb.{
  Usbmuxd, pair_usb, pair_device, find_usb, socket_variable, no_socket, no_iphone,
}
use alt_keeper.Phone.Link.{host_name}
use alt_keeper.Base.Text.{Str, codes}
use alt_keeper.Base.{List, none, Option, true, [], ◌∷◌, some, ◌≡◌, inr, Bool-cases, inl, Among}
use alt_keeper.Phone.Address.{SocketAddr}
use mathlib.Core.Path.{subst}

module _ {World Stream Mux Device Provider Service Client Pairing : Type 0}
    (U : Usbmuxd World Stream Mux Device Provider Service Client Pairing) where
  find_usb_found :
      (ds : List Device) (d : Device) → find_usb U ds ≡ some d → (U.is_usb d ≡ true) × Among d ds
  unfolding find_usb
  find_usb_found [] d e = absurd (cc e)
  find_usb_found (x ∷ ds) d e = elim (Bool-cases (U.is_usb x)) [
    | inl usb ↦
        let same : x ≡ d = cc (rw (usb, find_usb) at e) in
        (subst (λ y. U.is_usb y ≡ true) same usb, inl same)
    | inr other ↦
        let (usb, among) = find_usb_found ds d (rw (other, find_usb) at e) in (usb, inr among)
  ]

  or_fail_ok :
      {A : Type 0} (tag : Str) (o : Option A) (a : A) (w : World)
      → (or_fail {World = World} tag o w).0 ≡ ok a
      → o ≡ some a
  or_fail_ok tag none a w e = absurd (cc e)
  or_fail_ok tag (some b) a w e = cc e

  -- A device that was listed and is attached by USB.
  abbrev pub IsAttached : Device → Type 0
  IsAttached dev =
      (mux : Mux) × (devs : List Device) × (v : World) × ((U.get_devices mux v).0 ≡ ok devs)
      × Among dev devs
      × (U.is_usb dev ≡ true)

  -- The way to such a device.
  abbrev pub ReachesUsb : Provider → Type 0
  ReachesUsb provider =
      (dev : Device) × IsAttached dev
      × (v : World) × ((U.to_provider dev (codes "altkeeper") v).0 ≡ ok provider)

  -- A client of the service of such a device.
  abbrev pub IsUsbClient : Client → Type 0
  IsUsbClient client =
      (provider : Provider) × ReachesUsb provider
      × (service : Service) × (v : World) × ((U.lockdown provider v).0 ≡ ok service)
      × (U.into_client service host_name ≡ ok client)

  -- `pair_usb` talks only to a phone that is among the devices listed and is attached by USB, and
  -- writes only a pairing that such a phone has accepted, from its own client: what the connection and
  -- the list of devices keep, and all other calls under those conditions, `pair_usb` keeps, on every
  -- path.
  pub pair_usb-Keeps :
      (I : World → Type 0)
      → ((addr : SocketAddr) → Keeps I (U.tcp_connect addr))
      → ((mux : Mux) → Keeps I (U.get_devices mux))
      → ((dev : Device) → IsAttached dev → Keeps I (U.to_provider dev (codes "altkeeper")))
      → ((provider : Provider) → ReachesUsb provider → Keeps I (U.lockdown provider))
      → ((client : Client)
          → IsUsbClient client
          → Keeps I (U.connect_client client (U.generate host_name) (pure (codes "000000"))))
      → (out : Str)
      → ((client accepted : Client) (pf : Pairing) (v : World)
          → IsUsbClient client
          → (U.connect_client client (U.generate host_name) (pure (codes "000000")) v).0
            ≡ ok (accepted, pf)
          → Keeps I (U.write_to_file pf out))
      → Keeps I (pair_usb U out)
  unfolding pair_usb pair_device
  pair_usb-Keeps I dialling listing providing locking pairing out writing w h =
      Keeps-bind I (or_fail no_socket (U.env_var socket_variable w)) _
        (Keeps-or_fail I no_socket (U.env_var socket_variable w))
        (λ text.
          Keeps-bind I (of_run (U.parse_addr text)) _ (Keeps-of_run I (U.parse_addr text)) λ addr.
            Keeps-bind I (U.tcp_connect addr) _ (dialling addr) λ stream.
              Keeps-bind_ok I (U.get_devices (U.new_mux stream 1)) _ (listing (U.new_mux stream 1))
                λ devs v listed.
                  Keeps-bind_ok I (or_fail no_iphone (find_usb U devs)) _
                    (Keeps-or_fail I no_iphone (find_usb U devs))
                    λ dev u found.
                      let (usb, among) =
                        find_usb_found devs dev
                          (or_fail_ok no_iphone (find_usb U devs) dev u found) in
                      device dev (U.new_mux stream 1, devs, v, listed, among, usb))
        w h
    where
      device : (dev : Device) → IsAttached dev → Keeps I (pair_device U out dev)
      device dev attached =
          Keeps-bind_ok I (U.to_provider dev (codes "altkeeper")) _ (providing dev attached)
            λ provider v provided.
              let reached : ReachesUsb provider = (dev, attached, v, provided) in
              Keeps-bind_ok I (U.lockdown provider) _ (locking provider reached) λ service u locked.
                Keeps-bind_ok I (of_run (U.into_client service host_name)) _
                  (Keeps-of_run I (U.into_client service host_name))
                  λ client t made.
                    let ours : IsUsbClient client = (provider, reached, service, u, locked, made) in
                    Keeps-bind_ok I
                      (U.connect_client client (U.generate host_name) (pure (codes "000000"))) _
                      (pairing client ours)
                      λ (accepted, pf) x paired. writing client accepted pf x ours paired
