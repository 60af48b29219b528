-- ===== src/Phone/Usb/Tests.antt =====
-- A pairing by USB with src/phone.rs.
use alt_keeper.Base.Action.{ok, pure}
use alt_keeper.Phone.Usb.{Usbmuxd, pair_usb}
use alt_keeper.Phone.Usb.Trusted.{pair_usb-Keeps, IsUsbClient}
use alt_keeper.Phone.Address.{v4}
use alt_keeper.Base.{some, ◌∷◌, refl, ℕ, none, ◌==◌, Option, ◌≡◌, [], arith, inr, inl, ◌⊎◌}
use alt_keeper.Base.Text.{codes}

-- Of two phones the first, 7, is on the network and the second, 8, is attached by USB. The world is
-- the phone whose pairing was written; a pairing holds its phone, once it is accepted.
abbrev usbmuxd : Usbmuxd (Option ℕ) ℕ ℕ ℕ ℕ ℕ ℕ (Option ℕ)
usbmuxd = record {
  env_var = λ name w. some (codes "127.0.0.1:27015");
  parse_addr = λ s. ok (v4 (record { a = 127; b = 0; c = 0; d = 1 }) 27015);
  tcp_connect = λ addr. pure 0;
  new_mux = λ stream tag. 0;
  get_devices = λ mux. pure (7 ∷ 8 ∷ []);
  is_usb = λ dev. dev == 8;
  to_provider = λ dev label. pure dev;
  lockdown = λ provider. pure provider;
  into_client = λ service name. ok service;
  generate = λ name. none;
  connect_client = λ client pf ask. pure (client, some client);
  write_to_file = λ pf out w. (ok tt, pf);
}

abbrev first_world : Option ℕ
first_world = none

-- If a pairing was written, it is that of the phone that is attached by USB.
abbrev IsPaired : Option ℕ → Type 0
IsPaired w = (w ≡ none) ⊎ (w ≡ some 8)

-- Only the phone 8 is attached by USB, and its client is the phone.
eight : (client : ℕ) → IsUsbClient usbmuxd client → client ≡ 8
eight client
      (provider, (dev, (mux, devs, v, listed, among, usb), u, provided), service, t, locked, made) =
    let device : dev ≡ 8 = ground (arith, usb) in
    let same : provider ≡ dev = cc provided in
    let served : service ≡ provider = cc locked in
    let ours : client ≡ service = cc made in cc (device, same, served, ours)

pair_usb-Keeps_example : IsPaired (pair_usb usbmuxd (codes "rp-pairing.plist") first_world).1
pair_usb-Keeps_example =
    pair_usb-Keeps usbmuxd IsPaired (λ addr w h. h) (λ mux w h. h) (λ dev attached w h. h)
      (λ provider reached w h. h) (λ client ours w h. h) (codes "rp-pairing.plist")
      (λ client accepted pf v ours paired w h.
        let written : pf ≡ some client = cc paired in inr (cc (written, eight client ours)))
      first_world (inl refl)

writes_usb : pair_usb usbmuxd (codes "rp-pairing.plist") first_world ≡ (ok tt, some 8)
unfolding pair_usb
writes_usb = refl
