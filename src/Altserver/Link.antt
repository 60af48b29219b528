-- ===== src/Altserver/Link.antt =====
-- `phone_link` of src/altserver.rs: how a request reaches the phone.
use alt_keeper.Base.Action.{Run, ok, err}
use alt_keeper.Phone.Connect.{connect_auto}
use alt_keeper.Commands.Phone.{pairing_file}
use alt_keeper.Phone.Address.{Network, SocketAddr}
use alt_keeper.Base.Text.{Str, codes}
use alt_keeper.Base.{◌++◌, some, Option, none}

module _ {World Link : Type 0} (N : Network World Link) where
  abbrev said : Str → World → World
  said s w = N.say (codes "[altserver] " ++ s) w

  -- The match on the outcome: `none` is `ERR_DEVICE_NOT_FOUND`.
  unfoldable pub link_of : Run (SocketAddr × Link) → World → Option Link × World
  link_of (ok (addr, link)) w = (some link, said (codes "telefono a " ++ N.print_addr addr) w)
  link_of (err e) w = (none, said (codes "telefono non raggiungibile: " ++ e) w)
  link_of Run.panic w = (none, w)
  link_of Run.stuck w = (none, w)

  -- The search says nothing; `phone` is the address that the server was started with.
  unfoldable pub phone_link : Option SocketAddr → World → Option Link × World
  unfolding link_of
  phone_link phone w =
      let (r, w') = connect_auto (record N { say = λ s v. v }) phone pairing_file w in link_of r w'
