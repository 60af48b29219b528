-- ===== src/Altserver/Startup.antt =====
-- How the server of src/altserver.rs starts and stops, and the daemon of src/phone.rs by which it is
-- announced: `start`, `register_bonjour`, `stop` and `mdns`.
pub mod Statics
pub mod Announced
mod Tests
use alt_keeper.Altserver.Identity.{Host, server_id, hostname}
use alt_keeper.Base.Action.{
  Run, Action, ok, err, panic, fail, pure, or_fail, effect, optional, context, get, call, ◌>>=◌,
  ◌>>◌,
}
use alt_keeper.Base.{
  ℕ, none, some, false, Option, List, ◌∷◌, ◌++◌, if◌then◌else◌, not, [], true, Bool, ltb, length,
}
use alt_keeper.Base.Outcome.{Outcome}
use alt_keeper.Dnssd.Zone.{slice_to}
use alt_keeper.Base.Text.{Str, codes}
use alt_keeper.Phone.Address.{SocketAddr}

-- `mdns_sd::ServiceInfo`: the service that is announced. `addr_auto` is set by `enable_addr_auto`.
pub record ServiceInfo : Type 0 where
  pub service_type : Str
  pub instance_name : Str
  pub host_name : Str
  pub addresses : Str
  pub port : ℕ
  pub properties : List (Str × Str)
  pub addr_auto : Bool

-- What the code uses of the host, of the listening socket and of the crate `mdns_sd`, with the two
-- statics of the program: `DAEMON`, whose content says whether there is a daemon, and
-- `SERVICE_FULLNAME`. The thread that accepts connections is only started.
pub record Bonjour (World Listener : Type 0) : Type 0 where
  pub host : Host World
  pub bind : ℕ → Action World Listener
  pub local_port : Listener → Action World ℕ
  pub spawn_accept : Listener → Option SocketAddr → World → World
  pub daemon_cell : World → Option Bool
  pub set_daemon : Bool → World → World
  pub new_daemon : World → Bool × World
  pub fullname_cell : World → Option Str
  pub set_fullname : Str → World → World
  pub new_info : ServiceInfo → Action World ServiceInfo
  pub get_fullname : ServiceInfo → Str
  pub register : ServiceInfo → Action World (Unit {0})
  pub unregister : Str → World → Bool × World
  pub wait_unregistered : World → World
  pub println : Str → World → World
  pub print_u16 : ℕ → Str

abbrev pub service_type : Str
service_type = codes "_altserver._tcp.local."

abbrev pub no_bonjour : Str
no_bonjour = codes "Bonjour non disponibile"

-- `&id[..8]`
unfoldable pub first_eight : Str → Outcome Str
unfolding slice_to
first_eight id = let cut = slice_to id 8 in if ltb (length id) 8 then Outcome.panic else cut

abbrev pub or_stop {ℓ} : {World : Type 0} {A : Type ℓ} → Outcome A → Action World A
or_stop (Outcome.ok a) = pure a
or_stop Outcome.refused = λ w. (panic, w)
or_stop Outcome.panic = λ w. (panic, w)
or_stop Outcome.stuck = λ w. (Run.stuck, w)

-- `ok_or(e)?` on what is only there or not.
abbrev pub require : {World : Type 0} → Str → Bool → Action World (Unit {0})
require e true = pure tt
require e false = fail e

-- The announcement that `register_bonjour` makes up, from the host's name and the cut of the id.
unfoldable pub service_of : Str → Str → ℕ → Str → ServiceInfo
service_of host cut port id = record {
  service_type = service_type;
  instance_name = codes "altkeeper-" ++ host;
  host_name = codes "altkeeper-" ++ (cut ++ codes ".local.");
  addresses = [];
  port = port;
  properties = (codes "serverID", id) ∷ [];
  addr_auto = false;
}

module _ {World Listener : Type 0} (B : Bonjour World Listener) where
  unfoldable pub log : Str → World → World
  log msg w = B.println (codes "[altserver] " ++ msg) w

  -- `get_or_init`: whether there is a daemon.
  unfoldable pub mdns : World → Bool × World
  mdns w = elim (B.daemon_cell w) [
    | some there ↦ (there, w)
    | none ↦ let (made, w') = B.new_daemon w in (made, B.set_daemon made w')
  ]

  -- `register_bonjour`, from the result of `ServiceInfo::new` on.
  unfoldable pub announce : ServiceInfo → Action World (Unit {0})
  announce info = do
    let service = record info { addr_auto = true }
    effect (B.set_fullname (B.get_fullname service))
    context (codes "Bonjour: ") (B.register service)

  -- `register_bonjour`, once it is known whether there is a daemon.
  unfoldable pub register_by : ℕ → Str → Bool → Action World (Unit {0})
  unfolding announce service_of
  register_by port id there = do
    require no_bonjour there
    host ← get (hostname B.host)
    cut ← or_stop (first_eight id)
    info ← context (codes "Bonjour: ") (B.new_info (service_of host cut port id))
    announce info

  unfoldable pub register_bonjour : ℕ → Str → Action World (Unit {0})
  unfolding mdns register_by
  register_bonjour port id = call mdns >>= register_by port id

  -- The end of `start`, from the cut of the serverID on.
  unfoldable pub listen : Listener → Option SocketAddr → ℕ → Str → Action World ℕ
  unfolding log
  listen listener phone port cut = do
    effect (
        log (
          codes "in ascolto sulla porta "
          ++ (B.print_u16 port ++ (codes ", serverID " ++ (cut ++ codes "...")))))
    effect (B.spawn_accept listener phone)
    pure port

  -- `start`, from the serverID on.
  unfoldable pub start_as : Listener → Option SocketAddr → ℕ → Str → Action World ℕ
  unfolding register_bonjour first_eight listen
  start_as listener phone port id =
      register_bonjour port id >>= λ _. or_stop (first_eight id) >>= listen listener phone port

  -- `start`, from the port of the listener on.
  unfoldable pub start_at : Listener → Option SocketAddr → ℕ → Action World ℕ
  unfolding start_as
  start_at listener phone port = server_id B.host >>= start_as listener phone port

  unfoldable pub start_on : Option SocketAddr → Listener → Action World ℕ
  unfolding start_at
  start_on phone listener = B.local_port listener >>= start_at listener phone

  unfoldable pub start : ℕ → Option SocketAddr → Action World ℕ
  unfolding start_on
  start port phone =
      context
        (codes "AltServer: non riesco ad ascoltare sulla porta "
          ++ (B.print_u16 port ++ codes ": "))
        (B.bind port)
      >>= start_on phone

  -- The end of `stop`, where there is a daemon and the service was announced.
  unfoldable pub withdraw : Str → World → World
  unfolding log
  withdraw name w =
      let (asked, w') = B.unregister name w in
      log (codes "annuncio Bonjour tolto") (if asked then B.wait_unregistered w' else w')

  unfoldable pub stop_by : Bool × World → World
  unfolding withdraw
  stop_by (false, w) = w
  stop_by (true, w) = elim (B.fullname_cell w) [ none ↦ w | some name ↦ withdraw name w ]

  unfoldable pub stop : World → World
  unfolding mdns stop_by
  stop w = stop_by (mdns w)
