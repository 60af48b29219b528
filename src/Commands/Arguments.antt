-- ===== src/Commands/Arguments.antt =====
-- The arguments of src/main.rs and the variables of src/env.rs that stand for them.
pub mod Cidr
use alt_keeper.Altserver.Identity.{Host, server_id, instance_name}
use alt_keeper.Base.Action.{
  Run, Action, ok, err, fail, of_run, tag_err, pure, or_fail, effect, optional, ◌>>=◌, ◌>>◌,
}
use alt_keeper.Base.{
  List, ◌∷◌, if◌then◌else◌, ◌==◌, none, [], ℕ, ◌++◌, some, Option, ltb, get_elem?, false, true,
  Bool,
}
use alt_keeper.Base.Text.{Str, str_eq, codes, is_empty, parse_unsigned}
use alt_keeper.Dnssd.Zone.{Ipv4Addr, Zone, new}
use alt_keeper.Phone.Address.{SocketAddr, v4}
use alt_keeper.Dnssd.Listen
use alt_keeper.Dnssd.Listen.{Udp}
use alt_keeper.Base.Trim.{trim}

abbrev pub not_empty_text : Option Str → Option Str
not_empty_text none = none
not_empty_text (some s) = if is_empty s then none else some s

abbrev pub or_else_text : Option Str → Option Str → Option Str
or_else_text none b = b
or_else_text (some a) b = some a

-- `pick` of src/env.rs
unfoldable pub pick : Option Str → Option Str → Option Str
pick new old = or_else_text (not_empty_text new) (not_empty_text old)

-- `var` of src/env.rs, from the environment.
unfoldable pub var : (Str → Option Str) → Str → Option Str
unfolding pick
var get name = pick (get (codes "ALTKEEPER_" ++ name)) (get (codes "ALTREFRESH_" ++ name))

-- `is_set` of src/env.rs: an empty value counts.
unfoldable pub is_set : (Str → Option Str) → Str → Bool
is_set get name =
    elim (or_else_text (get (codes "ALTKEEPER_" ++ name)) (get (codes "ALTREFRESH_" ++ name))) [
      | none ↦ false
      | some _ ↦ true
    ]

-- `args.iter().position(|a| a == name).and_then(|i| args.get(i + 1)).cloned()`
unfoldable pub opt : List Str → Str → Option Str
opt [] name = none
opt (a ∷ as') name = let rest = opt as' name in if str_eq a name then get_elem? as' 0 else rest

-- `phone_addr`, with the value of the variable `PHONE`.
unfoldable pub phone_addr :
    (Str → Run SocketAddr) → Option Str → Option Str → Run (Option SocketAddr)
phone_addr parse given env = elim (or_else_text given env) [
  | none ↦ ok none
  | some s ↦ if is_empty (trim s) then ok none else parsed (parse (trim s))
]
  where
    parsed : Run SocketAddr → Run (Option SocketAddr)
    parsed (ok a) = ok (some a)
    parsed (err e) = err (codes "indirizzo del telefono non valido: " ++ e)
    parsed Run.panic = Run.panic
    parsed Run.stuck = Run.stuck

-- An unsigned number, or the error of its parser, which `why` writes.
abbrev pub parse_or : (Str → Str) → ℕ → (Str → Str) → Str → Run ℕ
parse_or why largest message s = elim (parse_unsigned largest s) [
  | none ↦ err (message (why s))
  | some n ↦ ok n
]

abbrev pub default_altserver_port : ℕ
default_altserver_port = 49500

-- `altserver_port`
unfoldable pub altserver_port : (Str → Str) → Option Str → Run ℕ
altserver_port why none = ok default_altserver_port
altserver_port why (some v) = parse_or why 65535 (λ e. codes "porta non valida: " ++ e) v

-- `s.split_once(c)`
unfoldable pub split_once : ℕ → Str → Option (Str × Str)
split_once d [] = none
split_once d (c ∷ s) = elim (split_once d s) [
  | none ↦ if c == d then some ([], s) else none
  | some (before, after) ↦ if c == d then some ([], s) else some (c ∷ before, after)
]

-- The number of bits of a network, once its address is known.
unfoldable pub check_bits : (Str → Str) → Str → Ipv4Addr → Run (Ipv4Addr × ℕ)
check_bits why bits ip = elim (parse_unsigned 255 bits) [
  | none ↦ err (codes "--dns-clients: /" ++ (bits ++ (codes " non valido: " ++ why bits)))
  | some n ↦
      if ltb 32 n
      then err (
          codes "--dns-clients: /"
          ++ (bits ++ (codes " non esiste, il massimo " ++ (195 ∷ 168 ∷ codes " /32"))))
      else ok (ip, n)
]

abbrev pub no_bits : Str → Str
no_bits s = codes "--dns-clients " ++ (s ++ codes ": manca la lunghezza, per esempio 10.7.0.0/24")

abbrev then_bits : (Str → Str) → Str → Run Ipv4Addr → Run (Ipv4Addr × ℕ)
then_bits why bits (ok ip) = check_bits why bits ip
then_bits why bits (err e) = err (codes "--dns-clients: indirizzo non valido: " ++ e)
then_bits why bits Run.panic = Run.panic
then_bits why bits Run.stuck = Run.stuck

-- `parse_cidr`; `parse_ip` parses an address of version 4.
unfoldable pub parse_cidr : (Str → Run Ipv4Addr) → (Str → Str) → Str → Run (Ipv4Addr × ℕ)
unfolding split_once check_bits
parse_cidr parse_ip why s = elim (split_once b'/' s) [
  | none ↦ err (no_bits s)
  | some (ip, bits) ↦ then_bits why bits (parse_ip ip)
]

-- What `start_dnssd` uses of the host, and what `dnssd::start` uses.
pub record Publisher (World DnsSocket : Type 0) : Type 0 where
  pub host : Host World
  pub udp : Udp World DnsSocket

-- `SocketAddr::from(([0, 0, 0, 0], port))`
abbrev pub anywhere : ℕ → SocketAddr
anywhere port = v4 (record { a = 0; b = 0; c = 0; d = 0 }) port

abbrev pub no_address : Str
no_address =
    codes
      "--dns-domain vuole anche --dns-address <ip>: l'indirizzo a cui il telefono si collega, di solito quello della VPN di questa macchina"

module _ {World DnsSocket : Type 0} (B : Publisher World DnsSocket) (parse_ip : Str → Run Ipv4Addr)
    (why : Str → Str) where
  unfoldable pub dns_port : Option Str → Run ℕ
  dns_port none = ok 5533
  dns_port (some p) = parse_or why 65535 (λ e. codes "--dns-port non valido: " ++ e) p

  unfoldable pub dns_clients : Ipv4Addr → Option Str → Run (Ipv4Addr × ℕ)
  unfolding parse_cidr
  dns_clients address none = ok (address, 24)
  dns_clients address (some cidr) = parse_cidr parse_ip why cidr

  -- `start_dnssd` with the value of `--dns-domain`.
  unfoldable pub publish : (Str → Option Str) → ℕ → Str → Action World (Unit {0})
  unfolding dns_port dns_clients Listen.start
  publish options altserver_port domain = do
    text ← or_fail no_address (options (codes "--dns-address"))
    address ← of_run (tag_err (codes "--dns-address non valido: ") (parse_ip text))
    port ← of_run (dns_port (options (codes "--dns-port")))
    clients ← of_run (dns_clients address (options (codes "--dns-clients")))
    name ← λ w. (ok (instance_name B.host w), w)
    id ← server_id B.host
    zone ← optional (new domain name id altserver_port address clients)
    z ← or_fail [] zone
    Listen.start B.udp z (anywhere port) >> pure tt

  unfoldable pub start_dnssd : (Str → Option Str) → ℕ → Action World (Unit {0})
  unfolding publish
  start_dnssd options altserver_port = elim (options (codes "--dns-domain")) [
    | none ↦ pure tt
    | some domain ↦ publish options altserver_port domain
  ]
