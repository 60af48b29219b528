-- ===== src/Phone/Discover.antt =====
-- `discover`, `subnet_hosts` and `scan_lan` of src/phone.rs.
pub mod Once
use alt_keeper.Base.{
  ◌++◌, map, suc, List, [], ◌∷◌, ◌==◌, Option, ℕ, if◌then◌else◌, ◌+◌, some, none, zero, ltb,
}
use alt_keeper.Phone.Address.{Network, SocketAddr, Event, contains_addr, resolved, v4, other}
use alt_keeper.Dnssd.Zone.{Ipv4Addr}
use Prim.Native.Nat.{min}

abbrev pub push_new : List SocketAddr → SocketAddr → List SocketAddr
push_new found addr = if contains_addr addr found then found else found ++ addr ∷ []

-- The addresses of one event, each with its port.
unfoldable pub push_all : ℕ → List SocketAddr → List Ipv4Addr → List SocketAddr
push_all port found [] = found
push_all port found (ip ∷ ips) = push_all port (push_new found (v4 ip port)) ips

-- The loop of `discover` over the events, up to the deadline: after a phone is found it ends at most
-- 700 milliseconds later.
unfoldable pub discover_loop : ℕ → List SocketAddr → List Event → List SocketAddr
unfolding push_all
discover_loop deadline found [] = found
discover_loop deadline found (resolved time ips port ∷ events) =
    let rest = discover_loop (min deadline (time + 700)) (push_all port found ips) events in
    if ltb deadline time then found else rest
discover_loop deadline found (other time ∷ events) =
    let rest = discover_loop deadline found events in if ltb deadline time then found else rest

abbrev pub events_found : ℕ → Option (List Event) → List SocketAddr
events_found wait none = []
events_found wait (some events) = discover_loop wait [] events

-- The numbers of `1..=254` from `h` on that are not `d`, `left` of them to look at.
unfoldable pub hosts_from : ℕ → ℕ → ℕ → List ℕ
hosts_from zero h d = []
hosts_from (suc left) h d =
    let rest = hosts_from left (h + 1) d in if h == d then rest else h ∷ rest

unfoldable pub subnet_hosts : Ipv4Addr → List Ipv4Addr
unfolding hosts_from
subnet_hosts own =
    map (λ h. record { a = own.a; b = own.b; c = own.c; d = h }) (hosts_from 254 1 own.d)

module _ {World Link : Type 0} (N : Network World Link) where
  -- `discover`; `wait` is in milliseconds.
  unfoldable pub discover : ℕ → World → List SocketAddr × World
  discover wait w = let (events, w') = N.browse w in (events_found wait events, w')

  -- The attempts run at once and the addresses that accept are sorted: with one port, they stand in
  -- the order of the hosts.
  unfoldable pub accepting : ℕ → World → List Ipv4Addr → List SocketAddr
  accepting port w [] = []
  accepting port w (ip ∷ ips) =
      let rest = accepting port w ips in
      if N.accepts (v4 ip port) w then v4 ip port ∷ rest else rest

  unfoldable pub scan_lan : ℕ → World → List SocketAddr
  unfolding accepting
  scan_lan port w = elim (N.local_ip w) [
    | none ↦ []
    | some own ↦ accepting port w (subnet_hosts own)
  ]
