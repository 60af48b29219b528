-- ===== src/Phone/Discover/Once.antt =====
-- The two searches of src/phone.rs find each address once.
use alt_keeper.Phone.Discover.{
  push_all, discover_loop, hosts_from, subnet_hosts, scan_lan, discover, accepting, push_new,
  events_found,
}
use alt_keeper.Base.{
  [], inl, ◌≢◌, none, ◌<◌, suc, Option, ℕ, ◌≡◌, some, map, ◌∷◌, zero, arith, List, ◌==◌, ap, ◌+◌,
  inr, All, option_both, if_both, Bool-cases, ltb,
}
use alt_keeper.Phone.Address.{
  Network, SocketAddr, v4, Event, resolved, contains_addr, other, not_contains,
}
use alt_keeper.Base.Distinct.{IsDistinct, IsDistinct-append}
use alt_keeper.Dnssd.Zone.{Ipv4Addr}
use Prim.Native.Nat.{min}

pub push_new-IsDistinct :
    (found : List SocketAddr) (addr : SocketAddr)
    → IsDistinct found
    → IsDistinct (push_new found addr)
push_new-IsDistinct found addr h = elim (Bool-cases (contains_addr addr found)) [
  | inl old ↦ rw old h
  | inr new ↦
      rw new (IsDistinct-append found (addr ∷ []) h (tt, tt) (not_contains addr found new, tt))
]

push_all-IsDistinct :
    (port : ℕ) (found : List SocketAddr) (ips : List Ipv4Addr)
    → IsDistinct found
    → IsDistinct (push_all port found ips)
unfolding push_all
push_all-IsDistinct port found [] h = h
push_all-IsDistinct port found (ip ∷ ips) h =
    push_all-IsDistinct port (push_new found (v4 ip port)) ips
      (push_new-IsDistinct found (v4 ip port) h)

discover_loop-IsDistinct :
    (deadline : ℕ) (found : List SocketAddr) (events : List Event)
    → IsDistinct found
    → IsDistinct (discover_loop deadline found events)
unfolding discover_loop
discover_loop-IsDistinct deadline found [] h = h
discover_loop-IsDistinct deadline found (resolved time ips port ∷ events) h =
    if_both IsDistinct (ltb deadline time) _ _ h (
      discover_loop-IsDistinct (min deadline (time + 700)) (push_all port found ips) events
        (push_all-IsDistinct port found ips h))
discover_loop-IsDistinct deadline found (other time ∷ events) h =
    if_both IsDistinct (ltb deadline time) _ _ h (discover_loop-IsDistinct deadline found events h)

-- The hosts from `h` on are at least `h`, so `h` itself does not come again.
hosts_from-above : (left h d k : ℕ) → k < h → All (λ y. k ≢ y) (hosts_from left h d)
unfolding hosts_from
hosts_from-above zero h d k lt = tt
hosts_from-above (suc left) h d k lt =
    if_both (All (λ y. k ≢ y)) (h == d) _ _ (hosts_from-above left (h + 1) d k (omega arith))
      ((λ e. omega arith), hosts_from-above left (h + 1) d k (omega arith))

hosts_from-IsDistinct : (left h d : ℕ) → IsDistinct (hosts_from left h d)
unfolding hosts_from
hosts_from-IsDistinct zero h d = tt
hosts_from-IsDistinct (suc left) h d =
    if_both IsDistinct (h == d) _ _ (hosts_from-IsDistinct left (h + 1) d)
      (hosts_from-above left (h + 1) d h (omega arith), hosts_from-IsDistinct left (h + 1) d)

-- What differs before an injective function differs after it.
module _ {A B : Type 0} (f : A → B) (injective : (x y : A) → f x ≡ f y → x ≡ y) where
  All-map_apart : (x : A) (xs : List A) → All (λ y. x ≢ y) xs → All (λ z. f x ≢ z) (map f xs)
  All-map_apart x [] h = tt
  All-map_apart x (y ∷ xs) (p, h) = ((λ e. p (injective x y e)), All-map_apart x xs h)

  IsDistinct-map : (xs : List A) → IsDistinct xs → IsDistinct (map f xs)
  IsDistinct-map [] h = tt
  IsDistinct-map (x ∷ xs) (apart, h) = (All-map_apart x xs apart, IsDistinct-map xs h)

pub subnet_hosts-IsDistinct : (own : Ipv4Addr) → IsDistinct (subnet_hosts own)
unfolding subnet_hosts
subnet_hosts-IsDistinct own =
    IsDistinct-map (λ h. record { a = own.a; b = own.b; c = own.c; d = h })
      (λ x y e. ap (λ (ip : Ipv4Addr). ip.d) e) (hosts_from 254 1 own.d)
      (hosts_from-IsDistinct 254 1 own.d)

module _ {World Link : Type 0} (N : Network World Link) where
  accepting-apart :
      (port : ℕ) (w : World) (ip : Ipv4Addr) (ips : List Ipv4Addr)
      → All (λ y. ip ≢ y) ips
      → All (λ a. v4 ip port ≢ a) (accepting N port w ips)
  unfolding accepting
  accepting-apart port w ip [] h = tt
  accepting-apart port w ip (y ∷ ips) (p, h) =
      if_both (All (λ a. v4 ip port ≢ a)) (N.accepts (v4 y port) w) _ _
        ((λ e. p (cc e)), accepting-apart port w ip ips h) (accepting-apart port w ip ips h)

  accepting-IsDistinct :
      (port : ℕ) (w : World) (ips : List Ipv4Addr)
      → IsDistinct ips
      → IsDistinct (accepting N port w ips)
  unfolding accepting
  accepting-IsDistinct port w [] h = tt
  accepting-IsDistinct port w (ip ∷ ips) (apart, h) =
      if_both IsDistinct (N.accepts (v4 ip port) w) _ _
        (accepting-apart port w ip ips apart, accepting-IsDistinct port w ips h)
        (accepting-IsDistinct port w ips h)

  pub scan_lan-IsDistinct : (port : ℕ) (w : World) → IsDistinct (scan_lan N port w)
  unfolding scan_lan
  scan_lan-IsDistinct port w =
      option_both IsDistinct (N.local_ip w) _ _ tt
        λ own. accepting-IsDistinct port w (subnet_hosts own) (subnet_hosts-IsDistinct own)

  pub discover-IsDistinct : (wait : ℕ) (w : World) → IsDistinct (discover N wait w).0
  unfolding discover
  discover-IsDistinct wait w = go (N.browse w).0
    where
      go : (o : Option (List Event)) → IsDistinct (events_found wait o)
      go none = tt
      go (some events) = discover_loop-IsDistinct wait [] events tt
