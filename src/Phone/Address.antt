-- ===== src/Phone/Address.antt =====
-- Addresses of src/phone.rs, and the parts of the outside that it uses.
use alt_keeper.Base.{
  ◌||◌, false, Bool, arith, ◌↔◌, if◌then◌else◌, ◌&&◌, ◌≡◌, true, ◌≢◌, ◌∷◌, List, ℕ, [], some, ◌==◌,
  none, Option, All,
}
use alt_keeper.Dnssd.Zone.{Ipv4Addr, octets_of}
use alt_keeper.Base.Text.{codes, Str, str_eq_iff, str_eq}
use alt_keeper.Base.Trim.{trim}

-- `std::net::SocketAddr`: an address and a port; a version 6 address has eight groups, and its flow
-- and scope.
pub data SocketAddr : Type 0 where
  v4 : Ipv4Addr → ℕ → SocketAddr
  v6 : List ℕ → ℕ → ℕ → ℕ → SocketAddr

abbrev pub port_of : SocketAddr → ℕ
port_of (v4 ip port) = port
port_of (v6 groups port flow scope) = port

unfoldable pub addr_eq : SocketAddr → SocketAddr → Bool
addr_eq (v4 i p) (v4 j q) = str_eq (octets_of i) (octets_of j) && p == q
addr_eq (v4 i p) (v6 h q g t) = false
addr_eq (v6 k p f s) (v4 j q) = false
addr_eq (v6 k p f s) (v6 h q g t) = (str_eq k h && p == q) && (f == g && s == t)

octets_of-injective : (i j : Ipv4Addr) → octets_of i ≡ octets_of j → i ≡ j
octets_of-injective i j h = ground arith

pub addr_eq_iff : (x y : SocketAddr) → (addr_eq x y ≡ true) ↔ (x ≡ y)
unfolding addr_eq
addr_eq_iff (v4 i p) (v4 j q) =
    ground (arith, str_eq_iff (octets_of i) (octets_of j), octets_of-injective i j)
addr_eq_iff (v4 i p) (v6 h q g t) = ground arith
addr_eq_iff (v6 k p f s) (v4 j q) = ground arith
addr_eq_iff (v6 k p f s) (v6 h q g t) = ground (arith, str_eq_iff k h)

-- `Vec::contains`
unfoldable pub contains_addr : SocketAddr → List SocketAddr → Bool
contains_addr a [] = false
contains_addr a (x ∷ xs) = addr_eq x a || contains_addr a xs

pub not_contains :
    (a : SocketAddr) (xs : List SocketAddr) → contains_addr a xs ≡ false → All (λ x. x ≢ a) xs
unfolding contains_addr
not_contains a [] h = tt
not_contains a (x ∷ xs) h = (λ e. ground (arith, addr_eq_iff x a), not_contains a xs (ground arith))

-- What one attempt at a connection comes to, under its time limit.
pub data Attempt (Link : Type 0) : Type 0 where
  linked : Link → Attempt Link
  refused : Str → Attempt Link
  timed_out : Attempt Link

-- An event of the Bonjour search, and when it arrives, in milliseconds from the start of the search.
pub data Event : Type 0 where
  resolved : ℕ → List Ipv4Addr → ℕ → Event
  other : ℕ → Event

-- The textual form of addresses, files, the two ways to search, and the connection itself.
pub record Network (World Link : Type 0) : Type 0 where
  pub parse_addr : Str → Option SocketAddr
  pub print_addr : SocketAddr → Str
  pub exists : Str → World → Bool
  pub read_to_string : Str → World → Option Str
  pub create_dir_all : Str → World → World
  pub write : Str → Str → World → World
  pub say : Str → World → World
  -- `none` where Bonjour is switched off or cannot be used.
  pub browse : World → Option (List Event) × World
  -- The local address of the way out, where it is one of version 4.
  pub local_ip : World → Option Ipv4Addr
  -- Whether an address accepts a connection within 600 milliseconds.
  pub accepts : SocketAddr → World → Bool
  pub connect : SocketAddr → Str → World → Attempt Link × World

abbrev pub last_addr_file : Str
last_addr_file = codes "state/phone-addr"

module _ {World Link : Type 0} (N : Network World Link) where
  unfoldable pub read_last_addr : Str → World → Option SocketAddr
  read_last_addr path w = elim (N.read_to_string path w) [
    | none ↦ none
    | some s ↦ N.parse_addr (trim s)
  ]

  -- `read_last_addr(path) == Some(addr)`
  unfoldable pub is_last : Option SocketAddr → SocketAddr → Bool
  is_last none addr = false
  is_last (some last) addr = addr_eq last addr

  -- The directory of the path is `state`.
  unfoldable pub write_last_addr : SocketAddr → World → World
  unfolding read_last_addr is_last
  write_last_addr addr w =
      let written =
        N.write last_addr_file (N.print_addr addr) (N.create_dir_all (codes "state") w) in
      if is_last (read_last_addr last_addr_file w) addr then w else written
