-- ===== src/Dnssd/Zone.antt =====
-- `Zone` and `Record` of src/dnssd.rs: the published names, and the records that answer a question.
pub mod Discovery
pub mod Sound
pub mod Reverse
pub mod Total
use alt_keeper.Base.{
  ℕ, ◌+◌, ◌-◌, ◌*◌, ◌%◌, ◌^◌, bit_and, Bool, true, false, ◌||◌, Option, none, some, List, [], ◌∷◌,
  ◌++◌, length, get_or, set, take, drop, ltb, leb, ◌==◌, if◌then◌else◌,
}
use alt_keeper.Base.Outcome.{Outcome, ok, refused, panic, stuck, ◌>>=◌}
use alt_keeper.Base.Bytes.{Bytes}
use alt_keeper.Base.Utf8.{is_continuation}
use alt_keeper.Base.Text.{
  Str, codes, str_eq, to_ascii_lowercase, strip_prefix, strip_suffix, split, trim_matches,
  parse_unsigned,
}
use Prim.Native.Nat.{min}

abbrev pub type_a : ℕ
type_a = 1

abbrev pub type_ptr : ℕ
type_ptr = 12

abbrev pub type_txt : ℕ
type_txt = 16

abbrev pub type_srv : ℕ
type_srv = 33

abbrev pub type_any : ℕ
type_any = 255

-- `std::net::Ipv4Addr`: its octets, first to last.
pub record Ipv4Addr : Type 0 where
  pub a : ℕ
  pub b : ℕ
  pub c : ℕ
  pub d : ℕ

abbrev pub octets_of : Ipv4Addr → Bytes
octets_of ip = ip.a ∷ ip.b ∷ ip.c ∷ ip.d ∷ []

-- `u32::from(Ipv4Addr)`
abbrev pub u32_from : Bytes → ℕ
u32_from o = get_or o 0 0 * 2 ^ 24 + get_or o 1 0 * 2 ^ 16 + get_or o 2 0 * 2 ^ 8 + get_or o 3 0

pub record Zone : Type 0 where
  pub domain : Str
  pub browse : Str
  pub instance_name : Str
  pub host : Str
  pub server_id : Str
  pub port : ℕ
  pub address : Ipv4Addr
  pub clients : Ipv4Addr × ℕ

pub data Record : Type 0 where
  a : Str → Ipv4Addr → Record
  ptr : Str → Str → Record
  txt : Str → Str → Record
  srv : Str → ℕ → Str → Record

abbrev pub service : Str
service = codes "_altserver._tcp."

-- `id[..n]`: the cut must stand before no continuation byte, or Rust panics.
unfoldable pub slice_to : Str → ℕ → Outcome Str
slice_to s n = if is_continuation (get_or s n 0) then panic else ok (take n s)

-- The value that `Zone::new` returns, from the cut of the id.
abbrev pub assemble : Str → Str → Str → Str → ℕ → Ipv4Addr → Ipv4Addr × ℕ → Zone
assemble cut domain instance_name id port address clients =
    let domain' = to_ascii_lowercase (trim_matches b'.' domain) in
    let instance' = to_ascii_lowercase instance_name in
    let short = to_ascii_lowercase cut in
    record {
      domain = domain';
      browse = service ++ domain';
      instance_name = instance' ++ (codes "._altserver._tcp." ++ domain');
      host = codes "altkeeper-" ++ (short ++ (b'.' ∷ domain'));
      server_id = id;
      port = port;
      address = address;
      clients = clients;
    }

-- `Zone::new`
unfoldable pub new : Str → Str → Str → ℕ → Ipv4Addr → Ipv4Addr × ℕ → Outcome Zone
unfolding slice_to
new domain instance_name id port address clients = do
  cut ← slice_to id (min (length id) 8)
  ok (assemble cut domain instance_name id port address clients)

-- `octets[3 - i] = n`: where 3 - i overflows, and where it is out of range, Rust panics.
unfoldable pub set_from_end : Bytes → ℕ → ℕ → Outcome Bytes
set_from_end octets i n =
    if ltb 3 i || leb (length octets) (3 - i) then panic else ok (set octets (3 - i) n)

-- The loop of `covers_reverse` over the parts from index `i` on; `refused` where it returns false.
unfoldable pub reverse_octets : List Str → ℕ → Bytes → ℕ → Outcome (Bytes × ℕ)
unfolding set_from_end
reverse_octets [] i octets found = ok (octets, found)
reverse_octets (part ∷ parts) i octets found =
    if leb 4 i then refused else elim (parse_unsigned 255 part) [
      | none ↦ refused
      | some n ↦
          set_from_end octets i n >>= λ octets'. reverse_octets parts (i + 1) octets' (found + 1)
    ]

-- `<[u8]>::rotate_left`
abbrev pub rotate_left : ℕ → Bytes → Bytes
rotate_left k v = drop k v ++ take k v

-- `u32::MAX << (32 - bits)`: where 32 - bits overflows, and for a shift by all bits, Rust panics.
unfoldable pub mask_of : ℕ → Outcome ℕ
mask_of bits =
    if ltb 32 bits || bits == 0 then panic else ok ((2 ^ 32 - 1) * 2 ^ (32 - bits) % 2 ^ 32)

-- The end of `covers_reverse`, from the octets read and their number.
unfoldable pub same_network : Ipv4Addr × ℕ → Bytes × ℕ → Outcome Bool
unfolding mask_of
same_network (network, bits) (read, found) =
    let octets = if ltb found 4 then rotate_left (4 - found) read else read in
    if found == 0
    then ok false
    else if bits == 0
    then ok true
    else if ltb 32 bits
    then ok false
    else mask_of bits >>= λ mask.
        ok (bit_and (u32_from octets) mask == bit_and (u32_from (octets_of network)) mask)

-- What `covers_reverse` returns, from the loop on.
abbrev pub in_clients : Ipv4Addr × ℕ → Outcome (Bytes × ℕ) → Outcome Bool
in_clients clients (ok p) = same_network clients p
in_clients clients refused = ok false
in_clients clients panic = panic
in_clients clients stuck = stuck

unfoldable pub covers_reverse : Zone → Str → Outcome Bool
unfolding reverse_octets same_network
covers_reverse z name = elim (strip_suffix (codes ".in-addr.arpa") name) [
  | none ↦ ok false
  | some rev ↦ in_clients z.clients (reverse_octets (split b'.' rev) 0 (0 ∷ 0 ∷ 0 ∷ 0 ∷ []) 0)
]

-- The three prefixes of a question about the domains to explore, each before `._dns-sd._udp.`.
abbrev pub prefixes : List Str
prefixes = codes "b._dns-sd._udp." ∷ codes "db._dns-sd._udp." ∷ codes "lb._dns-sd._udp." ∷ []

-- `find_map` over the prefixes: what follows the first that fits.
unfoldable pub after_prefix : List Str → Str → Option Str
after_prefix [] name = none
after_prefix (p ∷ ps) name = elim (strip_prefix p name) [
  | none ↦ after_prefix ps name
  | some rest ↦ some rest
]

abbrev pub wants : ℕ → ℕ → Bool
wants qtype t = qtype == t || qtype == type_any

-- `if want(t) { vec![r] } else { vec![] }`
abbrev pub when_wanted : Bool → Record → List Record
when_wanted w r = if w then r ∷ [] else []

-- The three tests on the names themselves.
answer_own : Zone → Str → ℕ → Option (List Record)
answer_own z name qtype =
    if str_eq name z.browse
    then some (when_wanted (wants qtype type_ptr) (ptr name z.instance_name))
    else if str_eq name z.instance_name
    then some (
        when_wanted (wants qtype type_srv) (srv name z.port z.host)
        ++ when_wanted (wants qtype type_txt) (txt name (codes "serverID=" ++ z.server_id)))
    else if str_eq name z.host
    then some (when_wanted (wants qtype type_a) (a name z.address))
    else none

-- `rest == self.domain || self.covers_reverse(rest)`
unfoldable pub explored : Zone → Str → Outcome Bool
explored z rest =
    let reversed = covers_reverse z rest in if str_eq rest z.domain then ok true else reversed

-- `Zone::answer`
unfoldable pub answer : Zone → Str → ℕ → Outcome (Option (List Record))
unfolding answer_own explored
answer z name qtype = elim (after_prefix prefixes name) [
  | none ↦ ok (answer_own z name qtype)
  | some rest ↦ explored z rest >>= λ known. ok (
      if known
      then some (when_wanted (wants qtype type_ptr) (ptr name z.domain))
      else answer_own z name qtype)
]
