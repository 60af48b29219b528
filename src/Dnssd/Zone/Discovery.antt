-- ===== src/Dnssd/Zone/Discovery.antt =====
-- The chain of questions by which AltStore finds the server, over a zone of src/dnssd.rs.
use alt_keeper.Base.{
  inr, ◌++◌, ap, [], ◌≤◌, ℕ, some, inl, false, ◌≡◌, arith, refl, ◌∷◌, length, Bool-cases,
  length-append, length-take, length-map,
}
use alt_keeper.Dnssd.Zone.{
  Zone, new, Ipv4Addr, answer, after_prefix, assemble, type_ptr, slice_to, ptr, service, type_srv,
  explored, srv, type_txt, txt, type_a, a,
}
use alt_keeper.Base.Text.{
  Str, str_eq, codes, strip_prefix, lower_byte, str_eq_iff, str_eq_refl, to_ascii_lowercase,
  IsLower, lowercase-IsLower, trim_matches,
}
use alt_keeper.Base.Outcome.{ok, bound_ok}
use Prim.Native.Nat.{min}
use mathlib.Core.Path.{subst}
use mathlib.Core.List.{map-append}

-- The cut of the id has eight bytes at most.
new-assemble :
    (domain instance_name id : Str) (port : ℕ) (address : Ipv4Addr) (clients : Ipv4Addr × ℕ)
    (z : Zone)
    → new domain instance_name id port address clients ≡ ok z
    → (cut : Str) × (length cut ≤ 8)
      × (assemble cut domain instance_name id port address clients ≡ z)
unfolding new
new-assemble domain instance_name id port address clients z e =
    let (cut, sliced, made) = bound_ok (slice_to id (min (length id) 8)) _ e in
    (cut, cut_short cut sliced, cc made)
  where
    cut_short : (cut : Str) → slice_to id (min (length id) 8) ≡ ok cut → length cut ≤ 8
    cut_short cut h = ground (arith, length-take (min (length id) 8) id)

-- A question about the domains to explore, which begins with this word, leads to the domain.
abbrev Explores : Zone → Str → Type 0
Explores z kind =
    let name = kind ++ (codes "._dns-sd._udp." ++ z.domain) in
    answer z name type_ptr ≡ ok (some (ptr name z.domain ∷ []))

-- The questions of the chain, each with its answer, in the domain that was given, with small letters
-- and no dots at its ends.
pub record IsFound (z : Zone) (domain id : Str) (port : ℕ) (address : Ipv4Addr) : Type 0 where
  pub in_domain : z.domain ≡ to_ascii_lowercase (trim_matches b'.' domain)
  pub no_capitals : IsLower z.domain × IsLower z.browse × IsLower z.instance_name × IsLower z.host
  pub explore : Explores z (codes "b")
  pub explore_default : Explores z (codes "db")
  pub explore_legacy : Explores z (codes "lb")
  pub browse :
      answer z (service ++ z.domain) type_ptr
      ≡ ok (some (ptr (service ++ z.domain) z.instance_name ∷ []))
  pub locate : answer z z.instance_name type_srv ≡ ok (some (srv z.instance_name port z.host ∷ []))
  pub identify :
      answer z z.instance_name type_txt
      ≡ ok (some (txt z.instance_name (codes "serverID=" ++ id) ∷ []))
  pub resolve : answer z z.host type_a ≡ ok (some (a z.host address ∷ []))

module _ (cut domain rest id : Str) (port : ℕ) (address : Ipv4Addr) (clients : Ipv4Addr × ℕ)
    (eight : length cut ≤ 8) where
  abbrev made : Zone
  made = assemble cut domain (codes "altkeeper-" ++ rest) id port address clients

  -- The host name is shorter than the instance's.
  host-ne-instance : str_eq made.host made.instance_name ≡ false
  host-ne-instance = elim (Bool-cases (str_eq made.host made.instance_name)) [
    | inl same ↦ absurd (
        omega (
          arith,
          ap length ((str_eq_iff made.host made.instance_name).0 same),
          length-append (to_ascii_lowercase cut) (b'.' ∷ made.domain),
          length-append (to_ascii_lowercase rest) (codes "._altserver._tcp." ++ made.domain),
          length-append (codes "._altserver._tcp.") made.domain,
          length-map lower_byte cut,
        ))
    | inr other ↦ other
  ]

  -- No name of the zone has a capital, so the name of a question, put in lower case, can equal it.
  made-IsLower :
      IsLower made.domain × IsLower made.browse × IsLower made.instance_name × IsLower made.host
  unfolding lower_byte
  made-IsLower =
      let d : IsLower made.domain = lowercase-IsLower (trim_matches b'.' domain) in
      let r : IsLower (to_ascii_lowercase rest) = lowercase-IsLower rest in
      let c : IsLower (to_ascii_lowercase cut) = lowercase-IsLower cut in
      (d, simp d, simp (map-append, d, r), simp (map-append, d, c))

  made-IsFound : IsFound made domain id port address
  unfolding answer after_prefix strip_prefix str_eq lower_byte explored
  made-IsFound = record {
    in_domain = refl;
    no_capitals = made-IsLower;
    explore = rw (str_eq_refl made.domain, answer, explored) refl;
    explore_default = rw (str_eq_refl made.domain, answer, explored) refl;
    explore_legacy = rw (str_eq_refl made.domain, answer, explored) refl;
    browse = rw (str_eq_refl (service ++ made.domain), answer) refl;
    locate = rw (str_eq_refl made.instance_name, answer) refl;
    identify = rw (str_eq_refl made.instance_name, answer) refl;
    resolve = rw (host-ne-instance, str_eq_refl made.host, answer) refl;
  }

-- In a zone that `Zone::new` makes for an instance called `altkeeper-…`, the questions of the chain
-- are answered by one record each: the three kinds of domains to explore lead to the domain, the service
-- to the instance, the instance to the port and the host and to the serverID as it was given, and the
-- host to the address. The domain is the one given, with small letters and no dots at its ends, and no
-- name of the zone has a capital letter, so the name of a question, put in lower case, can equal it.
pub new-IsFound :
    (domain rest id : Str) (port : ℕ) (address : Ipv4Addr) (clients : Ipv4Addr × ℕ) (z : Zone)
    → new domain (codes "altkeeper-" ++ rest) id port address clients ≡ ok z
    → IsFound z domain id port address
new-IsFound domain rest id port address clients z e =
    let (cut, eight, made_z) =
      new-assemble domain (codes "altkeeper-" ++ rest) id port address clients z e in
    subst (λ (y : Zone). IsFound y domain id port address) made_z
      (made-IsFound cut domain rest id port address clients eight)
