-- ===== src/Phone/Connect/Candidates.antt =====
-- The lists of addresses that `connect_auto` of src/phone.rs goes through hold none twice.
use alt_keeper.Base.{inl, inr, ◌≢◌, ◌∷◌, none, some, [], Option, List, All, if_both, Bool-cases}
use alt_keeper.Phone.Connect.{known_addrs, retain_new}
use alt_keeper.Phone.Address.{SocketAddr, contains_addr, not_contains}
use alt_keeper.Base.Distinct.{IsDistinct}
use alt_keeper.Phone.Discover.Once.{push_new-IsDistinct}

pub retain_new-All :
    (tried hits : List SocketAddr) → All (λ y. All (λ x. x ≢ y) tried) (retain_new tried hits)
unfolding retain_new
retain_new-All tried [] = tt
retain_new-All tried (a ∷ hits) = elim (Bool-cases (contains_addr a tried)) [
  | inl old ↦ rw old (retain_new-All tried hits)
  | inr new ↦ rw new (not_contains a tried new, retain_new-All tried hits)
]

All-retain_new :
    (P : SocketAddr → Type 0) (tried hits : List SocketAddr)
    → All P hits
    → All P (retain_new tried hits)
unfolding retain_new
All-retain_new P tried [] h = tt
All-retain_new P tried (a ∷ hits) (p, h) =
    if_both (All P) (contains_addr a tried) _ _ (All-retain_new P tried hits h)
      (p, All-retain_new P tried hits h)

pub retain_new-IsDistinct :
    (tried hits : List SocketAddr) → IsDistinct hits → IsDistinct (retain_new tried hits)
unfolding retain_new
retain_new-IsDistinct tried [] h = tt
retain_new-IsDistinct tried (a ∷ hits) (apart, h) =
    if_both IsDistinct (contains_addr a tried) _ _ (retain_new-IsDistinct tried hits h)
      (All-retain_new (λ y. a ≢ y) tried hits apart, retain_new-IsDistinct tried hits h)

pub known_addrs-IsDistinct :
    (preferred last : Option SocketAddr) → IsDistinct (known_addrs preferred last)
unfolding known_addrs
known_addrs-IsDistinct none none = tt
known_addrs-IsDistinct none (some last) = (tt, tt)
known_addrs-IsDistinct (some preferred) none = (tt, tt)
known_addrs-IsDistinct (some preferred) (some last) =
    push_new-IsDistinct (preferred ∷ []) last (tt, tt)
