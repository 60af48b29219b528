-- ===== src/Phone/Connect.antt =====
-- `connect_auto` of src/phone.rs.
mod Candidates
pub mod Order
pub mod Remember
use alt_keeper.Base.Action.{Run, Action, ok, err}
use alt_keeper.Base.{
  if◌then◌else◌, some, ◌++◌, Bool, List, false, none, true, ◌+◌, [], ◌==◌, Option, suc, ℕ, ◌∷◌,
  zero, ◌||◌,
}
use alt_keeper.Base.Text.{Str, codes, is_empty}
use alt_keeper.Phone.Address.{
  SocketAddr, Network, contains_addr, read_last_addr, Attempt, last_addr_file, linked, port_of,
  write_last_addr, refused, timed_out,
}
use alt_keeper.Phone.Discover.{push_new, scan_lan, discover}

-- The two variables of `connect_auto` that its loops write.
pub record Search : Type 0 where
  pub tried : List SocketAddr
  pub last_err : Str

-- A loop returned with a link, or went on.
pub data Trial (Link : Type 0) : Type 0 where
  found : SocketAddr → Link → Trial Link
  missing : Search → Trial Link

abbrev pub or_else :
    {World Link : Type 0}
    → Trial Link × World
    → (Search → World → Trial Link × World)
    → Trial Link × World
or_else (found addr link, w) next = (found addr link, w)
or_else (missing s, w) next = next s w

-- `found.retain(|a| !tried.contains(a))`
unfoldable pub retain_new : List SocketAddr → List SocketAddr → List SocketAddr
retain_new tried [] = []
retain_new tried (a ∷ as') =
    let rest = retain_new tried as' in if contains_addr a tried then rest else a ∷ rest

-- The addresses to try first: the one that was asked for, then the last that worked.
unfoldable pub known_addrs : Option SocketAddr → Option SocketAddr → List SocketAddr
known_addrs none none = []
known_addrs none (some last) = last ∷ []
known_addrs (some preferred) none = preferred ∷ []
known_addrs (some preferred) (some last) = push_new (preferred ∷ []) last

abbrev pub is_none_tried : List SocketAddr → Bool
is_none_tried [] = true
is_none_tried (a ∷ as') = false

abbrev pub default_port : ℕ
default_port = 49152

abbrev pub not_found : Str
not_found =
    codes "non trovo l'iPhone in rete: " ++ (195 ∷ 168 ∷ codes " acceso e sul Wi-Fi di casa?")

module _ {World Link : Type 0} (N : Network World Link) where
  abbrev pub no_answer : SocketAddr → Str
  no_answer addr = N.print_addr addr ++ codes " non risponde"

  -- The match on the outcome of one attempt.
  unfoldable pub after_try : SocketAddr → Search → Attempt Link → World → Trial Link × World
  after_try addr s (linked link) w = (found addr link, write_last_addr N addr w)
  after_try addr s (refused e) w =
      (missing (record { tried = s.tried ++ addr ∷ []; last_err = e }), w)
  after_try addr s timed_out w =
      (missing (record { tried = s.tried ++ addr ∷ []; last_err = no_answer addr }), w)

  unfoldable pub try_addr : Str → SocketAddr → Search → World → Trial Link × World
  unfolding after_try
  try_addr path addr s w = let (outcome, w') = N.connect addr path w in after_try addr s outcome w'

  -- The loop over the known addresses.
  unfoldable pub try_known : Str → List SocketAddr → Search → World → Trial Link × World
  unfolding try_addr
  try_known path [] s w = (missing s, w)
  try_known path (addr ∷ more) s w = or_else (try_addr path addr s w) λ s' w'.
      try_known path more s' (N.say (no_answer addr ++ codes ", cerco il telefono in rete...") w')

  -- The loop over the addresses of one search.
  unfoldable pub try_found : Str → List SocketAddr → Search → World → Trial Link × World
  unfolding try_addr
  try_found path [] s w = (missing s, w)
  try_found path (addr ∷ more) s w =
      or_else
        (try_addr path addr s
          (N.say (codes "Trovato un telefono a " ++ (N.print_addr addr ++ codes ", provo...")) w))
        (try_found path more)

  -- The search of a round: Bonjour, the local network in the second, and Bonjour again.
  unfoldable pub search_step : ℕ → ℕ → World → List SocketAddr × World
  search_step step port w =
      let w' = N.say (codes "Bonjour non risponde: cerco sulla rete locale...") w in
      if step == 1 then (scan_lan N port w', w') else discover N 4000 w

  unfoldable pub round : Str → ℕ → ℕ → Search → World → Trial Link × World
  unfolding search_step
  round path port step s w =
      let (hits, w') = search_step step port w in try_found path (retain_new s.tried hits) s w'

  -- The loop `while step < 3`, with the rounds that are left.
  unfoldable pub rounds : Str → ℕ → ℕ → ℕ → Search → World → Trial Link × World
  unfolding round
  rounds path port zero step s w = (missing s, w)
  rounds path port (suc left) step s w =
      or_else (round path port step s w) (rounds path port left (step + 1))

  -- From the known addresses on: the port of the last address, or the usual one.
  unfoldable pub search_network : Str → Search → World → Trial Link × World
  unfolding rounds
  search_network path s w =
      let w1 =
        if is_none_tried s.tried then N.say (codes "Cerco il telefono in rete...") w else w in
      let port : ℕ = elim (read_last_addr N last_addr_file w1) [
        | none ↦ default_port
        | some last ↦ port_of last
      ] in
      rounds path port 3 0 s w1

  unfoldable pub search_all : Str → Option SocketAddr → World → Trial Link × World
  unfolding try_known search_network
  search_all path preferred w =
      let known = known_addrs preferred (read_last_addr N last_addr_file w) in
      or_else (try_known path known (record { tried = []; last_err = [] }) w) (search_network path)

  unfoldable pub run_of : Trial Link → Run (SocketAddr × Link)
  run_of (found addr link) = ok (addr, link)
  run_of (missing s) =
      err (if is_none_tried s.tried || is_empty s.last_err then not_found else s.last_err)

  unfoldable pub connect_auto : Option SocketAddr → Str → Action World (SocketAddr × Link)
  unfolding search_all run_of
  connect_auto preferred path w =
      let (trial, w') = search_all path preferred w in
      if N.exists path w then (run_of trial, w') else (
        err (
            codes "manca il pairing remoto "
            ++ (path ++ codes ": crealo con `altkeeper pair-usb`")),
        w,
      )
