-- ===== src/Phone/Connect/Remember.antt =====
-- `connect_auto` of src/phone.rs leaves the address that answered in its file.
use alt_keeper.Phone.Address.{timed_out, linked, refused}
use alt_keeper.Base.{
  inl, inr, ap, none, ◌≡◌, refl, some, Option, if◌then◌else◌, ◌∙◌, Bool-cases, [], List, ℕ, zero,
  ◌+◌, ◌∷◌, suc,
}
use alt_keeper.Phone.Address.{
  Network, SocketAddr, write_last_addr, read_last_addr, is_last, last_addr_file, addr_eq,
  addr_eq_iff, Attempt, linked, refused,
}
use alt_keeper.Base.Text.{Str, codes}
use alt_keeper.Base.Trim.{trim}
use alt_keeper.Phone.Connect.{
  Trial, found, missing, search_all, try_found, connect_auto, Search, try_known, rounds, try_addr,
  known_addrs, search_network, or_else, round, after_try, run_of,
}
use alt_keeper.Base.Action.{ok, Run}
use mathlib.Core.Path.{subst}

module _ {World Link : Type 0} (N : Network World Link) (path : Str)
    (reads_back : (p s : Str) (w : World) → N.read_to_string p (N.write p s w) ≡ some s) where
  write_last_addr-read :
      (addr : SocketAddr) (w : World)
      → N.parse_addr (trim (N.print_addr addr)) ≡ some addr
      → read_last_addr N last_addr_file (write_last_addr N addr w) ≡ some addr
  unfolding write_last_addr read_last_addr is_last
  write_last_addr-read addr w read = go (read_last_addr N last_addr_file w) refl
    where
      go :
          (o : Option SocketAddr)
          → read_last_addr N last_addr_file w ≡ o
          → read_last_addr N last_addr_file (
              if is_last N o addr
              then w
              else N.write last_addr_file (N.print_addr addr) (N.create_dir_all (codes "state") w))
            ≡ some addr
      go none e = rw (reads_back, read_last_addr) read
      go (some last) e = elim (Bool-cases (addr_eq last addr)) [
        | inl same ↦ rw same (e ∙ ap some ((addr_eq_iff last addr).0 same))
        | inr new ↦ rw new (rw (reads_back, read_last_addr) read)
      ]

  -- A loop that returns a link leaves its address in the file, if that can be read from its text.
  IsRemembered : Trial Link × World → Type 0
  IsRemembered (found addr link, w) =
      N.parse_addr (trim (N.print_addr addr)) ≡ some addr
      → read_last_addr N last_addr_file w ≡ some addr
  IsRemembered (missing s, w) = Unit

  or_else-IsRemembered :
      (t : Trial Link) (w : World) (next : Search → World → Trial Link × World)
      → IsRemembered (t, w)
      → ((s : Search) (w' : World) → IsRemembered (next s w'))
      → IsRemembered (or_else (t, w) next)
  unfolding IsRemembered
  or_else-IsRemembered (found addr link) w next h k = h
  or_else-IsRemembered (missing s) w next h k = k s w

  try_addr-IsRemembered :
      (addr : SocketAddr) (s : Search) (w : World) → IsRemembered (try_addr N path addr s w)
  unfolding try_addr IsRemembered
  try_addr-IsRemembered addr s w = go (N.connect addr path w).0 (N.connect addr path w).1
    where
      go : (outcome : Attempt Link) (w' : World) → IsRemembered (after_try N addr s outcome w')
      go (linked link) w' = write_last_addr-read addr w'
      go (refused e) w' = tt
      go timed_out w' = tt

  try_known-IsRemembered :
      (known : List SocketAddr) (s : Search) (w : World) → IsRemembered (try_known N path known s w)
  unfolding try_known IsRemembered
  try_known-IsRemembered [] s w = tt
  try_known-IsRemembered (addr ∷ more) s w =
      or_else-IsRemembered (try_addr N path addr s w).0 (try_addr N path addr s w).1 _
        (try_addr-IsRemembered addr s w) λ s' w'. try_known-IsRemembered more s' _

  try_found-IsRemembered :
      (hits : List SocketAddr) (s : Search) (w : World) → IsRemembered (try_found N path hits s w)
  unfolding try_found IsRemembered
  try_found-IsRemembered [] s w = tt
  try_found-IsRemembered (addr ∷ more) s w =
      or_else-IsRemembered (try_addr N path addr s (N.say _ w)).0
        (try_addr N path addr s (N.say _ w)).1 (try_found N path more)
        (try_addr-IsRemembered addr s (N.say _ w)) (try_found-IsRemembered more)

  rounds-IsRemembered :
      (port left step : ℕ) (s : Search) (w : World)
      → IsRemembered (rounds N path port left step s w)
  unfolding rounds round IsRemembered
  rounds-IsRemembered port zero step s w = tt
  rounds-IsRemembered port (suc left) step s w =
      or_else-IsRemembered (round N path port step s w).0 (round N path port step s w).1
        (rounds N path port left (step + 1)) (try_found-IsRemembered _ s _)
        (rounds-IsRemembered port left (step + 1))

  search_all-IsRemembered :
      (preferred : Option SocketAddr) (w : World) → IsRemembered (search_all N path preferred w)
  unfolding search_all search_network
  search_all-IsRemembered preferred w =
      let known = known_addrs preferred (read_last_addr N last_addr_file w) in
      let start : Search = record { tried = []; last_err = [] } in
      or_else-IsRemembered (try_known N path known start w).0 (try_known N path known start w).1
        (search_network N path) (try_known-IsRemembered known start w)
        λ s w'. rounds-IsRemembered _ 3 0 s _

  -- Where `connect_auto` returns a link, its address is in the file of the last address afterwards, so
  -- that a search with no address of its own starts with it: given that the address is read from its
  -- text and a file as it was written.
  pub connect_auto-read_last_addr :
      (preferred : Option SocketAddr) (w w' : World) (addr : SocketAddr) (link : Link)
      → N.parse_addr (trim (N.print_addr addr)) ≡ some addr
      → connect_auto N preferred path w ≡ (ok (addr, link), w')
      → (read_last_addr N last_addr_file w' ≡ some addr)
        × (known_addrs none (read_last_addr N last_addr_file w') ≡ addr ∷ [])
  unfolding connect_auto known_addrs IsRemembered
  connect_auto-read_last_addr preferred w w' addr link read h =
      elim (Bool-cases (N.exists path w)) [
        | inr absent ↦ absurd (cc (absent, ap (λ (p : Run (SocketAddr × Link) × World). p.0) h))
        | inl there ↦
            let same =
              go (search_all N path preferred w).0 (search_all N path preferred w).1
                (search_all-IsRemembered preferred w) (rw there at h) in
            (same, rw same)
      ]
    where
      go :
          (t : Trial Link) (w1 : World)
          → IsRemembered (t, w1)
          → ◌≡◌ {A = Run (SocketAddr × Link) × World} (run_of N t, w1) (ok (addr, link), w')
          → read_last_addr N last_addr_file w' ≡ some addr
      go (found a l) w1 k e =
          let same : a ≡ addr = cc (ap (λ (p : Run (SocketAddr × Link) × World). p.0) e) in
          let world : w1 ≡ w' = ap (λ (p : Run (SocketAddr × Link) × World). p.1) e in
          subst (λ u. read_last_addr N last_addr_file u ≡ some addr) world
            (k (rw same read) ∙ ap some same)
      go (missing s) w1 k e = absurd (cc (ap (λ (p : Run (SocketAddr × Link) × World). p.0) e))
