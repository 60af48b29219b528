-- ===== src/Phone/Connect/Order.antt =====
-- `connect_auto` of src/phone.rs tries no address twice, and remembers the one that answers.
use alt_keeper.Base.{
  Option, List, ◌∷◌, append_assoc, sym, [], ◌++◌, if_both, ◌==◌, ℕ, suc, zero, ◌+◌,
}
use alt_keeper.Phone.Address.{
  Network, SocketAddr, write_last_addr, is_last, Attempt, read_last_addr, linked, last_addr_file,
  refused, timed_out,
}
use alt_keeper.Phone.Connect.{
  known_addrs, retain_new, Trial, try_addr, after_try, try_known, Search, found, or_else, missing,
  search_step, rounds, run_of, search_all, connect_auto, search_network, round, try_found,
  is_none_tried,
}
use alt_keeper.Base.Text.{Str, codes}
use alt_keeper.Base.Distinct.{IsDistinct, IsDistinct-prefix, IsDistinct-append}
use alt_keeper.Phone.Discover.Once.{scan_lan-IsDistinct, discover-IsDistinct}
use mathlib.Core.Path.{subst}
use alt_keeper.Base.Action.{Run, ok, err, panic, stuck, Keeps}
use alt_keeper.Phone.Discover.{discover, scan_lan}
use alt_keeper.Phone.Connect.Candidates.{
  retain_new-IsDistinct, known_addrs-IsDistinct, retain_new-All,
}

-- What `connect_auto` comes to: the addresses at which a connection was tried are all different, and
-- where there is a link, the last of them is the one that is returned.
unfoldable pub IsOnce :
    {World Link : Type 0}
    → (List SocketAddr → World → Type 0)
    → Run (SocketAddr × Link) × World
    → Type 0
IsOnce I (ok (addr, link), w) =
    (log : List SocketAddr) × IsDistinct (log ++ addr ∷ []) × I (log ++ addr ∷ []) w
IsOnce I (err e, w) = (log : List SocketAddr) × IsDistinct log × I log w
IsOnce I (panic, w) = ⊥
IsOnce I (stuck, w) = ⊥

-- The attempts and all else that the search does, as seen by `I`: `I log w` where `log` lists the
-- addresses at which a connection was tried, in order, to reach the world `w`.
module _ {World Link : Type 0} (N : Network World Link) (path : Str)
    (I : List SocketAddr → World → Type 0)
    (trying : (log : List SocketAddr) (addr : SocketAddr) (w : World)
      → I log w
      → I (log ++ addr ∷ []) (N.connect addr path w).1)
    (saying : (log : List SocketAddr) (s : Str) (w : World) → I log w → I log (N.say s w))
    (browsing : (log : List SocketAddr) (w : World) → I log w → I log (N.browse w).1)
    (making : (log : List SocketAddr) (s : Str) (w : World)
      → I log w
      → I log (N.create_dir_all s w))
    (writing : (log : List SocketAddr) (s t : Str) (w : World)
      → I log w
      → I log (N.write s t w)) where
  -- The addresses tried and those still to try are all different, and `I` has the former.
  IsLogged : List SocketAddr → Trial Link × World → Type 0
  IsLogged more (found addr link, w) =
      (log : List SocketAddr) × IsDistinct (log ++ addr ∷ []) × I (log ++ addr ∷ []) w
  IsLogged more (missing s, w) = IsDistinct (s.tried ++ more) × I s.tried w

  write_last_addr_keeps :
      (log : List SocketAddr) (addr : SocketAddr) (w : World)
      → I log w
      → I log (write_last_addr N addr w)
  unfolding write_last_addr
  write_last_addr_keeps log addr w h =
      if_both (I log) (is_last N (read_last_addr N last_addr_file w) addr) _ _ h (
        writing log last_addr_file (N.print_addr addr) (N.create_dir_all (codes "state") w)
          (making log (codes "state") w h))

  after_try-IsLogged :
      (addr : SocketAddr) (s : Search) (more : List SocketAddr) (outcome : Attempt Link) (w : World)
      → IsDistinct ((s.tried ++ addr ∷ []) ++ more)
      → I (s.tried ++ addr ∷ []) w
      → IsLogged more (after_try N addr s outcome w)
  unfolding after_try IsLogged
  after_try-IsLogged addr s more (linked link) w h i = (
    s.tried,
    IsDistinct-prefix (s.tried ++ addr ∷ []) more h,
    write_last_addr_keeps (s.tried ++ addr ∷ []) addr w i,
  )
  after_try-IsLogged addr s more (refused e) w h i = (h, i)
  after_try-IsLogged addr s more timed_out w h i = (h, i)

  try_addr-IsLogged :
      (addr : SocketAddr) (s : Search) (more : List SocketAddr) (w : World)
      → IsDistinct (s.tried ++ addr ∷ more)
      → I s.tried w
      → IsLogged more (try_addr N path addr s w)
  unfolding try_addr
  try_addr-IsLogged addr s more w h i =
      after_try-IsLogged addr s more (N.connect addr path w).0 (N.connect addr path w).1
        (subst IsDistinct (sym (append_assoc s.tried (addr ∷ []) more)) h) (trying s.tried addr w i)

  or_else-IsLogged :
      (more more' : List SocketAddr) (t : Trial Link) (w : World)
      (next : Search → World → Trial Link × World)
      → IsLogged more (t, w)
      → ((s : Search) (w' : World)
          → IsDistinct (s.tried ++ more)
          → I s.tried w'
          → IsLogged more' (next s w'))
      → IsLogged more' (or_else (t, w) next)
  unfolding IsLogged
  or_else-IsLogged more more' (found addr link) w next h k = h
  or_else-IsLogged more more' (missing s) w next (h, i) k = k s w h i

  try_known-IsLogged :
      (known : List SocketAddr) (s : Search) (w : World)
      → IsDistinct (s.tried ++ known)
      → I s.tried w
      → IsLogged [] (try_known N path known s w)
  unfolding try_known IsLogged
  try_known-IsLogged [] s w h i = (h, i)
  try_known-IsLogged (addr ∷ more) s w h i =
      or_else-IsLogged more [] (try_addr N path addr s w).0 (try_addr N path addr s w).1 _
        (try_addr-IsLogged addr s more w h i)
        λ s' w' h' i'. try_known-IsLogged more s' _ h' (saying s'.tried _ w' i')

  try_found-IsLogged :
      (hits : List SocketAddr) (s : Search) (w : World)
      → IsDistinct (s.tried ++ hits)
      → I s.tried w
      → IsLogged [] (try_found N path hits s w)
  unfolding try_found IsLogged
  try_found-IsLogged [] s w h i = (h, i)
  try_found-IsLogged (addr ∷ more) s w h i =
      or_else-IsLogged more [] (try_addr N path addr s (N.say _ w)).0
        (try_addr N path addr s (N.say _ w)).1 (try_found N path more)
        (try_addr-IsLogged addr s more (N.say _ w) h (saying s.tried _ w i))
        λ s' w' h' i'. try_found-IsLogged more s' w' h' i'

  -- A search keeps `I` and finds each address once.
  IsHits : List SocketAddr → List SocketAddr × World → Type 0
  IsHits log (hits, w) = IsDistinct hits × I log w

  search_step-IsHits :
      (log : List SocketAddr) (step port : ℕ) (w : World)
      → I log w
      → IsHits log (search_step N step port w)
  unfolding search_step IsHits discover
  search_step-IsHits log step port w h =
      let w' = N.say (codes "Bonjour non risponde: cerco sulla rete locale...") w in
      if_both (IsHits log) (step == 1) (scan_lan N port w', w') (discover N 4000 w)
        (scan_lan-IsDistinct N port w', saying log _ w h)
        (discover-IsDistinct N 4000 w, browsing log w h)

  round-IsLogged :
      (port step : ℕ) (s : Search) (w : World)
      → IsDistinct (s.tried ++ [])
      → I s.tried w
      → IsLogged [] (round N path port step s w)
  unfolding round IsHits
  round-IsLogged port step s w h i =
      let (distinct, kept) = search_step-IsHits s.tried step port w i in
      let hits = (search_step N step port w).0 in
      try_found-IsLogged (retain_new s.tried hits) s (search_step N step port w).1
        (IsDistinct-append s.tried (retain_new s.tried hits) (IsDistinct-prefix s.tried [] h)
          (retain_new-IsDistinct s.tried hits distinct) (retain_new-All s.tried hits))
        kept

  rounds-IsLogged :
      (port left step : ℕ) (s : Search) (w : World)
      → IsDistinct (s.tried ++ [])
      → I s.tried w
      → IsLogged [] (rounds N path port left step s w)
  unfolding rounds IsLogged
  rounds-IsLogged port zero step s w h i = (h, i)
  rounds-IsLogged port (suc left) step s w h i =
      or_else-IsLogged [] [] (round N path port step s w).0 (round N path port step s w).1
        (rounds N path port left (step + 1)) (round-IsLogged port step s w h i)
        (rounds-IsLogged port left (step + 1))

  search_network-IsLogged :
      (s : Search) (w : World)
      → IsDistinct (s.tried ++ [])
      → I s.tried w
      → IsLogged [] (search_network N path s w)
  unfolding search_network
  search_network-IsLogged s w h i =
      rounds-IsLogged _ 3 0 s _ h
        (if_both (I s.tried) (is_none_tried s.tried) _ w (saying s.tried _ w i) i)

  search_all-IsLogged :
      (preferred : Option SocketAddr) (w : World)
      → I [] w
      → IsLogged [] (search_all N path preferred w)
  unfolding search_all
  search_all-IsLogged preferred w i =
      let known = known_addrs preferred (read_last_addr N last_addr_file w) in
      let start : Search = record { tried = []; last_err = [] } in
      or_else-IsLogged [] [] (try_known N path known start w).0 (try_known N path known start w).1
        (search_network N path)
        (try_known-IsLogged known start w
          (known_addrs-IsDistinct preferred (read_last_addr N last_addr_file w)) i)
        search_network-IsLogged

  run_of-IsOnce : (t : Trial Link) (w : World) → IsLogged [] (t, w) → IsOnce I (run_of N t, w)
  unfolding run_of IsLogged IsOnce
  run_of-IsOnce (found addr link) w h = h
  run_of-IsOnce (missing s) w (h, i) = (s.tried, IsDistinct-prefix s.tried [] h, i)

  -- `connect_auto` returns a link or an error, and tries no address twice, whatever the phone asked
  -- for, the file of the last address and the searches say. The address that it returns is the last
  -- that it tried.
  pub connect_auto-IsOnce :
      (preferred : Option SocketAddr) (w : World)
      → I [] w
      → IsOnce I (connect_auto N preferred path w)
  unfolding connect_auto IsOnce
  connect_auto-IsOnce preferred w i =
      if_both (IsOnce I) (N.exists path w) _ _
        (run_of-IsOnce (search_all N path preferred w).0 (search_all N path preferred w).1
          (search_all-IsLogged preferred w i))
        ([], tt, i)

IsOnce→kept :
    {World Link : Type 0} (I : World → Type 0) (r : Run (SocketAddr × Link)) (w : World)
    → IsOnce (λ log u. I u) (r, w)
    → I w
unfolding IsOnce
IsOnce→kept I (ok (addr, link)) w (log, distinct, h) = h
IsOnce→kept I (err e) w (log, distinct, h) = h
IsOnce→kept I panic w h = absurd h
IsOnce→kept I stuck w h = absurd h

-- `connect_auto` keeps what its calls keep.
pub connect_auto-Keeps :
    {World Link : Type 0} (N : Network World Link) (I : World → Type 0)
    → ((addr : SocketAddr) (path : Str) (w : World) → I w → I (N.connect addr path w).1)
    → ((s : Str) (w : World) → I w → I (N.say s w))
    → ((w : World) → I w → I (N.browse w).1)
    → ((s : Str) (w : World) → I w → I (N.create_dir_all s w))
    → ((s t : Str) (w : World) → I w → I (N.write s t w))
    → (preferred : Option SocketAddr) (path : Str) → Keeps I (connect_auto N preferred path)
connect_auto-Keeps N I trying saying browsing making writing preferred path w h =
    IsOnce→kept I (connect_auto N preferred path w).0 (connect_auto N preferred path w).1 (
      connect_auto-IsOnce N path (λ log u. I u) (λ log addr u. trying addr path u)
        (λ log s u. saying s u) (λ log u. browsing u) (λ log s u. making s u)
        (λ log s t u. writing s t u) preferred w h)
