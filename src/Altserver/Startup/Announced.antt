-- ===== src/Altserver/Startup/Announced.antt =====
-- The announcement of src/altserver.rs: `start` makes it for the port that it got and the id of this
-- server, and `stop` takes the same one back.
use alt_keeper.Base.Action.{ok, then_ok, Run, ◌>>=◌, Action, context}
use alt_keeper.Altserver.Startup.{
  Bonjour, ServiceInfo, first_eight, register_bonjour, stop, mdns, withdraw, service_of, announce,
  register_by, or_stop, listen, log, start_as, start, start_on, start_at,
}
use alt_keeper.Base.{
  ◌≡◌, ℕ, some, Option, Bool, none, refl, true, ◌∙◌, ap, sym, false, ◌++◌, take, inl, ◌∷◌, [], inr,
  Bool-cases, ltb, length, get_or,
}
use alt_keeper.Base.Text.{Str, codes}
use alt_keeper.Phone.Address.{SocketAddr}
use alt_keeper.Altserver.Identity.{server_id, hostname}
use alt_keeper.Base.Outcome.{Outcome}
use mathlib.Core.Path.{subst}
use alt_keeper.Altserver.Startup.Statics.{
  HasStatics, At, once, id-Keeps, tag_err_ok, mdns-At, stop-At,
}
use alt_keeper.Dnssd.Zone.{slice_to}
use alt_keeper.Base.Utf8.{is_continuation}

abbrev pub taken_back : Str
taken_back = codes "[altserver] annuncio Bonjour tolto"

-- What `new_info` made of the service for this port and this id, with its addresses left to the
-- daemon, was registered: its only property is the id, and its host name has the first eight bytes of it.
pub record IsService {World Listener : Type 0} (B : Bonjour World Listener) (port : ℕ) (id : Str)
    (service : ServiceInfo) : Type 0 where
  pub host : Str
  pub cut : Str
  pub info : ServiceInfo
  pub before : World
  pub after : World
  pub cut_of_id : cut ≡ take 8 id
  pub made :
      (B.new_info
        (record {
          service_type = codes "_altserver._tcp.local.";
          instance_name = codes "altkeeper-" ++ host;
          host_name = codes "altkeeper-" ++ (cut ++ codes ".local.");
          addresses = [];
          port = port;
          properties = (codes "serverID", id) ∷ [];
          addr_auto = false;
        })
        before).0
      ≡ ok info
  pub with_addresses : service ≡ record info { addr_auto = true }
  pub registered : (B.register service after).0 ≡ ok tt

-- The daemon was told to take back what bears this name; where it accepts that, its answer is awaited,
-- and a line says that it was done.
abbrev pub TakesBack :
    {World Listener : Type 0} → Bonjour World Listener → Str → World → World → Type 0
TakesBack B name w w' =
    ((B.unregister name w).0 ≡ true
      → w' ≡ B.println taken_back (B.wait_unregistered (B.unregister name w).1))
    × ((B.unregister name w).0 ≡ false → w' ≡ B.println taken_back (B.unregister name w).1)

withdraw-TakesBack :
    {World Listener : Type 0} (B : Bonjour World Listener) (name : Str) (w : World)
    → TakesBack B name w (withdraw B name w)
unfolding withdraw log
withdraw-TakesBack B name w = (λ asked. rw asked refl, λ refused. rw refused refl)

first_eight-take : (id cut : Str) → first_eight id ≡ Outcome.ok cut → cut ≡ take 8 id
unfolding first_eight slice_to
first_eight-take id cut e = elim (Bool-cases (ltb (length id) 8)) [
  | inl short ↦ absurd (cc (rw short at e))
  | inr long ↦ elim (Bool-cases (is_continuation (get_or id 8 0))) [
    | inl inside ↦ absurd (cc (rw (long, inside) at e))
    | inr fine ↦ cc (rw (long, fine) at e)
  ]
]

module _ {World Listener : Type 0} (B : Bonjour World Listener) (L : HasStatics B) where
  announce-At :
      (port : ℕ) (id host cut : Str) (info : ServiceInfo) (before w : World)
      → first_eight id ≡ Outcome.ok cut
      → (B.new_info (service_of host cut port id) before).0 ≡ ok info
      → At B none (some true) w
      → (announce B info w).0 ≡ ok tt
      → (service : ServiceInfo) × IsService B port id service
        × At B (some (B.get_fullname service)) (some true) (announce B info w).1
  unfolding announce service_of
  announce-At port id host cut info before w c m (name, daemon) e =
      let service : ServiceInfo = record info { addr_auto = true } in
      let n = B.get_fullname service in
      let v = B.set_fullname n w in
      let done : (B.register service v).0 ≡ ok tt =
        tag_err_ok (codes "Bonjour: ") (B.register service v).0 e in
      (
        service,
        record {
          host = host;
          cut = cut;
          info = info;
          before = before;
          after = v;
          cut_of_id = first_eight-take id cut c;
          made = m;
          with_addresses = refl;
          registered = done;
        },
        L.register_at (some n) (some true) service v
            (L.name_set n w ∙ ap (λ o. once o n) name, L.daemon_kept n w ∙ daemon),
      )

  -- A service for this port and this id is announced, and the statics stand for it.
  abbrev Announced : ℕ → Str → World → Type 0
  Announced port id w =
      (service : ServiceInfo) × IsService B port id service
      × At B (some (B.get_fullname service)) (some true) w

  register_by-At :
      (port : ℕ) (id : Str) (w : World)
      → At B none (some true) w
      → (register_by B port id true w).0 ≡ ok tt
      → Announced port id (register_by B port id true w).1
  unfolding register_by
  register_by-At port id w h e = go (first_eight id) refl e
    where
      made : Str → Action World ServiceInfo
      made cut =
          context (codes "Bonjour: ") (B.new_info (service_of (hostname B.host w) cut port id))

      with_cut : Outcome Str → Action World (Unit {0})
      with_cut o = or_stop o >>= λ cut. made cut >>= announce B

      go :
          (o : Outcome Str)
          → first_eight id ≡ o
          → (with_cut o w).0 ≡ ok tt
          → Announced port id (with_cut o w).1
      go (Outcome.ok cut) c e' =
          let (info, m, e1, same) = then_ok (made cut) (announce B) w e' in
          let service = service_of (hostname B.host w) cut port id in
          let new : (B.new_info service w).0 ≡ ok info =
            tag_err_ok (codes "Bonjour: ") (B.new_info service w).0 m in
          subst (λ (r : Run (Unit {0}) × World). Announced port id r.1) (sym same)
            (announce-At port id (hostname B.host w) cut info w (made cut w).1 c new
              (L.new_info_at none (some true) service w h) e1)
      go Outcome.refused c e' = absurd (cc e')
      go Outcome.panic c e' = absurd (cc e')
      go Outcome.stuck c e' = absurd (cc e')

  no_daemon : (port : ℕ) (id : Str) (w : World) → (register_by B port id false w).0 ≡ ok tt → ⊥
  unfolding register_by
  no_daemon port id w e = cc e

  register_announces :
      (port : ℕ) (id : Str) (w : World)
      → B.fullname_cell w ≡ none
      → (register_bonjour B port id w).0 ≡ ok tt
      → Announced port id (register_bonjour B port id w).1
  unfolding register_bonjour
  register_announces port id w h e = go (mdns B w).0 refl e
    where
      go :
          (there : Bool)
          → (mdns B w).0 ≡ there
          → (register_by B port id there (mdns B w).1).0 ≡ ok tt
          → Announced port id (register_by B port id there (mdns B w).1).1
      go true q e' = register_by-At port id (mdns B w).1 (mdns-At B L none w h q) e'
      go false q e' = absurd (no_daemon port id (mdns B w).1 e')

  -- The end of `start` leaves the statics as they are, and returns the port that it was given.
  listen-At :
      (listener : Listener) (phone : Option SocketAddr) (port p : ℕ) (n : Option Str)
      (d : Option Bool) (o : Outcome Str) (w : World)
      → At B n d w
      → ((or_stop o >>= listen B listener phone port) w).0 ≡ ok p
      → (port ≡ p) × At B n d ((or_stop o >>= listen B listener phone port) w).1
  unfolding listen log
  listen-At listener phone port p n d (Outcome.ok cut) w h e =
      (cc e, L.spawn_at n d listener phone _ (L.println_at n d _ w h))
  listen-At listener phone port p n d Outcome.refused w h e = absurd (cc e)
  listen-At listener phone port p n d Outcome.panic w h e = absurd (cc e)
  listen-At listener phone port p n d Outcome.stuck w h e = absurd (cc e)

  start_as_announces :
      (listener : Listener) (phone : Option SocketAddr) (port p : ℕ) (id : Str) (w : World)
      → B.fullname_cell w ≡ none
      → (start_as B listener phone port id w).0 ≡ ok p
      → (port ≡ p) × Announced port id (start_as B listener phone port id w).1
  unfolding start_as
  start_as_announces listener phone port p id w h e =
      let (_, registered, e1, same) =
        then_ok (register_bonjour B port id)
          (λ _. or_stop (first_eight id) >>= listen B listener phone port) w e in
      let (service, is_service, at) = register_announces port id w h registered in
      let (p_eq, at') = listen-At listener phone port p _ _ (first_eight id) _ at e1 in
      (
        p_eq,
        subst (λ (r : Run ℕ × World). Announced port id r.1) (sym same) (service, is_service, at'),
      )

  -- A service for this port and for the id of this server is announced.
  abbrev OurAnnounced : ℕ → World → Type 0
  OurAnnounced p w =
      (id : Str) × (before : World) × ((server_id B.host before).0 ≡ ok id) × Announced p id w

  start_at_announces :
      (listener : Listener) (phone : Option SocketAddr) (port p : ℕ) (d : Option Bool) (w : World)
      → At B none d w
      → (start_at B listener phone port w).0 ≡ ok p
      → OurAnnounced p (start_at B listener phone port w).1
  unfolding start_at
  start_at_announces listener phone port p d w h e =
      let (id, named, e1, same) = then_ok (server_id B.host) (start_as B listener phone port) w e in
      let (name, _) =
        id-Keeps B.host (At B none d) (L.random_at none d) (L.create_at none d) (L.write_at none d)
          w h in
      let (p_eq, announced) =
        start_as_announces listener phone port p id (server_id B.host w).1 name e1 in
      let ours : OurAnnounced port (start_at B listener phone port w).1 =
        subst (λ (r : Run ℕ × World). OurAnnounced port r.1) (sym same) (id, w, named, announced) in
      subst (λ q. OurAnnounced q (start_at B listener phone port w).1) p_eq ours

  start_announces :
      (port p : ℕ) (phone : Option SocketAddr) (d : Option Bool) (w : World)
      → At B none d w
      → (start B port phone w).0 ≡ ok p
      → OurAnnounced p (start B port phone w).1
  unfolding start start_on
  start_announces port p phone d w h e =
      let (listener, _, e1, same) =
        then_ok
          (context
            (codes "AltServer: non riesco ad ascoltare sulla porta "
              ++ (B.print_u16 port ++ codes ": "))
            (B.bind port))
          (start_on B phone) w e in
      let v = (B.bind port w).1 in
      let (got, _, e2, same2) = then_ok (B.local_port listener) (start_at B listener phone) v e1 in
      let at = L.local_port_at none d listener v (L.bind_at none d port w h) in
      subst (λ (r : Run ℕ × World). OurAnnounced p r.1) (sym (same ∙ same2))
        (start_at_announces listener phone got p d (B.local_port listener v).1 at e2)

  -- Once `start` has returned a port, in a process that had announced nothing, a service was registered
  -- with Bonjour: the one that the daemon makes for that port, with the serverID of this server as its
  -- only property and a host name of the first eight bytes of it. A `stop` that follows tells the daemon
  -- to take back that same service, and waits for it where the daemon accepts that.
  pub start-stop :
      (port p : ℕ) (phone : Option SocketAddr) (w : World)
      → B.fullname_cell w ≡ none
      → (start B port phone w).0 ≡ ok p
      → (id : Str) × (before : World) × ((server_id B.host before).0 ≡ ok id)
        × (service : ServiceInfo) × IsService B p id service
        × TakesBack B
            (B.get_fullname service)
            (start B port phone w).1
            (stop B (start B port phone w).1)
  start-stop port p phone w h e =
      let (id, before, named, (service, is_service, at)) =
        start_announces port p phone (B.daemon_cell w) w (h, refl) e in
      (
        id,
        before,
        named,
        service,
        is_service,
        subst (TakesBack B (B.get_fullname service) (start B port phone w).1)
            (sym (stop-At B L (B.get_fullname service) _ at))
            (withdraw-TakesBack B (B.get_fullname service) (start B port phone w).1),
      )
