-- ===== src/Commands/Main/Guarded.antt =====
-- What the command `serve` of src/main.rs starts, and where the page of src/web.rs is served.
use alt_keeper.Base.Action.{
  Run, ok, err, panic, tag_err, of_run, and_then, Keeps, Keeps-bind, Keeps-of_run, Yields,
  keeps_yields, Keeps-pure, Never, Never-bind, Never-err,
}
use alt_keeper.Web.Server.{
  WebServer, serve, accept_options, is_loopback, routes, default_app, Router, show_page,
}
use alt_keeper.Commands.Main.{
  Program, cmd_serve, serve_on, bind_of, pin_of, enter_dir, start_beside, start_altserver, phone_of,
  check_anisette, publisher, flag,
}
use alt_keeper.Altserver.Startup.{start}
use alt_keeper.Commands.Arguments.{start_dnssd, opt, altserver_port}
use alt_keeper.Base.{
  ◌≡◌, arith, inl, ◌≤◌, inr, refl, ◌++◌, true, none, Option, some, Bool-cases, ltb, ◌≢◌, List, ℕ,
  if_both, option_both,
}
use alt_keeper.Phone.Address.{SocketAddr}
use alt_keeper.Web.Access.{check_options}
use alt_keeper.Base.Text.{Str, codes}
use alt_keeper.Base.Utf8.{count_chars}

-- Only this computer can reach the address, or a PIN of at least four characters is asked for.
unfoldable pub IsProtected : SocketAddr → Option Str → Type 0
IsProtected bind none = is_loopback bind ≡ true
IsProtected bind (some pin) = 4 ≤ count_chars pin

accepted :
    (bind : SocketAddr) (pin : Option Str) → accept_options bind pin ≡ ok tt → IsProtected bind pin
unfolding accept_options check_options IsProtected
accepted bind none e = elim (Bool-cases (is_loopback bind)) [
  | inl local ↦ local
  | inr far ↦ absurd (cc (rw (far, accept_options, check_options) at e))
]
accepted bind (some pin) e = elim (Bool-cases (ltb (count_chars pin) 4)) [
  | inl short ↦ absurd (cc (rw (short, accept_options, check_options) at e))
  | inr long ↦ ground (arith, long)
]

-- What the server of the page is run on.
abbrev pub router_of : Option Str → Option SocketAddr → Router
router_of pin phone = record { table = routes; pin = pin; phone = phone; app = default_app }

module _ {World Socket : Type 0} (S : WebServer World Socket) (I : World → Type 0)
    (printing : (s : Str) (w : World) → I w → I (S.println s w))
    (binding : (bind : SocketAddr) (pin : Option Str)
      → IsProtected bind pin
      → Keeps I (S.bind bind))
    (running : (socket : Socket) (bind : SocketAddr) (pin : Option Str) (phone : Option SocketAddr)
        (before : World)
      → (S.bind bind before).0 ≡ ok socket
      → IsProtected bind pin
      → Keeps I (S.run socket (router_of pin phone))) where
  page_opened :
      (bind : SocketAddr) (pin : Option Str) (phone : Option SocketAddr) (tag : Str) (w : World)
      (r : Run Socket)
      → (S.bind bind w).0 ≡ r
      → IsProtected bind pin
      → I (S.bind bind w).1
      → I (and_then (tag_err tag r) (show_page S bind pin phone) (S.bind bind w).1).1
  unfolding show_page
  page_opened bind pin phone tag w (ok socket) e p h =
      running socket bind pin phone w e p _ (printing _ _ h)
  page_opened bind pin phone tag w (err x) e p h = h
  page_opened bind pin phone tag w panic e p h = h
  page_opened bind pin phone tag w Run.stuck e p h = h

  serve-Keeps :
      (bind : SocketAddr) (pin : Option Str) (phone : Option SocketAddr)
      → Keeps I (serve S bind pin phone)
  unfolding serve
  serve-Keeps bind pin phone w h =
      keeps_yields I (λ _. IsProtected bind pin) (accept_options bind pin) _ w
        (yielded (accept_options bind pin) refl)
        (λ _ p v k.
          page_opened bind pin phone
            (codes "non riesco ad ascoltare su " ++ (S.print_addr bind ++ codes ": ")) v
            (S.bind bind v).0 refl p (binding bind pin p v k))
        h
    where
      yielded :
          (r : Run (Unit {0})) → accept_options bind pin ≡ r → Yields (λ _. IsProtected bind pin) r
      yielded (ok u) e = accepted bind pin e
      yielded (err x) e = tt
      yielded panic e = tt
      yielded Run.stuck e = tt

module _ {World Link Dict Session Listener Socket DnsSocket : Type 0}
    (P : Program World Link Dict Session Listener Socket DnsSocket) (I : World → Type 0)
    (entering : (dir : Str) → Keeps I (P.set_current_dir dir)) where
  enter_dir-Keeps : (dir : Option Str) → Keeps I (enter_dir P dir)
  unfolding enter_dir
  enter_dir-Keeps none = Keeps-pure I {A = Unit {0}} tt
  enter_dir-Keeps (some dir) = entering dir

  start_beside-Keeps :
      ((port : ℕ) (phone : Option SocketAddr) → Keeps I (start P.bonjour port phone))
      → ((port : ℕ) (options : Str → Option Str)
          → Keeps I (start_dnssd (publisher P) P.parse_ip P.why options port))
      → (args : List Str) (phone : Option SocketAddr) → Keeps I (start_beside P args phone)
  unfolding start_beside start_altserver
  start_beside-Keeps starting publishing args phone =
      if_both (Keeps I) (flag args (codes "--altserver")) _ _
        (Keeps-bind I (of_run (altserver_port P.why (opt args (codes "--altserver-port")))) _
          (Keeps-of_run I (altserver_port P.why (opt args (codes "--altserver-port"))))
          λ port.
            Keeps-bind I (start P.bonjour port phone) _ (starting port phone)
              λ got. publishing got (opt args))
        (option_both (Keeps I) (opt args (codes "--dns-domain")) _ _
          (Keeps-pure I {A = Unit {0}} tt) λ _ w h. h)

  -- The command `serve` opens a socket for the page, and runs the page on it, only where the socket is
  -- bound to an address of this computer alone or the page asks for a PIN of at least four characters:
  -- what all the other calls keep, and those two under that condition, the command keeps, on every path.
  pub cmd_serve-Keeps :
      ((port : ℕ) (phone : Option SocketAddr) → Keeps I (start P.bonjour port phone))
      → ((port : ℕ) (options : Str → Option Str)
          → Keeps I (start_dnssd (publisher P) P.parse_ip P.why options port))
      → ((s : Str) (w : World) → I w → I (P.web.println s w))
      → ((bind : SocketAddr) (pin : Option Str) → IsProtected bind pin → Keeps I (P.web.bind bind))
      → ((socket : Socket) (bind : SocketAddr) (pin : Option Str) (phone : Option SocketAddr)
            (before : World)
          → (P.web.bind bind before).0 ≡ ok socket
          → IsProtected bind pin
          → Keeps I (P.web.run socket (router_of pin phone)))
      → (args : List Str) → Keeps I (cmd_serve P args)
  unfolding cmd_serve serve_on phone_of check_anisette
  cmd_serve-Keeps starting publishing printing binding running args =
      Keeps-bind I (of_run (bind_of P args)) _ (Keeps-of_run I (bind_of P args)) λ bind w.
        let pin = pin_of P args w in
        Keeps-bind I (enter_dir P (opt args (codes "--dir"))) _ (enter_dir-Keeps _)
          (λ _.
            Keeps-bind I (phone_of P args) _ (λ v h. h)
              λ phone.
                Keeps-bind I (of_run (accept_options bind pin)) _
                  (Keeps-of_run I (accept_options bind pin))
                  λ _.
                    Keeps-bind I (check_anisette P) _ (λ v h. h)
                      λ _.
                        Keeps-bind I (start_beside P args phone) _
                          (start_beside-Keeps starting publishing args phone)
                          λ _. serve-Keeps P.web I printing binding running bind pin phone)
          w

  -- Where the options are refused, an address open to others without a PIN or a PIN that is too short,
  -- the command `serve` ends with an error before anything is started: no socket is opened, nothing is
  -- announced, and all that it may have done is to enter the directory of `--dir`.
  pub cmd_serve_refused :
      (args : List Str) (bind : SocketAddr) (w : World) (why : Str)
      → bind_of P args ≡ ok bind
      → accept_options bind (pin_of P args w) ≡ err why
      → I w
      → I (cmd_serve P args w).1 × ((u : Unit {0}) → (cmd_serve P args w).0 ≢ ok u)
  unfolding cmd_serve serve_on phone_of
  cmd_serve_refused args bind w why read refused h =
      let pin = pin_of P args w in
      let never : Never I (serve_on P args bind pin) =
        Never-bind I (enter_dir P (opt args (codes "--dir"))) _ (enter_dir-Keeps _) λ _.
          Never-bind I (phone_of P args) _ (λ v k. k)
            λ phone. Never-err I (accept_options bind pin) why _ refused in
      rw (read, cmd_serve) (never w h)
