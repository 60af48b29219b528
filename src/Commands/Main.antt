-- ===== src/Commands/Main.antt =====
-- `main` of src/main.rs: the command and its options, and the order in which `serve` and `altserver`
-- check and start things.
pub mod Guarded
mod Tests
use alt_keeper.Base.Action.{
  Run, Action, ok, err, fail, pure, of_run, tag_err, effect, context, get, call, ◌>>=◌, ◌>>◌,
}
use alt_keeper.Commands.Phone.{Machine, say, pairing_file}
use alt_keeper.Commands.Account.{Terminal, cmd_phone, cmd_login, cmd_apps}
use alt_keeper.Commands.Profiles.{Disk, cmd_profile_remove, cmd_profile_restore}
use alt_keeper.Commands.Renew.{cmd_renew}
use alt_keeper.Commands.Arguments.{
  Publisher, opt, var, phone_addr, altserver_port, start_dnssd, not_empty_text, or_else_text,
}
use alt_keeper.Altserver.Startup.{Bonjour, start, stop}
use alt_keeper.Web.Server.{WebServer, serve, accept_options}
use alt_keeper.Apple.Account.{anisette_url}
use alt_keeper.Profile.Latest.{ℤ, pos}
use alt_keeper.Dnssd.Zone.{Zone, Ipv4Addr}
use alt_keeper.Base.{[], Bool, none, Option, ◌++◌, ◌||◌, some, List, false, if◌then◌else◌, ℕ, ◌∷◌}
use alt_keeper.Base.Text.{Str, codes, str_eq}
use alt_keeper.Phone.Address.{SocketAddr}
use alt_keeper.Dnssd.Listen.{Udp}

-- All the parts of the program, and what `main` uses of the system: the environment, the parsers of
-- the standard library with the texts of their errors, and the signals. `pair_usb` is that of
-- src/phone.rs.
pub record Program (World Link Dict Session Listener Socket DnsSocket : Type 0) : Type 0 where
  pub machine : Machine World Link Dict Session
  pub terminal : Terminal World
  pub disk : Disk World
  pub bonjour : Bonjour World Listener
  pub udp : Udp World DnsSocket
  pub web : WebServer World Socket
  pub pair_usb : Str → Action World (Unit {0})
  pub environment : World → Str → Option Str
  pub set_current_dir : Str → Action World (Unit {0})
  pub parse_addr : Str → Run SocketAddr
  pub parse_ip : Str → Run Ipv4Addr
  pub parse_i64 : Str → Run ℤ
  -- The text of the error of an unsigned number.
  pub why : Str → Str
  pub wait_for_signal : Action World (Unit {0})
  pub version : Str

abbrev pub usage : Str
usage =
    codes
      "uso: altkeeper <phone|pair-usb|login|apps|renew|profile-remove|profile-restore|serve|altserver|version> [opzioni]"

abbrev pub default_bind : Str
default_bind = codes "127.0.0.1:8787"

abbrev pub dns_alone : Str
dns_alone = codes "--dns-domain serve solo insieme a --altserver"

-- `args.iter().any(|a| a == name)`
unfoldable pub flag : List Str → Str → Bool
flag [] name = false
flag (a ∷ as') name = str_eq a name || flag as' name

abbrev pub first_arg : List Str → Option Str
first_arg [] = none
first_arg (a ∷ as') = some a

module _ {World Link Dict Session Listener Socket DnsSocket : Type 0}
    (P : Program World Link Dict Session Listener Socket DnsSocket) where
  abbrev pub publisher : Publisher World DnsSocket
  publisher = record { host = P.bonjour.host; udp = P.udp }

  unfoldable pub phone_of : List Str → Action World (Option SocketAddr)
  phone_of args w = (
    phone_addr P.parse_addr (opt args (codes "--phone")) (var (P.environment w) (codes "PHONE")),
    w,
  )

  unfoldable pub check_anisette : Action World (Option Str)
  check_anisette w = (anisette_url (var (P.environment w) (codes "ANISETTE_URL")), w)

  -- `if let Some(dir) = opt("--dir") { set_current_dir(&dir)?; }`
  unfoldable pub enter_dir : Option Str → Action World (Unit {0})
  enter_dir none = pure tt
  enter_dir (some dir) = context (codes "--dir " ++ (dir ++ codes ": ")) (P.set_current_dir dir)

  unfoldable pub bind_of : List Str → Run SocketAddr
  bind_of args =
      let text : Str = elim (opt args (codes "--bind")) [ none ↦ default_bind | some s ↦ s ] in
      tag_err (codes "--bind non valido (serve ip:porta): ") (P.parse_addr text)

  unfoldable pub pin_of : List Str → World → Option Str
  pin_of args w =
      not_empty_text
        (or_else_text (opt args (codes "--pin")) (var (P.environment w) (codes "WEB_PIN")))

  -- `altserver::start`, and `start_dnssd` with the port that it got.
  unfoldable pub start_altserver :
      List Str → Run ℕ → Run (Option SocketAddr) → Action World (Unit {0})
  start_altserver args port phone = do
    port ← of_run port
    phone ← of_run phone
    got ← start P.bonjour port phone
    start_dnssd publisher P.parse_ip P.why (opt args) got

  -- What `serve` starts before the page.
  unfoldable pub start_beside : List Str → Option SocketAddr → Action World (Unit {0})
  unfolding start_altserver
  start_beside args phone =
      let asked =
        start_altserver args (altserver_port P.why (opt args (codes "--altserver-port")))
          (ok phone) in
      let alone : Action World (Unit {0}) = elim (opt args (codes "--dns-domain")) [
        | none ↦ pure tt
        | some _ ↦ fail dns_alone
      ] in
      if flag args (codes "--altserver") then asked else alone

  -- `serve`, from the address and the PIN on.
  unfoldable pub serve_on : List Str → SocketAddr → Option Str → Action World (Unit {0})
  unfolding enter_dir phone_of check_anisette start_beside
  serve_on args bind pin = do
    enter_dir (opt args (codes "--dir"))
    phone ← phone_of args
    of_run (accept_options bind pin)
    check_anisette
    start_beside args phone
    serve P.web bind pin phone

  unfoldable pub cmd_serve : List Str → Action World (Unit {0})
  unfolding serve_on bind_of pin_of
  cmd_serve args = do bind ← of_run (bind_of args); pin ← get (pin_of args); serve_on args bind pin

  unfoldable pub cmd_altserver : List Str → Action World (Unit {0})
  unfolding enter_dir check_anisette phone_of start_altserver
  cmd_altserver args = do
    enter_dir (opt args (codes "--dir"))
    check_anisette
    phone ← λ w. (ok (phone_of args w).0, w)
    start_altserver args (altserver_port P.why (opt args (codes "--port"))) phone
    say P.machine (codes "AltServer attivo. Ctrl-C per fermarlo.")
    P.wait_for_signal
    effect (stop P.bonjour)

  -- The days of `--min-days`, or 3.
  unfoldable pub min_days_of : Option Str → Run ℤ
  min_days_of none = ok (pos 3)
  min_days_of (some v) = tag_err (codes "--min-days non valido: ") (P.parse_i64 v)

  unfoldable pub cmd_renew_args : List Str → Action World (Unit {0})
  unfolding min_days_of phone_of
  cmd_renew_args args = do
    min_days ← of_run (min_days_of (opt args (codes "--min-days")))
    phone ← phone_of args
    cmd_renew P.machine phone (flag args (codes "--dry-run")) (flag args (codes "--force")) min_days

  unfoldable pub cmd_pair_usb : List Str → Action World (Unit {0})
  cmd_pair_usb args =
      let out : Str = elim (first_arg args) [ none ↦ pairing_file | some file ↦ file ] in
      do P.pair_usb out; say P.machine (codes "pairing remoto creato e salvato in " ++ out)

  unfoldable pub cmd_remove_args : List Str → Action World (Unit {0})
  unfolding phone_of
  cmd_remove_args args = do
    phone ← phone_of args
    cmd_profile_remove P.machine P.disk phone (first_arg args)

  unfoldable pub cmd_restore_args : List Str → Action World (Unit {0})
  unfolding phone_of
  cmd_restore_args args = do
    phone ← phone_of args
    cmd_profile_restore P.machine P.disk phone (first_arg args)

  -- The match on the command.
  unfoldable pub dispatch : Str → List Str → Action World (Unit {0})
  unfolding cmd_serve cmd_altserver cmd_renew_args cmd_pair_usb cmd_remove_args cmd_restore_args
      flag
  dispatch cmd args =
      if flag (codes "version" ∷ codes "--version" ∷ codes "-V" ∷ []) cmd
      then say P.machine (codes "altkeeper " ++ P.version)
      else if str_eq cmd (codes "phone")
      then phone_of args >>= cmd_phone P.machine P.terminal
      else if str_eq cmd (codes "pair-usb")
      then cmd_pair_usb args
      else if str_eq cmd (codes "login")
      then cmd_login P.machine P.terminal (first_arg args)
      else if str_eq cmd (codes "apps")
      then cmd_apps P.machine P.terminal
      else if str_eq cmd (codes "renew")
      then cmd_renew_args args
      else if str_eq cmd (codes "serve")
      then cmd_serve args
      else if str_eq cmd (codes "altserver")
      then cmd_altserver args
      else if str_eq cmd (codes "profile-remove")
      then cmd_remove_args args
      else if str_eq cmd (codes "profile-restore")
      then cmd_restore_args args
      else fail usage

  unfoldable pub main : List Str → Action World (Unit {0})
  unfolding dispatch
  main [] = fail usage
  main (cmd ∷ args) = dispatch cmd args
