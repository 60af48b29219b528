-- ===== src/Web/Server.antt =====
-- `serve` of src/web.rs: the options are checked, the state of the page is made, and the routes are
-- handed to the server.
use alt_keeper.Base.Action.{Run, Action, ok, err, of_run, effect, context, ◌>>=◌, ◌>>◌}
use alt_keeper.Web.Access.{check_options, OptionsError, pin_needed, pin_short}
use alt_keeper.Phone.Address.{SocketAddr, v4, v6}
use alt_keeper.Web.Jobs.{App}
use alt_keeper.Base.{◌==◌, ◌++◌, false, none, Bool, true, some, List, ◌∷◌, Option, []}
use alt_keeper.Base.Text.{Str, codes, str_eq}

-- `IpAddr::is_loopback`
unfoldable pub is_loopback : SocketAddr → Bool
is_loopback (v4 ip port) = ip.a == 127
is_loopback (v6 groups port flow scope) = str_eq groups (0 ∷ 0 ∷ 0 ∷ 0 ∷ 0 ∷ 0 ∷ 0 ∷ 1 ∷ [])

abbrev pub options_text : OptionsError → Str
options_text pin_needed =
    codes
      "per ascoltare fuori da questo computer serve un PIN: imposta ALTKEEPER_WEB_PIN (o usa --pin)"
options_text pin_short = codes "il PIN deve avere almeno 4 caratteri"

-- `check_options(bind, &pin)`, with the text of its error.
unfoldable pub accept_options : SocketAddr → Option Str → Run (Unit {0})
accept_options bind pin = elim (check_options (is_loopback bind) pin) [
  | none ↦ ok tt
  | some e ↦ err (options_text e)
]

-- The handlers of the routes.
pub data Handler : Type 0 where
  on_index on_state on_check on_renew on_login on_login_code on_login_resend : Handler

pub record Route : Type 0 where
  pub path : Str
  pub is_post : Bool
  pub handler : Handler

abbrev pub routes : List Route
routes =
    record { path = codes "/"; is_post = false; handler = on_index }
    ∷ record { path = codes "/api/state"; is_post = false; handler = on_state }
    ∷ record { path = codes "/api/check"; is_post = true; handler = on_check }
    ∷ record { path = codes "/api/renew"; is_post = true; handler = on_renew }
    ∷ record { path = codes "/api/login"; is_post = true; handler = on_login }
    ∷ record { path = codes "/api/login/code"; is_post = true; handler = on_login_code }
    ∷ record { path = codes "/api/login/resend"; is_post = true; handler = on_login_resend }
    ∷ []

-- What the server is given: the routes, and the state that `guard`, which stands before all of them,
-- and the handlers share.
pub record Router : Type 0 where
  pub table : List Route
  pub pin : Option Str
  pub phone : Option SocketAddr
  pub app : App

-- `Inner::default()` and a flag that is not set.
abbrev pub default_app : App
default_app = record {
  busy = false;
  checking = false;
  checked_at = none;
  job = record { kind = []; running = false; lines = []; ok = none };
  login = record { phase = []; message = [] };
  code_error = none;
}

-- The socket, and `axum::serve` on it.
pub record WebServer (World Listener : Type 0) : Type 0 where
  pub bind : SocketAddr → Action World Listener
  pub run : Listener → Router → Action World (Unit {0})
  pub println : Str → World → World
  pub print_addr : SocketAddr → Str

abbrev pub protection_of : Option Str → Str
protection_of none = codes "raggiungibile solo da questo computer"
protection_of (some pin) =
    codes "protetta da PIN: il nome utente pu" ++ (195 ∷ 178 ∷ codes " essere qualsiasi")

module _ {World Listener : Type 0} (S : WebServer World Listener) where
  -- `serve`, from the socket on.
  unfoldable pub show_page :
      SocketAddr → Option Str → Option SocketAddr → Listener → Action World (Unit {0})
  show_page bind pin phone listener = do
    effect (
        S.println (
          codes "Interfaccia web su http://"
          ++ (S.print_addr bind ++ (codes " (" ++ (protection_of pin ++ codes ")")))))
    S.run listener (record { table = routes; pin = pin; phone = phone; app = default_app })

  unfoldable pub serve : SocketAddr → Option Str → Option SocketAddr → Action World (Unit {0})
  unfolding accept_options show_page
  serve bind pin phone = do
    of_run (accept_options bind pin)
    listener ←
        context (codes "non riesco ad ascoltare su " ++ (S.print_addr bind ++ codes ": "))
          (S.bind bind)
    show_page bind pin phone listener
