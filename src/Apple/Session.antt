-- ===== src/Apple/Session.antt =====
-- `open_session` of src/apple.rs: the login with the code typed at the terminal.
use alt_keeper.Base.Action.{Action, ok, ◌>>=◌, ◌>>◌, pure}
use alt_keeper.Base.{
  if◌then◌else◌, some, ◌^◌, ◌-◌, List, [], false, ℕ, ◌&&◌, ◌++◌, not, ◌==◌, Bool, Option, none, ◌∷◌,
  ◌*◌,
}
use alt_keeper.Base.Text.{Str, str_eq, strip_prefix, codes, parse_unsigned}
use alt_keeper.Apple.Account.{anisette_url}
use alt_keeper.Base.Trim.{trim}

-- A telephone number of the account, and what the callback for the code is told.
pub record TrustedNumber : Type 0 where
  pub id : ℕ
  pub number_with_dial_code : Str

pub record TwoFactorParams : Type 0 where
  pub unknown : Bool
  pub sms : Bool
  pub numbers : List TrustedNumber
  pub selected_number_id : Option ℕ
  pub last_error : Option Str

pub data TwoFactorResponse : Type 0 where
  submit_code : Str → TwoFactorResponse
  resend_code send_to_devices abort : TwoFactorResponse
  send_sms : ℕ → TwoFactorResponse

-- What the code uses of the crate `isideload` to sign in, of the directory `state`, of the terminal
-- and of the flag `INTERACTIVE`.
pub record SignIn (World Provider Session : Type 0) : Type 0 where
  pub create_dir_all : Str → Action World (Unit {0})
  pub set_permissions : Str → ℕ → Action World (Unit {0})
  pub var : Str → World → Option Str
  pub default_provider : Action World Provider
  pub set_url : Str → Provider → Provider
  pub set_storage : Str → Provider → Provider
  pub set_serial_number : Str → Provider → Provider
  pub is_interactive : World → Bool
  pub set_interactive : Bool → World → World
  pub print : Str → World → World
  pub read_line : World → Str × World
  pub print_u32 : ℕ → Str
  -- The login, with its callback, and the developer session of the account.
  pub login :
      Str
      → Provider
      → Str
      → (TwoFactorParams → Action World TwoFactorResponse)
      → Action World Session

abbrev pub state_dir : Str
state_dir = codes "state"

abbrev pub directory_mode : ℕ
directory_mode = 7 * 8 ^ 2

-- `Some(n.id) == params.selected_number_id`
unfoldable pub is_selected : Option ℕ → TrustedNumber → Bool
is_selected none n = false
is_selected (some id) n = n.id == id

-- The number that the code was sent to.
unfoldable pub selected_number : Option ℕ → List TrustedNumber → Str
unfolding is_selected
selected_number o [] = codes "il tuo telefono"
selected_number o (n ∷ ns) =
    let rest = selected_number o ns in if is_selected o n then n.number_with_dial_code else rest

unfoldable pub sent_to : TwoFactorParams → Str
unfolding selected_number
sent_to p =
    if p.sms then selected_number p.selected_number_id p.numbers else codes "i tuoi dispositivi"

-- `code.strip_prefix('p').and_then(|s| s.parse::<u32>().ok())`
unfoldable pub sms_number : Str → Option ℕ
sms_number code = elim (strip_prefix (codes "p") code) [
  | none ↦ none
  | some s ↦ parse_unsigned (2 ^ 32 - 1) s
]

-- What the line typed, trimmed, asks for.
unfoldable pub response_to : Bool → Str → TwoFactorResponse
unfolding sms_number
response_to unknown code = elim (sms_number code) [
  | some id ↦ send_sms id
  | none ↦
      if str_eq code (codes "d")
      then send_to_devices
      else if str_eq code (codes "r") && not unknown
      then resend_code
      else submit_code code
]

module _ {World Provider Session : Type 0} (S : SignIn World Provider Session) where
  abbrev pub with_url : Option Str → Provider → Provider
  with_url none provider = provider
  with_url (some url) provider = S.set_url url provider

  unfoldable pub anisette_provider : Action World Provider
  anisette_provider = do
    S.create_dir_all state_dir
    S.set_permissions state_dir directory_mode
    provider ← S.default_provider
    url ← λ w. (anisette_url (S.var (codes "ANISETTE_URL") w), w)
    pure (S.set_serial_number (codes "2") (S.set_storage state_dir (with_url url provider)))

  -- The loop that prints the numbers that are not selected.
  unfoldable pub print_numbers : Option ℕ → List TrustedNumber → World → World
  unfolding is_selected
  print_numbers o [] w = w
  print_numbers o (n ∷ ns) w =
      let line = codes "  ID " ++ (S.print_u32 n.id ++ (codes ": " ++ n.number_with_dial_code)) in
      print_numbers o ns (if is_selected o n then w else S.print line w)

  unfoldable pub prompt : TwoFactorParams → World → World
  unfolding sent_to print_numbers
  prompt p w =
      let first =
        if p.unknown
        then codes "L'ultimo metodo 2FA non ha funzionato, prova un altro."
        else codes "Inserisci il codice a 6 cifre inviato a " ++ (sent_to p ++ codes ":") in
      print_numbers p.selected_number_id p.numbers (
        S.print (codes "(d = invia ai dispositivi, r = reinvia, p<id> = SMS al numero <id>)")
          (S.print first w))

  -- `get_2fa_code` of `open_session`
  unfoldable pub terminal_code : TwoFactorParams → Action World TwoFactorResponse
  unfolding prompt response_to
  terminal_code p w =
      let (line, w') = S.read_line (prompt p w) in
      if S.is_interactive w
      then (ok (response_to p.unknown (trim line)), w')
      else (ok (submit_code []), w)

  unfoldable pub open_session : Str → Str → Action World Session
  unfolding anisette_provider terminal_code
  open_session apple_id password = do
    provider ← anisette_provider
    S.login apple_id provider password terminal_code
