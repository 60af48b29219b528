-- ===== src/Apple/Team.antt =====
-- `pick_team` of src/apple.rs, and the services of Apple that the commands use.
use alt_keeper.Base.Action.{Action, ok, fail, pure, or_fail, effect, ◌>>=◌, ◌>>◌}
use alt_keeper.Base.{
  ◌++◌, if◌then◌else◌, List, not, none, some, ◌||◌, ◌==◌, ◌^◌, Bool, Option, [], ℕ, ◌+◌, ◌∷◌, ◌-◌,
  get_elem?, length,
}
use alt_keeper.Base.Text.{Str, str_eq, codes, parse_unsigned}
use alt_keeper.Base.Trim.{trim}

pub record Team : Type 0 where
  pub name : Option Str
  pub team_id : Str

-- An App ID, with its expiry as text.
pub record AppId : Type 0 where
  pub identifier : Str
  pub name : Str
  pub expiration_date : Option Str

-- A profile that Apple makes: its expiry, as text, and its bytes.
pub record Download : Type 0 where
  pub date_expire : Str
  pub encoded_profile : List ℕ

-- What the code uses of a session of the crate `isideload`, and of the terminal.
pub record Developer (World Session : Type 0) : Type 0 where
  pub list_teams : Session → Action World (List Team)
  pub list_app_ids : Session → Team → Action World (List AppId)
  pub download_team_provisioning_profile : Session → Team → AppId → Action World Download
  pub print : Str → World → World
  pub read_line : World → Str × World
  pub print_usize : ℕ → Str

abbrev pub no_team : Str
no_team = codes "nessun team sviluppatore su questo Apple ID"

abbrev pub bad_choice : Str
bad_choice = codes "scelta non valida"

-- `teams.into_iter().find(|t| t.team_id == id)`
unfoldable pub find_team : Str → List Team → Option Team
find_team id [] = none
find_team id (t ∷ ts) = let rest = find_team id ts in if str_eq t.team_id id then some t else rest

-- `nth(n.wrapping_sub(1))` of a `usize` of 64 bits.
unfoldable pub nth_team : ℕ → List Team → Option Team
nth_team n ts = get_elem? ts (if n == 0 then 2 ^ 64 - 1 else n - 1)

abbrev pub or_unnamed : Option Str → Str
or_unnamed none = codes "<senza nome>"
or_unnamed (some name) = name

module _ {World Session : Type 0} (D : Developer World Session) where
  -- The loop that prints the teams, from the number of the first on.
  unfoldable pub print_teams : ℕ → List Team → World → World
  print_teams i [] w = w
  print_teams i (t ∷ ts) w = print_teams (i + 1) ts (
      D.print
        (codes "  "
          ++ (D.print_usize i
              ++ (codes ": " ++ (or_unnamed t.name ++ (codes " (" ++ (t.team_id ++ codes ")"))))))
        w)

  -- From the list of the teams printed on.
  unfoldable pub ask_team : List Team → Action World Team
  unfolding nth_team print_teams
  ask_team teams = do
    effect λ w.
        D.print (codes "Scegli il numero: ")
          (print_teams 1 teams (D.print (codes "Team disponibili:") w))
    line ← λ w. (ok (D.read_line w).0, (D.read_line w).1)
    n ← or_fail bad_choice (parse_unsigned (2 ^ 64 - 1) (trim line))
    or_fail bad_choice (nth_team n teams)

  unfoldable pub choose_team : Option Str → Bool → List Team → Action World Team
  unfolding find_team ask_team
  choose_team wanted interactive [] = fail no_team
  choose_team (some id) interactive (t ∷ ts) =
      or_fail (codes "il team " ++ (id ++ codes " non esiste su questo Apple ID"))
        (find_team id (t ∷ ts))
  choose_team none interactive (t ∷ ts) =
      if length (t ∷ ts) == 1 || not interactive then pure t else ask_team (t ∷ ts)

  unfoldable pub pick_team : Session → Option Str → Bool → Action World Team
  unfolding choose_team
  pick_team sess wanted interactive = D.list_teams sess >>= choose_team wanted interactive

  -- `app_ids`
  unfoldable pub app_ids : Session → Team → Action World (List AppId)
  app_ids sess team = D.list_app_ids sess team

  -- `download_profile`
  unfoldable pub download_profile : Session → Team → AppId → Action World Download
  download_profile sess team app = D.download_team_provisioning_profile sess team app
