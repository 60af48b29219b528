-- ===== src/Commands/Account.antt =====
-- `cmd_phone`, `cmd_login` and `cmd_apps` of src/main.rs.
pub mod Consent
mod Tests
use alt_keeper.Base.Action.{Run, Action, ok, err, fail, pure, or_fail, effect, call, ◌>>=◌, ◌>>◌}
use alt_keeper.Apple.Account.{save_account, load_account, Account}
use alt_keeper.Commands.Phone.{Machine, say, open_phone, phone_profiles}
use alt_keeper.Commands.Renew.{say_profiles}
use alt_keeper.Base.{
  false, Option, [], if◌then◌else◌, none, Bool, ◌∷◌, ◌-◌, ◌||◌, true, ◌++◌, some, List, length,
}
use alt_keeper.Base.Text.{Str, codes, is_empty, str_eq}
use alt_keeper.Apple.Team.{AppId, Team, pick_team, or_unnamed, app_ids}
use alt_keeper.Phone.Address.{SocketAddr}
use alt_keeper.Base.Trim.{trim}

-- What `cmd_login` uses of the terminal, and the tables of Unicode for small letters.
pub record Terminal (World : Type 0) : Type 0 where
  pub prompt_password : Str → Action World Str
  pub print : Str → World → World
  pub flush : World → World
  pub read_line : World → Str × World
  pub to_lowercase : Str → Str

abbrev pub login_usage : Str
login_usage = codes "uso: altkeeper login <apple-id>"

abbrev pub save_question : Str
save_question =
    codes
      "Salvare la password su questo server per i rinnovi automatici (file riservato a root)? [s/N] "

-- The answers that are a yes, in small letters; the third is `sì`.
unfoldable pub is_yes : Str → Bool
is_yes s =
    str_eq s (codes "s")
    || (str_eq s (codes "si") || (str_eq s (115 ∷ 195 ∷ 172 ∷ []) || str_eq s (codes "y")))

module _ {World Link Dict Session : Type 0} (M : Machine World Link Dict Session)
    (T : Terminal World) where
  unfoldable pub cmd_phone : Option SocketAddr → Action World (Unit {0})
  cmd_phone addr = do
    link ← open_phone M addr
    profiles ← phone_profiles M link
    say M (M.clock.print_usize (length profiles) ++ codes " profili installati sul telefono:")
    say_profiles M profiles

  -- `cmd_login`, from the answer to the question on.
  unfoldable pub save_login : Str → Str → Team → Str → Action World (Unit {0})
  unfolding is_yes
  save_login apple_id password team line = do
    save_account M.accounts (record {
      apple_id = apple_id;
      password = if is_yes (T.to_lowercase (trim line)) then password else [];
      team_id = some team.team_id;
    })
    say M (codes "Account salvato in account.json (permessi 600).")

  -- `cmd_login`, from the team on.
  unfoldable pub welcome : Str → Str → Team → Action World (Unit {0})
  unfolding save_login
  welcome apple_id password team = do
    say M (
        codes "Accesso riuscito. Team: "
        ++ (or_unnamed team.name ++ (codes " (" ++ (team.team_id ++ codes ")"))))
    effect (T.print save_question)
    effect T.flush
    call T.read_line >>= save_login apple_id password team

  -- `cmd_login`, from the password on.
  unfoldable pub login_with : Str → Str → Action World (Unit {0})
  unfolding welcome
  login_with apple_id password = if is_empty password then fail (codes "password vuota") else do
    effect (M.set_interactive true)
    sess ← M.open_session apple_id password
    pick_team M.developer sess none true >>= welcome apple_id password

  unfoldable pub cmd_login : Option Str → Action World (Unit {0})
  unfolding login_with
  cmd_login given = do
    apple_id ← or_fail login_usage given
    typed ← T.prompt_password (codes "Password di " ++ (apple_id ++ codes ": "))
    login_with apple_id (trim typed)

  abbrev pub app_line : AppId → Str
  app_line a =
      let expires : Str = elim a.expiration_date [ none ↦ codes "-" | some d ↦ d ] in
      codes "   " ++ (a.identifier ++ (codes "  (" ++ (a.name ++ (codes ")  scade " ++ expires))))

  -- The loop of `cmd_apps` over the App IDs.
  unfoldable pub say_apps : List AppId → Action World (Unit {0})
  say_apps [] = pure tt
  say_apps (a ∷ as') = say M (app_line a) >> say_apps as'

  unfoldable pub cmd_apps : Action World (Unit {0})
  unfolding say_apps
  cmd_apps = do
    acc ← load_account M.accounts
    effect (M.set_interactive false)
    sess ← M.open_session acc.apple_id acc.password
    team ← pick_team M.developer sess acc.team_id false
    ids ← app_ids M.developer sess team
    say M (
        codes "Team "
        ++ (team.team_id ++ (codes ": " ++ (M.clock.print_usize (length ids) ++ codes " App ID"))))
    say_apps ids
