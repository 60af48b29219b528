-- ===== src/Commands/Renew.antt =====
-- `cmd_renew` of src/main.rs.
pub mod DryRun
pub mod Due
pub mod Installed
pub mod Renewed
use alt_keeper.Apple.Account.{Account, load_account}
use alt_keeper.Profile.Latest.{ℤ, pos, negsuc, latest_by_bundle}
use alt_keeper.Base.Action.{Action, ok, pure, or_fail, effect, ◌>>=◌, ◌>>◌}
use alt_keeper.Base.{
  ◌+◌, if◌then◌else◌, ◌⊎◌, inl, none, ◌++◌, true, ◌&&◌, Option, [], inr, ℕ, List, ◌∷◌, false, Bool,
  not, some, ltb, length,
}
use alt_keeper.Commands.Phone.{
  Machine, days_or_expired, phone_profiles, mine_of, profile_line, open_phone, say,
}
use alt_keeper.Base.Text.{Str, codes, str_eq}
use alt_keeper.Apple.Team.{Team, AppId, pick_team, download_profile, app_ids, Download}
use alt_keeper.Profile.Parse.{PhoneProfile}
use alt_keeper.Phone.Address.{SocketAddr}

-- `days > min_days`
unfoldable pub is_more : ℤ → ℤ → Bool
is_more (pos m) (pos n) = ltb n m
is_more (pos m) (negsuc n) = true
is_more (negsuc m) (pos n) = false
is_more (negsuc m) (negsuc n) = ltb m n

-- `ids.iter().find(|a| a.identifier == bundle)`
unfoldable pub find_app : Str → List AppId → Option AppId
find_app bundle [] = none
find_app bundle (a ∷ as') =
    let rest = find_app bundle as' in if str_eq a.identifier bundle then some a else rest

abbrev pub no_saved_team : Str
no_saved_team = codes "team not saved: sign in again"

module _ {World Link Dict Session : Type 0} (M : Machine World Link Dict Session) where
  abbrev pub with_days : Str → ℤ → Str → Str
  with_days bundle days what =
      codes "   " ++ (bundle ++ (codes ": expires in " ++ (M.clock.print_i64 days ++ what)))

  -- What the loop over the latest profiles says of one that it passes over, or the entry that it
  -- pushes: a bundle and its days.
  unfoldable pub due_entry : Bool → ℤ → ℕ → PhoneProfile → Str ⊎ (Str × ℤ)
  unfolding is_more days_or_expired
  due_entry force min_days now p = elim p.bundle_id [
    | none ↦ inl (codes "   " ++ (p.name ++ codes ": bundle ID cannot be read, skipping"))
    | some bundle ↦
        let days : ℤ = days_or_expired now p in
        if not force && is_more days min_days
        then inl (with_days bundle days (codes " days, no renewal needed"))
        else inr (bundle, days)
  ]

  -- The loop over the latest profiles, which fills `due`.
  unfoldable pub renew_due : Bool → ℤ → List PhoneProfile → World → List (Str × ℤ) × World
  unfolding due_entry
  renew_due force min_days [] w = ([], w)
  renew_due force min_days (p ∷ ps) w = elim (due_entry force min_days (M.clock.now w) p) [
    | inl s ↦ renew_due force min_days ps (M.network.say s w)
    | inr d ↦ let (due, w') = renew_due force min_days ps w in (d ∷ due, w')
  ]

  -- From the new profile of a bundle on: one more profile was installed.
  unfoldable pub install_new : Link → Download → Action World ℕ
  install_new link new = do
    say M (codes "      nuovo profilo valido fino al " ++ new.date_expire)
    M.misagent.install link new.encoded_profile
    say M (codes "      installed on the phone")
    pure 1

  -- From the App ID of a bundle that is due on.
  unfoldable pub renew_app : Session → Link → Team → Bool → Str → ℤ → AppId → Action World ℕ
  unfolding install_new
  renew_app sess link team dry_run bundle days app =
      if dry_run
      then say M (with_days bundle days (codes " days, WOULD RENEW (dry run)")) >> pure 0
      else do
        say M (with_days bundle days (codes " days, downloading a new profile..."))
        new ← download_profile M.developer sess team app
        install_new link new

  unfoldable pub renew_one : Session → Link → Team → List AppId → Bool → Str × ℤ → Action World ℕ
  unfolding renew_app find_app
  renew_one sess link team ids dry_run (bundle, days) = elim (find_app bundle ids) [
    | none ↦
        say M (codes "   " ++ (bundle ++ codes ": no matching App ID on Apple, skipping")) >> pure 0
    | some app ↦ renew_app sess link team dry_run bundle days app
  ]

  -- The loop over `due`, which counts the installed profiles in `done`.
  unfoldable pub renew_loop :
      Session → Link → Team → List AppId → Bool → ℕ → List (Str × ℤ) → Action World ℕ
  unfolding renew_one
  renew_loop sess link team ids dry_run done [] = pure done
  renew_loop sess link team ids dry_run done (d ∷ due) = do
    n ← renew_one sess link team ids dry_run d
    renew_loop sess link team ids dry_run (done + n) due

  -- The loop that says the profiles after the renewal.
  unfoldable pub say_profiles : List PhoneProfile → Action World (Unit {0})
  say_profiles [] = pure tt
  say_profiles (p ∷ ps) = do
    effect λ w. M.network.say (profile_line M (M.clock.now w) p) w
    say_profiles ps

  unfoldable pub final_check : Link → Str → Action World (Unit {0})
  unfolding phone_profiles say_profiles mine_of
  final_check link team_id = do
    say M (codes "Final check on the phone:")
    after ← phone_profiles M link
    say_profiles (mine_of team_id after)

  -- From the App IDs of the team on.
  unfoldable pub renew_apps :
      Str → Link → Bool → List (Str × ℤ) → Session → Team → List AppId → Action World (Unit {0})
  unfolding renew_loop final_check
  renew_apps team_id link dry_run due sess team ids = do
    done ← renew_loop sess link team ids dry_run 0 due
    if not dry_run && ltb 0 done then final_check link team_id else pure tt

  -- From the session on.
  unfoldable pub renew_session :
      Str → Link → Bool → List (Str × ℤ) → Session → Action World (Unit {0})
  unfolding renew_apps
  renew_session team_id link dry_run due sess = do
    team ← pick_team M.developer sess (some team_id) false
    ids ← app_ids M.developer sess team
    renew_apps team_id link dry_run due sess team ids

  -- From the sign-in on, for the bundles that are due.
  unfoldable pub renew_with_apple :
      Account → Str → Link → Bool → List (Str × ℤ) → Action World (Unit {0})
  unfolding renew_session
  renew_with_apple acc team_id link dry_run due = do
    say M (codes "Signing in to Apple...")
    effect (M.set_interactive false)
    M.open_session acc.apple_id acc.password >>= renew_session team_id link dry_run due

  unfoldable pub renew_if_due :
      Account → Str → Link → Bool → List (Str × ℤ) → Action World (Unit {0})
  unfolding renew_with_apple
  renew_if_due acc team_id link dry_run [] =
      say M (codes "Nothing to renew: skipping Apple sign-in.")
  renew_if_due acc team_id link dry_run (d ∷ due) =
      renew_with_apple acc team_id link dry_run (d ∷ due)

  -- From the profiles of the team on.
  unfoldable pub renew_mine :
      Account → Str → Link → Bool → Bool → ℤ → List PhoneProfile → Action World (Unit {0})
  unfolding renew_if_due renew_due
  renew_mine acc team_id link dry_run force min_days [] = pure tt
  renew_mine acc team_id link dry_run force min_days (p ∷ ps) = do
    due ← λ w. (
      ok (renew_due force min_days (latest_by_bundle (p ∷ ps)) w).0,
      (renew_due force min_days (latest_by_bundle (p ∷ ps)) w).1,
    )
    renew_if_due acc team_id link dry_run due

  unfoldable pub cmd_renew : Option SocketAddr → Bool → Bool → ℤ → Action World (Unit {0})
  unfolding renew_mine mine_of open_phone phone_profiles
  cmd_renew addr dry_run force min_days = do
    acc ← load_account M.accounts
    team_id ← or_fail no_saved_team acc.team_id
    say M (codes "Connecting to the phone...")
    link ← open_phone M addr
    profiles ← phone_profiles M link
    say M (
        M.clock.print_usize (length profiles)
        ++ (codes " profiles on the phone, "
            ++ (M.clock.print_usize (length (mine_of team_id profiles))
                ++ (codes " for team " ++ team_id))))
    renew_mine acc team_id link dry_run force min_days (mine_of team_id profiles)
