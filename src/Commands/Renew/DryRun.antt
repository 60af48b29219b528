-- ===== src/Commands/Renew/DryRun.antt =====
-- What a dry run of `cmd_renew` of src/main.rs leaves as it is.
use alt_keeper.Base.Action.{Run, Keeps, Keeps-bind, Keeps-pure, Keeps-or_fail, or_fail}
use alt_keeper.Base.{
  ℕ, true, ◌∷◌, ◌⊎◌, ◌+◌, Option, false, inr, List, some, [], Bool, inl, option_both,
}
use alt_keeper.Commands.Phone.{Machine, open_phone, phone_profiles, mine_of}
use alt_keeper.Base.Text.{Str}
use alt_keeper.Apple.Team.{Team, choose_team, find_team, AppId, pick_team, app_ids}
use alt_keeper.Commands.Renew.{
  renew_loop, renew_due, renew_one, renew_app, cmd_renew, renew_if_due, renew_with_apple, find_app,
  renew_mine, no_saved_team, due_entry, renew_session, renew_apps,
}
use alt_keeper.Profile.Latest.{ℤ, latest_by_bundle}
use alt_keeper.Apple.Account.{load_account, Account}
use alt_keeper.Profile.Parse.{PhoneProfile}
use alt_keeper.Phone.Address.{SocketAddr}
use alt_keeper.Commands.Phone.Keeps.{open_phone-Keeps, phone_profiles-Keeps}

-- `I` is kept by the phone's search, by the copies of the profiles and by the questions to Apple.
module _ {World Link Dict Session : Type 0} (M : Machine World Link Dict Session)
    (I : World → Type 0) (saying : (s : Str) (w : World) → I w → I (M.network.say s w)) where
  renew_due-Keeps :
      (force : Bool) (min_days : ℤ) (ps : List PhoneProfile) (w : World)
      → I w
      → I (renew_due M force min_days ps w).1
  unfolding renew_due
  renew_due-Keeps force min_days [] w h = h
  renew_due-Keeps force min_days (p ∷ ps) w h =
      go (due_entry M force min_days (M.clock.now w) p)
        (λ s. renew_due-Keeps force min_days ps (M.network.say s w) (saying s w h))
        (renew_due-Keeps force min_days ps w h)
    where
      go :
          (o : Str ⊎ (Str × ℤ))
          → ((s : Str) → I (renew_due M force min_days ps (M.network.say s w)).1)
          → I (renew_due M force min_days ps w).1
          → I
              (elim o as (λ _. List (Str × ℤ) × World) [
                | inl s ↦ renew_due M force min_days ps (M.network.say s w)
                | inr d ↦ let (due, w') = renew_due M force min_days ps w in (d ∷ due, w')
              ]).1
      go (inl s) passed pushed = passed s
      go (inr d) passed pushed = pushed

  renew_one-Keeps :
      (sess : Session) (link : Link) (team : Team) (ids : List AppId) (d : Str × ℤ)
      → Keeps I (renew_one M sess link team ids true d)
  unfolding renew_one renew_app
  renew_one-Keeps sess link team ids (bundle, days) =
      option_both (Keeps I) (find_app bundle ids) _ _ (λ w h. saying _ w h) λ app w h. saying _ w h

  renew_loop-Keeps :
      (sess : Session) (link : Link) (team : Team) (ids : List AppId) (done : ℕ)
      (due : List (Str × ℤ))
      → Keeps I (renew_loop M sess link team ids true done due)
  unfolding renew_loop
  renew_loop-Keeps sess link team ids done [] = Keeps-pure I done
  renew_loop-Keeps sess link team ids done (d ∷ due) =
      Keeps-bind I (renew_one M sess link team ids true d) _ (renew_one-Keeps sess link team ids d)
        λ n. renew_loop-Keeps sess link team ids (done + n) due

  choose_team-Keeps :
      (id : Str) (teams : List Team) → Keeps I (choose_team M.developer (some id) false teams)
  unfolding choose_team
  choose_team-Keeps id [] = λ w h. h
  choose_team-Keeps id (t ∷ ts) = Keeps-or_fail I _ (find_team id (t ∷ ts))

  module _ (setting : (b : Bool) (w : World) → I w → I (M.set_interactive b w))
      (opening : (id password : Str) → Keeps I (M.open_session id password))
      (listing_teams : (sess : Session) → Keeps I (M.developer.list_teams sess))
      (listing_ids : (sess : Session) (team : Team)
        → Keeps I (M.developer.list_app_ids sess team)) where
    renew_if_due-Keeps :
        (acc : Account) (team_id : Str) (link : Link) (due : List (Str × ℤ))
        → Keeps I (renew_if_due M acc team_id link true due)
    unfolding renew_if_due renew_with_apple renew_session renew_apps pick_team app_ids
    renew_if_due-Keeps acc team_id link [] = saying _
    renew_if_due-Keeps acc team_id link (d ∷ due) = λ w h.
        Keeps-bind I (M.open_session acc.apple_id acc.password) _
          (opening acc.apple_id acc.password)
          (λ sess.
            Keeps-bind I (pick_team M.developer sess (some team_id) false) _
              (Keeps-bind I (M.developer.list_teams sess) _ (listing_teams sess)
                (choose_team-Keeps team_id))
              λ team.
                Keeps-bind I (M.developer.list_app_ids sess team) _ (listing_ids sess team) λ ids.
                  Keeps-bind I (renew_loop M sess link team ids true 0 (d ∷ due)) _
                    (renew_loop-Keeps sess link team ids 0 (d ∷ due))
                    λ done. Keeps-pure I {A = Unit {0}} tt)
          _ (setting false _ (saying _ w h))

    -- A dry run of `cmd_renew` keeps whatever the search of the phone, the reading of its profiles,
    -- the sign-in and Apple's two lists keep, whether it ends with an error or not: it asks for no new
    -- profile and installs none.
    pub cmd_renew_dry_run :
        ((addr : SocketAddr) (path : Str) (w : World) → I w → I (M.network.connect addr path w).1)
        → ((w : World) → I w → I (M.network.browse w).1)
        → ((s : Str) (w : World) → I w → I (M.network.create_dir_all s w))
        → ((s t : Str) (w : World) → I w → I (M.network.write s t w))
        → ((link : Link) → Keeps I (M.misagent.copy_all link))
        → (addr : Option SocketAddr) (force : Bool) (min_days : ℤ)
        → Keeps I (cmd_renew M addr true force min_days)
    unfolding cmd_renew load_account
    cmd_renew_dry_run trying browsing making writing copying addr force min_days =
        Keeps-bind I (load_account M.accounts) _ loading λ acc.
          Keeps-bind I (or_fail no_saved_team acc.team_id) _
            (Keeps-or_fail I no_saved_team acc.team_id)
            λ team_id w h.
              Keeps-bind I (open_phone M addr) _
                (open_phone-Keeps M I saying trying browsing making writing addr)
                (λ link.
                  Keeps-bind I (phone_profiles M link) _
                    (phone_profiles-Keeps M I saying link (copying link))
                    λ profiles w' h'.
                      mine acc team_id link (mine_of team_id profiles) _ (saying _ w' h'))
                _ (saying _ w h)
      where
        loading : Keeps I (load_account M.accounts)
        loading w h =
            option_both (λ (r : Run Account × World). I r.1) (M.accounts.read w) _ _ h (λ raw. h)

        mine :
            (acc : Account) (team_id : Str) (link : Link) (ps : List PhoneProfile)
            → Keeps I (renew_mine M acc team_id link true force min_days ps)
        mine acc team_id link [] w h = h
        mine acc team_id link (p ∷ ps) w h =
            renew_if_due-Keeps acc team_id link
              (renew_due M force min_days (latest_by_bundle (p ∷ ps)) w).0 _
              (renew_due-Keeps force min_days (latest_by_bundle (p ∷ ps)) w h)
