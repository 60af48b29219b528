-- ===== src/Web/Work.antt =====
-- The three jobs of src/web.rs: `run_check`, `run_renew` and `run_login`.
pub mod Ends
mod Tests
use alt_keeper.Apple.Account.{Account, Accounts, read_account, save_account}
use alt_keeper.Profile.Latest.{ℤ, pos, negsuc}
use alt_keeper.Base.Action.{Run, Action, ok, err, panic, stuck, pure, ◌>>=◌, ◌>>◌}
use alt_keeper.Base.{
  List, true, some, not, false, Bool, [], ◌++◌, ℕ, none, if◌then◌else◌, Option, length, ◌&&◌,
}
use alt_keeper.Web.Jobs.{App, push_line, LoginView}
use alt_keeper.Commands.Phone.{Machine, pairing_file, phone_profiles}
use alt_keeper.Apple.Team.{Team, pick_team}
use alt_keeper.Phone.Address.{SocketAddr}
use alt_keeper.Web.History.{log_of}
use alt_keeper.Commands.Renew.{cmd_renew}
use alt_keeper.Base.Text.{Str, codes}
use alt_keeper.Profile.Parse.{PhoneProfile}
use alt_keeper.Phone.Connect.{connect_auto}
use alt_keeper.Web.Views.{AppView, app_views}
use alt_keeper.Web.Texts.{friendly_error, short_apple_error, take_chars, short_error}
use alt_keeper.Base.Bytes.{Bytes}
use alt_keeper.Base.Utf8.{is_utf8}
use alt_keeper.Base.Trim.{trim}

-- What a check of the phone leaves for the page, but for the two fields that `App` has.
pub record Snapshot : Type 0 where
  pub reachable : Option Bool
  pub address : Option Str
  pub error : Option Str
  pub detail : Option Str
  pub profiles_total : ℕ
  pub apps : List AppView

-- `tokio::time::timeout` around the check: it ended, or the time was over.
pub data Timed : Type 0 where
  in_time : Run (SocketAddr × List PhoneProfile) → Timed
  elapsed : Timed

-- The state of the page in the world, and what the jobs use of the rest of the program and of the
-- system. `open_session_web` is that of src/apple.rs.
pub record Page (World Session : Type 0) : Type 0 where
  pub app : World → App
  pub set_app : App → World → World
  pub snapshot : World → Snapshot
  pub set_snapshot : Snapshot → World → World
  pub within_45 : Action World (SocketAddr × List PhoneProfile) → World → Timed × World
  pub open_session_web : Str → Str → Action World Session
  pub now_secs : World → ℕ
  -- Whether `date` ended well and what it wrote, where it could be run.
  pub date_output : World → Option (Bool × Bytes)
  pub print_u64 : ℕ → Str
  pub append : Str → World → World
  pub phone : Option SocketAddr
  pub to_lowercase : Str → Str

abbrev pub team_of : Option Account → Option Str
team_of none = none
team_of (some acc) = acc.team_id

abbrev pub team_name : Team → Str
team_name team = elim team.name [ none ↦ team.team_id | some n ↦ n ]

-- What `date` says of the time.
unfoldable pub date_text : Option (Bool × Bytes) → Option Str
date_text none = none
date_text (some (success, stdout)) = if success && is_utf8 stdout then some (trim stdout) else none

module _ {World Link Dict Session : Type 0} (M : Machine World Link Dict Session)
    (G : Page World Session) where
  unfoldable pub local_time : World → Str
  unfolding date_text
  local_time w = elim (date_text (G.date_output w)) [
    | none ↦ codes "epoch " ++ G.print_u64 (G.now_secs w)
    | some s ↦ s
  ]

  -- A write under the lock.
  unfoldable pub update : (App → App) → World → World
  update f w = G.set_app (f (G.app w)) w

  -- The phone says nothing to the page during a check.
  unfoldable pub check_phone : Action World (SocketAddr × List PhoneProfile)
  check_phone = do
    reached ← connect_auto (record M.network { say = λ s w. w }) G.phone pairing_file
    let (addr, link) = reached
    profiles ← phone_profiles M link
    pure (addr, profiles)

  -- The snapshot of a check that failed, over the last one.
  unfoldable pub failed_snapshot : Str → Str → Snapshot → Snapshot
  failed_snapshot e detail s = record s {
    reachable = some false;
    error = some (friendly_error G.to_lowercase e);
    detail = some detail;
  }

  unfoldable pub seen_snapshot : Option Str → SocketAddr → List PhoneProfile → ℕ → Snapshot
  seen_snapshot team addr profiles now = record {
    reachable = some true;
    address = some (M.network.print_addr addr);
    error = none;
    detail = none;
    profiles_total = length profiles;
    apps = elim team [ none ↦ [] | some t ↦ app_views M.clock.to_xml_format now profiles t ];
  }

  -- The end of `run_check`, from the outcome of the timeout on.
  unfoldable pub finish_check : Option Str → Timed → World → Run (Unit {0}) × World
  unfolding update failed_snapshot seen_snapshot
  finish_check team r w =
      let w' = update (λ a. record a { checking = false; checked_at = some (G.now_secs w) }) w in
      elim r [
        | elapsed ↦ (
          ok tt,
          G.set_snapshot
              (failed_snapshot (codes "non risponde") (codes "nessuna risposta entro 45 secondi")
                (G.snapshot w'))
              w',
        )
        | in_time run ↦ elim run [
          | ok seen ↦ (ok tt, G.set_snapshot (seen_snapshot team seen.0 seen.1 (M.clock.now w')) w')
          | err e ↦
              (ok tt, G.set_snapshot (failed_snapshot e (take_chars 400 e) (G.snapshot w')) w')
          | panic ↦ (panic, w)
          | stuck ↦ (stuck, w)
        ]
      ]

  unfoldable pub run_check : Action World (Unit {0})
  unfolding finish_check check_phone update
  run_check w =
      let w' = update (λ a. record a { checking = true }) w in
      let team = team_of (read_account M.accounts w') in
      let (r, w'') = G.within_45 check_phone w' in finish_check team r w''

  -- The end of `run_renew`, from the outcome of `cmd_renew` on.
  unfoldable pub finish_renew : Bool → World → Run (Unit {0}) × World
  unfolding run_check update local_time
  finish_renew done w =
      let w' =
        update (λ a. record a { job = record a.job { running = false; ok = some done } }) w in
      run_check (G.append (log_of (local_time w') (G.app w').job.lines done) w')

  -- `after_renew` goes on from what `cmd_renew` comes to.
  unfoldable pub after_renew : Run (Unit {0}) → World → Run (Unit {0}) × World
  unfolding finish_renew update
  after_renew (ok u) w = finish_renew true w
  after_renew (err e) w =
      finish_renew false (update (push_line (codes "Error: " ++ short_error e)) w)
  after_renew panic w = (panic, w)
  after_renew stuck w = (stuck, w)

  -- The lines that `cmd_renew` says go to the job: `M.network.say` is `push_line`.
  unfoldable pub run_renew : Bool → Action World (Unit {0})
  unfolding after_renew
  run_renew force w = let (r, w') = cmd_renew M G.phone false force (pos 3) w in after_renew r w'

  -- The block of `run_login` that may fail.
  unfoldable pub sign_in : Str → Str → Bool → Action World Str
  sign_in apple_id password save = do
    sess ← G.open_session_web apple_id password
    team ← pick_team M.developer sess none false
    save_account M.accounts (record {
      apple_id = apple_id;
      password = if save then password else [];
      team_id = some team.team_id;
    })
    pure (team_name team)

  unfoldable pub signed_in : Bool → Str → LoginView
  signed_in save team = record {
    phase = codes "done";
    message =
        codes "Signed in successfully (team "
        ++ (team
            ++ (if save
                then codes "). The password is saved for renewals."
                else codes "), but the password was not saved: automatic renewals cannot run."));
  }

  unfoldable pub login_failed : Str → LoginView
  login_failed e = record { phase = codes "failed"; message = short_apple_error G.to_lowercase e }

  unfoldable pub finish_login : Bool → Run Str → World → Run (Unit {0}) × World
  unfolding signed_in login_failed update
  finish_login save panic w = (panic, w)
  finish_login save stuck w = (stuck, w)
  finish_login save (ok team) w =
      (ok tt, update (λ a. record a { login = signed_in save team; checked_at = none }) w)
  finish_login save (err e) w =
      (ok tt, update (λ a. record a { login = login_failed e; checked_at = none }) w)

  unfoldable pub run_login : Str → Str → Bool → Action World (Unit {0})
  unfolding sign_in finish_login
  run_login apple_id password save w =
      let (r, w') = sign_in apple_id password save w in finish_login save r w'
