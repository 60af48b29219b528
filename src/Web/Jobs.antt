-- ===== src/Web/Jobs.antt =====
-- The jobs of src/web.rs: the flag that one of them runs, and the requests that start them.
pub mod Exclusive
pub mod Reach
use alt_keeper.Apple.Account.{Account}
use alt_keeper.Base.Text.{codes, Str, is_empty, str_eq}
use alt_keeper.Base.{
  Option, false, ◌∷◌, ◌||◌, [], List, true, if◌then◌else◌, ◌-◌, Bool, ℕ, none, some, ◌&&◌, not,
  ◌++◌, ltb, length, drop, leb, ◌^◌,
}
use alt_keeper.Base.Trim.{trim}

pub record JobView : Type 0 where
  pub kind : Str
  pub running : Bool
  pub lines : List Str
  pub ok : Option Bool

-- The phase is "", "working", "done" or "failed".
pub record LoginView : Type 0 where
  pub phase : Str
  pub message : Str

-- What the start and the end of a job change: the flag `busy`, two fields of the snapshot, the views
-- of the job and of the login, and the last error of the channel for the 2FA code.
pub record App : Type 0 where
  pub busy : Bool
  pub checking : Bool
  pub checked_at : Option ℕ
  pub job : JobView
  pub login : LoginView
  pub code_error : Option Str

-- The work of a thread.
pub data Job : Type 0 where
  run_check : Job
  run_renew : Bool → Job
  run_login : Str → Str → Bool → Job

-- The status of the answer, the state after it, and the job that was started.
pub record Answer : Type 0 where
  pub status : ℕ
  pub app : App
  pub started : Option Job

abbrev pub max_job_lines : ℕ
max_job_lines = 300

-- `App::push_line`
unfoldable pub push_line : Str → App → App
push_line s app =
    let lines = app.job.lines ++ s ∷ [] in
    let kept = if ltb max_job_lines (length lines) then drop 1 lines else lines in
    record app { job = record app.job { lines = kept } }

-- `try_busy`: the state in which the flag is taken, or `none`.
unfoldable pub try_busy : App → Option App
try_busy app = if app.busy then none else some (record app { busy = true })

-- `drop` of the guard.
unfoldable pub release : App → App
release app = record app { busy = false }

abbrev pub internal_error : Str
internal_error = codes "Errore interno: l'operazione si " ++ (195 ∷ 168 ∷ codes " interrotta.")

-- What `spawn_job` does after a panic of the job.
unfoldable pub abort : App → App
abort app =
    let failed : LoginView = record { phase = codes "failed"; message = codes "Errore interno." } in
    record app {
      checking = false;
      job = record app.job {
        running = false;
        ok = some false;
        lines = app.job.lines ++ internal_error ∷ [];
      };
      login = if str_eq app.login.phase (codes "working") then failed else app.login;
    }

unfoldable pub json_err : ℕ → App → Answer
json_err status app = record { status = status; app = app; started = none }

-- The end of a handler that starts a job, from the flag on; `mark` is what it notes in the state.
unfoldable pub start_job : Job → (App → App) → App → Answer
unfolding try_busy json_err
start_job job mark app = elim (try_busy app) [
  | none ↦ json_err 409 app
  | some taken ↦ record { status = 200; app = mark taken; started = some job }
]

unfoldable pub check : App → Answer
unfolding start_job
check = start_job run_check (λ app. record app { checking = true })

-- The test on the mode: `now` renews all the apps, `due` those about to expire.
unfoldable pub force_of : Str → Option Bool
force_of mode =
    if str_eq mode (codes "now")
    then some true
    else if str_eq mode (codes "due")
    then some false
    else none

-- `a.password` is not empty and there is a team.
unfoldable pub can_renew : Option Account → Bool
can_renew none = false
can_renew (some acc) = not (is_empty acc.password) && has_team acc.team_id
  where
    has_team : Option Str → Bool
    has_team none = false
    has_team (some t) = true

unfoldable pub renew : Str → Option Account → App → Answer
unfolding start_job force_of can_renew
renew mode account app = elim (force_of mode) [
  | none ↦ json_err 400 app
  | some force ↦
      let kind = if force then codes "renew_all" else codes "renew_due" in
      let view : JobView = record { kind = kind; running = true; lines = []; ok = none } in
      let answer = start_job (run_renew force) (λ app. record app { job = view }) app in
      if can_renew account then answer else json_err 400 app
]

unfoldable pub login : Str → Str → Bool → App → Answer
unfolding start_job
login apple_id password save app =
    let id = trim apple_id in
    let mark : App → App = λ app. record app {
      login = record { phase = codes "working"; message = [] };
      code_error = none;
    } in
    let answer = start_job (run_login id password save) mark app in
    if (is_empty id || ltb 200 (length id)) || (is_empty password || ltb 200 (length password))
    then json_err 400 app
    else answer

-- The refresh in `state`: a check is started where what is known of the phone is over a minute old.
-- `now - t` is of `u64`, and wraps around where the clock went back (in a release build).
unfoldable pub is_stale : Bool → ℕ → App → Bool
is_stale pairing now app = (pairing && not app.checking) && is_old app.checked_at
  where
    is_old : Option ℕ → Bool
    is_old none = true
    is_old (some t) = ltb 60 (if leb t now then now - t else 2 ^ 64 - (t - now))

unfoldable pub refresh : Bool → ℕ → App → Answer
unfolding check is_stale
refresh pairing now app =
    let unchanged : Answer = record { status = 200; app = app; started = none } in
    let started : Answer = if app.busy then unchanged else check app in
    if is_stale pairing now app then started else unchanged
