-- ===== src/Web/State.antt =====
-- The handler `state` of src/web.rs: what the page is told, as a record in place of JSON.
use alt_keeper.Web.Jobs.{App, JobView, Answer, refresh}
use alt_keeper.Web.Work.{Snapshot}
use alt_keeper.Web.History.{Entry, parse_history}
use alt_keeper.Apple.Account.{Account}
use alt_keeper.Base.{ℕ, false, none, not, if◌then◌else◌, true, Bool, some, List, Option, []}
use alt_keeper.Base.Text.{codes, Str, is_empty}

pub record StateView : Type 0 where
  pub now : ℕ
  pub busy : Bool
  pub pairing : Bool
  pub present : Bool
  pub apple_id : Option Str
  pub password_saved : Bool
  pub team : Bool
  pub checked_at : Option ℕ
  pub checking : Bool
  pub phone : Snapshot
  pub job : JobView
  pub login_phase : Str
  pub login_message : Str
  pub code_error : Option Str
  pub history : List Entry

-- `account.is_some_and(|a| !a.password.is_empty())`
unfoldable pub password_saved : Option Account → Bool
password_saved none = false
password_saved (some acc) = not (is_empty acc.password)

abbrev pub is_there {ℓ} : {A : Type ℓ} → Option A → Bool
is_there none = false
is_there (some a) = true

-- What `state` reads besides the state of the page: the account, whether the pairing file is there,
-- the log, the clock and the flag `asking` of the channel for the code.
pub record Surroundings : Type 0 where
  pub account : Option Account
  pub pairing : Bool
  pub renew_log : Option Str
  pub now : ℕ
  pub asking : Bool

module _ (to_lowercase : Str → Str) (print_usize : ℕ → Str) where
  -- The view, from the state after the refresh.
  unfoldable pub state_view : Surroundings → Snapshot → App → StateView
  unfolding password_saved
  state_view s snapshot app = record {
    now = s.now;
    busy = app.busy;
    pairing = s.pairing;
    present = is_there s.account;
    apple_id = elim s.account [ none ↦ none | some acc ↦ some acc.apple_id ];
    password_saved = password_saved s.account;
    team = elim s.account [ none ↦ false | some acc ↦ is_there acc.team_id ];
    checked_at = app.checked_at;
    checking = app.checking;
    phone = snapshot;
    job = app.job;
    login_phase = if s.asking then codes "needs_code" else app.login.phase;
    login_message = app.login.message;
    code_error = if s.asking then app.code_error else none;
    history = elim s.renew_log [
      | none ↦ []
      | some text ↦ parse_history to_lowercase print_usize text 6
    ];
  }

  -- `state`: the refresh, which may start a check, and the view of what it leaves. The thread of the
  -- check is taken to write nothing before the view is made.
  unfoldable pub state : Surroundings → Snapshot → App → Answer × StateView
  unfolding state_view
  state s snapshot app =
      let answer = refresh s.pairing s.now app in (answer, state_view s snapshot answer.app)
