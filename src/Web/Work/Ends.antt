-- ===== src/Web/Work/Ends.antt =====
-- What the jobs of src/web.rs leave on the page when they return.
use alt_keeper.Web.Work.{
  run_check, run_renew, Page, Snapshot, update, finish_check, finish_renew, Timed, in_time, elapsed,
  after_renew, team_of, check_phone,
}
use alt_keeper.Profile.Latest.{pos}
use alt_keeper.Base.Action.{Run, ok, err, panic, stuck}
use alt_keeper.Base.{sym, ◌≡◌, Bool, refl, false, Option, some, true}
use alt_keeper.Commands.Phone.{Machine}
use alt_keeper.Web.Jobs.{JobView, App}
use alt_keeper.Base.Text.{Str}
use alt_keeper.Apple.Account.{read_account}
use alt_keeper.Commands.Renew.{cmd_renew}
use mathlib.Core.Path.{subst}

-- `r.is_ok()`
abbrev pub is_ok : {A : Type 0} → Run A → Bool
is_ok (ok a) = true
is_ok (err e) = false
is_ok panic = false
is_ok stuck = false

-- A job that returns, which it does without an error, leaves no check running and a job view with `P`.
-- A panic is left to the thread of the job.
unfoldable pub IsEnded :
    {World Session : Type 0}
    → Page World Session
    → (JobView → Type 0)
    → Run (Unit {0}) × World
    → Type 0
IsEnded G P (ok u, w) = ((G.app w).checking ≡ false) × P (G.app w).job
IsEnded G P (err e, w) = ⊥
IsEnded G P (panic, w) = Unit
IsEnded G P (stuck, w) = Unit

-- The state of the page is one variable, which the calls other than writes of it leave alone; the
-- check of the phone, cut off or not, leaves the job view alone.
module _ {World Link Dict Session : Type 0} (M : Machine World Link Dict Session)
    (G : Page World Session) (read_back : (a : App) (w : World) → G.app (G.set_app a w) ≡ a)
    (showing : (s : Snapshot) (w : World) → G.app (G.set_snapshot s w) ≡ G.app w)
    (logging : (s : Str) (w : World) → G.app (G.append s w) ≡ G.app w)
    (checking : (w : World) → (G.app (G.within_45 (check_phone M G) w).1).job ≡ (G.app w).job) where
  shown-IsEnded :
      (P : JobView → Type 0) (s : Snapshot) (w : World)
      → P (G.app w).job
      → IsEnded G P (
        ok tt,
        G.set_snapshot s
            (update M G (λ a. record a { checking = false; checked_at = some (G.now_secs w) }) w),
      )
  unfolding IsEnded update
  shown-IsEnded P s w h = rw (showing, read_back) (refl, h)

  finish_check-IsEnded :
      (P : JobView → Type 0) (team : Option Str) (r : Timed) (w : World)
      → P (G.app w).job
      → IsEnded G P (finish_check M G team r w)
  unfolding finish_check IsEnded
  finish_check-IsEnded P team elapsed w h = shown-IsEnded P _ w h
  finish_check-IsEnded P team (in_time (ok seen)) w h = shown-IsEnded P _ w h
  finish_check-IsEnded P team (in_time (err e)) w h = shown-IsEnded P _ w h
  finish_check-IsEnded P team (in_time panic) w h = tt
  finish_check-IsEnded P team (in_time stuck) w h = tt

  run_check-IsEnded :
      (P : JobView → Type 0) (w : World) → P (G.app w).job → IsEnded G P (run_check M G w)
  unfolding run_check update
  run_check-IsEnded P w h =
      let w' = G.set_app (record (G.app w) { checking = true }) w in
      finish_check-IsEnded P (team_of (read_account M.accounts w'))
        (G.within_45 (check_phone M G) w').0 (G.within_45 (check_phone M G) w').1
        (subst P (sym (checking w')) (rw read_back h))

  finish_renew-IsEnded :
      (done : Bool) (w : World)
      → IsEnded G (λ job. (job.running ≡ false) × (job.ok ≡ some done)) (finish_renew M G done w)
  unfolding finish_renew update
  finish_renew-IsEnded done w =
      run_check-IsEnded (λ job. (job.running ≡ false) × (job.ok ≡ some done)) _
        (rw (logging, read_back) (refl, refl))

  -- A renewal started from the page, where neither `cmd_renew` nor the check that follows panics, ends
  -- with the job no longer running, with no check running, and with the outcome that `cmd_renew` had as
  -- the outcome of the job: that the check fails or runs out of time does not change it. It returns no
  -- error of its own.
  pub run_renew-IsEnded :
      (force : Bool) (w : World)
      → IsEnded G
          (λ job.
            (job.running ≡ false)
            × (job.ok ≡ some (is_ok (cmd_renew M G.phone false force (pos 3) w).0)))
          (run_renew M G force w)
  unfolding run_renew after_renew IsEnded
  run_renew-IsEnded force w =
      go (cmd_renew M G.phone false force (pos 3) w).0 (cmd_renew M G.phone false force (pos 3) w).1
    where
      go :
          (r : Run (Unit {0})) (w' : World)
          → IsEnded G
              (λ job. (job.running ≡ false) × (job.ok ≡ some (is_ok r)))
              (after_renew M G r w')
      go (ok u) w' = finish_renew-IsEnded true w'
      go (err e) w' = finish_renew-IsEnded false _
      go panic w' = tt
      go stuck w' = tt
