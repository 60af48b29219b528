-- ===== src/Web/Jobs/Exclusive.antt =====
-- At most one job of src/web.rs runs at a time.
use alt_keeper.Base.{
  [], ◌⊎◌, none, inr, inl, ◌≡◌, ℕ, refl, true, false, Bool, Option, some, Bool-cases, ◌||◌, sym,
  option_both, if_both, ltb, length, if◌then◌else◌, ap,
}
use alt_keeper.Base.Text.{Str, is_empty}
use alt_keeper.Web.Jobs.{
  App, check, json_err, start_job, renew, Job, Answer, login, refresh, run_check, force_of,
  can_renew, run_renew, run_login, is_stale,
}
use mathlib.Core.Path.{subst}
use alt_keeper.Base.Trim.{trim}
use alt_keeper.Apple.Account.{Account}

-- The requests that may start a job.
pub data StartRequest : Type 0 where
  to_check : StartRequest
  to_renew : Str → Option Account → StartRequest
  to_login : Str → Str → Bool → StartRequest
  to_refresh : Bool → ℕ → StartRequest

unfoldable pub answer_of : StartRequest → App → Answer
answer_of to_check app = check app
answer_of (to_renew mode account) app = renew mode account app
answer_of (to_login apple_id password save) app = login apple_id password save app
answer_of (to_refresh pairing now) app = refresh pairing now app

-- Either nothing changes, or the flag was free, and it is taken and one job is started.
unfoldable pub IsExclusive : App → Answer → Type 0
IsExclusive app answer =
    ((answer.started ≡ none) × (answer.app ≡ app))
    ⊎ ((job : Job) × (answer.started ≡ some job)
        × (answer.status ≡ 200)
        × (app.busy ≡ false)
        × (answer.app.busy ≡ true)
        × (answer.app.job.lines ≡ [] ⊎ answer.app.job.lines ≡ app.job.lines))

start_busy :
    (job : Job) (mark : App → App) (app : App)
    → app.busy ≡ true
    → start_job job mark app ≡ json_err 409 app
unfolding start_job
start_busy job mark app h =
    let answer : Option App → Answer = λ o. elim o [
      | none ↦ json_err 409 app
      | some taken ↦ record { status = 200; app = mark taken; started = some job }
    ] in
    ap (λ b. answer (if b then none else some (record app { busy = true }))) h

start_free :
    (job : Job) (mark : App → App) (app : App)
    → app.busy ≡ false
    → start_job job mark app
      ≡ record { status = 200; app = mark (record app { busy = true }); started = some job }
unfolding start_job
start_free job mark app h =
    let answer : Option App → Answer = λ o. elim o [
      | none ↦ json_err 409 app
      | some taken ↦ record { status = 200; app = mark taken; started = some job }
    ] in
    ap (λ b. answer (if b then none else some (record app { busy = true }))) h

refused-IsExclusive : (status : ℕ) (app : App) → IsExclusive app (json_err status app)
unfolding json_err IsExclusive
refused-IsExclusive status app = inl (refl, refl)

taken-IsExclusive :
    (job : Job) (mark : App → App) (app : App)
    → app.busy ≡ false
    → (mark (record app { busy = true })).busy ≡ true
    → ((mark (record app { busy = true })).job.lines ≡ [])
      ⊎ ((mark (record app { busy = true })).job.lines ≡ app.job.lines)
    → IsExclusive app
        (record { status = 200; app = mark (record app { busy = true }); started = some job })
unfolding IsExclusive
taken-IsExclusive job mark app free taken kept = inr (job, refl, refl, free, taken, kept)

start_job-IsExclusive :
    (job : Job) (mark : App → App) (app : App)
    → ((a : App) → (mark a).busy ≡ a.busy)
    → ((a : App) → ((mark a).job.lines ≡ []) ⊎ ((mark a).job.lines ≡ a.job.lines))
    → IsExclusive app (start_job job mark app)
start_job-IsExclusive job mark app same kept = elim (Bool-cases app.busy) [
  | inl yes' ↦
      subst (IsExclusive app) (sym (start_busy job mark app yes')) (refused-IsExclusive 409 app)
  | inr no' ↦ subst (IsExclusive app) (sym (start_free job mark app no')) (started no')
]
  where
    started :
        app.busy ≡ false
        → IsExclusive app
            (record { status = 200; app = mark (record app { busy = true }); started = some job })
    started no' =
        taken-IsExclusive job mark app no' (same (record app { busy = true }))
          (kept (record app { busy = true }))

unchanged-IsExclusive :
    (app : App) → IsExclusive app (record { status = 200; app = app; started = none })
unfolding IsExclusive
unchanged-IsExclusive app = inl (refl, refl)

check-IsExclusive : (app : App) → IsExclusive app (check app)
unfolding check
check-IsExclusive app = start_job-IsExclusive run_check _ app (λ a. refl) (λ a. inr refl)

-- Whatever the request and its data, a handler that may start a job either changes nothing and starts
-- none, or finds the flag free, takes it and starts exactly one: while a job runs no other begins.
pub answer_of-IsExclusive : (r : StartRequest) (app : App) → IsExclusive app (answer_of r app)
unfolding answer_of renew login refresh
answer_of-IsExclusive to_check app = check-IsExclusive app
answer_of-IsExclusive (to_renew mode account) app =
    option_both (IsExclusive app) (force_of mode) _ _ (refused-IsExclusive 400 app) λ force.
      if_both (IsExclusive app) (can_renew account) _ _
        (start_job-IsExclusive (run_renew force) _ app (λ a. refl) (λ a. inl refl))
        (refused-IsExclusive 400 app)
answer_of-IsExclusive (to_login apple_id password save) app =
    let id = trim apple_id in
    if_both (IsExclusive app)
      ((is_empty id || ltb 200 (length id)) || (is_empty password || ltb 200 (length password))) _ _
      (refused-IsExclusive 400 app)
      (start_job-IsExclusive (run_login id password save) _ app (λ a. refl) (λ a. inr refl))
answer_of-IsExclusive (to_refresh pairing now) app =
    if_both (IsExclusive app) (is_stale pairing now app) _ _
      (if_both (IsExclusive app) app.busy _ _ (unchanged-IsExclusive app) (check-IsExclusive app))
      (unchanged-IsExclusive app)
