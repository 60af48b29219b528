-- ===== src/Web/Jobs/Reach.antt =====
-- The jobs of src/web.rs as a system of steps: requests, and the thread of the job that runs.
use alt_keeper.Base.{
  some, ℕ, Bool, false, inr, none, ◌++◌, [], inl, ◌+◌, ◌≡◌, Option, arith, ◌≤◌, true, ◌∷◌, length,
  length-append, Bool-cases, ltb, length-drop, refl, ◌∙◌, ap, ◌⊎◌, sym, suc,
}
use alt_keeper.Web.Jobs.Exclusive.{StartRequest, answer_of, IsExclusive, answer_of-IsExclusive}
use alt_keeper.Web.Jobs.{
  push_line, App, Job, max_job_lines, release, run_renew, abort, Answer, internal_error,
}
use alt_keeper.Base.Text.{Str}

pub record System : Type 0 where
  pub app : App
  pub thread : Option Job

abbrev pub is_running : Option Job → Bool
is_running none = false
is_running (some job) = true

-- One step. `ignored` and `began` are requests, `unspawned` one whose thread the system refuses, which
-- drops the guard; `said` a line of a renewal; `worked` any other write of the job that runs, which
-- leaves the flag and the lines alone; `ended` and `panicked` the two ends of the thread.
pub data Step : System → System → Type 0 where
  ignored :
      (s : System) (r : StartRequest)
      → (answer_of r s.app).started ≡ none
      → Step s (record s { app = (answer_of r s.app).app })
  began :
      (s : System) (r : StartRequest) (job : Job)
      → (answer_of r s.app).started ≡ some job
      → Step s (record { app = (answer_of r s.app).app; thread = some job })
  unspawned :
      (s : System) (r : StartRequest) (job : Job)
      → (answer_of r s.app).started ≡ some job
      → Step s (record s { app = release (answer_of r s.app).app })
  said :
      (s : System) (line : Str) (force : Bool)
      → s.thread ≡ some (run_renew force)
      → Step s (record s { app = push_line line s.app })
  worked :
      (s : System) (app : App) (job : Job)
      → s.thread ≡ some job
      → app.busy ≡ s.app.busy
      → app.job.lines ≡ s.app.job.lines
      → Step s (record s { app = app })
  ended :
      (s : System) (job : Job)
      → s.thread ≡ some job
      → Step s (record { app = release s.app; thread = none })
  panicked :
      (s : System) (job : Job)
      → s.thread ≡ some job
      → Step s (record { app = release (abort s.app); thread = none })

-- The number of panics after the step, from that before it.
abbrev pub count : {s t : System} → Step s t → ℕ → ℕ
count (panicked s job h) n = suc n
count (ignored s r h) n = n
count (began s r job h) n = n
count (unspawned s r job h) n = n
count (said s line force h) n = n
count (worked s app job h k l) n = n
count (ended s job h) n = n

-- What holds after `n` panics: the flag says whether a thread runs, and the log is bounded.
unfoldable pub IsSound : ℕ → System → Type 0
IsSound n s = (s.app.busy ≡ is_running s.thread) × (length s.app.job.lines ≤ max_job_lines + n)

push_line-length :
    (line : Str) (app : App) (n : ℕ)
    → length app.job.lines ≤ max_job_lines + n
    → length (push_line line app).job.lines ≤ max_job_lines + n
unfolding push_line
push_line-length line app n h =
    let lines = app.job.lines ++ line ∷ [] in
    let size = length-append app.job.lines (line ∷ []) in
    elim (Bool-cases (ltb max_job_lines (length lines))) [
      | inl over ↦ rw over (omega (arith, length-drop 1 lines, size))
      | inr fits ↦ let few : length lines ≤ max_job_lines = ground arith in rw fits (omega arith)
    ]

lines_bounded :
    (app : App) (answer : Answer) (n : ℕ)
    → (answer.app.job.lines ≡ []) ⊎ (answer.app.job.lines ≡ app.job.lines)
    → length app.job.lines ≤ max_job_lines + n
    → length answer.app.job.lines ≤ max_job_lines + n
lines_bounded app answer n (inl e) h = let size = ap length e in omega arith
lines_bounded app answer n (inr e) h = let size = ap length e in omega arith

-- What an answer that starts a job, or none, says of the state.
exclusive_none :
    (app : App) (answer : Answer)
    → IsExclusive app answer
    → answer.started ≡ none
    → answer.app ≡ app
unfolding IsExclusive
exclusive_none app answer (inl (_, e)) h = e
exclusive_none app answer (inr (_, started, _, _, _, _)) h = absurd (cc (started, h))

exclusive_some :
    (app : App) (answer : Answer) (job : Job)
    → IsExclusive app answer
    → answer.started ≡ some job
    → (app.busy ≡ false)
      × (answer.app.busy ≡ true)
      × ((answer.app.job.lines ≡ []) ⊎ (answer.app.job.lines ≡ app.job.lines))
unfolding IsExclusive
exclusive_some app answer job (inl (none', _)) h = absurd (cc (none', h))
exclusive_some app answer job (inr (_, _, _, free, taken, kept)) h = (free, taken, kept)

Step-IsSound : {s t : System} (n : ℕ) (step : Step s t) → IsSound n s → IsSound (count step n) t
unfolding IsSound release abort push_line
Step-IsSound n (ignored s r h) (flag, few) =
    let same = exclusive_none s.app (answer_of r s.app) (answer_of-IsExclusive r s.app) h in
    let flag' = ap (λ (a : App). a.busy) same in
    let size = ap (λ (a : App). length a.job.lines) same in (flag' ∙ flag, omega arith)
Step-IsSound n (began s r job h) (flag, few) =
    let (free, taken, kept) =
      exclusive_some s.app (answer_of r s.app) job (answer_of-IsExclusive r s.app) h in
    (taken, lines_bounded s.app (answer_of r s.app) n kept few)
Step-IsSound n (unspawned s r job h) (flag, few) =
    let (free, taken, kept) =
      exclusive_some s.app (answer_of r s.app) job (answer_of-IsExclusive r s.app) h in
    (sym free ∙ flag, lines_bounded s.app (answer_of r s.app) n kept few)
Step-IsSound n (said s line force h) (flag, few) = (flag, push_line-length line s.app n few)
Step-IsSound n (worked s app job h same lines) (flag, few) =
    let size = ap length lines in (same ∙ flag, omega arith)
Step-IsSound n (ended s job h) (flag, few) = (refl, few)
Step-IsSound n (panicked s job h) (flag, few) =
    (refl, omega (arith, length-append s.app.job.lines (internal_error ∷ [])))

-- The system after some steps, `n` of them panics.
pub data Reach (s : System) : ℕ → System → Type 0 where
  here : Reach s 0 s
  next : {n : ℕ} {t u : System} → Reach s n t → (step : Step t u) → Reach s (count step n) u

abbrev pub initial : System
initial = record {
  app = record {
    busy = false;
    checking = false;
    checked_at = none;
    job = record { kind = []; running = false; lines = []; ok = none };
    login = record { phase = []; message = [] };
    code_error = none;
  };
  thread = none;
}

-- From the start of the page and after any steps, requests, refused threads and panics among them:
-- the flag `busy` is set exactly while the thread of a job runs, and the log of the job holds at most 300 lines and one for each panic.
pub Reach-IsSound : {n : ℕ} {s : System} → Reach initial n s → IsSound n s
unfolding IsSound
Reach-IsSound here = (refl, omega arith)
Reach-IsSound (next r step) = Step-IsSound _ step (Reach-IsSound r)

-- In every such state, a request that starts a job finds no thread of another job.
pub Reach-alone :
    {n : ℕ} {s : System} (r : StartRequest) (job : Job)
    → Reach initial n s
    → (answer_of r s.app).started ≡ some job
    → s.thread ≡ none
unfolding IsSound
Reach-alone {s = s} r job reached h =
    let (flag, _) = Reach-IsSound reached in
    let (free, _, _) =
      exclusive_some s.app (answer_of r s.app) job (answer_of-IsExclusive r s.app) h in
    idle s.thread (sym flag ∙ free)
  where
    idle : (o : Option Job) → is_running o ≡ false → o ≡ none
    idle none k = refl
    idle (some j) k = absurd (cc k)
