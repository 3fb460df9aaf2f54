-- ===== src/Jobs/State.antt =====
-- orchestration/jobs.py: `resolve_max_live`, `_needs_write_lock`, and the state of `JobPool` with the
-- threads round it.
use discord_os.Prelude.{
  ℕ, Bool, true, false, not, List, [], ◌∷◌, Option, none, some, nat_eq, ◌==◌, ltb, if◌then◌else◌,
  is_empty, max,
}
use discord_os.Text.{Text, txt, text_eq, strip}
use discord_os.Text.Number.{pos, negsuc, int_of}
use discord_os.Routing.{
  Mode, analyze, implement, swarm, Requested, compute_dispatch_mode, swarm_worker_count,
}

abbrev pub default_max_live : ℕ
default_max_live = 8

-- max(1, int(raw)), and the default where the variable is blank or no number
unfoldable pub resolve_max_live : Option Text → ℕ
resolve_max_live none = default_max_live
resolve_max_live (some value) =
    let raw = strip value in
    if is_empty raw then default_max_live else elim (int_of raw) [
      | none ↦ default_max_live
      | some (pos n) ↦ max 1 n
      | some (negsuc n) ↦ 1
    ]

-- What the pool reads of a `TaskIntake`: `eval` is `is_eval_metadata(intake.metadata)`, `workers`
-- is `metadata.get("workers")`.
pub record Intake : Type 0 where
  pub text : Text
  pub channel_id : Text
  pub thread_id : Text
  pub eval : Bool
  pub workers : Option Requested

abbrev writes : Mode → Bool
writes analyze = false
writes implement = true
writes swarm = true

unfoldable pub has_workers : Option ℕ → Option Bool
has_workers none = none
has_workers (some n) = some (ltb 0 n)

-- What the mode of the text leaves to the workers that were asked for.
unfoldable pub lock_by : Option Mode → Option ℕ → Option Bool
unfolding has_workers
lock_by none workers = none
lock_by (some mode) workers = if writes mode then some true else has_workers workers

-- _needs_write_lock; `none` where it raises ValueError
unfoldable pub needs_write_lock : Intake → Option Bool
unfolding compute_dispatch_mode swarm_worker_count lock_by
needs_write_lock intake =
    if intake.eval
    then some false
    else lock_by (compute_dispatch_mode intake.text) (swarm_worker_count intake.text intake.workers)

unfoldable pub realm_write_key : Intake → Text → Text
realm_write_key intake cwd =
    let path = strip cwd in
    if not (is_empty path)
    then path
    else if is_empty intake.channel_id
    then txt "channel"
    else intake.channel_id

-- The receipt of the runner, or the one that the pool writes for a crash of job `job_id`. The number
-- of the job is kept with the first too, which the code does not, to say whose receipt it is.
pub data Receipt (R : Type 0) : Type 0 where
  settled : ℕ → R → Receipt R
  failed : ℕ → Text → Receipt R

-- How a runner ends: it returns, raises an `Exception`, or raises what is no `Exception`.
pub data Outcome (R : Type 0) : Type 0 where
  returned : R → Outcome R
  raised : Text → Outcome R
  exited : Outcome R

-- Where the thread of a job stands.
pub data Phase (R : Type 0) : Type 0 where
  created : Phase R
  wants_slot : Phase R
  wants_lock : Phase R
  waits_lock : Phase R
  in_runner : Phase R
  settling : Receipt R → Phase R
  closing : Phase R

pub record Job (R : Type 0) : Type 0 where
  pub job_id : ℕ
  pub lock_name : Text
  pub phase : Phase R

-- A call of `submit` between its two critical sections.
pub record Submission : Type 0 where
  pub job_id : ℕ
  pub lock_name : Text
  pub thread_id : Text

pub record JobPool (R : Type 0) : Type 0 where
  pub max_live : ℕ
  pub live : List (Job R)
  pub write_locks : List (Text × Bool)
  pub finished : List (Receipt R)
  pub seq : ℕ
  pub running : ℕ
  pub live_threads : List (ℕ × Text)

-- The pool with what goes on round it: calls of `submit` under way, the receipts that calls of
-- `reap` gave back, the jobs whose threads left without a receipt, and the numbers that calls of
-- `submit` took before they raised.
pub record System (R : Type 0) : Type 0 where
  pub pool : JobPool R
  pub submissions : List Submission
  pub collected : List (Receipt R)
  pub exits : List ℕ
  pub refused : List ℕ

-- A lock of `_write_locks`: `none` if there is none yet, and whether it is locked.
unfoldable pub lock_of : Text → List (Text × Bool) → Option Bool
lock_of key [] = none
lock_of key ((k, b) ∷ locks) = if k == key then some b else lock_of key locks

unfoldable pub set_lock : Text → Bool → List (Text × Bool) → List (Text × Bool)
set_lock key b [] = (key, b) ∷ []
set_lock key b ((k, c) ∷ locks) = if k == key then (k, b) ∷ locks else (k, c) ∷ set_lock key b locks

abbrev pub is_locked : Option Bool → Bool
is_locked (some true) = true
is_locked _ = false

abbrev pub is_submission : ℕ → Submission → Bool
is_submission i s = s.job_id == i

-- `with self._write_lock(lock_name)` ends where the runner does, however it ends.
unfoldable pub release_lock : Text → List (Text × Bool) → List (Text × Bool)
release_lock name locks = if is_empty name then locks else set_lock name false locks

-- What `submit` works out before its second critical section.
abbrev pub submission : ℕ → Intake → Text → Bool → Submission
submission n intake write_key locked = record {
  job_id = n;
  lock_name = if locked then write_key else [];
  thread_id = strip intake.thread_id;
}
