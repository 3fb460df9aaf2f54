-- ===== src/Jobs/Defs.antt =====
-- orchestration/jobs.py: `JobPool`, one function for each critical section.
use discord_os.Prelude.{
  ℕ, ◌+◌, ◌-◌, Bool, true, false, List, [], ◌∷◌, ◌++◌, Option, none, some, nat_eq, ◌==◌, ltb,
  if◌then◌else◌, is_empty, find_first, replace_first, remove_first, max, length,
}
use discord_os.Text.{Text, text_eq}
use discord_os.Jobs.State.{
  Intake, Outcome, Phase, Job, Submission, JobPool, System, lock_of, set_lock, is_locked,
  is_submission, release_lock, needs_write_lock, submission, settled, failed, returned, raised,
  exited, created, wants_slot, wants_lock, waits_lock, in_runner, settling, closing,
}

module _ {R : Type 0} where
  abbrev pub has_id : ℕ → Job R → Bool
  has_id i j = j.job_id == i

  -- JobPool(max_live=n)
  unfoldable pub new : ℕ → System R
  new n = record {
    pool = record {
      max_live = max 1 n;
      live = [];
      write_locks = [];
      finished = [];
      seq = 0;
      running = 0;
      live_threads = [];
    };
    submissions = [];
    collected = [];
    exits = [];
    refused = [];
  }

  -- The job `i` moves to another phase.
  abbrev pub move : ℕ → Job R → Phase R → JobPool R → JobPool R
  move i j phase pool = record pool {
    live = replace_first (has_id i) (record j { phase = phase }) pool.live;
  }

  -- The thread that a call of `submit` makes.
  abbrev pub new_job : Submission → Job R
  new_job sub = record { job_id = sub.job_id; lock_name = sub.lock_name; phase = created }

  -- `submit`, from its first critical section to the second, by whether the ask needs the lock. Where
  -- that raises, the number that was taken is lost.
  unfoldable pub reserve_with : Option Bool → Intake → Text → System R → System R
  reserve_with none intake write_key s =
      let n = s.pool.seq + 1 in
      record s { pool = record s.pool { seq = n }; refused = s.refused ++ n ∷ [] }
  reserve_with (some locked) intake write_key s =
      let n = s.pool.seq + 1 in
      record s {
        pool = record s.pool { seq = n };
        submissions = s.submissions ++ submission n intake write_key locked ∷ [];
      }

  -- `submit`, up to its thread's creation: the number is taken under the lock.
  unfoldable pub reserve : Intake → Text → System R → System R
  unfolding needs_write_lock reserve_with
  reserve intake write_key s = reserve_with (needs_write_lock intake) intake write_key s

  -- `submit`, the second critical section.
  unfoldable pub launch : ℕ → System R → Option (System R)
  launch i s = elim (find_first (is_submission i) s.submissions) [
    | none ↦ none
    | some sub ↦ some (record s {
      pool = record s.pool {
        live = s.pool.live ++ new_job sub ∷ [];
        live_threads =
            if is_empty sub.thread_id
            then s.pool.live_threads
            else s.pool.live_threads ++ (sub.job_id, sub.thread_id) ∷ [];
      };
      submissions = remove_first (is_submission i) s.submissions;
    })
  ]

-- What the thread of a job does next.
pub data Act (R : Type 0) : Type 0 where
  begin take_slot find_lock take_lock settle finish : Act R
  leave : Outcome R → Act R

module _ {R : Type 0} where
  -- The phase after the runner.
  unfoldable pub after : ℕ → Outcome R → Phase R
  after i (returned r) = settling (settled i r)
  after i (raised e) = settling (failed i e)
  after i exited = closing

  -- The jobs that leave without a receipt.
  abbrev pub no_receipt : ℕ → Outcome R → List ℕ
  no_receipt i exited = i ∷ []
  no_receipt i _ = []

  -- `run`, one critical section at a time; `none` where the thread has to wait or is elsewhere.
  unfoldable pub thread_step : ℕ → Job R → Act R → Phase R → System R → Option (System R)
  unfolding after release_lock
  thread_step i j begin created s = some (record s { pool = move i j wants_slot s.pool })
  thread_step i j take_slot wants_slot s =
      if ltb s.pool.running s.pool.max_live
      then some (record s {
        pool = record (move i j (if is_empty j.lock_name then in_runner else wants_lock) s.pool) {
          running = s.pool.running + 1;
        };
      })
      else none
  thread_step i j find_lock wants_lock s = some (record s {
    pool = record (move i j waits_lock s.pool) {
      write_locks = elim (lock_of j.lock_name s.pool.write_locks) [
        | none ↦ set_lock j.lock_name false s.pool.write_locks
        | some b ↦ s.pool.write_locks
      ];
    };
  })
  thread_step i j take_lock waits_lock s =
      if is_locked (lock_of j.lock_name s.pool.write_locks)
      then none
      else some (record s {
        pool = record (move i j in_runner s.pool) {
          write_locks = set_lock j.lock_name true s.pool.write_locks;
        };
      })
  thread_step i j (leave o) in_runner s = some (record s {
    pool = record (move i j (after j.job_id o) s.pool) {
      write_locks = release_lock j.lock_name s.pool.write_locks;
    };
    exits = s.exits ++ no_receipt j.job_id o;
  })
  thread_step i j settle (settling r) s = some (record s {
    pool = record (move i j closing s.pool) { finished = s.pool.finished ++ r ∷ [] };
  })
  thread_step i j finish closing s = some (record s {
    pool = record s.pool {
      running = s.pool.running - 1;
      live = remove_first (has_id i) s.pool.live;
      live_threads = remove_first (λ (e : ℕ × Text). e.0 == i) s.pool.live_threads;
    };
  })
  thread_step i j _ _ s = none

  unfoldable pub act : ℕ → Act R → System R → Option (System R)
  act i a s = elim (find_first (has_id i) s.pool.live) [
    | none ↦ none
    | some j ↦ thread_step i j a j.phase s
  ]

  -- reap(): the receipts so far, which the pool forgets
  unfoldable pub reap : System R → System R
  reap s = record s {
    pool = record s.pool { finished = [] };
    collected = s.collected ++ s.pool.finished;
  }

  pub live_count : System R → ℕ
  live_count s = length s.pool.live

-- One step of an interleaving.
pub data Event (R : Type 0) : Type 0 where
  submit : Intake → Text → Event R
  start : ℕ → Event R
  thread : ℕ → Act R → Event R
  collect : Event R

module _ {R : Type 0} where
  unfoldable pub step : Event R → System R → Option (System R)
  step (submit intake key) s = some (reserve intake key s)
  step (start i) s = launch i s
  step (thread i a) s = act i a s
  step collect s = some (reap s)

  -- A schedule; a step that is not enabled is passed over, as a thread that still waits.
  unfoldable pub run : List (Event R) → System R → System R
  unfolding step
  run [] s = s
  run (e ∷ es) s = elim (step e s) [ none ↦ run es s | some s' ↦ run es s' ]
