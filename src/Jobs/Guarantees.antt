-- ===== src/Jobs/Guarantees.antt =====
-- orchestration/jobs.py: what the pool promises of its slots, its write locks and its receipts.
use discord_os.Prelude.{
  ap, sym, leb, ◌&&◌, none, Bool-cases, if◌then◌else◌, Bool, ℕ, ◌+◌, ◌≤◌, max, ◌≡◌, refl, ◌∙◌, ◌≢◌,
  ◌⊎◌, inl, inr, true, false, Option, some, List, [], ◌∷◌, arith, Option-cases, total, find_first,
  total_mono,
}
use discord_os.Text.{Text}
use discord_os.Routing.{Mode, implement, swarm, analyze, compute_dispatch_mode, swarm_worker_count}
use discord_os.Jobs.State.{
  lock_by, has_workers, Intake, Phase, Job, System, needs_write_lock, resolve_max_live,
}
use discord_os.Jobs.Defs.{
  reserve_with, has_id, new, reserve, launch, Act, thread_step, act, reap, Event, submit, start,
  thread, collect, step, run,
}
use discord_os.Jobs.Accounts.{is_number, of_number, sub_number, slot, holds, owes, has_number}
use discord_os.Jobs.Invariant.{run-new-IsSound}
use discord_os.Jobs.Progress.{working}

module _ {R : Type 0} where
  -- Whatever is submitted and however the threads interleave, at most one job at a time is in its
  -- runner under a given write lock.
  pub one_writer :
      (n : ℕ) (es : List (Event R)) (key : Text)
      → key ≢ []
      → total (holds key) (run es (new n)).pool.live ≤ 1
  one_writer n es key h = ground (arith, (run-new-IsSound n es).locks key h)

  thread_step-max_live :
      (i : ℕ) (j : Job R) (a : Act R) (p : Phase R) (s s' : System R)
      → thread_step i j a p s ≡ some s'
      → s'.pool.max_live ≡ s.pool.max_live
  unfolding thread_step
  thread_step-max_live i j a p s s' h = ground arith

  reserve_with-max_live :
      (o : Option Bool) (i : Intake) (k : Text) (s : System R)
      → (reserve_with o i k s).pool.max_live ≡ s.pool.max_live
  unfolding reserve_with
  reserve_with-max_live none i k s = refl
  reserve_with-max_live (some locked) i k s = refl

  reserve-max_live :
      (i : Intake) (k : Text) (s : System R) → (reserve i k s).pool.max_live ≡ s.pool.max_live
  unfolding reserve
  reserve-max_live i k s = reserve_with-max_live (needs_write_lock i) i k s

  step-max_live :
      (e : Event R) (s s' : System R) → step e s ≡ some s' → s'.pool.max_live ≡ s.pool.max_live
  unfolding step launch act reap
  step-max_live (thread i a) s s' h = elim (Option-cases (find_first (has_id i) s.pool.live)) [
    | inl e ↦ cc
    | inr (j, e) ↦ thread_step-max_live i j a j.phase s s' (ground arith)
  ]
  step-max_live (submit i k) s s' h =
      let e : reserve i k s ≡ s' = ground arith in
      ap (λ (t : System R). t.pool.max_live) (sym e) ∙ reserve-max_live i k s
  step-max_live (start i) s s' h = ground arith
  step-max_live collect s s' h = ground arith

  run-max_live : (es : List (Event R)) (s : System R) → (run es s).pool.max_live ≡ s.pool.max_live
  unfolding run
  run-max_live [] s = refl
  run-max_live (e ∷ es) s = elim (Option-cases (step e s)) [
    | inl n ↦ rw (n, run) (run-max_live es s)
    | inr (s', n) ↦ rw (n, run) (run-max_live es s' ∙ step-max_live e s s' n)
  ]

  working-le-slot : (j : Job R) → working j ≤ slot j
  working-le-slot j = ground arith

  -- Never more than `max(1, max_live)` jobs are in their runners at a time.
  pub run-le-max_live :
      (n : ℕ) (es : List (Event R)) → total working (run es (new n)).pool.live ≤ max 1 n
  unfolding new
  run-le-max_live n es = omega (
    arith,
    run-new-IsSound n es,
    total_mono working slot working-le-slot (run es (new n)).pool.live,
    run-max_live es (new n),
  )

  -- At every moment of every interleaving each number from 1 to the last that was given out is in
  -- exactly one place, and no other number in any: it is that of a receipt in the pool or with a
  -- caller of `reap`, of a live thread that still owes one, of an open call of `submit`, of a thread
  -- that left without a receipt, or of a call of `submit` that raised. And no two live jobs have the
  -- same number.
  pub receipts_accounted :
      (n : ℕ) (es : List (Event R)) (i : ℕ)
      → let s = run es (new n) in
        (total (of_number i) s.collected
            + total (of_number i) s.pool.finished
            + total (owes i) s.pool.live
            + total (sub_number i) s.submissions
            + total (is_number i) s.exits
            + total (is_number i) s.refused
          ≡ (if leb 1 i && leb i s.pool.seq then 1 else 0))
        × (total (has_number i) s.pool.live ≤ 1)
  receipts_accounted n es i =
      ((run-new-IsSound n es).ledger i, omega (arith, (run-new-IsSound n es).numbers i))

lock_by-false :
    (mode : Option Mode) (workers : Option ℕ)
    → lock_by mode workers ≡ some false
    → (mode ≡ some analyze) × (workers ≡ some 0)
unfolding lock_by has_workers
lock_by-false none workers h = absurd (cc h)
lock_by-false (some analyze) none h = absurd (cc h)
lock_by-false (some analyze) (some n) h = ground (arith, h)
lock_by-false (some implement) workers h = absurd (cc h)
lock_by-false (some swarm) workers h = absurd (cc h)

-- A job without a write lock is an evaluation, or it reads only and has no workers.
pub unlocked-reads :
    (intake : Intake)
    → needs_write_lock intake ≡ some false
    → (intake.eval ≡ true)
      ⊎ ((compute_dispatch_mode intake.text ≡ some analyze)
          × (swarm_worker_count intake.text intake.workers ≡ some 0))
unfolding needs_write_lock
unlocked-reads intake h = elim (Bool-cases intake.eval) [
  | inl e ↦ inl e
  | inr e ↦ inr (
      lock_by-false (compute_dispatch_mode intake.text)
        (swarm_worker_count intake.text intake.workers) (ground (arith, e, h)))
]

-- The pool's ceiling is at least one, whatever the environment holds.
resolve_max_live_pos : (value : Option Text) → 1 ≤ resolve_max_live value
unfolding resolve_max_live
resolve_max_live_pos value = ground arith
