-- ===== src/Jobs/Progress.antt =====
-- orchestration/jobs.py: the pool does not deadlock, and every job ends if its runner does.
use discord_os.Prelude.{
  ℕ, ◌≤◌, ◌<◌, ◌≡◌, refl, ◌≢◌, ◌⊎◌, inl, inr, Bool, true, none, some, List, [], ◌∷◌, arith, ltb,
  Bool-cases, total, find_first, found-le-total, total_pos, total_mono,
}
use discord_os.Text.{Text}
use discord_os.Jobs.State.{
  Phase, created, wants_slot, wants_lock, waits_lock, in_runner, settling, closing, Job, System,
  lock_of, is_locked,
}
use discord_os.Jobs.Defs.{
  has_id, Act, begin, take_slot, find_lock, take_lock, settle, finish, thread_step, act,
}
use discord_os.Jobs.Accounts.{slot, in_runner_of, holds, lost, has_number, IsSound}

module _ {R : Type 0} where
  -- 1 for a job that is in its runner.
  abbrev pub working : Job R → ℕ
  working j = in_runner_of j.phase

  -- A job that is found by any test is found by its number, since numbers do not repeat.
  pub found_by_number :
      (p : Job R → Bool) (j : Job R) (live : List (Job R))
      → find_first p live ≡ some j
      → total (has_number j.job_id) live ≤ 1
      → find_first (has_id j.job_id) live ≡ some j
  unfolding find_first total
  found_by_number p j [] f u = cc
  found_by_number p j (z ∷ live) f u =
      ground (arith, found_by_number p j live, found-le-total (has_number j.job_id) p j live)

  -- Some thread can take its next step.
  abbrev pub CanMove : System R → Type 0
  CanMove s = (i : ℕ) × (a : Act R) × (act i a s ≢ none)

  holds-le-working : (key : Text) (j : Job R) → holds key j ≤ working j
  holds-le-working key j = ground arith

  module _ (s : System R) (v : IsSound s) (p : Job R → Bool) (j : Job R)
      (f : find_first p s.pool.live ≡ some j) where
    by_number : find_first (has_id j.job_id) s.pool.live ≡ some j
    by_number = found_by_number p j s.pool.live f (omega (arith, v.numbers j.job_id))

    name-ne-nil : j.phase ≡ waits_lock → j.lock_name ≢ []
    name-ne-nil e n = ground (arith, v.named, found-le-total lost p j s.pool.live)

    -- A job that waits for a lock finds it free, or the lock has a job in its runner.
    waiting_moves : j.phase ≡ waits_lock → (0 < total working s.pool.live) ⊎ CanMove s
    unfolding act thread_step
    waiting_moves e = elim (Bool-cases (is_locked (lock_of j.lock_name s.pool.write_locks))) [
      | inl y ↦ inl (
          ground (
            arith,
            v.locks j.lock_name (name-ne-nil e),
            total_mono (holds j.lock_name) working (holds-le-working j.lock_name) s.pool.live,
          ))
      | inr n ↦ inr (j.job_id, take_lock, λ h. ground (arith, by_number))
    ]

    -- A job with a slot moves, or some runner is at work.
    slot_moves : 0 < slot j → (0 < total working s.pool.live) ⊎ CanMove s
    unfolding act thread_step
    slot_moves h = go j.phase refl
      where
        go : (q : Phase R) → j.phase ≡ q → (0 < total working s.pool.live) ⊎ CanMove s
        go created e = absurd (ground (arith, h))
        go wants_slot e = absurd (ground (arith, h))
        go wants_lock e = inr (j.job_id, find_lock, λ n. ground (arith, by_number))
        go waits_lock e = waiting_moves e
        go in_runner e = inl (ground (arith, found-le-total working p j s.pool.live))
        go (settling r) e = inr (j.job_id, settle, λ n. ground (arith, by_number))
        go closing e = inr (j.job_id, finish, λ n. ground (arith, by_number))

  slotted_moves :
      (s : System R)
      → IsSound s
      → 0 < total slot s.pool.live
      → (0 < total working s.pool.live) ⊎ CanMove s
  slotted_moves s v h =
      let (j, f, above) = total_pos slot s.pool.live h in
      slot_moves s v (λ x. ltb 0 (slot x)) j f above

  module _ (s : System R) (v : IsSound s) (p : Job R → Bool) (j : Job R)
      (f : find_first p s.pool.live ≡ some j) where
    -- A job that waits for a slot takes one, or all slots are taken and their jobs move.
    wants_slot_moves : j.phase ≡ wants_slot → (0 < total working s.pool.live) ⊎ CanMove s
    unfolding act thread_step
    wants_slot_moves e = elim (Bool-cases (ltb s.pool.running s.pool.max_live)) [
      | inl y ↦ inr (j.job_id, take_slot, λ h. ground (arith, by_number s v p j f))
      | inr n ↦ slotted_moves s v (ground (arith, v))
    ]

    job_moves : (0 < total working s.pool.live) ⊎ CanMove s
    unfolding act thread_step
    job_moves = go j.phase refl
      where
        go : (q : Phase R) → j.phase ≡ q → (0 < total working s.pool.live) ⊎ CanMove s
        go created e = inr (j.job_id, begin, λ n. ground (arith, by_number s v p j f))
        go wants_slot e = wants_slot_moves e
        go wants_lock e = slot_moves s v p j f (ground arith)
        go waits_lock e = slot_moves s v p j f (ground arith)
        go in_runner e = slot_moves s v p j f (ground arith)
        go (settling r) e = slot_moves s v p j f (ground arith)
        go closing e = slot_moves s v p j f (ground arith)

  -- While a job is live, some runner is at work or some thread can take its next step.
  pub no_deadlock :
      (s : System R) → IsSound s → s.pool.live ≢ [] → (0 < total working s.pool.live) ⊎ CanMove s
  no_deadlock s v n = head_of s.pool.live refl
    where
      head_of :
          (live : List (Job R)) → s.pool.live ≡ live → (0 < total working s.pool.live) ⊎ CanMove s
      head_of [] e = absurd (n e)
      head_of (j ∷ live) e = job_moves s v (λ x. true) j (rw e (unfold find_first in refl))
