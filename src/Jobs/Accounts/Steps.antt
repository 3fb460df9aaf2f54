-- ===== src/Jobs/Accounts/Steps.antt =====
-- orchestration/jobs.py: what a step of a thread does to each account.
use discord_os.Prelude.{
  total-append, total-snoc, ℕ, ◌+◌, ◌≤◌, ◌≡◌, ◌≢◌, true, false, some, [], arith, total, find_first,
  total-replace_first, total-remove_first,
}
use discord_os.Text.{Text, text_beq_iff}
use discord_os.Jobs.State.{
  Outcome, Phase, created, wants_slot, wants_lock, waits_lock, in_runner, settling, closing, Job,
  JobPool, System, lock_of, settled, failed, returned, raised, exited,
}
use discord_os.Jobs.Defs.{
  has_id, move, Act, begin, take_slot, find_lock, take_lock, settle, finish, leave, after,
  no_receipt, thread_step,
}
use discord_os.Jobs.Accounts.{
  is_number, of_number, slot, in_runner_of, holds, owes_of, owes, lost_of, lost, has_number, flag,
  lock_of-set_lock, IsSound,
}

module _ {R : Type 0} where
  -- A job that moves to another phase changes a sum of weights by its own.
  pub total-move :
      (w : Job R → ℕ) (i : ℕ) (j : Job R) (p : Phase R) (pool : JobPool R)
      → find_first (has_id i) pool.live ≡ some j
      → total w (move i j p pool).live + w j ≡ total w pool.live + w (record j { phase = p })
  total-move w i j p pool h =
      total-replace_first w (has_id i) j (record j { phase = p }) pool.live h

  -- One field of the invariant after each step of a thread.
  pub thread_step-slots :
      (i : ℕ) (j : Job R) (a : Act R) (p : Phase R) (s s' : System R)
      → find_first (has_id i) s.pool.live ≡ some j
      → j.phase ≡ p
      → thread_step i j a p s ≡ some s'
      → IsSound s
      → (1 ≤ s'.pool.max_live)
        × (s'.pool.running ≡ total slot s'.pool.live)
        × (s'.pool.running ≤ s'.pool.max_live)
  unfolding thread_step
  thread_step-slots i j begin created s s' f e h v =
      ground (arith, v, total-move slot i j wants_slot s.pool)
  thread_step-slots i j take_slot wants_slot s s' f e h v =
      ground (arith, v, total-move slot i j in_runner s.pool, total-move slot i j wants_lock s.pool)
  thread_step-slots i j find_lock wants_lock s s' f e h v =
      ground (arith, v, total-move slot i j waits_lock s.pool)
  thread_step-slots i j take_lock waits_lock s s' f e h v =
      ground (arith, v, total-move slot i j in_runner s.pool)
  thread_step-slots i j (leave (returned r)) in_runner s s' f e h v =
      ground (arith, v, total-move slot i j (settling (settled j.job_id r)) s.pool)
  thread_step-slots i j (leave (raised t)) in_runner s s' f e h v =
      ground (arith, v, total-move slot i j (settling (failed j.job_id t)) s.pool)
  thread_step-slots i j (leave exited) in_runner s s' f e h v =
      ground (arith, v, total-move slot i j closing s.pool)
  thread_step-slots i j settle (settling r) s s' f e h v =
      ground (arith, v, total-move slot i j closing s.pool)
  thread_step-slots i j finish closing s s' f e h v =
      ground (arith, v, total-remove_first slot (has_id i) j s.pool.live)
  thread_step-slots i j _ _ s s' f e h v = cc

  pub in_runner_of-after : (i : ℕ) (o : Outcome R) → in_runner_of (after i o) ≡ 0
  unfolding after
  in_runner_of-after i o = ground arith

  pub owes_of-after :
      (n i : ℕ) (o : Outcome R)
      → owes_of n i (after i o) + total (is_number n) (no_receipt i o) ≡ is_number n i
  unfolding after total
  owes_of-after n i (returned r) = ground arith
  owes_of-after n i (raised e) = ground arith
  owes_of-after n i exited = ground arith

  pub thread_step-locks :
      (i : ℕ) (j : Job R) (a : Act R) (p : Phase R) (s s' : System R)
      → find_first (has_id i) s.pool.live ≡ some j
      → j.phase ≡ p
      → thread_step i j a p s ≡ some s'
      → (key : Text) → key ≢ []
      → total (holds key) s.pool.live ≡ flag (lock_of key s.pool.write_locks)
      → total (holds key) s'.pool.live ≡ flag (lock_of key s'.pool.write_locks)
  unfolding thread_step
  thread_step-locks i j begin created s s' f e h k n v =
      ground (arith, total-move (holds k) i j wants_slot s.pool)
  thread_step-locks i j take_slot wants_slot s s' f e h k n v = ground (
    arith,
    text_beq_iff j.lock_name k,
    total-move (holds k) i j in_runner s.pool,
    total-move (holds k) i j wants_lock s.pool,
  )
  thread_step-locks i j find_lock wants_lock s s' f e h k n v = ground (
    arith,
    text_beq_iff j.lock_name k,
    total-move (holds k) i j waits_lock s.pool,
    lock_of-set_lock j.lock_name k false s.pool.write_locks,
  )
  thread_step-locks i j take_lock waits_lock s s' f e h k n v = ground (
    arith,
    text_beq_iff j.lock_name k,
    total-move (holds k) i j in_runner s.pool,
    lock_of-set_lock j.lock_name k true s.pool.write_locks,
  )
  thread_step-locks i j (leave o) in_runner s s' f e h k n v = ground (
    arith,
    text_beq_iff j.lock_name k,
    total-move (holds k) i j (after j.job_id o) s.pool,
    lock_of-set_lock j.lock_name k false s.pool.write_locks,
    in_runner_of-after i o,
  )
  thread_step-locks i j settle (settling r) s s' f e h k n v =
      ground (arith, total-move (holds k) i j closing s.pool)
  thread_step-locks i j finish closing s s' f e h k n v =
      ground (arith, total-remove_first (holds k) (has_id i) j s.pool.live)
  thread_step-locks i j _ _ s s' f e h k n v = cc

  pub lost_of-after : (i : ℕ) (o : Outcome R) → lost_of (after i o) ≡ 0
  unfolding after
  lost_of-after i o = ground arith

  pub thread_step-named :
      (i : ℕ) (j : Job R) (a : Act R) (p : Phase R) (s s' : System R)
      → find_first (has_id i) s.pool.live ≡ some j
      → j.phase ≡ p
      → thread_step i j a p s ≡ some s'
      → total lost s.pool.live ≡ 0
      → total lost s'.pool.live ≡ 0
  unfolding thread_step
  thread_step-named i j begin created s s' f e h v =
      ground (arith, total-move lost i j wants_slot s.pool)
  thread_step-named i j take_slot wants_slot s s' f e h v =
      ground (arith, total-move lost i j in_runner s.pool, total-move lost i j wants_lock s.pool)
  thread_step-named i j find_lock wants_lock s s' f e h v =
      ground (arith, total-move lost i j waits_lock s.pool)
  thread_step-named i j take_lock waits_lock s s' f e h v =
      ground (arith, total-move lost i j in_runner s.pool)
  thread_step-named i j (leave o) in_runner s s' f e h v =
      ground (arith, lost_of-after i o, total-move lost i j (after j.job_id o) s.pool)
  thread_step-named i j settle (settling r) s s' f e h v =
      ground (arith, total-move lost i j closing s.pool)
  thread_step-named i j finish closing s s' f e h v =
      ground (arith, total-remove_first lost (has_id i) j s.pool.live)
  thread_step-named i j _ _ s s' f e h v = cc

  pub thread_step-frame :
      (i : ℕ) (j : Job R) (a : Act R) (p : Phase R) (s s' : System R)
      → thread_step i j a p s ≡ some s'
      → (s'.pool.seq ≡ s.pool.seq)
        × (s'.submissions ≡ s.submissions)
        × (s'.collected ≡ s.collected)
        × (s'.refused ≡ s.refused)
  unfolding thread_step
  thread_step-frame i j a p s s' h = ground (arith, h)

  pub thread_step-ledger :
      (i : ℕ) (j : Job R) (a : Act R) (p : Phase R) (s s' : System R)
      → find_first (has_id i) s.pool.live ≡ some j
      → j.phase ≡ p
      → thread_step i j a p s ≡ some s'
      → (n : ℕ)
      → total (of_number n) s'.pool.finished
          + total (owes n) s'.pool.live
          + total (is_number n) s'.exits
        ≡ total (of_number n) s.pool.finished
          + total (owes n) s.pool.live
          + total (is_number n) s.exits
  unfolding thread_step
  thread_step-ledger i j begin created s s' f e h n =
      ground (arith, total-move (owes n) i j wants_slot s.pool)
  thread_step-ledger i j take_slot wants_slot s s' f e h n =
      ground
        (arith, total-move (owes n) i j in_runner s.pool, total-move (owes n) i j wants_lock s.pool)
  thread_step-ledger i j find_lock wants_lock s s' f e h n =
      ground (arith, total-move (owes n) i j waits_lock s.pool)
  thread_step-ledger i j take_lock waits_lock s s' f e h n =
      ground (arith, total-move (owes n) i j in_runner s.pool)
  thread_step-ledger i j (leave o) in_runner s s' f e h n = ground (
    arith,
    total-move (owes n) i j (after j.job_id o) s.pool,
    owes_of-after n j.job_id o,
    total-append (is_number n) s.exits (no_receipt j.job_id o),
  )
  thread_step-ledger i j settle (settling r) s s' f e h n =
      ground
        (arith, total-move (owes n) i j closing s.pool, total-snoc (of_number n) s.pool.finished r)
  thread_step-ledger i j finish closing s s' f e h n =
      ground (arith, total-remove_first (owes n) (has_id i) j s.pool.live)
  thread_step-ledger i j _ _ s s' f e h n = cc

  pub thread_step-numbers :
      (i : ℕ) (j : Job R) (a : Act R) (p : Phase R) (s s' : System R)
      → find_first (has_id i) s.pool.live ≡ some j
      → j.phase ≡ p
      → thread_step i j a p s ≡ some s'
      → (n : ℕ) → total (has_number n) s'.pool.live ≤ total (has_number n) s.pool.live
  unfolding thread_step
  thread_step-numbers i j begin created s s' f e h n =
      ground (arith, total-move (has_number n) i j wants_slot s.pool)
  thread_step-numbers i j take_slot wants_slot s s' f e h n = ground (
    arith,
    total-move (has_number n) i j in_runner s.pool,
    total-move (has_number n) i j wants_lock s.pool,
  )
  thread_step-numbers i j find_lock wants_lock s s' f e h n =
      ground (arith, total-move (has_number n) i j waits_lock s.pool)
  thread_step-numbers i j take_lock waits_lock s s' f e h n =
      ground (arith, total-move (has_number n) i j in_runner s.pool)
  thread_step-numbers i j (leave o) in_runner s s' f e h n =
      ground (arith, total-move (has_number n) i j (after j.job_id o) s.pool)
  thread_step-numbers i j settle (settling r) s s' f e h n =
      ground (arith, total-move (has_number n) i j closing s.pool)
  thread_step-numbers i j finish closing s s' f e h n =
      ground (arith, total-remove_first (has_number n) (has_id i) j s.pool.live)
  thread_step-numbers i j _ _ s s' f e h n = cc
