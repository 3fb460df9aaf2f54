-- ===== src/Jobs/Drain.antt =====
-- orchestration/jobs.py: the threads that are started come to an end, and leave their receipts.
use discord_os.Prelude.{
  leb, ◌&&◌, if◌then◌else◌, ℕ, zero, suc, ◌+◌, ◌*◌, ◌≤◌, ◌<◌, ◌≡◌, refl, ap, ◌≢◌, ◌⊎◌, inl, inr,
  Bool, true, false, none, some, List, [], ◌∷◌, arith, ltb, Option-cases, length, any, total,
  find_first, total-remove_first, total-snoc, length-remove_first, total_pos,
}
use discord_os.Jobs.State.{
  Outcome, Phase, created, wants_slot, wants_lock, waits_lock, in_runner, settling, closing, Job,
  Submission, System, is_submission, returned,
}
use discord_os.Jobs.Defs.{
  has_id, new, launch, new_job, Act, begin, take_slot, find_lock, take_lock, settle, finish, leave,
  after, thread_step, act, reap, Event, submit, start, thread, collect, step, run,
}
use discord_os.Jobs.Accounts.{is_number, of_number, sub_number, owes, IsSound}
use discord_os.Jobs.Accounts.Steps.{total-move}
use discord_os.Jobs.Invariant.{step-IsSound, run-IsSound, run-new-IsSound}
use discord_os.Jobs.Progress.{working, found_by_number, CanMove, no_deadlock}

module _ {R : Type 0} where
  -- How many steps a thread has before it, at most.
  abbrev pub steps_of : Phase R → ℕ
  steps_of created = 7
  steps_of wants_slot = 6
  steps_of wants_lock = 5
  steps_of waits_lock = 4
  steps_of in_runner = 3
  steps_of (settling r) = 2
  steps_of closing = 1

  abbrev pub steps_left : Job R → ℕ
  steps_left j = steps_of j.phase

  abbrev pub measure : System R → ℕ
  measure s = total steps_left s.pool.live + 8 * length s.submissions

  steps_of-after : (i : ℕ) (o : Outcome R) → steps_of (after i o) ≤ 2
  unfolding after
  steps_of-after i o = ground arith

  thread_step-steps :
      (i : ℕ) (j : Job R) (a : Act R) (p : Phase R) (s s' : System R)
      → find_first (has_id i) s.pool.live ≡ some j
      → j.phase ≡ p
      → thread_step i j a p s ≡ some s'
      → measure s' < measure s
  unfolding thread_step
  thread_step-steps i j begin created s s' f e h =
      ground (arith, total-move steps_left i j wants_slot s.pool)
  thread_step-steps i j take_slot wants_slot s s' f e h = ground (
    arith,
    total-move steps_left i j in_runner s.pool,
    total-move steps_left i j wants_lock s.pool,
  )
  thread_step-steps i j find_lock wants_lock s s' f e h =
      ground (arith, total-move steps_left i j waits_lock s.pool)
  thread_step-steps i j take_lock waits_lock s s' f e h =
      ground (arith, total-move steps_left i j in_runner s.pool)
  thread_step-steps i j (leave o) in_runner s s' f e h =
      ground (arith, steps_of-after j.job_id o, total-move steps_left i j (after j.job_id o) s.pool)
  thread_step-steps i j settle (settling r) s s' f e h =
      ground (arith, total-move steps_left i j closing s.pool)
  thread_step-steps i j finish closing s s' f e h =
      ground (arith, total-remove_first steps_left (has_id i) j s.pool.live)
  thread_step-steps i j _ _ s s' f e h = cc

  act-steps : (i : ℕ) (a : Act R) (s s' : System R) → act i a s ≡ some s' → measure s' < measure s
  unfolding act
  act-steps i a s s' h = elim (Option-cases (find_first (has_id i) s.pool.live)) [
    | inl e ↦ cc
    | inr (j, e) ↦ thread_step-steps i j a j.phase s s' e refl (ground arith)
  ]

  launch-steps : (i : ℕ) (s s' : System R) → launch i s ≡ some s' → measure s' < measure s
  unfolding launch
  launch-steps i s s' h = elim (Option-cases (find_first (is_submission i) s.submissions)) [
    | inl e ↦ cc
    | inr (sub, e) ↦ ground (
      arith,
      total-snoc steps_left s.pool.live (new_job sub),
      length-remove_first (is_submission i) sub s.submissions,
    )
  ]

  abbrev pub is_submit : Event R → Bool
  is_submit (submit i k) = true
  is_submit _ = false

  -- How many steps of a schedule were enabled, the calls of `reap` left out.
  unfoldable pub taken : List (Event R) → System R → ℕ
  unfolding step
  taken [] s = 0
  taken (collect ∷ es) s = taken es (reap s)
  taken (e ∷ es) s = elim (step e s) [ none ↦ taken es s | some s' ↦ suc (taken es s') ]

  -- A job that is in its runner leaves it, and the others go on: some thread moves.
  can_move : R → (s : System R) → IsSound s → s.pool.live ≢ [] → CanMove s
  unfolding act thread_step
  can_move r s v n = elim (no_deadlock s v n) [
    | inr m ↦ m
    | inl w ↦
        let (j, f, above) = total_pos working s.pool.live w in
        let g =
          found_by_number (λ x. ltb 0 (working x)) j s.pool.live f
            (omega (arith, v.numbers j.job_id)) in
        (j.job_id, leave (returned r), λ h. ground (arith, g))
  ]

  abbrev pub IsDrained : System R → Type 0
  IsDrained s = (s.pool.live ≡ []) × (s.submissions ≡ [])

  -- One more step in front of a schedule.
  after_step :
      (e : Event R) (s s' : System R)
      → step e s ≡ some s'
      → (es : List (Event R)) × IsDrained (run es s')
      → (es : List (Event R)) × IsDrained (run es s)
  unfolding run
  after_step e s s' h (es, d) = (e ∷ es, rw (h, run) d)

  -- Nothing is left, or some step is enabled and brings the end nearer.
  next_step :
      R
      → (s : System R) → IsSound s
      → IsDrained s
        ⊎ ((e : Event R) × (s' : System R) × (step e s ≡ some s') × (measure s' < measure s))
  unfolding step
  next_step r s v = by_submissions s.submissions refl
    where
      by_live :
          s.submissions ≡ []
          → (live : List (Job R)) → s.pool.live ≡ live
          → IsDrained s
            ⊎ ((e : Event R) × (s' : System R) × (step e s ≡ some s') × (measure s' < measure s))
      by_live none_open [] e = inl (e, none_open)
      by_live none_open (j ∷ live) e =
          let (i, a, some_step) = can_move r s v (λ n. cc) in
          elim (Option-cases (act i a s)) [
            | inl n ↦ absurd (some_step n)
            | inr (s', h) ↦ inr (thread i a, s', h, act-steps i a s s' h)
          ]

      by_submissions :
          (subs : List Submission)
          → s.submissions ≡ subs
          → IsDrained s
            ⊎ ((e : Event R) × (s' : System R) × (step e s ≡ some s') × (measure s' < measure s))
      by_submissions [] e = by_live e s.pool.live refl
      by_submissions (sub ∷ subs) e = elim (Option-cases (launch sub.job_id s)) [
        | inl n ↦ absurd (unfold launch find_first in ground arith)
        | inr (s', h) ↦ inr (start sub.job_id, s', h, launch-steps sub.job_id s s' h)
      ]

  drain :
      R
      → (n : ℕ) (s : System R) → IsSound s
      → measure s < n
      → (es : List (Event R)) × IsDrained (run es s)
  unfolding run
  drain r zero s v le = absurd (omega arith)
  drain r (suc n) s v le = elim (next_step r s v) [
    | inl d ↦ ([], d)
    | inr (e, s', h, less) ↦
        after_step e s s' h (drain r n s' (step-IsSound e s s' h v) (omega arith))
  ]

  -- Each number from 1 to the last that was given out is that of exactly one receipt, in the pool or
  -- with a caller of `reap`, of one thread that left without a receipt, or of one call of `submit`
  -- that raised; and no thread and no call goes on.
  abbrev pub HasEnded : System R → Type 0
  HasEnded s =
      (s.pool.live ≡ [])
      × (s.submissions ≡ [])
      × ((i : ℕ)
          → total (of_number i) s.collected
              + total (of_number i) s.pool.finished
              + total (is_number i) s.exits
              + total (is_number i) s.refused
            ≡ (if leb 1 i && leb i s.pool.seq then 1 else 0))

  -- Wherever a pool stands after any interleaving, some steps bring it to its end if runners return:
  -- every thread ends, no call of `submit` stays open, and each number that was given out is that of
  -- exactly one receipt, thread without a receipt or call of `submit` that raised.
  pub every_job_ends :
      R
      → (n : ℕ) (es : List (Event R))
      → (more : List (Event R)) × HasEnded (run more (run es (new n)))
  unfolding total
  every_job_ends r n es =
      let s = run es (new n) in
      let (more, d) = drain r (suc (measure s)) s (run-new-IsSound n es) (omega arith) in
      let v = run-IsSound more s (run-new-IsSound n es) in
      (
        more,
        (
          d.0,
          d.1,
          λ i. omega (arith, v.ledger i, ap (total (owes i)) d.0, ap (total (sub_number i)) d.1),
        ),
      )

  -- Without new calls of `submit`, a schedule makes no more steps than the measure of its start.
  pub taken-le :
      (es : List (Event R)) (s : System R)
      → any is_submit es ≡ false
      → taken es s + measure (run es s) ≤ measure s
  unfolding taken run step reap
  taken-le [] s h = omega arith
  taken-le (collect ∷ es) s h = taken-le es (reap s) h
  taken-le (submit i k ∷ es) s h = cc
  taken-le (start i ∷ es) s h = elim (Option-cases (launch i s)) [
    | inl e ↦ rw (e, taken, run) (taken-le es s h)
    | inr (s', e) ↦ rw (e, taken, run) (omega (arith, launch-steps i s s' e, taken-le es s' h))
  ]
  taken-le (thread i a ∷ es) s h = elim (Option-cases (act i a s)) [
    | inl e ↦ rw (e, taken, run) (taken-le es s h)
    | inr (s', e) ↦ rw (e, taken, run) (omega (arith, act-steps i a s s' e, taken-le es s' h))
  ]
