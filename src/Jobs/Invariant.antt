-- ===== src/Jobs/Invariant.antt =====
-- orchestration/jobs.py: what holds of the pool between two steps of any interleaving.
use discord_os.Prelude.{
  total, Option, Bool, if◌then◌else◌, ap, sym, ◌∙◌, ◌+◌, total-append, leb, ◌&&◌, none, ℕ, ◌+◌, ◌<◌,
  ◌≡◌, refl, subst, inl, inr, some, List, [], ◌∷◌, arith, Option-cases, find_first,
  total-remove_first, total-snoc,
}
use discord_os.Text.{Text}
use discord_os.Jobs.State.{needs_write_lock, Intake, System, is_submission, submission}
use discord_os.Jobs.Defs.{
  reserve_with, has_id, new, reserve, launch, new_job, Act, thread_step, act, reap, Event, submit,
  start, thread, collect, step, run,
}
use discord_os.Jobs.Accounts.{
  places, is_number, of_number, slot, holds, owes, lost, has_number, sub_number, IsSound,
  new-IsSound,
}
use discord_os.Jobs.Accounts.Steps.{
  thread_step-frame, thread_step-slots, thread_step-locks, thread_step-named, thread_step-ledger,
  thread_step-numbers,
}

next_number :
    (n seq : ℕ)
    → (if leb 1 n && leb n (seq + 1) then 1 else 0)
      ≡ (if leb 1 n && leb n seq then 1 else 0) + is_number n (seq + 1)
next_number n seq = ground arith

module _ {R : Type 0} where
  -- The places of a number after a step that leaves all but three of them.
  ledger_kept :
      (n : ℕ) (s s' : System R)
      → s'.pool.seq ≡ s.pool.seq
      → total (sub_number n) s'.submissions ≡ total (sub_number n) s.submissions
      → total (of_number n) s'.collected ≡ total (of_number n) s.collected
      → total (is_number n) s'.refused ≡ total (is_number n) s.refused
      → total (of_number n) s'.pool.finished
          + total (owes n) s'.pool.live
          + total (is_number n) s'.exits
        ≡ total (of_number n) s.pool.finished
          + total (owes n) s.pool.live
          + total (is_number n) s.exits
      → places n s ≡ (if leb 1 n && leb n s.pool.seq then 1 else 0)
      → places n s' ≡ (if leb 1 n && leb n s'.pool.seq then 1 else 0)
  ledger_kept n s s' e subs coll refused kept h =
      omega (arith, subs, coll, refused, kept, h)
      ∙ ap (λ q. if leb 1 n && leb n q then 1 else 0) (sym e)

  act-IsSound : (i : ℕ) (a : Act R) (s s' : System R) → act i a s ≡ some s' → IsSound s → IsSound s'
  unfolding act
  act-IsSound i a s s' h v = elim (Option-cases (find_first (has_id i) s.pool.live)) [
    | inl e ↦ cc
    | inr (j, e) ↦
        let r : thread_step i j a j.phase s ≡ some s' = ground arith in
        let (pos', slots', bound') = thread_step-slots i j a j.phase s s' e refl r v in
        let (seq', subs', coll', refused') = thread_step-frame i j a j.phase s s' r in
        record {
          positive = pos';
          slots = slots';
          bounded = bound';
          locks = λ key n. thread_step-locks i j a j.phase s s' e refl r key n (v.locks key n);
          named = thread_step-named i j a j.phase s s' e refl r v.named;
          ledger = λ n.
              ledger_kept n s s' seq' (ap (total (sub_number n)) subs')
                (ap (total (of_number n)) coll') (ap (total (is_number n)) refused')
                (thread_step-ledger i j a j.phase s s' e refl r n) (v.ledger n);
          numbers =
              λ n. ground (arith, v.numbers n, thread_step-numbers i j a j.phase s s' e refl r n);
          fresh =
              λ n big. ground (arith, v.fresh n, thread_step-numbers i j a j.phase s s' e refl r n);
        }
  ]

  reserve_with-IsSound :
      (o : Option Bool) (i : Intake) (k : Text) (s : System R)
      → IsSound s
      → IsSound (reserve_with o i k s)
  unfolding reserve_with
  reserve_with-IsSound none i k s v = record {
    positive = v.positive;
    slots = v.slots;
    bounded = v.bounded;
    locks = v.locks;
    named = v.named;
    ledger = λ n. omega (
      arith,
      v.ledger n,
      next_number n s.pool.seq,
      total-snoc (is_number n) s.refused (s.pool.seq + 1),
    );
    numbers = v.numbers;
    fresh = λ n h. v.fresh n (omega (arith, h));
  }
  reserve_with-IsSound (some locked) i k s v = record {
    positive = v.positive;
    slots = v.slots;
    bounded = v.bounded;
    locks = v.locks;
    named = v.named;
    ledger = λ n. omega (
      arith,
      v.ledger n,
      next_number n s.pool.seq,
      total-snoc (sub_number n) s.submissions (submission (s.pool.seq + 1) i k locked),
    );
    numbers = λ n. ground (
      arith,
      v.numbers n,
      v.fresh n,
      total-snoc (sub_number n) s.submissions (submission (s.pool.seq + 1) i k locked),
    );
    fresh = λ n h. ground (
      arith,
      v.fresh n,
      total-snoc (sub_number n) s.submissions (submission (s.pool.seq + 1) i k locked),
    );
  }

  reserve-IsSound : (i : Intake) (k : Text) (s : System R) → IsSound s → IsSound (reserve i k s)
  unfolding reserve
  reserve-IsSound i k s v = reserve_with-IsSound (needs_write_lock i) i k s v

  launch-IsSound : (i : ℕ) (s s' : System R) → launch i s ≡ some s' → IsSound s → IsSound s'
  unfolding launch
  launch-IsSound i s s' h v = elim (Option-cases (find_first (is_submission i) s.submissions)) [
    | inl e ↦ cc
    | inr (sub, e) ↦ record {
      positive = ground (arith, v);
      slots = ground (arith, v, total-snoc slot s.pool.live (new_job sub));
      bounded = ground (arith, v);
      locks =
          λ key n. ground (arith, v.locks key n, total-snoc (holds key) s.pool.live (new_job sub));
      named = ground (arith, v, total-snoc lost s.pool.live (new_job sub));
      ledger = λ n. ground (
        arith,
        v.ledger n,
        total-snoc (owes n) s.pool.live (new_job sub),
        total-remove_first (sub_number n) (is_submission i) sub s.submissions,
      );
      numbers = λ n. ground (
        arith,
        v.numbers n,
        total-snoc (has_number n) s.pool.live (new_job sub),
        total-remove_first (sub_number n) (is_submission i) sub s.submissions,
      );
      fresh = λ n big.
          let before : s.pool.seq < n = ground arith in
          ground (
            arith,
            v.fresh n before,
            total-snoc (has_number n) s.pool.live (new_job sub),
            total-remove_first (sub_number n) (is_submission i) sub s.submissions,
          );
    }
  ]

  reap-IsSound : (s : System R) → IsSound s → IsSound (reap s)
  unfolding reap total
  reap-IsSound s v = record {
    positive = v.positive;
    slots = v.slots;
    bounded = v.bounded;
    locks = v.locks;
    named = v.named;
    numbers = v.numbers;
    fresh = v.fresh;
    ledger = λ n. omega (arith, v.ledger n, total-append (of_number n) s.collected s.pool.finished);
  }

  -- Every step of every interleaving keeps the accounts.
  pub step-IsSound : (e : Event R) (s s' : System R) → step e s ≡ some s' → IsSound s → IsSound s'
  unfolding step
  step-IsSound (submit i k) s s' h v = subst IsSound (ground arith) (reserve-IsSound i k s v)
  step-IsSound (start i) s s' h v = launch-IsSound i s s' h v
  step-IsSound (thread i a) s s' h v = act-IsSound i a s s' h v
  step-IsSound collect s s' h v = subst IsSound (ground arith) (reap-IsSound s v)

  pub run-IsSound : (es : List (Event R)) (s : System R) → IsSound s → IsSound (run es s)
  unfolding run
  run-IsSound [] s v = v
  run-IsSound (e ∷ es) s v = elim (Option-cases (step e s)) [
    | inl n ↦ rw (n, run) (run-IsSound es s v)
    | inr (s', n) ↦ rw (n, run) (run-IsSound es s' (step-IsSound e s s' n v))
  ]

  -- A pool that starts empty stays sound, whatever is submitted and however its threads interleave.
  pub run-new-IsSound : (n : ℕ) (es : List (Event R)) → IsSound (run es (new n))
  run-new-IsSound n es = run-IsSound es (new n) (new-IsSound n)
