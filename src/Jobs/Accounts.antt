-- ===== src/Jobs/Accounts.antt =====
-- orchestration/jobs.py: the accounts of the pool, by sums of weights over its jobs.
pub mod Steps
use discord_os.Prelude.{
  leb, ◌&&◌, ℕ, ◌+◌, ◌≤◌, ◌<◌, ◌≡◌, refl, ◌≢◌, Bool, Option, some, List, [], ◌∷◌, arith, nat_eq,
  ◌==◌, if◌then◌else◌, is_empty, total,
}
use discord_os.Text.{Text, text_eq, text_beq_iff}
use discord_os.Jobs.State.{
  Receipt, settled, failed, Phase, created, wants_slot, wants_lock, waits_lock, in_runner, settling,
  closing, Job, Submission, System, lock_of, set_lock, is_locked,
}
use discord_os.Jobs.Defs.{new}

abbrev pub is_number : ℕ → ℕ → ℕ
is_number i n = if n == i then 1 else 0

module _ {R : Type 0} where
  -- 1 for a job that has a slot.
  abbrev pub slot_of : Phase R → ℕ
  slot_of created = 0
  slot_of wants_slot = 0
  slot_of _ = 1

  abbrev pub slot : Job R → ℕ
  slot j = slot_of j.phase

  -- 1 for a job in its runner.
  abbrev pub in_runner_of : Phase R → ℕ
  in_runner_of in_runner = 1
  in_runner_of _ = 0

  -- 1 for a job in its runner under the write lock `key`.
  abbrev pub holds : Text → Job R → ℕ
  holds key j = if j.lock_name == key then in_runner_of j.phase else 0

  -- The job of a receipt.
  abbrev pub receipt_number : Receipt R → ℕ
  receipt_number (settled n r) = n
  receipt_number (failed n e) = n

  abbrev pub of_number : ℕ → Receipt R → ℕ
  of_number i r = is_number i (receipt_number r)

  -- 1 for the job `i` if its receipt, where it leaves one, is not yet in the pool's list; by its
  -- number until it has the receipt.
  abbrev pub owes_of : ℕ → ℕ → Phase R → ℕ
  owes_of i n closing = 0
  owes_of i n (settling r) = of_number i r
  owes_of i n _ = is_number i n

  abbrev pub owes : ℕ → Job R → ℕ
  owes i j = owes_of i j.job_id j.phase

  -- 1 for a job that waits for a write lock and has none to wait for.
  abbrev pub lost_of : Phase R → ℕ
  lost_of wants_lock = 1
  lost_of waits_lock = 1
  lost_of _ = 0

  abbrev pub lost : Job R → ℕ
  lost j = if is_empty j.lock_name then lost_of j.phase else 0

  abbrev pub has_number : ℕ → Job R → ℕ
  has_number i j = if j.job_id == i then 1 else 0

abbrev pub sub_number : ℕ → Submission → ℕ
sub_number i s = if s.job_id == i then 1 else 0

abbrev pub flag : Option Bool → ℕ
flag o = if is_locked o then 1 else 0

pub lock_of-set_lock :
    (key k : Text) (b : Bool) (m : List (Text × Bool))
    → lock_of k (set_lock key b m) ≡ (if key == k then some b else lock_of k m)
unfolding lock_of set_lock
lock_of-set_lock key k b [] = refl
lock_of-set_lock key k b ((j, c) ∷ m) =
    ground
      (arith, text_beq_iff key k, text_beq_iff j k, text_beq_iff j key, lock_of-set_lock key k b m)

module _ {R : Type 0} where
  -- In how many places a number is: the receipts that were collected and those in the pool, the
  -- live jobs that owe one, the open calls of `submit`, and the threads and the calls that left none.
  abbrev pub places : ℕ → System R → ℕ
  places i s =
      total (of_number i) s.collected
      + total (of_number i) s.pool.finished
      + total (owes i) s.pool.live
      + total (sub_number i) s.submissions
      + total (is_number i) s.exits
      + total (is_number i) s.refused

  -- `IsSound s`: slots, locks, receipts and numbers are accounted for.
  pub record IsSound (s : System R) : Type 0 where
    pub positive : 1 ≤ s.pool.max_live
    pub slots : s.pool.running ≡ total slot s.pool.live
    pub bounded : s.pool.running ≤ s.pool.max_live
    pub locks :
        (key : Text)
        → key ≢ []
        → total (holds key) s.pool.live ≡ flag (lock_of key s.pool.write_locks)
    pub named : total lost s.pool.live ≡ 0
    pub ledger : (i : ℕ) → places i s ≡ (if leb 1 i && leb i s.pool.seq then 1 else 0)
    pub numbers :
        (i : ℕ) → total (has_number i) s.pool.live + total (sub_number i) s.submissions ≤ 1
    pub fresh :
        (i : ℕ)
        → s.pool.seq < i
        → total (has_number i) s.pool.live + total (sub_number i) s.submissions ≡ 0

  pub new-IsSound : (n : ℕ) → IsSound (new {R = R} n)
  unfolding new total lock_of
  new-IsSound n = record {
    positive = omega arith;
    slots = refl;
    bounded = omega arith;
    locks = λ key h. refl;
    named = refl;
    ledger = λ i. ground arith;
    numbers = λ i. omega arith;
    fresh = λ i h. refl;
  }
