-- ===== src/Jobs/Tests.antt =====
-- orchestration/jobs.py and routing.py: two writers on one checkout, and the theorems there.
use discord_os.Prelude.{
  some, leb, ◌&&◌, if◌then◌else◌, ◌+◌, ◌≤◌, String, ◌≡◌, refl, false, none, List, [], ◌∷◌, map,
  total, find_first, replace_first, remove_first,
}
use discord_os.Text.{Text, txt, text_beq, strip, lower, split, contains}
use discord_os.Routing.{analyze, implement, swarm, compute_dispatch_mode, swarm_worker_count}
use discord_os.Jobs.State.{Intake, waits_lock, in_runner, Job, lock_of, set_lock, exited}
use discord_os.Jobs.Defs.{
  new, reserve, launch, begin, take_slot, find_lock, take_lock, finish, leave, thread_step, act,
  Event, submit, start, thread, collect, run,
}
use discord_os.Jobs.Accounts.{is_number, of_number, sub_number, holds, owes, has_number}
use discord_os.Jobs.Progress.{working}
use discord_os.Jobs.Guarantees.{one_writer, run-le-max_live, receipts_accounted}
use discord_os.Jobs.Drain.{every_job_ends, HasEnded}

abbrev ask : String → Intake
ask text = record {
  text = txt text;
  channel_id = txt "c1";
  thread_id = txt " t1 ";
  eval = false;
  workers = none;
}

abbrev question : Intake
question = ask "what is this?"

abbrev checkout : Text
checkout = txt "/repo"

-- Two asks that write to one checkout; the second waits for the first.
abbrev two_writers : List (Event Text)
two_writers =
    submit (ask "fix the build") checkout
    ∷ submit (ask "swarm 4 on it") checkout
    ∷ start 1
    ∷ start 2
    ∷ thread 1 begin
    ∷ thread 2 begin
    ∷ thread 1 take_slot
    ∷ thread 2 take_slot
    ∷ thread 1 find_lock
    ∷ thread 1 take_lock
    ∷ thread 2 find_lock
    ∷ thread 2 take_lock
    ∷ []

modes :
    (compute_dispatch_mode (txt "Fix the build") ≡ some implement)
    × (compute_dispatch_mode (txt "audit this, 7 ways") ≡ some swarm)
    × (compute_dispatch_mode (txt "what is this?") ≡ some analyze)
    × (compute_dispatch_mode (txt "change src\\main.py") ≡ some implement)
    × (swarm_worker_count (txt "audit this, 7 ways") none ≡ some 5)
    × (swarm_worker_count (txt "audit this") none ≡ some 3)
unfolding compute_dispatch_mode swarm_worker_count strip lower contains split
    discord_os.Text.replace_char discord_os.Text.Number.int_of
modes = (refl, refl, refl, refl, refl, refl)

-- The second job waits for the lock that the first holds.
second_waits :
    map (λ (j : Job Text). j.phase) (run two_writers (new 2)).pool.live
    ≡ in_runner ∷ waits_lock ∷ []
unfolding run new reserve launch act thread_step lock_of set_lock compute_dispatch_mode
    swarm_worker_count strip lower contains split discord_os.Text.replace_char
    discord_os.Text.Number.int_of text_beq find_first replace_first remove_first
second_waits = refl

one_writer_example : total (holds checkout) (run two_writers (new 2)).pool.live ≤ 1
one_writer_example = one_writer 2 two_writers checkout (λ e. cc)

run-le-max_live_example : total working (run two_writers (new 2)).pool.live ≤ 2
run-le-max_live_example = run-le-max_live 2 two_writers

receipts_accounted_example :
    let s = run two_writers (new 2) in
    (total (of_number 2) s.collected
        + total (of_number 2) s.pool.finished
        + total (owes 2) s.pool.live
        + total (sub_number 2) s.submissions
        + total (is_number 2) s.exits
        + total (is_number 2) s.refused
      ≡ (if leb 1 2 && leb 2 s.pool.seq then 1 else 0))
    × (total (has_number 2) s.pool.live ≤ 1)
receipts_accounted_example = receipts_accounted 2 two_writers 2

every_job_ends_example : (more : List (Event Text)) × HasEnded (run more (run two_writers (new 2)))
every_job_ends_example = every_job_ends (txt "done") 2 two_writers

abbrev ending : List (Event Text)
ending = thread 1 (leave exited) ∷ collect ∷ thread 1 finish ∷ thread 2 take_lock ∷ []
