-- ===== src/Lib.antt =====
-- Discord OS runs asks that people post in Discord channels on one machine: an ask becomes a
-- task, a job of the pool cooks it, gates park what needs a person's word, and cards show where
-- it stands. This library models the parts of that program whose rules are its own, file by file,
-- under src/agent_discord/ of the repository.
--
-- - Prelude, Text, Table: Boolean tests, lists and sums of weights; Python's texts as lists of
--   code points with the methods that the program uses; a SQLite table as the list of its rows.
-- - Routing: orchestration/routing.py, the choice between a read-only answer, a writing worker
--   and a swarm (`compute_dispatch_mode`, `swarm_worker_count`).
-- - Jobs: orchestration/jobs.py, `JobPool`. Each critical section under the pool's lock, and each
--   wait outside it, is one step; a schedule is a list of events, so a theorem over all lists is
--   one over all interleavings. Jobs.State has the state, with two things that the code does not
--   keep: the number of its job beside each receipt, and the numbers that calls of `submit` took
--   before they raised; Jobs.Defs the steps, Jobs.Accounts the sums over jobs that are kept,
--   Jobs.Invariant that every step keeps them, Jobs.Guarantees, Jobs.Progress and Jobs.Drain what
--   follows for users of the pool, Jobs.Threads the list of live Discord threads.
-- - Research.Leases: persistence/research.py, the leases on research fingerprints, in
--   microseconds with the whole seconds that the table stores.
-- - Gateway.Owners: discord/gateway.py and the ownership rows of persistence/sqlite.py.
--   Gateway.Health: discord/gateway_health.py.
-- - Rest: discord/rest.py, the rate limiter and the retry loop `_discord_request_bytes`.
-- - Store.Intake: the tables of persistence/sqlite.py for claimed messages and for those that
--   wait for their task (`claim_inbound_message`, `record_pending_intake`); a list of calls
--   stands for what threads and processes do in turn. Store.Queue: the table of follow-ups to
--   live threads (`enqueue_inbound`, `list_queued_inbound`), whose rows are listed as by SQLite's
--   ORDER BY.
-- - Hold: orchestration/orchestrator.py, a run that waits at a gate. Hold.Plan decides what
--   counts as a plan that is ready (orchestration/plan_approve.py), Hold.Parked raises a gate for
--   a tool, a question or a plan (`raise_tool_gate`, `raise_ask_user`, `raise_plan_approve`),
--   Hold.Resolve answers it (`_resolve_tool_gate`, `_resolve_plan_gate`, `_finish_gate`), and
--   Hold.Actions has the buttons (`apply_job_action`), with an abstract gate that they implement
--   in Hold.Actions.Refines. Hold.Wait is the side of the worker (orchestration/gate_hook.py):
--   `hold_tool_decision` and `hold_plan_decision` ask the policy, raise the gate and wait in
--   rounds, each a reading of the clock with the buttons pressed since the last. Hold.Expiry
--   denies parked runs that nobody answers (`expire_parked_approvals` of
--   orchestration/service.py), and Hold.Drain is a pass of the host over a request of another
--   process (`drain_gate_queue`).
-- - Operators: the allowlist of persistence/sqlite.py (`add_operator`, `add_operator_role`,
--   `is_operator`) and the questions of orchestration/service.py (`author_may_dispatch`,
--   `author_may_operate`, `require_operators`); Operators.Gatekeeping is about attempts in turn,
--   Operators.Calls about the calls that change the tables.
-- - Listen: orchestration/listen.py, how messages come in. Listen.Watermark is how far a channel
--   was read and which messages are newer (`_watermark_after`, `_inbound_newer_than_watermark`),
--   Listen.Commands the commands that a message may begin with, and Listen.Drain what
--   `drain_inbound` does with one message, over the store and the allowlist above, with each job
--   that is handed on beside the message that it came from; what the parsers and switches that
--   are left out say of a message is a `Scene`, whatever it is. Listen.Drain.Events lets
--   listeners and other users of the store take turns (the replay of pending intakes when a
--   listener starts, `replay_pending_intakes`, is left out), and Listen.Backlog is the loop over
--   a batch, which comes sorted.
-- - Github: orchestration/github_wake.py, the events of a pull request (`wake_events`,
--   `_trusted_note`), and orchestration/github_rules.py, what the rules run for them
--   (`admit_github_rules`), with the tables of persistence/sqlite.py that they use; what the
--   tasks, the workers and Discord answer is a record of functions.
-- - Lineage: orchestration/lineage.py, the nodes of a run and what is to be replayed after an
--   edit. Chunking: discord/chunking.py, a long text in messages. Redaction: redaction.py, the
--   filter of nested payloads.
-- - Gate: orchestration/ask_gate.py and the grants of orchestration/service.py. Gate.Classes maps
--   a tool's name to its class (`normalize_tool_class`), Gate.Scope is what a shell grant
--   remembers (`shell_always_scope`), Gate.Preferences the host's preferences with the write
--   gate, Gate.Grants the three kinds of "Always allow" and their end by time or by HOST Off
--   (Gate.Grants.Asked is what a question about them finds and leaves), and Gate.Decision
--   `tool_class_decision`, which asks the grants and hands on the preferences that they change.
--   Gate.Buttons has the ids of a question's buttons (`ask_custom_id`), Gate.Selection the
--   options that were selected (`coerce_selected_indices`), and Gate.Spoken what a person says to
--   a gate or about a plan (`parse_spoken_gate_verb`, and `parse_spoken_plan_verb` of
--   orchestration/plan_approve.py).
--
-- Numbers are natural numbers; times are whole milliseconds (microseconds in Research.Leases,
-- seconds in Gate) where the code has floats, and 0 stands for a time that was never noted, as in
-- the code. Text methods follow Python on ASCII, on Python's white space, and on the two other
-- characters whose lower case begins with an ASCII letter; case of other scripts is left as it
-- is, and their digits too, except in Routing, which reads them as `str.isdigit` and `int` do.
-- What the operating system and the network answer is an argument: whether a process has gone,
-- the reply to each request, and what the regular expressions of redaction make of a value.
-- Failures of the database itself are not modelled.
--
-- Of a run at a gate the model has what the gates read and write; cards, presence, spoken
-- summaries and the interruption of a live cook are left out, and of an approved intake it has
-- only that it is handed on. Of a message that comes in the model has what reaches the job pool,
-- the queue of follow-ups, the schedules, the board's claims and the tables of messages and
-- operators; posts to Discord and the handlers of the other commands are left out.
--
-- Four functions run on fuel. `str_of` has more than there are digits, so that `int_of` reads the
-- number back (Text.Number.RoundTrip). The retry loop of Rest has six rounds, which always
-- suffice since each round but the last uses up one of two transient or three rate-limit retries.
-- The worklist of `descendants_to_replay` has a round for each node that it may visit and for
-- each that these may add. The loop of `chunk_message` has as many rounds as the text has
-- characters, and each round takes at least one.
pub mod Chunking
pub mod Gate
pub mod Gateway
pub mod Github
pub mod Hold
pub mod Jobs
pub mod Lineage
pub mod Listen
pub mod Operators
pub mod Prelude
pub mod Redaction
pub mod Research
pub mod Rest
pub mod Routing
pub mod Store
pub mod Table
pub mod Text
