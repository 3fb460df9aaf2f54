-- ===== src/Store/Intake/Waits.antt =====
-- persistence/sqlite.py: a recorded message waits for its task until it has one.
use discord_os.Prelude.{
  ℕ, suc, ◌≡◌, refl, Bool, true, false, Option, none, some, List, [], ◌∷◌, nat_eq, ◌==◌, is_empty,
  arith, All, inl, inr, Option-cases,
}
use discord_os.Text.{Text, text_eq, text_beq_iff, strip}
use discord_os.Table.{row_of, row_of-upsert, row_of-delete}
use discord_os.Store.Intake.{
  Intake, Pending, Messages, seen_key, pending_key, pending_of, insert_seen, claim_inbound_message,
  bind_inbound_message, stripped, pending_row, record_pending_intake, clear_pending_intake,
  note_attempt, note_pending_intake_attempt, Call, claiming, binding, recording, clearing, counting,
  perform, perform_all,
}
use discord_os.Store.Intake.Kept.{is_some}

-- Whether a message waits for its task.
abbrev pub is_pending : Text → Messages → Bool
is_pending message_id m = is_some (row_of pending_key message_id m.pending)

-- Whether a call ends the wait of a message: it binds the message to a task, or clears it.
unfoldable pub ends_wait : Text → Call → Bool
ends_wait k (claiming mid channel) = false
ends_wait k (binding mid task run channel) = mid == k
ends_wait k (recording i now) = false
ends_wait k (clearing mid) = strip mid == k
ends_wait k (counting mid) = false

counted : Pending → Pending
counted row = record row { attempts = suc row.attempts }

count-is_pending :
    (mid k : Text) (m : Messages)
    → is_pending k m ≡ true
    → is_pending k (note_pending_intake_attempt mid m).1 ≡ true
unfolding note_pending_intake_attempt note_attempt counted
count-is_pending mid k m h = elim (Option-cases (row_of pending_key (strip mid) m.pending)) [
  | inl e ↦ ground (arith, e, h)
  | inr (row, e) ↦ ground (
    arith,
    e,
    h,
    text_beq_iff row.intake.message_id k,
    row_of-upsert pending_key (counted row) k m.pending,
  )
]

row_key :
    (i : Intake) (now : ℕ) (old : Option Pending)
    → pending_key (pending_row (stripped i) now old) ≡ strip i.message_id
unfolding pending_row stripped
row_key i now none = refl
row_key i now (some row) = refl

record-is_pending :
    (i : Intake) (now : ℕ) (k : Text) (m : Messages)
    → is_pending k m ≡ true
    → is_pending k (record_pending_intake i now m) ≡ true
unfolding record_pending_intake
record-is_pending i now k m h = ground (
  arith,
  h,
  text_beq_iff
      (pending_key
        (pending_row (stripped i) now (row_of pending_key (strip i.message_id) m.pending)))
      k,
  row_of-upsert pending_key
      (pending_row (stripped i) now (row_of pending_key (strip i.message_id) m.pending)) k
      m.pending,
)

recorded-is_pending :
    (i : Intake) (now : ℕ) (m : Messages)
    → is_empty (strip i.message_id) ≡ false
    → is_empty (strip i.text) ≡ false
    → is_pending (strip i.message_id) (record_pending_intake i now m) ≡ true
unfolding record_pending_intake
recorded-is_pending i now m n t = ground (
  arith,
  n,
  t,
  row_key i now (row_of pending_key (strip i.message_id) m.pending),
  text_beq_iff (strip i.message_id) (strip i.message_id),
  row_of-upsert pending_key
      (pending_row (stripped i) now (row_of pending_key (strip i.message_id) m.pending))
      (strip i.message_id) m.pending,
)

perform-is_pending :
    (c : Call) (k : Text) (m : Messages)
    → is_pending k m ≡ true
    → ends_wait k c ≡ false
    → is_pending k (perform c m) ≡ true
unfolding perform ends_wait claim_inbound_message insert_seen bind_inbound_message
    clear_pending_intake
perform-is_pending (claiming mid channel) k m h f =
    elim (Option-cases (row_of seen_key mid m.seen)) [
      | inl e ↦ ground (arith, e, h)
      | inr (row, e) ↦ ground (arith, e, h)
    ]
perform-is_pending (binding mid task run channel) k m h f =
    ground (arith, h, f, text_beq_iff mid k, row_of-delete pending_key mid k m.pending)
perform-is_pending (recording i now) k m h f = record-is_pending i now k m h
perform-is_pending (clearing mid) k m h f =
    ground
      (arith, h, f, text_beq_iff (strip mid) k, row_of-delete pending_key (strip mid) k m.pending)
perform-is_pending (counting mid) k m h f = count-is_pending mid k m h

perform_all-is_pending :
    (calls : List Call) (k : Text) (m : Messages)
    → is_pending k m ≡ true
    → All (λ c. ends_wait k c ≡ false) calls
    → is_pending k (perform_all calls m) ≡ true
unfolding perform_all
perform_all-is_pending [] k m h a = h
perform_all-is_pending (c ∷ calls) k m h (f, more) =
    perform_all-is_pending calls k (perform c m) (perform-is_pending c k m h f) more

bound-waits_no_longer :
    (mid task run : Text) (channel : Option Text) (m : Messages)
    → is_empty mid ≡ false
    → pending_of mid (bind_inbound_message mid task run channel m) ≡ none
unfolding pending_of bind_inbound_message
bound-waits_no_longer mid task run channel m n =
    ground (arith, n, text_beq_iff mid mid, row_of-delete pending_key mid mid m.pending)

-- A message that was recorded waits through all calls that neither bind nor clear it, and waits no
-- longer once it is bound.
pub record_pending_intake-waits :
    (i : Intake) (now : ℕ) (calls : List Call) (m : Messages) (task_id run_id : Text)
    (channel_id : Option Text)
    → is_empty (strip i.message_id) ≡ false
    → is_empty (strip i.text) ≡ false
    → All (λ c. ends_wait (strip i.message_id) c ≡ false) calls
    → let later = perform_all calls (record_pending_intake i now m) in
      (is_pending (strip i.message_id) later ≡ true)
      × (pending_of
            (strip i.message_id)
            (bind_inbound_message (strip i.message_id) task_id run_id channel_id later)
          ≡ none)
record_pending_intake-waits i now calls m task_id run_id channel_id n t a = (
  perform_all-is_pending calls (strip i.message_id) _ (recorded-is_pending i now m n t) a,
  bound-waits_no_longer (strip i.message_id) task_id run_id channel_id _ n,
)
