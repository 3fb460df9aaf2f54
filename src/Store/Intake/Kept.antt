-- ===== src/Store/Intake/Kept.antt =====
-- persistence/sqlite.py: a message is claimed once.
use discord_os.Prelude.{
  ◌≡◌, Bool, true, false, Option, none, some, List, [], ◌∷◌, nat_eq, is_empty, arith, inl, inr,
  Option-cases,
}
use discord_os.Text.{Text, text_eq, text_beq_iff, strip}
use discord_os.Table.{row_of, row_of-upsert}
use discord_os.Store.Intake.{
  Seen, Messages, seen_key, pending_key, new_seen, coalesce, insert_seen, claim_inbound_message,
  update_seen, bind_inbound_message, record_pending_intake, clear_pending_intake, note_attempt,
  note_pending_intake_attempt, Call, claiming, binding, recording, clearing, counting, perform,
  perform_all,
}

abbrev pub is_some {ℓ} : {A : Type ℓ} → Option A → Bool
is_some none = false
is_some (some a) = true

-- Whether there is a row for a message.
abbrev pub is_seen : Text → Messages → Bool
is_seen message_id m = is_some (row_of seen_key message_id m.seen)

-- A message that was seen stays so through each operation.
pub claim-is_seen :
    (mid k : Text) (channel : Option Text) (m : Messages)
    → is_seen k m ≡ true
    → is_seen k (claim_inbound_message mid channel m).1 ≡ true
unfolding claim_inbound_message insert_seen
claim-is_seen mid k channel m h = elim (Option-cases (row_of seen_key mid m.seen)) [
  | inl e ↦
      ground
        (arith, e, h, text_beq_iff mid k, row_of-upsert seen_key (new_seen mid channel) k m.seen)
  | inr (row, e) ↦ ground (arith, e, h)
]

pub claimed-is_seen :
    (mid : Text) (channel : Option Text) (m : Messages)
    → is_empty mid ≡ false
    → is_seen mid (claim_inbound_message mid channel m).1 ≡ true
unfolding claim_inbound_message insert_seen
claimed-is_seen mid channel m n = elim (Option-cases (row_of seen_key mid m.seen)) [
  | inl e ↦
      ground (
        arith,
        e,
        n,
        text_beq_iff mid mid,
        row_of-upsert seen_key (new_seen mid channel) mid m.seen,
      )
  | inr (row, e) ↦ ground (arith, e, n)
]

bound : Text → Text → Option Text → Seen → Seen
bound task run channel row = record row {
  channel_id = coalesce channel row.channel_id;
  task_id = some task;
  run_id = some run;
}

bind-is_seen :
    (mid task run k : Text) (channel : Option Text) (m : Messages)
    → is_seen k m ≡ true
    → is_seen k (bind_inbound_message mid task run channel m) ≡ true
unfolding bind_inbound_message update_seen bound
bind-is_seen mid task run k channel m h = elim (Option-cases (row_of seen_key mid m.seen)) [
  | inl e ↦ ground (arith, e, h)
  | inr (row, e) ↦ ground (
    arith,
    e,
    h,
    text_beq_iff row.message_id k,
    row_of-upsert seen_key (bound task run channel row) k m.seen,
  )
]

pub perform-is_seen :
    (c : Call) (k : Text) (m : Messages) → is_seen k m ≡ true → is_seen k (perform c m) ≡ true
unfolding perform record_pending_intake clear_pending_intake note_pending_intake_attempt
    note_attempt
perform-is_seen (claiming mid channel) k m h = claim-is_seen mid k channel m h
perform-is_seen (binding mid task run channel) k m h = bind-is_seen mid task run k channel m h
perform-is_seen (recording i now) k m h = ground (arith, h)
perform-is_seen (clearing mid) k m h = ground (arith, h)
perform-is_seen (counting mid) k m h =
    elim (Option-cases (row_of pending_key (strip mid) m.pending)) [
      | inl e ↦ ground (arith, e, h)
      | inr (row, e) ↦ ground (arith, e, h)
    ]

pub perform_all-is_seen :
    (calls : List Call) (k : Text) (m : Messages)
    → is_seen k m ≡ true
    → is_seen k (perform_all calls m) ≡ true
unfolding perform_all
perform_all-is_seen [] k m h = h
perform_all-is_seen (c ∷ calls) k m h =
    perform_all-is_seen calls k (perform c m) (perform-is_seen c k m h)

pub claim-seen :
    (mid : Text) (channel : Option Text) (m : Messages)
    → is_empty mid ≡ false
    → is_seen mid m ≡ true
    → claim_inbound_message mid channel m ≡ (false, m)
unfolding claim_inbound_message insert_seen
claim-seen mid channel m n h = elim (Option-cases (row_of seen_key mid m.seen)) [
  | inl e ↦ ground (arith, e, h)
  | inr (row, e) ↦ ground (arith, e, n)
]

-- Once a message was claimed, every later claim of it is refused and changes nothing, whatever
-- calls are made in between.
pub claim_inbound_message-once :
    (message_id : Text) (channel_id other : Option Text) (calls : List Call) (m : Messages)
    → is_empty message_id ≡ false
    → let later = perform_all calls (claim_inbound_message message_id channel_id m).1 in
      claim_inbound_message message_id other later ≡ (false, later)
claim_inbound_message-once message_id channel_id other calls m n =
    claim-seen message_id other _ n
      (perform_all-is_seen calls message_id _ (claimed-is_seen message_id channel_id m n))
