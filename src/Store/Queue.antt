-- ===== src/Store/Queue.antt =====
-- persistence/sqlite.py: follow-ups that wait in the table `inbound_queue` for the run of their
-- thread.
pub mod Unique
pub mod Order
mod Tests
use discord_os.Prelude.{
  ℕ, min, max, Bool, true, false, not, ◌&&◌, ◌||◌, Option, none, some, List, [], ◌∷◌, ◌++◌, ltb,
  nat_eq, ◌==◌, if◌then◌else◌, take, is_empty, any, select,
}
use discord_os.Text.{Text, text_eq, strip}
use discord_os.Store.Intake.{workspace_of}

pub data QueueStatus : Type 0 where
  is_queued is_applied is_dropped : QueueStatus

-- A row of `inbound_queue`.
pub record Queued : Type 0 where
  pub queue_id : Text
  pub message_id : Text
  pub channel_id : Text
  pub thread_id : Text
  pub run_id : Text
  pub workspace_id : Text
  pub author_id : Text
  pub text : Text
  pub status : QueueStatus
  pub created_ms : ℕ

-- What is written of an item.
unfoldable pub queued_row : Queued → Text → Queued
unfolding strip workspace_of
queued_row item queue_id = record {
  queue_id = queue_id;
  message_id = strip item.message_id;
  channel_id = strip item.channel_id;
  thread_id = strip item.thread_id;
  run_id = strip item.run_id;
  workspace_id = workspace_of item.workspace_id;
  author_id = strip item.author_id;
  text = strip item.text;
  status = is_queued;
  created_ms = item.created_ms;
}

-- The id that is asked for, or else a fresh one.
unfoldable pub queue_id_of : Queued → Text → Text
unfolding strip
queue_id_of item fresh = if is_empty (strip item.queue_id) then fresh else strip item.queue_id

unfoldable pub is_incomplete : Queued → Bool
unfolding strip
is_incomplete item =
    is_empty (strip item.message_id)
    || is_empty (strip item.thread_id)
    || is_empty (strip item.channel_id)
    || is_empty (strip item.text)

-- The INSERT, which raises IntegrityError where one of the two ids is there already.
unfoldable pub insert_queued : Queued → List Queued → Option Text × List Queued
insert_queued row rows =
    if any (λ r. r.queue_id == row.queue_id || r.message_id == row.message_id) rows
    then (none, rows)
    else (some row.queue_id, rows ++ row ∷ [])

-- enqueue_inbound; the status of the item is not read
unfoldable pub enqueue_inbound : Queued → Text → List Queued → Option Text × List Queued
unfolding is_incomplete insert_queued queued_row queue_id_of
enqueue_inbound item fresh rows =
    if is_incomplete item
    then (none, rows)
    else insert_queued (queued_row item (queue_id_of item fresh)) rows

-- UPDATE inbound_queue SET status=? WHERE …
unfoldable pub update_where : (Queued → Bool) → QueueStatus → List Queued → List Queued
update_where p status [] = []
update_where p status (r ∷ rows) =
    let rest = update_where p status rows in
    if p r then record r { status = status } ∷ rest else r ∷ rest

-- _mark_inbound_status
unfoldable pub mark_inbound_status : Text → QueueStatus → Text → List Queued → List Queued
unfolding strip update_where
mark_inbound_status queue_id status message_id rows =
    if is_empty (strip queue_id) && is_empty (strip message_id)
    then rows
    else if not (is_empty (strip queue_id))
    then update_where (λ r. r.queue_id == strip queue_id) status rows
    else update_where (λ r. r.message_id == strip message_id) status rows

-- mark_inbound_applied
unfoldable pub mark_inbound_applied : Text → Text → List Queued → List Queued
unfolding mark_inbound_status
mark_inbound_applied queue_id message_id rows =
    mark_inbound_status queue_id is_applied message_id rows

-- mark_inbound_dropped
unfoldable pub mark_inbound_dropped : Text → Text → List Queued → List Queued
unfolding mark_inbound_status
mark_inbound_dropped queue_id message_id rows =
    mark_inbound_status queue_id is_dropped message_id rows

-- The order of texts in SQLite, by code points.
unfoldable pub text_leb : Text → Text → Bool
text_leb [] t = true
text_leb (c ∷ s) [] = false
text_leb (c ∷ s) (d ∷ t) = let rest = text_leb s t in if c == d then rest else ltb c d

-- ORDER BY created_ms ASC, queue_id ASC
unfoldable pub comes_before : Queued → Queued → Bool
unfolding text_leb
comes_before a b =
    if a.created_ms == b.created_ms
    then text_leb a.queue_id b.queue_id
    else ltb a.created_ms b.created_ms

unfoldable pub insert_by : Queued → List Queued → List Queued
unfolding comes_before
insert_by row [] = row ∷ []
insert_by row (r ∷ rows) =
    let rest = insert_by row rows in if comes_before row r then row ∷ r ∷ rows else r ∷ rest

unfoldable pub sort_queued : List Queued → List Queued
unfolding insert_by
sort_queued [] = []
sort_queued (r ∷ rows) = insert_by r (sort_queued rows)

unfoldable pub is_open : QueueStatus → Bool
is_open is_queued = true
is_open is_applied = false
is_open is_dropped = false

-- The rows that are asked for: those of one thread, or of all where none is named.
unfoldable pub is_asked : Text → Queued → Bool
unfolding is_open strip
is_asked thread_id r =
    is_open r.status && (is_empty (strip thread_id) || r.thread_id == strip thread_id)

-- list_queued_inbound; a limit below 0 is read as 0 is
unfoldable pub list_queued_inbound : Text → ℕ → List Queued → List Queued
unfolding is_asked sort_queued
list_queued_inbound thread_id limit rows =
    take (max 1 (min limit 50)) (sort_queued (select (is_asked thread_id) rows))
