-- ===== src/Store/Queue/Unique.antt =====
-- persistence/sqlite.py: a message is queued once, and waits until it is marked.
use discord_os.Prelude.{
  ℕ, ◌≤◌, ◌≡◌, refl, sym, subst, inl, inr, Bool, true, false, ◌||◌, none, some, List, [], ◌∷◌,
  arith, nat_eq, ◌==◌, if◌then◌else◌, eq_self, Bool-cases, any, total, total-snoc,
}
use discord_os.Text.{Text, text_eq, text_beq_iff, strip}
use discord_os.Store.Queue.{
  Queued, QueueStatus, is_applied, is_dropped, queued_row, queue_id_of, insert_queued,
  enqueue_inbound, update_where, mark_inbound_status, mark_inbound_applied, mark_inbound_dropped,
}

-- How many rows there are of a message, and under a queue id.
unfoldable pub rows_of : Text → List Queued → ℕ
rows_of mid rows = total (λ r. if r.message_id == mid then 1 else 0) rows

unfoldable pub rows_under : Text → List Queued → ℕ
rows_under qid rows = total (λ r. if r.queue_id == qid then 1 else 0) rows

-- At most one row of each message and under each queue id.
abbrev pub IsUnique : List Queued → Type 0
IsUnique rows = (t : Text) → (rows_of t rows ≤ 1) × (rows_under t rows ≤ 1)

rows_of-update_where :
    (t : Text) (p : Queued → Bool) (status : QueueStatus) (rows : List Queued)
    → (rows_of t (update_where p status rows) ≡ rows_of t rows)
      × (rows_under t (update_where p status rows) ≡ rows_under t rows)
unfolding rows_of rows_under update_where total
rows_of-update_where t p status [] = (refl, refl)
rows_of-update_where t p status (r ∷ rows) =
    let rest = rows_of-update_where t p status rows in
    (ground (arith, rest.0), ground (arith, rest.1))

-- No row stands in the way of a new one.
no_conflict :
    (q m : Text) (rows : List Queued)
    → any (λ r. r.queue_id == q || r.message_id == m) rows ≡ false
    → (rows_of m rows ≡ 0) × (rows_under q rows ≡ 0)
unfolding rows_of rows_under total
no_conflict q m [] e = (refl, refl)
no_conflict q m (r ∷ rows) e =
    let rest = no_conflict q m rows (ground (arith, e)) in
    (ground (arith, e, rest.0), ground (arith, e, rest.1))

insert_queued-IsUnique :
    (row : Queued) (rows : List Queued) → IsUnique rows → IsUnique (insert_queued row rows).1
unfolding insert_queued rows_of rows_under
insert_queued-IsUnique row rows u t =
    elim (Bool-cases
      (any (λ r. r.queue_id == row.queue_id || r.message_id == row.message_id) rows)) [
        | inl e ↦ (ground (arith, e, (u t).0), ground (arith, e, (u t).1))
        | inr e ↦
            let free = no_conflict row.queue_id row.message_id rows e in
            (
              ground (
                arith,
                e,
                (u t).0,
                free.0,
                text_beq_iff row.message_id t,
                total-snoc (λ r. if r.message_id == t then 1 else 0) rows row,
              ),
              ground (
                arith,
                e,
                (u t).1,
                free.1,
                text_beq_iff row.queue_id t,
                total-snoc (λ r. if r.queue_id == t then 1 else 0) rows row,
              ),
            )
      ]

-- A call of the store, by any thread of any process.
pub data Call : Type 0 where
  enqueuing : Queued → Text → Call
  applying dropping : Text → Text → Call

unfoldable pub perform : Call → List Queued → List Queued
unfolding enqueue_inbound mark_inbound_applied mark_inbound_dropped
perform (enqueuing item fresh) rows = (enqueue_inbound item fresh rows).1
perform (applying queue_id message_id) rows = mark_inbound_applied queue_id message_id rows
perform (dropping queue_id message_id) rows = mark_inbound_dropped queue_id message_id rows

unfoldable pub perform_all : List Call → List Queued → List Queued
unfolding perform
perform_all [] rows = rows
perform_all (c ∷ calls) rows = perform_all calls (perform c rows)

mark-rows_of :
    (q : Text) (status : QueueStatus) (m t : Text) (rows : List Queued)
    → (rows_of t (mark_inbound_status q status m rows) ≡ rows_of t rows)
      × (rows_under t (mark_inbound_status q status m rows) ≡ rows_under t rows)
unfolding mark_inbound_status
mark-rows_of q status m t rows =
    let by_id = rows_of-update_where t (λ r. r.queue_id == strip q) status rows in
    let by_message = rows_of-update_where t (λ r. r.message_id == strip m) status rows in
    (ground (arith, by_id.0, by_message.0), ground (arith, by_id.1, by_message.1))

perform-IsUnique : (c : Call) (rows : List Queued) → IsUnique rows → IsUnique (perform c rows)
unfolding perform enqueue_inbound mark_inbound_applied mark_inbound_dropped
perform-IsUnique (enqueuing item fresh) rows u t =
    let inserted = insert_queued-IsUnique (queued_row item (queue_id_of item fresh)) rows u t in
    (ground (arith, (u t).0, inserted.0), ground (arith, (u t).1, inserted.1))
perform-IsUnique (applying q m) rows u t =
    let kept = mark-rows_of q is_applied m t rows in
    (ground (arith, (u t).0, kept.0), ground (arith, (u t).1, kept.1))
perform-IsUnique (dropping q m) rows u t =
    let kept = mark-rows_of q is_dropped m t rows in
    (ground (arith, (u t).0, kept.0), ground (arith, (u t).1, kept.1))

-- Whatever is called, in any order, the table holds each message once and each queue id once.
pub perform_all-IsUnique :
    (calls : List Call) (rows : List Queued) → IsUnique rows → IsUnique (perform_all calls rows)
unfolding perform_all
perform_all-IsUnique [] rows u = u
perform_all-IsUnique (c ∷ calls) rows u =
    perform_all-IsUnique calls (perform c rows) (perform-IsUnique c rows u)

insert_queued-grows :
    (row : Queued) (t : Text) (rows : List Queued)
    → rows_of t rows ≤ rows_of t (insert_queued row rows).1
unfolding insert_queued rows_of
insert_queued-grows row t rows =
    ground (arith, total-snoc (λ r. if r.message_id == t then 1 else 0) rows row)

perform-grows :
    (c : Call) (t : Text) (rows : List Queued) → rows_of t rows ≤ rows_of t (perform c rows)
unfolding perform enqueue_inbound mark_inbound_applied mark_inbound_dropped
perform-grows (enqueuing item fresh) t rows =
    ground (arith, insert_queued-grows (queued_row item (queue_id_of item fresh)) t rows)
perform-grows (applying q m) t rows = ground (arith, (mark-rows_of q is_applied m t rows).0)
perform-grows (dropping q m) t rows = ground (arith, (mark-rows_of q is_dropped m t rows).0)

perform_all-grows :
    (calls : List Call) (t : Text) (rows : List Queued)
    → rows_of t rows ≤ rows_of t (perform_all calls rows)
unfolding perform_all
perform_all-grows [] t rows = omega arith
perform_all-grows (c ∷ calls) t rows =
    omega (arith, perform-grows c t rows, perform_all-grows calls t (perform c rows))

conflict :
    (q m : Text) (rows : List Queued)
    → 1 ≤ rows_of m rows
    → any (λ r. r.queue_id == q || r.message_id == m) rows ≡ true
conflict q m rows h = elim (Bool-cases (any (λ r. r.queue_id == q || r.message_id == m) rows)) [
  | inl e ↦ e
  | inr e ↦ absurd (omega (arith, h, (no_conflict q m rows e).0))
]

-- A message that has a row is refused.
refused :
    (item : Queued) (fresh : Text) (rows : List Queued)
    → 1 ≤ rows_of (strip item.message_id) rows
    → (enqueue_inbound item fresh rows).0 ≡ none
unfolding enqueue_inbound insert_queued queued_row
refused item fresh rows h =
    ground (arith, conflict (queue_id_of item fresh) (strip item.message_id) rows h)

queued :
    (item : Queued) (fresh q : Text) (rows : List Queued)
    → (enqueue_inbound item fresh rows).0 ≡ some q
    → 1 ≤ rows_of (strip item.message_id) (enqueue_inbound item fresh rows).1
unfolding enqueue_inbound insert_queued queued_row rows_of
queued item fresh q rows h = ground (
  arith,
  h,
  eq_self (strip item.message_id),
  total-snoc (λ r. if r.message_id == strip item.message_id then 1 else 0) rows
      (queued_row item (queue_id_of item fresh)),
)

-- Once a message was queued, every later call that queues it again is refused, whatever calls are
-- made in between, those that mark it included.
pub enqueue_inbound-once :
    (item again : Queued) (fresh other q : Text) (calls : List Call) (rows : List Queued)
    → (enqueue_inbound item fresh rows).0 ≡ some q
    → strip again.message_id ≡ strip item.message_id
    → (enqueue_inbound again other (perform_all calls (enqueue_inbound item fresh rows).1)).0 ≡ none
enqueue_inbound-once item again fresh other q calls rows h e =
    let there = perform_all calls (enqueue_inbound item fresh rows).1 in
    let kept : 1 ≤ rows_of (strip item.message_id) there = omega (
      arith,
      queued item fresh q rows h,
      perform_all-grows calls (strip item.message_id) (enqueue_inbound item fresh rows).1,
    ) in
    refused again other there (subst (λ t. 1 ≤ rows_of t there) (sym e) kept)
