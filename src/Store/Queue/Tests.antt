-- ===== src/Store/Queue/Tests.antt =====
-- persistence/sqlite.py: follow-ups of two threads.
use discord_os.Prelude.{
  ℕ, min, max, ◌≡◌, ◌↔◌, refl, true, none, List, [], ◌∷◌, ◌++◌, map, length, select, total,
}
use discord_os.Text.{Text, txt, text_beq}
use discord_os.Store.Queue.{Queued, is_queued, enqueue_inbound, list_queued_inbound, is_asked}
use discord_os.Store.Queue.Unique.{Call, enqueuing, applying, perform_all, enqueue_inbound-once}
use discord_os.Store.Queue.Order.{IsOrdered, Waits, list_queued_inbound-IsOrdered}

abbrev item : Text → Text → ℕ → Queued
item message_id thread_id created_ms = record {
  queue_id = [];
  message_id = message_id;
  channel_id = txt "4";
  thread_id = thread_id;
  run_id = [];
  workspace_id = [];
  author_id = txt "11";
  text = txt "and the docs";
  status = is_queued;
  created_ms = created_ms;
}

abbrev calls : List Call
calls =
    enqueuing (item (txt "m2") (txt "t1") 50) (txt "q2")
    ∷ applying [] (txt " m1")
    ∷ enqueuing (item (txt "m3") (txt "t1") 40) (txt "q3")
    ∷ []

listed :
    map
      (λ r. r.queue_id)
      (list_queued_inbound
        (txt "t1")
        20
        (perform_all (enqueuing (item (txt "m1") (txt "t1") 30) (txt "q1") ∷ calls) []))
    ≡ txt "q3" ∷ txt "q2" ∷ []
unfolding list_queued_inbound perform_all text_beq
listed = refl

enqueue_inbound-once_example :
    (enqueue_inbound
      (item (txt " m1") (txt "t2") 90)
      (txt "q9")
      (perform_all calls (enqueue_inbound (item (txt "m1") (txt "t1") 30) (txt "q1") []).1)).0
    ≡ none
unfolding enqueue_inbound text_beq
enqueue_inbound-once_example =
    enqueue_inbound-once (item (txt "m1") (txt "t1") 30) (item (txt " m1") (txt "t2") 90) (txt "q1")
      (txt "q9") (txt "q1") calls [] refl refl

abbrev rows : List Queued
rows =
    item (txt "m2") (txt "t1") 50
    ∷ item (txt "m3") (txt "t1") 40
    ∷ item (txt "m4") (txt "t2") 10
    ∷ []

list_queued_inbound-IsOrdered_example :
    ((rest : List Queued) × IsOrdered (list_queued_inbound (txt "t1") 1 rows ++ rest)
      × ((w : Queued → ℕ)
          → total w (list_queued_inbound (txt "t1") 1 rows ++ rest)
            ≡ total w (select (is_asked (txt "t1")) rows)))
    × (length (list_queued_inbound (txt "t1") 1 rows)
        ≡ min (max 1 (min 1 50)) (length (select (is_asked (txt "t1")) rows)))
    × ((r : Queued) → (is_asked (txt "t1") r ≡ true) ↔ Waits (txt "t1") r)
list_queued_inbound-IsOrdered_example = list_queued_inbound-IsOrdered (txt "t1") 1 rows
