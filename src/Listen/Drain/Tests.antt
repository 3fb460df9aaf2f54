-- ===== src/Listen/Drain/Tests.antt =====
-- orchestration/listen.py: the asks of an operator and of somebody else.
use discord_os.Prelude.{◌≡◌, refl, ◌⊎◌, true, false, not, ◌&&◌, none, List, [], ◌∷◌, All, is_empty}
use discord_os.Text.{txt, text_beq, strip}
use discord_os.Operators.{author_may_dispatch}
use discord_os.Listen.Desk.{asks}
use discord_os.Store.Intake.{counting, claiming, perform_all}
use discord_os.Store.Intake.Waits.{is_pending, ends_wait}
use discord_os.Listen.Drain.{handle}
use discord_os.Listen.Drain.Authority.{IsIdle, handle-IsIdle}
use discord_os.Listen.Drain.Events.{Event, incoming, storing}
use discord_os.Listen.Drain.Durable.{ask_text, handle-waits}
use discord_os.Listen.Examples.{no_env, office, plain, ann_asks, bob_asks, with_ann}

-- Ann's ask is handed on.
ann_is_heard : (handle no_env office plain ann_asks with_ann).0 ≡ asks
unfolding handle text_beq
ann_is_heard = refl

bob_is_nobody :
    (with_ann.is_armed
      && not plain.is_halted
      && (author_may_dispatch bob_asks.author_id bob_asks.role_ids no_env plain.now
          with_ann.operators).0)
    ≡ false
unfolding author_may_dispatch text_beq
bob_is_nobody = refl

handle-IsIdle_example :
    let after = (handle no_env office plain bob_asks with_ann).1 in
    IsIdle with_ann after
    × ((after.schedules ≡ with_ann.schedules)
        ⊎ ((author_may_dispatch bob_asks.author_id bob_asks.role_ids no_env plain.now
              with_ann.operators).0
            ≡ true))
handle-IsIdle_example = handle-IsIdle no_env office plain bob_asks with_ann bob_is_nobody

abbrev day : List Event
day =
    incoming office plain ann_asks
    ∷ storing (counting (txt "1174000000000000001"))
    ∷ incoming office plain bob_asks
    ∷ incoming office plain ann_asks
    ∷ []

named : is_empty (strip ann_asks.message_id) ≡ false
unfolding strip
named = refl

worded : is_empty (strip (ask_text plain ann_asks)) ≡ false
unfolding strip
worded = refl

goes_on :
    All
      (λ c. ends_wait (strip ann_asks.message_id) c ≡ false)
      (counting (txt "1174000000000000001") ∷ claiming (txt "7") none ∷ [])
unfolding ends_wait strip text_beq
goes_on = (refl, (refl, tt))

handle-waits_example :
    is_pending (strip ann_asks.message_id) (
      perform_all
        (counting (txt "1174000000000000001") ∷ claiming (txt "7") none ∷ [])
        (handle no_env office plain ann_asks with_ann).1.messages)
    ≡ true
handle-waits_example =
    handle-waits no_env office plain ann_asks with_ann
      (counting (txt "1174000000000000001") ∷ claiming (txt "7") none ∷ []) ann_is_heard named
      worded goes_on
