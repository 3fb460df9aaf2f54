-- ===== src/Listen/Backlog/Tests.antt =====
-- orchestration/listen.py: two messages, drained twice.
use discord_os.Prelude.{◌≡◌, refl, inl, some, List, [], ◌∷◌}
use discord_os.Text.{text_beq}
use discord_os.Text.Number.{pos, int_of}
use discord_os.Listen.Watermark.{Watermark, mark}
use discord_os.Listen.Backlog.{Inbound, drain_inbound}
use discord_os.Listen.Backlog.Twice.{drain_inbound-twice}
use discord_os.Listen.Examples.{no_env, office, plain, ann_asks, bob_asks, with_ann}

abbrev first_mark : Watermark
first_mark = mark (some (pos 1690000000000)) []

abbrev batch : List Inbound
batch = (plain, ann_asks) ∷ (plain, bob_asks) ∷ []

drain_inbound-twice_example :
    let first = drain_inbound no_env office [] batch (first_mark, with_ann) in
    drain_inbound no_env office [] ((plain, ann_asks) ∷ []) first ≡ first
unfolding int_of text_beq
drain_inbound-twice_example =
    drain_inbound-twice no_env office [] batch ((plain, ann_asks) ∷ []) first_mark with_ann
      (inl refl) tt ((pos 1174000000000000001, refl), ((pos 1174000000000000002, refl), tt))
      (((pos 1174000000000000001, refl), refl), tt)
