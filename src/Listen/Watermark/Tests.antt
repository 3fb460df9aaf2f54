-- ===== src/Listen/Watermark/Tests.antt =====
-- orchestration/listen.py: a channel with three messages.
use discord_os.Prelude.{◌≡◌, refl, inl, true, false, some, List, [], ◌∷◌}
use discord_os.Text.{Text, txt, text_beq}
use discord_os.Text.Number.{pos, int_of}
use discord_os.Listen.Watermark.{Watermark, mark, advance_all, is_newer}
use discord_os.Listen.Watermark.Covers.{advance_all-covers}

abbrev first_mark : Watermark
first_mark = mark (some (pos 1690000000000)) []

abbrev ids : List Text
ids = txt "1174000000000000002" ∷ txt "1174000000000000001" ∷ []

first_is_newer : is_newer (txt "1174000000000000001") first_mark ≡ true
unfolding is_newer text_beq
first_is_newer = refl

advance_all-covers_example :
    is_newer (txt "1174000000000000001") (advance_all ids first_mark) ≡ false
unfolding int_of text_beq
advance_all-covers_example =
    advance_all-covers (txt "1174000000000000001") ids first_mark (inl refl)
      ((pos 1174000000000000002, refl), ((pos 1174000000000000001, refl), tt))
      (pos 1174000000000000001, refl) (inl refl)
