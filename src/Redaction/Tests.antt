-- ===== src/Redaction/Tests.antt =====
-- redaction.py: a nested payload, and the theorem there.
use discord_os.Prelude.{◌≡◌, refl, true}
use discord_os.Text.{txt, text_beq, lower}
use discord_os.Redaction.{Value, scalar, mapping, list, nil, cons, end, field, strip_forbidden_keys}
use discord_os.Redaction.Clean.{is_clean, strip_forbidden_keys-is_clean}

abbrev kept : Value
kept = mapping (field (txt "plan") (scalar (txt "a")) end)

abbrev payload : Value
payload = mapping (
    field (txt "Thinking") (scalar (txt "b"))
      (field (txt "plan") (list (cons (mapping (field (txt "cot") kept end)) nil)) end))

stripped :
    strip_forbidden_keys payload ≡ mapping (field (txt "plan") (list (cons (mapping end) nil)) end)
unfolding strip_forbidden_keys text_beq
stripped = refl

kept_clean : is_clean kept ≡ true
unfolding is_clean discord_os.Redaction.Clean.is_forbidden text_beq lower
kept_clean = refl

strip_forbidden_keys-is_clean_example :
    (is_clean (strip_forbidden_keys payload) ≡ true)
    × (strip_forbidden_keys kept ≡ kept)
    × (strip_forbidden_keys (strip_forbidden_keys payload) ≡ strip_forbidden_keys payload)
strip_forbidden_keys-is_clean_example = strip_forbidden_keys-is_clean payload kept kept_clean
