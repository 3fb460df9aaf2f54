-- ===== src/Redaction.antt =====
-- redaction.py: keys that hold hidden reasoning are removed from nested values.
pub mod Clean
mod Tests
use discord_os.Prelude.{Bool, not, ◌||◌, List, [], ◌∷◌, nat_eq, if◌then◌else◌, member}
use discord_os.Text.{Text, txt, text_eq, lower}

-- FORBIDDEN_PAYLOAD_KEYS
abbrev pub forbidden_payload_keys : List Text
forbidden_payload_keys =
    txt "chain_of_thought"
    ∷ txt "hidden_cot"
    ∷ txt "cot"
    ∷ txt "reasoning_content"
    ∷ txt "private_reasoning"
    ∷ txt "thinking"
    ∷ txt "reasoning"
    ∷ []

-- ALLOWED_REASONING_KEYS
abbrev pub allowed_reasoning_keys : List Text
allowed_reasoning_keys =
    txt "reasoning_summary" ∷ txt "plan" ∷ txt "plan_summary" ∷ txt "approach" ∷ txt "findings" ∷ []

-- The values that the program walks: a mapping with the texts of its keys, a list, a tuple, and
-- any other value, by a text that stands for it.
mutual
  pub data Value : Type 0 where
    scalar : Text → Value
    mapping : Fields → Value
    list tuple : Items → Value

  pub data Items : Type 0 where
    nil : Items
    cons : Value → Items → Items

  pub data Fields : Type 0 where
    end : Fields
    field : Text → Value → Fields → Fields

unfoldable pub is_kept : Text → Bool
unfolding lower
is_kept key =
    not (member (lower key) forbidden_payload_keys) || member (lower key) allowed_reasoning_keys

unfoldable mutual
  unfolding is_kept

  pub strip_forbidden_keys : Value → Value
  strip_forbidden_keys (scalar s) = scalar s
  strip_forbidden_keys (mapping fields) = mapping (strip_fields fields)
  strip_forbidden_keys (list items) = list (strip_items items)
  strip_forbidden_keys (tuple items) = tuple (strip_items items)

  pub strip_items : Items → Items
  strip_items nil = nil
  strip_items (cons v items) = cons (strip_forbidden_keys v) (strip_items items)

  pub strip_fields : Fields → Fields
  strip_fields end = end
  strip_fields (field key v fields) =
      let rest = strip_fields fields in
      if is_kept key then field key (strip_forbidden_keys v) rest else rest
