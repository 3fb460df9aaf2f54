-- ===== src/Redaction/Clean.antt =====
-- redaction.py: no forbidden key is left at any depth, and nothing else is changed.
use discord_os.Prelude.{
  ◌≡◌, refl, sym, ap, ◌∙◌, inl, inr, Bool, true, false, not, ◌&&◌, ◌||◌, List, [], ◌∷◌, arith,
  nat_eq, Bool-cases, left_true, right_true, other_true, not-true, member,
}
use discord_os.Text.{Text, text_eq, text_beq, text_beq_iff, lower}
use discord_os.Redaction.{
  forbidden_payload_keys, allowed_reasoning_keys, Value, Items, Fields, scalar, mapping, list,
  tuple, nil, cons, end, field, is_kept, strip_forbidden_keys, strip_items, strip_fields,
}

unfoldable pub is_forbidden : Text → Bool
is_forbidden key = member (lower key) forbidden_payload_keys

-- No forbidden key stands in the value, at any depth.
unfoldable mutual
  unfolding is_forbidden

  pub is_clean : Value → Bool
  is_clean (scalar s) = true
  is_clean (mapping fields) = clean_fields fields
  is_clean (list items) = clean_items items
  is_clean (tuple items) = clean_items items

  pub clean_items : Items → Bool
  clean_items nil = true
  clean_items (cons v items) = is_clean v && clean_items items

  pub clean_fields : Fields → Bool
  clean_fields end = true
  clean_fields (field key v fields) = not (is_forbidden key) && is_clean v && clean_fields fields

-- None of the allowed keys is forbidden.
abbrev apart : List Text → Bool
apart [] = true
apart (k ∷ keys) = not (member k forbidden_payload_keys) && apart keys

allowed-apart : apart allowed_reasoning_keys ≡ true
unfolding text_beq
allowed-apart = refl

apart-member :
    (k : Text) (keys : List Text)
    → apart keys ≡ true
    → member k keys ≡ true
    → member k forbidden_payload_keys ≡ false
apart-member k [] a h = absurd (cc h)
apart-member k (j ∷ keys) a h = elim (Bool-cases (text_beq j k)) [
  | inl same ↦
      ap (λ t. member t forbidden_payload_keys) (sym ((text_beq_iff j k).0 same))
      ∙ not-true (member j forbidden_payload_keys)
          (left_true (not (member j forbidden_payload_keys)) (apart keys) a)
  | inr other ↦
      apart-member k keys (right_true (not (member j forbidden_payload_keys)) (apart keys) a)
        (other_true (text_beq j k) (member k keys) other h)
]

kept_if_allowed : (a b : Bool) → a ≡ false → (not a || b) ≡ not a
kept_if_allowed true b h = cc h
kept_if_allowed false b h = refl

kept_if_other : (a b : Bool) → b ≡ false → (not a || b) ≡ not a
kept_if_other true b h = h
kept_if_other false b h = refl

-- A key is kept exactly where it is not forbidden.
is_kept-is_forbidden : (key : Text) → is_kept key ≡ not (is_forbidden key)
unfolding is_kept is_forbidden
is_kept-is_forbidden key = elim (Bool-cases (member (lower key) allowed_reasoning_keys)) [
  | inl allowed ↦
      kept_if_allowed (member (lower key) forbidden_payload_keys)
        (member (lower key) allowed_reasoning_keys)
        (apart-member (lower key) allowed_reasoning_keys allowed-apart allowed)
  | inr other ↦
      kept_if_other (member (lower key) forbidden_payload_keys)
        (member (lower key) allowed_reasoning_keys) other
]

mutual
  unfolding strip_forbidden_keys is_clean

  strip-clean : (v : Value) → is_clean (strip_forbidden_keys v) ≡ true
  strip-clean (scalar s) = refl
  strip-clean (mapping fields) = strip_fields-clean fields
  strip-clean (list items) = strip_items-clean items
  strip-clean (tuple items) = strip_items-clean items

  strip_items-clean : (items : Items) → clean_items (strip_items items) ≡ true
  strip_items-clean nil = refl
  strip_items-clean (cons v items) = ground (arith, strip-clean v, strip_items-clean items)

  strip_fields-clean : (fields : Fields) → clean_fields (strip_fields fields) ≡ true
  strip_fields-clean end = refl
  strip_fields-clean (field key v fields) =
      ground (arith, is_kept-is_forbidden key, strip-clean v, strip_fields-clean fields)

mutual
  unfolding strip_forbidden_keys is_clean

  clean-strip : (v : Value) → is_clean v ≡ true → strip_forbidden_keys v ≡ v
  clean-strip (scalar s) h = refl
  clean-strip (mapping fields) h = ap mapping (clean-strip_fields fields h)
  clean-strip (list items) h = ap list (clean-strip_items items h)
  clean-strip (tuple items) h = ap tuple (clean-strip_items items h)

  clean-strip_items : (items : Items) → clean_items items ≡ true → strip_items items ≡ items
  clean-strip_items nil h = refl
  clean-strip_items (cons v items) h = ground (arith, h, clean-strip v, clean-strip_items items)

  clean-strip_fields : (fields : Fields) → clean_fields fields ≡ true → strip_fields fields ≡ fields
  clean-strip_fields end h = refl
  clean-strip_fields (field key v fields) h =
      ground (arith, h, is_kept-is_forbidden key, clean-strip v, clean-strip_fields fields)

-- What is removed leaves no forbidden key at any depth, and a value without such keys is left as it
-- is, so that removing twice is removing once.
pub strip_forbidden_keys-is_clean :
    (v w : Value)
    → is_clean w ≡ true
    → (is_clean (strip_forbidden_keys v) ≡ true)
      × (strip_forbidden_keys w ≡ w)
      × (strip_forbidden_keys (strip_forbidden_keys v) ≡ strip_forbidden_keys v)
strip_forbidden_keys-is_clean v w h =
    (strip-clean v, clean-strip w h, clean-strip (strip_forbidden_keys v) (strip-clean v))
