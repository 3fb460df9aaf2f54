-- ===== src/Gate/Preferences.antt =====
-- The preferences of the host (persistence/sqlite.py) and the write gate in them
-- (orchestration/service.py). The rows of the workspace `_host` are the state, in the order of
-- insertion; `sub`, an argument, is what the substitutions of `redact_text_markers` make of a value.
use discord_os.Prelude.{
  Bool, false, not, Option, none, some, List, [], ◌∷◌, nat_eq, if◌then◌else◌, is_empty, member,
}
use discord_os.Text.{Text, txt, text_eq, strip, lower}
use discord_os.Table.{row_of, upsert}

-- PREFERENCE_KINDS
pub data Kind : Type 0 where
  preference style failure journal plan : Kind

-- A row of `preferences` whose `workspace_id` is `HOST_PREFS_WORKSPACE`.
pub record Preference : Type 0 where
  pub key : Text
  pub value : Text
  pub kind : Kind

abbrev pub key_of : Preference → Text
key_of p = p.key

abbrev pub row_for : Kind → Text → Text → Preference
row_for kind key value = record { key = key; value = value; kind = kind }

-- _host_pref
unfoldable pub host_pref : Text → List Preference → Option Text
unfolding row_of
host_pref key prefs = elim (row_of key_of key prefs) [ none ↦ none | some p ↦ some p.value ]

-- SQLiteStore.set_preference for the host's workspace; `none` where it raises ValueError
unfoldable pub set_preference :
    (Text → Text) → Kind → Text → Text → List Preference → Option (List Preference)
unfolding strip upsert
set_preference sub kind key value prefs =
    if is_empty (strip key)
    then none
    else some (upsert key_of (row_for kind (strip key) (sub value)) prefs)

-- The call of it that the grants make. Their keys are not empty, so that it raises no error.
unfoldable pub writer : (Text → Text) → Text → Text → List Preference → List Preference
unfolding set_preference
writer sub key value prefs = elim (set_preference sub preference key value prefs) [
  | none ↦ prefs
  | some after ↦ after
]

-- _truthy
unfoldable pub truthy : Option Text → Bool
unfolding strip lower
truthy none = false
truthy (some raw) =
    member (lower (strip raw)) (txt "1" ∷ txt "true" ∷ txt "yes" ∷ txt "on" ∷ txt "halted" ∷ [])

abbrev pub write_gate_key : Text
write_gate_key = txt "write_gate"

-- writes_need_approval
unfoldable pub writes_need_approval : List Preference → Bool
unfolding truthy host_pref
writes_need_approval prefs = truthy (host_pref write_gate_key prefs)

-- set_write_gate
unfoldable pub set_write_gate : (Text → Text) → Bool → List Preference → List Preference
unfolding writer
set_write_gate sub gated prefs =
    writer sub write_gate_key (if gated then txt "1" else txt "0") prefs

-- toggle_write_gate
unfoldable pub toggle_write_gate : (Text → Text) → List Preference → Bool × List Preference
unfolding set_write_gate writes_need_approval
toggle_write_gate sub prefs =
    let gated = not (writes_need_approval prefs) in (gated, set_write_gate sub gated prefs)
