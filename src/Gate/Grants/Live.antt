-- ===== src/Gate/Grants/Live.antt =====
-- orchestration/service.py: a grant is live from the call that makes it until its last second, and
-- no longer. `sub` is what `redact_text_markers` makes of a value: it finds none of its patterns in
-- a text of digits.
use discord_os.Prelude.{
  ℕ, ◌+◌, ◌≡◌, refl, ap, ◌∙◌, false, some, List, ◌++◌, nat_eq, ◌==◌, ltb, if◌then◌else◌, is_empty,
  arith,
}
use discord_os.Text.{Text, txt, text_eq, strip, lower, text_beq_iff}
use discord_os.Text.Number.{ℤ, str_of}
use discord_os.Text.Number.RoundTrip.{Digits, strip-Digits, str_of-Digits, int_of-str_of}
use discord_os.Text.Strip.{strip-append}
use discord_os.Table.{row_of-upsert}
use discord_os.Gate.Preferences.{
  Preference, key_of, preference, row_for, host_pref, set_preference, writer,
}
use discord_os.Gate.Grants.{
  grant, over, allows, ttl_of, write_session_allow_key, set_write_session_allow,
  write_session_allows_writes, class_name, tool_class_allow_key, set_tool_class_session_allow,
  tool_class_session_allows, exact_name, tool_exact_allow_key, set_tool_exact_session_allow,
  tool_exact_session_allows,
}

-- What is read at a key that was written.
pub host_pref-writer :
    (sub : Text → Text) (key value j : Text) (prefs : List Preference)
    → strip key ≡ key
    → is_empty key ≡ false
    → host_pref j (writer sub key value prefs)
      ≡ (if key == j then some (sub value) else host_pref j prefs)
unfolding host_pref writer set_preference
host_pref-writer sub key value j prefs s e = ground (
  arith,
  s,
  e,
  text_beq_iff key j,
  row_of-upsert key_of (row_for preference (strip key) (sub value)) j prefs,
)

host_pref-written :
    (sub : Text → Text) (key value : Text) (prefs : List Preference)
    → strip key ≡ key
    → is_empty key ≡ false
    → host_pref key (writer sub key value prefs) ≡ some (sub value)
host_pref-written sub key value prefs s e =
    ground (arith, host_pref-writer sub key value key prefs s e, text_beq_iff key key)

-- What is allowed where the number of a second is written.
allows-at :
    (sub : Text → Text) (key : Text) (n later : ℕ) (prefs : List Preference)
    → host_pref key prefs ≡ some (str_of n)
    → (allows sub key later prefs).0 ≡ ltb later n
unfolding allows over
allows-at sub key n later prefs h =
    ground (arith, h, strip-Digits (str_of n) (str_of-Digits n), int_of-str_of n)

pub allows-grant :
    (sub : Text → Text) (key : Text) (ttl : ℤ) (now later : ℕ) (prefs : List Preference)
    → ((s : Text) → Digits s → sub s ≡ s)
    → strip key ≡ key
    → is_empty key ≡ false
    → (allows sub key later (grant sub key ttl now prefs)).0 ≡ ltb later (now + ttl_of ttl)
unfolding grant
allows-grant sub key ttl now later prefs digits s e = allows-at sub key (now + ttl_of ttl) later _ (
    host_pref-written sub key (str_of (now + ttl_of ttl)) prefs s e
    ∙ ap some (digits (str_of (now + ttl_of ttl)) (str_of-Digits (now + ttl_of ttl))))

module _ (sub : Text → Text) (digits : (s : Text) → Digits s → sub s ≡ s) where
  -- An "Always allow" for writes in a channel or thread is live from the second `now` of the call
  -- for as many seconds as `ttl_of` gives, and no longer.
  pub set_write_session_allow-IsLive :
      (scope : Text) (ttl : ℤ) (now later : ℕ) (prefs : List Preference)
      → is_empty (strip scope) ≡ false
      → (write_session_allows_writes sub scope later
          (set_write_session_allow sub scope ttl now prefs)).0
        ≡ ltb later (now + ttl_of ttl)
  unfolding set_write_session_allow write_session_allows_writes write_session_allow_key
  set_write_session_allow-IsLive scope ttl now later prefs e = ground (
    arith,
    e,
    allows-grant sub (write_session_allow_key scope) ttl now later prefs digits
        (strip-append 119 (txt "rite_session_allow:") scope refl e) refl,
  )

  class_grant :
      (tool scope : Text) (ttl : ℤ) (now later : ℕ) (prefs : List Preference)
      → is_empty (strip scope) ≡ false
      → (allows sub
          (tool_class_allow_key (class_name tool) scope)
          later
          (grant sub (tool_class_allow_key (class_name tool) scope) ttl now prefs)).0
        ≡ ltb later (now + ttl_of ttl)
  unfolding tool_class_allow_key
  class_grant tool scope ttl now later prefs e =
      allows-grant sub (tool_class_allow_key (class_name tool) scope) ttl now later prefs digits
        (strip-append 116 (txt "ool_class_allow:" ++ lower (strip (class_name tool)) ++ txt ":")
          scope refl e)
        refl

  -- An "Always allow" for a class of tools is live for as long, whatever alias of the class asks.
  pub set_tool_class_session_allow-IsLive :
      (alias tool scope : Text) (ttl : ℤ) (now later : ℕ) (prefs : List Preference)
      → is_empty (strip scope) ≡ false
      → is_empty (class_name tool) ≡ false
      → class_name alias ≡ class_name tool
      → (tool_class_session_allows sub alias scope later
          (set_tool_class_session_allow sub tool scope ttl now prefs)).0
        ≡ ltb later (now + ttl_of ttl)
  unfolding set_tool_class_session_allow tool_class_session_allows
  set_tool_class_session_allow-IsLive alias tool scope ttl now later prefs e f same =
      rw same (rw f (rw e (class_grant tool scope ttl now later prefs e)))

  -- An "Always allow" for one tool is live for as long.
  pub set_tool_exact_session_allow-IsLive :
      (tool scope : Text) (ttl : ℤ) (now later : ℕ) (prefs : List Preference)
      → is_empty (strip scope) ≡ false
      → is_empty (exact_name tool) ≡ false
      → (tool_exact_session_allows sub tool scope later
          (set_tool_exact_session_allow sub tool scope ttl now prefs).1).0
        ≡ ltb later (now + ttl_of ttl)
  unfolding set_tool_exact_session_allow tool_exact_session_allows tool_exact_allow_key
  set_tool_exact_session_allow-IsLive tool scope ttl now later prefs e f = ground (
    arith,
    e,
    f,
    allows-grant sub (tool_exact_allow_key (exact_name tool) scope) ttl now later prefs digits
        (strip-append 116
          (txt "ool_exact_allow:" ++ lower (exact_name (exact_name tool)) ++ txt ":") scope refl e)
        refl,
  )
