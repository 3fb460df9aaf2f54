-- ===== src/Gate/Grants.antt =====
-- orchestration/service.py: the "Always allow" grants, which are preferences of the host with the
-- second at which they end.
pub mod Live
pub mod Revoked
pub mod Asked
use discord_os.Prelude.{
  ℕ, zero, suc, ◌+◌, ◌*◌, max, Bool, true, false, not, ◌||◌, Option, none, some, List, [], ◌∷◌,
  ◌++◌, nat_eq, ◌==◌, leb, if◌then◌else◌, is_empty, any, member, select,
}
use discord_os.Text.{Text, txt, text_eq, strip, lower, starts_with}
use discord_os.Text.Number.{ℤ, pos, negsuc, int_of, str_of}
use discord_os.Gate.Classes.{normalize_tool_class}
use discord_os.Gate.Preferences.{
  Preference, preference, style, failure, journal, plan, host_pref, writer, writes_need_approval,
}

abbrev pub write_session_allow_prefix : Text
write_session_allow_prefix = txt "write_session_allow:"

abbrev pub tool_class_allow_prefix : Text
tool_class_allow_prefix = txt "tool_class_allow:"

abbrev pub tool_exact_allow_prefix : Text
tool_exact_allow_prefix = txt "tool_exact_allow:"

-- WRITE_SESSION_ALLOW_TTL_SECONDS
abbrev pub allow_ttl_seconds : ℕ
allow_ttl_seconds = 4 * 3600

-- max(60, int(ttl_seconds or WRITE_SESSION_ALLOW_TTL_SECONDS))
unfoldable pub ttl_of : ℤ → ℕ
ttl_of (pos zero) = allow_ttl_seconds
ttl_of (pos (suc n)) = max 60 (suc n)
ttl_of (negsuc n) = 60

-- A grant at a key, from the second `now`.
unfoldable pub grant : (Text → Text) → Text → ℤ → ℕ → List Preference → List Preference
unfolding writer str_of ttl_of
grant sub key ttl now prefs = writer sub key (str_of (now + ttl_of ttl)) prefs

-- expires <= int(time.time())
unfoldable pub over : ℤ → ℕ → Bool
over (pos expires) now = leb expires now
over (negsuc n) now = true

-- Whether a grant at a key is live, and the preferences after a grant that is over was cleared.
unfoldable pub allows : (Text → Text) → Text → ℕ → List Preference → Bool × List Preference
unfolding host_pref int_of writer over strip
allows sub key now prefs = elim (host_pref key prefs) [
  | none ↦ (false, prefs)
  | some raw ↦ elim (int_of (strip raw)) [
    | none ↦ (false, prefs)
    | some expires ↦
        if over expires now then (false, writer sub key (txt "0") prefs) else (true, prefs)
  ]
]

-- write_session_allow_key
unfoldable pub write_session_allow_key : Text → Text
unfolding strip
write_session_allow_key scope_id = write_session_allow_prefix ++ strip scope_id

-- set_write_session_allow
unfoldable pub set_write_session_allow :
    (Text → Text) → Text → ℤ → ℕ → List Preference → List Preference
unfolding grant write_session_allow_key
set_write_session_allow sub scope_id ttl now prefs =
    if is_empty (strip scope_id)
    then prefs
    else grant sub (write_session_allow_key scope_id) ttl now prefs

-- write_session_allows_writes
unfoldable pub write_session_allows_writes :
    (Text → Text) → Text → ℕ → List Preference → Bool × List Preference
unfolding allows write_session_allow_key
write_session_allows_writes sub scope_id now prefs =
    if is_empty (strip scope_id)
    then (false, prefs)
    else allows sub (write_session_allow_key scope_id) now prefs

-- normalize_tool_class(tool_class) or tool_class.strip().lower()
unfoldable pub class_name : Text → Text
unfolding normalize_tool_class strip lower
class_name tool_class = elim (normalize_tool_class tool_class) [
  | some c ↦ c
  | none ↦ lower (strip tool_class)
]

-- tool_class_allow_key
unfoldable pub tool_class_allow_key : Text → Text → Text
unfolding strip lower
tool_class_allow_key tool_class scope_id =
    tool_class_allow_prefix ++ lower (strip tool_class) ++ txt ":" ++ strip scope_id

-- set_tool_class_session_allow
unfoldable pub set_tool_class_session_allow :
    (Text → Text) → Text → Text → ℤ → ℕ → List Preference → List Preference
unfolding grant class_name tool_class_allow_key
set_tool_class_session_allow sub tool_class scope_id ttl now prefs =
    if is_empty (class_name tool_class) || is_empty (strip scope_id)
    then prefs
    else grant sub (tool_class_allow_key (class_name tool_class) scope_id) ttl now prefs

-- tool_class_session_allows
unfoldable pub tool_class_session_allows :
    (Text → Text) → Text → Text → ℕ → List Preference → Bool × List Preference
unfolding allows class_name tool_class_allow_key
tool_class_session_allows sub tool_class scope_id now prefs =
    if is_empty (class_name tool_class) || is_empty (strip scope_id)
    then (false, prefs)
    else allows sub (tool_class_allow_key (class_name tool_class) scope_id) now prefs

-- text.endswith("/")
unfoldable pub ends_in_slash : Text → Bool
ends_in_slash [] = false
ends_in_slash (c ∷ []) = c == b'/'
ends_in_slash (c ∷ d ∷ s) = ends_in_slash (d ∷ s)

-- normalize_exact_tool_name
unfoldable pub normalize_exact_tool_name : Text → Option Text
unfolding strip ends_in_slash
normalize_exact_tool_name raw =
    if is_empty (strip raw)
    then none
    else if any (λ c. member c (txt "*?[")) (strip raw) || ends_in_slash (strip raw)
    then none
    else some (strip raw)

-- normalize_exact_tool_name(tool_name) or ""
unfoldable pub exact_name : Text → Text
unfolding normalize_exact_tool_name
exact_name tool_name = elim (normalize_exact_tool_name tool_name) [ none ↦ [] | some n ↦ n ]

-- tool_exact_allow_key; `casefold` is `lower` on the ASCII letters of the names of tools
unfoldable pub tool_exact_allow_key : Text → Text → Text
unfolding exact_name lower strip
tool_exact_allow_key tool_name scope_id =
    tool_exact_allow_prefix ++ lower (exact_name tool_name) ++ txt ":" ++ strip scope_id

-- set_tool_exact_session_allow
unfoldable pub set_tool_exact_session_allow :
    (Text → Text) → Text → Text → ℤ → ℕ → List Preference → Bool × List Preference
unfolding grant exact_name tool_exact_allow_key
set_tool_exact_session_allow sub tool_name scope_id ttl now prefs =
    if is_empty (exact_name tool_name) || is_empty (strip scope_id)
    then (false, prefs)
    else (true, grant sub (tool_exact_allow_key (exact_name tool_name) scope_id) ttl now prefs)

-- tool_exact_session_allows
unfoldable pub tool_exact_session_allows :
    (Text → Text) → Text → Text → ℕ → List Preference → Bool × List Preference
unfolding allows exact_name tool_exact_allow_key
tool_exact_session_allows sub tool_name scope_id now prefs =
    if is_empty (exact_name tool_name) || is_empty (strip scope_id)
    then (false, prefs)
    else allows sub (tool_exact_allow_key (exact_name tool_name) scope_id) now prefs

-- Whether a key is the key of a grant of any of the three kinds.
unfoldable pub is_grant_key : Text → Bool
unfolding starts_with
is_grant_key key =
    starts_with write_session_allow_prefix key
    || starts_with tool_class_allow_prefix key
    || starts_with tool_exact_allow_prefix key

-- list_preferences(workspace_id, kind="preference")
unfoldable pub is_preference : Preference → Bool
is_preference p = elim p.kind [
  | preference ↦ true
  | style ↦ false
  | failure ↦ false
  | journal ↦ false
  | plan ↦ false
]

-- The loop of `clear_write_session_allows` over the rows it has listed.
unfoldable pub clear_rows : (Text → Text) → List Preference → List Preference → List Preference
unfolding is_grant_key writer
clear_rows sub [] prefs = prefs
clear_rows sub (r ∷ rows) prefs =
    clear_rows sub rows (if is_grant_key r.key then writer sub r.key (txt "0") prefs else prefs)

-- clear_write_session_allows
unfoldable pub clear_write_session_allows : (Text → Text) → List Preference → List Preference
unfolding clear_rows is_preference
clear_write_session_allows sub prefs = clear_rows sub (select is_preference prefs) prefs

-- writes_need_approval_for, and the preferences after the grants it found over were cleared
unfoldable pub writes_need_approval_for :
    (Text → Text) → Text → Text → ℕ → List Preference → Bool × List Preference
unfolding writes_need_approval write_session_allows_writes
writes_need_approval_for sub channel_id thread_id now prefs =
    if not (writes_need_approval prefs)
    then (false, prefs)
    else let thread = write_session_allows_writes sub thread_id now prefs in
      let channel = write_session_allows_writes sub channel_id now thread.1 in
      if thread.0
      then (false, thread.1)
      else if channel.0
      then (false, channel.1)
      else (true, channel.1)
