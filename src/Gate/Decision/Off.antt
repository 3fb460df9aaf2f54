-- ===== src/Gate/Decision/Off.antt =====
-- orchestration/ask_gate.py and orchestration/service.py: what may run after HOST Off.
use discord_os.Prelude.{
  ℕ, ◌≡◌, refl, ap, sym, ◌∙◌, inl, inr, Bool, true, false, ◌||◌, Option, some, List, [], ◌∷◌,
  if◌then◌else◌, is_empty,
}
use discord_os.Text.{Text, txt, strip}
use discord_os.Gate.Preferences.{Preference}
use discord_os.Gate.Grants.{
  tool_class_session_allows, tool_exact_session_allows, clear_write_session_allows, allows,
  tool_exact_allow_key, exact_name, tool_class_allow_key, class_name,
}
use discord_os.Gate.Grants.Revoked.{
  IsRevoked, GrantsAreListed, clear_write_session_allows-IsRevoked, allows-IsRevoked, class_revoked,
  exact_revoked,
}
use discord_os.Gate.Classes.{normalize_tool_class}
use discord_os.Gate.Decision.{
  allow, or_else, Query, either, exact_of, class_granted, exact_granted, tool_class_decision,
}
use discord_os.Gate.Decision.Granted.{IsGated, is_gated-IsOpen, not_both, gate_kept}
use discord_os.Gate.Decision.Safety.{tool_class_decision-RunsByClass}

-- The answer of a question, and the preferences after it, where nothing is granted.
abbrev Refuses : Bool × List Preference → Type 0
Refuses found = (found.0 ≡ false) × IsRevoked found.1

or_else-Refuses :
    (found : Bool × List Preference) (next : List Preference → Bool × List Preference)
    → Refuses found
    → ((p : List Preference) → IsRevoked p → Refuses (next p))
    → Refuses (or_else found next)
unfolding or_else
or_else-Refuses (true, prefs) next (h, r) n = absurd (cc h)
or_else-Refuses (false, prefs) next (h, r) n = n prefs r

either-Refuses :
    (query : Query) (thread_id channel_id : Text) (prefs : List Preference)
    → ((scope : Text) (p : List Preference) → IsRevoked p → Refuses (query scope p))
    → IsRevoked prefs
    → Refuses (either query thread_id channel_id prefs)
unfolding either
either-Refuses query thread_id channel_id prefs q r =
    or_else-Refuses (query thread_id prefs) (λ p. query channel_id p) (q thread_id prefs r)
      (q channel_id)

both : {b : Bool} → b ≡ true → b ≡ false → ⊥
both h e = cc (sym h ∙ e)

-- A question behind a guard.
guarded-IsRevoked :
    (b : Bool) (prefs : List Preference) (found : Bool × List Preference)
    → IsRevoked prefs
    → IsRevoked found.1
    → IsRevoked (if b then (false, prefs) else found).1
guarded-IsRevoked true prefs found r s = r
guarded-IsRevoked false prefs found r s = s

module _ (sub : Text → Text) (zero_kept : sub (txt "0") ≡ txt "0") where
  exact_kept :
      (tool scope : Text) (now : ℕ) (prefs : List Preference)
      → IsRevoked prefs
      → IsRevoked (tool_exact_session_allows sub tool scope now prefs).1
  unfolding tool_exact_session_allows
  exact_kept tool scope now prefs r =
      guarded-IsRevoked (is_empty (exact_name tool) || is_empty (strip scope)) prefs
        (allows sub (tool_exact_allow_key (exact_name tool) scope) now prefs) r
        (allows-IsRevoked sub zero_kept (tool_exact_allow_key (exact_name tool) scope) now prefs r)

  class_kept :
      (tool scope : Text) (now : ℕ) (prefs : List Preference)
      → IsRevoked prefs
      → IsRevoked (tool_class_session_allows sub tool scope now prefs).1
  unfolding tool_class_session_allows
  class_kept tool scope now prefs r =
      guarded-IsRevoked (is_empty (class_name tool) || is_empty (strip scope)) prefs
        (allows sub (tool_class_allow_key (class_name tool) scope) now prefs) r
        (allows-IsRevoked sub zero_kept (tool_class_allow_key (class_name tool) scope) now prefs r)

  exact_granted-Refuses :
      (exact channel_id thread_id : Text) (now : ℕ) (prefs : List Preference)
      → IsRevoked prefs
      → Refuses (exact_granted sub exact channel_id thread_id now prefs)
  unfolding exact_granted
  exact_granted-Refuses [] channel_id thread_id now prefs r = (refl, r)
  exact_granted-Refuses (x ∷ s) channel_id thread_id now prefs r =
      either-Refuses (λ scope p. tool_exact_session_allows sub (x ∷ s) scope now p) thread_id
        channel_id prefs
        (λ scope p h.
          (exact_revoked sub zero_kept (x ∷ s) scope now p h, exact_kept (x ∷ s) scope now p h))
        r

  class_granted-Refuses :
      (c channel_id thread_id : Text) (now : ℕ) (prefs : List Preference)
      → IsRevoked prefs
      → Refuses (class_granted sub c channel_id thread_id now prefs)
  unfolding class_granted
  class_granted-Refuses c channel_id thread_id now prefs r =
      either-Refuses (λ scope p. tool_class_session_allows sub c scope now p) thread_id channel_id
        prefs
        (λ scope p h. (class_revoked sub zero_kept c scope now p h, class_kept c scope now p h)) r

  -- After HOST Off, while writes are gated, as the caller says or else the preference does, a tool
  -- call runs without being asked for only if its class is `read`. The grants are stored among the
  -- preferences, and the text "0" as it is.
  pub tool_class_decision-revoked :
      (tool_class channel_id thread_id : Text) (on : Option Bool) (tool_name detail : Text)
      (now : ℕ) (prefs : List Preference)
      → GrantsAreListed prefs
      → IsGated on (clear_write_session_allows sub prefs)
      → (tool_class_decision sub tool_class channel_id thread_id on tool_name detail now
          (clear_write_session_allows sub prefs)).0.decision
        ≡ allow
      → normalize_tool_class tool_class ≡ some (txt "read")
  tool_class_decision-revoked tool_class channel_id thread_id on tool_name detail now prefs a g h =
      let cleared = clear_write_session_allows sub prefs in
      let revoked : IsRevoked cleared =
        clear_write_session_allows-IsRevoked sub zero_kept prefs a in
      let exact =
        exact_granted-Refuses (exact_of tool_class tool_name detail) channel_id thread_id now
          cleared revoked in
      elim (tool_class_decision-RunsByClass sub tool_class channel_id thread_id on tool_name detail
        now cleared h) [
          | inl granted ↦ absurd (both granted exact.0)
          | inr (c, k, inl granted) ↦
              absurd (both granted (class_granted-Refuses c channel_id thread_id now _ exact.1).0)
          | inr (c, k, inr (inl reads)) ↦ k ∙ ap some reads
          | inr (c, k, inr (inr (other, off))) ↦ absurd (
              not_both on cleared
                (is_gated-IsOpen on cleared _
                  (gate_kept sub zero_kept (exact_of tool_class tool_name detail) c channel_id
                    thread_id now cleared).1
                  off)
                g)
        ]
