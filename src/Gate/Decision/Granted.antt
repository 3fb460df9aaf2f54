-- ===== src/Gate/Decision/Granted.antt =====
-- orchestration/ask_gate.py: the grants and the write gate that a decision reads.
use discord_os.Prelude.{
  ℕ, ◌≡◌, refl, sym, ◌∙◌, subst, ◌⊎◌, inl, inr, Bool, true, false, Option, none, some, List, [],
  ◌∷◌,
}
use discord_os.Text.{Text, txt}
use discord_os.Gate.Preferences.{
  Preference, host_pref, truthy, writes_need_approval, write_gate_key,
}
use discord_os.Gate.Grants.{
  class_name, tool_class_allow_key, tool_class_session_allows, exact_name, tool_exact_allow_key,
  tool_exact_session_allows,
}
use discord_os.Gate.Grants.Asked.{
  IsLiveAt, IsFrom, IsAsked, nothing_asked, both_asked, tool_class_session_allows-IsAsked,
  tool_exact_session_allows-IsAsked,
}
use discord_os.Gate.Decision.{is_gated, class_granted, exact_granted, Query, or_else, either}

-- Whether writes are gated, as the caller says, or else as the preference `write_gate` does.
abbrev pub IsGated : Option Bool → List Preference → Type 0
IsGated (some on) prefs = on ≡ true
IsGated none prefs = truthy (host_pref write_gate_key prefs) ≡ true

abbrev pub IsOpen : Option Bool → List Preference → Type 0
IsOpen (some on) prefs = on ≡ false
IsOpen none prefs = truthy (host_pref write_gate_key prefs) ≡ false

-- A grant that has not ended, under the key of the thread or under that of the channel.
abbrev pub HasLive : ℕ → List Preference → (Text → Text) → Text → Text → Type 0
HasLive now prefs key thread_id channel_id =
    IsLiveAt now prefs (key thread_id) ⊎ IsLiveAt now prefs (key channel_id)

-- A question about the thread and the channel, which tells the truth.
abbrev IsFound : ℕ → List Preference → (Text → Text) → Text → Text → Bool × List Preference → Type 0
IsFound now prefs key thread_id channel_id found =
    IsFrom now prefs found.1 × (found.0 ≡ true → HasLive now prefs key thread_id channel_id)

pub not_both : (on : Option Bool) (prefs : List Preference) → IsOpen on prefs → IsGated on prefs → ⊥
not_both (some on) prefs h g = cc (sym h ∙ g)
not_both none prefs h g = cc (sym h ∙ g)

-- The gate after questions is the gate before them.
pub is_gated-IsOpen :
    (on : Option Bool) (p q : List Preference)
    → host_pref write_gate_key q ≡ host_pref write_gate_key p
    → is_gated on q ≡ false
    → IsOpen on p
unfolding is_gated writes_need_approval
is_gated-IsOpen (some on) p q same h = h
is_gated-IsOpen none p q same h = subst (λ v. truthy v ≡ false) same h

pub gated_after :
    (on : Option Bool) (p q : List Preference)
    → host_pref write_gate_key q ≡ host_pref write_gate_key p
    → IsGated on p
    → is_gated on q ≡ true
unfolding is_gated writes_need_approval
gated_after (some on) p q same h = h
gated_after none p q same h = subst (λ v. truthy v ≡ true) (sym same) h

or_else-IsFound :
    (now : ℕ) (prefs : List Preference) (key : Text → Text) (thread_id channel_id : Text)
    (found : Bool × List Preference) (next : List Preference → Bool × List Preference)
    → IsAsked now prefs (key thread_id) found
    → ((p : List Preference) → IsAsked now p (key channel_id) (next p))
    → IsFound now prefs key thread_id channel_id (or_else found next)
unfolding or_else
or_else-IsFound now prefs key thread_id channel_id (true, p) next (f, live) n =
    (f, λ e. inl (live refl))
or_else-IsFound now prefs key thread_id channel_id (false, p) next (f, live) n =
    (both_asked now prefs p (next p).1 f (n p).0, λ e. inr (f.0 (key channel_id) ((n p).1 e)))

either-IsFound :
    (query : Query) (now : ℕ) (prefs : List Preference) (key : Text → Text)
    (thread_id channel_id : Text)
    → ((scope : Text) (p : List Preference) → IsAsked now p (key scope) (query scope p))
    → IsFound now prefs key thread_id channel_id (either query thread_id channel_id prefs)
unfolding either
either-IsFound query now prefs key thread_id channel_id q =
    or_else-IsFound now prefs key thread_id channel_id (query thread_id prefs)
      (λ p. query channel_id p) (q thread_id prefs) (q channel_id)

-- The key of a grant for the exact tool, and for its class, in a scope.
abbrev pub exact_key : Text → Text → Text
exact_key exact scope = tool_exact_allow_key (exact_name exact) scope

abbrev pub class_key : Text → Text → Text
class_key c scope = tool_class_allow_key (class_name c) scope

module _ (sub : Text → Text) (zero_kept : sub (txt "0") ≡ txt "0") where
  pub exact_granted-IsFound :
      (exact channel_id thread_id : Text) (now : ℕ) (prefs : List Preference)
      → IsFound now prefs
          (exact_key exact)
          thread_id
          channel_id
          (exact_granted sub exact channel_id thread_id now prefs)
  unfolding exact_granted
  exact_granted-IsFound [] channel_id thread_id now prefs = (nothing_asked now prefs, λ e. cc e)
  exact_granted-IsFound (x ∷ s) channel_id thread_id now prefs =
      either-IsFound (λ scope p. tool_exact_session_allows sub (x ∷ s) scope now p) now prefs
        (exact_key (x ∷ s)) thread_id channel_id
        (λ scope p. tool_exact_session_allows-IsAsked sub zero_kept (x ∷ s) scope now p)

  pub class_granted-IsFound :
      (c channel_id thread_id : Text) (now : ℕ) (prefs : List Preference)
      → IsFound now prefs
          (class_key c)
          thread_id
          channel_id
          (class_granted sub c channel_id thread_id now prefs)
  unfolding class_granted
  class_granted-IsFound c channel_id thread_id now prefs =
      either-IsFound (λ scope p. tool_class_session_allows sub c scope now p) now prefs
        (class_key c) thread_id channel_id
        (λ scope p. tool_class_session_allows-IsAsked sub zero_kept c scope now p)

  -- Both questions in turn.
  pub gate_kept :
      (exact c channel_id thread_id : Text) (now : ℕ) (prefs : List Preference)
      → IsFrom now prefs
          (class_granted sub c channel_id thread_id now
            (exact_granted sub exact channel_id thread_id now prefs).1).1
  gate_kept exact c channel_id thread_id now prefs =
      both_asked now prefs (exact_granted sub exact channel_id thread_id now prefs).1 _
        (exact_granted-IsFound exact channel_id thread_id now prefs).0
        (class_granted-IsFound c channel_id thread_id now _).0
