-- ===== src/Gate/Grants/Asked.antt =====
-- orchestration/service.py: what a question about a grant finds, and what it leaves as it was.
use discord_os.Prelude.{
  ℕ, ◌+◌, ◌≤◌, ◌≡◌, refl, sym, ap, ◌∙◌, subst, inl, inr, Bool, true, false, not, ◌&&◌, ◌||◌, Option,
  some, List, ◌++◌, nat_eq, ◌==◌, if◌then◌else◌, is_empty, arith, Option-cases,
}
use discord_os.Text.{Text, txt, text_eq, text_beq, strip, lower}
use discord_os.Text.Number.{ℤ, pos, negsuc, int_of}
use discord_os.Text.Strip.{strip-append}
use discord_os.Gate.Preferences.{Preference, host_pref, writer, write_gate_key}
use discord_os.Gate.Grants.{
  over, allows, class_name, tool_class_allow_key, tool_class_session_allows, exact_name,
  tool_exact_allow_key, tool_exact_session_allows,
}
use discord_os.Gate.Grants.Revoked.{writer-zero, allows-after, zero_number}

-- A second after `now` is written.
abbrev pub IsLater : ℕ → Option Text → Type 0
IsLater now value =
    (raw : Text) × (value ≡ some raw)
    × ((expires : ℕ) × (int_of (strip raw) ≡ some (pos expires)) × (now + 1 ≤ expires))

-- There is a grant at a key, and it has not ended.
abbrev pub IsLiveAt : ℕ → List Preference → Text → Type 0
IsLiveAt now prefs key = IsLater now (host_pref key prefs)

-- No grant is new, and the write gate is as it was.
abbrev pub IsFrom : ℕ → List Preference → List Preference → Type 0
IsFrom now before after =
    ((key : Text) → IsLiveAt now after key → IsLiveAt now before key)
    × (host_pref write_gate_key after ≡ host_pref write_gate_key before)

-- A question about a key, which tells the truth.
abbrev pub IsAsked : ℕ → List Preference → Text → Bool × List Preference → Type 0
IsAsked now prefs key found = IsFrom now prefs found.1 × (found.0 ≡ true → IsLiveAt now prefs key)

pub nothing_asked : (now : ℕ) (prefs : List Preference) → IsFrom now prefs prefs
nothing_asked now prefs = ((λ key h. h), refl)

pub both_asked :
    (now : ℕ) (a b c : List Preference) → IsFrom now a b → IsFrom now b c → IsFrom now a c
both_asked now a b c (f, g) (h, k) = ((λ key live. f key (h key live)), k ∙ g)

over-pos :
    (x : ℤ) (now : ℕ) → over x now ≡ false → (expires : ℕ) × (x ≡ pos expires) × (now + 1 ≤ expires)
unfolding over
over-pos (pos expires) now h = (expires, refl, ground (arith, h))
over-pos (negsuc n) now h = cc h

zero_ended : (now : ℕ) → IsLater now (some (txt "0")) → ⊥
zero_ended now (raw, e, (expires, i, later)) = ground (arith, e, i, zero_number, later)

not_zero :
    (now : ℕ) (b : Bool) (value : Option Text)
    → IsLater now (if b then some (txt "0") else value)
    → IsLater now value
not_zero now true value h = absurd (zero_ended now h)
not_zero now false value h = h

guarded-IsAsked :
    (now : ℕ) (b : Bool) (prefs : List Preference) (key : Text) (found : Bool × List Preference)
    → (b ≡ false → IsAsked now prefs key found)
    → IsAsked now prefs key (if b then (false, prefs) else found)
guarded-IsAsked now true prefs key found h = (nothing_asked now prefs, λ e. cc e)
guarded-IsAsked now false prefs key found h = h refl

allows-IsLiveAt :
    (sub : Text → Text) (key : Text) (now : ℕ) (prefs : List Preference)
    → (allows sub key now prefs).0 ≡ true
    → IsLiveAt now prefs key
unfolding allows
allows-IsLiveAt sub key now prefs a = elim (Option-cases (host_pref key prefs)) [
  | inl h ↦ absurd (ground (arith, h, a))
  | inr (raw, h) ↦ elim (Option-cases (int_of (strip raw))) [
    | inl i ↦ absurd (ground (arith, h, i, a))
    | inr (x, i) ↦
        let end = over-pos x now (ground (arith, h, i, a)) in
        (raw, h, (end.0, i ∙ ap some end.1, end.2))
  ]
]

right_empty : (a b : Bool) → a || b ≡ false → b ≡ false
right_empty true b h = cc h
right_empty false b h = h

module _ (sub : Text → Text) (zero_kept : sub (txt "0") ≡ txt "0") where
  writer-IsFrom :
      (key : Text) (now : ℕ) (prefs : List Preference)
      → (strip key == write_gate_key) ≡ false
      → IsFrom now prefs (writer sub key (txt "0") prefs)
  writer-IsFrom key now prefs other = (
    (λ k live.
        not_zero now (not (is_empty (strip key)) && strip key == k) (host_pref k prefs)
          (subst (λ v. IsLater now v) (writer-zero sub zero_kept key k prefs) live)),
    ground (arith, writer-zero sub zero_kept key write_gate_key prefs, other),
  )

  allows-IsAsked :
      (key : Text) (now : ℕ) (prefs : List Preference)
      → (strip key == write_gate_key) ≡ false
      → IsAsked now prefs key (allows sub key now prefs)
  allows-IsAsked key now prefs other = (
    elim (allows-after sub zero_kept key now prefs) [
      | inl same ↦ subst (λ p. IsFrom now prefs p) (sym same) (nothing_asked now prefs)
      | inr wrote ↦ subst (λ p. IsFrom now prefs p) (sym wrote) (writer-IsFrom key now prefs other)
    ],
    allows-IsLiveAt sub key now prefs,
  )

  pub tool_class_session_allows-IsAsked :
      (tool scope : Text) (now : ℕ) (prefs : List Preference)
      → IsAsked now prefs
          (tool_class_allow_key (class_name tool) scope)
          (tool_class_session_allows sub tool scope now prefs)
  unfolding tool_class_session_allows tool_class_allow_key text_beq
  tool_class_session_allows-IsAsked tool scope now prefs =
      guarded-IsAsked now (is_empty (class_name tool) || is_empty (strip scope)) prefs _ _ λ e.
        allows-IsAsked (tool_class_allow_key (class_name tool) scope) now prefs (
          ap (λ k. k == write_gate_key)
            (strip-append 116 (txt "ool_class_allow:" ++ lower (strip (class_name tool)) ++ txt ":")
              scope refl (right_empty (is_empty (class_name tool)) (is_empty (strip scope)) e)))

  pub tool_exact_session_allows-IsAsked :
      (tool scope : Text) (now : ℕ) (prefs : List Preference)
      → IsAsked now prefs
          (tool_exact_allow_key (exact_name tool) scope)
          (tool_exact_session_allows sub tool scope now prefs)
  unfolding tool_exact_session_allows tool_exact_allow_key text_beq
  tool_exact_session_allows-IsAsked tool scope now prefs =
      guarded-IsAsked now (is_empty (exact_name tool) || is_empty (strip scope)) prefs _ _ λ e.
        allows-IsAsked (tool_exact_allow_key (exact_name tool) scope) now prefs (
          ap (λ k. k == write_gate_key)
            (strip-append 116
              (txt "ool_exact_allow:" ++ lower (exact_name (exact_name tool)) ++ txt ":") scope refl
              (right_empty (is_empty (exact_name tool)) (is_empty (strip scope)) e)))
