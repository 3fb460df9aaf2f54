-- ===== src/Gate/Grants/Revoked.antt =====
-- orchestration/service.py: HOST Off revokes every "Always allow" of every kind.
use discord_os.Prelude.{
  ℕ, ◌≡◌, refl, sym, subst, ◌⊎◌, inl, inr, Bool, true, false, not, ◌&&◌, ◌||◌, Option, none, some,
  List, [], ◌∷◌, ◌++◌, nat_eq, ◌==◌, if◌then◌else◌, is_empty, arith, All, any, select, Bool-cases,
  Option-cases,
}
use discord_os.Text.{Text, txt, text_eq, strip, lower, text_beq, text_beq_iff}
use discord_os.Text.Number.{pos, int_of}
use discord_os.Text.Strip.{strip-append}
use discord_os.Table.{row_of, row_of-upsert}
use discord_os.Gate.Preferences.{
  Preference, key_of, preference, row_for, host_pref, set_preference, writer,
}
use discord_os.Gate.Grants.{
  over, allows, write_session_allow_key, write_session_allows_writes, class_name,
  tool_class_allow_key, tool_class_session_allows, exact_name, tool_exact_allow_key,
  tool_exact_session_allows, is_grant_key, is_preference, clear_rows, clear_write_session_allows,
}

-- Every row under the key of a grant is listed among the preferences: `set_preference` gives that
-- kind to the rows of the grants.
abbrev pub GrantsAreListed : List Preference → Type 0
GrantsAreListed prefs = All (λ p. (is_preference p ≡ true) ⊎ (is_grant_key p.key ≡ false)) prefs

abbrev has : Text → List Preference → Bool
has k rows = any (λ r. r.key == k) rows

-- What is read where no grant is left.
abbrev Cleared : Option Text → Type 0
Cleared value = (value ≡ none) ⊎ (value ≡ some (txt "0"))

-- No grant of any kind is left.
abbrev pub IsRevoked : List Preference → Type 0
IsRevoked prefs =
    (k : Text)
    → is_grant_key k ≡ true
    → strip k ≡ k
    → is_empty k ≡ false
    → Cleared (host_pref k prefs)

zero_or :
    (b : Bool) (value : Option Text) → Cleared value → Cleared (if b then some (txt "0") else value)
zero_or true value h = inr refl
zero_or false value h = h

right_false : (a b : Bool) → a || b ≡ false → b ≡ false
right_false true b h = cc h
right_false false b h = h

listed :
    (k : Text) (prefs : List Preference)
    → is_grant_key k ≡ true
    → GrantsAreListed prefs
    → (host_pref k prefs ≡ none) ⊎ (has k (select is_preference prefs) ≡ true)
unfolding host_pref row_of
listed k [] g a = inl refl
listed k (r ∷ prefs) g (p, more) = ground (arith, g, p, text_beq_iff r.key k, listed k prefs g more)

pub zero_number : int_of (strip (txt "0")) ≡ some (pos 0)
unfolding int_of strip
zero_number = refl

module _ (sub : Text → Text) (zero_kept : sub (txt "0") ≡ txt "0") where
  pub writer-zero :
      (j k : Text) (prefs : List Preference)
      → host_pref k (writer sub j (txt "0") prefs)
        ≡ (if not (is_empty (strip j)) && strip j == k then some (txt "0") else host_pref k prefs)
  unfolding host_pref writer set_preference
  writer-zero j k prefs = ground (
    arith,
    zero_kept,
    text_beq_iff (strip j) k,
    row_of-upsert key_of (row_for preference (strip j) (sub (txt "0"))) k prefs,
  )

  writer-Cleared :
      (j k : Text) (prefs : List Preference)
      → Cleared (host_pref k prefs)
      → Cleared (host_pref k (writer sub j (txt "0") prefs))
  writer-Cleared j k prefs h =
      subst Cleared (sym (writer-zero j k prefs))
        (zero_or (not (is_empty (strip j)) && strip j == k) (host_pref k prefs) h)

  stays :
      (k : Text) (rows prefs : List Preference)
      → Cleared (host_pref k prefs)
      → Cleared (host_pref k (clear_rows sub rows prefs))
  unfolding clear_rows
  stays k [] prefs h = h
  stays k (r ∷ rows) prefs h = elim (Bool-cases (is_grant_key r.key)) [
    | inl granted ↦ rw granted (stays k rows _ (writer-Cleared r.key k prefs h))
    | inr other ↦ rw other (stays k rows prefs h)
  ]

  cleared :
      (k : Text) (rows prefs : List Preference)
      → is_grant_key k ≡ true
      → strip k ≡ k
      → is_empty k ≡ false
      → has k rows ≡ true
      → Cleared (host_pref k (clear_rows sub rows prefs))
  unfolding clear_rows
  cleared k [] prefs g s e h = absurd (cc h)
  cleared k (r ∷ rows) prefs g s e h = elim (Bool-cases (text_beq r.key k)) [
    | inl same ↦ stays k rows _ (next ((text_beq_iff r.key k).0 same))
    | inr other ↦ cleared k rows _ g s e (ground (arith, h, other))
  ]
    where
      next :
          r.key ≡ k
          → Cleared
              (host_pref k (if is_grant_key r.key then writer sub r.key (txt "0") prefs else prefs))
      next same = inr (ground (arith, same, g, s, e, writer-zero k k prefs, text_beq_iff k k))

  -- No value that was cleared is a grant.
  allows-Cleared :
      (k : Text) (now : ℕ) (prefs : List Preference)
      → Cleared (host_pref k prefs)
      → (allows sub k now prefs).0 ≡ false
  unfolding allows over
  allows-Cleared k now prefs (inl h) = ground (arith, h)
  allows-Cleared k now prefs (inr h) = ground (arith, h, zero_number)

  pub clear_write_session_allows-IsRevoked :
      (prefs : List Preference)
      → GrantsAreListed prefs
      → IsRevoked (clear_write_session_allows sub prefs)
  unfolding clear_write_session_allows
  clear_write_session_allows-IsRevoked prefs a k g s e = elim (listed k prefs g a) [
    | inl absent ↦ stays k (select is_preference prefs) prefs (inl absent)
    | inr there ↦ cleared k (select is_preference prefs) prefs g s e there
  ]

  -- The preferences after a question: a grant that is over was cleared, or nothing was done.
  pub allows-after :
      (key : Text) (now : ℕ) (prefs : List Preference)
      → ((allows sub key now prefs).1 ≡ prefs)
        ⊎ ((allows sub key now prefs).1 ≡ writer sub key (txt "0") prefs)
  unfolding allows
  allows-after key now prefs = elim (Option-cases (host_pref key prefs)) [
    | inl h ↦ inl (ground (arith, h))
    | inr (raw, h) ↦ elim (Option-cases (int_of (strip raw))) [
      | inl i ↦ inl (ground (arith, h, i))
      | inr (expires, i) ↦ ground (arith, h, i)
    ]
  ]

  -- Asking for a grant makes none.
  pub allows-IsRevoked :
      (key : Text) (now : ℕ) (prefs : List Preference)
      → IsRevoked prefs
      → IsRevoked (allows sub key now prefs).1
  allows-IsRevoked key now prefs r k g s e = elim (allows-after key now prefs) [
    | inl same ↦ subst (λ p. Cleared (host_pref k p)) (sym same) (r k g s e)
    | inr wrote ↦
        subst (λ p. Cleared (host_pref k p)) (sym wrote) (writer-Cleared key k prefs (r k g s e))
  ]

  revoked :
      (k : Text) (now : ℕ) (prefs : List Preference)
      → IsRevoked prefs
      → is_grant_key k ≡ true
      → strip k ≡ k
      → is_empty k ≡ false
      → (allows sub k now prefs).0 ≡ false
  revoked k now prefs r g s e = allows-Cleared k now prefs (r k g s e)

  pub write_revoked :
      (scope : Text) (now : ℕ) (prefs : List Preference)
      → IsRevoked prefs
      → (write_session_allows_writes sub scope now prefs).0 ≡ false
  unfolding write_session_allows_writes write_session_allow_key is_grant_key
  write_revoked scope now prefs a = elim (Bool-cases (is_empty (strip scope))) [
    | inl e ↦ rw e
    | inr e ↦ rw e (
        revoked (write_session_allow_key scope) now prefs a refl
          (strip-append 119 (txt "rite_session_allow:") scope refl e) refl)
  ]

  pub class_revoked :
      (tool scope : Text) (now : ℕ) (prefs : List Preference)
      → IsRevoked prefs
      → (tool_class_session_allows sub tool scope now prefs).0 ≡ false
  unfolding tool_class_session_allows tool_class_allow_key is_grant_key
  class_revoked tool scope now prefs a =
      elim (Bool-cases (is_empty (class_name tool) || is_empty (strip scope))) [
        | inl e ↦ rw e
        | inr e ↦ rw e (
            revoked (tool_class_allow_key (class_name tool) scope) now prefs a refl
              (strip-append 116
                (txt "ool_class_allow:" ++ lower (strip (class_name tool)) ++ txt ":") scope refl
                (right_false (is_empty (class_name tool)) (is_empty (strip scope)) e))
              refl)
      ]

  pub exact_revoked :
      (tool scope : Text) (now : ℕ) (prefs : List Preference)
      → IsRevoked prefs
      → (tool_exact_session_allows sub tool scope now prefs).0 ≡ false
  unfolding tool_exact_session_allows tool_exact_allow_key is_grant_key
  exact_revoked tool scope now prefs a =
      elim (Bool-cases (is_empty (exact_name tool) || is_empty (strip scope))) [
        | inl e ↦ rw e
        | inr e ↦ rw e (
            revoked (tool_exact_allow_key (exact_name tool) scope) now prefs a refl
              (strip-append 116
                (txt "ool_exact_allow:" ++ lower (exact_name (exact_name tool)) ++ txt ":") scope
                refl (right_false (is_empty (exact_name tool)) (is_empty (strip scope)) e))
              refl)
      ]

  -- After HOST Off no "Always allow" is live: for no channel or thread may writes run without
  -- approval, and neither a class of tools nor a tool is allowed, whatever was granted before.
  pub clear_write_session_allows-revokes :
      (tool scope : Text) (now : ℕ) (prefs : List Preference)
      → GrantsAreListed prefs
      → ((write_session_allows_writes sub scope now (clear_write_session_allows sub prefs)).0
          ≡ false)
        × ((tool_class_session_allows sub tool scope now (clear_write_session_allows sub prefs)).0
            ≡ false)
        × ((tool_exact_session_allows sub tool scope now (clear_write_session_allows sub prefs)).0
            ≡ false)
  clear_write_session_allows-revokes tool scope now prefs a = (
    write_revoked scope now _ r,
    class_revoked tool scope now _ r,
    exact_revoked tool scope now _ r,
  )
    where
      r : IsRevoked (clear_write_session_allows sub prefs)
      r = clear_write_session_allows-IsRevoked prefs a
