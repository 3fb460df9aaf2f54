-- ===== src/Gate/Buttons/RoundTrip.antt =====
-- orchestration/ask_gate.py: the id of a button gives back the run and the option.
use discord_os.Prelude.{
  ℕ, zero, suc, ◌-◌, ◌≤◌, ◌≡◌, refl, ap, subst, ◌∙◌, false, none, some, [], ◌∷◌, ◌++◌, nat_eq,
  is_empty, take, length, member, arith,
}
use discord_os.Text.{Text, txt, strip, is_space}
use discord_os.Text.Strip.{strip-append}
use discord_os.Text.Number.{pos, int_of, str_of, is_digit}
use discord_os.Text.Number.RoundTrip.{Digits, strip-Digits, str_of-Digits, int_of-str_of}
use discord_os.Gate.Buttons.{
  ask_confirm_id_prefix, custom_id_max, option_prefix, ask_custom_id, rpartition, action_in,
  ask_action_from_custom_id, ask_confirm_custom_id, run_of, ask_confirm_action_from_custom_id,
}

take-all : (n : ℕ) (s : Text) → length s ≤ n → take n s ≡ s
take-all zero [] h = refl
take-all zero (c ∷ s) h = absurd (omega arith)
take-all (suc n) [] h = refl
take-all (suc n) (c ∷ s) h = ap (λ t. c ∷ t) (take-all n s (omega arith))

colon-Digits : (s : Text) → Digits s → member b':' s ≡ false
unfolding is_digit
colon-Digits [] d = refl
colon-Digits (c ∷ s) (d, more) = ground (arith, d, colon-Digits s more)

rpartition-none : (c : ℕ) (t : Text) → member c t ≡ false → rpartition c t ≡ none
unfolding rpartition
rpartition-none c [] h = refl
rpartition-none c (x ∷ t) h = ground (arith, h, rpartition-none c t)

rpartition-append :
    (c : ℕ) (r t : Text) → member c t ≡ false → rpartition c (r ++ c ∷ [] ++ t) ≡ some (r, t)
unfolding rpartition
rpartition-append c [] t h = ground (arith, rpartition-none c t h)
rpartition-append c (x ∷ r) t h = rw (rpartition-append c r t h)

number-nonempty : (s : Text) (n : ℕ) → int_of s ≡ some (pos n) → is_empty s ≡ false
unfolding int_of strip
number-nonempty [] n h = absurd (cc h)
number-nonempty (c ∷ s) n h = refl

minted :
    (rid : Text) (n : ℕ)
    → strip rid ≡ rid
    → length (str_of n) ≤ custom_id_max - length (option_prefix rid)
    → ask_custom_id rid n ≡ option_prefix rid ++ str_of n
unfolding ask_custom_id
minted rid n s fits =
    ap (λ r. option_prefix r ++ take (custom_id_max - length (option_prefix r)) (str_of n)) s
    ∙ ap (λ t. option_prefix rid ++ t) (take-all _ (str_of n) fits)

strip-minted :
    (rid : Text) (n : ℕ) → strip (option_prefix rid ++ str_of n) ≡ option_prefix rid ++ str_of n
unfolding is_space
strip-minted rid n =
    subst (λ t. strip (option_prefix rid ++ t) ≡ option_prefix rid ++ t)
      (strip-Digits (str_of n) (str_of-Digits n))
      (strip-append 100 (txt "iscord-os:ask:" ++ rid ++ txt ":") (str_of n) refl (
        ap is_empty (strip-Digits (str_of n) (str_of-Digits n))
        ∙ number-nonempty (str_of n) n (int_of-str_of n)))

parsed :
    (id rid t : Text)
    → strip id ≡ option_prefix rid ++ t
    → ask_action_from_custom_id id ≡ action_in (rpartition b':' (rid ++ txt ":" ++ t))
unfolding ask_action_from_custom_id
parsed id rid t h = rw h refl

action-parts :
    (rid : Text) (n : ℕ)
    → strip rid ≡ rid
    → is_empty rid ≡ false
    → action_in (some (rid, str_of n)) ≡ some (record { run_id = rid; option_index = n })
unfolding action_in
action-parts rid n s e =
    ground (arith, s, e, strip-Digits (str_of n) (str_of-Digits n), int_of-str_of n)

-- The id of the button of an option gives back the run and the option, where it has room for the
-- whole index and the run's id has no spaces around it.
pub ask_action_from_custom_id-ask_custom_id :
    (run_id : Text) (option_index : ℕ)
    → strip run_id ≡ run_id
    → is_empty run_id ≡ false
    → length (str_of option_index) ≤ custom_id_max - length (option_prefix run_id)
    → ask_action_from_custom_id (ask_custom_id run_id option_index)
      ≡ some (record { run_id = run_id; option_index = option_index })
ask_action_from_custom_id-ask_custom_id run_id option_index s e fits =
    ap ask_action_from_custom_id (minted run_id option_index s fits)
    ∙ parsed _ run_id (str_of option_index) (strip-minted run_id option_index)
    ∙ ap action_in (
        rpartition-append b':' run_id (str_of option_index)
          (colon-Digits (str_of option_index) (str_of-Digits option_index)))
    ∙ action-parts run_id option_index s e

strip-confirm :
    (rid : Text)
    → strip rid ≡ rid
    → is_empty rid ≡ false
    → strip (ask_confirm_id_prefix ++ rid) ≡ ask_confirm_id_prefix ++ rid
unfolding is_space
strip-confirm rid s e =
    subst (λ t. strip (ask_confirm_id_prefix ++ t) ≡ ask_confirm_id_prefix ++ t) s
      (strip-append 100 (txt "iscord-os:ask-confirm:") rid refl (ap is_empty s ∙ e))

confirm_parsed :
    (id rid : Text)
    → strip id ≡ ask_confirm_id_prefix ++ rid
    → (ask_action_from_custom_id id ≡ none)
      × (ask_confirm_action_from_custom_id id ≡ run_of (strip rid))
unfolding ask_action_from_custom_id ask_confirm_action_from_custom_id
confirm_parsed id rid h = (rw h refl, rw h refl)

run-parts : (rid : Text) → strip rid ≡ rid → is_empty rid ≡ false → run_of (strip rid) ≡ some rid
unfolding run_of
run-parts rid s e = ground (arith, s, e)

confirm_minted :
    (rid : Text)
    → strip rid ≡ rid
    → length rid ≤ custom_id_max - length ask_confirm_id_prefix
    → ask_confirm_custom_id rid ≡ ask_confirm_id_prefix ++ rid
unfolding ask_confirm_custom_id
confirm_minted rid s fits =
    ap (λ t. ask_confirm_id_prefix ++ take (custom_id_max - length ask_confirm_id_prefix) t) s
    ∙ ap (λ t. ask_confirm_id_prefix ++ t) (take-all _ rid fits)

-- The id of the Confirm button gives back the run, and is not read as that of an option.
pub ask_confirm_action_from_custom_id-ask_confirm_custom_id :
    (run_id : Text)
    → strip run_id ≡ run_id
    → is_empty run_id ≡ false
    → length run_id ≤ custom_id_max - length ask_confirm_id_prefix
    → (ask_confirm_action_from_custom_id (ask_confirm_custom_id run_id) ≡ some run_id)
      × (ask_action_from_custom_id (ask_confirm_custom_id run_id) ≡ none)
ask_confirm_action_from_custom_id-ask_confirm_custom_id run_id s e fits =
    (parts.1 ∙ run-parts run_id s e, parts.0)
  where
    parts :
        (ask_action_from_custom_id (ask_confirm_custom_id run_id) ≡ none)
        × (ask_confirm_action_from_custom_id (ask_confirm_custom_id run_id) ≡ run_of (strip run_id))
    parts =
        confirm_parsed (ask_confirm_custom_id run_id) run_id
          (ap strip (confirm_minted run_id s fits) ∙ strip-confirm run_id s e)
