-- ===== src/Chunking/Bounds.antt =====
-- discord/chunking.py: the loop ends, and no chunk is empty or longer than the limit.
use discord_os.Prelude.{
  ℕ, zero, suc, ◌+◌, ◌≤◌, ◌≡◌, inl, inr, true, false, Option, none, some, [], ◌∷◌, arith,
  Bool-cases, Option-cases, length, take, is_empty, length-take,
}
use discord_os.Text.{Text, txt, starts_with, lstrip, rstrip}
use discord_os.Chunking.{rfind, break_after, or_else, best_break, break_at, cut}

length-starts_with : (p s : Text) → starts_with p s ≡ true → length p ≤ length s
unfolding starts_with
length-starts_with [] s h = omega arith
length-starts_with (c ∷ p) [] h = absurd (cc h)
length-starts_with (c ∷ p) (d ∷ s) h = ground (arith, h, length-starts_with p s)

rfind-le : (p s : Text) (i : ℕ) → rfind p s ≡ some i → i + length p ≤ length s
unfolding rfind
rfind-le p [] i h = ground (arith, h)
rfind-le p (c ∷ s) i h = elim (Option-cases (rfind p s)) [
  | inl e ↦ ground (arith, e, h, length-starts_with p (c ∷ s))
  | inr (j, e) ↦ ground (arith, e, h, rfind-le p s j)
]

-- Whether a break, if there is one, lies in the window.
abbrev Fits : ℕ → Option ℕ → Type 0
Fits n none = Unit
Fits n (some i) = i ≤ n

break_after-Fits : (p s : Text) → Fits (length s) (break_after (length p) (rfind p s))
unfolding break_after
break_after-Fits p s = elim (Option-cases (rfind p s)) [
  | inl e ↦ rw e tt
  | inr (zero, e) ↦ rw e tt
  | inr (suc i, e) ↦ rw e (rfind-le p s (suc i) e)
]

or_else-le : (n m : ℕ) (o : Option ℕ) → Fits n o → m ≤ n → or_else o m ≤ n
unfolding or_else
or_else-le n m none f h = h
or_else-le n m (some i) f h = f

best_break-le : (s : Text) → best_break s ≤ length s
unfolding best_break
best_break-le s = or_else-le (length s) _ _ (break_after-Fits (10 ∷ 10 ∷ []) s) (
    or_else-le (length s) _ _ (break_after-Fits (10 ∷ []) s)
      (or_else-le (length s) _ _ (break_after-Fits (txt " ") s) (omega arith)))

pub break_at_bounds :
    (limit : ℕ) (s : Text) → 1 ≤ limit → (1 ≤ break_at limit s) × (break_at limit s ≤ limit)
unfolding break_at
break_at_bounds limit s h = ground (arith, best_break-le (take limit s), length-take limit s)

length-rstrip : (s : Text) → length (rstrip s) ≤ length s
unfolding rstrip
length-rstrip [] = omega arith
length-rstrip (c ∷ s) = ground (arith, length-rstrip s)

pub length-lstrip : (s : Text) → length (lstrip s) ≤ length s
unfolding lstrip
length-lstrip [] = omega arith
length-lstrip (c ∷ s) = ground (arith, length-lstrip s)

-- A chunk that Discord takes.
abbrev pub IsChunk : ℕ → Text → Type 0
IsChunk limit chunk = (1 ≤ length chunk) × (length chunk ≤ limit)

nonempty : (s : Text) → is_empty s ≡ false → 1 ≤ length s
nonempty [] h = absurd (cc h)
nonempty (c ∷ s) h = omega arith

pub cut_bounds :
    (limit c : ℕ) (s : Text)
    → 1 ≤ limit
    → IsChunk limit (cut limit (c ∷ s)).0 × (1 ≤ (cut limit (c ∷ s)).1)
unfolding cut
cut_bounds limit c s h =
    elim (Bool-cases (is_empty (rstrip (take (break_at limit (c ∷ s)) (c ∷ s))))) [
      | inl e ↦ rw e (
        (omega (arith, length-take limit (c ∷ s)), omega (arith, length-take limit (c ∷ s))),
        omega (arith, length-take limit (c ∷ s)),
      )
      | inr e ↦ rw e (
        (
          nonempty _ e,
          omega (
            arith,
            length-rstrip (take (break_at limit (c ∷ s)) (c ∷ s)),
            length-take (break_at limit (c ∷ s)) (c ∷ s),
            break_at_bounds limit (c ∷ s) h,
          ),
        ),
        omega (arith, break_at_bounds limit (c ∷ s) h),
      )
    ]
