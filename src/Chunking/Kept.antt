-- ===== src/Chunking/Kept.antt =====
-- discord/chunking.py: the chunks hold the whole text but white space at the cuts, whatever the
-- limit, and the loop ends.
use discord_os.Prelude.{
  ℕ, zero, suc, ◌≤◌, ◌≡◌, refl, sym, ap, ◌∙◌, inl, inr, not, ◌&&◌, some, List, [], ◌∷◌, ◌++◌,
  append-nil, arith, leb, if◌then◌else◌, Bool-cases, All, length, take, drop, is_empty, select,
  take-append-drop, length-drop,
}
use discord_os.Text.{Text, is_space, lstrip, rstrip}
use discord_os.Chunking.{break_at, cut, chunks_from, ok, chunked, chunk_message}
use discord_os.Chunking.Bounds.{IsChunk, cut_bounds, length-lstrip}

-- The characters of a text that are not white space.
abbrev pub visible : Text → Text
visible s = select (λ c. not (is_space c)) s

-- "".join(texts)
abbrev pub join : List Text → Text
join [] = []
join (t ∷ texts) = t ++ join texts

visible-append : (s t : Text) → visible (s ++ t) ≡ visible s ++ visible t
visible-append [] t = refl
visible-append (c ∷ s) t = elim (Bool-cases (is_space c)) [
  | inl e ↦ rw e (visible-append s t)
  | inr e ↦ rw e (ap (λ u. c ∷ u) (visible-append s t))
]

visible-cons : (c : ℕ) (s t : Text) → visible s ≡ visible t → visible (c ∷ s) ≡ visible (c ∷ t)
visible-cons c s t h = elim (Bool-cases (is_space c)) [
  | inl e ↦ rw e h
  | inr e ↦ rw e (ap (λ u. c ∷ u) h)
]

visible_unless_last :
    (c : ℕ) (r : Text) → visible (if is_empty r && is_space c then [] else c ∷ r) ≡ visible (c ∷ r)
visible_unless_last c [] = ground arith
visible_unless_last c (x ∷ r) = refl

visible-rstrip : (s : Text) → visible (rstrip s) ≡ visible s
unfolding rstrip
visible-rstrip [] = refl
visible-rstrip (c ∷ s) =
    visible_unless_last c (rstrip s) ∙ visible-cons c (rstrip s) s (visible-rstrip s)

visible-lstrip : (s : Text) → visible (lstrip s) ≡ visible s
unfolding lstrip
visible-lstrip [] = refl
visible-lstrip (c ∷ s) = ground (arith, visible-lstrip s)

drop-length-take : (n : ℕ) (s : Text) → drop (length (take n s)) s ≡ drop n s
drop-length-take zero s = refl
drop-length-take (suc n) [] = refl
drop-length-take (suc n) (c ∷ s) = drop-length-take n s

visible_parts : (n : ℕ) (s : Text) → visible (take n s) ++ visible (drop n s) ≡ visible s
visible_parts n s = sym (visible-append (take n s) (drop n s)) ∙ ap visible (take-append-drop n s)

visible-cut :
    (limit : ℕ) (s : Text) → visible (cut limit s).0 ++ visible (drop (cut limit s).1 s) ≡ visible s
unfolding cut
visible-cut limit s = elim (Bool-cases (is_empty (rstrip (take (break_at limit s) s)))) [
  | inl e ↦ rw e (
      ap (λ t. visible (take limit s) ++ visible t) (drop-length-take limit s)
      ∙ visible_parts limit s)
  | inr e ↦ rw e (
      ap (λ t. t ++ visible (drop (break_at limit s) s))
        (visible-rstrip (take (break_at limit s) s))
      ∙ visible_parts (break_at limit s) s)
]

-- What the loop is to give for a text.
abbrev Cuts : ℕ → Text → List Text → Type 0
Cuts limit s chunks = All (IsChunk limit) chunks × (visible (join chunks) ≡ visible s)

rest_of : ℕ → Text → Text
rest_of limit s = lstrip (drop (cut limit s).1 s)

length-rest_of : (limit c : ℕ) (s : Text) → 1 ≤ limit → length (rest_of limit (c ∷ s)) ≤ length s
unfolding rest_of
length-rest_of limit c s l = omega (
  arith,
  (cut_bounds limit c s l).1,
  length-lstrip (drop (cut limit (c ∷ s)).1 (c ∷ s)),
  length-drop (cut limit (c ∷ s)).1 (c ∷ s),
)

cut-Cuts :
    (limit c : ℕ) (s : Text) (chunks : List Text)
    → 1 ≤ limit
    → Cuts limit (rest_of limit (c ∷ s)) chunks
    → Cuts limit (c ∷ s) ((cut limit (c ∷ s)).0 ∷ chunks)
unfolding rest_of
cut-Cuts limit c s chunks l (a, v) = (
  ((cut_bounds limit c s l).0, a),
  visible-append (cut limit (c ∷ s)).0 (join chunks)
      ∙ ap (λ t. visible (cut limit (c ∷ s)).0 ++ t)
          (v ∙ visible-lstrip (drop (cut limit (c ∷ s)).1 (c ∷ s)))
      ∙ visible-cut limit (c ∷ s),
)

-- A text that is short enough is one chunk.
whole-Cuts : (limit : ℕ) (s : Text) → 1 ≤ length s → length s ≤ limit → Cuts limit s (s ∷ [])
whole-Cuts limit s h k = (((h, k), tt), ap visible (append-nil s))

chunks_from-Cuts :
    (limit fuel : ℕ) (s : Text)
    → 1 ≤ limit
    → length s ≤ fuel
    → (chunks : List Text) × (chunks_from limit fuel s ≡ some chunks) × Cuts limit s chunks
unfolding chunks_from rest_of
chunks_from-Cuts limit fuel [] l f = ([], refl, (tt, refl))
chunks_from-Cuts limit zero (c ∷ s) l f = absurd (omega arith)
chunks_from-Cuts limit (suc fuel) (c ∷ s) l f = elim (Bool-cases (leb (length (c ∷ s)) limit)) [
  | inl small ↦
      ((c ∷ s) ∷ [], rw small, whole-Cuts limit (c ∷ s) (omega arith) (ground (arith, small)))
  | inr big ↦
      let fits : length (rest_of limit (c ∷ s)) ≤ fuel =
        omega (arith, length-rest_of limit c s l) in
      let (chunks, e, h) = chunks_from-Cuts limit fuel (rest_of limit (c ∷ s)) l fits in
      ((cut limit (c ∷ s)).0 ∷ chunks, ground (arith, big, e), cut-Cuts limit c s chunks l h)
]

-- A text that is not empty is cut into chunks that are not empty and within the limit; together
-- they hold all of its characters in their order but white space.
pub chunk_message-Cuts :
    (limit : ℕ) (content : Text)
    → 1 ≤ limit
    → 1 ≤ length content
    → (chunks : List Text) × (chunk_message limit content ≡ ok chunks)
      × All (IsChunk limit) chunks
      × (visible (join chunks) ≡ visible content)
unfolding chunk_message chunked
chunk_message-Cuts limit content l n = elim (Bool-cases (leb (length content) limit)) [
  | inl small ↦ (
    content ∷ [],
    ground (arith, small),
    ((n, ground (arith, small)), tt),
    ap visible (append-nil content),
  )
  | inr big ↦
      let (chunks, e, h) = chunks_from-Cuts limit (length content) content l (omega arith) in
      (chunks, ground (arith, big, e), h.0, h.1)
]
