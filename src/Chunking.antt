-- ===== src/Chunking.antt =====
-- discord/chunking.py: a text is cut into messages.
pub mod Bounds
pub mod Kept
mod Tests
use discord_os.Prelude.{
  ℕ, zero, suc, ◌+◌, Option, none, some, List, [], ◌∷◌, ltb, leb, nat_eq, ◌==◌, if◌then◌else◌,
  length, take, drop, is_empty,
}
use discord_os.Text.{Text, txt, text_eq, starts_with, lstrip, rstrip}

-- DEFAULT_LIMIT
abbrev pub default_limit : ℕ
default_limit = 2000

-- window.rfind(p), or `none` where it is -1
unfoldable pub rfind : Text → Text → Option ℕ
unfolding starts_with
rfind p [] = if is_empty p then some 0 else none
rfind p (c ∷ s) =
    let later = rfind p s in
    elim later [ some i ↦ some (suc i) | none ↦ if starts_with p (c ∷ s) then some 0 else none ]

-- A find counts where its place is above 0.
unfoldable pub break_after : ℕ → Option ℕ → Option ℕ
break_after size none = none
break_after size (some zero) = none
break_after size (some (suc i)) = some (suc i + size)

unfoldable pub or_else : Option ℕ → ℕ → ℕ
or_else none n = n
or_else (some i) n = i

-- _best_break
unfoldable pub best_break : Text → ℕ
unfolding rfind break_after or_else
best_break window = or_else (break_after 2 (rfind (10 ∷ 10 ∷ []) window)) (
    or_else (break_after 1 (rfind (10 ∷ []) window))
      (or_else (break_after 1 (rfind (txt " ") window)) 0))

-- Where the text is cut, before it is looked at what the cut leaves.
unfoldable pub break_at : ℕ → Text → ℕ
unfolding best_break
break_at limit remaining =
    if best_break (take limit remaining) == 0 then limit else best_break (take limit remaining)

-- The chunk that is cut off, and where the rest begins.
unfoldable pub cut : ℕ → Text → Text × ℕ
unfolding break_at rstrip
cut limit remaining =
    if is_empty (rstrip (take (break_at limit remaining) remaining))
    then (take limit remaining, length (take limit remaining))
    else (rstrip (take (break_at limit remaining) remaining), break_at limit remaining)

-- The loop, with fuel; `none` means that the fuel ran out.
unfoldable pub chunks_from : ℕ → ℕ → Text → Option (List Text)
unfolding cut lstrip
chunks_from limit fuel [] = some []
chunks_from limit zero (c ∷ s) = none
chunks_from limit (suc fuel) (c ∷ s) =
    let (piece, at) = cut limit (c ∷ s) in
    let more = chunks_from limit fuel (lstrip (drop at (c ∷ s))) in
    if leb (length (c ∷ s)) limit
    then some ((c ∷ s) ∷ [])
    else elim more [ none ↦ none | some chunks ↦ some (piece ∷ chunks) ]

pub data Chunked : Type 0 where
  limit_too_small out_of_fuel : Chunked
  ok : List Text → Chunked

unfoldable pub chunked : Option (List Text) → Chunked
chunked none = out_of_fuel
chunked (some chunks) = ok chunks

-- chunk_message; each round of the loop takes at least one character
unfoldable pub chunk_message : ℕ → Text → Chunked
unfolding chunks_from chunked
chunk_message limit content =
    if ltb limit 1
    then limit_too_small
    else if is_empty content
    then ok ([] ∷ [])
    else if leb (length content) limit
    then ok (content ∷ [])
    else chunked (chunks_from limit (length content) content)
