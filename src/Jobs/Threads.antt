-- ===== src/Jobs/Threads.antt =====
-- orchestration/jobs.py: which Discord threads have a live job, by the pool and by the origin threads
-- that runs have noted.
use discord_os.Prelude.{
  ℕ, ◌≡◌, inl, inr, Bool, true, false, not, ◌||◌, List, [], ◌∷◌, ◌++◌, map, arith, nat_eq, ◌==◌,
  if◌then◌else◌, eq_self, Bool-cases, is_empty, select, member,
}
use discord_os.Text.{Text, text_eq, text_beq_iff, strip}
use discord_os.Text.Members.{member-append, member-select}
use discord_os.Jobs.State.{System}

-- `_ORIGIN_THREADS` is a list without repetitions.
unfoldable pub note_origin_thread : Text → List Text → List Text
note_origin_thread thread_id origins =
    let tid = strip thread_id in
    if is_empty tid then origins else if member tid origins then origins else origins ++ tid ∷ []

unfoldable pub drop_origin_thread : Text → List Text → List Text
drop_origin_thread thread_id origins =
    let tid = strip thread_id in select (λ t. not (t == tid)) origins

-- The texts of `more` that are neither empty nor there already, put behind `ordered`.
unfoldable pub add_missing : List Text → List Text → List Text
add_missing ordered [] = ordered
add_missing ordered (t ∷ more) =
    add_missing (if is_empty t || member t ordered then ordered else ordered ++ t ∷ []) more

-- list(dict.fromkeys(texts))
unfoldable pub without_repeats : List Text → List Text → List Text
without_repeats ordered [] = ordered
without_repeats ordered (t ∷ more) =
    without_repeats (if member t ordered then ordered else ordered ++ t ∷ []) more

module _ {R : Type 0} where
  abbrev pub pool_threads : System R → List Text
  pool_threads s = map (λ (e : ℕ × Text). e.1) s.pool.live_threads

  unfoldable pub is_thread_live : System R → List Text → Text → Bool
  is_thread_live s origins thread_id =
      let tid = strip thread_id in
      if is_empty tid
      then false
      else if member tid (pool_threads s)
      then true
      else member tid origins

  unfoldable pub live_thread_ids : System R → List Text → List Text
  live_thread_ids s origins = add_missing (without_repeats [] (pool_threads s)) origins

member-without_repeats :
    (t : Text) (ordered more : List Text)
    → member t (without_repeats ordered more) ≡ (member t ordered || member t more)
unfolding without_repeats
member-without_repeats t ordered [] = ground arith
member-without_repeats t ordered (u ∷ more) = elim (Bool-cases (member u ordered)) [
  | inl y ↦ rw y (ground (arith, y, text_beq_iff u t, member-without_repeats t ordered more))
  | inr n ↦ rw n (
      ground (
        arith,
        text_beq_iff u t,
        member-append t ordered (u ∷ []),
        member-without_repeats t (ordered ++ u ∷ []) more,
      ))
]

member-add_missing :
    (t : Text) (ordered more : List Text)
    → is_empty t ≡ false
    → member t (add_missing ordered more) ≡ (member t ordered || member t more)
unfolding add_missing
member-add_missing t ordered [] h = ground arith
member-add_missing t ordered (u ∷ more) h = elim (Bool-cases (is_empty u || member u ordered)) [
  | inl y ↦ rw y (ground (arith, y, text_beq_iff u t, member-add_missing t ordered more))
  | inr n ↦ rw n (
      ground (
        arith,
        text_beq_iff u t,
        member-append t ordered (u ∷ []),
        member-add_missing t (ordered ++ u ∷ []) more,
      ))
]

module _ {R : Type 0} where
  -- The list of live threads and the test for one thread agree: a thread id that is not empty once
  -- stripped is in the list exactly when the test says that it is live.
  pub live_thread_ids-is_thread_live :
      (s : System R) (origins : List Text) (t : Text)
      → is_empty (strip t) ≡ false
      → member (strip t) (live_thread_ids s origins) ≡ is_thread_live s origins t
  unfolding live_thread_ids is_thread_live
  live_thread_ids-is_thread_live s origins t h = ground (
    arith,
    member-add_missing (strip t) (without_repeats [] (pool_threads s)) origins,
    member-without_repeats (strip t) [] (pool_threads s),
  )

  -- A noted thread is live; a dropped one is live only if the pool has a job in it.
  pub origin_thread_live :
      (s : System R) (origins : List Text) (t : Text)
      → is_empty (strip t) ≡ false
      → (is_thread_live s (note_origin_thread t origins) t ≡ true)
        × (is_thread_live s (drop_origin_thread t origins) t ≡ member (strip t) (pool_threads s))
  unfolding is_thread_live note_origin_thread drop_origin_thread
  origin_thread_live s origins t h = (
    ground (arith, member-append (strip t) origins (strip t ∷ []), eq_self (strip t)),
    ground (arith, member-select (strip t) (strip t) origins, eq_self (strip t)),
  )
