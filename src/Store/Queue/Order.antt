-- ===== src/Store/Queue/Order.antt =====
-- persistence/sqlite.py: the order in which follow-ups are listed.
use discord_os.Prelude.{
  ℕ, suc, ◌+◌, min, max, ◌≤◌, ◌≡◌, refl, sym, ap, ◌∙◌, subst, ◌⊎◌, inl, inr, ◌↔◌, Bool-cases,
  is_empty, nat_eq, ◌==◌, Bool, true, false, List, [], ◌∷◌, ◌++◌, arith, if◌then◌else◌, All, length,
  take, drop, select, take-append-drop, length-take, total,
}
use discord_os.Text.{Text, text_eq, text_beq_iff, strip}
use discord_os.Store.Queue.{
  QueueStatus, is_queued, is_applied, is_dropped, is_open, Queued, text_leb, comes_before,
  insert_by, sort_queued, is_asked, list_queued_inbound,
}

text_leb_total : (s t : Text) → text_leb s t ≡ false → text_leb t s ≡ true
unfolding text_leb
text_leb_total [] t e = cc e
text_leb_total (c ∷ s) [] e = refl
text_leb_total (c ∷ s) (d ∷ t) e = ground (arith, e, text_leb_total s t)

text_leb_trans : (s t u : Text) → text_leb s t ≡ true → text_leb t u ≡ true → text_leb s u ≡ true
unfolding text_leb
text_leb_trans [] t u e f = refl
text_leb_trans (c ∷ s) [] u e f = cc e
text_leb_trans (c ∷ s) (d ∷ t) [] e f = cc f
text_leb_trans (c ∷ s) (d ∷ t) (g ∷ u) e f = ground (arith, e, f, text_leb_trans s t u)

before_total : (a b : Queued) → comes_before a b ≡ false → comes_before b a ≡ true
unfolding comes_before
before_total a b e = ground (arith, e, text_leb_total a.queue_id b.queue_id)

before_trans :
    (a b c : Queued) → comes_before a b ≡ true → comes_before b c ≡ true → comes_before a c ≡ true
unfolding comes_before
before_trans a b c e f = ground (arith, e, f, text_leb_trans a.queue_id b.queue_id c.queue_id)

-- Each row comes before all that follow it.
abbrev IsSorted : List Queued → Type 0
IsSorted [] = Unit
IsSorted (r ∷ rows) = All (λ x. comes_before r x ≡ true) rows × IsSorted rows

-- What comes after a row comes after all that come before it.
All-before :
    (r x : Queued) (rows : List Queued)
    → comes_before r x ≡ true
    → All (λ y. comes_before x y ≡ true) rows
    → All (λ y. comes_before r y ≡ true) rows
All-before r x [] e a = tt
All-before r x (y ∷ rows) e (a, later) = (before_trans r x y e a, All-before r x rows e later)

All-if :
    (P : List Queued → Type 0) (b : Bool) (x y : List Queued)
    → (b ≡ true → P x)
    → (b ≡ false → P y)
    → P (if b then x else y)
All-if P true x y p q = p refl
All-if P false x y p q = q refl

All-insert_by :
    (r x : Queued) (rows : List Queued)
    → comes_before x r ≡ true
    → All (λ y. comes_before x y ≡ true) rows
    → All (λ y. comes_before x y ≡ true) (insert_by r rows)
unfolding insert_by
All-insert_by r x [] e a = (e, tt)
All-insert_by r x (z ∷ rows) e (a, later) =
    All-if (All (λ y. comes_before x y ≡ true)) (comes_before r z) (r ∷ z ∷ rows)
      (z ∷ insert_by r rows) (λ t. (e, (a, later))) (λ f. (a, All-insert_by r x rows e later))

insert_by-IsSorted : (r : Queued) (rows : List Queued) → IsSorted rows → IsSorted (insert_by r rows)
unfolding insert_by
insert_by-IsSorted r [] o = (tt, tt)
insert_by-IsSorted r (x ∷ rows) (a, o) =
    All-if IsSorted (comes_before r x) (r ∷ x ∷ rows) (x ∷ insert_by r rows)
      (λ t. ((t, All-before r x rows t a), (a, o)))
      (λ f. (All-insert_by r x rows (before_total r x f) a, insert_by-IsSorted r rows o))

sort_queued-IsSorted : (rows : List Queued) → IsSorted (sort_queued rows)
unfolding sort_queued
sort_queued-IsSorted [] = tt
sort_queued-IsSorted (r ∷ rows) =
    insert_by-IsSorted r (sort_queued rows) (sort_queued-IsSorted rows)

total-insert_by :
    (w : Queued → ℕ) (r : Queued) (rows : List Queued)
    → total w (insert_by r rows) ≡ w r + total w rows
unfolding insert_by total
total-insert_by w r [] = refl
total-insert_by w r (x ∷ rows) = ground (arith, total-insert_by w r rows)

total-sort_queued :
    (w : Queued → ℕ) (rows : List Queued) → total w (sort_queued rows) ≡ total w rows
unfolding sort_queued total
total-sort_queued w [] = refl
total-sort_queued w (r ∷ rows) =
    omega (arith, total-insert_by w r (sort_queued rows), total-sort_queued w rows)

length-insert_by : (r : Queued) (rows : List Queued) → length (insert_by r rows) ≡ suc (length rows)
unfolding insert_by
length-insert_by r [] = refl
length-insert_by r (x ∷ rows) = ground (arith, length-insert_by r rows)

length-sort_queued : (rows : List Queued) → length (sort_queued rows) ≡ length rows
unfolding sort_queued
length-sort_queued [] = refl
length-sort_queued (r ∷ rows) =
    omega (arith, length-insert_by r (sort_queued rows), length-sort_queued rows)

-- The order of two texts: by the first character in which they differ, a beginning first.
abbrev pub IsUpTo : Text → Text → Type 0
IsUpTo [] t = Unit
IsUpTo (c ∷ s) [] = ⊥
IsUpTo (c ∷ s) (d ∷ t) = (c + 1 ≤ d) ⊎ ((c ≡ d) × IsUpTo s t)

-- Older, or of the same millisecond and not after it by its queue id.
abbrev pub IsEarlier : Queued → Queued → Type 0
IsEarlier r x =
    (r.created_ms + 1 ≤ x.created_ms)
    ⊎ ((r.created_ms ≡ x.created_ms) × IsUpTo r.queue_id x.queue_id)

-- Each row is earlier than all that follow it.
abbrev pub IsOrdered : List Queued → Type 0
IsOrdered [] = Unit
IsOrdered (r ∷ rows) = All (λ x. IsEarlier r x) rows × IsOrdered rows

text_leb-IsUpTo : (s t : Text) → text_leb s t ≡ true → IsUpTo s t
unfolding text_leb
text_leb-IsUpTo [] t e = tt
text_leb-IsUpTo (c ∷ s) [] e = cc e
text_leb-IsUpTo (c ∷ s) (d ∷ t) e = elim (Bool-cases (c == d)) [
  | inl same ↦ inr (ground (arith, same), text_leb-IsUpTo s t (ground (arith, e, same)))
  | inr other ↦ inl (ground (arith, e, other))
]

comes_before-IsEarlier : (r x : Queued) → comes_before r x ≡ true → IsEarlier r x
unfolding comes_before
comes_before-IsEarlier r x e = elim (Bool-cases (r.created_ms == x.created_ms)) [
  | inl same ↦
      inr (ground (arith, same), text_leb-IsUpTo r.queue_id x.queue_id (ground (arith, e, same)))
  | inr other ↦ inl (ground (arith, e, other))
]

All-IsEarlier :
    (r : Queued) (rows : List Queued)
    → All (λ x. comes_before r x ≡ true) rows
    → All (λ x. IsEarlier r x) rows
All-IsEarlier r [] a = tt
All-IsEarlier r (x ∷ rows) (e, a) = (comes_before-IsEarlier r x e, All-IsEarlier r rows a)

sorted-IsOrdered : (rows : List Queued) → IsSorted rows → IsOrdered rows
sorted-IsOrdered [] o = tt
sorted-IsOrdered (r ∷ rows) (a, o) = (All-IsEarlier r rows a, sorted-IsOrdered rows o)

-- A row that waits, in the thread that is asked for, or in any if none is.
abbrev pub Waits : Text → Queued → Type 0
Waits thread_id r =
    (r.status ≡ is_queued) × ((strip thread_id ≡ []) ⊎ (r.thread_id ≡ strip thread_id))

is_open-is_queued : (s : QueueStatus) → is_open s ≡ true → s ≡ is_queued
unfolding is_open
is_open-is_queued is_queued e = refl
is_open-is_queued is_applied e = cc e
is_open-is_queued is_dropped e = cc e

nil_or : (t : Text) → is_empty t ≡ true → t ≡ []
nil_or [] e = refl
nil_or (x ∷ t) e = cc e

is_asked-Waits : (thread_id : Text) (r : Queued) → is_asked thread_id r ≡ true → Waits thread_id r
unfolding is_asked
is_asked-Waits thread_id r e = (
  is_open-is_queued r.status (ground (arith, e)),
  elim (Bool-cases (is_empty (strip thread_id))) [
    | inl t ↦ inl (nil_or (strip thread_id) t)
    | inr f ↦ inr (ground (arith, e, f, text_beq_iff r.thread_id (strip thread_id)))
  ],
)

Waits-is_asked : (thread_id : Text) (r : Queued) → Waits thread_id r → is_asked thread_id r ≡ true
unfolding is_asked is_open
Waits-is_asked thread_id r (q, inl none_asked) = rw (q, none_asked) refl
Waits-is_asked thread_id r (q, inr same) =
    rw q (ground (arith, same, text_beq_iff r.thread_id (strip thread_id)))

-- What is listed, with the rest, is all that waits in the thread that is asked for, or anywhere if
-- none is: the older rows first, and by the queue id where two were written in one millisecond, and
-- each row as often as it is in the table. At least one and at most fifty are listed, where there
-- are as many.
pub list_queued_inbound-IsOrdered :
    (thread_id : Text) (limit : ℕ) (rows : List Queued)
    → ((rest : List Queued) × IsOrdered (list_queued_inbound thread_id limit rows ++ rest)
        × ((w : Queued → ℕ)
            → total w (list_queued_inbound thread_id limit rows ++ rest)
              ≡ total w (select (is_asked thread_id) rows)))
      × (length (list_queued_inbound thread_id limit rows)
          ≡ min (max 1 (min limit 50)) (length (select (is_asked thread_id) rows)))
      × ((r : Queued) → (is_asked thread_id r ≡ true) ↔ Waits thread_id r)
unfolding list_queued_inbound
list_queued_inbound-IsOrdered thread_id limit rows =
    let asked = select (is_asked thread_id) rows in
    let n = max 1 (min limit 50) in
    let whole : take n (sort_queued asked) ++ drop n (sort_queued asked) ≡ sort_queued asked =
      take-append-drop n (sort_queued asked) in
    (
      (
        drop n (sort_queued asked),
        subst IsOrdered (sym whole)
            (sorted-IsOrdered (sort_queued asked) (sort_queued-IsSorted asked)),
        (λ w. ap (total w) whole ∙ total-sort_queued w asked),
      ),
      omega (arith, length-take n (sort_queued asked), length-sort_queued asked),
      (λ r. (is_asked-Waits thread_id r, Waits-is_asked thread_id r)),
    )
