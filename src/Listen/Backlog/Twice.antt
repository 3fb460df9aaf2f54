-- ===== src/Listen/Backlog/Twice.antt =====
-- orchestration/listen.py: a drain of what was drained already does nothing.
use discord_os.Prelude.{
  ◌≡◌, refl, sym, ap, subst, ◌⊎◌, inl, inr, Bool, true, false, ◌&&◌, ◌||◌, List, [], ◌∷◌, ◌++◌, map,
  arith, nat_eq, ◌==◌, if◌then◌else◌, Bool-cases, other_true, All, select, member,
}
use discord_os.Text.{Text, text_eq, text_beq_iff}
use discord_os.Operators.{Environment}
use discord_os.Listen.Desk.{Place, Desk}
use discord_os.Text.Members.{member-append}
use discord_os.Listen.Watermark.{Watermark, advance, advance_all, is_newer}
use discord_os.Listen.Watermark.Covers.{IsNumber, IsMark, advance_all-covers}
use discord_os.Listen.Drain.{handle}
use discord_os.Listen.Backlog.{Inbound, id_of, drain_each, drain_inbound}

drained-mark :
    (env : Environment) (place : Place) (pending : List Inbound) (w : Watermark) (d : Desk)
    → (drain_each env place pending (w, d)).0 ≡ advance_all (map id_of pending) w
unfolding drain_each advance_all
drained-mark env place [] w d = refl
drained-mark env place (x ∷ pending) w d =
    drained-mark env place pending (advance x.1.message_id w) (handle env place x.0 x.1 d).1

-- What a drain takes up of a batch.
taken : Watermark → List Inbound → List Inbound
taken w batch = select (λ x. is_newer x.1.message_id w) batch

ids-append : (xs ys : List Inbound) → map id_of (xs ++ ys) ≡ map id_of xs ++ map id_of ys
ids-append [] ys = refl
ids-append (x ∷ xs) ys = ap (λ l. id_of x ∷ l) (ids-append xs ys)

All-append : (xs ys : List Text) → All IsNumber xs → All IsNumber ys → All IsNumber (xs ++ ys)
All-append [] ys a b = b
All-append (x ∷ xs) ys (p, a) b = (p, All-append xs ys a b)

numbers-if :
    (x : Inbound) (b : Bool) (rest : List Inbound)
    → IsNumber (id_of x)
    → All IsNumber (map id_of rest)
    → All IsNumber (map id_of (if b then x ∷ rest else rest))
numbers-if x true rest p a = (p, a)
numbers-if x false rest p a = a

numbers-taken :
    (w : Watermark) (batch : List Inbound)
    → All IsNumber (map id_of batch)
    → All IsNumber (map id_of (taken w batch))
unfolding taken
numbers-taken w [] a = tt
numbers-taken w (x ∷ batch) (p, a) =
    numbers-if x (is_newer x.1.message_id w) (taken w batch) p (numbers-taken w batch a)

right_or : (a b : Bool) → b ≡ true → (a || b) ≡ true
right_or a b h = ground (arith, h)

both : (a b : Bool) → a ≡ true → b ≡ true → (a && b) ≡ true
both a b g h = ground (arith, g, h)

member-if :
    (k : Text) (x : Inbound) (b : Bool) (rest : List Inbound)
    → (member k (map id_of rest) ≡ true) ⊎ ((id_of x == k && b) ≡ true)
    → member k (map id_of (if b then x ∷ rest else rest)) ≡ true
member-if k x true rest (inl h) = right_or (id_of x == k) (member k (map id_of rest)) h
member-if k x true rest (inr h) = ground (arith, h)
member-if k x false rest (inl h) = h
member-if k x false rest (inr h) = ground (arith, h)

-- A message of the batch that is newer than the mark is taken.
member-taken :
    (w : Watermark) (k : Text) (batch : List Inbound)
    → is_newer k w ≡ true
    → member k (map id_of batch) ≡ true
    → member k (map id_of (taken w batch)) ≡ true
unfolding taken
member-taken w k [] new h = cc h
member-taken w k (x ∷ batch) new h = elim (Bool-cases (id_of x == k)) [
  | inl same ↦ member-if k x (is_newer x.1.message_id w) (taken w batch) (
      inr (
        both (id_of x == k) (is_newer x.1.message_id w) same
          (subst (λ y. is_newer y w ≡ true) (sym ((text_beq_iff (id_of x) k).0 same)) new)))
  | inr differs ↦ member-if k x (is_newer x.1.message_id w) (taken w batch) (
      inl (
        member-taken w k batch new
          (other_true (id_of x == k) (member k (map id_of batch)) differs h)))
]

member-right : (k : Text) (xs ys : List Text) → member k ys ≡ true → member k (xs ++ ys) ≡ true
member-right k xs ys h = ground (arith, member-append k xs ys, h)

taken-or_old :
    (w : Watermark) (k : Text) (ready batch : List Inbound)
    → member k (map id_of batch) ≡ true
    → (member k (map id_of ready ++ map id_of (taken w batch)) ≡ true) ⊎ (is_newer k w ≡ false)
taken-or_old w k ready batch h = elim (Bool-cases (is_newer k w)) [
  | inl new ↦
      inl (
        member-right k (map id_of ready) (map id_of (taken w batch)) (member-taken w k batch new h))
  | inr old ↦ inr old
]

-- What was in the batch of a drain, or ready for it, is not newer than the mark that it leaves.
drained-old :
    (env : Environment) (place : Place) (ready batch : List Inbound) (w : Watermark) (d : Desk)
    (k : Text)
    → IsMark w
    → All IsNumber (map id_of ready)
    → All IsNumber (map id_of batch)
    → IsNumber k
    → member k (map id_of batch) ≡ true
    → is_newer k (drain_inbound env place ready batch (w, d)).0 ≡ false
unfolding drain_inbound taken
drained-old env place ready batch w d k mark ready_ns ns n h =
    subst (λ v. is_newer k v ≡ false) (sym (drained-mark env place (ready ++ taken w batch) w d))
      (subst (λ ids. is_newer k (advance_all ids w) ≡ false)
        (sym (ids-append ready (taken w batch)))
        (advance_all-covers k (map id_of ready ++ map id_of (taken w batch)) w mark
          (All-append (map id_of ready) (map id_of (taken w batch)) ready_ns
            (numbers-taken w batch ns))
          n (taken-or_old w k ready batch h)))

none_taken :
    (w : Watermark) (batch : List Inbound)
    → All (λ x. is_newer (id_of x) w ≡ false) batch
    → taken w batch ≡ []
unfolding taken
none_taken w [] a = refl
none_taken w (x ∷ batch) (old, a) = ground (arith, old, none_taken w batch a)

old_again :
    (w : Watermark) (batch again : List Inbound)
    → ((k : Text) → IsNumber k → member k (map id_of batch) ≡ true → is_newer k w ≡ false)
    → All (λ x. IsNumber (id_of x) × (member (id_of x) (map id_of batch) ≡ true)) again
    → All (λ x. is_newer (id_of x) w ≡ false) again
old_again w batch [] h a = tt
old_again w batch (x ∷ again) h ((n, there), a) = (h (id_of x) n there, old_again w batch again h a)

-- Once a batch was drained, a second drain of messages of that batch, in whatever scenes, does
-- nothing, to the mark and to the rest. Ids, and that of the mark where it has one, are numbers, as
-- those of Discord are.
pub drain_inbound-twice :
    (env : Environment) (place : Place) (ready batch again : List Inbound) (w : Watermark)
    (d : Desk)
    → IsMark w
    → All IsNumber (map id_of ready)
    → All IsNumber (map id_of batch)
    → All (λ x. IsNumber (id_of x) × (member (id_of x) (map id_of batch) ≡ true)) again
    → let first = drain_inbound env place ready batch (w, d) in
      drain_inbound env place [] again first ≡ first
unfolding drain_inbound drain_each taken
drain_inbound-twice env place ready batch again w d mark ready_ns ns a =
    let first = drain_inbound env place ready batch (w, d) in
    ap (λ l. drain_each env place l first)
      (none_taken first.0 again (
        old_again first.0 batch again
          (λ k n h. drained-old env place ready batch w d k mark ready_ns ns n h) a))
