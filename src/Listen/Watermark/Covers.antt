-- ===== src/Listen/Watermark/Covers.antt =====
-- orchestration/listen.py: what a drain took up is not newer than the mark that it leaves.
use discord_os.Prelude.{
  ◌≡◌, refl, sym, ap, subst, ◌⊎◌, inl, inr, Bool, true, false, not, ◌&&◌, Option, none, some, List,
  [], ◌∷◌, arith, nat_eq, ◌==◌, if◌then◌else◌, Bool-cases, right_true, other_true, All, is_empty,
  member,
}
use discord_os.Text.{Text, text_eq, text_beq_iff}
use discord_os.Text.Number.{ℤ, int_of}
use discord_os.Text.Number.Order.{ltb_ℤ, eqb_ℤ, shift_22, add_ℕ}
use discord_os.Listen.Watermark.{
  discord_epoch_ms, snowflake_created_ms, Watermark, id_above, message_id_after, newer_by,
  inbound_newer_than_watermark, mark, id_or, mark_after, watermark_after, advance, advance_all,
  is_newer,
}

-- A text that `int` reads, such as a message id of Discord.
abbrev pub IsNumber : Text → Type 0
IsNumber t = (n : ℤ) × (int_of t ≡ some n)

-- A mark whose id is a number, or that has none yet.
abbrev pub IsMark : Watermark → Type 0
IsMark w = (w.last_message_id ≡ []) ⊎ IsNumber w.last_message_id

number_ne : (t : Text) (n : ℤ) → int_of t ≡ some n → is_empty t ≡ false
unfolding int_of
number_ne [] n e = cc e
number_ne (c ∷ t) n e = refl

-- The order of ids, by their numbers.
after-number :
    (x l : Text) (i k : ℤ)
    → int_of x ≡ some i
    → int_of l ≡ some k
    → message_id_after x l ≡ (if x == l then false else ltb_ℤ k i)
unfolding message_id_after id_above
after-number x l i k e f = ground (arith, e, f, number_ne l k f)

-- With no mark, any message is new.
empty_false : (l x : Text) → l ≡ [] → message_id_after x l ≡ false → is_empty x ≡ false → ⊥
unfolding message_id_after
empty_false [] x n b e = elim (Bool-cases (is_empty x)) [
  | inl t ↦ ground (arith, t, e)
  | inr f ↦ ground (arith, b, f)
]
empty_false (c ∷ l) x n b e = ground (arith, n)

kept_after :
    (x m l : Text) (i j : ℤ)
    → int_of x ≡ some i
    → int_of m ≡ some j
    → (l ≡ []) ⊎ IsNumber l
    → message_id_after m l ≡ true
    → message_id_after x l ≡ false
    → message_id_after x m ≡ false
kept_after x m l i j e f (inl n) a b = absurd (empty_false l x n b (number_ne x i e))
kept_after x m l i j e f (inr (k, n)) a b = ground (
  arith,
  after-number m l j k f n,
  after-number x l i k e n,
  after-number x m i j e f,
  text_beq_iff x l,
  text_beq_iff m l,
  text_beq_iff x m,
  a,
  b,
)

-- Whether a message is newer than a mark.
abbrev newer_than : Text → ℤ → Watermark → Bool
newer_than x xs w = newer_by x w.last_message_id (some xs) w.last_created_ms

newer-if :
    (x : Text) (xs : ℤ) (b : Bool) (u v : Watermark)
    → (b ≡ true → newer_than x xs u ≡ false)
    → (b ≡ false → newer_than x xs v ≡ false)
    → newer_than x xs (if b then u else v) ≡ false
newer-if x xs true u v p q = p refl
newer-if x xs false u v p q = q refl

eq_self_ℤ : (ms : ℤ) → eqb_ℤ ms ms ≡ true
eq_self_ℤ ms = ground arith

after_self : (m : Text) → is_empty m ≡ false → message_id_after m m ≡ false
unfolding message_id_after
after_self m n = ground (arith, n, text_beq_iff m m)

newer-same :
    (m : Text) (ms : ℤ) → is_empty m ≡ false → newer_by m (id_or m m) (some ms) (some ms) ≡ false
unfolding newer_by
newer-same m ms n = ground (arith, n, eq_self_ℤ ms, after_self m n)

-- A message is not newer than the mark that it leaves.
newer_self :
    (m l : Text) (ms : ℤ) (last : Option ℤ)
    → is_empty m ≡ false
    → newer_by m
        (mark_after m l (some ms) last).last_message_id
        (some ms)
        (mark_after m l (some ms) last).last_created_ms
      ≡ false
unfolding newer_by mark_after
newer_self m l ms none n = ground (arith, n, eq_self_ℤ ms, after_self m n)
newer_self m l ms (some last) n =
    newer-if m ms (ltb_ℤ last ms) (mark (some ms) (id_or m l)) _
      (λ a. ground (arith, n, eq_self_ℤ ms, after_self m n))
      λ a.
        newer-if m ms (eqb_ℤ ms last && message_id_after m l) (mark (some last) m)
          (mark (some last) l) (λ b. ground (arith, b, after_self m n)) (λ b. ground (arith, a, b))

-- A time that is not after one is before all that are.
earlier :
    (xs ms last : ℤ) (b c : Bool)
    → (if eqb_ℤ xs last then b else ltb_ℤ last xs) ≡ false
    → ltb_ℤ last ms ≡ true
    → (if eqb_ℤ xs ms then c else ltb_ℤ ms xs) ≡ false
earlier xs ms last b c h a = ground (arith, h, a)

newer-kept :
    (x m l : Text) (xs ms : ℤ) (last : Option ℤ) (i j : ℤ)
    → int_of x ≡ some i
    → int_of m ≡ some j
    → (l ≡ []) ⊎ IsNumber l
    → newer_by x l (some xs) last ≡ false
    → newer_by x
        (mark_after m l (some ms) last).last_message_id
        (some xs)
        (mark_after m l (some ms) last).last_created_ms
      ≡ false
unfolding newer_by mark_after
newer-kept x m l xs ms none i j e f k h = cc h
newer-kept x m l xs ms (some last) i j e f k h =
    newer-if x xs (ltb_ℤ last ms) (mark (some ms) (id_or m l)) _
      (λ a. earlier xs ms last (message_id_after x l) (message_id_after x (id_or m l)) h a)
      λ a.
        newer-if x xs (eqb_ℤ ms last && message_id_after m l) (mark (some last) m)
          (mark (some last) l)
          (λ b. ground (
            arith,
            h,
            kept_after x m l i j e f k (right_true (eqb_ℤ ms last) (message_id_after m l) b),
          ))
          (λ b. h)

IsMark-if : (b : Bool) (u v : Watermark) → IsMark u → IsMark v → IsMark (if b then u else v)
IsMark-if true u v p q = p
IsMark-if false u v p q = q

id_or-IsNumber : (m l : Text) (j : ℤ) → int_of m ≡ some j → IsNumber (id_or m l)
id_or-IsNumber m l j f = (j, ground (arith, f, number_ne m j f))

mark_after-IsMark :
    (m l : Text) (ms last : Option ℤ)
    → IsNumber m
    → (l ≡ []) ⊎ IsNumber l
    → IsMark (mark_after m l ms last)
unfolding mark_after
mark_after-IsMark m l (some ms) none (j, f) k = inr (id_or-IsNumber m l j f)
mark_after-IsMark m l (some ms) (some last) (j, f) k =
    IsMark-if _ (mark (some ms) (id_or m l)) _ (inr (id_or-IsNumber m l j f)) (
      IsMark-if (eqb_ℤ ms last && message_id_after m l) (mark (some last) m) (mark (some last) l)
        (inr (j, f)) k)
mark_after-IsMark m l none last (j, f) k =
    IsMark-if (not (is_empty m) && not (m == l)) (mark last m) (mark last l) (inr (j, f)) k

advance-IsMark :
    (m : Text) (w : Watermark) (j : ℤ) → int_of m ≡ some j → IsMark w → IsMark (advance m w)
unfolding advance watermark_after
advance-IsMark m w j f k =
    mark_after-IsMark m w.last_message_id (snowflake_created_ms m) w.last_created_ms (j, f) k

-- The time of a message whose id is a number.
abbrev time_of : ℤ → ℤ
unfolding shift_22 add_ℕ
time_of n = add_ℕ (shift_22 n) discord_epoch_ms

created : (t : Text) (n : ℤ) → int_of t ≡ some n → snowflake_created_ms t ≡ some (time_of n)
unfolding snowflake_created_ms time_of
created t n e =
    ap (λ o. elim o [ none ↦ none | some k ↦ some (add_ℕ (shift_22 k) discord_epoch_ms) ]) e

advance_self : (m : Text) (w : Watermark) → IsNumber m → is_newer m (advance m w) ≡ false
unfolding advance watermark_after is_newer inbound_newer_than_watermark
advance_self m w (j, f) =
    subst (λ c. inbound_newer_than_watermark m c (watermark_after w c m) ≡ false)
      (sym (created m j f))
      (newer_self m w.last_message_id (time_of j) w.last_created_ms (number_ne m j f))

advance-kept :
    (x m : Text) (w : Watermark)
    → IsNumber x
    → IsNumber m
    → IsMark w
    → is_newer x w ≡ false
    → is_newer x (advance m w) ≡ false
unfolding advance watermark_after is_newer inbound_newer_than_watermark
advance-kept x m w (i, e) (j, f) k h =
    subst
      (λ c. inbound_newer_than_watermark x c (watermark_after w (snowflake_created_ms m) m) ≡ false)
      (sym (created x i e))
      (subst
        (λ c. inbound_newer_than_watermark x (some (time_of i)) (watermark_after w c m) ≡ false)
        (sym (created m j f))
        (newer-kept x m w.last_message_id (time_of i) (time_of j) w.last_created_ms i j e f k
          (subst (λ c. inbound_newer_than_watermark x c w ≡ false) (created x i e) h)))

advance_all-kept :
    (x : Text) (ids : List Text) (w : Watermark)
    → IsNumber x
    → All IsNumber ids
    → IsMark w
    → is_newer x w ≡ false
    → is_newer x (advance_all ids w) ≡ false
unfolding advance_all
advance_all-kept x [] w n ns k h = h
advance_all-kept x (m ∷ ids) w n (a, ns) k h =
    advance_all-kept x ids (advance m w) n ns (advance-IsMark m w a.0 a.1 k)
      (advance-kept x m w n a k h)

-- Whatever the order in which a drain takes up its messages, none of them is newer than the mark
-- that it leaves, nor is any message that was not newer before.
pub advance_all-covers :
    (x : Text) (ids : List Text) (w : Watermark)
    → IsMark w
    → All IsNumber ids
    → IsNumber x
    → (member x ids ≡ true) ⊎ (is_newer x w ≡ false)
    → is_newer x (advance_all ids w) ≡ false
unfolding advance_all
advance_all-covers x [] w k ns n (inl none_there) = cc none_there
advance_all-covers x [] w k ns n (inr old) = old
advance_all-covers x (m ∷ ids) w k (a, ns) n (inr old) =
    advance_all-covers x ids (advance m w) (advance-IsMark m w a.0 a.1 k) ns n
      (inr (advance-kept x m w n a k old))
advance_all-covers x (m ∷ ids) w k (a, ns) n (inl there) = elim (Bool-cases (m == x)) [
  | inl same ↦ advance_all-covers x ids (advance m w) (advance-IsMark m w a.0 a.1 k) ns n (
      inr (
        subst (λ y. is_newer y (advance m w) ≡ false) ((text_beq_iff m x).0 same)
          (advance_self m w a)))
  | inr differs ↦
      advance_all-covers x ids (advance m w) (advance-IsMark m w a.0 a.1 k) ns n
        (inl (other_true (m == x) (member x ids) differs there))
]
