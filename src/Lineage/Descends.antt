-- ===== src/Lineage/Descends.antt =====
-- orchestration/lineage.py: what it is to descend from a node, and membership in lists of nodes.
use discord_os.Prelude.{
  ◌≤◌, ◌≡◌, ◌⊎◌, inl, inr, Bool, true, List, [], ◌∷◌, ◌++◌, arith, nat_eq, Bool-cases, length,
  is_empty, select, member,
}
use discord_os.Text.{Text, text_eq, text_beq_iff, strip}
use discord_os.Lineage.{LineageNode, children_of}

abbrev pub In : {A : Type 0} → A → List A → Type 0
In a [] = ⊥
In a (x ∷ xs) = (a ≡ x) ⊎ In a xs

-- A node descends from a key when it is a child of it, or of a key that descends from it.
pub data Descends (nodes : List LineageNode) (from : Text) : Text → Type 0 where
  child :
      {k : Text} (n : LineageNode)
      → In n (children_of nodes from)
      → n.node_key ≡ k
      → Descends nodes from k
  below :
      {j k : Text} (n : LineageNode)
      → Descends nodes from j
      → In n (children_of nodes j)
      → n.node_key ≡ k
      → Descends nodes from k

abbrev pub keys : List LineageNode → List Text
keys [] = []
keys (n ∷ nodes) = n.node_key ∷ keys nodes

pub member-keys :
    (n : LineageNode) (nodes : List LineageNode)
    → In n nodes
    → member n.node_key (keys nodes) ≡ true
member-keys n [] h = absurd h
member-keys n (m ∷ nodes) (inl e) = ground (arith, e, text_beq_iff m.node_key n.node_key)
member-keys n (m ∷ nodes) (inr h) = ground (arith, member-keys n nodes h)

pub In-append : {A : Type 0} (a : A) (xs ys : List A) → In a (xs ++ ys) → In a xs ⊎ In a ys
In-append a [] ys h = inr h
In-append a (x ∷ xs) ys (inl e) = inl (inl e)
In-append a (x ∷ xs) ys (inr h) = elim (In-append a xs ys h) [ inl p ↦ inl (inr p) | inr q ↦ inr q ]

In-cons :
    {A : Type 0} (a x : A) (xs ys : List A) → (In a ys → In a xs) → In a (x ∷ ys) → In a (x ∷ xs)
In-cons a x xs ys f (inl e) = inl e
In-cons a x xs ys f (inr h) = inr (f h)

pub In-select : {A : Type 0} (p : A → Bool) (a : A) (xs : List A) → In a (select p xs) → In a xs
In-select p a [] h = h
In-select p a (x ∷ xs) h = elim (Bool-cases (p x)) [
  | inl e ↦ In-cons a x xs (select p xs) (In-select p a xs) (rw e at h)
  | inr e ↦ inr (In-select p a xs (rw e at h))
]

pub In-children :
    (nodes : List LineageNode) (k : Text) (n : LineageNode)
    → In n (children_of nodes k)
    → In n nodes
unfolding children_of
In-children nodes k n h = elim (Bool-cases (is_empty (strip k))) [
  | inl e ↦ absurd (rw e at h)
  | inr e ↦ In-select (λ (m : LineageNode). member (strip k) m.parent_keys) n nodes (rw e at h)
]

pub length-select : {A : Type 0} (p : A → Bool) (xs : List A) → length (select p xs) ≤ length xs
length-select p [] = omega arith
length-select p (x ∷ xs) = ground (arith, length-select p xs)

pub length-children :
    (nodes : List LineageNode) (k : Text) → length (children_of nodes k) ≤ length nodes
unfolding children_of
length-children nodes k =
    ground (arith, length-select (λ (n : LineageNode). member (strip k) n.parent_keys) nodes)
