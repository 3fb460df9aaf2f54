-- ===== src/Lineage/Complete.antt =====
-- orchestration/lineage.py: `descendants_to_replay` gives each key that descends from the edited
-- one, once, and no other.
use discord_os.Prelude.{
  ◌≡◌, refl, sym, ap, subst, ◌↔◌, ◌⊎◌, inl, inr, Bool, true, false, not, ◌&&◌, ◌||◌, some, List, [],
  ◌∷◌, ◌++◌, arith, nat_eq, Bool-cases, member,
}
use discord_os.Text.{Text, text_eq, text_beq, text_beq_iff}
use discord_os.Lineage.{LineageNode, children_of, replay_fuel, descendants_to_replay}
use discord_os.Lineage.Descends.{In, Descends, child, below, keys, member-keys, In-append}
use discord_os.Lineage.Replay.{member-snoc, replay_loop_rule, descendants_to_replay_ends}

-- No text stands twice in the list.
abbrev pub distinct : List Text → Bool
distinct [] = true
distinct (t ∷ ts) = not (member t ts) && distinct ts

distinct-snoc :
    (t : Text) (ts : List Text)
    → member t ts ≡ false
    → distinct ts ≡ true
    → distinct (ts ++ t ∷ []) ≡ true
distinct-snoc t [] f d = refl
distinct-snoc t (u ∷ ts) f d =
    ground (arith, f, d, distinct-snoc t ts, member-snoc u t ts, text_beq_iff t u, text_beq_iff u t)

-- Whether a key was visited or waits.
abbrev reached : Text → List LineageNode → List Text → Bool
reached k pending ordered = member k ordered || member k (keys pending)

keys-append :
    (k : Text) (ns ms : List LineageNode)
    → member k (keys (ns ++ ms)) ≡ (member k (keys ns) || member k (keys ms))
keys-append k [] ms = refl
keys-append k (n ∷ ns) ms = ground (arith, keys-append k ns ms)

reached-skip :
    (k : Text) (n : LineageNode) (pending : List LineageNode) (ordered : List Text)
    → member n.node_key ordered ≡ true
    → reached k (n ∷ pending) ordered ≡ true
    → reached k pending ordered ≡ true
reached-skip k n pending ordered o h = elim (Bool-cases (text_beq n.node_key k)) [
  | inl same ↦ ground (arith, o, ap (λ t. member t ordered) ((text_beq_iff n.node_key k).0 same))
  | inr other ↦ ground (arith, h, other)
]

reached-visit :
    (k : Text) (n : LineageNode) (pending new : List LineageNode) (ordered : List Text)
    → reached k (n ∷ pending) ordered ≡ true
    → reached k (pending ++ new) (ordered ++ n.node_key ∷ []) ≡ true
reached-visit k n pending new ordered h =
    ground (arith, h, keys-append k pending new, member-snoc k n.node_key ordered)

reached-new :
    (k : Text) (m n : LineageNode) (pending new : List LineageNode) (ordered : List Text)
    → In m new
    → reached m.node_key (pending ++ new) ordered ≡ true
reached-new k m n pending new ordered i =
    ground (arith, keys-append m.node_key pending new, member-keys m new i)

module _ (nodes : List LineageNode) (from : Text) where
  record Visits (pending : List LineageNode) (ordered : List Text) : Type 0 where
    waiting_descend : (n : LineageNode) → In n pending → Descends nodes from n.node_key
    visited_descend : (k : Text) → member k ordered ≡ true → Descends nodes from k
    once : distinct ordered ≡ true
    starts :
        (n : LineageNode)
        → In n (children_of nodes from)
        → reached n.node_key pending ordered ≡ true
    closed :
        (k : Text) (n : LineageNode)
        → member k ordered ≡ true
        → In n (children_of nodes k)
        → reached n.node_key pending ordered ≡ true

  Visits-start : Visits (children_of nodes from) []
  Visits-start = record {
    waiting_descend = λ n i. child n i refl;
    visited_descend = λ k h. absurd (cc h);
    once = refl;
    starts = λ n i. member-keys n (children_of nodes from) i;
    closed = λ k n h i. absurd (cc h);
  }

  Visits-skip :
      (n : LineageNode) (pending : List LineageNode) (ordered : List Text)
      → member n.node_key ordered ≡ true
      → Visits (n ∷ pending) ordered
      → Visits pending ordered
  Visits-skip n pending ordered old v = record {
    waiting_descend = λ m i. v.waiting_descend m (inr i);
    visited_descend = v.visited_descend;
    once = v.once;
    starts = λ m i. reached-skip m.node_key n pending ordered old (v.starts m i);
    closed = λ k m h i. reached-skip m.node_key n pending ordered old (v.closed k m h i);
  }

  visited_now :
      (n : LineageNode) (k : Text) (ordered : List Text)
      → member k (ordered ++ n.node_key ∷ []) ≡ true
      → (member k ordered ≡ true) ⊎ (n.node_key ≡ k)
  visited_now n k ordered h =
      ground (arith, h, member-snoc k n.node_key ordered, text_beq_iff n.node_key k)

  Visits-visit :
      (n : LineageNode) (pending : List LineageNode) (ordered : List Text)
      → member n.node_key ordered ≡ false
      → Visits (n ∷ pending) ordered
      → Visits (pending ++ children_of nodes n.node_key) (ordered ++ n.node_key ∷ [])
  Visits-visit n pending ordered new v = record {
    waiting_descend = λ m i. elim (In-append m pending (children_of nodes n.node_key) i) [
      | inl p ↦ v.waiting_descend m (inr p)
      | inr c ↦ below m here c refl
    ];
    visited_descend = λ k h. elim (visited_now n k ordered h) [
      | inl old ↦ v.visited_descend k old
      | inr same ↦ subst (Descends nodes from) same here
    ];
    once = distinct-snoc n.node_key ordered new v.once;
    starts = λ m i. reached-visit m.node_key n pending _ ordered (v.starts m i);
    closed = λ k m h i. elim (visited_now n k ordered h) [
      | inl old ↦ reached-visit m.node_key n pending _ ordered (v.closed k m old i)
      | inr same ↦
          reached-new k m n pending _ _ (subst (λ t. In m (children_of nodes t)) (sym same) i)
    ];
  }
    where
      here : Descends nodes from n.node_key
      here = v.waiting_descend n (inl refl)

  at_end : (k : Text) (ordered : List Text) → reached k [] ordered ≡ true → member k ordered ≡ true
  at_end k ordered h = ground (arith, h)

  Descends-visited :
      (out : List Text) (k : Text) → Visits [] out → Descends nodes from k → member k out ≡ true
  Descends-visited out k v (child n i e) =
      subst (λ t. member t out ≡ true) e (at_end n.node_key out (v.starts n i))
  Descends-visited out k v (below {j} n d i e) =
      subst (λ t. member t out ≡ true) e
        (at_end n.node_key out (v.closed j n (Descends-visited out j v d) i))

Visits-end :
    (nodes : List LineageNode) (parent_key : Text) (out : List Text)
    → descendants_to_replay nodes parent_key ≡ some out
    → Visits nodes parent_key [] out
unfolding descendants_to_replay
Visits-end nodes parent_key out h =
    replay_loop_rule nodes (Visits nodes parent_key) (Visits-skip nodes parent_key)
      (Visits-visit nodes parent_key) (replay_fuel nodes) (children_of nodes parent_key) [] out
      (Visits-start nodes parent_key) h

-- What is to be replayed after an edit of a node: the loop ends, each key stands once in its
-- result, and the keys there are exactly those that descend from the node's.
pub descendants_to_replay-Descends :
    (nodes : List LineageNode) (parent_key : Text)
    → (out : List Text) × (descendants_to_replay nodes parent_key ≡ some out)
      × (distinct out ≡ true)
      × ((k : Text) → (member k out ≡ true) ↔ Descends nodes parent_key k)
descendants_to_replay-Descends nodes parent_key = (
  ends.0,
  ends.1,
  v.once,
  λ k. (v.visited_descend k, Descends-visited nodes parent_key ends.0 k v),
)
  where
    ends : (out : List Text) × (descendants_to_replay nodes parent_key ≡ some out)
    ends = descendants_to_replay_ends nodes parent_key

    v : Visits nodes parent_key [] ends.0
    v = Visits-end nodes parent_key ends.0 ends.1
