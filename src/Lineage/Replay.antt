-- ===== src/Lineage/Replay.antt =====
-- orchestration/lineage.py: `descendants_to_replay` ends, and gives each key that descends from
-- the edited one, once.
use discord_os.Prelude.{
  ℕ, zero, suc, ◌+◌, ◌*◌, ◌≤◌, ◌<◌, ◌≡◌, refl, sym, subst, inl, inr, true, false, ◌||◌, some, List,
  [], ◌∷◌, ◌++◌, arith, nat_eq, ◌==◌, if◌then◌else◌, Bool-cases, length, member, length-append,
}
use discord_os.Text.{Text, text_eq, text_beq_iff}
use discord_os.Lineage.{LineageNode, children_of, replay_loop, replay_fuel, descendants_to_replay}
use discord_os.Lineage.Descends.{In, In-append, In-children, length-children}

-- How many nodes have a key that was not visited.
unvisited : List LineageNode → List Text → ℕ
unvisited [] ordered = 0
unvisited (n ∷ ns) ordered = (if member n.node_key ordered then 0 else 1) + unvisited ns ordered

pub member-snoc : (t u : Text) (ts : List Text) → member t (ts ++ u ∷ []) ≡ (member t ts || u == t)
member-snoc t u [] = ground arith
member-snoc t u (x ∷ ts) = ground (arith, member-snoc t u ts)

unvisited-le :
    (ns : List LineageNode) (u : Text) (ordered : List Text)
    → unvisited ns (ordered ++ u ∷ []) ≤ unvisited ns ordered
unfolding unvisited
unvisited-le [] u ordered = omega arith
unvisited-le (n ∷ ns) u ordered =
    ground (arith, member-snoc n.node_key u ordered, unvisited-le ns u ordered)

unvisited-lt :
    (n : LineageNode) (ns : List LineageNode) (ordered : List Text)
    → In n ns
    → member n.node_key ordered ≡ false
    → unvisited ns (ordered ++ n.node_key ∷ []) < unvisited ns ordered
unfolding unvisited
unvisited-lt n [] ordered i h = absurd i
unvisited-lt n (m ∷ ns) ordered (inl e) h = ground (
  arith,
  e,
  h,
  member-snoc m.node_key n.node_key ordered,
  text_beq_iff n.node_key n.node_key,
  unvisited-le ns n.node_key ordered,
)
unvisited-lt n (m ∷ ns) ordered (inr i) h =
    ground (arith, h, member-snoc m.node_key n.node_key ordered, unvisited-lt n ns ordered i h)

unvisited-none : (ns : List LineageNode) → unvisited ns [] ≡ length ns
unfolding unvisited
unvisited-none [] = refl
unvisited-none (n ∷ ns) = omega (arith, unvisited-none ns)

-- What is still to do falls in each round.
round-fuel : (n l u v c f : ℕ) → suc l + n * u ≤ suc f → v < u → c ≤ n → l + c + n * v ≤ f
round-fuel n l u v c f h lt k = grind arith

-- A property of the pending nodes and the visited keys that each round keeps holds at the end.
module _ (nodes : List LineageNode) (P : List LineageNode → List Text → Type 0)
    (skipped : (n : LineageNode) (pending : List LineageNode) (ordered : List Text)
      → member n.node_key ordered ≡ true
      → P (n ∷ pending) ordered
      → P pending ordered)
    (visited : (n : LineageNode) (pending : List LineageNode) (ordered : List Text)
      → member n.node_key ordered ≡ false
      → P (n ∷ pending) ordered
      → P (pending ++ children_of nodes n.node_key) (ordered ++ n.node_key ∷ [])) where
  pub replay_loop_rule :
      (fuel : ℕ) (pending : List LineageNode) (ordered out : List Text)
      → P pending ordered
      → replay_loop nodes fuel pending ordered ≡ some out
      → P [] out
  unfolding replay_loop
  replay_loop_rule fuel [] ordered out p h = subst (P []) (cc h) p
  replay_loop_rule zero (n ∷ pending) ordered out p h = absurd (cc h)
  replay_loop_rule (suc fuel) (n ∷ pending) ordered out p h =
      elim (Bool-cases (member n.node_key ordered)) [
        | inl old ↦
            replay_loop_rule fuel pending ordered out (skipped n pending ordered old p)
              (rw old at h)
        | inr new ↦
            replay_loop_rule fuel (pending ++ children_of nodes n.node_key)
              (ordered ++ n.node_key ∷ []) out (visited n pending ordered new p) (rw new at h)
      ]

abbrev AllIn : List LineageNode → List LineageNode → Type 0
AllIn nodes pending = (n : LineageNode) → In n pending → In n nodes

-- The loop comes to an end on enough fuel.
replay_loop_ends :
    (nodes : List LineageNode) (fuel : ℕ) (pending : List LineageNode) (ordered : List Text)
    → AllIn nodes pending
    → length pending + length nodes * unvisited nodes ordered ≤ fuel
    → (out : List Text) × (replay_loop nodes fuel pending ordered ≡ some out)
unfolding replay_loop
replay_loop_ends nodes fuel [] ordered a h = (ordered, refl)
replay_loop_ends nodes zero (n ∷ pending) ordered a h = absurd (omega arith)
replay_loop_ends nodes (suc fuel) (n ∷ pending) ordered a h =
    elim (Bool-cases (member n.node_key ordered)) [
      | inl old ↦
          rw old (replay_loop_ends nodes fuel pending ordered (λ m i. a m (inr i)) (omega arith))
      | inr new ↦ rw new (
          replay_loop_ends nodes fuel (pending ++ children_of nodes n.node_key)
            (ordered ++ n.node_key ∷ [])
            (λ m i. elim (In-append m pending (children_of nodes n.node_key) i) [
              | inl p ↦ a m (inr p)
              | inr c ↦ In-children nodes n.node_key m c
            ])
            (subst (λ l. l + length nodes * unvisited nodes (ordered ++ n.node_key ∷ []) ≤ fuel)
              (sym (length-append pending (children_of nodes n.node_key)))
              (round-fuel (length nodes) (length pending) (unvisited nodes ordered)
                (unvisited nodes (ordered ++ n.node_key ∷ []))
                (length (children_of nodes n.node_key)) fuel h
                (unvisited-lt n nodes ordered (a n (inl refl)) new)
                (length-children nodes n.node_key))))
    ]

pub descendants_to_replay_ends :
    (nodes : List LineageNode) (parent_key : Text)
    → (out : List Text) × (descendants_to_replay nodes parent_key ≡ some out)
unfolding descendants_to_replay
descendants_to_replay_ends nodes parent_key =
    replay_loop_ends nodes (replay_fuel nodes) (children_of nodes parent_key) []
      (λ n i. In-children nodes parent_key n i)
      (subst (λ u. length (children_of nodes parent_key) + length nodes * u ≤ replay_fuel nodes)
        (sym (unvisited-none nodes)) (omega (arith, length-children nodes parent_key)))
