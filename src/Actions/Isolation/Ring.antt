-- ===== src/Actions/Isolation/Ring.antt =====
-- faults/actions.py: what PartitionMajoritiesRingAction lets each node see, and what it cuts.
use mathlib.Core.List.{Perm}
use faultstorm.Prelude.{
  ◌≤◌, Option, none, IsNodup, difference, ℕ, zero, suc, ◌+◌, ◌*◌, ◌/◌, ◌%◌, ◌<◌, ◌≡◌, refl, true,
  false, not, ◌&&◌, List, [], ◌∷◌, ◌++◌, map, some, ok, arith, length, get_elem?, contains,
  contains-filter_by, list_eq, nat_eq, beq_self,
}
use faultstorm.Text.{Text}
use faultstorm.Effects.{Env, World}
use faultstorm.Effects.Random.{get_elem?-some, shuffle-perm}
use faultstorm.Partitioners.{get_chain_name}
use faultstorm.Actions.Base.{FaultAction, all_nodes}
use faultstorm.Actions.Isolation.Rotation.{sees, visible-sees, sees-IsNodup, sees-contains}
use faultstorm.Actions.Rules.{
  Works, Rule, rules, shut, shut-Blocks, ip_of, Blocks, Blocks-seq, Blocks-pure, map_each-Blocks,
}
use faultstorm.Actions.Ring
use faultstorm.Actions.Ring.{PartitionMajoritiesRingAction, window, visible, blocked}

length-window : (o : List Text) (i j m : ℕ) → 0 < length o → length (window o i j m) ≡ m
unfolding window
length-window o i j zero h = refl
length-window o i j (suc m) h =
    let (nd, e) = get_elem?-some o ((i + j) % length o) (omega arith) in
    rw e (omega (arith, length-window o i (j + 1) m h))

length-majority : (o : List Text) (i : ℕ) → 0 < length o → length o < 2 * length (visible o i)
unfolding visible
length-majority o i h = omega (arith, length-window o i 0 (length o / 2 + 1) h)

-- In an order of distinct nodes, each position sees more than half of the nodes: distinct ones, all
-- of the order.
pub visible-majority :
    (o : List Text) (i : ℕ)
    → IsNodup o
    → i < length o
    → IsNodup (visible o i)
      × ((x : Text) → contains (visible o i) x ≡ true → contains o x ≡ true)
      × (length o < 2 * length (visible o i))
visible-majority o i d h = rw (visible-sees o i h) (
  sees-IsNodup o i d,
  sees-contains o i,
  rw (← visible-sees o i h) (length-majority o i (omega arith)),
)

lt_of_found : {A : Type 0} (xs : List A) (i : ℕ) {a : A} → get_elem? xs i ≡ some a → i < length xs
lt_of_found [] i e = cc
lt_of_found (x ∷ xs) zero e = omega arith
lt_of_found (x ∷ xs) (suc i) e = omega (arith, lt_of_found xs i e)

index_mod : (i n : ℕ) → i < n → (i + 0) % n ≡ i
index_mod i n h = grind arith

visible_self :
    (o : List Text) (i : ℕ) (nd : Text) → get_elem? o i ≡ some nd → contains (visible o i) nd ≡ true
unfolding visible window
visible_self o i nd e = ground (arith, index_mod i (length o) (lt_of_found o i e), beq_self nd)

-- The node at a position of the order drops no packets from itself, and of the nodes of the order
-- exactly those from nodes that it does not see.
pub blocked_lem :
    (o : List Text) (i : ℕ) (nd x : Text)
    → get_elem? o i ≡ some nd
    → (contains (blocked o i) x ≡ (not (contains (visible o i) x) && contains o x))
      × (contains (blocked o i) nd ≡ false)
unfolding blocked
blocked_lem o i nd x e = ground (
  arith,
  visible_self o i nd e,
  contains-filter_by (λ nd. not (contains (visible o i) nd)) x o,
  contains-filter_by (λ nd. not (contains (visible o i) nd)) nd o,
)

blocked-difference : (o : List Text) (i : ℕ) → i < length o → blocked o i ≡ difference o (sees o i)
unfolding blocked difference
blocked-difference o i h = rw (visible-sees o i h) refl

module _ (env : Env) (works : Works env) where
  -- The rules on the nodes from index `i` of the order `o` on: each node is shut to the nodes of the
  -- order that are neither itself nor among the `length o / 2` next ones, in the order's round.
  abbrev pub ring_rules : Text → List Text → ℕ → List Text → List Rule
  ring_rules chain o i [] = []
  ring_rules chain o i (n ∷ ns) =
      shut env works chain n (difference o (sees o i)) ++ ring_rules chain o (i + 1) ns

  block_node-Blocks :
      (chain : Text) (o : List Text) (i : ℕ) (n : Text)
      → i < length o
      → Blocks env
          (Ring.block_node env chain o i n)
          tt
          (shut env works chain n (difference o (sees o i)))
  unfolding Ring.block_node
  block_node-Blocks chain o i n h =
      let unseen = difference o (sees o i) in
      rw (blocked-difference o i h) (
        Blocks-seq env _ _ (map (ip_of env works) unseen) tt [] (shut env works chain n unseen)
          (map_each-Blocks env works unseen) (shut-Blocks env works chain n unseen))

  block_from-Blocks :
      (chain : Text) (o : List Text) (i : ℕ) (ns : List Text)
      → i + length ns ≤ length o
      → Blocks env (Ring.block_from env chain o i ns) tt (ring_rules chain o i ns)
  unfolding Ring.block_from
  block_from-Blocks chain o i [] h = Blocks-pure env tt
  block_from-Blocks chain o i (n ∷ ns) h =
      Blocks-seq env (Ring.block_node env chain o i n) (λ _. Ring.block_from env chain o (i + 1) ns)
        tt tt _ (ring_rules chain o (i + 1) ns) (block_node-Blocks chain o i n (omega arith))
        (block_from-Blocks chain o (i + 1) ns (omega arith))

  -- `execute`, called on `a`, returns, keeps the order `o` in the object, and adds exactly the rules
  -- of the ring `o`.
  abbrev pub Rings : FaultAction → Option (List Text) → List Text → World → Type 0
  Rings base given o w =
      let a : PartitionMajoritiesRingAction = record { base = base; ordered = given } in
      ((Ring.execute env a w).0 ≡ ok tt)
      × ((Ring.execute env a w).1 ≡ record { base = base; ordered = some o })
      × (rules env (Ring.execute env a w).2.trace
          ≡ rules env w.trace ++ ring_rules (get_chain_name base.ordinal) o 0 o)

  -- If every command of Docker succeeds, with an address for every node, and an order is given,
  -- every node gets a new chain in front of INPUT, which drops exactly the packets of the nodes that
  -- it does not see: those of the order but itself and the next half of them, in the order's round.
  pub execute-ring : (base : FaultAction) (o : List Text) (w : World) → Rings base (some o) o w
  unfolding Ring.execute Ring.resolve_ordered
  execute-ring base o w =
      let all = block_from-Blocks (get_chain_name base.ordinal) o 0 o (omega arith) in
      (all.returns w, refl, all.adds w)

  -- If every command of Docker succeeds, with an address for every node, and no order is given, the
  -- object keeps some order of all nodes, and every node gets a new chain in front of INPUT, which
  -- drops exactly the packets of the nodes that it does not see in this order.
  pub execute-ring_random :
      (base : FaultAction) (w : World)
      → (o : List Text) × Perm o (all_nodes base) × Rings base none o w
  unfolding Ring.execute Ring.resolve_ordered
  execute-ring_random base w =
      let (o, n, e, p) = shuffle-perm env (all_nodes base) w in
      let all = block_from-Blocks (get_chain_name base.ordinal) o 0 o (omega arith) in
      (o, p, rw e (all.returns _, refl, all.adds _))
