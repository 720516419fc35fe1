-- ===== src/Actions/Isolation/Node.antt =====
-- faults/actions.py: what PartitionRandomNodeAction cuts.
use faultstorm.Prelude.{
  suc, ℕ, List, difference, list_eq, nat_eq, arith, ◌≡◌, refl, [], ◌∷◌, Option, none, some, ok,
  length, get_elem?, ◌<◌,
}
use faultstorm.Text.{Text}
use faultstorm.Effects.{Env, World}
use faultstorm.Effects.Random.{choice-elem}
use faultstorm.Partitioners.{get_chain_name}
use faultstorm.Actions.Base.{FaultAction, all_nodes}
use faultstorm.Actions.Rules.{Works}
use faultstorm.Actions.Isolation.{Cuts, both_sides-Cuts, Cuts-after}
use faultstorm.Actions.Node
use faultstorm.Actions.Node.{PartitionRandomNodeAction, others}

abbrev pub node_of : FaultAction → Option Text → PartitionRandomNodeAction
node_of base node = record { base = base; node = node }

-- The nodes other than `n`.
others-difference : (n : Text) (ns : List Text) → others n ns ≡ difference ns (n ∷ [])
unfolding others difference
others-difference n [] = refl
others-difference n (m ∷ ns) = ground (
  arith,
  others-difference n ns,
  (list_eq ⦃e = nat_eq⦄).beq_iff m n,
  (list_eq ⦃e = nat_eq⦄).beq_iff n m,
)

module _ (env : Env) (works : Works env) where
  -- If every command of Docker succeeds, with an address for every node, a node that is given is cut from all others, in both
  -- directions.
  pub execute-node :
      (base : FaultAction) (n : Text) (w : World)
      → Cuts env works
          (Node.execute env)
          (node_of base (some n))
          (node_of base (some n))
          w
          (get_chain_name base.ordinal)
          (n ∷ [])
          (difference (all_nodes base) (n ∷ []))
  unfolding Node.execute Node.resolve_node
  execute-node base n w = rw (← others-difference n (all_nodes base)) (
      both_sides-Cuts env works _ w (get_chain_name base.ordinal) (n ∷ [])
        (others n (all_nodes base)))

  -- If every command of Docker succeeds, with an address for every node, the cluster has nodes and none is given, a node of the
  -- cluster is cut from all others, and kept in the object.
  pub execute-node_random :
      (base : FaultAction) (w : World)
      → 0 < length (all_nodes base)
      → (i : ℕ) × (n : Text) × (get_elem? (all_nodes base) i ≡ some n)
        × Cuts env works
            (Node.execute env)
            (node_of base none)
            (node_of base (some n))
            w
            (get_chain_name base.ordinal)
            (n ∷ [])
            (difference (all_nodes base) (n ∷ []))
  unfolding Node.execute
  execute-node_random base w h =
      let (i, n, w', e, found, t) = resolve_random in
      (
        i,
        n,
        found,
        Cuts-after env works (Node.resolve_node env none) _ (node_of base none)
            (node_of base (some n)) _ n w w' (get_chain_name base.ordinal) (n ∷ [])
            (difference (all_nodes base) (n ∷ [])) e t
            (rw (← others-difference n (all_nodes base)) (
              both_sides-Cuts env works _ w' (get_chain_name base.ordinal) (n ∷ [])
                (others n (all_nodes base)))),
      )
    where
      resolve_random :
          (i : ℕ) × (n : Text) × (w' : World) × (Node.resolve_node env none (node_of base none) w
            ≡ (ok n, node_of base (some n), w'))
          × (get_elem? (all_nodes base) i ≡ some n)
          × (w'.trace ≡ w.trace)
      resolve_random =
          let (i, n, e, found) = choice-elem env (all_nodes base) w h in
          (i, n, record w { draws = suc w.draws }, unfold Node.resolve_node in rw e, found, refl)
