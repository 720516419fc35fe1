-- ===== src/Actions/Node.antt =====
-- faults/actions.py: PartitionRandomNodeAction.
use faultstorm.Prelude.{
  not, List, [], ◌∷◌, Option, none, some, ℤ, Result, ok, ◌>>=◌ as and_then, filter_by, list_eq,
  nat_eq, get_elem?, ◌==◌,
}
use faultstorm.Text.{Text}
use faultstorm.Text.Decimal.{int, str}
use faultstorm.Effects.{Env, choice}
use faultstorm.Effects.Methods.{Method, self, modify, lift, return, ◌>>=◌, ◌>>◌}
use faultstorm.Partitioners.{get_chain_name, heal_partition}
use faultstorm.Actions.Base.{
  Nodes, FaultAction, all_nodes, Kwargs, no_kwargs, or_else, part, split_params, spaced,
}
use faultstorm.Actions.Sides.{block_side}

pub record PartitionRandomNodeAction : Type 0 where
  pub base : FaultAction
  pub node : Option Text

abbrev pub init : Nodes → ℤ → Kwargs → PartitionRandomNodeAction
init nodes ordinal k = record { base = record { nodes = nodes; ordinal = ordinal }; node = k.node }

-- `[n for n in affected if n != self.node]`
unfoldable pub others : Text → List Text → List Text
others node affected = filter_by (λ n. not (n == node)) affected

module _ (env : Env) where
  unfoldable pub resolve_node : Option Text → Method PartitionRandomNodeAction Text
  unfolding choice
  resolve_node (some n) = return n
  resolve_node none = do
    a ← self
    n ← lift (choice env (all_nodes a.base))
    modify λ a. record a { node = some n }
    return n

  unfoldable pub execute : Method PartitionRandomNodeAction (Unit {0})
  execute = do
    a ← self
    n ← resolve_node a.node
    lift (block_side env (get_chain_name a.base.ordinal) (n ∷ []) (others n (all_nodes a.base)))
    lift (block_side env (get_chain_name a.base.ordinal) (others n (all_nodes a.base)) (n ∷ []))

  unfoldable pub heal : Method PartitionRandomNodeAction (Unit {0})
  unfolding heal_partition
  heal = do a ← self; lift (heal_partition env a.base.ordinal (all_nodes a.base))

unfoldable pub serialize : PartitionRandomNodeAction → Text
serialize a = spaced (str a.base.ordinal ∷ or_else a.node [] ∷ [])

unfoldable pub deserialize : Text → Nodes → Result PartitionRandomNodeAction
unfolding part
deserialize params nodes =
    let parts = split_params params in
    and_then (and_then (part parts 0) int)
      λ ordinal. ok (init nodes ordinal (record no_kwargs { node = get_elem? parts 1 }))
