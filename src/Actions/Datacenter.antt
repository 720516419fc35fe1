-- ===== src/Actions/Datacenter.antt =====
-- faults/actions.py: PartitionRandomDcAction.
use faultstorm.Prelude.{
  not, List, [], ◌∷◌, Option, none, some, ℤ, Result, ok, ◌>>=◌ as and_then, contains, filter_by,
  list_eq, nat_eq, get_elem?, lookup, keys, is_empty, if◌then◌else◌,
}
use faultstorm.Text.{Text}
use faultstorm.Text.Decimal.{int, str}
use faultstorm.Effects.{Env, choice}
use faultstorm.Effects.Methods.{Method, self, modify, lift, return, ◌>>=◌, ◌>>◌}
use faultstorm.Partitioners.{get_chain_name, heal_partition}
use faultstorm.Actions.Base.{
  Nodes, FaultAction, all_nodes, Kwargs, no_kwargs, show_option, part, split_params, spaced,
}
use faultstorm.Actions.Sides.{block_side}

pub record PartitionRandomDcAction : Type 0 where
  pub base : FaultAction
  pub dc_name : Option Text

abbrev pub init : Nodes → ℤ → Kwargs → PartitionRandomDcAction
init nodes ordinal k = record {
  base = record { nodes = nodes; ordinal = ordinal };
  dc_name = k.dc_name;
}

-- `_get_dc_nodes`, with the name that `execute` has set
unfoldable pub get_dc_nodes : Text → Nodes → List Text
get_dc_nodes dc_name nodes = elim (lookup dc_name nodes.dc_map) [ none ↦ [] | some ns ↦ ns ]

-- `[n for n in affected if n not in dc_nodes]`
unfoldable pub others : List Text → List Text → List Text
others dc_nodes affected = filter_by (λ n. not (contains dc_nodes n)) affected

module _ (env : Env) where
  unfoldable pub resolve_dc : Option Text → Method PartitionRandomDcAction Text
  unfolding choice
  resolve_dc (some d) = return d
  resolve_dc none = do
    a ← self
    d ← lift (choice env (keys a.base.dc_map))
    modify λ a. record a { dc_name = some d }
    return d

  unfoldable pub isolate : List Text → Method PartitionRandomDcAction (Unit {0})
  unfolding others
  isolate [] = return tt
  isolate (n ∷ ns) = do
    a ← self
    let rest = others (n ∷ ns) (all_nodes a.base)
    lift (block_side env (get_chain_name a.base.ordinal) (n ∷ ns) rest)
    lift (block_side env (get_chain_name a.base.ordinal) rest (n ∷ ns))

  unfoldable pub execute : Method PartitionRandomDcAction (Unit {0})
  execute = do
    a ← self
    let chosen = (do d ← resolve_dc a.dc_name; isolate (get_dc_nodes d a.base.nodes))
    if is_empty a.base.dc_map then return tt else chosen

  unfoldable pub heal : Method PartitionRandomDcAction (Unit {0})
  unfolding heal_partition
  heal = do a ← self; lift (heal_partition env a.base.ordinal (all_nodes a.base))

unfoldable pub serialize : PartitionRandomDcAction → Text
serialize a = spaced (str a.base.ordinal ∷ show_option a.dc_name ∷ [])

unfoldable pub deserialize : Text → Nodes → Result PartitionRandomDcAction
unfolding part
deserialize params nodes =
    let parts = split_params params in
    and_then (and_then (part parts 0) int)
      λ ordinal. ok (init nodes ordinal (record no_kwargs { dc_name = get_elem? parts 1 }))
