-- ===== src/Actions/Halves.antt =====
-- faults/actions.py: PartitionRandomHalvesAction.
use faultstorm.Prelude.{
  ◌/◌, List, [], ◌∷◌, Option, some, ℤ, Result, ok, ◌>>=◌ as and_then, length, take, drop, list_eq,
  nat_eq,
}
use faultstorm.Text.{Text}
use faultstorm.Text.Decimal.{int, str}
use faultstorm.Effects.{Env, shuffle}
use faultstorm.Effects.Methods.{Method, self, modify, lift, return, ◌>>=◌, ◌>>◌}
use faultstorm.Partitioners.{get_chain_name, heal_partition}
use faultstorm.Actions.Base.{
  Nodes, FaultAction, all_nodes, Kwargs, no_kwargs, or_else, part, split_params, spaced, to_csv,
  of_csv,
}
use faultstorm.Actions.Sides.{block_side}

pub record PartitionRandomHalvesAction : Type 0 where
  pub base : FaultAction
  pub group1 : Option (List Text)
  pub group2 : Option (List Text)

abbrev pub init : Nodes → ℤ → Kwargs → PartitionRandomHalvesAction
init nodes ordinal k = record {
  base = record { nodes = nodes; ordinal = ordinal };
  group1 = k.group1;
  group2 = k.group2;
}

module _ (env : Env) where
  -- `if self.group1 is None or self.group2 is None: …`
  unfoldable pub resolve_groups :
      Option (List Text)
      → Option (List Text)
      → Method PartitionRandomHalvesAction (List Text × List Text)
  unfolding shuffle
  resolve_groups (some g1) (some g2) = return (g1, g2)
  resolve_groups _ _ = do
    a ← self
    nodes ← lift (shuffle env (all_nodes a.base))
    let mid = length nodes / 2
    modify λ a. record a { group1 = some (take mid nodes); group2 = some (drop mid nodes) }
    return (take mid nodes, drop mid nodes)

  unfoldable pub execute : Method PartitionRandomHalvesAction (Unit {0})
  execute = do
    a ← self
    (g1, g2) ← resolve_groups a.group1 a.group2
    lift (block_side env (get_chain_name a.base.ordinal) g1 g2)
    lift (block_side env (get_chain_name a.base.ordinal) g2 g1)

  unfoldable pub heal : Method PartitionRandomHalvesAction (Unit {0})
  unfolding heal_partition
  heal = do a ← self; lift (heal_partition env a.base.ordinal (all_nodes a.base))

unfoldable pub serialize : PartitionRandomHalvesAction → Text
serialize a =
    spaced (str a.base.ordinal ∷ to_csv (or_else a.group1 []) ∷ to_csv (or_else a.group2 []) ∷ [])

unfoldable pub deserialize : Text → Nodes → Result PartitionRandomHalvesAction
unfolding part
deserialize params nodes =
    let parts = split_params params in
    and_then (and_then (part parts 0) int) λ ordinal. and_then (part parts 1) λ g1.
      and_then (part parts 2) λ g2. ok (
        init nodes ordinal
          (record no_kwargs { group1 = some (of_csv g1); group2 = some (of_csv g2) }))
