-- ===== src/Actions/Ring.antt =====
-- faults/actions.py: PartitionMajoritiesRingAction.
use faultstorm.Prelude.{
  ℕ, zero, suc, ◌+◌, ◌%◌, ◌/◌, not, List, [], ◌∷◌, ◌++◌, Option, none, some, ℤ, Result, ok,
  ◌>>=◌ as and_then, length, contains, filter_by, list_eq, nat_eq, get_elem?,
}
use faultstorm.Text.{Text}
use faultstorm.Text.Decimal.{int, str}
use faultstorm.Effects.{Env, Io, shuffle, map_each, pure, ◌>>=◌ as io_then, ◌>>◌ as io_seq}
use faultstorm.Effects.Methods.{Method, self, modify, lift, return, ◌>>=◌, ◌>>◌}
use faultstorm.Cluster.{get_node_ip}
use faultstorm.Partitioners.{get_chain_name, create_chain, add_drop_rules_by_src, heal_partition}
use faultstorm.Actions.Base.{
  Nodes, FaultAction, all_nodes, Kwargs, no_kwargs, or_else, part, split_params, spaced, to_csv,
  of_csv,
}

pub record PartitionMajoritiesRingAction : Type 0 where
  pub base : FaultAction
  pub ordered : Option (List Text)

abbrev pub init : Nodes → ℤ → Kwargs → PartitionMajoritiesRingAction
init nodes ordinal k = record {
  base = record { nodes = nodes; ordinal = ordinal };
  ordered = k.ordered;
}

-- `[ordered[(i + j) % n] for j in range(m)]`, from `j` on
unfoldable pub window : List Text → ℕ → ℕ → ℕ → List Text
window ordered i j zero = []
window ordered i j (suc m) =
    elim (get_elem? ordered ((i + j) % length ordered)) [ none ↦ [] | some nd ↦ nd ∷ [] ]
    ++ window ordered i (j + 1) m

unfoldable pub visible : List Text → ℕ → List Text
unfolding window
visible ordered i = window ordered i 0 (length ordered / 2 + 1)

unfoldable pub blocked : List Text → ℕ → List Text
unfolding visible
blocked ordered i = filter_by (λ nd. not (contains (visible ordered i) nd)) ordered

module _ (env : Env) where
  unfoldable pub resolve_ordered :
      Option (List Text) → Method PartitionMajoritiesRingAction (List Text)
  unfolding shuffle
  resolve_ordered (some o) = return o
  resolve_ordered none = do
    a ← self
    o ← lift (shuffle env (all_nodes a.base))
    modify λ a. record a { ordered = some o }
    return o

  -- The body of the loop over `enumerate(ordered)`.
  unfoldable pub block_node : Text → List Text → ℕ → Text → Io (Unit {0})
  unfolding blocked map_each get_node_ip create_chain add_drop_rules_by_src
  block_node chain_name ordered i node =
      io_then (map_each (blocked ordered i) (get_node_ip env)) λ ips.
        io_seq (create_chain env node chain_name) (add_drop_rules_by_src env node chain_name ips)

  unfoldable pub block_from : Text → List Text → ℕ → List Text → Io (Unit {0})
  unfolding block_node
  block_from chain_name ordered i [] = pure tt
  block_from chain_name ordered i (node ∷ nodes) =
      io_seq (block_node chain_name ordered i node) (block_from chain_name ordered (i + 1) nodes)

  unfoldable pub execute : Method PartitionMajoritiesRingAction (Unit {0})
  execute = do
    a ← self
    o ← resolve_ordered a.ordered
    lift (block_from (get_chain_name a.base.ordinal) o 0 o)

  unfoldable pub heal : Method PartitionMajoritiesRingAction (Unit {0})
  unfolding heal_partition
  heal = do a ← self; lift (heal_partition env a.base.ordinal (all_nodes a.base))

unfoldable pub serialize : PartitionMajoritiesRingAction → Text
serialize a = spaced (str a.base.ordinal ∷ to_csv (or_else a.ordered []) ∷ [])

unfoldable pub deserialize : Text → Nodes → Result PartitionMajoritiesRingAction
unfolding part
deserialize params nodes =
    let parts = split_params params in
    and_then (and_then (part parts 0) int) λ ordinal.
      and_then (part parts 1)
        λ o. ok (init nodes ordinal (record no_kwargs { ordered = some (of_csv o) }))
