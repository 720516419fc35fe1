-- ===== src/Actions/Subnet.antt =====
-- faults/actions.py: PartitionRandomSubnetAction.
use faultstorm.Prelude.{
  not, List, [], ◌∷◌, ◌++◌, Option, none, some, ℤ, Result, ok, ◌>>=◌ as and_then, filter_by,
  list_eq, nat_eq, get_elem?, assertion_error, if◌then◌else◌, ◌==◌,
}
use faultstorm.Text.{Text, codes}
use faultstorm.Text.Decimal.{int, str}
use faultstorm.Effects.{Env, Io, choice, for_each, map_each, ◌>>◌ as io_seq}
use faultstorm.Effects.Methods.{Method, self, modify, lift, return, throw, ◌>>=◌, ◌>>◌}
use faultstorm.Cluster.{get_node_ip}
use faultstorm.Partitioners.{
  add_drop_rules_by_src, get_directional_chain_name, create_chain_for_direction,
  add_drop_rules_by_dest, heal_directional_partition, input, output,
}
use faultstorm.Actions.Base.{
  Nodes, FaultAction, Kwargs, no_kwargs, or_else, show_option, part, split_params, spaced, to_csv,
  of_csv,
}

pub record PartitionRandomSubnetAction : Type 0 where
  pub base : FaultAction
  pub node : Option Text
  pub direction : Option Text
  pub subnet_type : Option Text
  pub blocked_nodes : Option (List Text)

abbrev pub directions : List Text
directions = codes "input" ∷ codes "output" ∷ codes "both" ∷ []

abbrev pub subnet_types : List Text
subnet_types = codes "zk" ∷ codes "db" ∷ codes "all" ∷ []

abbrev pub init : Nodes → ℤ → Kwargs → PartitionRandomSubnetAction
init nodes ordinal k = record {
  base = record { nodes = nodes; ordinal = ordinal };
  node = k.node;
  direction = k.direction;
  subnet_type = k.subnet_type;
  blocked_nodes = k.blocked_nodes;
}

-- `_resolve_blocked_nodes`
unfoldable pub resolve_blocked_nodes : Text → Text → Nodes → List Text
resolve_blocked_nodes node subnet_type nodes =
    let other_nodes = filter_by (λ n. not (n == node)) nodes.db_nodes in
    if subnet_type == codes "zk"
    then nodes.extra_nodes
    else if subnet_type == codes "db"
    then other_nodes
    else (nodes.extra_nodes ++ other_nodes)

-- `_get_iptables_directions`: a direction that was never set counts as both
unfoldable pub get_iptables_directions : Option Text → List Text
get_iptables_directions none = input ∷ output ∷ []
get_iptables_directions (some direction) =
    if direction == codes "input"
    then input ∷ []
    else if direction == codes "output"
    then output ∷ []
    else (input ∷ output ∷ [])

module _ (env : Env) where
  unfoldable pub resolve_node : Option Text → Method PartitionRandomSubnetAction Text
  unfolding choice
  resolve_node (some n) = return n
  resolve_node none = do
    a ← self
    n ← lift (choice env a.base.db_nodes)
    modify λ a. record a { node = some n }
    return n

  unfoldable pub resolve_direction : Option Text → Method PartitionRandomSubnetAction Text
  unfolding choice
  resolve_direction (some d) = return d
  resolve_direction none = do
    d ← lift (choice env directions)
    modify λ a. record a { direction = some d }
    return d

  unfoldable pub resolve_subnet_type : Option Text → Method PartitionRandomSubnetAction Text
  unfolding choice
  resolve_subnet_type (some s) = return s
  resolve_subnet_type none = do
    s ← lift (choice env subnet_types)
    modify λ a. record a { subnet_type = some s }
    return s

  unfoldable pub resolve_blocked :
      Text → Text → Option (List Text) → Method PartitionRandomSubnetAction (List Text)
  unfolding resolve_blocked_nodes
  resolve_blocked node subnet_type (some b) = return b
  resolve_blocked node subnet_type none = do
    a ← self
    let b = resolve_blocked_nodes node subnet_type a.base.nodes
    modify λ a. record a { blocked_nodes = some b }
    return b

  -- The body of the loop over the iptables directions.
  unfoldable pub block_direction : ℤ → Text → List Text → Text → Io (Unit {0})
  unfolding get_directional_chain_name create_chain_for_direction add_drop_rules_by_src
      add_drop_rules_by_dest
  block_direction ordinal node ips direction =
      let chain_name = get_directional_chain_name ordinal direction in
      io_seq (create_chain_for_direction env node chain_name direction) (
        if direction == input
        then add_drop_rules_by_src env node chain_name ips
        else add_drop_rules_by_dest env node chain_name ips)

  unfoldable pub execute : Method PartitionRandomSubnetAction (Unit {0})
  execute = do
    a ← self
    node ← resolve_node a.node
    direction ← resolve_direction a.direction
    subnet_type ← resolve_subnet_type a.subnet_type
    blocked ← resolve_blocked node subnet_type a.blocked_nodes
    ips ← lift (map_each blocked (get_node_ip env))
    lift (
        for_each (get_iptables_directions (some direction))
          (block_direction a.base.ordinal node ips))

  -- `assert self.node is not None`
  unfoldable pub heal_on : Option Text → Method PartitionRandomSubnetAction (Unit {0})
  unfolding heal_directional_partition get_iptables_directions
  heal_on none = throw assertion_error
  heal_on (some node) = do
    a ← self
    lift (heal_directional_partition env a.base.ordinal node (get_iptables_directions a.direction))

  unfoldable pub heal : Method PartitionRandomSubnetAction (Unit {0})
  unfolding heal_on
  heal = do a ← self; heal_on a.node

unfoldable pub serialize : PartitionRandomSubnetAction → Text
serialize a = spaced (
    str a.base.ordinal
    ∷ show_option a.node
    ∷ show_option a.direction
    ∷ show_option a.subnet_type
    ∷ to_csv (or_else a.blocked_nodes [])
    ∷ [])

-- `parts[4].split(",") if len(parts) > 4 and parts[4] else []`
unfoldable pub blocked_of : Option Text → List Text
blocked_of none = []
blocked_of (some []) = []
blocked_of (some (c ∷ t)) = of_csv (c ∷ t)

unfoldable pub deserialize : Text → Nodes → Result PartitionRandomSubnetAction
unfolding part blocked_of
deserialize params nodes =
    let parts = split_params params in
    and_then (and_then (part parts 0) int) λ ordinal. and_then (part parts 1) λ node.
      and_then (part parts 2) λ direction. and_then (part parts 3) λ subnet_type. ok (
        init nodes ordinal (record no_kwargs {
          node = some node;
          direction = some direction;
          subnet_type = some subnet_type;
          blocked_nodes = some (blocked_of (get_elem? parts 4));
        }))
