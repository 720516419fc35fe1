-- ===== src/Actions/Sides.antt =====
-- faults/actions.py: the loop that the partition actions share.
use faultstorm.Prelude.{List, list_eq, nat_eq}
use faultstorm.Text.{Text}
use faultstorm.Effects.{Env, Io, for_each, map_each, ◌>>=◌ as io_then, ◌>>◌ as io_seq}
use faultstorm.Cluster.{get_node_ip}
use faultstorm.Partitioners.{create_chain, add_drop_rules_by_src}

module _ (env : Env) where
  -- `ips = [get_node_ip(n) for n in blocked]`, and the rules against them on each node of `nodes`.
  unfoldable pub block_side : Text → List Text → List Text → Io (Unit {0})
  unfolding map_each for_each get_node_ip create_chain add_drop_rules_by_src
  block_side chain_name nodes blocked = io_then (map_each blocked (get_node_ip env)) λ ips.
      for_each nodes λ node.
        io_seq (create_chain env node chain_name) (add_drop_rules_by_src env node chain_name ips)
