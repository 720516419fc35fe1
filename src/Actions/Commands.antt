-- ===== src/Actions/Commands.antt =====
-- faults/partitioners.py, cluster.py and the loops of faults/actions.py: the commands that they
-- start are added to the trace.
use faultstorm.Prelude.{ℕ, List, ℤ, arith, runtime_error, is_empty, if◌then◌else◌, ◌≡◌}
use faultstorm.Text.{Text, strip}
use faultstorm.Effects.{Env, World, Io, run, map_each, pure, raise}
use faultstorm.Actions.Base.{FaultAction}
use faultstorm.Actions.Chains.{IsChainOf, Names}
use faultstorm.Effects.Grows.{
  Grows, pure-Grows, raise-Grows, if-Grows, >>=-Grows, >>-Grows, ignore-Grows, for_each-Grows,
  map_each-Grows, run-Grows,
}
use faultstorm.Cluster.{
  exec_argv, exec_on_node, as_runtime_error, inspect_argv, ip_format, get_node_ip,
}
use faultstorm.Partitioners.{
  get_chain_name, get_directional_chain_name, create_chain, create_chain_for_direction,
  add_drop_rules_by_src, add_drop_rules_by_dest, remove_chain, remove_chain_for_direction,
  heal_partition, heal_directional_partition,
}
use faultstorm.Actions.Sides.{block_side}
use faultstorm.Actions.Freeze.{BaseFreezeAction, write_flag_to_nodes, remove_flag_from_nodes}

module _ (env : Env) (b : FaultAction) where
  pub exec_on_node-Grows :
      (node : Text) (command : List Text) (t : ℕ)
      → Names b (exec_argv env node command)
      → Grows (Names b) (exec_on_node env node command t)
  unfolding exec_on_node
  exec_on_node-Grows node command t h = run-Grows env (exec_argv env node command) t h

  as_runtime_world : {A : Type 0} (m : Io A) (w : World) → (as_runtime_error env m w).1 ≡ (m w).1
  unfolding as_runtime_error
  as_runtime_world m w = ground arith

  as_runtime_error-Grows :
      {A : Type 0} (m : Io A) → Grows (Names b) m → Grows (Names b) (as_runtime_error env m)
  unfolding as_runtime_error
  as_runtime_error-Grows m h = record {
    grows = λ w. ground (arith, h.grows w);
    quiet = λ w. ground (arith, h.quiet w);
    only = λ w p. rw (as_runtime_world m w) (h.only w p);
  }

  address-Grows :
      (out : Text)
      → Grows
          (Names b)
          {A = Text}
          (if is_empty (strip out) then raise runtime_error else pure (strip out))
  address-Grows out =
      if-Grows (is_empty (strip out)) (raise runtime_error) (pure (strip out))
        (raise-Grows runtime_error) (pure-Grows (strip out))

  pub get_node_ip-Grows : (node : Text) → Grows (Names b) (get_node_ip env node)
  unfolding get_node_ip
  get_node_ip-Grows node = as_runtime_error-Grows _ (
      >>=-Grows (run env (inspect_argv env (ip_format env) node) 10) _
        (run-Grows env (inspect_argv env (ip_format env) node) 10 tt) address-Grows)

  pub create_chain-Grows :
      (node chain : Text) → IsChainOf b chain → Grows (Names b) (create_chain env node chain)
  unfolding create_chain
  create_chain-Grows node chain h = ignore-Grows _ (
      >>-Grows (exec_on_node env node _ 10) _ (exec_on_node-Grows node _ 10 (h, tt))
        (exec_on_node-Grows node _ 10 (h, tt)))

  pub create_chain_for_direction-Grows :
      (node chain d : Text)
      → IsChainOf b chain
      → Grows (Names b) (create_chain_for_direction env node chain d)
  unfolding create_chain_for_direction
  create_chain_for_direction-Grows node chain d h = ignore-Grows _ (
      >>-Grows (exec_on_node env node _ 10) _ (exec_on_node-Grows node _ 10 (h, tt))
        (exec_on_node-Grows node _ 10 (h, tt)))

  pub add_drop_rules_by_src-Grows :
      (node chain : Text) (ips : List Text)
      → IsChainOf b chain
      → Grows (Names b) (add_drop_rules_by_src env node chain ips)
  unfolding add_drop_rules_by_src
  add_drop_rules_by_src-Grows node chain ips h =
      for_each-Grows ips _ (λ ip. ignore-Grows _ (exec_on_node-Grows node _ 10 (h, tt)))

  pub add_drop_rules_by_dest-Grows :
      (node chain : Text) (ips : List Text)
      → IsChainOf b chain
      → Grows (Names b) (add_drop_rules_by_dest env node chain ips)
  unfolding add_drop_rules_by_dest
  add_drop_rules_by_dest-Grows node chain ips h =
      for_each-Grows ips _ (λ ip. ignore-Grows _ (exec_on_node-Grows node _ 10 (h, tt)))

  remove_chain-Grows :
      (node chain : Text) → IsChainOf b chain → Grows (Names b) (remove_chain env node chain)
  unfolding remove_chain
  remove_chain-Grows node chain h = ignore-Grows _ (
      >>-Grows (exec_on_node env node _ 10) _ (exec_on_node-Grows node _ 10 (h, tt)) (
        >>-Grows (exec_on_node env node _ 10) _ (exec_on_node-Grows node _ 10 (h, tt))
          (exec_on_node-Grows node _ 10 (h, tt))))

  remove_chain_for_direction-Grows :
      (node chain d : Text)
      → IsChainOf b chain
      → Grows (Names b) (remove_chain_for_direction env node chain d)
  unfolding remove_chain_for_direction
  remove_chain_for_direction-Grows node chain d h = ignore-Grows _ (
      >>-Grows (exec_on_node env node _ 10) _ (exec_on_node-Grows node _ 10 (h, tt)) (
        >>-Grows (exec_on_node env node _ 10) _ (exec_on_node-Grows node _ 10 (h, tt))
          (exec_on_node-Grows node _ 10 (h, tt))))

  pub heal_partition-Grows :
      (i : ℤ) (ns : List Text)
      → IsChainOf b (get_chain_name i)
      → Grows (Names b) (heal_partition env i ns)
  unfolding heal_partition
  heal_partition-Grows i ns h = for_each-Grows ns _ (λ n. remove_chain-Grows n (get_chain_name i) h)

  pub heal_directional_partition-Grows :
      (i : ℤ) (node : Text) (ds : List Text)
      → ((d : Text) → IsChainOf b (get_directional_chain_name i d))
      → Grows (Names b) (heal_directional_partition env i node ds)
  unfolding heal_directional_partition
  heal_directional_partition-Grows i node ds h =
      for_each-Grows ds _
        (λ d. remove_chain_for_direction-Grows node (get_directional_chain_name i d) d (h d))

  pub block_side-Grows :
      (chain : Text) (nodes blocked : List Text)
      → IsChainOf b chain
      → Grows (Names b) (block_side env chain nodes blocked)
  unfolding block_side
  block_side-Grows chain nodes blocked h =
      >>=-Grows (map_each blocked (get_node_ip env)) _ (map_each-Grows blocked _ get_node_ip-Grows)
        (λ ips. for_each-Grows nodes _ (λ n.
          >>-Grows (create_chain env n chain) _ (create_chain-Grows n chain h)
            (add_drop_rules_by_src-Grows n chain ips h)))

  pub write_flag_to_nodes-Grows :
      (a : BaseFreezeAction) (ns : List Text) → Grows (Names b) (write_flag_to_nodes env a ns)
  unfolding write_flag_to_nodes
  write_flag_to_nodes-Grows a ns =
      for_each-Grows ns _ (λ n. ignore-Grows _ (exec_on_node-Grows n _ 10 tt))

  pub remove_flag_from_nodes-Grows :
      (ns : List Text) → Grows (Names b) (remove_flag_from_nodes env ns)
  unfolding remove_flag_from_nodes
  remove_flag_from_nodes-Grows ns =
      for_each-Grows ns _ (λ n. ignore-Grows _ (exec_on_node-Grows n _ 10 tt))
