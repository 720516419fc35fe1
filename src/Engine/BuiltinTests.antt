-- ===== src/Engine/BuiltinTests.antt =====
-- faults/engine.py with the built-in actions: a run that is stopped while two faults are active.
use faultstorm.Prelude.{
  ℕ, ◌≡◌, refl, ap, [], ◌∷◌, false, some, pos, arith, get_elem?, lookup, List, contains, list_eq,
  nat_eq, true,
}
use faultstorm.Text.{codes}
use faultstorm.Text.Decimal.{str}
use faultstorm.Actions.Registry.{Registry, get_classes}
use faultstorm.Effects.{
  writable, Env, World, completed, choice, randint, is_set, run, ignore, map_each, for_each, emit,
}
use faultstorm.Config.{TestConfig, default_config}
use faultstorm.Partitioners.{get_directional_chain_name, create_chain_for_direction}
use faultstorm.Cluster.{exec_on_node, get_node_ip, as_runtime_error}
use faultstorm.Actions.Base.{Nodes, spaced}
use faultstorm.Actions.Subnet
use faultstorm.Actions.Wait
use faultstorm.Actions.Chains.{used}
use faultstorm.Engine.Chains.{commands, run_random-chains}
use faultstorm.Actions.Builtin.{
  Class, Action, make, execute, serialize, name, healable, destructive,
}
use faultstorm.Engine.State.{
  new_engine, get_next_ordinal, log_and_execute, write_action, wait, open_log, close_log,
  action_line,
}
use faultstorm.Engine.Inject.{
  filter_by_destructive_limit, kwargs_for, inject, inject_loop, use_combo, inject_complex_fault,
  wait_between,
}
use faultstorm.Engine.Loop.{run_random, closing, do_random_loop, inject_phase, complex_classes_of}
use faultstorm.Engine.Builtin.{builtin}

abbrev nodes : Nodes
nodes = record { db_nodes = codes "pg1" ∷ []; extra_nodes = codes "zk1" ∷ []; dc_map = [] }

abbrev config : TestConfig
config = record default_config {
  db_nodes = nodes.db_nodes;
  extra_nodes = nodes.extra_nodes;
  fault_types = codes "subnet" ∷ [];
  complex_faults_enabled = false;
  complex_fault_max_wait = 0;
}

abbrev env : Env
env = record {
  answer = λ t argv. completed (codes "10.0.0.7");
  draw = λ k. 0;
  stop_at = 18;
  timestamp = λ t. [];
  container_template = codes "{node}";
  network_name = [];
  log_file = λ t. writable;
}

abbrev start : World
start = record { trace = []; draws = 0 }

abbrev registry : Registry Class
registry = (codes "subnet", Class.subnet) ∷ []

-- The run has cut the packets that come from zk1 to pg1.
abbrev cut : ℕ → Action
cut n = Action.subnet (record {
  base = record { nodes = nodes; ordinal = pos n };
  node = some (codes "pg1");
  direction = some (codes "input");
  subnet_type = some (codes "zk");
  blocked_nodes = some (codes "zk1" ∷ []);
})

-- What is active at the end.
abbrev at_end : List Action
at_end = (run_random builtin env config nodes 3 registry new_engine start).1.active_faults

after_run : at_end ≡ cut 1 ∷ cut 3 ∷ []
unfolding run_random get_classes closing do_random_loop inject_phase inject_complex_fault
    inject_loop use_combo inject get_next_ordinal log_and_execute write_action wait_between wait
    open_log close_log choice randint is_set complex_classes_of make execute serialize str spaced
    filter_by_destructive_limit kwargs_for name lookup action_line destructive healable emit
    Subnet.execute Subnet.serialize Wait.execute Subnet.resolve_node Subnet.resolve_direction
    Subnet.resolve_subnet_type Subnet.resolve_blocked map_each get_node_ip for_each
    Subnet.get_iptables_directions Subnet.block_direction
after_run = refl

first_active : get_elem? at_end 0 ≡ some (cut 1)
first_active = ap (λ as'. get_elem? as' 0) after_run

second_active : get_elem? at_end 1 ≡ some (cut 3)
second_active = ap (λ as'. get_elem? as' 1) after_run

-- The first of the two uses the chain FSTORM_PART_1_IN.
first_chain : contains (used (commands env (cut 1) 0)) (codes "FSTORM_PART_1_IN") ≡ true
unfolding execute Subnet.execute Subnet.resolve_node Subnet.resolve_direction
    Subnet.resolve_subnet_type Subnet.resolve_blocked map_each get_node_ip as_runtime_error for_each
    Subnet.get_iptables_directions Subnet.block_direction create_chain_for_direction
    get_directional_chain_name exec_on_node run emit ignore str
first_chain = refl

run_random-chains_example :
    contains (used (commands env (cut 3) 0)) (codes "FSTORM_PART_1_IN") ≡ false
run_random-chains_example =
    run_random-chains env config nodes 3 registry start 0 1 (cut 1) (cut 3) first_active
      second_active (λ h. ground arith) env env 0 0 (codes "FSTORM_PART_1_IN") first_chain
