-- ===== src/Actions/Tests.antt =====
-- faults/actions.py: the theorems on a small cluster, with a Docker that always answers.
use mathlib.Core.List.{Perm}
use faultstorm.Prelude.{
  difference, IsNodup, true, ℕ, ◌*◌, ◌/◌, ◌<◌, ◌≡◌, ◌↔◌, refl, false, not, ◌&&◌, List, [], ◌∷◌,
  none, some, pos, ok, err, index_error, contains, list_eq, nat_eq, arith, length, take, drop,
  get_elem?, is_empty, if◌then◌else◌, ◌==◌, lookup,
}
use faultstorm.Text.{Text, codes, is_space, strip}
use faultstorm.Effects.{writable, Env, World, completed}
use faultstorm.Partitioners.{get_chain_name}
use faultstorm.Actions.Base.{Nodes, FaultAction, all_nodes, no_kwargs}
use faultstorm.Actions.Halves
use faultstorm.Actions.Ring.{visible, blocked}
use faultstorm.Actions.Node.{others}
use faultstorm.Actions.Node
use faultstorm.Actions.Datacenter
use faultstorm.Actions.Builtin.{Class, Action, name, class_of, init, serialize, deserialize}
use faultstorm.Actions.Registry.{
  register, get, list_names, create_default_registry_lem, default_registry, get-register,
  create_default_registry-get,
}
use faultstorm.Actions.Rules.{Works}
use faultstorm.Actions.Isolation.{Cuts}
use faultstorm.Actions.Isolation.Halves.{halves_of, execute-halves, execute-halves_random}
use faultstorm.Actions.Isolation.Node.{node_of, execute-node, execute-node_random}
use faultstorm.Actions.Isolation.Datacenter.{dc_of, execute-dc}
use faultstorm.Actions.Isolation.Ring.{
  Rings, visible-majority, blocked_lem, execute-ring, execute-ring_random,
}
use faultstorm.Actions.Resolved.{IsResolved, as_logged, nodes_of}
use faultstorm.Actions.RoundTrip.{
  none_text, unset, deserialize-serialize, deserialize-serialize_unset, deserialize-serialize_none,
}

abbrev cluster : Nodes
cluster = record {
  db_nodes = codes "pg1" ∷ codes "pg2" ∷ codes "pg3" ∷ [];
  extra_nodes = codes "etcd1" ∷ [];
  dc_map = (codes "east", codes "pg1" ∷ []) ∷ [];
}

abbrev base : FaultAction
base = record { nodes = cluster; ordinal = pos 7 }

abbrev env : Env
env = record {
  answer = λ t argv. completed (codes "10.0.0.1");
  draw = λ k. 5;
  stop_at = 100;
  timestamp = λ t. [];
  container_template = codes "{node}";
  network_name = [];
  log_file = λ t. writable;
}

works : Works env
unfolding strip
works = record {
  address = λ n. codes "10.0.0.1";
  output = λ n c. codes "10.0.0.1";
  executed = λ n c t. refl;
  inspected = λ n t. refl;
  trimmed = λ n. refl;
}

abbrev start : World
start = record { trace = []; draws = 0 }

abbrev left : List Text
left = codes "pg1" ∷ []

abbrev right : List Text
right = codes "pg2" ∷ codes "pg3" ∷ []

execute-halves_example :
    Cuts env works
      (Halves.execute env)
      (halves_of base (some left) (some right))
      (halves_of base (some left) (some right))
      start
      (get_chain_name (pos 7))
      left
      right
execute-halves_example = execute-halves env works base left right start

execute-halves_random_example :
    (nodes : List Text) × Perm nodes (all_nodes base)
    × Cuts env works
        (Halves.execute env)
        (halves_of base none none)
        (halves_of base
          (some (take (length nodes / 2) nodes))
          (some (drop (length nodes / 2) nodes)))
        start
        (get_chain_name (pos 7))
        (take (length nodes / 2) nodes)
        (drop (length nodes / 2) nodes)
execute-halves_random_example = execute-halves_random env works base start

execute-node_example :
    Cuts env works
      (Node.execute env)
      (node_of base (some (codes "pg1")))
      (node_of base (some (codes "pg1")))
      start
      (get_chain_name (pos 7))
      (codes "pg1" ∷ [])
      (difference (all_nodes base) (codes "pg1" ∷ []))
execute-node_example = execute-node env works base (codes "pg1") start

execute-node_random_example :
    (i : ℕ) × (n : Text) × (get_elem? (all_nodes base) i ≡ some n)
    × Cuts env works
        (Node.execute env)
        (node_of base none)
        (node_of base (some n))
        start
        (get_chain_name (pos 7))
        (n ∷ [])
        (difference (all_nodes base) (n ∷ []))
execute-node_random_example = execute-node_random env works base start (omega arith)

east_found : lookup (codes "east") cluster.dc_map ≡ some (codes "pg1" ∷ [])
unfolding lookup
east_found = refl

execute-dc_example :
    Cuts env works
      (Datacenter.execute env)
      (dc_of base (some (codes "east")))
      (dc_of base (some (codes "east")))
      start
      (get_chain_name (pos 7))
      (codes "pg1" ∷ [])
      (difference (all_nodes base) (codes "pg1" ∷ []))
execute-dc_example = execute-dc env works base (codes "east") (codes "pg1") [] start east_found

execute-ring_example : Rings env works base (some right) right start
execute-ring_example = execute-ring env works base right start

execute-ring_random_example :
    (o : List Text) × Perm o (all_nodes base) × Rings env works base none o start
execute-ring_random_example = execute-ring_random env works base start

all_nodes-IsNodup : IsNodup (all_nodes base)
all_nodes-IsNodup = (refl, (refl, (refl, (refl, tt))))

visible-majority_example :
    IsNodup (visible (all_nodes base) 1)
    × ((x : Text)
        → contains (visible (all_nodes base) 1) x ≡ true
        → contains (all_nodes base) x ≡ true)
    × (length (all_nodes base) < 2 * length (visible (all_nodes base) 1))
visible-majority_example = visible-majority (all_nodes base) 1 all_nodes-IsNodup (omega arith)

blocked_lem_example :
    (contains (blocked (all_nodes base) 0) (codes "etcd1") ≡ (
      not (contains (visible (all_nodes base) 0) (codes "etcd1"))
      && contains (all_nodes base) (codes "etcd1")))
    × (contains (blocked (all_nodes base) 0) (codes "pg1") ≡ false)
blocked_lem_example = blocked_lem (all_nodes base) 0 (codes "pg1") (codes "etcd1") refl

first_names :
    take 3 (list_names default_registry)
    ≡ codes "freeze_processes" ∷ codes "freeze_processes_group" ∷ codes "kill" ∷ []
unfolding list_names name
first_names = refl

create_default_registry-get_example :
    (get (codes "kill") default_registry ≡ some Class.kill) ↔ (name Class.kill ≡ codes "kill")
create_default_registry-get_example =
    create_default_registry-get default_registry create_default_registry_lem (codes "kill")
      Class.kill

registered : register name Class.kill [] ≡ ok ((name Class.kill, Class.kill) ∷ [])
unfolding register name
registered = refl

get-register_example :
    (get (codes "wait") ((name Class.kill, Class.kill) ∷ [])
      ≡ (if name Class.kill == codes "wait" then some Class.kill else get (codes "wait") []))
    × (get {C = Class} (name Class.kill) [] ≡ none)
    × (is_empty (name Class.kill) ≡ false)
get-register_example =
    get-register name Class.kill [] ((name Class.kill, Class.kill) ∷ []) (codes "wait") registered

abbrev killing : Action
killing = Action.kill (record {
  base = base;
  process = some (codes "postgres");
  node = some (codes "pg1");
  processes = codes "etcd" ∷ [];
})

killing-IsResolved : IsResolved killing
unfolding is_space
killing-IsResolved = (
  (
    (refl, (refl, (refl, (refl, (refl, (refl, (refl, (refl, tt)))))))),
    (refl, (refl, (refl, (refl, (refl, (refl, (refl, (refl, tt)))))))),
  ),
  ((refl, (refl, (refl, tt))), (refl, (refl, (refl, tt)))),
)

deserialize-serialize_example :
    deserialize (class_of killing) (serialize killing) (nodes_of killing) ≡ ok (as_logged killing)
deserialize-serialize_example = deserialize-serialize killing killing-IsResolved

deserialize-serialize_unset_example :
    (deserialize Class.halves (serialize (unset cluster (pos 7) Class.halves)) cluster
      ≡ err index_error)
    × (deserialize Class.ring (serialize (unset cluster (pos 7) Class.ring)) cluster
        ≡ err index_error)
deserialize-serialize_unset_example = deserialize-serialize_unset cluster (pos 7)

deserialize-serialize_none_example :
    (deserialize Class.kill (serialize (unset cluster (pos 7) Class.kill)) cluster
      ≡ ok (
          init Class.kill cluster
            (pos 7)
            (record no_kwargs { process = some none_text; node = some none_text })))
    × (deserialize Class.dc (serialize (unset cluster (pos 7) Class.dc)) cluster
        ≡ ok (init Class.dc cluster (pos 7) (record no_kwargs { dc_name = some none_text })))
deserialize-serialize_none_example = deserialize-serialize_none cluster (pos 7)
