-- ===== src/Cluster/Tests.antt =====
-- cluster.py: the theorem on two nodes that Docker places in one datacenter.
use faultstorm.Prelude.{◌≡◌, refl, List, [], ◌∷◌, ok}
use faultstorm.Prelude.Dict.{Dict}
use faultstorm.Text.{Text, codes}
use faultstorm.Effects.{writable, Env, World, completed}
use faultstorm.Cluster.{build_dc_map}
use faultstorm.Cluster.Labels.{get_list, Labels, nodes_in, build_dc_map-groups}

abbrev env : Env
env = record {
  answer = λ t argv. completed (codes " east");
  draw = λ k. 0;
  stop_at = 0;
  timestamp = λ t. [];
  container_template = codes "{node}";
  network_name = [];
  log_file = λ t. writable;
}

abbrev labels : Labels env (codes "faultstorm.dc")
labels = record { value = λ n. codes " east"; inspected = λ n t. refl }

abbrev start : World
start = record { trace = []; draws = 0 }

abbrev pair : List Text
pair = codes "pg1" ∷ codes "pg2" ∷ []

build_dc_map-groups_example :
    (m : Dict Text (List Text)) × (w' : World) × (build_dc_map env pair
        (codes "faultstorm.dc")
        start
      ≡ (ok m, w'))
    × (get_list (codes "east") m ≡ nodes_in env (codes "faultstorm.dc") labels (codes "east") pair)
build_dc_map-groups_example =
    build_dc_map-groups env (codes "faultstorm.dc") labels (codes "east") pair start refl
