-- ===== src/Latency/Manager/Tests.antt =====
-- network_latency.py: the theorems on two datacenters.
use faultstorm.Prelude.{
  lookup, ◌≡◌, refl, true, List, [], ◌∷◌, some, ℤ, pos, ok, err, list_eq, nat_eq, pair_eq, int_eq,
  os_error,
}
use faultstorm.Prelude.Dict.{Dict}
use faultstorm.Text.{Text, codes}
use faultstorm.Config.{TestConfig, default_config}
use faultstorm.Effects.{writable, Env, World, completed, run}
use faultstorm.Cluster.{exec_on_node}
use faultstorm.Latency.Bands.{BandInfo, succeeded}
use faultstorm.Latency.Delays.{delay_between, normalised, node_dc_of}
use faultstorm.Latency.Delays.Symmetry.{delay_between_comm}
use faultstorm.Latency.Freeze.{freeze_drop_restore}
use faultstorm.Latency.Freeze.Restores.{
  after, flat_map, frozen_of, frozen_world, killed, restored, freeze_drop_restore_lem,
}
use faultstorm.Latency.Manager.{NetworkLatencyManager, apply_node, remove, get_bands_for_node}
use faultstorm.Latency.Manager.Applied.{IsWanted, apply_node-IsWanted}
use faultstorm.Latency.Manager.Recorded.{delay_in, apply_node-lookup}
use faultstorm.Latency.Manager.Removed.{deletes, removed, remove_lem}

abbrev env : Env
env = record {
  answer = λ t argv. completed [];
  draw = λ k. k;
  stop_at = 0;
  timestamp = λ t. [];
  container_template = codes "{node}";
  network_name = [];
  log_file = λ t. writable;
}

abbrev start : World
start = record { trace = []; draws = 0 }

abbrev dc_map : Dict Text (List Text)
dc_map = (codes "dc1", codes "pg1" ∷ codes "zk1" ∷ []) ∷ (codes "dc2", codes "pg2" ∷ []) ∷ []

-- The pair is given in the order that is not the normalised one.
abbrev config : TestConfig
config = record default_config {
  db_nodes = codes "pg1" ∷ codes "pg2" ∷ [];
  extra_nodes = codes "zk1" ∷ [];
  cross_dc_delays = ((codes "dc2", codes "dc1"), pos 5) ∷ [];
  db_zk_delay_ms = pos 2;
}

abbrev delays : Dict (Text × Text) ℤ
delays = normalised config.cross_dc_delays []

abbrev node_dc : Dict Text Text
node_dc = node_dc_of dc_map []

-- Both components.
delay_between_both : delay_between config delays node_dc (codes "pg2") (codes "zk1") ≡ pos 7
unfolding delay_between normalised node_dc_of
delay_between_both = refl

delay_between_comm_example :
    delay_between config delays node_dc (codes "pg2") (codes "zk1")
    ≡ delay_between config delays node_dc (codes "zk1") (codes "pg2")
delay_between_comm_example = delay_between_comm config delays node_dc (codes "pg2") (codes "zk1")

abbrev dests : Dict Text ℤ
dests = (codes "10.0.0.2", pos 5) ∷ (codes "10.0.0.3", pos 7) ∷ []

abbrev manager : NetworkLatencyManager
manager = record { configured_nodes = codes "pg2" ∷ []; node_bands = [] }

apply_node-IsWanted_example :
    ((apply_node env (codes "pg1") dests manager start).0 ≡ ok tt)
    × IsWanted dests
        (get_bands_for_node env (codes "pg1") (apply_node env (codes "pg1") dests manager start).1)
unfolding exec_on_node run
apply_node-IsWanted_example =
    apply_node-IsWanted env dests (codes "pg1") manager start [] (refl, (refl, tt)) refl

-- The environment answers every command.
works_lem :
    (argv : List Text) (w : World)
    → succeeded env (exec_on_node env (codes "pg1") argv 10 w).0 ≡ true
unfolding exec_on_node run
works_lem argv w = refl

apply_node-lookup_example :
    ((apply_node env (codes "pg1") dests manager start).0 ≡ ok tt)
    × ((j : Text)
        → delay_in (
            lookup j (
              get_bands_for_node env
                (codes "pg1")
                (apply_node env (codes "pg1") dests manager start).1))
          ≡ lookup j dests)
apply_node-lookup_example =
    apply_node-lookup env dests (codes "pg1") works_lem manager start (refl, (refl, tt))

remove_lem_example :
    ((remove env config true manager start).0 ≡ ok tt)
    × ((remove env config true manager start).1.configured_nodes ≡ [])
    × ((remove env config true manager start).2
        ≡ after start (flat_map (deletes env config) (removed env config true manager)))
remove_lem_example = remove_lem env config true manager start

abbrev slow : BandInfo
slow = record { parent = codes "1:2"; handle = codes "20:"; delay_ms = pos 5 }

-- Two addresses in one band, and a callback that raises.
abbrev matched : Dict Text BandInfo
matched = (codes "10.0.0.2", slow) ∷ (codes "10.0.0.4", slow) ∷ []

freeze_drop_restore_lem_example :
    freeze_drop_restore env (codes "pg1") matched 5 (some λ w. (err os_error, w)) start
    ≡ restored env (codes "pg1") (frozen_of env (codes "pg1") matched) (
        killed env
          (codes "pg1")
          (some λ w. (err os_error, w))
          (frozen_world env (codes "pg1") (frozen_of env (codes "pg1") matched) 5 start))
freeze_drop_restore_lem_example =
    freeze_drop_restore_lem env (codes "pg1") matched 5 (some λ w. (err os_error, w)) start
