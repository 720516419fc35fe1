-- ===== src/Config.antt =====
-- config.py: the settings of a test, and their default values.
use faultstorm.Prelude.{ℕ, Bool, true, List, [], ◌∷◌, ◌++◌, Option, none, some, ℤ, pos}
use faultstorm.Prelude.Dict.{Dict}
use faultstorm.Text.{Text, codes}
use faultstorm.Actions.Base.{Kwargs}

-- The intervals and the timeout, which are floats, are counts of milliseconds.
pub record TestConfig : Type 0 where
  pub name : Text
  pub db_nodes : List Text
  pub extra_nodes : List Text
  pub write_phase_duration : ℕ
  pub read_phase_duration : ℕ
  pub add_interval : ℕ
  pub read_interval : ℕ
  pub operation_timeout : ℕ
  pub writers_per_node : ℕ
  pub fault_active_duration : ℕ
  pub fault_pause_duration : ℕ
  pub fault_types : List Text
  pub complex_faults_enabled : Bool
  pub complex_fault_min_wait : ℕ
  pub complex_fault_max_wait : ℕ
  pub parallel_faults_count : ℕ
  pub max_destructive_actions : Option ℕ
  pub operations_log : Text
  pub scenario_log : Text
  pub replay_scenario : Option Text
  pub load_node : Option Text
  pub action_params : Dict Text Kwargs
  pub cross_dc_delays : Dict (Text × Text) ℤ
  pub db_zk_delay_ms : ℤ

-- The default values of the dataclass.
abbrev pub default_config : TestConfig
default_config = record {
  name = codes "default";
  db_nodes = [];
  extra_nodes = [];
  write_phase_duration = 7200;
  read_phase_duration = 600;
  add_interval = 20;
  read_interval = 1000;
  operation_timeout = 5000;
  writers_per_node = 2;
  fault_active_duration = 60;
  fault_pause_duration = 60;
  fault_types =
      codes "partition_random_halves"
      ∷ codes "partition_majorities_ring"
      ∷ codes "partition_random_node"
      ∷ codes "partition_random_subnet"
      ∷ codes "partition_random_dc"
      ∷ codes "kill"
      ∷ [];
  complex_faults_enabled = true;
  complex_fault_min_wait = 0;
  complex_fault_max_wait = 20;
  parallel_faults_count = 2;
  max_destructive_actions = some 1;
  operations_log = codes "logs/operations.log";
  scenario_log = codes "logs/scenario.log";
  replay_scenario = none;
  load_node = none;
  action_params = [];
  cross_dc_delays = [];
  db_zk_delay_ms = pos 0;
}

-- `config.all_nodes`
unfoldable pub all_nodes : TestConfig → List Text
all_nodes c = c.db_nodes ++ c.extra_nodes
