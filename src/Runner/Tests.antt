-- ===== src/Runner/Tests.antt =====
-- runner.py: a test whose phases are ended by the table that cannot be set up.
use faultstorm.Prelude.{◌≡◌, refl, false, [], ◌∷◌, pos, ok, err, database_error, length}
use faultstorm.Text.{codes}
use faultstorm.Config.{TestConfig, default_config}
use faultstorm.Effects.{writable, Env, World, completed}
use faultstorm.Engine.Builtin.{builtin}
use faultstorm.Load.Client.{DatabaseClient}
use faultstorm.Latency.Manager.{new_manager, apply}
use faultstorm.Runner.{Surroundings, run_phases, run}
use faultstorm.Runner.Cleanup.{Cleans, run-Cleans}

abbrev env : Env
env = record {
  answer = λ t argv. completed (codes "10.0.0.7");
  draw = λ k. k;
  stop_at = 0;
  timestamp = λ t. [];
  container_template = codes "{node}";
  network_name = [];
  log_file = λ t. writable;
}

abbrev start : World
start = record { trace = []; draws = 0 }

abbrev client : DatabaseClient
client = record {
  Db = Unit {0};
  get_db_nodes = codes "pg1" ∷ [];
  setup = λ n d. (err database_error, tt);
  add = λ n v d. (ok tt, tt);
  read = λ n d. (ok [], tt);
  is_definite_failure = λ e. false;
}

abbrev config : TestConfig
config = record default_config {
  db_nodes = codes "pg1" ∷ [];
  extra_nodes = codes "zk1" ∷ [];
  db_zk_delay_ms = pos 2;
}

abbrev given : Surroundings
given = record {
  fuel = 1;
  scenario_of = λ path. [];
  write_moves = [];
  read_moves = [];
  clock = λ log. length log;
  interval = 1;
}

run-Cleans_example :
    Cleans builtin client env config [] given
      (run_phases builtin client env config [] given [] tt)
      (apply env config [] new_manager start)
      (run builtin client env config [] given [] tt new_manager start)
run-Cleans_example = run-Cleans builtin client env config [] given [] tt new_manager start

-- Both nodes have rules when the phases begin.
configured :
    (apply env config [] new_manager start).1.configured_nodes ≡ codes "zk1" ∷ codes "pg1" ∷ []
unfolding apply
configured = refl
