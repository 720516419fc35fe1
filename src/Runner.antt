-- ===== src/Runner.antt =====
-- runner.py: the phases of a test, with the latency around them. The fault thread and the load share
-- no state: what a fault does to the database is in the moves of the load and in the answers of the
-- environment, so that the events of the fault thread stand together, before those of the healing.
pub mod Cleanup
mod Tests
use faultstorm.Prelude.{
  ℕ, Bool, true, false, List, [], ◌∷◌, Option, none, some, Result, ok, err, Exception,
  if◌then◌else◌,
}
use faultstorm.Prelude.Dict.{Dict}
use faultstorm.Text.{Text}
use faultstorm.Config.{TestConfig}
use faultstorm.Effects.{Env, World, Io}
use faultstorm.Effects.Methods.{Method, return, throw, ◌>>=◌, ◌>>◌}
use faultstorm.Actions.Base.{Nodes}
use faultstorm.Actions.Registry.{Registry}
use faultstorm.Checker.Consistency.{CheckResult, check_consistency}
use faultstorm.Engine.Faults.{Faults}
use faultstorm.Engine.State.{Engine, new_engine}
use faultstorm.Engine.Heal.{heal_all_active}
use faultstorm.Engine.Loop.{run_random}
use faultstorm.Engine.Replay.{run_replay}
use faultstorm.Load.Client.{DatabaseClient}
use faultstorm.Load.Generator.{LogEvent, setup_on}
use faultstorm.Load.Threads
use faultstorm.Load.Threads.{Main, done, raised, Move, System, start}
use faultstorm.Load.Durable.{is_joined}
use faultstorm.Load.Checked.{file_of}
use faultstorm.Latency.Manager.{NetworkLatencyManager, apply, remove}

-- What a test is given besides its settings: how many cycles the fault thread may run, what stands
-- in a scenario file, the moves of the load generator's threads in the write phase and in the read
-- phase, the time of each log line, and the ticks of 0.1 s.
pub record Surroundings : Type 0 where
  pub fuel : ℕ
  pub scenario_of : Text → List Text
  pub write_moves : List Move
  pub read_moves : List Move
  pub clock : List LogEvent → ℕ
  pub interval : ℕ

module _ (faults : Faults) (client : DatabaseClient) (env : Env) (config : TestConfig)
    (dc_map : Dict Text (List Text)) (given : Surroundings) where
  open faults use {Class, Action}
  open client use {Db, get_db_nodes}
  open given use {fuel, scenario_of, write_moves, read_moves, clock, interval}

  abbrev pub nodes : Nodes
  nodes = record { db_nodes = config.db_nodes; extra_nodes = config.extra_nodes; dc_map = dc_map }

  abbrev pub inject_by : Option Text → Registry Class → Method (Engine Action) (Unit {0})
  inject_by none registry = do run_random faults env config nodes fuel registry; return tt
  inject_by (some path) registry = run_replay faults env config nodes registry (scenario_of path)

  -- The fault thread, and `engine.heal_all()` after its join; an exception ends the thread only.
  unfoldable pub inject : Registry Class → Method (Engine Action) (Unit {0})
  unfolding run_random run_replay heal_all_active
  inject registry e w =
      let (_, e', w') = inject_by config.replay_scenario registry e w in
      heal_all_active faults env config nodes e' w'

  abbrev pub load : List Move → System Db → System Db
  load ms s = Threads.run client clock config.writers_per_node ms s

  -- The result of the read phase and the check; none, while the moves do not end the phase.
  unfoldable pub check_at : Main → System Db → Result (Option CheckResult)
  unfolding check_consistency
  check_at done s = elim (check_consistency interval (file_of s.shared.log)) [
    | err e ↦ err e
    | ok r ↦ ok (some r)
  ]
  check_at (raised e) s = err e
  check_at m s = ok none

  -- What follows the join of the fault thread.
  unfoldable pub read_and_check : Result (Unit {0}) → System Db → Result (Option CheckResult)
  unfolding check_at
  read_and_check (err e) s = err e
  read_and_check (ok _) s = let s' = load read_moves s in check_at s'.main s'

  unfoldable pub phases_on :
      Registry Class → Result (Unit {0}) × Db → World → Result (Option CheckResult) × World
  unfolding inject read_and_check
  phases_on registry (err e, d) w = (err e, w)
  phases_on registry (ok _, d) w =
      let s = load write_moves (start client clock d) in
      let (r, _, w') = inject registry new_engine w in
      if is_joined s.main then (read_and_check r s, w') else (ok none, w')

  -- `_run_phases`, on a database in the state `d`
  unfoldable pub run_phases : Registry Class → Db → Io (Option CheckResult)
  unfolding setup_on phases_on
  run_phases registry d w = phases_on registry (setup_on client get_db_nodes d) w

  -- `try: m` / `finally: latency_mgr.remove()`
  unfoldable pub with_removal :
      Io (Option CheckResult) → Method NetworkLatencyManager (Option CheckResult)
  unfolding remove
  with_removal phases m w =
      let (r, w') = phases w in
      let (r', m', w'') = remove env config false m w' in
      (elim r' [ ok _ ↦ r | err e ↦ err e ], m', w'')

  -- `run`, behind the directories of the logs
  unfoldable pub run : Registry Class → Db → Method NetworkLatencyManager (Option CheckResult)
  unfolding apply with_removal run_phases
  run registry d = do apply env config dc_map; with_removal (run_phases registry d)
