-- ===== src/Engine/Replay/Tests.antt =====
-- faults/engine.py: the theorems on a scenario of four commands.
use faultstorm.Prelude.{
  ◌≡◌, refl, Bool, true, false, List, [], ◌∷◌, ◌++◌, some, pos, ok, Result, ◌&&◌,
}
use faultstorm.Text.{Text, codes, is_space}
use faultstorm.Effects.{writable, Env, World, completed, is_set}
use faultstorm.Effects.Grows.{written}
use faultstorm.Config.{TestConfig, default_config}
use faultstorm.Actions.Base.{Nodes, no_kwargs, split_params}
use faultstorm.Text.Decimal.{int}
use faultstorm.Actions.Sides.{block_side}
use faultstorm.Actions.Node
use faultstorm.Actions.Wait
use faultstorm.Actions.Builtin.{Class, Action, init, name, deserialize, healable, execute, heal}
use faultstorm.Actions.Resolved.{IsResolved}
use faultstorm.Actions.Registry.{default_registry, create_default_registry_lem}
use faultstorm.Engine.Builtin.{builtin}
use faultstorm.Engine.State.{Engine, new_engine, newline, action_line, open_log, open_as}
use faultstorm.Engine.Scenario.{is_stamp, parse_line, parse_log}
use faultstorm.Engine.Scenario.Lines.{IsStamp}
use faultstorm.Engine.Scenario.RoundTrip.{parse_line-action_line}
use faultstorm.Engine.Loop.{closing}
use faultstorm.Engine.Replay.{run_replay, replay_each}
use faultstorm.Engine.Replay.Ends.{Ends, run_replay-Ends}
use faultstorm.Engine.Replay.Copies.{run_replay-parse_log}

abbrev nodes : Nodes
nodes = record { db_nodes = codes "pg1" ∷ codes "pg2" ∷ []; extra_nodes = []; dc_map = [] }

abbrev config : TestConfig
config = record default_config { db_nodes = nodes.db_nodes }

abbrev now : Text
now = codes "14:00"

abbrev env : Env
env = record {
  answer = λ t argv. completed [];
  draw = λ k. k;
  stop_at = 200;
  timestamp = λ t. now;
  container_template = codes "{node}";
  network_name = [];
  log_file = λ t. writable;
}

abbrev start : World
start = record { trace = []; draws = 0 }

-- A scenario with a comment, and a line without a time.
abbrev scenario : List Text
scenario =
    (codes "# by hand" ++ newline ∷ [])
    ∷ (codes "[2026-06-23T14:00:05] +partition_random_node 1 pg2" ++ newline ∷ [])
    ∷ (codes "wait 2 60" ++ newline ∷ [])
    ∷ (codes "[2026-06-23T14:00:07]  -partition_random_node 1 pg2 " ++ newline ∷ [])
    ∷ (newline ∷ [])
    ∷ []

abbrev cut_off : Action
cut_off = init Class.node nodes (pos 1) (record no_kwargs { node = some (codes "pg2") })

abbrev pause : Action
pause = init Class.wait nodes (pos 2) (record no_kwargs { seconds = some (pos 60) })

abbrev commands : List (Action × Bool)
commands = (cut_off, false) ∷ (pause, false) ∷ (cut_off, true) ∷ []

scenario-parse_log : parse_log builtin default_registry nodes scenario ≡ ok commands
unfolding parse_log name deserialize Node.deserialize Wait.deserialize split_params int
scenario-parse_log = refl

abbrev replayed : Result (Unit {0}) × Engine Action × World
replayed = run_replay builtin env config nodes default_registry scenario new_engine start

replay_goes_on : is_set env replayed.2 ≡ false
unfolding run_replay parse_log name deserialize Node.deserialize Wait.deserialize split_params int
    is_set open_log open_as closing replay_each execute Node.execute Node.resolve_node block_side
    Node.others Wait.execute heal Node.heal
replay_goes_on = refl

now-IsStamp : IsStamp now
unfolding is_stamp
now-IsStamp = (refl, (refl, (refl, (refl, (refl, tt)))))

cut_off-IsResolved : IsResolved cut_off
unfolding is_space
cut_off-IsResolved = ((refl, (refl, (refl, tt))), (refl, (refl, (refl, tt))))

run_replay-parse_log_example :
    parse_log builtin default_registry nodes (written replayed.2.trace) ≡ ok commands
unfolding healable
run_replay-parse_log_example =
    run_replay-parse_log env config nodes default_registry create_default_registry_lem
      (λ t. now-IsStamp) scenario commands new_engine start scenario-parse_log
      ((cut_off-IsResolved, refl), ((tt, refl), ((cut_off-IsResolved, refl), tt))) refl refl
      replay_goes_on

run_replay-Ends_example :
    Ends builtin env config nodes
      (parse_log builtin default_registry nodes scenario)
      writable
      new_engine
      start
      replayed
run_replay-Ends_example =
    run_replay-Ends builtin env config nodes default_registry scenario new_engine start

parse_line-action_line_example :
    parse_line builtin default_registry nodes
      (action_line builtin env now cut_off true ++ newline ∷ [])
    ≡ ok ((cut_off, healable Class.node && true) ∷ [])
parse_line-action_line_example =
    parse_line-action_line env default_registry nodes create_default_registry_lem now cut_off true
      now-IsStamp cut_off-IsResolved refl
