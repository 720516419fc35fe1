-- ===== src/Engine/Replay.antt =====
-- faults/engine.py: `run_replay`.
mod Runs
pub mod Ends
pub mod Copies
mod Tests
use faultstorm.Prelude.{Bool, true, false, List, [], ◌∷◌, ok, err, if◌then◌else◌}
use faultstorm.Text.{Text}
use faultstorm.Effects.{Env, clear_stop}
use faultstorm.Effects.Methods.{Method, throw, return, ◌>>=◌, ◌>>◌}
use faultstorm.Actions.Base.{Nodes}
use faultstorm.Actions.Registry.{Registry}
use faultstorm.Config.{TestConfig}
use faultstorm.Engine.Faults.{Faults}
use faultstorm.Engine.State.{Engine, open_log, write_action, log_and_execute}
use faultstorm.Engine.Loop.{closing, stop_is_set}
use faultstorm.Engine.Scenario.{parse_log}

module _ (faults : Faults) (env : Env) (config : TestConfig) (nodes : Nodes) where
  open faults use {Class, Action, heal}

  -- `try: action.heal()` / `except Exception`
  unfoldable pub quiet_heal : Action → Method (Engine Action) Action
  quiet_heal a e w = let (r, a', w') = heal env a w in (ok a', e, w')

  -- The body of the loop, for one command.
  unfoldable pub replay_one : Action → Bool → Method (Engine Action) (Unit {0})
  unfolding quiet_heal write_action log_and_execute
  replay_one a true = do a' ← quiet_heal a; write_action faults env a' true
  replay_one a false = do log_and_execute faults env a; return tt

  unfoldable pub replay_each : List (Action × Bool) → Method (Engine Action) (Unit {0})
  unfolding replay_one
  replay_each [] = return tt
  replay_each ((a, is_heal) ∷ cs) = do
    stop ← stop_is_set faults env config nodes
    if stop then return tt else (do replay_one a is_heal; replay_each cs)

  -- `run_replay`, on the lines of the file at `replay_path`. The stop event is cleared at the
  -- start; `stop_at` says when it is set again.
  unfoldable pub run_replay : Registry Class → List Text → Method (Engine Action) (Unit {0})
  unfolding parse_log
  run_replay registry lines e w =
      let w' = clear_stop w in
      elim (parse_log faults registry nodes lines) [
        | err x ↦ throw x e w'
        | ok cs ↦ (do open_log faults env; closing faults env config nodes (replay_each cs)) e w'
      ]
