-- ===== src/Engine/Loop.antt =====
-- faults/engine.py: `run_random` and its loops.
use faultstorm.Prelude.{
  ℕ, zero, suc, Bool, true, false, List, [], some, ok, err, if◌then◌else◌, filter_by,
}
use faultstorm.Config.{TestConfig}
use faultstorm.Effects.{Env, is_set, clear_stop}
use faultstorm.Effects.Methods.{Method, return, throw, ◌>>=◌, ◌>>◌}
use faultstorm.Actions.Base.{Nodes}
use faultstorm.Actions.Registry.{Registry, get_classes}
use faultstorm.Engine.Faults.{Faults}
use faultstorm.Engine.State.{Engine, wait, open_log, close_log}
use faultstorm.Engine.Inject.{inject_complex_fault, wait_between}
use faultstorm.Engine.Heal.{heal_all_active}

-- How a loop ended: by the stop event, or because the model's fuel ran out.
pub data Ending : Type 0 where
  stopped out_of_fuel : Ending

module _ (faults : Faults) (env : Env) (config : TestConfig) (nodes : Nodes) where
  open faults use {Class, Action, host_targetable}

  -- `self._stop_event.is_set()`
  abbrev pub stop_is_set : Method (Engine Action) Bool
  stop_is_set e w = (ok (is_set env w), e, w)

  module _ (fault_classes complex_classes : List Class) where
    -- `for i in range(self.config.parallel_faults_count)`, with the rounds that are left
    unfoldable pub inject_phase : ℕ → Method (Engine Action) (Unit {0})
    inject_phase zero = return tt
    inject_phase (suc left) = do
      inject_complex_fault faults env config nodes fault_classes complex_classes
      wait_between faults env config nodes left
      inject_phase left

    -- The second half of a cycle, and the next cycle; `_do_random_loop` breaks if the stop event
    -- was set during the active phase.
    abbrev pub second_half : Bool → Method (Engine Action) Ending → Method (Engine Action) Ending
    second_half true next = return stopped
    second_half false next = do
      heal_all_active faults env config nodes
      wait faults env nodes config.fault_pause_duration
      next

    -- The body of the loop, before what is `next`.
    abbrev pub cycle : Method (Engine Action) Ending → Method (Engine Action) Ending
    cycle next = do
      inject_phase config.parallel_faults_count
      wait faults env nodes config.fault_active_duration
      stop ← stop_is_set
      second_half stop next

    -- `_do_random_loop`
    unfoldable pub do_random_loop : ℕ → Method (Engine Action) Ending
    do_random_loop zero = return out_of_fuel
    do_random_loop (suc fuel) = do
      stop ← stop_is_set
      if stop then return stopped else cycle (do_random_loop fuel)

  -- `[c for c in fault_classes if c.host_targetable]`, if combos are enabled
  unfoldable pub complex_classes_of : List Class → List Class
  complex_classes_of classes =
      if config.complex_faults_enabled then filter_by host_targetable classes else []

  -- `try: m` / `finally: self._close_log()`
  unfoldable pub closing : {A : Type 0} → Method (Engine Action) A → Method (Engine Action) A
  unfolding close_log
  closing m e w =
      let (r, e', w') = m e w in let (_, e'', w'') = close_log faults env e' w' in (r, e'', w'')

  -- `run_random`. The stop event, cleared at the start, is set by the timer or by `stop()`; the
  -- environment's `stop_at` is the time of that.
  unfoldable pub run_random : ℕ → Registry Class → Method (Engine Action) Ending
  run_random fuel registry e w =
      let w' = clear_stop w in
      elim (get_classes (some config.fault_types) registry) [
        | err x ↦ throw x e w'
        | ok classes ↦
            (do
              open_log faults env
              closing (do_random_loop classes (complex_classes_of classes) fuel))
              e w'
      ]
