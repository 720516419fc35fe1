-- ===== src/Engine/Heal.antt =====
-- faults/engine.py: `_heal_all_active`.
use faultstorm.Prelude.{Bool, true, false, List, [], ◌∷◌, pos, Result, ok}
use faultstorm.Prelude.Int.{◌-ℤ◌}
use faultstorm.Config.{TestConfig}
use faultstorm.Effects.{Env, shuffle, randint}
use faultstorm.Effects.Methods.{Method, self, modify, lift, return, ◌>>=◌, ◌>>◌}
use faultstorm.Actions.Base.{Nodes}
use faultstorm.Engine.Faults.{Faults}
use faultstorm.Engine.State.{Engine, write_action, wait}

module _ (faults : Faults) (env : Env) (config : TestConfig) (nodes : Nodes) where
  open faults use {Action, class_of, healable, destructive, heal}

  -- `if action.destructive: self._destructive_count -= 1`, unless `heal` raised
  unfoldable pub release : Result (Unit {0}) → Bool → Method (Engine Action) (Unit {0})
  unfolding ◌-ℤ◌
  release (ok _) true = modify λ e. record e { destructive_count = e.destructive_count -ℤ pos 1 }
  release r d = return tt

  -- `try: action.heal(); …` / `except Exception`
  unfoldable pub try_heal : Action → Method (Engine Action) Action
  unfolding release
  try_heal a e w =
      let (r, a', w') = heal env a w in
      let (_, e', w'') = release r (destructive (class_of a)) e w' in (ok a', e', w'')

  -- `if action.healable: …`
  unfoldable pub log_heal : Bool → Action → Method (Engine Action) (Unit {0})
  log_heal false a = return tt
  log_heal true a = do
    write_action faults env a true
    seconds ← lift (randint env config.complex_fault_min_wait config.complex_fault_max_wait)
    wait faults env nodes seconds

  unfoldable pub heal_one : Action → Method (Engine Action) (Unit {0})
  heal_one a = do a' ← try_heal a; log_heal (healable (class_of a)) a'

  unfoldable pub heal_each : List Action → Method (Engine Action) (Unit {0})
  heal_each [] = return tt
  heal_each (a ∷ as') = do heal_one a; heal_each as'

  -- `_heal_all_active`
  unfoldable pub heal_all_active : Method (Engine Action) (Unit {0})
  heal_all_active = do
    e ← self
    order ← lift (shuffle env e.active_faults)
    heal_each order
    modify λ e. record e { active_faults = [] }
