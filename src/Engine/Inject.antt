-- ===== src/Engine/Inject.antt =====
-- faults/engine.py: `_filter_by_destructive_limit` and `_inject_complex_fault`.
use faultstorm.Prelude.{
  ℕ, zero, suc, ◌%◌, Bool, true, false, not, List, [], ◌∷◌, ◌++◌, Option, none, some, ℤ, pos,
  Result, ok, err, if◌then◌else◌, ltb_ℤ, lookup, filter_by, list_eq, nat_eq, ◌==◌,
}
use faultstorm.Prelude.Int.{◌+ℤ◌}
use faultstorm.Text.{Text}
use faultstorm.Config.{TestConfig}
use faultstorm.Effects.{Env, draw, choice, randint}
use faultstorm.Effects.Methods.{Method, self, modify, lift, return, throw, ◌>>=◌, ◌>>◌}
use faultstorm.Actions.Base.{Nodes, Kwargs, no_kwargs}
use faultstorm.Engine.Faults.{Faults}
use faultstorm.Engine.State.{Engine, get_next_ordinal, log_and_execute, wait}

abbrev pub reached : Option ℕ → ℤ → Bool
reached none count = false
reached (some limit) count = not (ltb_ℤ count (pos limit))

abbrev pub with_node : Option Text → Kwargs → Kwargs
with_node none k = k
with_node (some n) k = record k { node = some n }

module _ (faults : Faults) (env : Env) (config : TestConfig) (nodes : Nodes) where
  open faults use {Class, Action, class_of, name, destructive, make}

  -- `_filter_by_destructive_limit`
  unfoldable pub filter_by_destructive_limit : ℤ → List Class → List Class
  filter_by_destructive_limit count classes =
      if reached config.max_destructive_actions count
      then filter_by (λ c. not (destructive c)) classes
      else classes

  -- The merged keyword arguments of one fault.
  unfoldable pub kwargs_for : Class → Option Text → Kwargs
  kwargs_for c target =
      with_node target
        (elim (lookup (name c) config.action_params) [ none ↦ no_kwargs | some k ↦ k ])

  abbrev pub or_throw : {A : Type 0} → Result A → Method (Engine Action) A
  or_throw (ok a) = return a
  or_throw (err e) = throw e

  -- `if action.destructive: self._destructive_count += 1`
  unfoldable pub count_destructive : Bool → Method (Engine Action) (Unit {0})
  unfolding ◌+ℤ◌
  count_destructive true = modify λ e. record e { destructive_count = e.destructive_count +ℤ pos 1 }
  count_destructive false = return tt

  unfoldable pub track : Action → Method (Engine Action) (Unit {0})
  track a = modify λ e. record e { active_faults = e.active_faults ++ a ∷ [] }

  -- The body of the loop, for a class that was chosen, up to the wait.
  unfoldable pub inject : Class → Option Text → Method (Engine Action) (Unit {0})
  unfolding kwargs_for count_destructive track
  inject c target = do
    o ← get_next_ordinal faults env
    a ← or_throw (make c nodes o (kwargs_for c target))
    count_destructive (destructive (class_of a))
    a' ← log_and_execute faults env a
    track a'

  -- `if i < fault_count - 1: …`, with the number of faults that are left
  unfoldable pub wait_between : ℕ → Method (Engine Action) (Unit {0})
  wait_between zero = return tt
  wait_between (suc left) = do
    seconds ← lift (randint env config.complex_fault_min_wait config.complex_fault_max_wait)
    wait faults env nodes seconds

  abbrev pub pick :
      List Class
      → Option Text
      → Method (Engine Action) (Unit {0})
      → Method (Engine Action) (Unit {0})
  pick [] target more = return tt
  pick (c ∷ cs) target more = do chosen ← lift (choice env (c ∷ cs)); inject chosen target; more

  -- `for i in range(fault_count)`; an empty candidate pool breaks the loop
  unfoldable pub inject_loop : List Class → Option Text → ℕ → Method (Engine Action) (Unit {0})
  unfolding filter_by_destructive_limit
  inject_loop pool target zero = return tt
  inject_loop pool target (suc left) = do
    e ← self
    let more = (do wait_between left; inject_loop pool target left)
    pick (filter_by_destructive_limit e.destructive_count pool) target more

  -- `complex_classes and random.random() < 0.5`
  unfoldable pub use_combo : List Class → Method (Engine Action) Bool
  use_combo [] = return false
  use_combo (c ∷ cs) = do k ← lift (draw env); return (k % 2 == 0)

  unfoldable pub inject_combo : List Class → Method (Engine Action) (Unit {0})
  inject_combo complex_classes = do
    fault_count ← lift (randint env 1 3)
    target ← lift (choice env nodes.db_nodes)
    inject_loop complex_classes (some target) fault_count

  -- `_inject_complex_fault`
  unfoldable pub inject_complex_fault : List Class → List Class → Method (Engine Action) (Unit {0})
  inject_complex_fault fault_classes complex_classes = do
    combo ← use_combo complex_classes
    if combo then inject_combo complex_classes else inject_loop fault_classes none 1
