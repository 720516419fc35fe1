-- ===== src/Engine/Faults.antt =====
-- faults/engine.py: what the engine uses of FaultAction and its subclasses, those that a test adds
-- included.
use faultstorm.Prelude.{suc, ◌≤◌, ◌≡◌, Bool, ℤ, Result, ok, length}
use faultstorm.Text.{Text}
use faultstorm.Effects.{Env, World}
use faultstorm.Effects.Methods.{Method}
use faultstorm.Effects.Grows.{written}
use faultstorm.Actions.Base.{Nodes, Kwargs}

pub record Faults : Type 1 where
  pub Class : Type 0
  pub Action : Type 0
  pub class_of : Action → Class
  pub ordinal_of : Action → ℤ
  -- the class attributes
  pub name : Class → Text
  pub healable : Class → Bool
  pub destructive : Class → Bool
  pub host_targetable : Class → Bool
  -- `cls(db, extra, ordinal, dc_map=dc_map, **kwargs)`, and `WaitAction(…, seconds=seconds)`
  pub make : Class → Nodes → ℤ → Kwargs → Result Action
  pub wait_for : Nodes → ℤ → ℤ → Action
  -- the methods
  pub execute : Env → Method Action (Unit {0})
  pub heal : Env → Method Action (Unit {0})
  pub serialize : Action → Text
  pub deserialize : Class → Text → Nodes → Result Action
  -- An object is of the class that made it, and keeps its class and its ordinal.
  pub make_class :
      (c : Class) (n : Nodes) (o : ℤ) (k : Kwargs) (a : Action)
      → make c n o k ≡ ok a
      → class_of a ≡ c
  pub make_ordinal :
      (c : Class) (n : Nodes) (o : ℤ) (k : Kwargs) (a : Action)
      → make c n o k ≡ ok a
      → ordinal_of a ≡ o
  pub execute_class : (e : Env) (a : Action) (w : World) → class_of (execute e a w).1 ≡ class_of a
  pub execute_ordinal :
      (e : Env) (a : Action) (w : World) → ordinal_of (execute e a w).1 ≡ ordinal_of a
  -- No method takes back what was done to the world, and a wait is seen.
  pub execute_grows :
      (e : Env) (a : Action) (w : World) → length w.trace ≤ length (execute e a w).2.trace
  pub heal_grows : (e : Env) (a : Action) (w : World) → length w.trace ≤ length (heal e a w).2.trace
  pub wait_grows :
      (e : Env) (n : Nodes) (o s : ℤ) (w : World)
      → suc (length w.trace) ≤ length (execute e (wait_for n o s) w).2.trace
  -- Only the engine writes to the scenario log.
  pub execute_quiet :
      (e : Env) (a : Action) (w : World) → written (execute e a w).2.trace ≡ written w.trace
  pub heal_quiet :
      (e : Env) (a : Action) (w : World) → written (heal e a w).2.trace ≡ written w.trace
