-- ===== src/Engine/Builtin.antt =====
-- faults/engine.py with faults/actions.py: the built-in actions fill the interface of the engine.
use faultstorm.Prelude.{suc, ◌≤◌, ◌≡◌, refl, ap, ℤ, some, ok, arith, length, list_eq, nat_eq}
use faultstorm.Effects.{Env, World}
use faultstorm.Effects.Grows.{written}
use faultstorm.Actions.Base.{Nodes, Kwargs, no_kwargs, FaultAction}
use faultstorm.Actions.Builtin.{
  Class, Action, class_of, name, healable, destructive, host_targetable, init, make, execute, heal,
  serialize, deserialize,
}
use faultstorm.Actions.Steady.Classes.{
  kill_execute, halves_execute, halves_heal, ring_execute, ring_heal, node_execute, node_heal,
}
use faultstorm.Actions.Steady.Others.{
  waited_lem, wait_execute, dc_execute, dc_heal, subnet_execute, subnet_heal,
}
use faultstorm.Actions.Steady.Freezers.{single_execute, single_heal, group_execute, group_heal}
use faultstorm.Actions.Wait
use faultstorm.Engine.Faults.{Faults}

-- The fields of the base class.
abbrev pub base_of : Action → FaultAction
base_of (Action.wait a) = a.base
base_of (Action.kill a) = a.base
base_of (Action.halves a) = a.base
base_of (Action.ring a) = a.base
base_of (Action.node a) = a.base
base_of (Action.subnet a) = a.base
base_of (Action.dc a) = a.base
base_of (Action.freeze a) = a.freezer.base
base_of (Action.freeze_group a) = a.freezer.base

abbrev pub ordinal_of : Action → ℤ
ordinal_of a = (base_of a).ordinal

init_class : (c : Class) (n : Nodes) (o : ℤ) (k : Kwargs) → class_of (init c n o k) ≡ c
init_class Class.wait n o k = refl
init_class Class.kill n o k = refl
init_class _ n o k = refl

init_ordinal : (c : Class) (n : Nodes) (o : ℤ) (k : Kwargs) → ordinal_of (init c n o k) ≡ o
init_ordinal Class.wait n o k = refl
init_ordinal Class.kill n o k = refl
init_ordinal _ n o k = refl

-- A constructor raises, or makes the object that its arguments describe.
make-init :
    (c : Class) (n : Nodes) (o : ℤ) (k : Kwargs) (a : Action)
    → make c n o k ≡ ok a
    → init c n o k ≡ a
unfolding make
make-init c n o k a h = ground arith

pub make_class :
    (c : Class) (n : Nodes) (o : ℤ) (k : Kwargs) (a : Action) → make c n o k ≡ ok a → class_of a ≡ c
make_class c n o k a h = rw (← make-init c n o k a h) (init_class c n o k)

pub make_ordinal :
    (c : Class) (n : Nodes) (o : ℤ) (k : Kwargs) (a : Action)
    → make c n o k ≡ ok a
    → ordinal_of a ≡ o
make_ordinal c n o k a h = rw (← make-init c n o k a h) (init_ordinal c n o k)

module _ (env : Env) where
  pub execute_class : (a : Action) (w : World) → class_of (execute env a w).1 ≡ class_of a
  unfolding execute
  execute_class (Action.wait a) w = refl
  execute_class _ w = refl

  pub execute_ordinal : (a : Action) (w : World) → ordinal_of (execute env a w).1 ≡ ordinal_of a
  unfolding execute
  execute_ordinal (Action.wait a) w = ap (λ b. b.ordinal) ((wait_execute a.base).base a w refl)
  execute_ordinal (Action.kill a) w = ap (λ b. b.ordinal) ((kill_execute env a.base).base a w refl)
  execute_ordinal (Action.halves a) w =
      ap (λ b. b.ordinal) ((halves_execute env a.base).base a w refl)
  execute_ordinal (Action.ring a) w = ap (λ b. b.ordinal) ((ring_execute env a.base).base a w refl)
  execute_ordinal (Action.node a) w = ap (λ b. b.ordinal) ((node_execute env a.base).base a w refl)
  execute_ordinal (Action.subnet a) w =
      ap (λ b. b.ordinal) ((subnet_execute env a.base).base a w refl)
  execute_ordinal (Action.dc a) w = ap (λ b. b.ordinal) ((dc_execute env a.base).base a w refl)
  execute_ordinal (Action.freeze a) w =
      ap (λ b. b.ordinal) ((single_execute env a.freezer.base).base a w refl)
  execute_ordinal (Action.freeze_group a) w =
      ap (λ b. b.ordinal) ((group_execute env a.freezer.base).base a w refl)

  pub execute_grows : (a : Action) (w : World) → length w.trace ≤ length (execute env a w).2.trace
  unfolding execute
  execute_grows (Action.wait a) w = (wait_execute a.base).grows a w refl
  execute_grows (Action.kill a) w = (kill_execute env a.base).grows a w refl
  execute_grows (Action.halves a) w = (halves_execute env a.base).grows a w refl
  execute_grows (Action.ring a) w = (ring_execute env a.base).grows a w refl
  execute_grows (Action.node a) w = (node_execute env a.base).grows a w refl
  execute_grows (Action.subnet a) w = (subnet_execute env a.base).grows a w refl
  execute_grows (Action.dc a) w = (dc_execute env a.base).grows a w refl
  execute_grows (Action.freeze a) w = (single_execute env a.freezer.base).grows a w refl
  execute_grows (Action.freeze_group a) w = (group_execute env a.freezer.base).grows a w refl

  pub heal_grows : (a : Action) (w : World) → length w.trace ≤ length (heal env a w).2.trace
  unfolding heal
  heal_grows (Action.wait a) w = omega arith
  heal_grows (Action.kill a) w = omega arith
  heal_grows (Action.halves a) w = (halves_heal env a.base).grows a w refl
  heal_grows (Action.ring a) w = (ring_heal env a.base).grows a w refl
  heal_grows (Action.node a) w = (node_heal env a.base).grows a w refl
  heal_grows (Action.subnet a) w = (subnet_heal env a.base).grows a w refl
  heal_grows (Action.dc a) w = (dc_heal env a.base).grows a w refl
  heal_grows (Action.freeze a) w = (single_heal env a.freezer.base).grows a w refl
  heal_grows (Action.freeze_group a) w = (group_heal env a.freezer.base).grows a w refl

  pub execute_quiet : (a : Action) (w : World) → written (execute env a w).2.trace ≡ written w.trace
  unfolding execute
  execute_quiet (Action.wait a) w = (wait_execute a.base).quiet a w refl
  execute_quiet (Action.kill a) w = (kill_execute env a.base).quiet a w refl
  execute_quiet (Action.halves a) w = (halves_execute env a.base).quiet a w refl
  execute_quiet (Action.ring a) w = (ring_execute env a.base).quiet a w refl
  execute_quiet (Action.node a) w = (node_execute env a.base).quiet a w refl
  execute_quiet (Action.subnet a) w = (subnet_execute env a.base).quiet a w refl
  execute_quiet (Action.dc a) w = (dc_execute env a.base).quiet a w refl
  execute_quiet (Action.freeze a) w = (single_execute env a.freezer.base).quiet a w refl
  execute_quiet (Action.freeze_group a) w = (group_execute env a.freezer.base).quiet a w refl

  pub heal_quiet : (a : Action) (w : World) → written (heal env a w).2.trace ≡ written w.trace
  unfolding heal
  heal_quiet (Action.wait a) w = refl
  heal_quiet (Action.kill a) w = refl
  heal_quiet (Action.halves a) w = (halves_heal env a.base).quiet a w refl
  heal_quiet (Action.ring a) w = (ring_heal env a.base).quiet a w refl
  heal_quiet (Action.node a) w = (node_heal env a.base).quiet a w refl
  heal_quiet (Action.subnet a) w = (subnet_heal env a.base).quiet a w refl
  heal_quiet (Action.dc a) w = (dc_heal env a.base).quiet a w refl
  heal_quiet (Action.freeze a) w = (single_heal env a.freezer.base).quiet a w refl
  heal_quiet (Action.freeze_group a) w = (group_heal env a.freezer.base).quiet a w refl

  pub wait_grows :
      (n : Nodes) (o s : ℤ) (w : World)
      → suc (length w.trace)
        ≤ length
            (execute env (init Class.wait n o (record no_kwargs { seconds = some s })) w).2.trace
  unfolding execute Wait.execute
  wait_grows n o s w = omega (arith, waited_lem s w)

abbrev pub builtin : Faults
builtin = record {
  Class = Class;
  Action = Action;
  class_of = class_of;
  ordinal_of = ordinal_of;
  name = name;
  healable = healable;
  destructive = destructive;
  host_targetable = host_targetable;
  make = make;
  wait_for = λ n o s. init Class.wait n o (record no_kwargs { seconds = some s });
  execute = execute;
  heal = heal;
  serialize = serialize;
  deserialize = deserialize;
  make_class = make_class;
  make_ordinal = make_ordinal;
  execute_class = execute_class;
  execute_ordinal = execute_ordinal;
  execute_grows = execute_grows;
  heal_grows = heal_grows;
  wait_grows = wait_grows;
  execute_quiet = execute_quiet;
  heal_quiet = heal_quiet;
}
