-- ===== src/Engine/Tests.antt =====
-- faults/engine.py: the theorems on an engine with two classes of faults that a test could add: a
-- destructive one, which is healed by a start of the process, and a wait, which cannot be healed.
use faultstorm.Prelude.{
  ℕ, suc, ◌≤◌, ◌≡◌, refl, Bool, true, false, List, [], ◌∷◌, ◌++◌, some, ℤ, pos, ok, err, Result,
  assertion_error, arith, length, length-append,
}
use faultstorm.Text.{Text, codes}
use faultstorm.Effects.{writable, Env, World, Event, ran, waited, completed}
use faultstorm.Effects.Grows.{written, written-snoc}
use faultstorm.Config.{TestConfig, default_config}
use faultstorm.Actions.Base.{Nodes}
use faultstorm.Actions.Registry.{Registry, get_classes}
use faultstorm.Engine.Faults.{Faults}
use faultstorm.Engine.State.{Engine, new_engine}
use faultstorm.Engine.Heal.{heal_all_active}
use faultstorm.Engine.Loop.{run_random}
use faultstorm.Engine.Progress.{Ends, run_random-Ends, run_random-closes}
use faultstorm.Engine.Budget.{heal_all_active-frees, IsWithin, run_random-IsWithin}
use faultstorm.Engine.Ordinals.{IsNumbered, run_random-IsNumbered}

data Class : Type 0 where
  crash wait : Class

record Action : Type 0 where
  class : Class
  ordinal : ℤ
  seconds : ℤ

abbrev seen_as : Action → Event
seen_as a = elim a.class [ crash ↦ ran (codes "crash" ∷ []) 10 | wait ↦ waited a.seconds ]

seen_as-quiet : (a : Action) → written (seen_as a ∷ []) ≡ []
seen_as-quiet a = ground arith

abbrev is_crash : Class → Bool
is_crash crash = true
is_crash wait = false

abbrev called : Class → Text
called crash = codes "crash"
called wait = codes "wait"

length-snoc : (es : List Event) (e : Event) → suc (length es) ≤ length (es ++ e ∷ [])
length-snoc es e = omega (arith, length-append es (e ∷ []))

le_of_suc : {m n : ℕ} → suc m ≤ n → m ≤ n
le_of_suc h = omega arith

-- What healing leaves of the trace: a crashed process is started again, and to heal a wait raises.
abbrev restarted : Event
restarted = ran (codes "start" ∷ []) 10

abbrev healed : Class → World → List Event
healed crash w = w.trace ++ restarted ∷ []
healed wait w = w.trace

abbrev heal_result : Class → Result (Unit {0})
heal_result crash = ok tt
heal_result wait = err assertion_error

healed_grows : (c : Class) (w : World) → length w.trace ≤ length (healed c w)
healed_grows crash w = le_of_suc (length-snoc w.trace restarted)
healed_grows wait w = omega arith

healed_quiet : (c : Class) (w : World) → written (healed c w) ≡ written w.trace
healed_quiet crash w = written-snoc w restarted refl
healed_quiet wait w = refl

abbrev made : Class → ℤ → Action
made c o = record { class = c; ordinal = o; seconds = pos 0 }

made_class : (c : Class) (o : ℤ) (a : Action) → ok (made c o) ≡ ok a → a.class ≡ c
made_class c o a h = ground arith

made_ordinal : (c : Class) (o : ℤ) (a : Action) → ok (made c o) ≡ ok a → a.ordinal ≡ o
made_ordinal c o a h = ground arith

abbrev faults : Faults
faults = record {
  Class = Class;
  Action = Action;
  class_of = λ a. a.class;
  ordinal_of = λ a. a.ordinal;
  name = called;
  healable = λ c. is_crash c;
  destructive = λ c. is_crash c;
  host_targetable = λ c. is_crash c;
  make = λ c n o k. ok (record { class = c; ordinal = o; seconds = pos 0 });
  wait_for = λ n o s. record { class = wait; ordinal = o; seconds = s };
  execute = λ e a w. (ok tt, a, record w { trace = w.trace ++ seen_as a ∷ [] });
  heal = λ e a w. (heal_result a.class, a, record w { trace = healed a.class w });
  serialize = λ a. [];
  deserialize = λ c t n. ok (record { class = c; ordinal = pos 0; seconds = pos 0 });
  make_class = λ c n o k a h. made_class c o a h;
  make_ordinal = λ c n o k a h. made_ordinal c o a h;
  execute_class = λ e a w. refl;
  execute_ordinal = λ e a w. refl;
  execute_grows = λ e a w. le_of_suc (length-snoc w.trace (seen_as a));
  heal_grows = λ e a w. healed_grows a.class w;
  wait_grows = λ e n o s w. length-snoc w.trace (waited s);
  execute_quiet = λ e a w. written-snoc w (seen_as a) (seen_as-quiet a);
  heal_quiet = λ e a w. healed_quiet a.class w;
}

abbrev nodes : Nodes
nodes = record { db_nodes = codes "pg1" ∷ codes "pg2" ∷ []; extra_nodes = []; dc_map = [] }

-- At most one destructive fault; two faults in each cycle.
abbrev config : TestConfig
config = record default_config {
  db_nodes = nodes.db_nodes;
  fault_types = codes "crash" ∷ codes "wait" ∷ [];
}

abbrev env : Env
env = record {
  answer = λ t argv. completed [];
  draw = λ k. k;
  stop_at = 9;
  timestamp = λ t. codes "12:00";
  container_template = codes "{node}";
  network_name = [];
  log_file = λ t. writable;
}

abbrev registry : Registry Class
registry = (codes "crash", crash) ∷ (codes "wait", wait) ∷ []

abbrev start : World
start = record { trace = []; draws = 0 }

abbrev engine : Engine Action
engine = new_engine

run_random-IsWithin_example :
    IsWithin faults (some 1) (run_random faults env config nodes 10 registry engine start).1
run_random-IsWithin_example =
    run_random-IsWithin faults env config nodes (omega arith) 10 registry engine start
      (0, refl, omega arith, omega arith)

run_random-Ends_example : Ends (run_random faults env config nodes 10 registry engine start).0
run_random-Ends_example =
    run_random-Ends faults env config nodes 10 registry engine start (omega arith)

run_random-closes_example :
    (run_random faults env config nodes 10 registry engine start).1.log_open ≡ false
unfolding get_classes
run_random-closes_example = run_random-closes faults env config nodes 10 registry engine start refl

run_random-IsNumbered_example :
    IsNumbered faults (run_random faults env config nodes 10 registry engine start).1
run_random-IsNumbered_example =
    run_random-IsNumbered faults env config nodes 10 registry engine start (omega arith)

-- An engine with two active faults, both of them destructive.
abbrev busy : Engine Action
busy = record {
  active_faults = made crash (pos 1) ∷ made crash (pos 3) ∷ [];
  next_ordinal = 4;
  destructive_count = pos 2;
  log_open = true;
}

heal_all_active-frees_example :
    (o : ℕ) × (w' : World) × (heal_all_active faults env config nodes busy start ≡ (
      ok tt,
      record busy { active_faults = []; next_ordinal = o; destructive_count = pos 0 },
      w',
    ))
heal_all_active-frees_example =
    heal_all_active-frees faults env config nodes (omega arith) busy start refl
      ((λ w. refl), ((λ w. refl), tt))
