-- ===== src/Engine/Chains.antt =====
-- faults/engine.py with faults/actions.py and partitioners.py: the iptables chains of the faults that
-- are active in a test with the built-in actions.
use faultstorm.Prelude.{
  ℕ, ◌≡◌, ◌≢◌, refl, inl, inr, true, false, List, [], ◌++◌, some, All, All-append, contains,
  get_elem?, arith, Bool-cases, list_eq, nat_eq,
}
use faultstorm.Text.{Text}
use faultstorm.Effects.{Event, Env, World}
use faultstorm.Effects.Grows.{Runs}
use faultstorm.Config.{TestConfig}
use faultstorm.Actions.Base.{Nodes}
use faultstorm.Actions.Chains.{used, Names}
use faultstorm.Actions.Chains.Numbers.{IsChainOf-ordinal, contains-used}
use faultstorm.Actions.Builtin.{Class, Action, execute, heal}
use faultstorm.Actions.Registry.{Registry}
use faultstorm.Actions.Steady.Classes.{
  kill_execute, halves_execute, halves_heal, ring_execute, ring_heal, node_execute, node_heal,
}
use faultstorm.Actions.Steady.Others.{
  wait_execute, dc_execute, dc_heal, subnet_execute, subnet_heal,
}
use faultstorm.Actions.Steady.Freezers.{single_execute, single_heal, group_execute, group_heal}
use faultstorm.Engine.State.{new_engine}
use faultstorm.Engine.Loop.{run_random}
use faultstorm.Engine.Ordinals.{IsNumbered-distinct, run_random-IsNumbered}
use faultstorm.Engine.Builtin.{base_of, builtin}

module _ (env : Env) where
  abbrev Own : Action → List Event → Type 0
  Own a = All (Runs (Names (base_of a)))

  execute-Own : (a : Action) (w : World) → Own a w.trace → Own a (execute env a w).2.trace
  unfolding execute
  execute-Own (Action.wait a) w p = (wait_execute a.base).only a w refl p
  execute-Own (Action.kill a) w p = (kill_execute env a.base).only a w refl p
  execute-Own (Action.halves a) w p = (halves_execute env a.base).only a w refl p
  execute-Own (Action.ring a) w p = (ring_execute env a.base).only a w refl p
  execute-Own (Action.node a) w p = (node_execute env a.base).only a w refl p
  execute-Own (Action.subnet a) w p = (subnet_execute env a.base).only a w refl p
  execute-Own (Action.dc a) w p = (dc_execute env a.base).only a w refl p
  execute-Own (Action.freeze a) w p = (single_execute env a.freezer.base).only a w refl p
  execute-Own (Action.freeze_group a) w p = (group_execute env a.freezer.base).only a w refl p

  heal-Own : (a : Action) (w : World) → Own a w.trace → Own a (heal env a w).2.trace
  unfolding heal
  heal-Own (Action.wait a) w p = p
  heal-Own (Action.kill a) w p = p
  heal-Own (Action.halves a) w p = (halves_heal env a.base).only a w refl p
  heal-Own (Action.ring a) w p = (ring_heal env a.base).only a w refl p
  heal-Own (Action.node a) w p = (node_heal env a.base).only a w refl p
  heal-Own (Action.subnet a) w p = (subnet_heal env a.base).only a w refl p
  heal-Own (Action.dc a) w p = (dc_heal env a.base).only a w refl p
  heal-Own (Action.freeze a) w p = (single_heal env a.freezer.base).only a w refl p
  heal-Own (Action.freeze_group a) w p = (group_heal env a.freezer.base).only a w refl p

  abbrev since : ℕ → World
  since draws = record { trace = []; draws = draws }

  -- The commands that `execute` starts, and those that `heal` starts, when so many random numbers
  -- were drawn before.
  abbrev pub commands : Action → ℕ → List Event
  commands a draws = (execute env a (since draws)).2.trace ++ (heal env a (since draws)).2.trace

  commands-Own : (a : Action) (draws : ℕ) → Own a (commands a draws)
  commands-Own a draws =
      All-append (Runs (Names (base_of a))) (execute env a (since draws)).2.trace
        (heal env a (since draws)).2.trace (execute-Own a (since draws) tt)
        (heal-Own a (since draws) tt)

-- In a test with the built-in actions that starts from a new engine, no two faults that are active
-- when `run_random` ends share an iptables chain, however it ends: no chain that a command of the
-- one names, when it is executed or healed, is named by a command of the other, whatever the
-- environments of the two answer.
pub run_random-chains :
    (env : Env) (config : TestConfig) (nodes : Nodes) (fuel : ℕ) (registry : Registry Class)
    (w : World) (i j : ℕ) (a b : Action)
    → get_elem? (run_random builtin env config nodes fuel registry new_engine w).1.active_faults i
      ≡ some a
    → get_elem? (run_random builtin env config nodes fuel registry new_engine w).1.active_faults j
      ≡ some b
    → i ≢ j
    → (here there : Env) (m n : ℕ) (x : Text) → contains (used (commands here a m)) x ≡ true
    → contains (used (commands there b n)) x ≡ false
run_random-chains env config nodes fuel registry w i j a b ei ej apart here there m n x h =
    elim (Bool-cases (contains (used (commands there b n)) x)) [
      | inr k ↦ k
      | inl k ↦ absurd (
          IsNumbered-distinct builtin
            (run_random builtin env config nodes fuel registry new_engine w).1 i j a b
            (run_random-IsNumbered builtin env config nodes fuel registry new_engine w
              (omega arith))
            ei ej apart
            (IsChainOf-ordinal (base_of a) (base_of b) x
              (contains-used (base_of a) (commands here a m) x (commands-Own here a m) h)
              (contains-used (base_of b) (commands there b n) x (commands-Own there b n) k)))
    ]
