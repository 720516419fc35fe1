-- ===== src/Engine/Advances.antt =====
-- faults/engine.py: what no step of the engine takes back. The trace of the world grows, ordinals
-- grow, and the log stays as it is, open or closed.
use faultstorm.Prelude.{ℕ, ◌≤◌, ◌≡◌, refl, List, Option, inl, inr, arith, length}
use faultstorm.Text.{Text}
use faultstorm.Config.{TestConfig}
use faultstorm.Effects.{Env, World}
use faultstorm.Effects.Keeps.{Preorder, Keeps}
use faultstorm.Actions.Base.{Nodes}
use faultstorm.Engine.Faults.{Faults}
use faultstorm.Engine.State.{Engine, wait}
use faultstorm.Engine.Inject.{inject}
use faultstorm.Engine.Heal.{heal_one, heal_all_active}
use faultstorm.Engine.Passage.{heal_all_active-Keeps, inject_phase-Keeps, do_random_loop-Keeps}
use faultstorm.Engine.Loop.{inject_phase, do_random_loop}
use faultstorm.Engine.Steps.{wait_lem}
use faultstorm.Engine.Moves.{inject_lem}
use faultstorm.Engine.Heals.{heal_one_lem}

module _ {A : Type 0} where
  abbrev pub Advances : Engine A → World → Engine A → World → Type 0
  Advances s w s' w' =
      (length w.trace ≤ length w'.trace)
      × (s.next_ordinal ≤ s'.next_ordinal)
      × (s'.log_open ≡ s.log_open)

  pub Advances-refl : (s : Engine A) (w : World) → Advances s w s w
  Advances-refl s w = ground arith

  pub Advances-trans :
      (s : Engine A) (w : World) (s' : Engine A) (w' : World) (s'' : Engine A) (w'' : World)
      → Advances s w s' w'
      → Advances s' w' s'' w''
      → Advances s w s'' w''
  Advances-trans s w s' w' s'' w'' h k = ground arith

  abbrev pub advance : Preorder (Engine A)
  advance = record { Rel = Advances; same = Advances-refl; chain = Advances-trans }

module _ (faults : Faults) (env : Env) (config : TestConfig) (nodes : Nodes) where
  open faults use {
    Class, Action, class_of, destructive, execute, heal, execute_grows, heal_grows, wait_for,
    wait_grows, make, healable,
  }

  inject-Advances :
      (c : Class) (t : Option Text) (s : Engine Action) (w : World)
      → Advances s w
          (inject faults env config nodes c t s w).1
          (inject faults env config nodes c t s w).2
  inject-Advances c t s w = elim (inject_lem faults env config nodes c t s w) [
    | inl (x, e) ↦ rw e (omega arith, omega arith, refl)
    | inr (a, w', e, h, _, _) ↦ rw e (h, omega arith, refl)
  ]

  wait-Advances : (n : ℕ) → Keeps advance (wait faults env nodes n)
  wait-Advances n s w =
      let (w', e, h) = wait_lem faults env nodes n s w in rw e (omega arith, omega arith, refl)

  heal_one-Advances : (a : Action) → Keeps advance (heal_one faults env config nodes a)
  heal_one-Advances a s w =
      let (r, o, w', e, h, h', _) = heal_one_lem faults env config nodes a s w in rw e (h', h, refl)

  drawn : (s : Engine Action) (w : World) (n : ℕ) → Advances s w s (record w { draws = n })
  drawn s w n = (omega arith, omega arith, refl)

  pub heal_all_active-Advances : Keeps advance (heal_all_active faults env config nodes)
  heal_all_active-Advances =
      heal_all_active-Keeps faults env config nodes advance drawn heal_one-Advances
        (λ s w. (omega arith, omega arith, refl))

  module _ (fault_classes complex_classes : List Class) where
    pub inject_phase-Advances :
        (n : ℕ)
        → Keeps advance (inject_phase faults env config nodes fault_classes complex_classes n)
    inject_phase-Advances =
        inject_phase-Keeps faults env config nodes advance drawn
          (λ c t s w _. inject-Advances c t s w) wait-Advances heal_all_active-Advances
          fault_classes complex_classes

    pub do_random_loop-Advances :
        (fuel : ℕ)
        → Keeps advance (do_random_loop faults env config nodes fault_classes complex_classes fuel)
    do_random_loop-Advances =
        do_random_loop-Keeps faults env config nodes advance drawn
          (λ c t s w _. inject-Advances c t s w) wait-Advances heal_all_active-Advances
          fault_classes complex_classes
