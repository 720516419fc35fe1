-- ===== src/Engine/Heals.antt =====
-- faults/engine.py: what one heal of `_heal_all_active` leaves of the engine, on every outcome.
use faultstorm.Prelude.{
  ℕ, suc, ◌+◌, ◌-◌, ◌%◌, ◌≤◌, ◌≡◌, refl, Bool, true, false, inl, inr, ℤ, pos, Result, ok, err,
  value_error, arith, length, leb, Bool-cases,
}
use faultstorm.Prelude.Int.{◌-ℤ◌}
use faultstorm.Config.{TestConfig}
use faultstorm.Effects.{Env, World, draw, randint}
use faultstorm.Effects.Methods.{Method}
use faultstorm.Actions.Base.{Nodes}
use faultstorm.Engine.Faults.{Faults}
use faultstorm.Engine.State.{Engine}
use faultstorm.Engine.Heal.{release, try_heal, log_heal, heal_one}
use faultstorm.Engine.Steps.{write_action_lem, wait_lem}

module _ (faults : Faults) (env : Env) (config : TestConfig) (nodes : Nodes) where
  open faults use {Class, Action, class_of, ordinal_of, destructive, healable, heal, heal_grows}

  -- `_destructive_count` after a call of `heal` that ended with the result, and before it.
  abbrev pub released : Result (Unit {0}) → Bool → ℤ → ℤ
  released (ok _) true n = n -ℤ pos 1
  released r d n = n

  release_lem :
      (r : Result (Unit {0})) (d : Bool) (s : Engine Action) (w : World)
      → release faults env config nodes r d s w
        ≡ (ok tt, record s { destructive_count = released r d s.destructive_count }, w)
  unfolding release
  release_lem (ok _) true s w = refl
  release_lem (ok _) false s w = refl
  release_lem (err e) d s w = refl

  -- What a step of the heal phase leaves: only the ordinals and the count change, and it raises
  -- only if the waits are configured to be longer at least than at most.
  abbrev pub Leaves : Method (Engine Action) (Unit {0}) → Engine Action → World → ℤ → Type 0
  Leaves m s w n =
      (r : Result (Unit {0})) × (o : ℕ) × (w' : World) × (m s w
        ≡ (r, record s { next_ordinal = o; destructive_count = n }, w'))
      × (s.next_ordinal ≤ o)
      × (length w.trace ≤ length w'.trace)
      × ((config.complex_fault_min_wait ≤ config.complex_fault_max_wait) → r ≡ ok tt)

  log_heal_lem :
      (b : Bool) (a : Action) (s : Engine Action) (w : World)
      → Leaves (log_heal faults env config nodes b a) s w s.destructive_count
  unfolding log_heal randint draw
  log_heal_lem false a s w = (ok tt, s.next_ordinal, w, refl, omega arith, omega arith, λ _. refl)
  log_heal_lem true a s w =
      let (w', e, h) = write_action_lem faults env a true s w in
      let lo = config.complex_fault_min_wait in
      let seconds = lo + env.draw w'.draws % (config.complex_fault_max_wait - lo + 1) in
      elim (Bool-cases (leb config.complex_fault_min_wait config.complex_fault_max_wait)) [
        | inl p ↦
            let (w'', e', h') =
              wait_lem faults env nodes seconds s (record w' { draws = suc w'.draws }) in
            (ok tt, s.next_ordinal + 1, w'', rw (e, p, e'), omega arith, omega arith, λ _. refl)
        | inr p ↦ (
          err value_error,
          s.next_ordinal,
          w',
          rw (e, p),
          omega arith,
          omega arith,
          λ q. ground arith,
        )
      ]

  pub heal_one_lem :
      (a : Action) (s : Engine Action) (w : World)
      → Leaves
          (heal_one faults env config nodes a)
          s
          w
          (released (heal env a w).0 (destructive (class_of a)) s.destructive_count)
  unfolding heal_one try_heal
  heal_one_lem a s w =
      let n = released (heal env a w).0 (destructive (class_of a)) s.destructive_count in
      let (r, o, w', e, h, h', total) =
        log_heal_lem (healable (class_of a)) (heal env a w).1 (record s { destructive_count = n })
          (heal env a w).2 in
      (
        r,
        o,
        w',
        rw (release_lem (heal env a w).0 (destructive (class_of a)), e),
        h,
        omega (arith, heal_grows env a w),
        total,
      )
