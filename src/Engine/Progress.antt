-- ===== src/Engine/Progress.antt =====
-- faults/engine.py: `run_random` ends. Each cycle waits, and a wait is seen by the world, so the
-- stop event is set after as many cycles at most.
use faultstorm.Prelude.{
  ℕ, zero, suc, ◌-◌, ◌≤◌, ◌<◌, ◌≡◌, refl, Bool, true, false, List, ◌⊎◌, inl, inr, Result, ok, err,
  os_error, Exception, arith, length, leb, Result-cases, Bool-cases, some,
}
use faultstorm.Config.{TestConfig}
use faultstorm.Effects.{LogFile, clear_stop, Env, World, is_set}
use faultstorm.Effects.Methods.{Method}
use faultstorm.Actions.Base.{Nodes}
use faultstorm.Actions.Registry.{Registry, get_classes}
use faultstorm.Engine.Faults.{Faults}
use faultstorm.Engine.State.{Engine, close_log}
use faultstorm.Engine.Heal.{heal_all_active}
use faultstorm.Engine.Loop.{
  Ending, stopped, inject_phase, second_half, cycle, do_random_loop, closing, complex_classes_of,
  run_random,
}
use faultstorm.Engine.Steps.{left_open, open_log_lem, wait_lem}
use faultstorm.Engine.Advances.{inject_phase-Advances, heal_all_active-Advances}

-- A run of a loop that was ended by the stop event or by an exception.
abbrev pub Ends : Result Ending → Type 0
Ends r = (r ≡ ok stopped) ⊎ ((x : Exception) × (r ≡ err x))

module _ (faults : Faults) (env : Env) (config : TestConfig) (nodes : Nodes) where
  open faults use {Class, Action}

  module _ (fault_classes complex_classes : List Class) where
    second_half-Ends :
        (stop : Bool) (next : Method (Engine Action) Ending) (s : Engine Action) (w : World)
        → ((s' : Engine Action) (w' : World)
            → length w.trace ≤ length w'.trace
            → Ends (next s' w').0)
        → Ends (second_half faults env config nodes fault_classes complex_classes stop next s w).0
    second_half-Ends true next s w h = inl refl
    second_half-Ends false next s w h =
        let (heal, s', w') = heal_all_active faults env config nodes s w in
        elim (Result-cases heal) [
          | inr (x, e) ↦ inr (x, rw e)
          | inl (u, e) ↦
              let (w'', e', longer) = wait_lem faults env nodes config.fault_pause_duration s' w' in
              rw (e, e')
                (h _ w''
                  (omega (arith, heal_all_active-Advances faults env config nodes s w, longer)))
        ]

    cycle-Ends :
        (next : Method (Engine Action) Ending) (s : Engine Action) (w : World)
        → ((s' : Engine Action) (w' : World)
            → length w.trace < length w'.trace
            → Ends (next s' w').0)
        → Ends (cycle faults env config nodes fault_classes complex_classes next s w).0
    cycle-Ends next s w h =
        let n = config.parallel_faults_count in
        let (injected, s', w') =
          inject_phase faults env config nodes fault_classes complex_classes n s w in
        elim (Result-cases injected) [
          | inr (x, e) ↦ inr (x, rw e)
          | inl (u, e) ↦
              let (w'', e', longer) =
                wait_lem faults env nodes config.fault_active_duration s' w' in
              let grown =
                inject_phase-Advances faults env config nodes fault_classes complex_classes n s w in
              rw (e, e')
                (second_half-Ends (is_set env w'') next _ w''
                  (λ s3 w3 k. h s3 w3 (omega (arith, grown, longer))))
        ]

    pub do_random_loop-Ends :
        (fuel : ℕ) (s : Engine Action) (w : World)
        → env.stop_at - length w.trace < fuel
        → Ends (do_random_loop faults env config nodes fault_classes complex_classes fuel s w).0
    unfolding do_random_loop is_set
    do_random_loop-Ends zero s w h = absurd (omega arith)
    do_random_loop-Ends (suc fuel) s w h = elim (Bool-cases (leb env.stop_at (length w.trace))) [
      | inl e ↦ rw e (inl refl)
      | inr e ↦ rw e (
          cycle-Ends (do_random_loop faults env config nodes fault_classes complex_classes fuel) s w
            (λ s' w' k. do_random_loop-Ends fuel s' w' (ground arith)))
    ]

  -- With more fuel than steps before the stop event is set, `run_random` ends by the stop event
  -- or raises: its loop does not run on.
  pub run_random-Ends :
      (fuel : ℕ) (registry : Registry Class) (s : Engine Action) (w : World)
      → env.stop_at < fuel
      → Ends (run_random faults env config nodes fuel registry s w).0
  unfolding run_random closing
  run_random-Ends fuel registry s w h =
      elim (Result-cases (get_classes (some config.fault_types) registry)) [
        | inr (x, e) ↦ inr (x, rw (e, run_random))
        | inl (classes, e) ↦ elim (open_log_lem faults env s (clear_stop w)) [
          | inr e' ↦ inr (os_error, rw (e, run_random, e'))
          | inl (w', e', _) ↦
              rw (e, run_random, e')
                (do_random_loop-Ends classes (complex_classes_of faults env config nodes classes)
                  fuel _ w' (omega arith))
        ]
      ]

  -- Which log `run_random` leaves open, by whether it finds its classes: that of before if it does
  -- not, and otherwise what `_open_log` leaves if it raises, and none if it does not.
  abbrev pub left_by : Result (List Class) → LogFile → Bool → Bool
  left_by (err x) f before = before
  left_by (ok classes) f before = left_open f before

  pub run_random-closes :
      (fuel : ℕ) (registry : Registry Class) (s : Engine Action) (w : World)
      → s.log_open ≡ false
      → (run_random faults env config nodes fuel registry s w).1.log_open
        ≡ left_by
            (get_classes (some config.fault_types) registry)
            (env.log_file (clear_stop w).trace)
            false
  unfolding run_random closing close_log
  run_random-closes fuel registry s w h =
      elim (Result-cases (get_classes (some config.fault_types) registry)) [
        | inr (x, e) ↦ rw (e, run_random) h
        | inl (classes, e) ↦ elim (open_log_lem faults env s (clear_stop w)) [
          | inr e' ↦ rw (e, run_random, e', h) refl
          | inl (w', e', f) ↦ rw (e, run_random, e', f) refl
        ]
      ]
