-- ===== src/Engine/Passage.antt =====
-- faults/engine.py: a relation that the injections, the waits and the heal phases respect is
-- respected by every run of the engine's loops.
use faultstorm.Prelude.{
  ℕ, zero, suc, ◌%◌, ◌≡◌, Bool, true, false, not, ◌&&◌, List, [], ◌∷◌, Option, none, some, ℤ, arith,
  get_elem?, if◌then◌else◌, filter_by, ◌==◌, nat_eq,
}
use faultstorm.Text.{Text}
use faultstorm.Config.{TestConfig}
use faultstorm.Effects.{Env, World, draw, choice, randint, shuffle}
use faultstorm.Effects.Methods.{Method, modify, lift, return}
use faultstorm.Effects.Random.{choice-elem}
use faultstorm.Effects.Keeps.{
  Preorder, Keeps, return-Keeps, >>=-Rel, >>=-Keeps, >>-Keeps, if-Keeps, draw-Keeps, randint-Keeps,
  shuffle-Keeps,
}
use faultstorm.Actions.Base.{Nodes}
use faultstorm.Engine.Faults.{Faults}
use faultstorm.Engine.State.{Engine, wait}
use faultstorm.Engine.Inject.{
  reached, filter_by_destructive_limit, inject, wait_between, pick, inject_loop, use_combo,
  inject_combo, inject_complex_fault,
}
use faultstorm.Engine.Heal.{heal_one, heal_each, heal_all_active}
use faultstorm.Engine.Loop.{
  Ending, stopped, stop_is_set, inject_phase, second_half, cycle, do_random_loop,
}

pub filter_by-get_elem? :
    {A : Type 0} (p : A → Bool) (xs : List A) (i : ℕ) (a : A)
    → get_elem? (filter_by p xs) i ≡ some a
    → p a ≡ true
filter_by-get_elem? p [] i a h = cc
filter_by-get_elem? p (x ∷ xs) zero a h = ground (arith, filter_by-get_elem? p xs 0 a)
filter_by-get_elem? p (x ∷ xs) (suc i) a h =
    ground (arith, filter_by-get_elem? p xs i a, filter_by-get_elem? p xs (suc i) a)

module _ (faults : Faults) (env : Env) (config : TestConfig) (nodes : Nodes) where
  open faults use {Class, Action, class_of, destructive}

  -- What `_filter_by_destructive_limit` lets pass.
  abbrev pub Allowed : ℤ → Class → Type 0
  Allowed count c = (reached config.max_destructive_actions count && destructive c) ≡ false

  pub filter_by_destructive_limit-Allowed :
      (count : ℤ) (classes : List Class) (i : ℕ) (c : Class)
      → get_elem? (filter_by_destructive_limit faults env config nodes count classes) i ≡ some c
      → Allowed count c
  unfolding filter_by_destructive_limit
  filter_by_destructive_limit-Allowed count classes i c h =
      ground (arith, filter_by-get_elem? (λ c. not (destructive c)) classes i c)

  module _ (P : Preorder (Engine Action)) where
    open P use {Rel, same, chain}

    -- A heal phase respects the relation if each heal does, and the end of the phase.
    module _ (drawn : (s : Engine Action) (w : World) (n : ℕ) → Rel s w s (record w { draws = n }))
        (heal_ones : (a : Action) → Keeps P (heal_one faults env config nodes a))
        (clears : Keeps P (modify (λ e. record e { active_faults = [] }))) where
      heal_each-Keeps : (as' : List Action) → Keeps P (heal_each faults env config nodes as')
      unfolding heal_each
      heal_each-Keeps [] s w = same s w
      heal_each-Keeps (a ∷ as') s w =
          >>-Keeps P (heal_one faults env config nodes a) (heal_each faults env config nodes as')
            (heal_ones a) (heal_each-Keeps as') s w

      pub heal_all_active-Keeps : Keeps P (heal_all_active faults env config nodes)
      unfolding heal_all_active
      heal_all_active-Keeps s w =
          >>=-Keeps P (lift (shuffle env s.active_faults)) _
            (shuffle-Keeps P env drawn s.active_faults)
            (λ order.
              >>-Keeps P (heal_each faults env config nodes order) _ (heal_each-Keeps order) clears)
            s w

    module _ (drawn : (s : Engine Action) (w : World) (n : ℕ) → Rel s w s (record w { draws = n }))
        (injects : (c : Class) (t : Option Text) (s : Engine Action) (w : World)
          → Allowed s.destructive_count c
          → Rel s w
              (inject faults env config nodes c t s w).1
              (inject faults env config nodes c t s w).2)
        (waits : (n : ℕ) → Keeps P (wait faults env nodes n))
        (heals : Keeps P (heal_all_active faults env config nodes)) where
      wait_between-Keeps : (left : ℕ) → Keeps P (wait_between faults env config nodes left)
      unfolding wait_between
      wait_between-Keeps zero = return-Keeps P tt
      wait_between-Keeps (suc left) =
          >>=-Keeps P _ _
            (randint-Keeps P env drawn config.complex_fault_min_wait config.complex_fault_max_wait)
            waits

      pick-Rel :
          (pool : List Class) (t : Option Text) (more : Method (Engine Action) (Unit {0}))
          (s : Engine Action) (w : World)
          → ((i : ℕ) (c : Class) → get_elem? pool i ≡ some c → Allowed s.destructive_count c)
          → Keeps P more
          → Rel s w
              (pick faults env config nodes pool t more s w).1
              (pick faults env config nodes pool t more s w).2
      pick-Rel [] t more s w h k = same s w
      pick-Rel (c ∷ cs) t more s w h k =
          let (i, a, e, found) = choice-elem env (c ∷ cs) w (omega arith) in
          let w' = record w { draws = suc w.draws } in
          rw e (
            chain s w s w' _ _ (drawn s w (suc w.draws)) (
              >>=-Rel P (inject faults env config nodes a t) _ s w' (injects a t s w' (h i a found))
                (λ _. k)))

      inject_loop-Keeps :
          (pool : List Class) (t : Option Text) (n : ℕ)
          → Keeps P (inject_loop faults env config nodes pool t n)
      unfolding inject_loop
      inject_loop-Keeps pool t zero s w = same s w
      inject_loop-Keeps pool t (suc left) s w =
          pick-Rel _ t _ s w (filter_by_destructive_limit-Allowed s.destructive_count pool)
            (>>=-Keeps P _ _ (wait_between-Keeps left) (λ _. inject_loop-Keeps pool t left))

      use_combo-Keeps : (classes : List Class) → Keeps P (use_combo faults env config nodes classes)
      unfolding use_combo
      use_combo-Keeps [] = return-Keeps P false
      use_combo-Keeps (c ∷ cs) =
          >>=-Keeps P _ _ (draw-Keeps P env drawn) (λ k. return-Keeps P (k % 2 == 0))

      target-Keeps : (ns : List Text) → Keeps P (lift (choice env ns))
      unfolding choice draw
      target-Keeps [] s w = same s w
      target-Keeps (n ∷ ns) s w =
          let (i, a, e, found) = choice-elem env (n ∷ ns) w (omega arith) in
          rw e (drawn s w (suc w.draws))

      inject_combo-Keeps :
          (classes : List Class) → Keeps P (inject_combo faults env config nodes classes)
      unfolding inject_combo
      inject_combo-Keeps classes =
          >>=-Keeps P (lift (randint env 1 3)) _ (randint-Keeps P env drawn 1 3) (λ fault_count.
            >>=-Keeps P (lift (choice env nodes.db_nodes)) _ (target-Keeps nodes.db_nodes)
              (λ target. inject_loop-Keeps classes (some target) fault_count))

      pub inject_complex_fault-Keeps :
          (fault_classes complex_classes : List Class)
          → Keeps P (inject_complex_fault faults env config nodes fault_classes complex_classes)
      unfolding inject_complex_fault
      inject_complex_fault-Keeps fault_classes complex_classes =
          >>=-Keeps P (use_combo faults env config nodes complex_classes)
            (λ combo.
              if combo
              then inject_combo faults env config nodes complex_classes
              else inject_loop faults env config nodes fault_classes none 1)
            (use_combo-Keeps complex_classes)
            (λ combo.
              if-Keeps P combo (inject_combo faults env config nodes complex_classes)
                (inject_loop faults env config nodes fault_classes none 1)
                (inject_combo-Keeps complex_classes) (inject_loop-Keeps fault_classes none 1))

      module _ (fault_classes complex_classes : List Class) where
        pub inject_phase-Keeps :
            (n : ℕ) → Keeps P (inject_phase faults env config nodes fault_classes complex_classes n)
        unfolding inject_phase
        inject_phase-Keeps zero s w = same s w
        inject_phase-Keeps (suc left) s w =
            >>-Keeps P (inject_complex_fault faults env config nodes fault_classes complex_classes)
              _ (inject_complex_fault-Keeps fault_classes complex_classes)
              (>>-Keeps P (wait_between faults env config nodes left)
                (inject_phase faults env config nodes fault_classes complex_classes left)
                (wait_between-Keeps left) (inject_phase-Keeps left))
              s w

        second_half-Keeps :
            (stop : Bool) (next : Method (Engine Action) Ending)
            → Keeps P next
            → Keeps P (second_half faults env config nodes fault_classes complex_classes stop next)
        second_half-Keeps true next h = return-Keeps P stopped
        second_half-Keeps false next h =
            >>-Keeps P (heal_all_active faults env config nodes) _ heals (
              >>-Keeps P (wait faults env nodes config.fault_pause_duration) next
                (waits config.fault_pause_duration) h)

        cycle-Keeps :
            (next : Method (Engine Action) Ending)
            → Keeps P next
            → Keeps P (cycle faults env config nodes fault_classes complex_classes next)
        cycle-Keeps next h =
            >>-Keeps P
              (inject_phase faults env config nodes fault_classes complex_classes
                config.parallel_faults_count)
              _ (inject_phase-Keeps config.parallel_faults_count)
              (>>-Keeps P (wait faults env nodes config.fault_active_duration) _
                (waits config.fault_active_duration)
                (>>=-Keeps P (stop_is_set faults env config nodes)
                  (λ stop.
                    second_half faults env config nodes fault_classes complex_classes stop next)
                  same (λ stop. second_half-Keeps stop next h)))

        pub do_random_loop-Keeps :
            (fuel : ℕ)
            → Keeps P (do_random_loop faults env config nodes fault_classes complex_classes fuel)
        unfolding do_random_loop
        do_random_loop-Keeps zero s w = same s w
        do_random_loop-Keeps (suc fuel) s w =
            >>=-Keeps P (stop_is_set faults env config nodes)
              (λ stop.
                if stop
                then return stopped
                else cycle faults env config nodes fault_classes complex_classes
                    (do_random_loop faults env config nodes fault_classes complex_classes fuel))
              same
              (λ stop.
                if-Keeps P stop (return stopped) _ same (cycle-Keeps _ (do_random_loop-Keeps fuel)))
              s w
