-- ===== src/Engine/Budget.antt =====
-- faults/engine.py: the limit on destructive actions, `max_destructive_actions`.
use mathlib.Core.List.{Perm, Permᴰ}
use mathlib.Core.Logic.{∥∥₁_elim}
use native.Mathlib.Nat.{ℕ_set}
use faultstorm.Prelude.{
  ℕ, ◌+◌, ◌-◌, ◌≤◌, ◌≡◌, refl, ◌∙◌, Bool, true, false, ◌&&◌, List, [], ◌∷◌, ◌++◌, Option, none,
  some, inl, inr, pos, Result, ok, err, All, arith, if◌then◌else◌, Result-cases,
}
use faultstorm.Prelude.Int.{◌+ℤ◌, ◌-ℤ◌}
use faultstorm.Text.{Text}
use faultstorm.Config.{TestConfig}
use faultstorm.Effects.{Env, World, clear_stop}
use faultstorm.Effects.Random.{shuffle-perm}
use faultstorm.Effects.Keeps.{Preorder, Keeps}
use faultstorm.Actions.Base.{Nodes}
use faultstorm.Actions.Registry.{Registry, get_classes}
use faultstorm.Engine.Faults.{Faults}
use faultstorm.Engine.State.{Engine, close_log, wait}
use faultstorm.Engine.Inject.{reached, inject}
use faultstorm.Engine.Heal.{heal_each, heal_all_active}
use faultstorm.Engine.Loop.{closing, complex_classes_of, run_random}
use faultstorm.Engine.Steps.{wait_lem, open_log_lem}
use faultstorm.Engine.Moves.{inject_lem}
use faultstorm.Engine.Heals.{heal_one_lem, released}
use faultstorm.Engine.Passage.{Allowed, do_random_loop-Keeps}

module _ (faults : Faults) where
  open faults use {Class, Action, class_of, destructive}

  -- How many of the faults are destructive.
  abbrev pub destructive_faults : List Action → ℕ
  destructive_faults [] = 0
  destructive_faults (a ∷ as') =
      (if destructive (class_of a) then 1 else 0) + destructive_faults as'

  destructive_faults-append :
      (xs ys : List Action)
      → destructive_faults (xs ++ ys) ≡ destructive_faults xs + destructive_faults ys
  destructive_faults-append [] ys = omega arith
  destructive_faults-append (x ∷ xs) ys = omega (arith, destructive_faults-append xs ys)

  destructive_faults-permᴰ :
      {xs ys : List Action} → Permᴰ xs ys → destructive_faults xs ≡ destructive_faults ys
  destructive_faults-permᴰ Permᴰ.nil = refl
  destructive_faults-permᴰ (Permᴰ.cons e d) = ground (arith, destructive_faults-permᴰ d, e)
  destructive_faults-permᴰ (Permᴰ.swap e e') = ground (arith, e, e')
  destructive_faults-permᴰ (Permᴰ.trans d d') =
      destructive_faults-permᴰ d ∙ destructive_faults-permᴰ d'

  destructive_faults-perm :
      (xs ys : List Action) → Perm xs ys → destructive_faults xs ≡ destructive_faults ys
  destructive_faults-perm xs ys p = ∥∥₁_elim p (ℕ_set _ _) destructive_faults-permᴰ

  abbrev pub AtMost : Option ℕ → ℕ → Type 0
  AtMost none n = Unit
  AtMost (some limit) n = n ≤ limit

  -- The count is at least the number of destructive faults that are active, and at most the limit.
  abbrev pub IsWithin : Option ℕ → Engine Action → Type 0
  IsWithin limit e =
      (n : ℕ) × (e.destructive_count ≡ pos n)
      × (destructive_faults e.active_faults ≤ n)
      × AtMost limit n

module _ (faults : Faults) (env : Env) (config : TestConfig) (nodes : Nodes) where
  open faults use {Class, Action, class_of, destructive, heal}

  released_lem :
      (r : Result (Unit {0})) (d : Bool) (m n : ℕ)
      → (if d then 1 else 0) + m ≤ n
      → (n' : ℕ) × (released faults env config nodes r d (pos n) ≡ pos n')
        × (m ≤ n')
        × (n' ≤ n)
        × (r ≡ ok tt → n ≡ n' + (if d then 1 else 0))
  unfolding ◌-ℤ◌
  released_lem (ok u) true m n h =
      (n - 1, ground arith, ground arith, ground arith, λ _. ground arith)
  released_lem (ok u) false m n h = (n, refl, ground arith, ground arith, λ _. ground arith)
  released_lem (err x) true m n h = (n, refl, ground arith, ground arith, λ q. ground arith)
  released_lem (err x) false m n h = (n, refl, ground arith, ground arith, λ q. ground arith)

  -- A fault whose heal does not raise.
  abbrev pub Heals : Action → Type 0
  Heals a = (w : World) → (heal env a w).0 ≡ ok tt

  All-permᴰ : {xs ys : List Action} → Permᴰ xs ys → All Heals ys → All Heals xs
  All-permᴰ Permᴰ.nil h = tt
  All-permᴰ (Permᴰ.cons e d) h = (rw e h.0, All-permᴰ d h.1)
  All-permᴰ (Permᴰ.swap e e') h = (rw e h.1.0, (rw e' h.0, h.1.1))
  All-permᴰ (Permᴰ.trans d d') h = All-permᴰ d (All-permᴰ d' h)

  -- A heal phase over `order` leaves a count that covers what it did not release.
  heal_each_lem :
      (order : List Action) (n : ℕ) (s : Engine Action) (w : World)
      → s.destructive_count ≡ pos n
      → destructive_faults faults order ≤ n
      → config.complex_fault_min_wait ≤ config.complex_fault_max_wait
      → (n' : ℕ) × (o : ℕ) × (w' : World) × (heal_each faults env config nodes order s w
          ≡ (ok tt, record s { next_ordinal = o; destructive_count = pos n' }, w'))
        × (n' ≤ n)
        × (All Heals order → n ≡ n' + destructive_faults faults order)
  unfolding heal_each
  heal_each_lem [] n s w c h k = (n, s.next_ordinal, w, rw c, omega arith, λ _. omega arith)
  heal_each_lem (a ∷ as') n s w c h k =
      let (r, o, w1, e, _, _, total) = heal_one_lem faults env config nodes a s w in
      let (n1, e1, h1, k1, q1) =
        released_lem (heal env a w).0 (destructive (class_of a)) (destructive_faults faults as') n
          h in
      let (n2, o2, w2, e2, k2, q2) =
        heal_each_lem as' n1 (record s { next_ordinal = o; destructive_count = pos n1 }) w1 refl h1
          k in
      let eq : released faults env config nodes (heal env a w).0 (destructive (class_of a))
            s.destructive_count
          ≡ pos n1 =
        rw c e1 in
      (n2, o2, w2, rw (e, total k, eq, e2), omega arith, λ q. omega (arith, q1 (q.0 w), q2 q.1))

  -- A heal phase over the active faults, in a random order.
  heal_all_active_lem :
      (n : ℕ) (s : Engine Action) (w : World)
      → s.destructive_count ≡ pos n
      → destructive_faults faults s.active_faults ≤ n
      → config.complex_fault_min_wait ≤ config.complex_fault_max_wait
      → (n' : ℕ) × (o : ℕ) × (w' : World) × (heal_all_active faults env config nodes s w ≡ (
        ok tt,
        record s { active_faults = []; next_ordinal = o; destructive_count = pos n' },
        w',
      ))
        × (n' ≤ n)
        × (All Heals s.active_faults → n ≡ n' + destructive_faults faults s.active_faults)
  unfolding heal_all_active
  heal_all_active_lem n s w c h k =
      let (order, d, e, p) = shuffle-perm env s.active_faults w in
      let same = destructive_faults-perm faults order s.active_faults p in
      let (n', o, w', e', h', q) =
        heal_each_lem order n s (record w { draws = d }) c (omega (arith, same)) k in
      (
        n',
        o,
        w',
        rw (e, e'),
        h',
        λ all. ∥∥₁_elim p (ℕ_set _ _) (λ d. omega (arith, same, q (All-permᴰ d all))),
      )

  abbrev pub Within : Engine Action → Type 0
  Within = IsWithin faults config.max_destructive_actions

  abbrev pub within : Preorder (Engine Action)
  within = record {
    Rel = λ s w s' w'. Within s → Within s';
    same = λ s w h. h;
    chain = λ s w s' w' s'' w'' h k i. k (h i);
  }

  -- One more action of the class, when the limit lets it pass, stays at most at the limit.
  AtMost-Allowed :
      (limit : Option ℕ) (d : Bool) (n : ℕ)
      → (reached limit (pos n) && d) ≡ false
      → AtMost faults limit n
      → AtMost faults limit (n + (if d then 1 else 0))
  AtMost-Allowed limit d n h k = ground arith

  counted_lem :
      (d : Bool) (n : ℕ) → (if d then (pos n +ℤ pos 1) else pos n) ≡ pos (n + (if d then 1 else 0))
  unfolding ◌+ℤ◌
  counted_lem d n = ground arith

  inject-Within :
      (c : Class) (t : Option Text) (s : Engine Action) (w : World)
      → Allowed faults env config nodes s.destructive_count c
      → Within s
      → Within (inject faults env config nodes c t s w).1
  inject-Within c t s w allowed (n, e, covers, under) =
      elim (inject_lem faults env config nodes c t s w) [
        | inl (x, e') ↦ rw e' (n, e, covers, under)
        | inr (a, w', e', _, of_class, _) ↦ rw e' (
          n + (if destructive c then 1 else 0),
          rw e (counted_lem (destructive c) n),
          rw (destructive_faults-append faults s.active_faults (a ∷ []), of_class) (omega arith),
          AtMost-Allowed config.max_destructive_actions (destructive c) n (rw e at allowed) under,
        )
      ]

  AtMost-le : (limit : Option ℕ) (m n : ℕ) → m ≤ n → AtMost faults limit n → AtMost faults limit m
  AtMost-le none m n h k = tt
  AtMost-le (some limit) m n h k = omega arith

  wait-Within : (n : ℕ) → Keeps within (wait faults env nodes n)
  wait-Within n s w h = let (w', e, _) = wait_lem faults env nodes n s w in rw e h

  module _ (ordered : config.complex_fault_min_wait ≤ config.complex_fault_max_wait) where
    heal_all_active-Within : Keeps within (heal_all_active faults env config nodes)
    heal_all_active-Within s w (n, e, covers, under) =
        let (n', o, w', e', le, _) = heal_all_active_lem n s w e covers ordered in
        rw e' (n', refl, omega arith, AtMost-le config.max_destructive_actions n' n le under)

    -- The budget of destructive actions. While `_destructive_count` is at most the limit and covers
    -- the active destructive faults, it stays so in every run of `run_random`, whatever is chosen,
    -- raised or interrupted: the destructive faults that are active never exceed the limit. The
    -- waits between faults are configured with a least length at most the greatest.
    pub run_random-IsWithin :
        (fuel : ℕ) (registry : Registry Class) (s : Engine Action) (w : World)
        → IsWithin faults config.max_destructive_actions s
        → IsWithin faults config.max_destructive_actions
            (run_random faults env config nodes fuel registry s w).1
    unfolding run_random closing close_log
    run_random-IsWithin fuel registry s w h =
        elim (Result-cases (get_classes (some config.fault_types) registry)) [
          | inr (x, e) ↦ rw (e, run_random) h
          | inl (classes, e) ↦ elim (open_log_lem faults env s (clear_stop w)) [
            | inr e' ↦ rw (e, run_random, e') h
            | inl (w', e', _) ↦
                rw (e, run_random, e')
                  (do_random_loop-Keeps faults env config nodes within (λ s w n h. h) inject-Within
                    wait-Within heal_all_active-Within classes
                    (complex_classes_of faults env config nodes classes) fuel
                    (record s { log_open = true }) w' h)
          ]
        ]

    pub heal_all_active-frees :
        (s : Engine Action) (w : World)
        → s.destructive_count ≡ pos (destructive_faults faults s.active_faults)
        → All Heals s.active_faults
        → (o : ℕ) × (w' : World) × (heal_all_active faults env config nodes s w ≡ (
          ok tt,
          record s { active_faults = []; next_ordinal = o; destructive_count = pos 0 },
          w',
        ))
    heal_all_active-frees s w e total =
        let (n', o, w', e', _, q) =
          heal_all_active_lem (destructive_faults faults s.active_faults) s w e (omega arith)
            ordered in
        let none_left : n' ≡ 0 = omega (arith, q total) in (o, w', rw none_left at e')
