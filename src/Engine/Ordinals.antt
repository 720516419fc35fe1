-- ===== src/Engine/Ordinals.antt =====
-- faults/engine.py: the ordinals of the active faults.
use faultstorm.Prelude.{
  ℕ, zero, suc, ◌+◌, ◌≤◌, ◌<◌, ◌≡◌, ◌≢◌, refl, ap, true, List, [], ◌∷◌, ◌++◌, Option, some, inl,
  inr, pos, arith, get_elem?, Result-cases,
}
use faultstorm.Text.{Text}
use faultstorm.Config.{TestConfig}
use faultstorm.Effects.{Env, World, clear_stop}
use faultstorm.Effects.Keeps.{Preorder, Keeps}
use faultstorm.Actions.Base.{Nodes}
use faultstorm.Actions.Registry.{Registry, get_classes}
use faultstorm.Engine.Faults.{Faults}
use faultstorm.Engine.State.{Engine, close_log, wait}
use faultstorm.Engine.Inject.{inject}
use faultstorm.Engine.Heal.{heal_one}
use faultstorm.Engine.Loop.{closing, complex_classes_of, run_random}
use faultstorm.Engine.Steps.{wait_lem, open_log_lem}
use faultstorm.Engine.Moves.{inject_lem}
use faultstorm.Engine.Heals.{heal_one_lem}
use faultstorm.Engine.Passage.{heal_all_active-Keeps, do_random_loop-Keeps}

module _ (faults : Faults) where
  open faults use {Class, Action, ordinal_of}

  -- Ordinals that grow along a list, from above `lo` up to `hi`.
  abbrev pub Ascending : ℕ → List Action → ℕ → Type 0
  Ascending lo [] hi = lo ≤ hi
  Ascending lo (a ∷ as') hi = (o : ℕ) × (ordinal_of a ≡ pos o) × (lo < o) × Ascending o as' hi

  Ascending-append :
      (xs : List Action) (lo hi o : ℕ) (a : Action)
      → Ascending lo xs hi
      → ordinal_of a ≡ pos o
      → hi < o
      → Ascending lo (xs ++ a ∷ []) o
  Ascending-append [] lo hi o a h e k = (o, e, omega arith, omega arith)
  Ascending-append (x ∷ xs) lo hi o a (p, e', l, h) e k =
      (p, e', l, Ascending-append xs p hi o a h e k)

  Ascending-le :
      (xs : List Action) (lo hi hi' : ℕ) → hi ≤ hi' → Ascending lo xs hi → Ascending lo xs hi'
  Ascending-le [] lo hi hi' k h = omega arith
  Ascending-le (x ∷ xs) lo hi hi' k (p, e, l, h) = (p, e, l, Ascending-le xs p hi hi' k h)

  -- An element of the list has an ordinal above the lower bound.
  Ascending-above :
      (xs : List Action) (lo hi i : ℕ) (a : Action)
      → Ascending lo xs hi
      → get_elem? xs i ≡ some a
      → (o : ℕ) × (ordinal_of a ≡ pos o) × (lo < o)
  Ascending-above [] lo hi i a h e = cc
  Ascending-above (x ∷ xs) lo hi zero a (p, e', l, h) e = (p, ground (arith, e', e), l)
  Ascending-above (x ∷ xs) lo hi (suc i) a (p, e', l, h) e =
      let (o, e2, l2) = Ascending-above xs p hi i a h e in (o, e2, omega arith)

  Ascending-distinct :
      (xs : List Action) (lo hi i j : ℕ) (a b : Action)
      → Ascending lo xs hi
      → get_elem? xs i ≡ some a
      → get_elem? xs j ≡ some b
      → ordinal_of a ≡ ordinal_of b
      → i ≡ j
  Ascending-distinct [] lo hi i j a b h ei ej k = cc
  Ascending-distinct (x ∷ xs) lo hi zero zero a b h ei ej k = refl
  Ascending-distinct (x ∷ xs) lo hi zero (suc j) a b (p, e, l, h) ei ej k =
      let (o, e', l') = Ascending-above xs p hi j b h ej in ground (arith, e, e', ei, k)
  Ascending-distinct (x ∷ xs) lo hi (suc i) zero a b (p, e, l, h) ei ej k =
      let (o, e', l') = Ascending-above xs p hi i a h ei in ground (arith, e, e', ej, k)
  Ascending-distinct (x ∷ xs) lo hi (suc i) (suc j) a b (p, e, l, h) ei ej k =
      ap suc (Ascending-distinct xs p hi i j a b h ei ej k)

  abbrev pub IsNumbered : Engine Action → Type 0
  IsNumbered e = Ascending 0 e.active_faults e.next_ordinal

  -- Of faults that are numbered in the order of injection, two different ones have different
  -- ordinals.
  pub IsNumbered-distinct :
      (e : Engine Action) (i j : ℕ) (a b : Action)
      → IsNumbered e
      → get_elem? e.active_faults i ≡ some a
      → get_elem? e.active_faults j ≡ some b
      → i ≢ j
      → ordinal_of a ≢ ordinal_of b
  IsNumbered-distinct e i j a b h ei ej apart k =
      apart (Ascending-distinct e.active_faults 0 e.next_ordinal i j a b h ei ej k)

module _ (faults : Faults) (env : Env) (config : TestConfig) (nodes : Nodes) where
  open faults use {Class, Action}

  abbrev pub numbered : Preorder (Engine Action)
  numbered = record {
    Rel = λ s w s' w'. IsNumbered faults s → IsNumbered faults s';
    same = λ s w h. h;
    chain = λ s w s' w' s'' w'' h k i. k (h i);
  }

  inject-IsNumbered :
      (c : Class) (t : Option Text) → Keeps numbered (inject faults env config nodes c t)
  inject-IsNumbered c t s w h = elim (inject_lem faults env config nodes c t s w) [
    | inl (x, e) ↦
        rw e (
          Ascending-le faults s.active_faults 0 s.next_ordinal (s.next_ordinal + 1) (omega arith) h)
    | inr (a, w', e, _, _, o) ↦ rw e (
        Ascending-append faults s.active_faults 0 s.next_ordinal (s.next_ordinal + 1) a h o
          (omega arith))
  ]

  wait-IsNumbered : (n : ℕ) → Keeps numbered (wait faults env nodes n)
  wait-IsNumbered n s w h =
      let (w', e, _) = wait_lem faults env nodes n s w in
      rw e
        (Ascending-le faults s.active_faults 0 s.next_ordinal (s.next_ordinal + 1) (omega arith) h)

  heal_one-IsNumbered : (a : Action) → Keeps numbered (heal_one faults env config nodes a)
  heal_one-IsNumbered a s w h =
      let (r, o, w', e, le, _, _) = heal_one_lem faults env config nodes a s w in
      rw e (Ascending-le faults s.active_faults 0 s.next_ordinal o le h)

  -- Every run of `run_random` keeps the active faults numbered: their ordinals grow in the order
  -- of injection, up to the last ordinal that was given out.
  pub run_random-IsNumbered :
      (fuel : ℕ) (registry : Registry Class) (s : Engine Action) (w : World)
      → IsNumbered faults s
      → IsNumbered faults (run_random faults env config nodes fuel registry s w).1
  unfolding run_random closing close_log
  run_random-IsNumbered fuel registry s w h =
      elim (Result-cases (get_classes (some config.fault_types) registry)) [
        | inr (x, e) ↦ rw (e, run_random) h
        | inl (classes, e) ↦ elim (open_log_lem faults env s (clear_stop w)) [
          | inr e' ↦ rw (e, run_random, e') h
          | inl (w', e', _) ↦
              rw (e, run_random, e')
                (do_random_loop-Keeps faults env config nodes numbered (λ s w n h. h)
                  (λ c t s w _. inject-IsNumbered c t s w) wait-IsNumbered
                  (heal_all_active-Keeps faults env config nodes numbered (λ s w n h. h)
                    heal_one-IsNumbered (λ s w h. omega arith))
                  classes (complex_classes_of faults env config nodes classes) fuel
                  (record s { log_open = true }) w' h)
        ]
      ]
