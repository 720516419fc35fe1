-- ===== src/Engine/Moves.antt =====
-- faults/engine.py: what one injection and one heal leave of the engine, on every outcome.
use faultstorm.Prelude.{
  ◌+◌, ◌≤◌, ◌≡◌, refl, Bool, true, false, [], ◌∷◌, ◌++◌, Option, ◌⊎◌, inl, inr, ℤ, pos, ok, err,
  Exception, arith, length, if◌then◌else◌, Result-cases,
}
use faultstorm.Prelude.Int.{◌+ℤ◌}
use faultstorm.Text.{Text}
use faultstorm.Config.{TestConfig}
use faultstorm.Effects.{Env, World}
use faultstorm.Actions.Base.{Nodes}
use faultstorm.Engine.Faults.{Faults}
use faultstorm.Engine.State.{Engine, get_next_ordinal}
use faultstorm.Engine.Inject.{kwargs_for, count_destructive, track, inject}
use faultstorm.Engine.Steps.{log_and_execute_lem}

module _ (faults : Faults) (env : Env) (config : TestConfig) (nodes : Nodes) where
  open faults use {
    Class, Action, class_of, ordinal_of, destructive, healable, make, make_class, make_ordinal,
    heal, heal_grows,
  }

  -- `_destructive_count` after an action of the class, and before it.
  abbrev pub counted : Class → ℤ → ℤ
  counted c n = if destructive c then (n +ℤ pos 1) else n

  abbrev pub injected : Engine Action → Class → Action → Engine Action
  injected s c a = record {
    active_faults = s.active_faults ++ a ∷ [];
    next_ordinal = s.next_ordinal + 1;
    destructive_count = counted c s.destructive_count;
    log_open = s.log_open;
  }

  count_destructive_lem :
      (d : Bool) (s : Engine Action) (w : World)
      → count_destructive faults env config nodes d s w ≡ (
        ok tt,
        record s {
          destructive_count = if d then (s.destructive_count +ℤ pos 1) else s.destructive_count;
        },
        w,
      )
  unfolding count_destructive
  count_destructive_lem true s w = refl
  count_destructive_lem false s w = refl

  -- An injection fails in the constructor, or tracks one new fault, whatever `execute` did.
  pub inject_lem :
      (c : Class) (t : Option Text) (s : Engine Action) (w : World)
      → ((x : Exception) × (inject faults env config nodes c t s w
            ≡ (err x, record s { next_ordinal = s.next_ordinal + 1 }, w)))
        ⊎ ((a : Action) × (w' : World) × (inject faults env config nodes c t s w
              ≡ (ok tt, injected s c a, w'))
            × (length w.trace ≤ length w'.trace)
            × (class_of a ≡ c)
            × (ordinal_of a ≡ pos (s.next_ordinal + 1)))
  unfolding inject get_next_ordinal track
  inject_lem c t s w =
      let o = pos (s.next_ordinal + 1) in
      let k = kwargs_for faults env config nodes c t in
      elim (Result-cases (make c nodes o k)) [
        | inr (x, e) ↦ inl (x, rw e)
        | inl (a, e) ↦
            let of_class = make_class c nodes o k a e in
            let s' = record s {
              next_ordinal = s.next_ordinal + 1;
              destructive_count = counted c s.destructive_count;
            } in
            let (a', w', e', h, same_class, same_ordinal) = log_and_execute_lem faults env a s' w in
            inr (
              a',
              w',
              rw (e, of_class, count_destructive_lem (destructive c), e'),
              h,
              ground (arith, same_class, of_class),
              ground (arith, same_ordinal, make_ordinal c nodes o k a e),
            )
      ]
