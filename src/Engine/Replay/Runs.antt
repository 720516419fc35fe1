-- ===== src/Engine/Replay/Runs.antt =====
-- faults/engine.py: what `run_replay` leaves of the engine and of the scenario log.
use mathlib.Core.List.{append-nil, append_assoc}
use faultstorm.Prelude.{
  ◌≤◌, ◌≡◌, refl, sym, ◌∙◌, ap, Bool, true, false, inl, inr, List, [], ◌∷◌, ◌++◌, ok, arith, length,
  length-append, map, Bool-cases,
}
use faultstorm.Text.{Text, codes}
use faultstorm.Config.{TestConfig}
use faultstorm.Effects.{writable, Event, Env, World, wrote, emit, is_set}
use faultstorm.Effects.Grows.{written, written-append}
use faultstorm.Actions.Base.{Nodes}
use faultstorm.Engine.Faults.{Faults}
use faultstorm.Engine.State.{
  Engine, newline, action_line, write_action, log_and_execute, try_execute, open_log, open_as,
}
use faultstorm.Engine.Steps.{write_action_lem}
use faultstorm.Engine.Replay.{quiet_heal, replay_one, replay_each}

module _ (faults : Faults) (env : Env) (config : TestConfig) (nodes : Nodes) where
  open faults use {
    Class, Action, execute, heal, execute_grows, heal_grows, execute_quiet, heal_quiet,
  }

  -- The object that a command is written as: `heal` runs before its line is written.
  abbrev pub seen : Action → Bool → World → Action
  seen a true w = (heal env a w).1
  seen a false w = a

  -- The lines are those of the commands, each written at some time.
  abbrev pub Records : List (Action × Bool) → List Text → Type 0
  Records [] [] = Unit
  Records [] (l ∷ ls) = ⊥
  Records (c ∷ cs) [] = ⊥
  Records ((a, h) ∷ cs) (l ∷ ls) =
      ((t : List Event) × (w : World) × (l
          ≡ action_line faults env (env.timestamp t) (seen a h w) h ++ newline ∷ []))
      × Records cs ls

  -- A step does not change the engine, and writes one line.
  abbrev WritesOne : Action → Bool → Engine Action → World → Type 0
  WritesOne a h s w =
      (w' : World) × (replay_one faults env config nodes a h s w ≡ (ok tt, s, w'))
      × (length w.trace ≤ length w'.trace)
      × (s.log_open ≡ true
          → (t : List Event) × (written w'.trace
              ≡ written w.trace
                ++ (action_line faults env (env.timestamp t) (seen a h w) h ++ newline ∷ []) ∷ []))

  write_action-written :
      (a : Action) (h : Bool) (s : Engine Action) (w : World)
      → s.log_open ≡ true
      → written (write_action faults env a h s w).2.trace
        ≡ written w.trace
          ++ (action_line faults env (env.timestamp w.trace) a h ++ newline ∷ []) ∷ []
  unfolding write_action emit
  write_action-written a h s w o =
      rw (o, write_action)
        (written-append w.trace
          (wrote (action_line faults env (env.timestamp w.trace) a h ++ newline ∷ []) ∷ []))

  replay_one_lem : (a : Action) (h : Bool) (s : Engine Action) (w : World) → WritesOne a h s w
  unfolding replay_one quiet_heal log_and_execute try_execute
  replay_one_lem a true s w =
      let a' = (heal env a w).1 in
      let w1 = (heal env a w).2 in
      let (w', e, g) = write_action_lem faults env a' true s w1 in
      (
        w',
        e,
        omega (arith, heal_grows env a w),
        λ o. (
          w1.trace,
          sym (ap (λ r. written r.2.trace) e)
              ∙ write_action-written a' true s w1 o
              ∙ rw (heal_quiet env a w) refl,
        ),
      )
  replay_one_lem a false s w =
      let (w', e, g) = write_action_lem faults env a false s w in
      (
        (execute env a w').2,
        rw e refl,
        omega (arith, execute_grows env a w'),
        λ o. (
          w.trace,
          execute_quiet env a w'
              ∙ sym (ap (λ r. written r.2.trace) e)
              ∙ write_action-written a false s w o,
        ),
      )

  pub replay_each_lem :
      (cs : List (Action × Bool)) (s : Engine Action) (w : World)
      → (w' : World) × (replay_each faults env config nodes cs s w ≡ (ok tt, s, w'))
        × (length w.trace ≤ length w'.trace)
        × (s.log_open ≡ true
            → is_set env w' ≡ false
            → (ls : List Text) × (written w'.trace ≡ written w.trace ++ ls) × Records cs ls)
  unfolding replay_each is_set
  replay_each_lem [] s w =
      (w, refl, omega arith, λ o go. ([], sym (append-nil (written w.trace)), tt))
  replay_each_lem ((a, h) ∷ cs) s w = elim (Bool-cases (is_set env w)) [
    | inl p ↦ (w, rw p refl, omega arith, λ o go. cc)
    | inr p ↦
        let (w1, e, g, one) = replay_one_lem a h s w in
        let (w2, e', g', more) = replay_each_lem cs s w1 in
        (
          w2,
          rw (p, e, e') refl,
          omega arith,
          λ o go.
              let (t, et) = one o in
              let (ls, es, rec) = more o go in
              (
                (action_line faults env (env.timestamp t) (seen a h w) h ++ newline ∷ []) ∷ ls,
                es ∙ ap (λ l. l ++ ls) et ∙ append_assoc (written w.trace) _ ls,
                ((t, w, refl), rec),
              ),
        )
  ]

  joined :
      (es : List Event) (a b c d e : Text)
      → ((((es ++ wrote a ∷ []) ++ wrote b ∷ []) ++ wrote c ∷ []) ++ wrote d ∷ []) ++ wrote e ∷ []
        ≡ es ++ (wrote a ∷ wrote b ∷ wrote c ∷ wrote d ∷ wrote e ∷ [])
  joined es a b c d e =
      append_assoc (((es ++ wrote a ∷ []) ++ wrote b ∷ []) ++ wrote c ∷ []) _ _
      ∙ append_assoc ((es ++ wrote a ∷ []) ++ wrote b ∷ []) _ _
      ∙ append_assoc (es ++ wrote a ∷ []) _ _
      ∙ append_assoc es _ _

  abbrev title : Text
  title = codes "# FaultStorm scenario log" ++ newline ∷ []

  -- The lines that `_open_log` writes.
  abbrev pub header : Text → List Text
  header now =
      title
      ∷ ((codes "# Generated at " ++ now) ++ newline ∷ [])
      ∷ (codes "#" ++ newline ∷ [])
      ∷ (codes "# Replay with: python main.py --replay-scenario <this_file>" ++ newline ∷ [])
      ∷ (newline ∷ [])
      ∷ []

  pub open_log-written :
      (s : Engine Action) (w : World)
      → env.log_file w.trace ≡ writable
      → (w' : World) × (open_log faults env s w ≡ (ok tt, record s { log_open = true }, w'))
        × (length w.trace ≤ length w'.trace)
        × (t : List Event) × (written w'.trace ≡ written w.trace ++ header (env.timestamp t))
  unfolding open_log open_as emit
  open_log-written s w f =
      let es = map wrote (header (env.timestamp (w.trace ++ wrote title ∷ []))) in
      (
        (open_as faults env writable s w).2,
        rw f refl,
        rw (joined w.trace title _ _ _ _) (omega (arith, length-append w.trace es)),
        w.trace ++ wrote title ∷ [],
        ap written (joined w.trace title _ _ _ _) ∙ written-append w.trace es,
      )
