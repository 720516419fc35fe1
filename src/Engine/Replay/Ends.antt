-- ===== src/Engine/Replay/Ends.antt =====
-- faults/engine.py: how `run_replay` ends, and the log that it leaves.
use faultstorm.Prelude.{
  ◌≡◌, refl, sym, ◌∙◌, ap, Bool, true, false, inl, inr, List, ◌++◌, Result, ok, err, os_error,
  Exception, Result-cases,
}
use faultstorm.Text.{Text}
use faultstorm.Config.{TestConfig}
use faultstorm.Effects.{
  Event, cleared, clear_stop, LogFile, writable, no_file, no_space, Env, World, is_set,
}
use faultstorm.Effects.Grows.{written, written-snoc}
use faultstorm.Effects.Methods.{Method, ◌>>◌}
use faultstorm.Actions.Base.{Nodes}
use faultstorm.Actions.Registry.{Registry}
use faultstorm.Engine.Faults.{Faults}
use faultstorm.Engine.State.{Engine, open_log, open_as, close_log}
use faultstorm.Engine.Loop.{closing}
use faultstorm.Engine.Scenario.{parse_log}
use faultstorm.Engine.Replay.{replay_each, run_replay}
use faultstorm.Engine.Replay.Runs.{Records, header, replay_each_lem, open_log-written}

module _ (faults : Faults) (env : Env) (config : TestConfig) (nodes : Nodes) where
  open faults use {Class, Action}

  abbrev replay : List (Action × Bool) → Method (Engine Action) (Unit {0})
  replay cs =
      open_log faults env
      >> closing faults env config nodes (replay_each faults env config nodes cs)

  -- What a replay of commands that were parsed does.
  abbrev Replays : List (Action × Bool) → Engine Action → World → Type 0
  Replays cs s w =
      (w' : World) × (replay cs s w ≡ (ok tt, record s { log_open = false }, w'))
      × (is_set env w' ≡ false
          → (t : List Event) × (ls : List Text) × (written w'.trace
              ≡ (written w.trace ++ header faults env config nodes (env.timestamp t)) ++ ls)
            × Records faults env config nodes cs ls)

  replay_lem :
      (cs : List (Action × Bool)) (s : Engine Action) (w : World)
      → env.log_file w.trace ≡ writable
      → Replays cs s w
  unfolding closing close_log
  replay_lem cs s w f =
      let (w1, e, g, t, h) = open_log-written faults env config nodes s w f in
      let (w2, e', g', more) =
        replay_each_lem faults env config nodes cs (record s { log_open = true }) w1 in
      (
        w2,
        rw (e, e') refl,
        λ go. let (ls, es, rec) = more refl go in (t, ls, es ∙ ap (λ l. l ++ ls) h, rec),
      )

  run_parsed :
      (registry : Registry Class) (lines : List Text) (cs : List (Action × Bool))
      (s : Engine Action) (w : World)
      → parse_log faults registry nodes lines ≡ ok cs
      → run_replay faults env config nodes registry lines s w ≡ replay cs s (clear_stop w)
  unfolding run_replay
  run_parsed registry lines cs s w p = rw (p, run_replay) refl

  run_refused :
      (registry : Registry Class) (lines : List Text) (x : Exception) (s : Engine Action)
      (w : World)
      → parse_log faults registry nodes lines ≡ err x
      → run_replay faults env config nodes registry lines s w ≡ (err x, s, clear_stop w)
  unfolding run_replay
  run_refused registry lines x s w p = rw (p, run_replay) refl

  -- How `run_replay` ends, by how the scenario was parsed and how the log is opened.
  abbrev pub Ends :
      Result (List (Action × Bool))
      → LogFile
      → Engine Action
      → World
      → Result (Unit {0}) × Engine Action × World
      → Type 0
  Ends (err x) f s w r = r ≡ (err x, s, clear_stop w)
  Ends (ok cs) writable s w r = (w' : World) × (r ≡ (ok tt, record s { log_open = false }, w'))
  Ends (ok cs) no_file s w r = r ≡ (err os_error, s, clear_stop w)
  Ends (ok cs) no_space s w r = r ≡ (err os_error, record s { log_open = true }, clear_stop w)

  parsed_lem :
      (f : LogFile) (cs : List (Action × Bool)) (s : Engine Action) (w : World)
      → env.log_file (clear_stop w).trace ≡ f
      → Ends (ok cs) f s w (replay cs s (clear_stop w))
  unfolding open_log open_as
  parsed_lem writable cs s w h = let (w', e, rec) = replay_lem cs s (clear_stop w) h in (w', e)
  parsed_lem no_file cs s w h = rw h refl
  parsed_lem no_space cs s w h = rw h refl

  -- A replay clears the stop event first. If `_parse_log` refuses the file, it raises the exception
  -- of that; if the log cannot be opened, or its first lines cannot be written, it raises an
  -- OSError, in the latter case with the log left open; and nothing else has happened then.
  -- Otherwise it returns and closes the log, whatever its actions raise and whenever it is stopped,
  -- and changes no other field of the engine, if every further line of the log can be written.
  pub run_replay-Ends :
      (registry : Registry Class) (lines : List Text) (s : Engine Action) (w : World)
      → Ends
          (parse_log faults registry nodes lines)
          (env.log_file (clear_stop w).trace)
          s
          w
          (run_replay faults env config nodes registry lines s w)
  run_replay-Ends registry lines s w = elim (Result-cases (parse_log faults registry nodes lines)) [
    | inl (cs, e) ↦
        rw (e, run_parsed registry lines cs s w e)
          (parsed_lem (env.log_file (clear_stop w).trace) cs s w refl)
    | inr (x, e) ↦ rw e (run_refused registry lines x s w e)
  ]

  -- What a replay that is not stopped has written: the header, and a line for each command.
  pub run_replay-Records :
      (registry : Registry Class) (lines : List Text) (cs : List (Action × Bool))
      (s : Engine Action) (w : World)
      → parse_log faults registry nodes lines ≡ ok cs
      → env.log_file (clear_stop w).trace ≡ writable
      → is_set env (run_replay faults env config nodes registry lines s w).2 ≡ false
      → (t : List Event) × (ls : List Text) × (written
            (run_replay faults env config nodes registry lines s w).2.trace
          ≡ (written w.trace ++ header faults env config nodes (env.timestamp t)) ++ ls)
        × Records faults env config nodes cs ls
  run_replay-Records registry lines cs s w p f go =
      let (w', e, rec) = replay_lem cs s (clear_stop w) f in
      let same : run_replay faults env config nodes registry lines s w
          ≡ (ok tt, record s { log_open = false }, w') =
        run_parsed registry lines cs s w p ∙ e in
      rw (same, ← written-snoc w cleared refl) (rec (ap (λ r. is_set env r.2) (sym same) ∙ go))
