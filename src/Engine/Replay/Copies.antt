-- ===== src/Engine/Replay/Copies.antt =====
-- faults/engine.py with faults/actions.py: the log of a replay is a copy of the scenario.
use faultstorm.Prelude.{
  ◌≡◌, refl, Bool, true, false, ◌&&◌, List, [], ◌∷◌, ◌++◌, ok, All, map, arith,
}
use faultstorm.Text.{Text, strip, lstrip, rstrip, is_space}
use faultstorm.Config.{TestConfig}
use faultstorm.Effects.{Event, Env, World, writable, clear_stop, is_set}
use faultstorm.Effects.Grows.{written}
use faultstorm.Actions.Base.{Nodes}
use faultstorm.Actions.Halves
use faultstorm.Actions.Ring
use faultstorm.Actions.Node
use faultstorm.Actions.Subnet
use faultstorm.Actions.Datacenter
use faultstorm.Actions.Freeze.Single
use faultstorm.Actions.Freeze.Group
use faultstorm.Actions.Builtin.{Class, Action, class_of, healable, heal}
use faultstorm.Actions.Resolved.{IsResolved, as_logged, nodes_of}
use faultstorm.Actions.Registry.{Registry, create_default_registry}
use faultstorm.Engine.Builtin.{builtin}
use faultstorm.Engine.State.{Engine, newline}
use faultstorm.Engine.Scenario.{parse_line, parse_log}
use faultstorm.Engine.Scenario.Lines.{IsStamp}
use faultstorm.Engine.Scenario.RoundTrip.{parse_line-action_line}
use faultstorm.Engine.Replay.{run_replay}
use faultstorm.Engine.Replay.Runs.{Records, header, seen}
use faultstorm.Engine.Replay.Ends.{run_replay-Records}

-- A command as the log keeps it: only an action that can be healed is read as healed.
abbrev pub logged_command : Action × Bool → Action × Bool
logged_command (a, is_heal) = (as_logged a, healable (class_of a) && is_heal)

-- A command that a log line can hold.
abbrev pub IsPlain : Nodes → Action × Bool → Type 0
IsPlain nodes (a, is_heal) = IsResolved a × (nodes_of a ≡ nodes)

-- No `heal` changes the object.
heal_lem : (env : Env) (a : Action) (w : World) → (heal env a w).1 ≡ a
unfolding heal Halves.heal Ring.heal Node.heal Subnet.heal Subnet.heal_on Datacenter.heal
    Single.heal Single.heal_on Group.heal
heal_lem env (Action.wait a) w = refl
heal_lem env (Action.kill a) w = refl
heal_lem env (Action.halves a) w = refl
heal_lem env (Action.ring a) w = refl
heal_lem env (Action.node a) w = ground arith
heal_lem env (Action.subnet a) w = ground arith
heal_lem env (Action.dc a) w = refl
heal_lem env (Action.freeze a) w = ground arith
heal_lem env (Action.freeze_group a) w = refl

module _ (registry : Registry Class) (nodes : Nodes) where
  comment_lem : (s : Text) → parse_line builtin registry nodes (b'#' ∷ s) ≡ ok []
  unfolding parse_line strip lstrip rstrip is_space
  comment_lem s = refl

  blank_lem : parse_line builtin registry nodes (newline ∷ []) ≡ ok []
  unfolding parse_line strip lstrip rstrip is_space
  blank_lem = refl

  parse_log-cons :
      (l : Text) (ls : List Text) (cs ds : List (Action × Bool))
      → parse_line builtin registry nodes l ≡ ok cs
      → parse_log builtin registry nodes ls ≡ ok ds
      → parse_log builtin registry nodes (l ∷ ls) ≡ ok (cs ++ ds)
  unfolding parse_log
  parse_log-cons l ls cs ds e f = ground (arith, e, f)

module _ (env : Env) (config : TestConfig) (nodes : Nodes) (registry : Registry Class)
    (created : create_default_registry ≡ ok registry)
    (stamps : (t : List Event) → IsStamp (env.timestamp t)) where
  seen_lem : (a : Action) (h : Bool) (w : World) → seen builtin env config nodes a h w ≡ a
  seen_lem a true w = heal_lem env a w
  seen_lem a false w = refl

  parse_log-header :
      (now : Text) (ls : List Text) (cs : List (Action × Bool))
      → parse_log builtin registry nodes ls ≡ ok cs
      → parse_log builtin registry nodes (header builtin env config nodes now ++ ls) ≡ ok cs
  parse_log-header now ls cs e =
      let skip = parse_log-cons registry nodes in
      skip _ _ [] cs (comment_lem registry nodes _) (
        skip _ _ [] cs (comment_lem registry nodes _) (
          skip _ _ [] cs (comment_lem registry nodes _) (
            skip _ _ [] cs (comment_lem registry nodes _)
              (skip _ _ [] cs (blank_lem registry nodes) e))))

  parse_log-Records :
      (cs : List (Action × Bool)) (ls : List Text)
      → All (IsPlain nodes) cs
      → Records builtin env config nodes cs ls
      → parse_log builtin registry nodes ls ≡ ok (map logged_command cs)
  unfolding parse_log
  parse_log-Records [] [] p r = refl
  parse_log-Records [] (l ∷ ls) p r = elim r [ ]
  parse_log-Records (c ∷ cs) [] p r = elim r [ ]
  parse_log-Records ((a, h) ∷ cs) (l ∷ ls) p ((t, w, e), r) =
      parse_log-cons registry nodes l ls (logged_command (a, h) ∷ []) (map logged_command cs)
        (rw (e, seen_lem a h w)
          (parse_line-action_line env registry nodes created (env.timestamp t) a h (stamps t) p.0.0
            p.0.1))
        (parse_log-Records cs ls p.1 r)

  -- The log that a replay leaves is read as the commands that it replayed, except that a kill
  -- forgets its pool of process names, and that an action that cannot be healed is not read as a
  -- heal. This holds for the registry that `create_default_registry` returns, if every time is as
  -- the pattern of `_TIMESTAMP_RE` takes it, nothing was written before, the log can be opened, the replay is
  -- not stopped before its end, and the commands are plain: their choices are made, their names are not empty
  -- and hold no white space and no comma, their ranges are not negative, and they are for the
  -- nodes of the engine.
  pub run_replay-parse_log :
      (lines : List Text) (cs : List (Action × Bool)) (s : Engine Action) (w : World)
      → parse_log builtin registry nodes lines ≡ ok cs
      → All (IsPlain nodes) cs
      → written w.trace ≡ []
      → env.log_file (clear_stop w).trace ≡ writable
      → is_set env (run_replay builtin env config nodes registry lines s w).2 ≡ false
      → parse_log builtin registry nodes
          (written (run_replay builtin env config nodes registry lines s w).2.trace)
        ≡ ok (map logged_command cs)
  run_replay-parse_log lines cs s w p plain fresh opened go =
      let (t, ls, e, rec) =
        run_replay-Records builtin env config nodes registry lines cs s w p opened go in
      rw (e, fresh)
        (parse_log-header (env.timestamp t) ls (map logged_command cs)
          (parse_log-Records cs ls plain rec))
