-- ===== src/Engine/State.antt =====
-- faults/engine.py: the fields of FaultEngine, its ordinals, its scenario log, and
-- `_log_and_execute`.
use faultstorm.Prelude.{
  ℕ, ◌+◌, Bool, true, false, List, [], ◌∷◌, ◌++◌, ℤ, pos, ok, os_error, is_empty, if◌then◌else◌,
}
use faultstorm.Text.{Text, codes}
use faultstorm.Effects.{Env, LogFile, writable, no_file, no_space, wrote, emit}
use faultstorm.Effects.Methods.{Method, self, modify, lift, return, throw, ◌>>=◌, ◌>>◌}
use faultstorm.Actions.Base.{Nodes}
use faultstorm.Engine.Faults.{Faults}

-- `log_open` says that `_log_file` is not None.
pub record Engine (A : Type 0) : Type 0 where
  pub active_faults : List A
  pub next_ordinal : ℕ
  pub destructive_count : ℤ
  pub log_open : Bool

abbrev pub new_engine : {A : Type 0} → Engine A
new_engine = record {
  active_faults = [];
  next_ordinal = 0;
  destructive_count = pos 0;
  log_open = false;
}

abbrev pub newline : ℕ
newline = 10

module _ (faults : Faults) (env : Env) where
  open faults use {Action, class_of, name, healable, serialize, execute, wait_for}

  -- `_get_next_ordinal`
  unfoldable pub get_next_ordinal : Method (Engine Action) ℤ
  get_next_ordinal = do
    modify λ e. record e { next_ordinal = e.next_ordinal + 1 }
    e ← self
    return (pos e.next_ordinal)

  abbrev pub put_line : Text → Method (Engine Action) (Unit {0})
  put_line line = lift (emit (wrote (line ++ newline ∷ [])))

  -- `_open_log`, when the file is as it is; lines that cannot be written stay in the buffer.
  unfoldable pub open_as : LogFile → Method (Engine Action) (Unit {0})
  unfolding emit
  open_as no_file = throw os_error
  open_as no_space = do modify λ e. record e { log_open = true }; throw os_error
  open_as writable = do
    modify λ e. record e { log_open = true }
    put_line (codes "# FaultStorm scenario log")
    (λ e w. put_line (codes "# Generated at " ++ env.timestamp w.trace) e w)
    put_line (codes "#")
    put_line (codes "# Replay with: python main.py --replay-scenario <this_file>")
    put_line []

  unfoldable pub open_log : Method (Engine Action) (Unit {0})
  unfolding open_as
  open_log e w = open_as (env.log_file w.trace) e w

  -- `_close_log`
  unfoldable pub close_log : Method (Engine Action) (Unit {0})
  close_log = modify λ e. record e { log_open = false }

  abbrev pub prefix : Bool → Bool → Text
  prefix true true = codes "-"
  prefix true false = codes "+"
  prefix false healing = []

  -- The line of `_write_action`, without its newline.
  unfoldable pub action_line : Text → Action → Bool → Text
  action_line now a healing =
      let params = serialize a in
      let called = prefix (healable (class_of a)) healing ++ name (class_of a) in
      codes "["
      ++ (now ++ (codes "] " ++ (called ++ (if is_empty params then [] else (b' ' ∷ params)))))

  -- `_write_action`
  unfoldable pub write_action : Action → Bool → Method (Engine Action) (Unit {0})
  unfolding emit
  write_action a healing e w =
      if e.log_open
      then put_line (action_line (env.timestamp w.trace) a healing) e w
      else (ok tt, e, w)

  -- `try: action.execute(…)` / `except Exception`; the object that `execute` changed is returned
  unfoldable pub try_execute : Action → Method (Engine Action) Action
  try_execute a e w = let (r, a', w') = execute env a w in (ok a', e, w')

  -- `_log_and_execute`
  unfoldable pub log_and_execute : Action → Method (Engine Action) Action
  unfolding write_action try_execute
  log_and_execute a = do write_action a false; try_execute a

  -- `self._log_and_execute(WaitAction(db, extra, self._get_next_ordinal(), …, seconds=seconds))`
  unfoldable pub wait : Nodes → ℕ → Method (Engine Action) (Unit {0})
  unfolding get_next_ordinal log_and_execute
  wait nodes seconds = do
    o ← get_next_ordinal
    log_and_execute (wait_for nodes o (pos seconds))
    return tt
