-- ===== src/Engine/Steps.antt =====
-- faults/engine.py: the steps that cannot raise, `_write_action`, `_log_and_execute` and the waits,
-- by what they leave of the engine and of the world.
use faultstorm.Prelude.{
  ℕ, suc, ◌+◌, ◌≤◌, ◌≡◌, refl, Bool, true, false, [], ◌∷◌, ◌++◌, pos, ok, err, os_error, ◌⊎◌, inl,
  inr, arith, length, length-append,
}
use faultstorm.Effects.{Env, World, LogFile, writable, no_file, no_space, wrote, emit}
use faultstorm.Actions.Base.{Nodes}
use faultstorm.Engine.Faults.{Faults}
use faultstorm.Engine.State.{
  Engine, get_next_ordinal, newline, action_line, write_action, try_execute, log_and_execute, wait,
  open_log, open_as,
}

-- Whether the log is open behind `_open_log`, and `_close_log` if the former returned.
abbrev pub left_open : LogFile → Bool → Bool
left_open writable before = false
left_open no_file before = before
left_open no_space before = true

module _ (faults : Faults) (env : Env) where
  open faults use {
    Class, Action, class_of, ordinal_of, execute, execute_grows, execute_class, execute_ordinal,
    wait_for, wait_grows,
  }

  pub write_action_lem :
      (a : Action) (healing : Bool) (s : Engine Action) (w : World)
      → (w' : World) × (write_action faults env a healing s w ≡ (ok tt, s, w'))
        × (length w.trace ≤ length w'.trace)
  unfolding write_action emit
  write_action_lem a healing s w = (
    (write_action faults env a healing s w).2,
    ground arith,
    ground (
      arith,
      length-append w.trace
          (wrote (action_line faults env (env.timestamp w.trace) a healing ++ newline ∷ []) ∷ []),
    ),
  )

  -- The action is executed in the world that has its line.
  log_and_execute-eq :
      (a : Action) (s : Engine Action) (w : World)
      → (w' : World) × (log_and_execute faults env a s w
          ≡ (ok (execute env a w').1, s, (execute env a w').2))
        × (length w.trace ≤ length w'.trace)
  unfolding log_and_execute try_execute
  log_and_execute-eq a s w = let (w', e, h) = write_action_lem a false s w in (w', rw e, h)

  pub log_and_execute_lem :
      (a : Action) (s : Engine Action) (w : World)
      → (a' : Action) × (w' : World) × (log_and_execute faults env a s w ≡ (ok a', s, w'))
        × (length w.trace ≤ length w'.trace)
        × (class_of a' ≡ class_of a)
        × (ordinal_of a' ≡ ordinal_of a)
  log_and_execute_lem a s w =
      let (w', e, h) = log_and_execute-eq a s w in
      (
        (execute env a w').1,
        (execute env a w').2,
        e,
        omega (arith, execute_grows env a w'),
        execute_class env a w',
        execute_ordinal env a w',
      )

  -- A wait takes the next ordinal, and is seen.
  pub wait_lem :
      (nodes : Nodes) (n : ℕ) (s : Engine Action) (w : World)
      → (w' : World) × (wait faults env nodes n s w
          ≡ (ok tt, record s { next_ordinal = s.next_ordinal + 1 }, w'))
        × (suc (length w.trace) ≤ length w'.trace)
  unfolding wait get_next_ordinal
  wait_lem nodes n s w =
      let s' = record s { next_ordinal = s.next_ordinal + 1 } in
      let a = wait_for nodes (pos (s.next_ordinal + 1)) (pos n) in
      let (w', e, h) = log_and_execute-eq a s' w in
      (
        (execute env a w').2,
        rw e,
        omega (arith, wait_grows env nodes (pos (s.next_ordinal + 1)) (pos n) w'),
      )

  pub open_log_lem :
      (s : Engine Action) (w : World)
      → ((w' : World) × (open_log faults env s w ≡ (ok tt, record s { log_open = true }, w'))
          × (env.log_file w.trace ≡ writable))
        ⊎ (open_log faults env s w ≡ (
          err os_error,
          record s { log_open = left_open (env.log_file w.trace) s.log_open },
          w,
        ))
  unfolding open_log
  open_log_lem s w = by_file (env.log_file w.trace)
    where
      by_file :
          (f : LogFile)
          → ((w' : World) × (open_as faults env f s w ≡ (ok tt, record s { log_open = true }, w'))
              × (f ≡ writable))
            ⊎ (open_as faults env f s w
                ≡ (err os_error, record s { log_open = left_open f s.log_open }, w))
      by_file writable = unfold open_as in inl ((open_as faults env writable s w).2, refl, refl)
      by_file no_file = unfold open_as in inr refl
      by_file no_space = unfold open_as in inr refl
