-- ===== src/Load/Plain.antt =====
-- load_generator.py: every schedule logs its adds with natural values, whatever the database does.
use faultstorm.Prelude.{
  ℕ, ℤ, Bool, true, false, List, [], ◌∷◌, Option, none, some, ◌≡◌, refl, Result, ok, err, Exception,
  timeout_error, if◌then◌else◌, get_elem?, All,
}
use faultstorm.Text.{Text}
use faultstorm.Load.Client.{DatabaseClient}
use faultstorm.Load.Generator.{
  LogEvent, log_event, get_next_value, get_next_node, add_failed, add_concludes, read_concludes,
}
use faultstorm.Load.Threads.{
  Pc, ready, going, sleeping, finished, numbered, invoked, late, performed, answered, Main, writing,
  joining, draining, reading, pausing, done, chosen, asked, overdue, fetched, replied, raised,
  Timing, in_time, too_late, Move, writer, daemon, main, stop, Shared, System, stop_is, next_read,
  abandon, drain_pending, advance, continue, threads, write_by, step, run, start, reached,
}
use faultstorm.Load.Durable.{is_plain}

abbrev pub IsPlain : List LogEvent → Type 0
IsPlain = All (λ e. is_plain e ≡ true)

module _ (client : DatabaseClient) (clock : List LogEvent → ℕ) where
  open client use {Db, get_db_nodes}

  add_failed-IsPlain :
      (x : Exception) (v : ℕ) (n : Text) (log : List LogEvent)
      → IsPlain log
      → IsPlain (add_failed client clock x v n log)
  unfolding add_failed log_event
  add_failed-IsPlain timeout_error v n log h = (refl, h)
  add_failed-IsPlain x v n log h = (refl, h)

  add_concludes-IsPlain :
      (r : Result (Unit {0})) (v : ℕ) (n : Text) (log : List LogEvent)
      → IsPlain log
      → IsPlain (add_concludes client clock r v n log)
  unfolding add_concludes log_event
  add_concludes-IsPlain (ok _) v n log h = (refl, h)
  add_concludes-IsPlain (err x) v n log h = add_failed-IsPlain x v n log h

  read_concludes-IsPlain :
      (r : Result (List ℤ)) (n : Text) (log : List LogEvent)
      → IsPlain log
      → IsPlain (read_concludes client clock r n log)
  unfolding read_concludes log_event
  read_concludes-IsPlain (ok vs) n log h = (refl, h)
  read_concludes-IsPlain (err x) n log h = (refl, h)

  advance-IsPlain :
      (n : Text) (t : Timing) (p : Pc) (s : Shared Db)
      → IsPlain s.log
      → IsPlain (advance client clock n t p s).1.log
  unfolding advance get_next_value log_event abandon
  advance-IsPlain n t ready s h = h
  advance-IsPlain n t going s h = h
  advance-IsPlain n t (numbered v) s h = (refl, h)
  advance-IsPlain n in_time (invoked v) s h = h
  advance-IsPlain n too_late (invoked v) s h = h
  advance-IsPlain n in_time (performed v r) s h = h
  advance-IsPlain n too_late (performed v r) s h = h
  advance-IsPlain n t (answered v r) s h = add_concludes-IsPlain r v n s.log h
  advance-IsPlain n t (late v) s h = add_concludes-IsPlain (err timeout_error) v n s.log h
  advance-IsPlain n t sleeping s h = h
  advance-IsPlain n t finished s h = h

  if-IsPlain :
      (b : Bool) (x y : Main × Shared Db)
      → IsPlain x.1.log
      → IsPlain y.1.log
      → IsPlain (if b then x else y).1.log
  if-IsPlain true x y h k = h
  if-IsPlain false x y h k = k

  continue-IsPlain :
      (joined : Bool) (t : Timing) (m : Main) (s : Shared Db)
      → IsPlain s.log
      → IsPlain (continue client clock joined t m s).1.log
  unfolding continue log_event abandon drain_pending
  continue-IsPlain joined t writing s h = h
  continue-IsPlain joined t joining s h =
      if-IsPlain joined (draining, drain_pending s) (joining, s) h h
  continue-IsPlain joined t draining s h = h
  continue-IsPlain joined too_late reading s h = h
  continue-IsPlain joined in_time reading s h =
      let (r, g) = get_next_node get_db_nodes s.generator in
      if-IsPlain (stop_is s) (done, s) (next_read client clock r, record s { generator = g }) h h
  continue-IsPlain joined t (chosen n) s h = (refl, h)
  continue-IsPlain joined in_time (asked n) s h = h
  continue-IsPlain joined too_late (asked n) s h = h
  continue-IsPlain joined in_time (fetched n r) s h = h
  continue-IsPlain joined too_late (fetched n r) s h = h
  continue-IsPlain joined t (replied n r) s h = read_concludes-IsPlain r n s.log h
  continue-IsPlain joined t (overdue n) s h = read_concludes-IsPlain (err timeout_error) n s.log h
  continue-IsPlain joined t pausing s h = h
  continue-IsPlain joined t done s h = h
  continue-IsPlain joined t (raised e) s h = h

  module _ (per_node : ℕ) where
    write_by-IsPlain :
        (o : Option Text) (i : ℕ) (t : Timing) (s : System Db)
        → IsPlain s.shared.log
        → IsPlain (write_by client clock per_node o i t s).shared.log
    write_by-IsPlain none i t s h = h
    write_by-IsPlain (some n) i t s h = advance-IsPlain n t (s.writers i) s.shared h

    step-IsPlain :
        (m : Move) (s : System Db)
        → IsPlain s.shared.log
        → IsPlain (step client clock per_node m s).shared.log
    unfolding step
    step-IsPlain (writer i t) s h =
        write_by-IsPlain (get_elem? (threads client clock per_node) i) i t s h
    step-IsPlain (daemon k) s h = h
    step-IsPlain (main t) s h = continue-IsPlain _ t s.main s.shared h
    step-IsPlain stop s h = h

    run-IsPlain :
        (ms : List Move) (s : System Db)
        → IsPlain s.shared.log
        → IsPlain (run client clock per_node ms s).shared.log
    unfolding run
    run-IsPlain [] s h = h
    run-IsPlain (m ∷ ms) s h = run-IsPlain ms (step client clock per_node m s) (step-IsPlain m s h)

    pub reached-IsPlain :
        (ms : List Move) (d : Db) → IsPlain (reached client clock per_node ms d).shared.log
    reached-IsPlain ms d = run-IsPlain ms (start client clock d) tt
