-- ===== src/Load/History/Runs.antt =====
-- load_generator.py: every schedule keeps the invariant of the log.
use faultstorm.Prelude.{
  ℕ, ℤ, ◌≡◌, refl, Bool, true, false, List, [], ◌∷◌, Option, none, some, inl, inr, pos, Result, ok,
  err, Exception, timeout_error, if◌then◌else◌, get_elem?, arith,
}
use faultstorm.Text.{Text}
use faultstorm.Checker.Consistency.{fail, info, add_op, num}
use faultstorm.Load.Client.{DatabaseClient}
use faultstorm.Load.Generator.{
  LoadGenerator, LogEvent, log_event, get_next_value, get_next_node, add_failed, add_concludes,
  read_concludes,
}
use faultstorm.Load.Threads.{
  Pc, ready, going, sleeping, finished, numbered, invoked, late, performed, answered, Main, writing,
  joining, draining, reading, pausing, done, chosen, asked, overdue, fetched, replied, raised,
  Timing, in_time, too_late, Move, writer, daemon, main, stop, Shared, System, put, stop_is,
  next_read, abandon, drain_pending, advance, continue, threads, write_by, step, run, start,
  reached,
}
use faultstorm.Load.History.{IsHistory, holds, flies, Inv}
use faultstorm.Load.History.Moves.{
  IsOutcome, keep-Inv, number-Inv, invoke-Inv, conclude-Inv, other-Inv,
}

module _ (client : DatabaseClient) (clock : List LogEvent → ℕ) where
  open client use {Db, get_db_nodes, is_definite_failure}

  abbrev pub After : ℕ → Pc × Shared Db → (ℕ → Pc) → Type 0
  After i r f = Inv r.1.generator.counter r.1.log (put f i r.0)

  type_lem :
      (b : Bool) (v : ℕ) (n : Text) (x : Option Exception) (ts : ℕ)
      → IsOutcome
          (record {
            type = if b then fail else info;
            action = add_op;
            value = num (pos v);
            timestamp = ts;
            node = n;
            error = x;
          })
          v
  type_lem true v n x ts = record { outcome = λ u. refl; no_invoke = λ u. refl }
  type_lem false v n x ts = record { outcome = λ u. refl; no_invoke = λ u. refl }

  add_failed_lem :
      (x : Exception) (v : ℕ) (n : Text) (log : List LogEvent)
      → (e : LogEvent) × (add_failed client clock x v n log ≡ e ∷ log) × IsOutcome e v
  unfolding add_failed log_event
  add_failed_lem timeout_error v n log =
      (_, refl, record { outcome = λ u. refl; no_invoke = λ u. refl })
  add_failed_lem x v n log = (_, refl, type_lem (is_definite_failure x) v n (some x) (clock log))

  add_concludes_lem :
      (r : Result (Unit {0})) (v : ℕ) (n : Text) (log : List LogEvent)
      → (e : LogEvent) × (add_concludes client clock r v n log ≡ e ∷ log) × IsOutcome e v
  unfolding add_concludes log_event
  add_concludes_lem (ok _) v n log =
      (_, refl, record { outcome = λ u. refl; no_invoke = λ u. refl })
  add_concludes_lem (err x) v n log = add_failed_lem x v n log

  concludes-Inv :
      (i c v : ℕ) (r : Result (Unit {0})) (n : Text) (log : List LogEvent) (f : ℕ → Pc)
      → flies (f i) ≡ some v
      → Inv c log f
      → Inv c (add_concludes client clock r v n log) (put f i sleeping)
  concludes-Inv i c v r n log f h inv =
      let (e, same, o) = add_concludes_lem r v n log in rw same (conclude-Inv i c v e log f o h inv)

  advance-Inv :
      (n : Text) (t : Timing) (i : ℕ) (f : ℕ → Pc) (p : Pc) (s : Shared Db)
      → f i ≡ p
      → Inv s.generator.counter s.log f
      → After i (advance client clock n t p s) f
  unfolding advance get_next_value log_event abandon
  advance-Inv n t i f ready s e inv =
      keep-Inv i s.generator.counter s.log f _ (inr (ground arith)) inv
  advance-Inv n t i f going s e inv = number-Inv i s.generator.counter s.log f inv
  advance-Inv n t i f (numbered w) s e inv =
      invoke-Inv i s.generator.counter w _ s.log f
        (record { invoked_it = λ u. refl; no_outcome = λ u. refl }) e inv
  advance-Inv n in_time i f (invoked w) s e inv =
      keep-Inv i s.generator.counter s.log f _ (inl (ground arith)) inv
  advance-Inv n too_late i f (invoked w) s e inv =
      keep-Inv i s.generator.counter s.log f _ (inl (ground arith)) inv
  advance-Inv n in_time i f (performed w r) s e inv =
      keep-Inv i s.generator.counter s.log f _ (inl (ground arith)) inv
  advance-Inv n too_late i f (performed w r) s e inv =
      keep-Inv i s.generator.counter s.log f _ (inl (ground arith)) inv
  advance-Inv n t i f sleeping s e inv =
      keep-Inv i s.generator.counter s.log f _ (inr (ground arith)) inv
  advance-Inv n t i f finished s e inv =
      keep-Inv i s.generator.counter s.log f _ (inr (ground arith)) inv
  advance-Inv n t i f (late w) s e inv =
      concludes-Inv i s.generator.counter w (err timeout_error) n s.log f (ground arith) inv
  advance-Inv n t i f (answered w r) s e inv =
      concludes-Inv i s.generator.counter w r n s.log f (ground arith) inv

  read_concludes-Inv :
      (r : Result (List ℤ)) (n : Text) (c : ℕ) (log : List LogEvent) (f : ℕ → Pc)
      → Inv c log f
      → Inv c (read_concludes client clock r n log) f
  unfolding read_concludes log_event
  read_concludes-Inv (ok vs) n c log f inv = other-Inv c _ log f (λ p u. refl) inv
  read_concludes-Inv (err x) n c log f inv = other-Inv c _ log f (λ p u. refl) inv

  get_next_node_lem :
      (ns : List Text) (g : LoadGenerator) → (get_next_node ns g).1.counter ≡ g.counter
  unfolding get_next_node
  get_next_node_lem [] g = refl
  get_next_node_lem (n ∷ ns) g = refl

  abbrev Keeps : Main × Shared Db → (ℕ → Pc) → Type 0
  Keeps r f = Inv r.1.generator.counter r.1.log f

  if-Keeps :
      (b : Bool) (x y : Main × Shared Db) (f : ℕ → Pc)
      → Keeps x f
      → Keeps y f
      → Keeps (if b then x else y) f
  if-Keeps true x y f h k = h
  if-Keeps false x y f h k = k

  continue-Inv :
      (joined : Bool) (t : Timing) (m : Main) (s : Shared Db) (f : ℕ → Pc)
      → Inv s.generator.counter s.log f
      → Keeps (continue client clock joined t m s) f
  unfolding continue log_event abandon drain_pending
  continue-Inv joined t writing s f inv = inv
  continue-Inv joined t joining s f inv =
      if-Keeps joined (draining, drain_pending s) (joining, s) f inv inv
  continue-Inv joined t draining s f inv = inv
  continue-Inv joined too_late reading s f inv = inv
  continue-Inv joined in_time reading s f inv =
      let (r, g) = get_next_node get_db_nodes s.generator in
      if-Keeps (stop_is s) (done, s) (next_read client clock r, record s { generator = g }) f inv
        (rw (get_next_node_lem get_db_nodes s.generator) inv)
  continue-Inv joined t (chosen n) s f inv = other-Inv _ _ s.log f (λ p u. refl) inv
  continue-Inv joined in_time (asked n) s f inv = inv
  continue-Inv joined too_late (asked n) s f inv = inv
  continue-Inv joined in_time (fetched n r) s f inv = inv
  continue-Inv joined too_late (fetched n r) s f inv = inv
  continue-Inv joined t (replied n r) s f inv = read_concludes-Inv r n _ s.log f inv
  continue-Inv joined t (overdue n) s f inv = read_concludes-Inv (err timeout_error) n _ s.log f inv
  continue-Inv joined t pausing s f inv = inv
  continue-Inv joined t done s f inv = inv
  continue-Inv joined t (raised e) s f inv = inv

  module _ (per_node : ℕ) where
    abbrev Holds : System Db → Type 0
    Holds s = Inv s.shared.generator.counter s.shared.log s.writers

    write_by-Inv :
        (o : Option Text) (i : ℕ) (t : Timing) (s : System Db)
        → Holds s
        → Holds (write_by client clock per_node o i t s)
    write_by-Inv none i t s inv = inv
    write_by-Inv (some n) i t s inv = advance-Inv n t i s.writers (s.writers i) s.shared refl inv

    pub step-Inv : (m : Move) (s : System Db) → Holds s → Holds (step client clock per_node m s)
    unfolding step
    step-Inv (writer i t) s inv =
        write_by-Inv (get_elem? (threads client clock per_node) i) i t s inv
    step-Inv (daemon k) s inv = inv
    step-Inv (main t) s inv = continue-Inv _ t s.main s.shared s.writers inv
    step-Inv stop s inv = inv

    run-Inv_from :
        (ms : List Move) (s : System Db) → Holds s → Holds (run client clock per_node ms s)
    unfolding run
    run-Inv_from [] s inv = inv
    run-Inv_from (m ∷ ms) s inv =
        run-Inv_from ms (step client clock per_node m s) (step-Inv m s inv)

    pub run-Inv : (ms : List Move) (d : Db) → Holds (reached client clock per_node ms d)
    run-Inv ms d = run-Inv_from ms (start client clock d) (record {
      below = λ i v h. cc;
      distinct = λ i j v h k. cc;
      fresh = λ i v h. cc;
      flying = λ i v h. cc;
      known = λ v h. cc;
      settled = λ v h. cc;
      history = tt;
    })

    -- In the operations log of every schedule, no value is invoked twice, and an outcome of an add
    -- stands behind the INVOKE of its value and is the only one.
    pub run-IsHistory :
        (ms : List Move) (d : Db) → IsHistory (reached client clock per_node ms d).shared.log
    run-IsHistory ms d = (run-Inv ms d).history

    -- In every schedule, a value is worked on by one writer at most.
    pub run-distinct :
        (ms : List Move) (d : Db) (i j v : ℕ)
        → holds ((reached client clock per_node ms d).writers i) ≡ some v
        → holds ((reached client clock per_node ms d).writers j) ≡ some v
        → i ≡ j
    run-distinct ms d = (run-Inv ms d).distinct
