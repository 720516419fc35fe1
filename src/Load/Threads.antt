-- ===== src/Load/Threads.antt =====
-- load_generator.py: the writer threads, the threads that timed out, and the thread that runs the
-- phases. A move is what one thread does up to the next place where another can see it; a schedule
-- is a list of moves.
use faultstorm.Prelude.{
  ℕ, ℤ, zero, suc, Bool, true, false, ◌&&◌, List, [], ◌∷◌, ◌++◌, Option, none, some, pos, Result,
  ok, err, Exception, timeout_error, if◌then◌else◌, length, get_elem?, ◌==◌, nat_eq,
}
use faultstorm.Text.{Text}
use faultstorm.Checker.Consistency.{invoke, add_op, read_op, null, num}
use faultstorm.Load.Client.{DatabaseClient}
use faultstorm.Load.Generator.{
  LoadGenerator, new_generator, get_next_value, get_next_node, LogEvent, log_event, add_concludes,
  read_concludes,
}

-- The function that a thread of `_run_with_timeout` runs.
pub data Task : Type 0 where
  add_task : Text → ℕ → Task
  read_task : Text → Task

-- A thread whose caller has timed out; `performed` says that the database has seen its call.
pub record Daemon : Type 0 where
  pub task : Task
  pub performed : Bool

-- Where a writer is in `_writer_loop` and in the calls below it: at the test of the loop, before
-- `_get_next_value`, before the INVOKE, while the database has not seen the call, while the call
-- has an outcome but has not returned, after `done_event.wait`, which returned True or False, and
-- in the wait behind `add`.
pub data Pc : Type 0 where
  ready going sleeping finished : Pc
  numbered invoked late : ℕ → Pc
  performed answered : ℕ → Result (Unit {0}) → Pc

-- Where the thread is that runs `run_write_phase` and then `run_read_phase`.
pub data Main : Type 0 where
  writing joining draining reading pausing done : Main
  chosen asked overdue : Text → Main
  fetched replied : Text → Result (List ℤ) → Main
  raised : Exception → Main

-- Whether what a timer waits for happens before its timeout.
pub data Timing : Type 0 where
  in_time too_late : Timing

pub data Move : Type 0 where
  writer : ℕ → Timing → Move
  daemon : ℕ → Move
  main : Timing → Move
  stop : Move

-- What the threads share.
pub record Shared (Db : Type 0) : Type 0 where
  pub generator : LoadGenerator
  pub log : List LogEvent
  pub db : Db
  pub daemons : List Daemon

pub record System (Db : Type 0) : Type 0 where
  pub shared : Shared Db
  pub writers : ℕ → Pc
  pub main : Main

module _ {Db : Type 0} where
  abbrev pub stop_is : Shared Db → Bool
  stop_is s = s.generator.stop_event

  abbrev pub set_stop : Bool → Shared Db → Shared Db
  set_stop b s = record s { generator = record s.generator { stop_event = b } }

  -- `self._pending_threads.append(t)`
  unfoldable pub abandon : Task → Bool → Shared Db → Shared Db
  abandon t seen s = record s {
    daemons = s.daemons ++ record { task = t; performed = seen } ∷ [];
    generator = record s.generator {
      pending_threads = s.generator.pending_threads ++ length s.daemons ∷ [];
    };
  }

  -- The list is cleared; the joins of `drain_pending` end by themselves, or after their timeout.
  unfoldable pub drain_pending : Shared Db → Shared Db
  drain_pending s = record s { generator = record s.generator { pending_threads = [] } }

-- `for node in nodes: for i in range(self.config.writers_per_node)`
abbrev pub copies : ℕ → Text → List Text → List Text
copies zero n ns = ns
copies (suc k) n ns = n ∷ copies k n ns

unfoldable pub writer_nodes : ℕ → List Text → List Text
writer_nodes per_node [] = []
writer_nodes per_node (n ∷ ns) = copies per_node n (writer_nodes per_node ns)

abbrev pub is_finished : Pc → Bool
is_finished finished = true
is_finished _ = false

-- Whether `t.join()` returns for each of the first `n` threads.
unfoldable pub all_finished : ℕ → (ℕ → Pc) → Bool
all_finished zero f = true
all_finished (suc n) f = is_finished (f n) && all_finished n f

abbrev pub put : {A : Type 0} → (ℕ → A) → ℕ → A → ℕ → A
put f i a j = if i == j then a else f j

module _ (client : DatabaseClient) (clock : List LogEvent → ℕ) where
  open client use {Db, get_db_nodes, add, read}

  -- `_writer_loop`, with `add` and `_run_with_timeout`
  unfoldable pub advance : Text → Timing → Pc → Shared Db → Pc × Shared Db
  unfolding get_next_value log_event abandon add_concludes
  advance n t ready s = (if stop_is s then finished else going, s)
  advance n t going s =
      let (v, g) = get_next_value s.generator in (numbered v, record s { generator = g })
  advance n t (numbered v) s =
      (invoked v, record s { log = log_event clock invoke add_op (num (pos v)) n none s.log })
  advance n in_time (invoked v) s =
      let (r, d) = add n v s.db in (performed v r, record s { db = d })
  advance n too_late (invoked v) s = (late v, abandon (add_task n v) false s)
  advance n in_time (performed v r) s = (answered v r, s)
  advance n too_late (performed v r) s = (late v, abandon (add_task n v) true s)
  advance n t (answered v r) s =
      (sleeping, record s { log = add_concludes client clock r v n s.log })
  advance n t (late v) s =
      (sleeping, record s { log = add_concludes client clock (err timeout_error) v n s.log })
  advance n t sleeping s = (if stop_is s then finished else ready, s)
  advance n t finished s = (finished, s)

  -- The call of a thread whose caller does not wait any more.
  unfoldable pub perform : Task → Db → Db
  perform (add_task n v) d = (add n v d).1
  perform (read_task n) d = (read n d).1

  unfoldable pub perform_at : ℕ → List Daemon → Db → List Daemon × Db
  unfolding perform
  perform_at k [] d = ([], d)
  perform_at zero (t ∷ ts) d =
      (record t { performed = true } ∷ ts, if t.performed then d else perform t.task d)
  perform_at (suc k) (t ∷ ts) d = let (ts', d') = perform_at k ts d in (t ∷ ts', d')

  abbrev pub next_read : Result Text → Main
  next_read (ok n) = chosen n
  next_read (err e) = raised e

  -- `run_write_phase` behind the start of the threads, then `run_read_phase` with `read`; `joined`
  -- says that all writers have finished
  unfoldable pub continue : Bool → Timing → Main → Shared Db → Main × Shared Db
  unfolding drain_pending get_next_node log_event abandon read_concludes
  continue joined t writing s = (joining, set_stop true s)
  continue joined t joining s = if joined then (draining, drain_pending s) else (joining, s)
  continue joined t draining s = (reading, set_stop false s)
  continue joined too_late reading s = (done, s)
  continue joined in_time reading s =
      let (r, g) = get_next_node get_db_nodes s.generator in
      if stop_is s then (done, s) else (next_read r, record s { generator = g })
  continue joined t (chosen n) s =
      (asked n, record s { log = log_event clock invoke read_op null n none s.log })
  continue joined in_time (asked n) s =
      let (r, d) = read n s.db in (fetched n r, record s { db = d })
  continue joined too_late (asked n) s = (overdue n, abandon (read_task n) false s)
  continue joined in_time (fetched n r) s = (replied n r, s)
  continue joined too_late (fetched n r) s = (overdue n, abandon (read_task n) true s)
  continue joined t (replied n r) s =
      (pausing, record s { log = read_concludes client clock r n s.log })
  continue joined t (overdue n) s =
      (pausing, record s { log = read_concludes client clock (err timeout_error) n s.log })
  continue joined t pausing s = (if stop_is s then done else reading, s)
  continue joined t done s = (done, s)
  continue joined t (raised e) s = (raised e, s)

  -- The system when the write phase starts, on a database that is set up.
  abbrev pub start : Db → System Db
  start d = record {
    shared = record { generator = new_generator; log = []; db = d; daemons = [] };
    writers = λ i. ready;
    main = writing;
  }

  module _ (per_node : ℕ) where
    abbrev pub threads : List Text
    threads = writer_nodes per_node get_db_nodes

    abbrev pub write_by : Option Text → ℕ → Timing → System Db → System Db
    write_by none i t s = s
    write_by (some n) i t s =
        let (pc, shared) = advance n t (s.writers i) s.shared in
        record s { writers = put s.writers i pc; shared = shared }

    unfoldable pub step : Move → System Db → System Db
    unfolding advance perform_at continue all_finished
    step (writer i t) s = write_by (get_elem? threads i) i t s
    step (daemon k) s =
        let (ts, d) = perform_at k s.shared.daemons s.shared.db in
        record s { shared = record s.shared { daemons = ts; db = d } }
    step (main t) s =
        let (m, shared) = continue (all_finished (length threads) s.writers) t s.main s.shared in
        record s { main = m; shared = shared }
    step stop s = record s { shared = set_stop true s.shared }

    unfoldable pub run : List Move → System Db → System Db
    unfolding step
    run [] s = s
    run (m ∷ ms) s = run ms (step m s)

    -- The system behind a schedule.
    abbrev pub reached : List Move → Db → System Db
    reached ms d = run ms (start d)
