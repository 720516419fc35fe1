-- ===== src/Load/Tests.antt =====
-- load_generator.py: the theorems on a database of two nodes, one of which fails each write after
-- it was made.
use faultstorm.Prelude.{
  ℕ, ◌≤◌, ◌<◌, ◌≡◌, refl, true, false, List, [], ◌∷◌, some, ok, err, map, ℤ, pos, negsuc,
  database_error, contains, length, arith, ◌==◌, nat_eq, int_eq, list_eq, if◌then◌else◌,
}
use faultstorm.Text.{Text, codes}
use faultstorm.Checker.Consistency.{CheckResult, check_consistency}
use faultstorm.Load.Client.{DatabaseClient}
use faultstorm.Load.Generator.{
  LogEvent, get_next_value, get_next_node, add_concludes, read_concludes, sorted, log_event,
}
use faultstorm.Load.Threads.{
  in_time, too_late, Move, writer, daemon, main, System, joining, numbered, ready, threads, reached,
  step, run, advance, start, writer_nodes, perform_at, continue, all_finished, abandon,
}
use faultstorm.Load.History.{IsHistory, holds}
use faultstorm.Load.History.Runs.{run-IsHistory, run-distinct}
use faultstorm.Load.Durable.{IsDurable, is_joined, newest_read}
use faultstorm.Load.Checked.{file_of, has_read, check_consistency-reached}
use faultstorm.Load.Detects.{Detects, check_consistency-Detects}
use faultstorm.Load.Joins.{moves_of, run-joins}

abbrev pg1 : Text
pg1 = codes "pg1"

abbrev pg2 : Text
pg2 = codes "pg2"

-- A write on the second node is made, and its caller gets an exception.
abbrev client : DatabaseClient
client = record {
  Db = List ℕ;
  get_db_nodes = pg1 ∷ pg2 ∷ [];
  setup = λ n d. (ok tt, []);
  add = λ n v d. (if n == pg1 then ok tt else err database_error, v ∷ d);
  read = λ n d. (ok (map (λ v. pos v) d), d);
  is_definite_failure = λ e. false;
}

written_lem : (v : ℕ) (d : List ℕ) → contains (v ∷ d) v ≡ true
written_lem v d = ground arith

kept_lem : (v u : ℕ) (d : List ℕ) → contains d u ≡ true → contains (v ∷ d) u ≡ true
kept_lem v u d h = ground arith

contains-pos : (u : ℕ) (d : List ℕ) → contains (map (λ v. pos v) d) (pos u) ≡ contains d u
contains-pos u [] = refl
contains-pos u (v ∷ d) = ground (arith, contains-pos u d)

contains-negsuc : (k : ℕ) (d : List ℕ) → contains (map (λ v. pos v) d) (negsuc k) ≡ false
contains-negsuc k [] = refl
contains-negsuc k (v ∷ d) = ground (arith, contains-negsuc k d)

same_values :
    (d : List ℕ) (vs : List ℤ)
    → ok (map (λ v. pos v) d) ≡ ok vs
    → ((u : ℕ) → contains vs (pos u) ≡ contains d u) × ((k : ℕ) → contains vs (negsuc k) ≡ false)
same_values d vs h =
    (λ u. ground (arith, contains-pos u d), λ k. ground (arith, contains-negsuc k d))

abbrev durable : IsDurable client
durable = record {
  has = λ d v. contains d v;
  add_written = λ n v d h. written_lem v d;
  add_keeps = λ n v u d h. kept_lem v u d h;
  add_only = λ n v u d h. h;
  read_keeps = λ n u d. refl;
  read_all = λ n d vs h. (same_values d vs h).0;
  read_only = λ n d vs h. (same_values d vs h).1;
}

abbrev clock : List LogEvent → ℕ
clock log = length log

-- Both writers begin; the first write is confirmed, and the second one times out before the
-- database has seen it, and is made during the reads.
abbrev schedule : List Move
schedule =
    writer 0 in_time
    ∷ writer 1 in_time
    ∷ writer 0 in_time
    ∷ writer 1 in_time
    ∷ writer 1 in_time
    ∷ writer 0 in_time
    ∷ writer 0 in_time
    ∷ writer 0 in_time
    ∷ writer 1 too_late
    ∷ main in_time
    ∷ writer 0 in_time
    ∷ writer 1 in_time
    ∷ writer 0 in_time
    ∷ writer 1 in_time
    ∷ main in_time
    ∷ main in_time
    ∷ daemon 0
    ∷ main in_time
    ∷ main in_time
    ∷ main in_time
    ∷ main in_time
    ∷ main in_time
    ∷ []

run-IsHistory_example : IsHistory (reached client clock 1 schedule []).shared.log
run-IsHistory_example = run-IsHistory client clock 1 schedule []

-- The first moves, after which the first writer has its number.
abbrev first_moves : List Move
first_moves = writer 0 in_time ∷ writer 0 in_time ∷ writer 1 in_time ∷ []

first_numbered : holds ((reached client clock 1 first_moves []).writers 0) ≡ some 1
unfolding run step advance get_next_value writer_nodes
first_numbered = refl

run-distinct_example : ◌≡◌ {A = ℕ} 0 0
run-distinct_example =
    run-distinct client clock 1 first_moves [] 0 0 1 first_numbered first_numbered

check_consistency-reached_example :
    (r : CheckResult) × (check_consistency 1
        (file_of (reached client clock 1 schedule []).shared.log)
      ≡ ok r)
    × (r.valid ≡ has_read (reached client clock 1 schedule []).shared.log)
check_consistency-reached_example =
    check_consistency-reached client clock durable 1 1 schedule [] (λ v. refl)

-- The read has both values: the one of the write that timed out is recovered.
schedule-has_read : has_read (reached client clock 1 schedule []).shared.log ≡ true
unfolding run step advance perform_at continue all_finished writer_nodes get_next_node log_event
    read_concludes sorted abandon add_concludes
schedule-has_read = refl

-- A database that confirms every write, keeps none, and has a value that was never written.
abbrev forgetful : DatabaseClient
forgetful = record {
  Db = Unit {0};
  get_db_nodes = pg1 ∷ [];
  setup = λ n d. (ok tt, tt);
  add = λ n v d. (ok tt, tt);
  read = λ n d. (ok (negsuc 4 ∷ []), tt);
  is_definite_failure = λ e. false;
}

-- One write is confirmed, the writer ends, and a read follows.
abbrev write_and_read : List Move
write_and_read =
    writer 0 in_time
    ∷ writer 0 in_time
    ∷ writer 0 in_time
    ∷ writer 0 in_time
    ∷ writer 0 in_time
    ∷ writer 0 in_time
    ∷ main in_time
    ∷ writer 0 in_time
    ∷ main in_time
    ∷ main in_time
    ∷ main in_time
    ∷ main in_time
    ∷ main in_time
    ∷ main in_time
    ∷ main in_time
    ∷ []

forgetful-read :
    newest_read (reached forgetful clock 1 write_and_read tt).shared.log ≡ some (negsuc 4 ∷ [])
unfolding run step advance perform_at continue all_finished writer_nodes get_next_node log_event
    read_concludes sorted abandon add_concludes
forgetful-read = refl

-- The value 1 is lost, and -5 is unexpected.
check_consistency-Detects_example :
    (r : CheckResult) × (check_consistency 1
        (file_of (reached forgetful clock 1 write_and_read tt).shared.log)
      ≡ ok r)
    × Detects (reached forgetful clock 1 write_and_read tt).shared.log (negsuc 4 ∷ []) r
check_consistency-Detects_example =
    check_consistency-Detects forgetful clock 1 1 write_and_read tt (negsuc 4 ∷ []) forgetful-read

-- One writer that has its number, and the main thread in the joins.
abbrev joins : System (List ℕ)
joins =
    let s = start client clock [] in
    record s {
      shared = record s.shared {
        generator = record s.shared.generator { counter = 1; stop_event = true };
      };
      writers = λ i. if i == 0 then numbered 1 else ready;
      main = joining;
    }

abbrev six : ℕ → List Move → List Move
six i ms =
    writer i in_time
    ∷ writer i in_time
    ∷ writer i in_time
    ∷ writer i in_time
    ∷ writer i too_late
    ∷ writer i in_time
    ∷ ms

six_each : (i : ℕ) → i < length (threads client clock 1) → 6 ≤ moves_of i (six 0 (six 1 []))
unfolding writer_nodes
six_each i h = ground arith

run-joins_example :
    is_joined
      (step client clock 1 (main in_time) (run client clock 1 (six 0 (six 1 [])) joins)).main
    ≡ true
run-joins_example = run-joins client clock 1 (six 0 (six 1 [])) in_time joins refl refl six_each
