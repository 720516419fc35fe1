-- ===== src/Load/Generator.antt =====
-- load_generator.py: the fields of LoadGenerator, the operations log, and the calls that do not
-- wait for another thread.
use faultstorm.Prelude.{
  ℕ, ◌+◌, ◌%◌, Bool, false, List, [], ◌∷◌, Option, none, some, pos, Result, ok, err, Exception,
  runtime_error, index_error, zero_division_error, timeout_error, if◌then◌else◌, length, get_elem?,
  ℤ,
}
use faultstorm.Prelude.Int.{ltb_ℤ}
use faultstorm.Text.{Text}
use faultstorm.Checker.Consistency.{
  EventType, success, fail, info, OpName, add_op, read_op, Value, null, num, list, Line, entry,
}
use faultstorm.Load.Client.{DatabaseClient}

-- `pending_threads` holds the numbers of the threads, in the order of their start.
pub record LoadGenerator : Type 0 where
  pub counter : ℕ
  pub node_index : ℕ
  pub stop_event : Bool
  pub pending_threads : List ℕ

abbrev pub new_generator : LoadGenerator
new_generator = record { counter = 0; node_index = 0; stop_event = false; pending_threads = [] }

-- `_get_next_value`
unfoldable pub get_next_value : LoadGenerator → ℕ × LoadGenerator
get_next_value g = (g.counter + 1, record g { counter = g.counter + 1 })

abbrev or_index_error : Option Text → Result Text
or_index_error none = err index_error
or_index_error (some n) = ok n

-- `_get_next_node`
unfoldable pub get_next_node : List Text → LoadGenerator → Result Text × LoadGenerator
get_next_node [] g = (err zero_division_error, g)
get_next_node (n ∷ ns) g = (
  or_index_error (get_elem? (n ∷ ns) (g.node_index % length (n ∷ ns))),
  record g { node_index = g.node_index + 1 },
)

-- A line of the operations log. The checker reads neither the node nor the error.
pub record LogEvent : Type 0 where
  pub type : EventType
  pub action : OpName
  pub value : Value
  pub timestamp : ℕ
  pub node : Text
  pub error : Option Exception

-- The line as `json.loads` gives it to the checker.
abbrev pub line_of : LogEvent → Line
line_of e =
    entry
      (record { type = e.type; action = e.action; value = e.value; timestamp = some e.timestamp })

-- `_log_event`, on a log whose newest line stands first; `clock` is the time of the next line
unfoldable pub log_event :
    (List LogEvent → ℕ)
    → EventType
    → OpName
    → Value
    → Text
    → Option Exception
    → List LogEvent
    → List LogEvent
log_event clock type action value node error log =
    record {
      type = type;
      action = action;
      value = value;
      timestamp = clock log;
      node = node;
      error = error;
    }
    ∷ log

-- `sorted(values)`
unfoldable pub insert_sorted : ℤ → List ℤ → List ℤ
insert_sorted v [] = v ∷ []
insert_sorted v (w ∷ ws) =
    let rest = insert_sorted v ws in if ltb_ℤ w v then (w ∷ rest) else (v ∷ w ∷ ws)

unfoldable pub sorted : List ℤ → List ℤ
unfolding insert_sorted
sorted [] = []
sorted (v ∷ vs) = insert_sorted v (sorted vs)

module _ (client : DatabaseClient) where
  open client use {Db, setup, is_definite_failure}

  -- `setup`, on the nodes that are left to try
  unfoldable pub setup_on : List Text → Db → Result (Unit {0}) × Db
  setup_on [] d = (err runtime_error, d)
  setup_on (n ∷ ns) d =
      let (r, d') = setup n d in elim r [ ok _ ↦ (ok tt, d') | err _ ↦ setup_on ns d' ]

  module _ (clock : List LogEvent → ℕ) where
    -- The event that `add` logs for an exception; a TimeoutError is caught first.
    unfoldable pub add_failed : Exception → ℕ → Text → List LogEvent → List LogEvent
    unfolding log_event
    add_failed timeout_error v n log =
        log_event clock info add_op (num (pos v)) n (some timeout_error) log
    add_failed e v n log =
        log_event clock (if is_definite_failure e then fail else info) add_op (num (pos v)) n
          (some e) log

    -- What `add` logs when `_run_with_timeout` has returned or raised.
    unfoldable pub add_concludes : Result (Unit {0}) → ℕ → Text → List LogEvent → List LogEvent
    unfolding log_event add_failed
    add_concludes (ok _) v n log = log_event clock success add_op (num (pos v)) n none log
    add_concludes (err e) v n log = add_failed e v n log

    -- What `read` logs then.
    unfoldable pub read_concludes : Result (List ℤ) → Text → List LogEvent → List LogEvent
    unfolding log_event sorted
    read_concludes (ok vs) n log = log_event clock success read_op (list (sorted vs)) n none log
    read_concludes (err e) n log = log_event clock fail read_op null n (some e) log
