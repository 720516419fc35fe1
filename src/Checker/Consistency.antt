-- ===== src/Checker/Consistency.antt =====
-- checker.py: the pass over the log of operations and the verdict; model.py: its result.
use faultstorm.Prelude.{
  ℕ, ◌+◌, Bool, false, ◌&&◌, List, [], ◌∷◌, ◌++◌, Option, none, some, ℤ, if◌then◌else◌, length,
  is_empty, add, to_set, difference, intersection, insert, Result, ok, err, ◌>>=◌, type_error,
  overflow_error, value_error, pos, true, ◌==◌, nat_eq, int_eq,
}
use faultstorm.Prelude.Dict.{Dict}
use faultstorm.Text.{Text, codes}
use faultstorm.Text.Decimal.{int}
use faultstorm.Checker.Availability.{Ratio, no_availability, compute_interval_availability}

-- The strings INVOKE, OK, FAIL and INFO of a log entry's "type"; `unknown` is any other text.
pub data EventType : Type 0 where
  invoke success fail info unknown : EventType

-- The strings of its "action".
pub data OpName : Type 0 where
  add_op read_op unknown : OpName

-- The JSON values that the checker tells apart: null, an integer, a finite float, given by its
-- integer part, a float that is an infinity, one that is no number, a truth value, a text, a list of
-- integers, and the values that `int` refuses with a TypeError.
pub data Value : Type 0 where
  null other infinity nan : Value
  num float : ℤ → Value
  bool : Bool → Value
  text : Text → Value
  list : List ℤ → Value

pub record Op : Type 0 where
  pub type : EventType
  pub action : OpName
  pub value : Value
  pub timestamp : Option ℕ

-- A line of the log: blank, refused by `json.loads`, or an object.
pub data Line : Type 0 where
  blank malformed : Line
  entry : Op → Line

-- model.py
pub record CheckResult : Type 0 where
  pub valid : Bool
  pub lost : List ℤ
  pub unexpected : List ℤ
  pub recovered : List ℤ
  pub total_attempts : ℕ
  pub successful_adds : ℕ
  pub failed_adds : ℕ
  pub write_availability : Ratio
  pub errors : Option Text

-- The local variables of `check_consistency`.
pub record State : Type 0 where
  pub attempted : List ℤ
  pub successful : List ℤ
  pub failed : List ℤ
  pub final_read : List ℤ
  pub read_count : ℕ
  pub value_to_invoke_ts : Dict ℤ ℕ
  pub write_invoke_times : List ℕ
  pub ok_write_times : List ℕ
  pub line_count : ℕ

abbrev pub initial : State
initial = record {
  attempted = [];
  successful = [];
  failed = [];
  final_read = [];
  read_count = 0;
  value_to_invoke_ts = [];
  write_invoke_times = [];
  ok_write_times = [];
  line_count = 0;
}

-- `int(value)`
unfoldable pub int_value : Value → Result ℤ
int_value (num z) = ok z
int_value (float z) = ok z
int_value (bool true) = ok (pos 1)
int_value (bool false) = ok (pos 0)
int_value (text t) = int t
int_value infinity = err overflow_error
int_value nan = err value_error
int_value _ = err type_error

unfoldable pub note_invoke : Option ℕ → ℤ → State → State
unfolding add insert
note_invoke none v s = record s { attempted = add v s.attempted }
note_invoke (some ts) v s = record s {
  attempted = add v s.attempted;
  value_to_invoke_ts = insert v ts s.value_to_invoke_ts;
  write_invoke_times = s.write_invoke_times ++ ts ∷ [];
}

unfoldable pub note_ok : Option ℕ → ℤ → State → State
unfolding add
note_ok none v s = record s { successful = add v s.successful }
note_ok (some ts) v s = record s {
  successful = add v s.successful;
  ok_write_times = s.ok_write_times ++ ts ∷ [];
}

unfoldable pub note_add : EventType → Option ℕ → ℤ → State → State
unfolding note_invoke note_ok add
note_add invoke ts v s = note_invoke ts v s
note_add success ts v s = note_ok ts v s
note_add fail ts v s = record s { failed = add v s.failed }
note_add info ts v s = s
note_add EventType.unknown ts v s = s

unfoldable pub note_read : EventType → Value → State → State
unfolding to_set
note_read success (list vs) s = record s { final_read = to_set vs; read_count = s.read_count + 1 }
note_read t v s = s

abbrev pub counted : State → State
counted s = record s { line_count = s.line_count + 1 }

-- `if action == "add": if value is None: continue …`
unfoldable pub step_add : EventType → Value → Option ℕ → State → Result State
unfolding int_value note_add
step_add t null ts s = ok s
step_add t v ts s = do z ← int_value v; ok (note_add t ts z s)

unfoldable pub step_op : OpName → Op → State → Result State
unfolding step_add note_read
step_op add_op op s = step_add op.type op.value op.timestamp s
step_op read_op op s = ok (note_read op.type op.value s)
step_op OpName.unknown op s = ok s

unfoldable pub step : Line → State → Result State
unfolding step_op
step blank s = ok s
step malformed s = ok s
step (entry op) s = step_op op.action op (counted s)

unfoldable pub scan : List Line → State → Result State
unfolding step
scan [] s = ok s
scan (l ∷ ls) s = do s' ← step l s; scan ls s'

abbrev pub no_reads : Text
no_reads = codes "No successful reads found in operations log"

abbrev pub without_read : CheckResult
without_read = record {
  valid = false;
  lost = [];
  unexpected = [];
  recovered = [];
  total_attempts = 0;
  successful_adds = 0;
  failed_adds = 0;
  write_availability = no_availability;
  errors = some no_reads;
}

unfoldable pub verdict : ℕ → State → CheckResult
unfolding difference intersection compute_interval_availability
verdict interval s =
    let lost = difference s.successful s.final_read in
    let unexpected = difference s.final_read s.attempted in
    if s.read_count == 0 then without_read else record {
      valid = is_empty lost && is_empty unexpected;
      lost = lost;
      unexpected = unexpected;
      recovered = difference (intersection s.final_read s.attempted) s.successful;
      total_attempts = length s.attempted;
      successful_adds = length s.successful;
      failed_adds = length s.failed;
      write_availability =
          compute_interval_availability s.write_invoke_times s.ok_write_times interval;
      errors = none;
    }

-- `interval` is the tick count of 0.1 s.
unfoldable pub check_consistency : ℕ → List Line → Result CheckResult
unfolding scan verdict
check_consistency interval ls = do s ← scan ls initial; ok (verdict interval s)
