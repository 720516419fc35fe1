-- ===== src/Checker/Problems.antt =====
-- checker.py: the ranges of time that are written to the log of the program: those in which lost or
-- unexpected values were attempted, and those without a successful write.
use Prim.Native.Nat.{min}
use faultstorm.Prelude.{
  ℕ, zero, suc, ◌+◌, ◌-◌, ◌*◌, ◌/◌, List, [], ◌∷◌, Option, none, some, ℤ, pos, ltb, if◌then◌else◌,
  is_empty, map, contains, add, difference, values, lookup, int_eq,
}
use faultstorm.Prelude.Dict.{Dict}
use faultstorm.Checker.Availability.{
  min_of, max_of, total_intervals, bucket, min_ℤ, max_ℤ, available_intervals,
}
use faultstorm.Checker.Consistency.{State}

-- `max(0, min(idx, total_intervals - 1))`
abbrev pub clamped : ℕ → ℕ → ℕ → ℕ → ℤ
clamped start total interval ts = max_ℤ (pos 0) (min_ℤ (bucket start interval ts) (pos (total - 1)))

abbrev pub add_index : ℕ → ℕ → ℕ → Option ℕ → List ℤ → List ℤ
add_index start total interval none indices = indices
add_index start total interval (some ts) indices = add (clamped start total interval ts) indices

-- `problem_indices`
unfoldable pub problem_indices : Dict ℤ ℕ → ℕ → ℕ → ℕ → List ℤ → List ℤ
unfolding lookup bucket add
problem_indices times start total interval [] = []
problem_indices times start total interval (v ∷ vs) =
    add_index start total interval (lookup v times) (problem_indices times start total interval vs)

-- A range that is open ends in front of the bucket `idx`.
abbrev pub flush : Option ℕ → ℕ → List (ℕ × ℕ) → List (ℕ × ℕ)
flush none idx ranges = ranges
flush (some since) idx ranges = (since, idx) ∷ ranges

abbrev pub opened : Option ℕ → ℕ → ℕ
opened none idx = idx
opened (some since) idx = since

-- `for idx in range(total_intervals)` and the flush behind it, with the number of buckets that are
-- left; a range is given by its first bucket and by the one behind it.
unfoldable pub ranges_from : List ℤ → ℕ → ℕ → Option ℕ → List (ℕ × ℕ)
ranges_from indices zero idx since = flush since idx []
ranges_from indices (suc k) idx since =
    let inside = ranges_from indices k (idx + 1) (some (opened since idx)) in
    let outside = ranges_from indices k (idx + 1) none in
    if contains indices (pos idx) then inside else flush since idx outside

abbrev pub at_time : ℕ → ℕ → ℕ × ℕ → ℕ × ℕ
at_time start interval (since, idx) = (start + since * interval, start + idx * interval)

-- `_log_problem_intervals`: the times of the ranges that it logs
unfoldable pub log_problem_intervals : List ℤ → Dict ℤ ℕ → ℕ → ℕ → ℕ → List (ℕ × ℕ)
unfolding problem_indices ranges_from total_intervals
log_problem_intervals problem_values times start end interval =
    let total = total_intervals start end interval in
    let indices = problem_indices times start total interval problem_values in
    if is_empty indices then [] else map (at_time start interval) (ranges_from indices total 0 none)

unfoldable pub both_intervals : ℕ → State → List ℕ → List (ℕ × ℕ) × List (ℕ × ℕ)
unfolding min_of max_of log_problem_intervals difference
both_intervals interval s [] = ([], [])
both_intervals interval s (t ∷ ts) = (
  log_problem_intervals (difference s.successful s.final_read) s.value_to_invoke_ts (min_of t ts)
      (max_of t ts) interval,
  log_problem_intervals (difference s.final_read s.attempted) s.value_to_invoke_ts (min_of t ts)
      (max_of t ts) interval,
)

-- The calls of it in `check_consistency`, for the lost and for the unexpected values.
unfoldable pub logged_problems : ℕ → State → List (ℕ × ℕ) × List (ℕ × ℕ)
unfolding both_intervals
logged_problems interval s = both_intervals interval s (values s.value_to_invoke_ts)

-- `while ts < end_time`, with the number of steps that are left; nothing is logged for a range that
-- is open at the end.
unfoldable pub unavailable_from : List ℤ → ℕ → ℕ → ℕ → ℕ → ℕ → ℕ → Option ℕ → List (ℕ × ℕ)
unavailable_from available start end total interval zero ts since = []
unavailable_from available start end total interval (suc k) ts since =
    let idx = min ((ts - start) / interval) (total - 1) in
    let closed = unavailable_from available start end total interval k (ts + interval) none in
    let going =
      unavailable_from available start end total interval k (ts + interval)
        (some (opened since idx)) in
    if ltb ts end
    then if contains available (pos idx) then flush since idx closed else going
    else []

-- The ranges that `_compute_interval_availability` logs; it takes one step for each bucket at most.
unfoldable pub unavailable_ranges : List ℕ → List ℕ → ℕ → List (ℕ × ℕ)
unfolding min_of max_of total_intervals available_intervals unavailable_from
unavailable_ranges [] oks interval = []
unavailable_ranges (w ∷ ws) [] interval = []
unavailable_ranges (w ∷ ws) (o ∷ oks) interval =
    let start = min_of w ws in
    let end = max_of w ws in
    let total = total_intervals start end interval in
    map (at_time start interval) (
      unavailable_from (available_intervals start total interval (o ∷ oks)) start end total interval
        total start none)
