-- ===== src/Checker/Tests.antt =====
-- checker.py: the theorems on concrete logs.
use faultstorm.Prelude.{
  ◌≤◌, ◌<◌, ℕ, map, ltb, ◌≡◌, ◌↔◌, refl, inr, true, not, ◌&&◌, List, [], ◌∷◌, none, some, ℤ, pos,
  ok, contains, int_eq, arith,
}
use faultstorm.Prelude.Dict.{Dict}
use faultstorm.Checker.Availability.{total_intervals, min_of, compute_interval_availability}
use faultstorm.Checker.Consistency.{
  invoke, success, fail, add_op, read_op, num, list, null, Line, malformed, entry, CheckResult,
  check_consistency, without_read,
}
use faultstorm.Checker.LogView.{logged}
use faultstorm.Checker.Verdict.{
  check_consistency-valid, check_consistency-sets, check_consistency-junk,
}
use faultstorm.Checker.Problems.{at_time, log_problem_intervals, unavailable_ranges}
use faultstorm.Checker.Ranges.{covered, has_problem, log_problem_intervals-covered}
use faultstorm.Checker.Bounds.{compute_interval_availability-le_one}

abbrev add_1 : Line
add_1 = entry (record { type = invoke; action = add_op; value = num (pos 1); timestamp = some 100 })

abbrev added_1 : Line
added_1 =
    entry (record { type = success; action = add_op; value = num (pos 1); timestamp = some 110 })

abbrev add_2 : Line
add_2 = entry (record { type = invoke; action = add_op; value = num (pos 2); timestamp = some 150 })

abbrev failed_2 : Line
failed_2 =
    entry (record { type = fail; action = add_op; value = num (pos 2); timestamp = some 160 })

abbrev read_both : Line
read_both = entry (record {
  type = success;
  action = read_op;
  value = list (pos 1 ∷ pos 2 ∷ []);
  timestamp = some 200;
})

abbrev failed_read : Line
failed_read = entry (record { type = fail; action = read_op; value = null; timestamp = some 200 })

-- A failed write that the last read saw is recovered.
abbrev recovering : List Line
recovering = add_1 ∷ added_1 ∷ add_2 ∷ failed_2 ∷ read_both ∷ []

abbrev recovering_result : CheckResult
recovering_result = record {
  valid = true;
  lost = [];
  unexpected = [];
  recovered = pos 2 ∷ [];
  total_attempts = 2;
  successful_adds = 1;
  failed_adds = 1;
  write_availability = record { num = 1; den = 1 };
  errors = none;
}

recovering_checked : check_consistency 100 recovering ≡ ok recovering_result
unfolding check_consistency
recovering_checked = refl

check_consistency-valid_example : (recovering_result.valid ≡ true) ↔ (
    ((v : ℤ) → logged success recovering v ≡ true → contains (pos 1 ∷ pos 2 ∷ []) v ≡ true)
    × ((v : ℤ) → contains (pos 1 ∷ pos 2 ∷ []) v ≡ true → logged invoke recovering v ≡ true))
check_consistency-valid_example =
    check_consistency-valid 100 recovering recovering_result recovering_checked (pos 1 ∷ pos 2 ∷ [])
      refl

check_consistency-sets_example :
    (contains recovering_result.lost (pos 2)
      ≡ (logged success recovering (pos 2) && not (contains (pos 1 ∷ pos 2 ∷ []) (pos 2))))
    × (contains recovering_result.unexpected (pos 2)
        ≡ (contains (pos 1 ∷ pos 2 ∷ []) (pos 2) && not (logged invoke recovering (pos 2))))
    × (contains recovering_result.recovered (pos 2) ≡ (
        (contains (pos 1 ∷ pos 2 ∷ []) (pos 2) && logged invoke recovering (pos 2))
        && not (logged success recovering (pos 2))))
check_consistency-sets_example =
    check_consistency-sets 100 recovering recovering_result recovering_checked (pos 1 ∷ pos 2 ∷ [])
      refl (pos 2)

unread_checked : check_consistency 100 (add_1 ∷ failed_read ∷ []) ≡ ok without_read
unfolding check_consistency
unread_checked = refl

abbrev times : Dict ℤ ℕ
times = (pos 1, 100) ∷ (pos 2, 150) ∷ (pos 5, 390) ∷ []

-- The values 1 and 5 are lost.
two_ranges :
    log_problem_intervals (pos 1 ∷ pos 5 ∷ []) times 100 390 100 ≡ (100, 200) ∷ (300, 400) ∷ []
unfolding log_problem_intervals
two_ranges = refl

log_problem_intervals-covered_example :
    (rs : List (ℕ × ℕ)) × (log_problem_intervals (pos 1 ∷ pos 5 ∷ []) times 100 390 100
      ≡ map (at_time 100 100) rs)
    × ((i : ℕ)
        → covered i rs ≡ (
            ltb i (total_intervals 100 390 100)
            && has_problem times 100 (total_intervals 100 390 100) 100 (pos 1 ∷ pos 5 ∷ []) i))
log_problem_intervals-covered_example =
    log_problem_intervals-covered times 100 (pos 1 ∷ pos 5 ∷ []) 390 100

-- The second bucket has no success; the last one is open at the end, and is not logged.
one_unavailable : unavailable_ranges (100 ∷ 500 ∷ []) (120 ∷ 310 ∷ []) 100 ≡ (200, 300) ∷ []
unfolding unavailable_ranges
one_unavailable = refl

check_consistency-junk_example :
    check_consistency 100 (add_1 ∷ malformed ∷ added_1 ∷ read_both ∷ [])
    ≡ check_consistency 100 (add_1 ∷ added_1 ∷ read_both ∷ [])
check_consistency-junk_example =
    check_consistency-junk malformed (inr refl) 100 (add_1 ∷ []) (added_1 ∷ read_both ∷ [])

compute_interval_availability-le_one_example :
    ((compute_interval_availability (100 ∷ 150 ∷ 390 ∷ []) (120 ∷ 180 ∷ 395 ∷ []) 100).num
      ≤ (compute_interval_availability (100 ∷ 150 ∷ 390 ∷ []) (120 ∷ 180 ∷ 395 ∷ []) 100).den)
    × (0 < (compute_interval_availability (100 ∷ 150 ∷ 390 ∷ []) (120 ∷ 180 ∷ 395 ∷ []) 100).den)
unfolding min_of
compute_interval_availability-le_one_example =
    compute_interval_availability-le_one 100 (150 ∷ 390 ∷ []) (120 ∷ 180 ∷ 395 ∷ []) 100
      (omega arith, (omega arith, (omega arith, tt)))
