-- ===== src/Checker/Verdict.antt =====
-- checker.py: what the result of `check_consistency` says of the log.
use faultstorm.Prelude.{
  ℕ, ◌≡◌, ◌↔◌, ◌⊎◌, true, not, ◌&&◌, List, [], ◌∷◌, ◌++◌, none, some, ℤ, contains, contains-to_set,
  contains-difference, contains-intersection, is_empty_iff, is_empty, ok, >>=-eq-ok, arith, int_eq,
  nat_eq, Result-cases, inl, inr, intersection,
}
use faultstorm.Checker.Consistency.{
  success, invoke, Line, blank, malformed, CheckResult, State, initial, scan, step, verdict,
  check_consistency, without_read,
}
use faultstorm.Checker.LogView.{logged, last_read, scan-Adds}

module _ (interval : ℕ) (ls : List Line) (r : CheckResult)
    (checked : check_consistency interval ls ≡ ok r) where
  passed : (s : State) × (scan ls initial ≡ ok s) × (r ≡ verdict interval s)
  unfolding check_consistency
  passed =
      let (s, e, h) = >>=-eq-ok (scan ls initial) (λ s. ok (verdict interval s)) checked in
      (s, e, cc)

  -- If the check returns a result and the log has no successful read, the result is invalid, with
  -- the error message and nothing else.
  pub check_consistency-unread : last_read ls ≡ none → r ≡ without_read
  unfolding verdict
  check_consistency-unread h =
      let (s, e, v) = passed in ground (arith, (scan-Adds ls initial s (ℤ.pos 0) e).unread)

  module _ (vs : List ℤ) (seen : last_read ls ≡ some vs) where
    -- If the check returns a result, and `vs` is the last successful read: a value is lost exactly
    -- if it was confirmed and is not in `vs`, unexpected exactly if it is in `vs` and was never
    -- attempted, and recovered exactly if it is in `vs` and was attempted but not confirmed.
    pub check_consistency-sets :
        (v : ℤ)
        → (contains r.lost v ≡ (logged success ls v && not (contains vs v)))
          × (contains r.unexpected v ≡ (contains vs v && not (logged invoke ls v)))
          × (contains r.recovered v
              ≡ ((contains vs v && logged invoke ls v) && not (logged success ls v)))
    unfolding verdict
    check_consistency-sets v =
        let (s, e, h) = passed in
        ground (
          arith,
          scan-Adds ls initial s v e,
          contains-to_set v vs,
          contains-difference v s.successful s.final_read,
          contains-difference v s.final_read s.attempted,
          contains-intersection v s.final_read s.attempted,
          contains-difference v (intersection s.final_read s.attempted) s.successful,
        )

    valid-lem : r.valid ≡ (is_empty r.lost && is_empty r.unexpected)
    unfolding verdict
    valid-lem =
        let (s, e, h) = passed in ground (arith, (scan-Adds ls initial s (ℤ.pos 0) e).unread)

    -- If the check returns a result, and `vs` is the last successful read, the result is valid
    -- exactly if every confirmed value is in `vs` and every value of `vs` was attempted.
    pub check_consistency-valid : (r.valid ≡ true) ↔ (
        ((v : ℤ) → logged success ls v ≡ true → contains vs v ≡ true)
        × ((v : ℤ) → contains vs v ≡ true → logged invoke ls v ≡ true))
    check_consistency-valid = (
      λ h. (
        λ v c. ground (arith, valid-lem, (is_empty_iff r.lost).0, check_consistency-sets v),
        λ v c. ground (arith, valid-lem, (is_empty_iff r.unexpected).0, check_consistency-sets v),
      ),
      λ h. rw valid-lem (
          rw ((is_empty_iff r.lost).1 λ v. ground (arith, h.0 v, check_consistency-sets v))
            ((is_empty_iff r.unexpected).1 λ v. ground (arith, h.1 v, check_consistency-sets v))),
    )

module _ (l : Line) (junk : (l ≡ blank) ⊎ (l ≡ malformed)) where
  scan-junk : (ls ms : List Line) (s : State) → scan (ls ++ l ∷ ms) s ≡ scan (ls ++ ms) s
  unfolding scan step
  scan-junk [] ms s = ground arith
  scan-junk (k ∷ ls) ms s = elim (Result-cases (step k s)) [
    | inl (s', e) ↦ ground (arith, scan-junk ls ms s')
    | inr (c, e) ↦ ground arith
  ]

  -- A blank line, or one that is no JSON, changes nothing, wherever it stands in the log.
  pub check_consistency-junk :
      (interval : ℕ) (ls ms : List Line)
      → check_consistency interval (ls ++ l ∷ ms) ≡ check_consistency interval (ls ++ ms)
  unfolding check_consistency
  check_consistency-junk interval ls ms = rw (scan-junk ls ms initial)
