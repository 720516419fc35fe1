-- ===== src/Load/Detects.antt =====
-- load_generator.py with checker.py: what the checker finds in the log of a database that may lose
-- or invent values.
use faultstorm.Prelude.{
  ℕ, ◌≡◌, ◌∙◌, ap, int_eq, true, false, ◌&&◌, ◌||◌, not, List, some, ℤ, pos, negsuc, Bool, false,
  ok, contains, arith, Bool-cases, inl, inr,
}
use faultstorm.Checker.LogView.{logged}
use faultstorm.Checker.Consistency.{EventType, invoke, success, CheckResult, check_consistency}
use faultstorm.Checker.Verdict.{check_consistency-sets, check_consistency-valid}
use faultstorm.Load.Client.{DatabaseClient}
use faultstorm.Load.Generator.{LogEvent}
use faultstorm.Load.Threads.{Move, reached}
use faultstorm.Load.History.{is_invoke, logs}
use faultstorm.Load.Durable.{is_success, newest_read}
use faultstorm.Load.Plain.{IsPlain, reached-IsPlain}
use faultstorm.Load.Checked.{
  file_of, last_read-file, logged-invoke, logged-success, logged-negsuc, check_consistency-file,
}

-- The log has a write of the integer `z` that `which` picks; the writers write natural numbers only.
abbrev pub has_write : (EventType → Bool) → List LogEvent → ℤ → Bool
has_write which log (pos v) = logs which log v
has_write which log (negsuc k) = false

-- The lost values are the confirmed ones that `zs` does not have, the unexpected ones are those of
-- `zs` that no writer began to write, and either makes the result invalid.
pub record Detects (log : List LogEvent) (zs : List ℤ) (r : CheckResult) : Type 0 where
  pub all_lost : (z : ℤ) → contains r.lost z ≡ (has_write is_success log z && not (contains zs z))
  pub all_unexpected :
      (z : ℤ) → contains r.unexpected z ≡ (contains zs z && not (has_write is_invoke log z))
  pub refused : (z : ℤ) → (contains r.lost z || contains r.unexpected z) ≡ true → r.valid ≡ false

logged_invoke_ℤ :
    (log : List LogEvent)
    → IsPlain log
    → (z : ℤ) → logged invoke (file_of log) z ≡ has_write is_invoke log z
logged_invoke_ℤ log h (pos v) = logged-invoke log h v
logged_invoke_ℤ log h (negsuc k) = logged-negsuc invoke log h k

logged_success_ℤ :
    (log : List LogEvent)
    → IsPlain log
    → (z : ℤ) → logged success (file_of log) z ≡ has_write is_success log z
logged_success_ℤ log h (pos v) = logged-success log h v
logged_success_ℤ log h (negsuc k) = logged-negsuc success log h k

module _ (interval : ℕ) (log : List LogEvent) (plain : IsPlain log) (r : CheckResult)
    (checked : check_consistency interval (file_of log) ≡ ok r) (zs : List ℤ)
    (seen : newest_read log ≡ some zs) where
  sets_lem :
      (z : ℤ)
      → (contains r.lost z ≡ (has_write is_success log z && not (contains zs z)))
        × (contains r.unexpected z ≡ (contains zs z && not (has_write is_invoke log z)))
  sets_lem z =
      let (lost, unexpected, recovered) =
        check_consistency-sets interval (file_of log) r checked zs (last_read-file log ∙ seen) z in
      (
        lost ∙ ap (λ b. b && not (contains zs z)) (logged_success_ℤ log plain z),
        unexpected ∙ ap (λ b. contains zs z && not b) (logged_invoke_ℤ log plain z),
      )

  refused_lem : (z : ℤ) → (contains r.lost z || contains r.unexpected z) ≡ true → r.valid ≡ false
  refused_lem z h = elim (Bool-cases r.valid) [
    | inl p ↦
        let (kept, tried) =
          (check_consistency-valid interval (file_of log) r checked zs
              (last_read-file log ∙ seen)).0
            p in
        absurd (
          ground (
            arith,
            kept z,
            tried z,
            logged_success_ℤ log plain z,
            logged_invoke_ℤ log plain z,
            sets_lem z,
          ))
    | inr p ↦ p
  ]

  found-Detects : Detects log zs r
  found-Detects = record {
    all_lost = λ z. (sets_lem z).0;
    all_unexpected = λ z. (sets_lem z).1;
    refused = refused_lem;
  }

module _ (client : DatabaseClient) (clock : List LogEvent → ℕ) (per_node interval : ℕ) where
  open client use {Db}

  -- Over any database, durable or not, and for every schedule, the check of the operations log
  -- returns; if a read has succeeded, the result lists exactly the confirmed values that the newest
  -- read does not have as lost, and exactly the values of this read that no writer began to write
  -- as unexpected, and it is invalid if there is one of either.
  pub check_consistency-Detects :
      (ms : List Move) (d : Db) (zs : List ℤ)
      → newest_read (reached client clock per_node ms d).shared.log ≡ some zs
      → (r : CheckResult) × (check_consistency interval
            (file_of (reached client clock per_node ms d).shared.log)
          ≡ ok r)
        × Detects (reached client clock per_node ms d).shared.log zs r
  check_consistency-Detects ms d zs seen =
      let log = (reached client clock per_node ms d).shared.log in
      let plain = reached-IsPlain client clock per_node ms d in
      let (r, e) = check_consistency-file interval log plain in
      (r, e, found-Detects interval log plain r e zs seen)
