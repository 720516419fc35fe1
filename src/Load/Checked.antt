-- ===== src/Load/Checked.antt =====
-- load_generator.py with checker.py: the checker on the operations log of a run.
use faultstorm.Prelude.{
  ℕ, ◌≡◌, inl, inr, refl, ◌∙◌, Bool, true, false, ◌||◌, List, [], ◌∷◌, ◌++◌, none, some, ℤ, pos,
  negsuc, ok, Result-cases, >>=-eq-ok, contains, arith, nat_eq, int_eq, Option-cases,
}
use faultstorm.Checker.Consistency.{
  EventType, invoke, success, Line, State, CheckResult, initial, step, scan, step_op, step_add,
  int_value, check_consistency, verdict,
}
use faultstorm.Checker.LogView.{logged, last_read, is_add, read_of}
use faultstorm.Checker.Verdict.{check_consistency-valid, check_consistency-unread}
use faultstorm.Load.Client.{DatabaseClient}
use faultstorm.Load.Generator.{LogEvent, line_of}
use faultstorm.Load.Threads.{Move, reached}
use faultstorm.Load.History.{is_invoke, is_event, logs}
use faultstorm.Load.Durable.{IsDurable, is_success, newest_read, read_in, Agrees, is_plain}
use faultstorm.Load.Plain.{IsPlain}
use faultstorm.Load.Durable.Runs.{run-Sound}

-- The lines of the file, the oldest first.
abbrev pub file_of : List LogEvent → List Line
file_of [] = []
file_of (e ∷ es) = file_of es ++ line_of e ∷ []

logged-snoc :
    (t : EventType) (ls : List Line) (l : Line) (z : ℤ)
    → logged t (ls ++ l ∷ []) z ≡ (is_add t l z || logged t ls z)
logged-snoc t [] l z = refl
logged-snoc t (k ∷ ls) l z = ground (arith, logged-snoc t ls l z)

last_read-snoc :
    (ls : List Line) (l : Line)
    → last_read (ls ++ l ∷ []) ≡ elim (read_of l) [ some vs ↦ some vs | none ↦ last_read ls ]
last_read-snoc [] l = ground arith
last_read-snoc (k ∷ ls) l = ground (arith, last_read-snoc ls l)

read_of-line : (e : LogEvent) → read_of (line_of e) ≡ read_in e
read_of-line e = ground arith

pub last_read-file : (log : List LogEvent) → last_read (file_of log) ≡ newest_read log
last_read-file [] = refl
last_read-file (e ∷ es) =
    ground (arith, last_read-snoc (file_of es) (line_of e), read_of-line e, last_read-file es)

-- An event of an add with a natural value is read back with its type and value.
is_add-invoke :
    (e : LogEvent)
    → is_plain e ≡ true
    → (v : ℕ) → is_add invoke (line_of e) (pos v) ≡ is_event is_invoke e v
unfolding int_value
is_add-invoke e h v = ground arith

is_add-success :
    (e : LogEvent)
    → is_plain e ≡ true
    → (v : ℕ) → is_add success (line_of e) (pos v) ≡ is_event is_success e v
unfolding int_value
is_add-success e h v = ground arith

is_add-negsuc :
    (t : EventType) (e : LogEvent)
    → is_plain e ≡ true
    → (k : ℕ) → is_add t (line_of e) (negsuc k) ≡ false
unfolding int_value
is_add-negsuc t e h k = ground arith

pub logged-invoke :
    (log : List LogEvent)
    → IsPlain log
    → (v : ℕ) → logged invoke (file_of log) (pos v) ≡ logs is_invoke log v
logged-invoke [] h v = refl
logged-invoke (e ∷ es) h v =
    logged-snoc invoke (file_of es) (line_of e) (pos v)
    ∙ rw (is_add-invoke e h.0 v, logged-invoke es h.1 v) refl

pub logged-success :
    (log : List LogEvent)
    → IsPlain log
    → (v : ℕ) → logged success (file_of log) (pos v) ≡ logs is_success log v
logged-success [] h v = refl
logged-success (e ∷ es) h v =
    logged-snoc success (file_of es) (line_of e) (pos v)
    ∙ rw (is_add-success e h.0 v, logged-success es h.1 v) refl

pub logged-negsuc :
    (t : EventType) (log : List LogEvent)
    → IsPlain log
    → (k : ℕ) → logged t (file_of log) (negsuc k) ≡ false
logged-negsuc t [] h k = refl
logged-negsuc t (e ∷ es) h k =
    logged-snoc t (file_of es) (line_of e) (negsuc k)
    ∙ rw (is_add-negsuc t e h.0 k, logged-negsuc t es h.1 k) refl

-- The checker raises on no such line.
step-line :
    (e : LogEvent) (s : State) → is_plain e ≡ true → (s' : State) × (step (line_of e) s ≡ ok s')
unfolding step step_op step_add int_value
step-line e s h = elim (Result-cases (step (line_of e) s)) [
  | inl found ↦ found
  | inr (c, q) ↦ absurd (ground (arith, q))
]

scan-snoc :
    (ls : List Line) (l : Line) (s s' : State)
    → scan ls s ≡ ok s'
    → scan (ls ++ l ∷ []) s ≡ step l s'
unfolding scan
scan-snoc [] l s s' h = ground (arith, Result-cases (step l s))
scan-snoc (k ∷ ls) l s s' h =
    let (m, now, later) = >>=-eq-ok (step k s) (scan ls) h in
    ground (arith, now, scan-snoc ls l m s' later)

scan-file :
    (log : List LogEvent) (s : State) → IsPlain log → (s' : State) × (scan (file_of log) s ≡ ok s')
unfolding scan
scan-file [] s h = (s, refl)
scan-file (e ∷ es) s h =
    let (s', q) = scan-file es s h.1 in
    let (s'', q') = step-line e s' h.0 in (s'', scan-snoc (file_of es) (line_of e) s s' q ∙ q')

pub check_consistency-file :
    (interval : ℕ) (log : List LogEvent)
    → IsPlain log
    → (r : CheckResult) × (check_consistency interval (file_of log) ≡ ok r)
unfolding check_consistency
check_consistency-file interval log h =
    let (s, q) = scan-file log initial h in (verdict interval s, rw q refl)

-- Some read has succeeded.
abbrev pub has_read : List LogEvent → Bool
has_read log = elim (newest_read log) [ none ↦ false | some zs ↦ true ]

module _ (interval : ℕ) (log : List LogEvent) (plain : IsPlain log) (r : CheckResult)
    (checked : check_consistency interval (file_of log) ≡ ok r) where
  valid-read : (zs : List ℤ) → newest_read log ≡ some zs → Agrees log zs → r.valid ≡ true
  valid-read zs e a =
      (check_consistency-valid interval (file_of log) r checked zs (last_read-file log ∙ e)).1
        (confirmed_lem, invoked_lem)
    where
      confirmed_lem : (z : ℤ) → logged success (file_of log) z ≡ true → contains zs z ≡ true
      confirmed_lem (pos v) h = ground (arith, logged-success log plain v, a.all_confirmed v)
      confirmed_lem (negsuc k) h = ground (arith, logged-negsuc success log plain k)

      invoked_lem : (z : ℤ) → contains zs z ≡ true → logged invoke (file_of log) z ≡ true
      invoked_lem (pos v) h = ground (arith, logged-invoke log plain v, a.all_invoked v)
      invoked_lem (negsuc k) h = ground (arith, a.natural k)

  valid_lem : ((zs : List ℤ) → newest_read log ≡ some zs → Agrees log zs) → r.valid ≡ has_read log
  valid_lem a = elim (Option-cases (newest_read log)) [
    | inl e ↦
        rw (check_consistency-unread interval (file_of log) r checked (last_read-file log ∙ e))
          (ground (arith, e))
    | inr (zs, e) ↦ ground (arith, e, valid-read zs e (a zs e))
  ]

module _ (client : DatabaseClient) (clock : List LogEvent → ℕ) (durable : IsDurable client)
    (per_node interval : ℕ) where
  open client use {Db}
  open durable use {has}

  -- The checker accepts what a durable database leaves, which is empty at the start: for every
  -- schedule of the writers, the timed-out calls, the reads and the stops, and whatever calls fail
  -- or time out, the check of the operations log returns, and the result is valid exactly if some
  -- read has succeeded.
  pub check_consistency-reached :
      (ms : List Move) (d : Db)
      → ((v : ℕ) → has d v ≡ false)
      → (r : CheckResult) × (check_consistency interval
            (file_of (reached client clock per_node ms d).shared.log)
          ≡ ok r)
        × (r.valid ≡ has_read (reached client clock per_node ms d).shared.log)
  check_consistency-reached ms d empty =
      let log = (reached client clock per_node ms d).shared.log in
      let sound = run-Sound client clock durable per_node ms d empty in
      let (r, e) = check_consistency-file interval log sound.plain in
      (r, e, valid_lem interval log sound.plain r e sound.read_agrees)
