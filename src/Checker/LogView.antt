-- ===== src/Checker/LogView.antt =====
-- checker.py: the pass over the log, against a description of the log that does not mention the
-- state of `check_consistency`.
use faultstorm.Prelude.{
  ℕ, ◌≡◌, Bool, true, false, ◌&&◌, ◌||◌, List, [], ◌∷◌, Option, none, some, ℤ, pos, contains,
  contains-add, to_set, ok, err, arith, ◌==◌, int_eq, nat_eq, >>=-eq-ok, Result-cases, inl, inr,
}
use faultstorm.Text.Decimal.{int}
use faultstorm.Checker.Consistency.{
  EventType, invoke, success, fail, add_op, read_op, Value, null, other, infinity, nan, num, float,
  bool, text, list, Line, blank, malformed, entry, State, int_value, step, scan, note_invoke,
  note_ok, note_add, note_read, step_add, step_op, counted,
}

-- `v` is the value of this line, an add of type `t`.
abbrev pub same_type : EventType → EventType → Bool
same_type invoke invoke = true
same_type success success = true
same_type fail fail = true
same_type _ _ = false

abbrev pub holds : Value → ℤ → Bool
holds null v = false
holds w v = elim (int_value w) [ ok z ↦ z == v | err _ ↦ false ]

abbrev pub is_add : EventType → Line → ℤ → Bool
is_add t (entry op) v = elim op.action [
  | add_op ↦ same_type op.type t && holds op.value v
  | _ ↦ false
]
is_add t _ v = false

-- The log has an add of `v` of type `t`.
abbrev pub logged : EventType → List Line → ℤ → Bool
logged t [] v = false
logged t (l ∷ ls) v = is_add t l v || logged t ls v

abbrev pub read_of_value : Value → Option (List ℤ)
read_of_value (list vs) = some vs
read_of_value _ = none

abbrev pub read_of_event : EventType → Value → Option (List ℤ)
read_of_event success w = read_of_value w
read_of_event t w = none

abbrev pub read_of : Line → Option (List ℤ)
read_of (entry op) = elim op.action [ read_op ↦ read_of_event op.type op.value | _ ↦ none ]
read_of _ = none

-- The values of the last successful read.
abbrev pub last_read : List Line → Option (List ℤ)
last_read [] = none
last_read (l ∷ ls) = elim (last_read ls) [ some vs ↦ some vs | none ↦ read_of l ]

note_add-sets :
    (t : EventType) (ts : Option ℕ) (z : ℤ) (s : State) (v : ℤ)
    → (contains (note_add t ts z s).attempted v
        ≡ (same_type t invoke && z == v || contains s.attempted v))
      × (contains (note_add t ts z s).successful v
          ≡ (same_type t success && z == v || contains s.successful v))
      × ((note_add t ts z s).final_read ≡ s.final_read)
      × ((note_add t ts z s).read_count ≡ s.read_count)
unfolding note_add note_invoke note_ok
note_add-sets invoke (some ts) z s v = ground (arith, contains-add z v s.attempted)
note_add-sets invoke none z s v = ground (arith, contains-add z v s.attempted)
note_add-sets success (some ts) z s v = ground (arith, contains-add z v s.successful)
note_add-sets success none z s v = ground (arith, contains-add z v s.successful)
note_add-sets _ ts z s v = ground arith

abbrev pub or_old : Option (List ℤ) → List ℤ → List ℤ
or_old none old = old
or_old (some vs) old = to_set vs

abbrev pub none_read : Option (List ℤ) → Bool → Bool
none_read none before = before
none_read (some vs) before = false

-- What a part of the log adds to the sets, and which read it leaves.
pub record Adds (tried confirmed : Bool) (seen : Option (List ℤ)) (s s' : State) (v : ℤ)
    : Type 0 where
  pub attempted : contains s'.attempted v ≡ (tried || contains s.attempted v)
  pub successful : contains s'.successful v ≡ (confirmed || contains s.successful v)
  pub final : s'.final_read ≡ or_old seen s.final_read
  pub unread : (s'.read_count == 0) ≡ none_read seen (s.read_count == 0)

step_add-Adds :
    (t : EventType) (w : Value) (ts : Option ℕ) (s s' : State) (v : ℤ)
    → step_add t w ts s ≡ ok s'
    → Adds (same_type t invoke && holds w v) (same_type t success && holds w v) none s s' v
unfolding step_add
step_add-Adds t null ts s s' v h = ground arith
step_add-Adds t other ts s s' v h = ground arith
step_add-Adds t infinity ts s s' v h = ground arith
step_add-Adds t nan ts s s' v h = ground arith
step_add-Adds t (num z) ts s s' v h = ground (arith, note_add-sets t ts z s v)
step_add-Adds t (float z) ts s s' v h = ground (arith, note_add-sets t ts z s v)
step_add-Adds t (bool true) ts s s' v h = ground (arith, note_add-sets t ts (pos 1) s v)
step_add-Adds t (bool false) ts s s' v h = ground (arith, note_add-sets t ts (pos 0) s v)
step_add-Adds t (text x) ts s s' v h = elim (Result-cases (int x)) [
  | inl (z, e) ↦ ground (arith, e, note_add-sets t ts z s v)
  | inr (c, e) ↦ ground (arith, e)
]
step_add-Adds t (list vs) ts s s' v h = ground arith

note_read-Adds :
    (t : EventType) (w : Value) (s : State) (v : ℤ)
    → Adds false false (read_of_event t w) s (note_read t w s) v
unfolding note_read
note_read-Adds t w s v = ground arith

step-Adds :
    (l : Line) (s s' : State) (v : ℤ)
    → step l s ≡ ok s'
    → Adds (is_add invoke l v) (is_add success l v) (read_of l) s s' v
unfolding step step_op
step-Adds blank s s' v h = ground arith
step-Adds malformed s s' v h = ground arith
step-Adds (entry op) s s' v h = ground (
  arith,
  step_add-Adds op.type op.value op.timestamp (counted s) s' v,
  note_read-Adds op.type op.value (counted s) v,
)

pub scan-Adds :
    (ls : List Line) (s s' : State) (v : ℤ)
    → scan ls s ≡ ok s'
    → Adds (logged invoke ls v) (logged success ls v) (last_read ls) s s' v
unfolding scan
scan-Adds [] s s' v h = ground arith
scan-Adds (l ∷ ls) s s' v h =
    let (m, now, later) = >>=-eq-ok (step l s) (scan ls) h in
    ground (arith, step-Adds l s m v now, scan-Adds ls m s' v later)
