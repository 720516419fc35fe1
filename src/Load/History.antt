-- ===== src/Load/History.antt =====
-- load_generator.py: the order of events in the operations log, and the values that are in flight.
mod Moves
pub mod Runs
use faultstorm.Prelude.{
  ℕ, ◌≤◌, ◌≡◌, Bool, true, false, ◌&&◌, ◌||◌, List, [], ◌∷◌, Option, none, some, pos, ◌==◌, nat_eq,
}
use faultstorm.Checker.Consistency.{EventType, invoke, success, fail, info, add_op, Value, num}
use faultstorm.Load.Generator.{LogEvent}
use faultstorm.Load.Threads.{Pc, numbered, invoked, late, performed, answered}

abbrev pub is_value : Value → ℕ → Bool
is_value (num (pos n)) v = n == v
is_value _ v = false

abbrev pub is_invoke : EventType → Bool
is_invoke invoke = true
is_invoke _ = false

abbrev pub is_outcome : EventType → Bool
is_outcome success = true
is_outcome fail = true
is_outcome info = true
is_outcome _ = false

-- The event is an add of `v` with such a type.
abbrev pub is_event : (EventType → Bool) → LogEvent → ℕ → Bool
is_event p e v = elim e.action [ add_op ↦ p e.type && is_value e.value v | _ ↦ false ]

abbrev pub logs : (EventType → Bool) → List LogEvent → ℕ → Bool
logs p [] v = false
logs p (e ∷ es) v = is_event p e v || logs p es v

-- No value is invoked twice, and an outcome stands behind the INVOKE of its value and is the only
-- one; the newest event stands first.
abbrev pub IsHistory : List LogEvent → Type 0
IsHistory [] = Unit
IsHistory (e ∷ es) =
    ((v : ℕ) → is_event is_invoke e v ≡ true → logs is_invoke es v ≡ false)
    × ((v : ℕ)
        → is_event is_outcome e v ≡ true
        → (logs is_invoke es v ≡ true) × (logs is_outcome es v ≡ false))
    × IsHistory es

-- The value that a writer works on.
abbrev pub holds : Pc → Option ℕ
holds (numbered v) = some v
holds (invoked v) = some v
holds (late v) = some v
holds (performed v r) = some v
holds (answered v r) = some v
holds _ = none

-- The value whose INVOKE it has logged, and not yet the outcome.
abbrev pub flies : Pc → Option ℕ
flies (numbered v) = none
flies p = holds p

abbrev pub numbers : Pc → Option ℕ
numbers (numbered v) = some v
numbers p = none

pub record Inv (counter : ℕ) (log : List LogEvent) (f : ℕ → Pc) : Type 0 where
  pub below : (i v : ℕ) → holds (f i) ≡ some v → v ≤ counter
  pub distinct : (i j v : ℕ) → holds (f i) ≡ some v → holds (f j) ≡ some v → i ≡ j
  pub fresh : (i v : ℕ) → numbers (f i) ≡ some v → logs is_invoke log v ≡ false
  pub flying :
      (i v : ℕ)
      → flies (f i) ≡ some v
      → (logs is_invoke log v ≡ true) × (logs is_outcome log v ≡ false)
  pub known : (v : ℕ) → logs is_invoke log v ≡ true → v ≤ counter
  pub settled : (v : ℕ) → logs is_outcome log v ≡ true → logs is_invoke log v ≡ true
  pub history : IsHistory log
