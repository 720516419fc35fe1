-- ===== src/Load/Durable.antt =====
-- load_generator.py over a database that keeps what it confirmed: what the writes and reads leave in
-- the operations log.
mod Values
mod Writes
mod Reads
mod Daemons
mod Writers
pub mod Runs
use faultstorm.Prelude.{
  ℕ, ◌≡◌, Bool, true, false, not, ◌&&◌, ◌||◌, List, [], ◌∷◌, Option, none, some, ℤ, pos, negsuc,
  Result, ok, err, All, map, contains, get_elem?, ◌==◌, nat_eq, int_eq,
}
use faultstorm.Text.{Text}
use faultstorm.Checker.Consistency.{EventType, success, add_op, read_op, Value, num, list}
use faultstorm.Load.Client.{DatabaseClient}
use faultstorm.Load.Generator.{LogEvent, sorted}
use faultstorm.Load.Threads.{
  Pc, performed, answered, Main, writing, joining, fetched, replied, Task, add_task, read_task,
  Daemon, Shared, System, is_finished, threads,
}
use faultstorm.Load.History.{is_invoke, logs}

-- What DatabaseClient asks of an implementation: `add` writes the value durably or raises, no call
-- takes a value back or brings in another one, and `read` returns all values and no others. The values
-- are natural numbers, as those that are added.
pub record IsDurable (client : DatabaseClient) : Type 0 where
  pub has : client.Db → ℕ → Bool
  pub add_written :
      (n : Text) (v : ℕ) (d : client.Db)
      → (client.add n v d).0 ≡ ok tt
      → has (client.add n v d).1 v ≡ true
  pub add_keeps :
      (n : Text) (v u : ℕ) (d : client.Db) → has d u ≡ true → has (client.add n v d).1 u ≡ true
  pub add_only :
      (n : Text) (v u : ℕ) (d : client.Db)
      → has (client.add n v d).1 u ≡ true
      → (v == u || has d u) ≡ true
  pub read_keeps : (n : Text) (u : ℕ) (d : client.Db) → has (client.read n d).1 u ≡ has d u
  pub read_all :
      (n : Text) (d : client.Db) (vs : List ℤ)
      → (client.read n d).0 ≡ ok vs
      → (u : ℕ) → contains vs (pos u) ≡ has d u
  pub read_only :
      (n : Text) (d : client.Db) (vs : List ℤ)
      → (client.read n d).0 ≡ ok vs
      → (k : ℕ) → contains vs (negsuc k) ≡ false

abbrev pub is_success : EventType → Bool
is_success success = true
is_success _ = false

-- The values of the newest successful read in a log whose newest event stands first.
abbrev pub read_by : EventType → Value → Option (List ℤ)
read_by success (list zs) = some zs
read_by t v = none

abbrev pub read_in : LogEvent → Option (List ℤ)
read_in e = elim e.action [ read_op ↦ read_by e.type e.value | _ ↦ none ]

abbrev pub newest_read : List LogEvent → Option (List ℤ)
newest_read [] = none
newest_read (e ∷ es) = elim (read_in e) [ some zs ↦ some zs | none ↦ newest_read es ]

-- The values that a read has returned, before they are in the log.
abbrev pub got : Main → Option (List ℤ)
got (fetched n (ok vs)) = some (sorted vs)
got (replied n (ok vs)) = some (sorted vs)
got m = none

-- The value that the database has confirmed, before the writer has logged it.
abbrev pub wrote : Pc → Option ℕ
wrote (performed v (ok _)) = some v
wrote (answered v (ok _)) = some v
wrote p = none

-- Whether the writers were joined.
abbrev pub is_joined : Main → Bool
is_joined writing = false
is_joined joining = false
is_joined m = true

-- The values of the read are those that the check wants: every confirmed one, and only attempted
-- ones.
pub record Agrees (log : List LogEvent) (zs : List ℤ) : Type 0 where
  pub all_confirmed : (v : ℕ) → logs is_success log v ≡ true → contains zs (pos v) ≡ true
  pub all_invoked : (v : ℕ) → contains zs (pos v) ≡ true → logs is_invoke log v ≡ true
  pub natural : (k : ℕ) → contains zs (negsuc k) ≡ false

abbrev pub is_natural : Value → Bool
is_natural (num (pos v)) = true
is_natural _ = false

abbrev pub is_plain : LogEvent → Bool
is_plain e = elim e.action [ add_op ↦ is_natural e.value | _ ↦ true ]

abbrev pub task_value : Task → Option ℕ
task_value (add_task n v) = some v
task_value (read_task n) = none

abbrev pub IsKnown : List LogEvent → Daemon → Type 0
IsKnown log t = (v : ℕ) → task_value t.task ≡ some v → logs is_invoke log v ≡ true

module _ (client : DatabaseClient) (durable : IsDurable client) where
  open client use {Db}
  open durable use {has}

  -- What holds of the database and the log, with the writers `f` on the nodes `ns`.
  pub record Sound (ns : List Text) (d : Db) (log : List LogEvent) (ts : List Daemon) (f : ℕ → Pc)
      (m : Main) : Type 0 where
    pub started : (v : ℕ) → has d v ≡ true → logs is_invoke log v ≡ true
    pub known : All (IsKnown log) ts
    pub confirmed : (v : ℕ) → logs is_success log v ≡ true → has d v ≡ true
    pub in_flight : (i v : ℕ) → wrote (f i) ≡ some v → has d v ≡ true
    pub fetched_agrees : (zs : List ℤ) → got m ≡ some zs → Agrees log zs
    pub read_agrees : (zs : List ℤ) → newest_read log ≡ some zs → Agrees log zs
    pub read_late : (zs : List ℤ) → newest_read log ≡ some zs → is_joined m ≡ true
    pub over :
        (i : ℕ) (n : Text) → is_joined m ≡ true → get_elem? ns i ≡ some n → is_finished (f i) ≡ true
    pub plain : All (λ e. is_plain e ≡ true) log
