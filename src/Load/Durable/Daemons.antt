-- ===== src/Load/Durable/Daemons.antt =====
-- load_generator.py: the calls of threads whose callers have timed out reach the database later.
use faultstorm.Prelude.{
  ℕ, zero, suc, ◌≡◌, ◌⊎◌, inl, inr, true, List, [], ◌∷◌, some, All, arith, nat_eq,
}
use faultstorm.Text.{Text}
use faultstorm.Load.Client.{DatabaseClient}
use faultstorm.Load.Generator.{LogEvent}
use faultstorm.Load.Threads.{Pc, Main, Task, add_task, read_task, Daemon, perform, perform_at}
use faultstorm.Load.History.{is_invoke, logs}
use faultstorm.Load.Durable.{IsDurable, task_value, IsKnown, Sound}

module _ (client : DatabaseClient) (clock : List LogEvent → ℕ) (durable : IsDurable client) where
  open client use {Db, add, read}
  open durable use {has, add_keeps, add_only, read_keeps}

  perform-has :
      (t : Task) (u : ℕ) (d : Db)
      → (has d u ≡ true → has (perform client clock t d) u ≡ true)
        × (has (perform client clock t d) u ≡ true → (task_value t ≡ some u) ⊎ (has d u ≡ true))
  unfolding perform
  perform-has (add_task n v) u d = (add_keeps n v u d, λ h. ground (arith, add_only n v u d))
  perform-has (read_task n) u d =
      (λ h. ground (arith, read_keeps n u d), λ h. ground (arith, read_keeps n u d))

  -- What a late call leaves of the other threads and of the database.
  record Late (log : List LogEvent) (d d' : Db) (ts' : List Daemon) : Type 0 where
    known : All (IsKnown log) ts'
    keeps : (u : ℕ) → has d u ≡ true → has d' u ≡ true
    only : (u : ℕ) → has d' u ≡ true → (logs is_invoke log u ≡ true) ⊎ (has d u ≡ true)

  perform_at-Late :
      (k : ℕ) (log : List LogEvent) (ts : List Daemon) (d : Db)
      → All (IsKnown log) ts
      → Late log d (perform_at client clock k ts d).1 (perform_at client clock k ts d).0
  unfolding perform_at
  perform_at-Late k log [] d h = record { known = tt; keeps = λ u q. q; only = λ u q. inr q }
  perform_at-Late zero log (t ∷ ts) d h = record {
    known = h;
    keeps = λ u q. ground (arith, perform-has t.task u d);
    only = λ u q. ground (arith, perform-has t.task u d, h.0 u);
  }
  perform_at-Late (suc k) log (t ∷ ts) d h =
      let rest = perform_at-Late k log ts d h.1 in
      record { known = (h.0, rest.known); keeps = rest.keeps; only = rest.only }

  pub daemon-Sound :
      (ns : List Text) (k : ℕ) (d : Db) (log : List LogEvent) (ts : List Daemon) (f : ℕ → Pc)
      (m : Main)
      → Sound client durable ns d log ts f m
      → Sound client durable ns
          (perform_at client clock k ts d).1
          log
          (perform_at client clock k ts d).0
          f
          m
  daemon-Sound ns k d log ts f m inv =
      let late = perform_at-Late k log ts d inv.known in
      record {
        started = λ v h. elim (late.only v h) [ inl q ↦ q | inr q ↦ inv.started v q ];
        known = late.known;
        confirmed = λ v h. late.keeps v (inv.confirmed v h);
        in_flight = λ i v h. late.keeps v (inv.in_flight i v h);
        fetched_agrees = inv.fetched_agrees;
        read_agrees = inv.read_agrees;
        read_late = inv.read_late;
        over = inv.over;
        plain = inv.plain;
      }
