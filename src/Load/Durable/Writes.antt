-- ===== src/Load/Durable/Writes.antt =====
-- load_generator.py: what the moves of a writer do to the database and the log.
use faultstorm.Prelude.{ℕ, ◌≡◌, ◌⊎◌, true, false, List, ◌∷◌, none, nat_eq, int_eq, arith}
use faultstorm.Text.{Text}
use faultstorm.Load.Client.{DatabaseClient}
use faultstorm.Load.Generator.{LogEvent}
use faultstorm.Load.Threads.{Pc, performed, Main, Daemon, put, is_finished}
use faultstorm.Load.History.{is_invoke, is_event, logs}
use faultstorm.Load.Durable.Values.{IsKnown-cons}
use faultstorm.Load.Durable.{IsDurable, is_success, read_in, got, wrote, is_joined, is_plain, Sound}

got_joined : (m : Main) → is_joined m ≡ false → got m ≡ none
got_joined m h = ground arith

module _ (client : DatabaseClient) (durable : IsDurable client) where
  open client use {Db, add, read}
  open durable use {has, add_written, add_keeps, add_only, read_keeps, read_all}

  module _ (ns : List Text) (ts : List Daemon) (log : List LogEvent) (f : ℕ → Pc) (m : Main) where
    abbrev SoundBy : Db → Type 0
    SoundBy d = Sound client durable ns d log ts f m

    -- A move of writer `i` that neither logs nor calls the database; it ends in `finished`, or the
    -- writers are not joined yet.
    pub silent-Sound :
        (d : Db) (i : ℕ) (p : Pc)
        → (wrote p ≡ none) ⊎ (wrote p ≡ wrote (f i))
        → (is_joined m ≡ false) ⊎ (is_finished p ≡ true)
        → SoundBy d
        → Sound client durable ns d log ts (put f i p) m
    silent-Sound d i p w j inv = record {
      started = inv.started;
      known = inv.known;
      confirmed = inv.confirmed;
      in_flight = λ k v h. ground (arith, inv.in_flight k v);
      fetched_agrees = inv.fetched_agrees;
      read_agrees = inv.read_agrees;
      read_late = inv.read_late;
      over = λ k n h g. ground (arith, inv.over k n);
      plain = inv.plain;
    }

    -- The database answers a writer.
    pub perform-Sound :
        (d : Db) (i v : ℕ) (n : Text)
        → is_joined m ≡ false
        → logs is_invoke log v ≡ true
        → SoundBy d
        → Sound client durable ns (add n v d).1 log ts (put f i (performed v (add n v d).0)) m
    perform-Sound d i v n j l inv = record {
      started = λ u h. ground (arith, add_only n v u d, inv.started u);
      known = inv.known;
      confirmed = λ u h. add_keeps n v u d (inv.confirmed u h);
      in_flight = λ k u h. ground (arith, add_written n v d, add_keeps n v u d, inv.in_flight k u);
      fetched_agrees = inv.fetched_agrees;
      read_agrees = inv.read_agrees;
      read_late = inv.read_late;
      over = λ k n h g. cc;
      plain = inv.plain;
    }

    -- A writer logs an event of its add.
    pub log-Sound :
        (d : Db) (i : ℕ) (p : Pc) (e : LogEvent)
        → is_joined m ≡ false
        → wrote p ≡ none
        → ((u : ℕ) → is_event is_success e u ≡ true → has d u ≡ true)
        → read_in e ≡ none
        → is_plain e ≡ true
        → SoundBy d
        → Sound client durable ns d (e ∷ log) ts (put f i p) m
    log-Sound d i p e j w c r pl inv = record {
      started = λ u h. ground (arith, inv.started u);
      known = IsKnown-cons e log ts inv.known;
      confirmed = λ u h. ground (arith, c u, inv.confirmed u);
      in_flight = λ k u h. ground (arith, inv.in_flight k u);
      fetched_agrees = λ zs h. ground (arith, got_joined m);
      read_agrees = λ zs h. ground (arith, inv.read_late zs);
      read_late = λ zs h. ground (arith, inv.read_late zs);
      over = λ k n h g. cc;
      plain = (pl, inv.plain);
    }
