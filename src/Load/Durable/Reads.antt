-- ===== src/Load/Durable/Reads.antt =====
-- load_generator.py: what the moves of the main thread do to the database and the log.
use faultstorm.Prelude.{
  ℕ, ◌≡◌, ◌⊎◌, inl, inr, refl, Bool, true, false, List, [], ◌∷◌, ◌++◌, none, some, ℤ, pos, negsuc,
  Result, ok, ◌∙◌, err, All-append, get_elem?, nat_eq, int_eq, arith, Option-cases,
}
use faultstorm.Text.{Text}
use faultstorm.Checker.Consistency.{EventType}
use faultstorm.Load.Client.{DatabaseClient}
use faultstorm.Load.Generator.{LogEvent}
use faultstorm.Load.Threads.{Pc, Main, fetched, Daemon, is_finished}
use faultstorm.Load.History.{is_invoke, is_event}
use faultstorm.Load.Durable.Values.{contains-sorted, IsKnown-cons}
use faultstorm.Load.Durable.{
  IsDurable, is_success, read_in, newest_read, got, is_joined, Agrees, is_plain, IsKnown, Sound,
}

-- An event that is no add says nothing of any value.
pub read-Agrees :
    (e : LogEvent) (log : List LogEvent) (zs : List ℤ)
    → ((p : EventType → Bool) (u : ℕ) → is_event p e u ≡ false)
    → Agrees log zs
    → Agrees (e ∷ log) zs
read-Agrees e log zs o a = record {
  all_confirmed = λ v h. ground (arith, a.all_confirmed v, o is_success v);
  all_invoked = λ v h. ground (arith, a.all_invoked v, o is_invoke v);
  natural = a.natural;
}

newest_cases :
    (e : LogEvent) (log : List LogEvent) (zs : List ℤ)
    → newest_read (e ∷ log) ≡ some zs
    → (read_in e ≡ some zs) ⊎ (newest_read log ≡ some zs)
newest_cases e log zs h = elim (Option-cases (read_in e)) [
  | inl q ↦ inr (ground arith)
  | inr (ys, q) ↦ inl (ground arith)
]

some_inj : {xs ys : List ℤ} → some xs ≡ some ys → xs ≡ ys
some_inj h = ground arith

module _ (client : DatabaseClient) (durable : IsDurable client) where
  open client use {Db, add, read}
  open durable use {has, add_written, add_keeps, add_only, read_keeps, read_all, read_only}

  module _ (ns : List Text) (log : List LogEvent) (f : ℕ → Pc) where
    -- A caller gives up on a thread, whose value is invoked if it has one.
    pub abandon-Sound :
        (ts : List Daemon) (m : Main) (d : Db) (t : Daemon)
        → IsKnown log t
        → Sound client durable ns d log ts f m
        → Sound client durable ns d log (ts ++ t ∷ []) f m
    abandon-Sound ts m d t k inv = record {
      started = inv.started;
      known = All-append (IsKnown log) ts (t ∷ []) inv.known (k, tt);
      confirmed = inv.confirmed;
      in_flight = inv.in_flight;
      fetched_agrees = inv.fetched_agrees;
      read_agrees = inv.read_agrees;
      read_late = inv.read_late;
      over = inv.over;
      plain = inv.plain;
    }

    -- The main thread goes on, without a call that it waits for.
    pub main-Sound :
        (ts : List Daemon) (m m' : Main) (d : Db)
        → (got m' ≡ none) ⊎ (got m' ≡ got m)
        → (is_joined m ≡ true → is_joined m' ≡ true)
        → (is_joined m' ≡ true
            → (is_joined m ≡ true)
              ⊎ ((i : ℕ) (n : Text) → get_elem? ns i ≡ some n → is_finished (f i) ≡ true))
        → Sound client durable ns d log ts f m
        → Sound client durable ns d log ts f m'
    main-Sound ts m m' d g j o inv = record {
      started = inv.started;
      known = inv.known;
      confirmed = inv.confirmed;
      in_flight = inv.in_flight;
      fetched_agrees = λ zs h. ground (arith, inv.fetched_agrees zs);
      read_agrees = inv.read_agrees;
      read_late = λ zs h. j (inv.read_late zs h);
      over = λ i n h e. elim (o h) [ inl q ↦ inv.over i n q e | inr q ↦ q i n e ];
      plain = inv.plain;
    }

    -- The database answers a read.
    pub fetch-Sound :
        (ts : List Daemon) (m : Main) (d : Db) (n : Text)
        → is_joined m ≡ true
        → Sound client durable ns d log ts f m
        → Sound client durable ns (read n d).1 log ts f (fetched n (read n d).0)
    fetch-Sound ts m d n j inv = record {
      started = λ v h. ground (arith, read_keeps n v d, inv.started v);
      known = inv.known;
      confirmed = λ v h. ground (arith, read_keeps n v d, inv.confirmed v);
      in_flight = λ i v h. ground (arith, read_keeps n v d, inv.in_flight i v);
      fetched_agrees = λ zs h. fetched-Agrees (read n d).0 refl zs h;
      read_agrees = inv.read_agrees;
      read_late = λ zs h. refl;
      over = λ i n h e. inv.over i n j e;
      plain = inv.plain;
    }
      where
        fetched-Agrees :
            (r : Result (List ℤ))
            → (read n d).0 ≡ r
            → (zs : List ℤ) → got (fetched n r) ≡ some zs
            → Agrees log zs
        fetched-Agrees (ok vs) e zs h = rw (← some_inj h) (record {
          all_confirmed = λ v q.
              ground (arith, contains-sorted (pos v) vs, read_all n d vs e v, inv.confirmed v);
          all_invoked =
              λ v q. ground (arith, contains-sorted (pos v) vs, read_all n d vs e v, inv.started v);
          natural = λ k. contains-sorted (negsuc k) vs ∙ read_only n d vs e k;
        })
        fetched-Agrees (err x) e zs h = cc

    -- The main thread logs an event of a read.
    pub note-Sound :
        (ts : List Daemon) (m m' : Main) (d : Db) (e : LogEvent)
        → ((p : EventType → Bool) (u : ℕ) → is_event p e u ≡ false)
        → is_plain e ≡ true
        → (read_in e ≡ none) ⊎ (read_in e ≡ got m)
        → is_joined m ≡ true
        → is_joined m' ≡ true
        → got m' ≡ none
        → Sound client durable ns d log ts f m
        → Sound client durable ns d (e ∷ log) ts f m'
    note-Sound ts m m' d e o pl r j j' g inv = record {
      started = λ v h. ground (arith, inv.started v);
      known = IsKnown-cons e log ts inv.known;
      confirmed = λ v h. ground (arith, inv.confirmed v, o is_success v);
      in_flight = inv.in_flight;
      fetched_agrees = λ zs h. cc;
      read_agrees = λ zs h. read-Agrees e log zs o (newest zs (newest_cases e log zs h));
      read_late = λ zs h. j';
      over = λ i n h q. inv.over i n j q;
      plain = (pl, inv.plain);
    }
      where
        newest : (zs : List ℤ) → (read_in e ≡ some zs) ⊎ (newest_read log ≡ some zs) → Agrees log zs
        newest zs (inl q) = inv.fetched_agrees zs (ground arith)
        newest zs (inr q) = inv.read_agrees zs q
