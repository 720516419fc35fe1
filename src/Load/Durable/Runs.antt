-- ===== src/Load/Durable/Runs.antt =====
-- load_generator.py: every schedule over a durable database keeps the two invariants.
use faultstorm.Prelude.{
  ℕ, ℤ, zero, suc, ◌≡◌, ◌<◌, sym, ◌⊎◌, inl, inr, refl, Bool, true, false, List, [], ◌∷◌, Option,
  none, some, Result, ok, err, timeout_error, if◌then◌else◌, get_elem?, get_elem?-lt, length, arith,
  nat_eq,
}
use faultstorm.Text.{Text}
use faultstorm.Load.Client.{DatabaseClient}
use faultstorm.Load.Generator.{sorted, LogEvent, log_event, get_next_node, read_concludes}
use faultstorm.Load.Threads.{
  Pc, Main, writing, joining, draining, reading, pausing, done, chosen, asked, overdue, fetched,
  replied, raised, Timing, in_time, too_late, read_task, Move, writer, daemon, main, stop, Shared,
  System, stop_is, next_read, abandon, drain_pending, is_finished, all_finished, continue, threads,
  write_by, step, run, start, reached,
}
use faultstorm.Load.History.{Inv}
use faultstorm.Load.History.Runs.{step-Inv, run-Inv}
use faultstorm.Load.Durable.{IsDurable, got, is_joined, Sound}
use faultstorm.Load.Durable.Reads.{abandon-Sound, main-Sound, fetch-Sound, note-Sound}
use faultstorm.Load.Durable.Writers.{advance-Sound}
use faultstorm.Load.Durable.Daemons.{daemon-Sound}

-- After the joins, every writer has finished.
all_finished_lem :
    (k : ℕ) (f : ℕ → Pc) (i : ℕ) → i < k → all_finished k f ≡ true → is_finished (f i) ≡ true
unfolding all_finished
all_finished_lem zero f i l h = absurd (omega arith)
all_finished_lem (suc k) f i l h = ground (arith, all_finished_lem k f i)

module _ (client : DatabaseClient) (clock : List LogEvent → ℕ) (durable : IsDurable client)
    (per_node : ℕ) where
  open client use {Db, get_db_nodes}
  open durable use {has}

  abbrev ns : List Text
  ns = threads client clock per_node

  abbrev SoundOf : Shared Db → (ℕ → Pc) → Main → Type 0
  SoundOf s f m = Sound client durable ns s.db s.log s.daemons f m

  abbrev After : Main × Shared Db → (ℕ → Pc) → Type 0
  After r f = SoundOf r.1 f r.0

  if-After :
      (b : Bool) (x y : Main × Shared Db) (f : ℕ → Pc)
      → (b ≡ true → After x f)
      → After y f
      → After (if b then x else y) f
  if-After true x y f h k = h refl
  if-After false x y f h k = k

  -- The main thread goes on behind the joins.
  on-Sound :
      (s : Shared Db) (f : ℕ → Pc) (m m' : Main)
      → is_joined m ≡ true
      → is_joined m' ≡ true
      → (got m' ≡ none) ⊎ (got m' ≡ got m)
      → SoundOf s f m
      → SoundOf s f m'
  on-Sound s f m m' j j' g inv =
      main-Sound client durable ns s.log f s.daemons m m' s.db g (λ h. j') (λ h. inl j) inv

  next_read-joined : (r : Result Text) → is_joined (next_read client clock r) ≡ true
  next_read-joined (ok n) = refl
  next_read-joined (err x) = refl

  next_read-got : (r : Result Text) → got (next_read client clock r) ≡ none
  next_read-got (ok n) = refl
  next_read-got (err x) = refl

  read_concludes-Sound :
      (r : Result (List ℤ)) (n : Text) (s : Shared Db) (f : ℕ → Pc) (m : Main)
      → is_joined m ≡ true
      → ((vs : List ℤ) → r ≡ ok vs → got m ≡ some (sorted vs))
      → SoundOf s f m
      → Sound client durable ns s.db (read_concludes client clock r n s.log) s.daemons f pausing
  unfolding read_concludes log_event
  read_concludes-Sound (ok vs) n s f m j g inv =
      note-Sound client durable ns s.log f s.daemons m pausing s.db _ (λ p u. refl) refl
        (inr (sym (g vs refl))) j refl refl inv
  read_concludes-Sound (err x) n s f m j g inv =
      note-Sound client durable ns s.log f s.daemons m pausing s.db _ (λ p u. refl) refl (inl refl)
        j refl refl inv

  overdue-Sound :
      (s : Shared Db) (f : ℕ → Pc) (m : Main) (n : Text) (seen : Bool)
      → is_joined m ≡ true
      → SoundOf s f m
      → SoundOf (abandon (read_task n) seen s) f (overdue n)
  unfolding abandon
  overdue-Sound s f m n seen j inv =
      abandon-Sound client durable ns s.log f s.daemons (overdue n) s.db _ (λ u q. cc)
        (on-Sound s f m (overdue n) j refl (inl refl) inv)

  continue-Sound :
      (t : Timing) (m : Main) (s : Shared Db) (f : ℕ → Pc)
      → SoundOf s f m
      → After (continue client clock (all_finished (length ns) f) t m s) f
  unfolding continue log_event drain_pending
  continue-Sound t writing s f inv =
      main-Sound client durable ns s.log f s.daemons writing joining s.db (inl refl) (λ h. cc)
        (λ h. cc) inv
  continue-Sound t joining s f inv =
      if-After (all_finished (length ns) f) (draining, drain_pending s) (joining, s) f
        (λ h.
          main-Sound client durable ns s.log f s.daemons joining draining s.db (inl refl)
            (λ j. refl)
            (λ j. inr λ i n e. all_finished_lem (length ns) f i (get_elem?-lt ns i n e) h) inv)
        inv
  continue-Sound t draining s f inv = on-Sound s f draining reading refl refl (inl refl) inv
  continue-Sound too_late reading s f inv = on-Sound s f reading done refl refl (inl refl) inv
  continue-Sound in_time reading s f inv =
      let (r, g) = get_next_node get_db_nodes s.generator in
      if-After (stop_is s) (done, s) (next_read client clock r, record s { generator = g }) f
        (λ h. on-Sound s f reading done refl refl (inl refl) inv)
        (on-Sound s f reading (next_read client clock r) refl (next_read-joined r)
          (inl (next_read-got r)) inv)
  continue-Sound t (chosen n) s f inv =
      note-Sound client durable ns s.log f s.daemons (chosen n) (asked n) s.db _ (λ p u. refl) refl
        (inl refl) refl refl refl inv
  continue-Sound in_time (asked n) s f inv =
      fetch-Sound client durable ns s.log f s.daemons (asked n) s.db n refl inv
  continue-Sound too_late (asked n) s f inv = overdue-Sound s f (asked n) n false refl inv
  continue-Sound in_time (fetched n r) s f inv =
      on-Sound s f (fetched n r) (replied n r) refl refl (inr (ground arith)) inv
  continue-Sound too_late (fetched n r) s f inv = overdue-Sound s f (fetched n r) n true refl inv
  continue-Sound t (replied n r) s f inv =
      read_concludes-Sound r n s f (replied n r) refl (λ vs e. rw e refl) inv
  continue-Sound t (overdue n) s f inv =
      read_concludes-Sound (err timeout_error) n s f (overdue n) refl (λ vs e. cc) inv
  continue-Sound t pausing s f inv =
      on-Sound s f pausing _ refl (ground arith) (inl (ground arith)) inv
  continue-Sound t done s f inv = inv
  continue-Sound t (raised e) s f inv = inv

  abbrev Both : System Db → Type 0
  Both s = Inv s.shared.generator.counter s.shared.log s.writers × SoundOf s.shared s.writers s.main

  write_by-Sound :
      (o : Option Text) (i : ℕ) (t : Timing) (s : System Db)
      → get_elem? ns i ≡ o
      → Both s
      → (let s' = write_by client clock per_node o i t s in SoundOf s'.shared s'.writers s'.main)
  write_by-Sound none i t s e h = h.1
  write_by-Sound (some n) i t s e h =
      advance-Sound client clock durable per_node i n e t s.writers (s.writers i) s.shared s.main
        refl h.0 h.1

  step-Both : (m : Move) (s : System Db) → Both s → Both (step client clock per_node m s)
  unfolding step
  step-Both m s h = (step-Inv client clock per_node m s h.0, sound m)
    where
      sound :
          (m : Move)
          → (let s' = step client clock per_node m s in SoundOf s'.shared s'.writers s'.main)
      sound (writer i t) = write_by-Sound (get_elem? ns i) i t s refl h
      sound (daemon k) =
          daemon-Sound client clock durable ns k s.shared.db s.shared.log s.shared.daemons s.writers
            s.main h.1
      sound (main t) = continue-Sound t s.main s.shared s.writers h.1
      sound stop = h.1

  run-Both : (ms : List Move) (s : System Db) → Both s → Both (run client clock per_node ms s)
  unfolding run
  run-Both [] s h = h
  run-Both (m ∷ ms) s h = run-Both ms (step client clock per_node m s) (step-Both m s h)

  pub run-Sound :
      (ms : List Move) (d : Db)
      → ((v : ℕ) → has d v ≡ false)
      → (let s = reached client clock per_node ms d in SoundOf s.shared s.writers s.main)
  unfolding run
  run-Sound ms d empty =
      (run-Both ms (start client clock d) (
        run-Inv client clock per_node [] d,
        record {
          started = λ v h. ground (arith, empty v);
          known = tt;
          confirmed = λ v h. cc;
          in_flight = λ i v h. cc;
          fetched_agrees = λ zs h. cc;
          read_agrees = λ zs h. cc;
          read_late = λ zs h. cc;
          over = λ i n h e. cc;
          plain = tt;
        },
      )).1
