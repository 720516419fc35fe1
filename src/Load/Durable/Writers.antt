-- ===== src/Load/Durable/Writers.antt =====
-- load_generator.py: `_writer_loop` over a durable database.
use faultstorm.Prelude.{
  ℕ, ◌≡◌, ◌⊎◌, inl, inr, refl, Bool, true, false, List, none, some, Result, ok, err, timeout_error,
  get_elem?, arith, nat_eq,
}
use faultstorm.Text.{Text}
use faultstorm.Load.Client.{DatabaseClient}
use faultstorm.Load.Generator.{LogEvent, log_event, get_next_value, add_failed, add_concludes}
use faultstorm.Load.Threads.{
  Pc, ready, going, sleeping, finished, numbered, invoked, late, performed, answered, Main, Timing,
  in_time, too_late, add_task, Shared, put, abandon, is_finished, advance, threads,
}
use faultstorm.Load.History.{Inv, is_invoke, logs}
use faultstorm.Load.Durable.{IsDurable, wrote, is_joined, Sound}
use faultstorm.Load.Durable.Writes.{silent-Sound, perform-Sound, log-Sound}
use faultstorm.Load.Durable.Reads.{abandon-Sound}

module _ (client : DatabaseClient) (clock : List LogEvent → ℕ) (durable : IsDurable client)
    (per_node : ℕ) where
  open client use {Db, get_db_nodes, is_definite_failure}
  open durable use {has}

  abbrev ns : List Text
  ns = threads client clock per_node

  abbrev SoundOf : Shared Db → (ℕ → Pc) → Main → Type 0
  SoundOf s f m = Sound client durable ns s.db s.log s.daemons f m

  -- What `add` logs of a call that has ended.
  concludes-Sound :
      (i v : ℕ) (r : Result (Unit {0})) (n : Text) (s : Shared Db) (f : ℕ → Pc) (m : Main)
      → is_joined m ≡ false
      → (r ≡ ok tt → has s.db v ≡ true)
      → SoundOf s f m
      → Sound client durable ns s.db
          (add_concludes client clock r v n s.log)
          s.daemons
          (put f i sleeping)
          m
  unfolding add_concludes log_event add_failed
  concludes-Sound i v (ok _) n s f m j h inv =
      log-Sound client durable ns s.daemons s.log f m s.db i sleeping _ j refl
        (λ u q. ground (arith, h refl)) refl refl inv
  concludes-Sound i v (err timeout_error) n s f m j h inv =
      log-Sound client durable ns s.daemons s.log f m s.db i sleeping _ j refl (λ u q. cc) refl refl
        inv
  concludes-Sound i v (err x) n s f m j h inv =
      log-Sound client durable ns s.daemons s.log f m s.db i sleeping _ j refl (λ u q. ground arith)
        refl refl inv

  module _ (i : ℕ) (n : Text) (there : get_elem? ns i ≡ some n) where
    -- A writer that has not finished was not joined.
    not_joined :
        (s : Shared Db) (f : ℕ → Pc) (m : Main)
        → is_finished (f i) ≡ false
        → SoundOf s f m
        → is_joined m ≡ false
    not_joined s f m h inv = ground (arith, inv.over i n, there)

    quiet-Sound :
        (s : Shared Db) (f : ℕ → Pc) (m : Main) (p : Pc)
        → is_finished (f i) ≡ false
        → (wrote p ≡ none) ⊎ (wrote p ≡ wrote (f i))
        → SoundOf s f m
        → SoundOf s (put f i p) m
    quiet-Sound s f m p h w inv =
        silent-Sound client durable ns s.daemons s.log f m s.db i p w (inl (not_joined s f m h inv))
          inv

    late-Sound :
        (s : Shared Db) (f : ℕ → Pc) (m : Main) (v : ℕ) (seen : Bool)
        → is_finished (f i) ≡ false
        → logs is_invoke s.log v ≡ true
        → SoundOf s f m
        → SoundOf (abandon (add_task n v) seen s) (put f i (late v)) m
    unfolding abandon
    late-Sound s f m v seen h l inv =
        abandon-Sound client durable ns s.log (put f i (late v)) s.daemons m s.db _
          (λ u q. ground arith) (quiet-Sound s f m (late v) h (inl refl) inv)

    pub advance-Sound :
        (t : Timing) (f : ℕ → Pc) (p : Pc) (s : Shared Db) (m : Main)
        → f i ≡ p
        → Inv s.generator.counter s.log f
        → SoundOf s f m
        → SoundOf (advance client clock n t p s).1 (put f i (advance client clock n t p s).0) m
    unfolding advance get_next_value log_event
    advance-Sound t f ready s m e h inv = quiet-Sound s f m _ (rw e refl) (inl (ground arith)) inv
    advance-Sound t f going s m e h inv = quiet-Sound s f m _ (rw e refl) (inl refl) inv
    advance-Sound t f (numbered v) s m e h inv =
        log-Sound client durable ns s.daemons s.log f m s.db i (invoked v) _
          (not_joined s f m (rw e refl) inv) refl (λ u q. cc) refl refl inv
    advance-Sound in_time f (invoked v) s m e h inv =
        perform-Sound client durable ns s.daemons s.log f m s.db i v n
          (not_joined s f m (rw e refl) inv) (h.flying i v (rw e refl)).0 inv
    advance-Sound too_late f (invoked v) s m e h inv =
        late-Sound s f m v false (rw e refl) (h.flying i v (rw e refl)).0 inv
    advance-Sound in_time f (performed v r) s m e h inv =
        quiet-Sound s f m _ (rw e refl) (inr (ground arith)) inv
    advance-Sound too_late f (performed v r) s m e h inv =
        late-Sound s f m v true (rw e refl) (h.flying i v (rw e refl)).0 inv
    advance-Sound t f (answered v r) s m e h inv =
        concludes-Sound i v r n s f m (not_joined s f m (rw e refl) inv)
          (λ q. inv.in_flight i v (rw (e, q) refl)) inv
    advance-Sound t f (late v) s m e h inv =
        concludes-Sound i v (err timeout_error) n s f m (not_joined s f m (rw e refl) inv) (λ q. cc)
          inv
    advance-Sound t f sleeping s m e h inv =
        quiet-Sound s f m _ (rw e refl) (inl (ground arith)) inv
    advance-Sound t f finished s m e h inv =
        silent-Sound client durable ns s.daemons s.log f m s.db i finished (inl refl) (inr refl) inv
