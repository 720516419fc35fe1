-- ===== src/Load/Joins.antt =====
-- load_generator.py: after the stop event every writer ends, and `run_write_phase` returns.
use faultstorm.Prelude.{
  ℕ, zero, suc, ◌-◌, ◌≤◌, ◌<◌, ◌≡◌, ◌⊎◌, inl, inr, refl, Bool, true, List, [], ◌∷◌, Option, none,
  some, Result, ok, err, if◌then◌else◌, get_elem?, get_elem?-ge, length, arith, ◌==◌, nat_eq,
  Bool-cases,
}
use faultstorm.Text.{Text}
use faultstorm.Load.Client.{DatabaseClient}
use faultstorm.Load.Generator.{LogEvent, get_next_value, get_next_node}
use faultstorm.Load.Threads.{
  Pc, ready, going, sleeping, finished, numbered, invoked, late, performed, answered, Main, joining,
  reading, Timing, Move, writer, daemon, main, stop, Shared, System, stop_is, next_read, abandon,
  all_finished, advance, continue, threads, write_by, step, run,
}
use faultstorm.Load.Durable.{is_joined}

-- The moves that a writer needs at most to end, once the stop event is set.
abbrev pub distance : Pc → ℕ
distance going = 6
distance (numbered v) = 5
distance (invoked v) = 4
distance (performed v r) = 3
distance (answered v r) = 2
distance (late v) = 2
distance ready = 1
distance sleeping = 1
distance finished = 0

distance_le : (p : Pc) → distance p ≤ 6
distance_le p = ground arith

-- The moves of writer `i` in a schedule.
abbrev pub moves_of : ℕ → List Move → ℕ
moves_of i [] = 0
moves_of i (writer j t ∷ ms) = if i == j then suc (moves_of i ms) else moves_of i ms
moves_of i (_ ∷ ms) = moves_of i ms

all_finished_iff :
    (k : ℕ) (f : ℕ → Pc) → ((i : ℕ) → i < k → distance (f i) ≤ 0) → all_finished k f ≡ true
unfolding all_finished
all_finished_iff zero f h = refl
all_finished_iff (suc k) f h =
    ground (arith, h k (omega arith), all_finished_iff k f (λ i l. h i (omega arith)))

module _ (client : DatabaseClient) (clock : List LogEvent → ℕ) where
  open client use {Db, get_db_nodes}

  -- A writer comes closer to its end, and leaves the stop event as it is.
  advance_lem :
      (n : Text) (t : Timing) (p : Pc) (s : Shared Db)
      → stop_is s ≡ true
      → (distance (advance client clock n t p s).0 ≤ distance p - 1)
        × (stop_is (advance client clock n t p s).1 ≡ true)
  unfolding advance get_next_value abandon
  advance_lem n t p s h = ground arith

  next_read-joined : (r : Result Text) → is_joined (next_read client clock r) ≡ true
  next_read-joined (ok n) = refl
  next_read-joined (err x) = refl

  joined_lem :
      (b : Bool) (t : Timing) (m : Main) (s : Shared Db)
      → is_joined m ≡ true
      → is_joined (continue client clock b t m s).0 ≡ true
  unfolding continue
  joined_lem b t reading s h =
      ground (arith, next_read-joined (get_next_node get_db_nodes s.generator).0)
  joined_lem b t m s h = ground arith

  module _ (per_node : ℕ) where
    abbrev count : ℕ
    count = length (threads client clock per_node)

    abbrev after : List Move → System Db → System Db
    after ms s = run client clock per_node ms s

    write_by-main :
        (o : Option Text) (i : ℕ) (t : Timing) (s : System Db)
        → is_joined s.main ≡ true
        → is_joined (write_by client clock per_node o i t s).main ≡ true
    write_by-main none i t s h = h
    write_by-main (some n) i t s h = h

    step-joined :
        (m : Move) (s : System Db)
        → is_joined s.main ≡ true
        → is_joined (step client clock per_node m s).main ≡ true
    unfolding step
    step-joined (writer i t) s h =
        write_by-main (get_elem? (threads client clock per_node) i) i t s h
    step-joined (daemon k) s h = h
    step-joined (main t) s h = joined_lem _ t s.main s.shared h
    step-joined stop s h = h

    run-joined :
        (ms : List Move) (s : System Db)
        → is_joined s.main ≡ true
        → is_joined (after ms s).main ≡ true
    unfolding run
    run-joined [] s h = h
    run-joined (m ∷ ms) s h = run-joined ms (step client clock per_node m s) (step-joined m s h)

    -- Waiting in the joins, with the stop event set, and every writer so many moves from its end.
    record Waiting (s : System Db) (left : ℕ → ℕ) : Type 0 where
      here : s.main ≡ joining
      stopped : stop_is s.shared ≡ true
      near : (i : ℕ) → i < count → distance (s.writers i) ≤ left i

    write-Waiting :
        (o : Option Text) (j : ℕ) (t : Timing) (s : System Db) (ms : List Move)
        → get_elem? (threads client clock per_node) j ≡ o
        → Waiting s (λ i. moves_of i (writer j t ∷ ms))
        → Waiting (write_by client clock per_node o j t s) (λ i. moves_of i ms)
    write-Waiting none j t s ms e w = record {
      here = w.here;
      stopped = w.stopped;
      near = λ i l. ground (arith, w.near i l, get_elem?-ge (threads client clock per_node) j e);
    }
    write-Waiting (some n) j t s ms e w = record {
      here = w.here;
      stopped = (advance_lem n t (s.writers j) s.shared w.stopped).1;
      near = λ i l. ground (arith, advance_lem n t (s.writers j) s.shared w.stopped, w.near i l);
    }

    -- A move of the main thread leaves the joins, or waits on.
    main_cases :
        (u : Timing) (s : System Db) (left : ℕ → ℕ)
        → Waiting s left
        → (is_joined (step client clock per_node (main u) s).main ≡ true)
          ⊎ Waiting (step client clock per_node (main u) s) left
    unfolding step continue
    main_cases u s left w = elim (Bool-cases (all_finished count s.writers)) [
      | inl p ↦ inl (rw (w.here, p) refl)
      | inr p ↦
          inr (record {
            here = rw (w.here, p) refl;
            stopped = rw (w.here, p) w.stopped;
            near = w.near;
          })
    ]

    run-Waiting :
        (ms : List Move) (t : Timing) (s : System Db)
        → Waiting s (λ i. moves_of i ms)
        → is_joined (step client clock per_node (main t) (after ms s)).main ≡ true
    unfolding run step continue
    run-Waiting [] t s w = rw (w.here, all_finished_iff count s.writers w.near) refl
    run-Waiting (writer j u ∷ ms) t s w =
        let o = get_elem? (threads client clock per_node) j in
        run-Waiting ms t (write_by client clock per_node o j u s) (write-Waiting o j u s ms refl w)
    run-Waiting (daemon k ∷ ms) t s w =
        run-Waiting ms t (step client clock per_node (daemon k) s)
          (record { here = w.here; stopped = w.stopped; near = w.near })
    run-Waiting (stop ∷ ms) t s w =
        run-Waiting ms t (step client clock per_node stop s)
          (record { here = w.here; stopped = refl; near = w.near })
    run-Waiting (main u ∷ ms) t s w =
        let s' = step client clock per_node (main u) s in
        elim (main_cases u s (λ i. moves_of i ms)
          (record { here = w.here; stopped = w.stopped; near = w.near })) [
            | inl p ↦ step-joined (main t) (after ms s') (run-joined ms s' p)
            | inr w' ↦ run-Waiting ms t s' w'
          ]

    -- From the joins of `run_write_phase`, with the stop event set: if every writer gets to move six
    -- times, the joins return at the next move of the main thread, whatever the other moves of the
    -- schedule are and whichever calls fail or time out.
    pub run-joins :
        (ms : List Move) (t : Timing) (s : System Db)
        → s.main ≡ joining
        → stop_is s.shared ≡ true
        → ((i : ℕ) → i < count → 6 ≤ moves_of i ms)
        → is_joined (step client clock per_node (main t) (after ms s)).main ≡ true
    run-joins ms t s h b fair = run-Waiting ms t s (record {
      here = h;
      stopped = b;
      near = λ i l. omega (arith, distance_le (s.writers i), fair i l);
    })
