-- ===== src/Latency/Freeze/Restores.antt =====
-- network_latency.py: the commands of a freeze.
use mathlib.Core.List.{append_assoc, append-nil}
use faultstorm.Prelude.{
  ◌≡◌, refl, sym, ◌∙◌, ap, List, [], ◌∷◌, ◌++◌, Option, none, some, ℕ, pos, Result, ok, err, values,
  list_eq, nat_eq, keys, lookup, insert, contains, if◌then◌else◌, true, false, arith, Option-cases,
  inl, inr,
}
use faultstorm.Prelude.Dict.{Dict}
use faultstorm.Text.{Text, codes}
use faultstorm.Effects.{
  Env, Event, ran, slept, World, Io, and_then, ◌>>◌, emit, for_each, ignore, run,
}
use faultstorm.Cluster.{exec_argv, exec_on_node}
use faultstorm.Latency.Bands.{
  BandInfo, freeze_delay_ms, netem_argv, qdisc_argv, try_exec, change_netem_delay, reset_netem_band,
}
use faultstorm.Latency.Freeze.{distinct_bands, sleep_and_kill, freeze_drop_restore}

abbrev pub after : World → List Event → World
after w es = record w { trace = w.trace ++ es }

abbrev pub flat_map : {A B : Type 0} → (A → List B) → List A → List B
flat_map f [] = []
flat_map f (x ∷ xs) = f x ++ flat_map f xs

-- Of a list of bands, the first one of each parent that is not in `seen`.
abbrev pub firsts : List Text → List BandInfo → List BandInfo
firsts seen [] = []
firsts seen (band ∷ bands) =
    let fresh = firsts (seen ++ band.parent ∷ []) bands in
    let known = firsts seen bands in if contains seen band.parent then known else (band ∷ fresh)

insert-fresh :
    (k : Text) (band : BandInfo) (d : Dict Text BandInfo)
    → lookup k d ≡ none
    → insert k band d ≡ d ++ (k, band) ∷ []
unfolding insert lookup
insert-fresh k band [] h = refl
insert-fresh k band ((j, old) ∷ d) h = ground (arith, insert-fresh k band d)

lookup-keys :
    (k : Text) (d : Dict Text BandInfo)
    → contains (keys d) k ≡ (elim (lookup k d) [ none ↦ false | some _ ↦ true ])
unfolding lookup
lookup-keys k [] = refl
lookup-keys k ((j, old) ∷ d) = ground (arith, lookup-keys k d)

keys-snoc :
    (k : Text) (band : BandInfo) (d : Dict Text BandInfo)
    → keys (d ++ (k, band) ∷ []) ≡ keys d ++ k ∷ []
keys-snoc k band [] = refl
keys-snoc k band (e ∷ d) = ap (λ l. e.0 ∷ l) (keys-snoc k band d)

values-snoc :
    (k : Text) (band : BandInfo) (d : Dict Text BandInfo)
    → values (d ++ (k, band) ∷ []) ≡ values d ++ band ∷ []
values-snoc k band [] = refl
values-snoc k band (e ∷ d) = ap (λ l. e.1 ∷ l) (values-snoc k band d)

distinct_bands-firsts :
    (bands : List BandInfo) (frozen : Dict Text BandInfo)
    → values (distinct_bands bands frozen) ≡ values frozen ++ firsts (keys frozen) bands
unfolding distinct_bands
distinct_bands-firsts [] frozen = sym (append-nil (values frozen))
distinct_bands-firsts (band ∷ bands) frozen = elim (Option-cases (lookup band.parent frozen)) [
  | inl e ↦
      rw
        (
          e,
          distinct_bands,
          lookup-keys band.parent frozen,
          e,
          insert-fresh band.parent band frozen e,
        )
        (distinct_bands-firsts bands (frozen ++ (band.parent, band) ∷ [])
          ∙ rw (keys-snoc band.parent band frozen, values-snoc band.parent band frozen)
              (append_assoc (values frozen) (band ∷ []) _))
  | inr (old, e) ↦
      rw (e, distinct_bands, lookup-keys band.parent frozen, e) (distinct_bands-firsts bands frozen)
]

module _ (env : Env) (node : Text) where
  -- One command, whether it succeeds or not.
  abbrev pub done : List Text → Event
  done argv = ran (exec_argv env node argv) 10

  pub try_exec_lem :
      (argv : List Text) (w : World) → try_exec env node argv w ≡ (ok tt, after w (done argv ∷ []))
  unfolding try_exec ignore exec_on_node run emit
  try_exec_lem argv w = refl

  -- Statements that are run for each element of a list, if each leaves its events.
  pub for_each_lem :
      {A : Type 0} (body : A → Io (Unit {0})) (events : A → List Event)
      → ((a : A) (w : World) → body a w ≡ (ok tt, after w (events a)))
      → (xs : List A) (w : World) → for_each xs body w ≡ (ok tt, after w (flat_map events xs))
  unfolding for_each
  for_each_lem body events h [] w =
      ap (λ t. (ok tt, record w { trace = t })) (sym (append-nil w.trace))
  for_each_lem body events h (x ∷ xs) w = rw (h x w) (
      for_each_lem body events h xs (after w (events x))
      ∙ ap (λ t. (ok tt, record w { trace = t }))
          (append_assoc w.trace (events x) (flat_map events xs)))

  abbrev pub freeze_events : BandInfo → List Event
  freeze_events band =
      done (netem_argv (codes "change") band.parent band.handle freeze_delay_ms) ∷ []

  abbrev pub restore_events : BandInfo → List Event
  restore_events band =
      done (qdisc_argv (codes "del") band.parent band.handle [])
      ∷ done (netem_argv (codes "add") band.parent band.handle band.delay_ms)
      ∷ []

  change_netem_delay_lem :
      (band : BandInfo) (w : World)
      → change_netem_delay env node band freeze_delay_ms w ≡ (ok tt, after w (freeze_events band))
  unfolding change_netem_delay
  change_netem_delay_lem band w =
      try_exec_lem (netem_argv (codes "change") band.parent band.handle freeze_delay_ms) w

  reset_netem_band_lem :
      (band : BandInfo) (w : World)
      → reset_netem_band env node band band.delay_ms w ≡ (ok tt, after w (restore_events band))
  unfolding reset_netem_band try_exec ignore exec_on_node run emit
  reset_netem_band_lem band w =
      ap (λ t. (ok tt, record w { trace = t })) (append_assoc w.trace (_ ∷ []) (_ ∷ []))

  -- The bands that are frozen: of the matched ones, the first of each parent.
  abbrev pub frozen_of : Dict Text BandInfo → List BandInfo
  frozen_of matched = firsts [] (values matched)

  -- What follows the callback: the restore, or the exception of the callback.
  abbrev pub restored : List BandInfo → Result (Unit {0}) × World → Result (Unit {0}) × World
  restored frozen (ok _, w) = (ok tt, after w (flat_map restore_events frozen))
  restored frozen (err e, w) = (err e, w)

  -- The world when the callback is called.
  abbrev pub frozen_world : List BandInfo → ℕ → World → World
  frozen_world frozen seconds w =
      after w (flat_map freeze_events frozen ++ slept (pos seconds) ∷ [])

  abbrev pub killed : Option (Io (Unit {0})) → World → Result (Unit {0}) × World
  killed none w = (ok tt, w)
  killed (some kill) w = kill w

  abbrev restore_all : List BandInfo → Io (Unit {0})
  restore_all frozen = for_each frozen λ band. reset_netem_band env node band band.delay_ms

  seq_lem : (m k : Io (Unit {0})) (w w' : World) → m w ≡ (ok tt, w') → (m >> k) w ≡ k w'
  seq_lem m k w w' e = rw e refl

  abbrev kept_of : Dict Text BandInfo → List BandInfo
  kept_of matched = values (distinct_bands (values matched) [])

  frozen_lem :
      (matched : Dict Text BandInfo) (seconds : ℕ) (kill : Option (Io (Unit {0}))) (w : World)
      → freeze_drop_restore env node matched seconds kill w
        ≡ (sleep_and_kill env seconds kill >> restore_all (kept_of matched))
            (after w (flat_map freeze_events (kept_of matched)))
  unfolding freeze_drop_restore
  frozen_lem matched seconds kill w =
      let freeze_all =
        for_each (kept_of matched) λ band. change_netem_delay env node band freeze_delay_ms in
      seq_lem freeze_all (sleep_and_kill env seconds kill >> restore_all (kept_of matched)) w _ (
        for_each_lem (λ band. change_netem_delay env node band freeze_delay_ms) freeze_events
          change_netem_delay_lem (kept_of matched) w)

  abbrev then_restore : List BandInfo → Result (Unit {0}) × World → Result (Unit {0}) × World
  then_restore frozen (r, w) = and_then r (λ _. restore_all frozen) w

  killed_lem :
      (frozen : List BandInfo) (seconds : ℕ) (kill : Option (Io (Unit {0}))) (w : World)
      → (sleep_and_kill env seconds kill >> restore_all frozen) w
        ≡ then_restore frozen (killed kill (after w (slept (pos seconds) ∷ [])))
  unfolding emit
  killed_lem frozen seconds none w = refl
  killed_lem frozen seconds (some kill) w = refl

  restored_lem :
      (frozen : List BandInfo) (p : Result (Unit {0}) × World)
      → then_restore frozen p ≡ restored frozen p
  restored_lem frozen (ok _, w) =
      for_each_lem (λ band. reset_netem_band env node band band.delay_ms) restore_events
        reset_netem_band_lem frozen w
  restored_lem frozen (err e, w) = refl

  kept_lem :
      (matched : Dict Text BandInfo) (seconds : ℕ) (kill : Option (Io (Unit {0}))) (w : World)
      → freeze_drop_restore env node matched seconds kill w
        ≡ restored (kept_of matched) (killed kill (frozen_world (kept_of matched) seconds w))
  kept_lem matched seconds kill w =
      let frozen = kept_of matched in
      frozen_lem matched seconds kill w
      ∙ killed_lem frozen seconds kill (after w (flat_map freeze_events frozen))
      ∙ ap (λ t. then_restore frozen (killed kill (record w { trace = t })))
          (append_assoc w.trace (flat_map freeze_events frozen) (slept (pos seconds) ∷ []))
      ∙ restored_lem frozen (killed kill (frozen_world frozen seconds w))

  -- Of the matched bands, the first of each parent is frozen before the sleep and the callback, and
  -- afterwards its queue is dropped and it is restored with its own delay: the commands for that are
  -- started in this order, and nothing else, whichever of them fail. If the callback raises, its
  -- exception passes and nothing is restored.
  pub freeze_drop_restore_lem :
      (matched : Dict Text BandInfo) (seconds : ℕ) (kill : Option (Io (Unit {0}))) (w : World)
      → freeze_drop_restore env node matched seconds kill w
        ≡ restored (frozen_of matched) (killed kill (frozen_world (frozen_of matched) seconds w))
  freeze_drop_restore_lem matched seconds kill w =
      rw (← distinct_bands-firsts (values matched) []) (kept_lem matched seconds kill w)
