-- ===== src/Load/History/Moves.antt =====
-- load_generator.py: what a move of a writer does to the invariant of the log.
use faultstorm.Prelude.{ℕ, ◌+◌, ◌≡◌, ◌⊎◌, Bool, false, List, ◌∷◌, none, some, arith, ◌==◌, nat_eq}
use faultstorm.Checker.Consistency.{EventType}
use faultstorm.Load.Generator.{LogEvent}
use faultstorm.Load.Threads.{Pc, sleeping, numbered, invoked, put}
use faultstorm.Load.History.{is_invoke, is_outcome, is_event, holds, flies, numbers, Inv}

-- A move that logs nothing and takes no number.
pub keep-Inv :
    (i c : ℕ) (log : List LogEvent) (f : ℕ → Pc) (p : Pc)
    → ((holds p ≡ holds (f i)) × (flies p ≡ flies (f i)) × (numbers p ≡ numbers (f i)))
      ⊎ ((holds p ≡ none) × (flies p ≡ none) × (numbers p ≡ none))
    → Inv c log f
    → Inv c log (put f i p)
keep-Inv i c log f p h inv = record {
  below = λ j v q. ground (arith, inv.below j v);
  distinct = λ j k v q q'. ground (arith, inv.distinct j k v);
  fresh = λ j v q. ground (arith, inv.fresh j v);
  flying = λ j v q. ground (arith, inv.flying j v);
  known = inv.known;
  settled = inv.settled;
  history = inv.history;
}

-- An add of `v` whose type is that of an outcome.
pub record IsOutcome (e : LogEvent) (v : ℕ) : Type 0 where
  pub outcome : (u : ℕ) → is_event is_outcome e u ≡ (v == u)
  pub no_invoke : (u : ℕ) → is_event is_invoke e u ≡ false

pub conclude-Inv :
    (i c v : ℕ) (e : LogEvent) (log : List LogEvent) (f : ℕ → Pc)
    → IsOutcome e v
    → flies (f i) ≡ some v
    → Inv c log f
    → Inv c (e ∷ log) (put f i sleeping)
conclude-Inv i c v e log f o h inv = record {
  below = λ j u q. ground (arith, inv.below j u);
  distinct = λ j k u q q'. ground (arith, inv.distinct j k u);
  fresh = λ j u q. ground (arith, inv.fresh j u, o.no_invoke u);
  flying = λ j u q. ground (arith, inv.flying j u, o.no_invoke u, o.outcome u, inv.distinct i j u);
  known = λ u q. ground (arith, inv.known u, o.no_invoke u);
  settled = λ u q. ground (arith, inv.settled u, inv.flying i u, o.no_invoke u, o.outcome u);
  history = (
    λ u q. ground (arith, o.no_invoke u),
    λ u q. ground (arith, o.outcome u, inv.flying i u),
    inv.history,
  );
}

-- `_get_next_value` gives a number that nobody holds.
pub number-Inv :
    (i c : ℕ) (log : List LogEvent) (f : ℕ → Pc)
    → Inv c log f
    → Inv (c + 1) log (put f i (numbered (c + 1)))
number-Inv i c log f inv = record {
  below = λ j v h. ground (arith, inv.below j v);
  distinct = λ j k v h h'. ground (arith, inv.distinct j k v, inv.below j v, inv.below k v);
  fresh = λ j v h. ground (arith, inv.fresh j v, inv.known v);
  flying = λ j v h. ground (arith, inv.flying j v);
  known = λ v h. ground (arith, inv.known v);
  settled = inv.settled;
  history = inv.history;
}

-- An add of `v` whose type is INVOKE.
pub record IsInvoke (e : LogEvent) (v : ℕ) : Type 0 where
  pub invoked_it : (u : ℕ) → is_event is_invoke e u ≡ (v == u)
  pub no_outcome : (u : ℕ) → is_event is_outcome e u ≡ false

pub invoke-Inv :
    (i c v : ℕ) (e : LogEvent) (log : List LogEvent) (f : ℕ → Pc)
    → IsInvoke e v
    → f i ≡ numbered v
    → Inv c log f
    → Inv c (e ∷ log) (put f i (invoked v))
invoke-Inv i c v e log f o h inv = record {
  below = λ j u q. ground (arith, inv.below j u, inv.below i u);
  distinct = λ j k u q q'. ground (arith, inv.distinct j k u);
  fresh = λ j u q. ground (arith, inv.fresh j u, inv.distinct i j u, o.invoked_it u);
  flying = λ j u q. ground (
    arith,
    inv.flying j u,
    inv.fresh i u,
    inv.settled u,
    inv.distinct i j u,
    o.invoked_it u,
    o.no_outcome u,
  );
  known = λ u q. ground (arith, inv.known u, inv.below i u, o.invoked_it u);
  settled = λ u q. ground (arith, inv.settled u, o.invoked_it u, o.no_outcome u);
  history = (
    λ u q. ground (arith, o.invoked_it u, inv.fresh i u),
    λ u q. ground (arith, o.no_outcome u),
    inv.history,
  );
}

-- An event of a read.
pub other-Inv :
    (c : ℕ) (e : LogEvent) (log : List LogEvent) (f : ℕ → Pc)
    → ((p : EventType → Bool) (u : ℕ) → is_event p e u ≡ false)
    → Inv c log f
    → Inv c (e ∷ log) f
other-Inv c e log f o inv = record {
  below = inv.below;
  distinct = inv.distinct;
  fresh = λ j v h. ground (arith, inv.fresh j v, o is_invoke v);
  flying = λ j v h. ground (arith, inv.flying j v, o is_invoke v, o is_outcome v);
  known = λ v h. ground (arith, inv.known v, o is_invoke v);
  settled = λ v h. ground (arith, inv.settled v, o is_invoke v, o is_outcome v);
  history =
      (λ v h. ground (arith, o is_invoke v), λ v h. ground (arith, o is_outcome v), inv.history);
}
