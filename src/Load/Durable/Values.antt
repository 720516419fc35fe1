-- ===== src/Load/Durable/Values.antt =====
-- load_generator.py: `sorted(values)` has the values of the read; what a new event leaves as it is.
use faultstorm.Prelude.{
  ℤ, ◌≡◌, refl, ◌||◌, List, [], ◌∷◌, All, contains, ◌==◌, nat_eq, int_eq, arith,
}
use faultstorm.Load.Generator.{LogEvent, sorted, insert_sorted}
use faultstorm.Load.Threads.{Daemon}
use faultstorm.Load.Durable.{IsKnown}

contains-insert_sorted :
    (v u : ℤ) (vs : List ℤ) → contains (insert_sorted v vs) u ≡ ((v == u) || contains vs u)
unfolding insert_sorted
contains-insert_sorted v u [] = refl
contains-insert_sorted v u (w ∷ ws) = ground (arith, contains-insert_sorted v u ws)

-- The values that a read logs are those that it returned.
pub contains-sorted : (u : ℤ) (vs : List ℤ) → contains (sorted vs) u ≡ contains vs u
unfolding sorted
contains-sorted u [] = refl
contains-sorted u (v ∷ vs) =
    ground (arith, contains-insert_sorted v u (sorted vs), contains-sorted u vs)

pub IsKnown-cons :
    (e : LogEvent) (log : List LogEvent) (ts : List Daemon)
    → All (IsKnown log) ts
    → All (IsKnown (e ∷ log)) ts
IsKnown-cons e log [] h = tt
IsKnown-cons e log (t ∷ ts) h = (λ v q. ground (arith, h.0 v q), IsKnown-cons e log ts h.1)
