-- ===== src/Actions/Steady.antt =====
-- faults/actions.py: no method of an action changes the fields of the base class, takes back what
-- was done to the world, writes to the scenario log, or names the iptables chain of another action.
pub mod Classes
pub mod Others
pub mod Freezers
use faultstorm.Prelude.{
  ℕ, ◌≤◌, ◌≡◌, refl, ◌∙◌, Bool, true, false, List, [], ◌∷◌, Option, none, some, Result, ok, err,
  Exception, arith, length, if◌then◌else◌, All,
}
use faultstorm.Effects.{World, Io}
use faultstorm.Effects.Methods.{Method, self, modify, lift, return, throw, after, ◌>>=◌, ◌>>◌}
use faultstorm.Effects.Grows.{written, Runs, Grows}
use faultstorm.Actions.Chains.{Names}
use faultstorm.Actions.Base.{FaultAction}

-- On an object with the fields `b` of the base class.
pub record Steady {S : Type 0} (b : FaultAction) (base_of : S → FaultAction) {A : Type 0}
    (m : Method S A) : Type 0 where
  pub base : (s : S) (w : World) → base_of s ≡ b → base_of (m s w).1 ≡ b
  pub grows : (s : S) (w : World) → base_of s ≡ b → length w.trace ≤ length (m s w).2.trace
  pub quiet : (s : S) (w : World) → base_of s ≡ b → written (m s w).2.trace ≡ written w.trace
  pub only :
      (s : S) (w : World)
      → base_of s ≡ b
      → All (Runs (Names b)) w.trace
      → All (Runs (Names b)) (m s w).2.trace

module _ {S : Type 0} {b : FaultAction} (base_of : S → FaultAction) where
  still-Steady : {A : Type 0} (r : Result A) → Steady b base_of (λ s w. (r, s, w))
  still-Steady r = record {
    base = λ s w e. e;
    grows = λ s w e. omega arith;
    quiet = λ s w e. refl;
    only = λ s w e p. p;
  }

  pub return-Steady : {A : Type 0} (a : A) → Steady b base_of (return a)
  return-Steady a = still-Steady (ok a)

  pub throw-Steady : {A : Type 0} (e : Exception) → Steady b base_of {A = A} (throw e)
  throw-Steady e = still-Steady (err e)

  pub self-Steady : Steady b base_of self
  self-Steady = record {
    base = λ s w e. e;
    grows = λ s w e. omega arith;
    quiet = λ s w e. refl;
    only = λ s w e p. p;
  }

  pub modify-Steady :
      (f : S → S) → ((s : S) → base_of (f s) ≡ base_of s) → Steady b base_of (modify f)
  modify-Steady f h = record {
    base = λ s w e. h s ∙ e;
    grows = λ s w e. omega arith;
    quiet = λ s w e. refl;
    only = λ s w e p. p;
  }

  pub lift-Steady : {A : Type 0} (m : Io A) → Grows (Names b) m → Steady b base_of (lift m)
  lift-Steady m h = record {
    base = λ s w e. e;
    grows = λ s w e. h.grows w;
    quiet = λ s w e. h.quiet w;
    only = λ s w e p. h.only w p;
  }

  module _ {A B : Type 0} where
    after-Steady :
        (r : Result A) (f : A → Method S B)
        → ((a : A) → Steady b base_of (f a))
        → Steady b base_of (after r f)
    after-Steady (ok a) f h = h a
    after-Steady (err e) f h = throw-Steady e

    pub >>=-Steady :
        (m : Method S A) (f : A → Method S B)
        → Steady b base_of m
        → ((a : A) → Steady b base_of (f a))
        → Steady b base_of (m >>= f)
    >>=-Steady m f h k = record {
      base = λ s w e. (after-Steady (m s w).0 f k).base (m s w).1 (m s w).2 (h.base s w e);
      grows = λ s w e.
          let more = (after-Steady (m s w).0 f k).grows (m s w).1 (m s w).2 (h.base s w e) in
          omega (arith, h.grows s w e);
      quiet = λ s w e.
          (after-Steady (m s w).0 f k).quiet (m s w).1 (m s w).2 (h.base s w e) ∙ h.quiet s w e;
      only = λ s w e p.
          (after-Steady (m s w).0 f k).only (m s w).1 (m s w).2 (h.base s w e) (h.only s w e p);
    }

    pub >>-Steady :
        (m : Method S A) (k : Method S B)
        → Steady b base_of m
        → Steady b base_of k
        → Steady b base_of (m >> k)
    >>-Steady m k h h' = >>=-Steady m (λ _. k) h (λ _. h')

  pub if-Steady :
      {A : Type 0} (c : Bool) (m k : Method S A)
      → Steady b base_of m
      → Steady b base_of k
      → Steady b base_of (if c then m else k)
  if-Steady true m k h h' = h
  if-Steady false m k h h' = h'

  -- A call on a field of the object, or on the object as it is.
  pub then-Steady :
      {B : Type 0} (m : S → Method S B)
      → ((s : S) → base_of s ≡ b → Steady b base_of (m s))
      → Steady b base_of (self >>= m)
  then-Steady m h = record {
    base = λ s w e. (h s e).base s w e;
    grows = λ s w e. (h s e).grows s w e;
    quiet = λ s w e. (h s e).quiet s w e;
    only = λ s w e p. (h s e).only s w e p;
  }

  -- A choice that is kept in a field of the object.
  pub choose-Steady :
      {A B : Type 0} (choose : S → Io A) (keep : A → S → S) (more : A → Method S B)
      → ((s : S) → Grows (Names b) (choose s))
      → ((a : A) (s : S) → base_of (keep a s) ≡ base_of s)
      → ((a : A) → Steady b base_of (more a))
      → Steady b base_of (self >>= λ s. lift (choose s) >>= λ a. modify (keep a) >> more a)
  choose-Steady choose keep more g h k = then-Steady _ (λ s e.
      >>=-Steady (lift (choose s)) (λ a. modify (keep a) >> more a) (lift-Steady (choose s) (g s))
        (λ a. >>-Steady (modify (keep a)) (more a) (modify-Steady (keep a) (h a)) (k a)))
