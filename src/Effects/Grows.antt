-- ===== src/Effects/Grows.antt =====
-- What is done to the world is not taken back: statements whose trace grows, that write no line to
-- the scenario log, and that start only commands of a kind.
use faultstorm.Prelude.{
  ℕ, suc, ◌≤◌, ◌≡◌, refl, ap, ◌∙◌, List, [], ◌∷◌, ◌++◌, Option, none, some, Result, ok, err,
  Exception, Bool, true, false, if◌then◌else◌, arith, All, All-append, length, length-append,
  get_elem?, ◌%◌,
}
use faultstorm.Text.{Text}
use mathlib.Core.List.{append-nil}
use faultstorm.Effects.{
  Event, ran, wrote, Env, World, Io, raise, pure, ignore, and_then, ◌>>=◌, ◌>>◌, emit, run, draw,
  for_each, map_each, choice, shuffle, or_raise,
}
use faultstorm.Effects.Random.{shuffle-perm}

-- The lines of the scenario log.
abbrev pub written : List Event → List Text
written [] = []
written (wrote t ∷ es) = t ∷ written es
written (_ ∷ es) = written es

pub written-append : (es fs : List Event) → written (es ++ fs) ≡ written es ++ written fs
written-append [] fs = refl
written-append (wrote t ∷ es) fs = ap (λ l. t ∷ l) (written-append es fs)
written-append (_ ∷ es) fs = written-append es fs

-- The commands of the trace satisfy `P`.
abbrev pub Runs : (List Text → Type 0) → Event → Type 0
Runs P (ran argv timeout) = P argv
Runs P e = Unit

pub record Grows (P : List Text → Type 0) {A : Type 0} (m : Io A) : Type 0 where
  pub grows : (w : World) → length w.trace ≤ length (m w).1.trace
  pub quiet : (w : World) → written (m w).1.trace ≡ written w.trace
  pub only : (w : World) → All (Runs P) w.trace → All (Runs P) (m w).1.trace

-- An event that is no line of the log.
pub written-snoc :
    (w : World) (e : Event) → written (e ∷ []) ≡ [] → written (w.trace ++ e ∷ []) ≡ written w.trace
written-snoc w e h = ground (arith, written-append w.trace (e ∷ []), append-nil (written w.trace))

or_raise_lem :
    {A : Type 0} (o : Option A) (w : World) → length w.trace ≤ length (or_raise o w).1.trace
or_raise_lem none w = omega arith
or_raise_lem (some a) w = omega arith

or_raise_quiet :
    {A : Type 0} (o : Option A) (w : World) → written (or_raise o w).1.trace ≡ written w.trace
or_raise_quiet none w = refl
or_raise_quiet (some a) w = refl

or_raise_only :
    (P : List Text → Type 0) {A : Type 0} (o : Option A) (w : World)
    → All (Runs P) w.trace
    → All (Runs P) (or_raise o w).1.trace
or_raise_only P none w p = p
or_raise_only P (some a) w p = p

module _ {P : List Text → Type 0} where
  pub pure-Grows : {A : Type 0} (a : A) → Grows P (pure a)
  pure-Grows a = record { grows = λ w. omega arith; quiet = λ w. refl; only = λ w h. h }

  pub raise-Grows : {A : Type 0} (e : Exception) → Grows P {A = A} (raise e)
  raise-Grows e = record { grows = λ w. omega arith; quiet = λ w. refl; only = λ w h. h }

  pub if-Grows :
      {A : Type 0} (b : Bool) (m k : Io A) → Grows P m → Grows P k → Grows P (if b then m else k)
  if-Grows true m k h h' = h
  if-Grows false m k h h' = h'

  module _ {A B : Type 0} where
    and_then_lem :
        (r : Result A) (f : A → Io B)
        → ((a : A) → Grows P (f a))
        → (w : World) → length w.trace ≤ length (and_then r f w).1.trace
    and_then_lem (ok a) f h w = (h a).grows w
    and_then_lem (err e) f h w = omega arith

    and_then_quiet :
        (r : Result A) (f : A → Io B)
        → ((a : A) → Grows P (f a))
        → (w : World) → written (and_then r f w).1.trace ≡ written w.trace
    and_then_quiet (ok a) f h w = (h a).quiet w
    and_then_quiet (err e) f h w = refl

    and_then_only :
        (r : Result A) (f : A → Io B)
        → ((a : A) → Grows P (f a))
        → (w : World) → All (Runs P) w.trace
        → All (Runs P) (and_then r f w).1.trace
    and_then_only (ok a) f h w p = (h a).only w p
    and_then_only (err e) f h w p = p

    pub >>=-Grows :
        (m : Io A) (f : A → Io B) → Grows P m → ((a : A) → Grows P (f a)) → Grows P (m >>= f)
    >>=-Grows m f h k = record {
      grows = λ w. omega (arith, h.grows w, and_then_lem (m w).0 f k (m w).1);
      quiet = λ w. and_then_quiet (m w).0 f k (m w).1 ∙ h.quiet w;
      only = λ w p. and_then_only (m w).0 f k (m w).1 (h.only w p);
    }

    pub >>-Grows : (m : Io A) (k : Io B) → Grows P m → Grows P k → Grows P (m >> k)
    >>-Grows m k h h' = >>=-Grows m (λ _. k) h (λ _. h')

  pub ignore-Grows : {A : Type 0} (m : Io A) → Grows P m → Grows P (ignore m)
  unfolding ignore
  ignore-Grows m h = record {
    grows = λ w. h.grows w;
    quiet = λ w. h.quiet w;
    only = λ w p. h.only w p;
  }

  pub for_each-Grows :
      {A : Type 0} (xs : List A) (body : A → Io (Unit {0}))
      → ((a : A) → Grows P (body a))
      → Grows P (for_each xs body)
  unfolding for_each
  for_each-Grows [] body h = pure-Grows tt
  for_each-Grows (x ∷ xs) body h =
      >>-Grows (body x) (for_each xs body) (h x) (for_each-Grows xs body h)

  pub map_each-Grows :
      {A B : Type 0} (xs : List A) (f : A → Io B)
      → ((a : A) → Grows P (f a))
      → Grows P (map_each xs f)
  unfolding map_each
  map_each-Grows [] f h = pure-Grows []
  map_each-Grows (x ∷ xs) f h =
      >>=-Grows (f x) (λ y. map_each xs f >>= λ ys. pure (y ∷ ys)) (h x)
        (λ y.
          >>=-Grows (map_each xs f) (λ ys. pure (y ∷ ys)) (map_each-Grows xs f h)
            (λ ys. pure-Grows (y ∷ ys)))

  module _ (env : Env) where
    pub run-Grows : (argv : List Text) (timeout : ℕ) → P argv → Grows P (run env argv timeout)
    unfolding run emit
    run-Grows argv timeout c = record {
      grows = λ w. omega (arith, length-append w.trace (ran argv timeout ∷ []));
      quiet = λ w. written-snoc w (ran argv timeout) refl;
      only = λ w p. All-append (Runs P) w.trace (ran argv timeout ∷ []) p (c, tt);
    }

    module _ {A : Type 0} where
      pub choice-Grows : (xs : List A) → Grows P (choice env xs)
      unfolding choice draw
      choice-Grows [] = record { grows = λ w. omega arith; quiet = λ w. refl; only = λ w h. h }
      choice-Grows (x ∷ xs) = record {
        grows = λ w.
            or_raise_lem (get_elem? (x ∷ xs) (env.draw w.draws % length (x ∷ xs)))
              (record w { draws = suc w.draws });
        quiet = λ w.
            or_raise_quiet (get_elem? (x ∷ xs) (env.draw w.draws % length (x ∷ xs)))
              (record w { draws = suc w.draws });
        only = λ w p.
            or_raise_only P (get_elem? (x ∷ xs) (env.draw w.draws % length (x ∷ xs)))
              (record w { draws = suc w.draws }) p;
      }

      pub shuffle-Grows : (xs : List A) → Grows P (shuffle env xs)
      shuffle-Grows xs = record {
        grows = λ w. let (ys, n, e, p) = shuffle-perm env xs w in rw e (omega arith);
        quiet = λ w. let (ys, n, e, p) = shuffle-perm env xs w in rw e refl;
        only = λ w p. let (ys, n, e, q) = shuffle-perm env xs w in rw e p;
      }
