-- ===== src/Effects/Keeps.antt =====
-- Relations between the states before and after a method, on every outcome: a preorder that two
-- statements respect is respected by their sequence.
use faultstorm.Prelude.{ℕ, suc, Bool, true, false, List, Result, ok, err, if◌then◌else◌, leb}
use faultstorm.Effects.{Env, World, Io, draw, randint, shuffle}
use faultstorm.Effects.Methods.{Method, lift, return, after, ◌>>=◌, ◌>>◌}
use faultstorm.Effects.Random.{shuffle-perm}

pub record Preorder (S : Type 0) : Type 1 where
  pub Rel : S → World → S → World → Type 0
  pub same : (s : S) (w : World) → Rel s w s w
  pub chain :
      (s : S) (w : World) (s' : S) (w' : World) (s'' : S) (w'' : World)
      → Rel s w s' w'
      → Rel s' w' s'' w''
      → Rel s w s'' w''

module _ {S : Type 0} (P : Preorder S) where
  open P use {Rel, same, chain}

  abbrev pub Keeps : {A : Type 0} → Method S A → Type 0
  Keeps m = (s : S) (w : World) → Rel s w (m s w).1 (m s w).2

  pub return-Keeps : {A : Type 0} (a : A) → Keeps (return a)
  return-Keeps a s w = same s w

  pub throw-Keeps : {A : Type 0} (r : Result A) → Keeps (λ s w. (r, s, w))
  throw-Keeps r s w = same s w

  module _ {A B : Type 0} where
    after-Keeps : (r : Result A) (f : A → Method S B) → ((a : A) → Keeps (f a)) → Keeps (after r f)
    after-Keeps (ok a) f h s w = h a s w
    after-Keeps (err e) f h s w = same s w

    pub >>=-Rel :
        (m : Method S A) (f : A → Method S B) (s : S) (w : World)
        → Rel s w (m s w).1 (m s w).2
        → ((a : A) → Keeps (f a))
        → Rel s w ((m >>= f) s w).1 ((m >>= f) s w).2
    >>=-Rel m f s w h k = chain s w _ _ _ _ h (after-Keeps (m s w).0 f k (m s w).1 (m s w).2)

    pub >>=-Keeps :
        (m : Method S A) (f : A → Method S B) → Keeps m → ((a : A) → Keeps (f a)) → Keeps (m >>= f)
    >>=-Keeps m f h k s w = >>=-Rel m f s w (h s w) k

  module _ {A B : Type 0} where
    pub >>-Keeps : (m : Method S A) (k : Method S B) → Keeps m → Keeps k → Keeps (m >> k)
    >>-Keeps m k h h' = >>=-Keeps m (λ _. k) h (λ _. h')

  pub if-Keeps :
      {A : Type 0} (b : Bool) (m n : Method S A) → Keeps m → Keeps n → Keeps (if b then m else n)
  if-Keeps true m n h k = h
  if-Keeps false m n h k = k

  lift_if-Keeps :
      {A : Type 0} (b : Bool) (m n : Io A)
      → Keeps (lift m)
      → Keeps (lift n)
      → Keeps (lift (if b then m else n))
  lift_if-Keeps true m n h k = h
  lift_if-Keeps false m n h k = k

  -- Random choices, for a preorder that does not see them.
  module _ (env : Env)
      (drawn : (s : S) (w : World) (n : ℕ) → Rel s w s (record w { draws = n })) where
    pub draw-Keeps : Keeps (lift (draw env))
    unfolding draw
    draw-Keeps s w = drawn s w (suc w.draws)

    pub randint-Keeps : (lo hi : ℕ) → Keeps (lift (randint env lo hi))
    unfolding randint draw
    randint-Keeps lo hi = lift_if-Keeps (leb lo hi) _ _ (λ s w. drawn s w (suc w.draws)) same

    pub shuffle-Keeps : {A : Type 0} (xs : List A) → Keeps (lift (shuffle env xs))
    shuffle-Keeps xs s w = let (ys, n, e, p) = shuffle-perm env xs w in rw e (drawn s w n)
