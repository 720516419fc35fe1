-- ===== src/Effects/Random.antt =====
-- The random choices of `Effects`: what they return, and that they leave no trace.
use mathlib.Core.List.Perm
use mathlib.Core.List.{Perm}
use faultstorm.Prelude.{
  ℕ, zero, suc, ◌+◌, ◌%◌, ◌<◌, ◌≡◌, refl, List, [], ◌∷◌, some, ok, arith, length, get_elem?,
}
use faultstorm.Effects.{Env, World, draw, choice, shuffle, insert_at}

insert_at-perm : {A : Type 0} (i : ℕ) (a : A) (xs : List A) → Perm (insert_at i a xs) (a ∷ xs)
insert_at-perm zero a xs = Perm.rfl
insert_at-perm (suc i) a [] = Perm.rfl
insert_at-perm (suc i) a (x ∷ xs) =
    Perm.trans (Perm.cons x (insert_at-perm i a xs)) (Perm.swap a x xs)

pub get_elem?-some :
    {A : Type 0} (xs : List A) (i : ℕ) → i < length xs → (a : A) × (get_elem? xs i ≡ some a)
get_elem?-some [] i h = elim h [ ]
get_elem?-some (x ∷ xs) zero h = (x, refl)
get_elem?-some (x ∷ xs) (suc i) h = get_elem?-some xs i (omega arith)

module _ (env : Env) {A : Type 0} where
  -- `random.shuffle` leaves the list a permutation of itself, and the trace as it is.
  pub shuffle-perm :
      (xs : List A) (w : World)
      → (ys : List A) × (n : ℕ) × (shuffle env xs w ≡ (ok ys, record w { draws = n })) × Perm ys xs
  unfolding shuffle draw
  shuffle-perm [] w = ([], w.draws, refl, Perm.rfl)
  shuffle-perm (x ∷ xs) w =
      let (ys, n, e, p) = shuffle-perm xs w in
      let i = env.draw n % (length ys + 1) in
      (insert_at i x ys, suc n, rw e, Perm.trans (insert_at-perm i x ys) (Perm.cons x p))

  -- `random.choice` of a list that is not empty takes one random number, and returns an element.
  pub choice-elem :
      (xs : List A) (w : World)
      → 0 < length xs
      → (i : ℕ) × (a : A) × (choice env xs w ≡ (ok a, record w { draws = suc w.draws }))
        × (get_elem? xs i ≡ some a)
  unfolding choice draw
  choice-elem [] w h = elim h [ ]
  choice-elem (x ∷ xs) w h =
      let i = env.draw w.draws % length (x ∷ xs) in
      let (a, e) = get_elem?-some (x ∷ xs) i (omega arith) in (i, a, rw e, e)
