-- ===== src/Prelude/Sets.antt =====
-- Python's `set` as a list without repetitions: membership, insertion, and the set operations that
-- the program uses.
use Prim.Native.Nat.{◌+◌, ◌≤◌}
use mathlib.Core.Path.{◌≡◌, refl}
use mathlib.Core.Logic.{◌↔◌}
use mathlib.Core.Bool.{Bool, true, false, not, ◌&&◌, ◌||◌}
use mathlib.Core.List.{List, [], ◌∷◌}
use native.Mathlib.Omega.{arith}
use faultstorm.Prelude.Tests.{if◌then◌else◌}
use faultstorm.Prelude.Lists.{length, is_empty}
use faultstorm.Prelude.Equality.{Eq, ◌==◌, beq_self}

module _ {ℓ} {A : Type ℓ} where
  -- `[x for x in xs if p(x)]`
  abbrev pub filter_by : (A → Bool) → List A → List A
  filter_by p [] = []
  filter_by p (x ∷ xs) = let rest = filter_by p xs in if p x then (x ∷ rest) else rest

module _ {ℓ} {A : Type ℓ} ⦃e : Eq A⦄ where
  -- `a in xs`
  abbrev pub contains : List A → A → Bool
  contains [] a = false
  contains (x ∷ xs) a = (x == a) || contains xs a

  -- `s.add(a)`
  unfoldable pub add : A → List A → List A
  add a xs = if contains xs a then xs else (a ∷ xs)

  -- `set(xs)`
  unfoldable pub to_set : List A → List A
  unfolding add
  to_set [] = []
  to_set (x ∷ xs) = add x (to_set xs)

  -- `xs - ys`, and `xs & ys`
  unfoldable pub difference : List A → List A → List A
  difference xs ys = filter_by (λ x. not (contains ys x)) xs

  unfoldable pub intersection : List A → List A → List A
  intersection xs ys = filter_by (λ x. contains ys x) xs

  abbrev pub IsNodup : List A → Type 0
  IsNodup [] = Unit
  IsNodup (x ∷ xs) = (contains xs x ≡ false) × IsNodup xs

  pub contains-add : (a b : A) (xs : List A) → contains (add a xs) b ≡ ((a == b) || contains xs b)
  unfolding add
  contains-add a b xs = ground (arith, e.beq_iff a b)

  pub contains-to_set : (a : A) (xs : List A) → contains (to_set xs) a ≡ contains xs a
  unfolding to_set
  contains-to_set a [] = refl
  contains-to_set a (x ∷ xs) =
      ground (arith, contains-add x a (to_set xs), contains-to_set a xs, e.beq_iff x a)

  pub contains-filter_by :
      (p : A → Bool) (a : A) (xs : List A) → contains (filter_by p xs) a ≡ (p a && contains xs a)
  contains-filter_by p a [] = ground arith
  contains-filter_by p a (x ∷ xs) = ground (arith, contains-filter_by p a xs, e.beq_iff x a)

  pub contains-difference :
      (a : A) (xs ys : List A)
      → contains (difference xs ys) a ≡ (contains xs a && not (contains ys a))
  unfolding difference
  contains-difference a xs ys = ground (arith, contains-filter_by (λ x. not (contains ys x)) a xs)

  pub contains-intersection :
      (a : A) (xs ys : List A) → contains (intersection xs ys) a ≡ (contains xs a && contains ys a)
  unfolding intersection
  contains-intersection a xs ys = ground (arith, contains-filter_by (λ x. contains ys x) a xs)

  pub add-IsNodup : (a : A) (xs : List A) → IsNodup xs → IsNodup (add a xs)
  unfolding add
  add-IsNodup a xs h = ground arith

  pub to_set-IsNodup : (xs : List A) → IsNodup (to_set xs)
  unfolding to_set
  to_set-IsNodup [] = tt
  to_set-IsNodup (x ∷ xs) = add-IsNodup x (to_set xs) (to_set-IsNodup xs)

  pub length-add : (a : A) (xs : List A) → length (add a xs) ≤ length xs + 1
  unfolding add
  length-add a xs = ground arith

  pub is_empty_iff : (xs : List A) → (is_empty xs ≡ true) ↔ ((a : A) → contains xs a ≡ false)
  is_empty_iff [] = (λ _ a. refl, λ _. refl)
  is_empty_iff (x ∷ xs) = (λ h. cc, λ h. ground (arith, h x, beq_self x))
