-- ===== src/Actions/Isolation/Rotation.antt =====
-- faults/actions.py: the window of a ring is the head of the order, turned to the node.
use faultstorm.Prelude.{
  ℕ, zero, suc, ◌+◌, ◌-◌, ◌/◌, ◌%◌, ◌≤◌, ◌<◌, ◌≡◌, refl, ◌∙◌, ap, ◌||◌, contains, IsNodup,
  take-append-drop, beq_self, list_eq, nat_eq, true, false, List, [], ◌∷◌, ◌++◌, some, ltb,
  if◌then◌else◌, arith, length, take, drop, get_elem?, Bool-cases, inl, inr,
}
use faultstorm.Text.{Text}
use faultstorm.Effects.Random.{get_elem?-some}
use faultstorm.Actions.Ring.{window, visible}

-- The order from index `i` on, and then from its start.
abbrev pub rotated : List Text → ℕ → List Text
rotated o i = drop i o ++ take i o

-- A node sees itself and the next ones of the order, half of the nodes and one.
abbrev pub sees : List Text → ℕ → List Text
sees o i = take (length o / 2 + 1) (rotated o i)

get_elem?-append :
    (xs ys : List Text) (j : ℕ)
    → get_elem? (xs ++ ys) j
      ≡ (if ltb j (length xs) then get_elem? xs j else get_elem? ys (j - length xs))
get_elem?-append [] ys j = ground arith
get_elem?-append (x ∷ xs) ys zero = ground arith
get_elem?-append (x ∷ xs) ys (suc j) = ground (arith, get_elem?-append xs ys j)

get_elem?-drop : (i : ℕ) (xs : List Text) (j : ℕ) → get_elem? (drop i xs) j ≡ get_elem? xs (i + j)
get_elem?-drop zero xs j = ground arith
get_elem?-drop (suc i) [] j = refl
get_elem?-drop (suc i) (x ∷ xs) j = ground (arith, get_elem?-drop i xs j)

get_elem?-take : (i : ℕ) (xs : List Text) (j : ℕ) → j < i → get_elem? (take i xs) j ≡ get_elem? xs j
get_elem?-take zero xs j h = absurd (omega arith)
get_elem?-take (suc i) [] j h = refl
get_elem?-take (suc i) (x ∷ xs) zero h = refl
get_elem?-take (suc i) (x ∷ xs) (suc j) h = get_elem?-take i xs j (omega arith)

length-drop : (i : ℕ) (xs : List Text) → length (drop i xs) ≡ length xs - i
length-drop zero xs = omega arith
length-drop (suc i) [] = omega arith
length-drop (suc i) (x ∷ xs) = omega (arith, length-drop i xs)

drop-get :
    (xs : List Text) (j : ℕ) (x : Text) → get_elem? xs j ≡ some x → drop j xs ≡ x ∷ drop (suc j) xs
drop-get [] j x h = cc
drop-get (y ∷ xs) zero x h = ground arith
drop-get (y ∷ xs) (suc j) x h = drop-get xs j x h

mod_less : (k n : ℕ) → k < n → k % n ≡ k
mod_less k n h = grind arith

mod_once : (k n : ℕ) → n ≤ k → k < n + n → k % n ≡ k - n
mod_once k n h l = grind arith

rotated-get :
    (o : List Text) (i j : ℕ)
    → i < length o
    → j < length o
    → get_elem? (rotated o i) j ≡ get_elem? o ((i + j) % length o)
rotated-get o i j h l = elim (Bool-cases (ltb j (length (drop i o)))) [
  | inl p ↦
      let inside : i + j < length o = ground (arith, p, length-drop i o) in
      get_elem?-append (drop i o) (take i o) j
      ∙ rw (p, mod_less (i + j) (length o) inside) (get_elem?-drop i o j)
  | inr p ↦
      let behind : length o ≤ i + j = ground (arith, p, length-drop i o) in
      let less : j - length (drop i o) < i = ground (arith, length-drop i o) in
      let same : j - length (drop i o) ≡ i + j - length o = ground (arith, length-drop i o) in
      get_elem?-append (drop i o) (take i o) j
      ∙ rw (p, mod_once (i + j) (length o) behind (omega arith))
          (get_elem?-take i o (j - length (drop i o)) less ∙ ap (λ k. get_elem? o k) same)
]

window-rotated :
    (o : List Text) (i j m : ℕ)
    → i < length o
    → j + m ≤ length o
    → window o i j m ≡ take m (drop j (rotated o i))
unfolding window
window-rotated o i j zero h l = refl
window-rotated o i j (suc m) h l =
    let (x, e) = get_elem?-some o ((i + j) % length o) (omega arith) in
    let head = drop-get (rotated o i) j x (rotated-get o i j h (omega arith) ∙ e) in
    rw (e, head, window-rotated o i (j + 1) m h (omega arith)) (ground arith)

pub visible-sees : (o : List Text) (i : ℕ) → i < length o → visible o i ≡ sees o i
unfolding visible
visible-sees o i h = window-rotated o i 0 (length o / 2 + 1) h (omega arith)

contains-append :
    (xs ys : List Text) (a : Text) → contains (xs ++ ys) a ≡ (contains xs a || contains ys a)
contains-append [] ys a = refl
contains-append (x ∷ xs) ys a = ground (arith, contains-append xs ys a)

record Apart (xs ys : List Text) : Type 0 where
  left : IsNodup xs
  right : IsNodup ys
  apart : (a : Text) → contains xs a ≡ true → contains ys a ≡ false

Apart-append : (xs ys : List Text) → IsNodup (xs ++ ys) → Apart xs ys
Apart-append [] ys h = record { left = tt; right = h; apart = λ a e. cc }
Apart-append (x ∷ xs) ys h =
    let rest = Apart-append xs ys h.1 in
    record {
      left = (ground (arith, h.0, contains-append xs ys x), rest.left);
      right = rest.right;
      apart = λ a e. ground (
        arith,
        h.0,
        e,
        contains-append xs ys x,
        rest.apart a,
        (list_eq ⦃e = nat_eq⦄).beq_iff x a,
      );
    }

append-IsNodup : (xs ys : List Text) → Apart xs ys → IsNodup (xs ++ ys)
append-IsNodup [] ys h = h.right
append-IsNodup (x ∷ xs) ys h = (
  ground (arith, h.left.0, contains-append xs ys x, h.apart x, beq_self x),
  append-IsNodup xs ys
      (record { left = h.left.1; right = h.right; apart = λ a e. ground (arith, e, h.apart a) }),
)

swapped : (xs ys : List Text) → Apart xs ys → Apart ys xs
swapped xs ys h = record {
  left = h.right;
  right = h.left;
  apart = λ a e. ground (arith, e, h.apart a, Bool-cases (contains xs a));
}

pub sees-IsNodup : (o : List Text) (i : ℕ) → IsNodup o → IsNodup (sees o i)
sees-IsNodup o i h =
    let parts = Apart-append (take i o) (drop i o) (rw (take-append-drop i o) h) in
    let turned = append-IsNodup (drop i o) (take i o) (swapped (take i o) (drop i o) parts) in
    let k = length o / 2 + 1 in
    (Apart-append (take k (rotated o i)) (drop k (rotated o i))
      (rw (take-append-drop k (rotated o i)) turned)).left

-- A node sees nodes of the order only.
pub sees-contains :
    (o : List Text) (i : ℕ) (x : Text) → contains (sees o i) x ≡ true → contains o x ≡ true
sees-contains o i x h =
    let k = length o / 2 + 1 in
    let turned : contains (rotated o i) x ≡ true =
      rw (← take-append-drop k (rotated o i))
        (contains-append (take k (rotated o i)) (drop k (rotated o i)) x ∙ rw h refl) in
    let split = contains-append (take i o) (drop i o) x in
    rw (← take-append-drop i o)
      (ground (arith, turned, split, contains-append (drop i o) (take i o) x))
