-- ===== src/Prelude/Results.antt =====
-- Python's exceptions as values. An exception carries its class only: no caller reads a message.
use mathlib.Core.Path.{◌≡◌, refl}
use mathlib.Core.Logic.{◌⊎◌, inl, inr}

pub data Exception : Type 0 where
  value_error index_error type_error assertion_error runtime_error os_error overflow_error :
      Exception
  called_process_error timeout_expired timeout_error database_error : Exception
  zero_division_error : Exception

pub data Result {ℓ} (A : Type ℓ) : Type ℓ where
  ok : A → Result A
  err : Exception → Result A

module _ {ℓ κ} {A : Type ℓ} {B : Type κ} where
  infixl 5 ◌>>=◌
  -- What follows runs only if no exception was raised.
  abbrev pub ◌>>=◌ : Result A → (A → Result B) → Result B
  ok x >>= next = next x
  err c >>= next = err c

  pub >>=-eq-ok :
      (r : Result A) (next : A → Result B) {y : B}
      → (r >>= next) ≡ ok y
      → (x : A) × (r ≡ ok x) × (next x ≡ ok y)
  >>=-eq-ok (ok x) next h = (x, refl, h)
  >>=-eq-ok (err c) next h = cc

infixl 5 ◌>>◌
abbrev pub ◌>>◌ {ℓ} : {B : Type ℓ} → Result (Unit {0}) → Result B → Result B
first >> second = first >>= λ u. second

pub Result-cases {ℓ} :
    {A : Type ℓ} (r : Result A) → ((a : A) × (r ≡ ok a)) ⊎ ((c : Exception) × (r ≡ err c))
Result-cases (ok a) = inl (a, refl)
Result-cases (err c) = inr (c, refl)
