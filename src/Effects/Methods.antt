-- ===== src/Effects/Methods.antt =====
-- Methods of an object: they see and change its fields, raise, and act on the world. What was
-- assigned before an exception stays assigned.
use faultstorm.Prelude.{Result, ok, err, Exception}
use faultstorm.Effects.{World, Io}

abbrev pub Method : Type 0 → Type 0 → Type 0
Method S A = S → World → Result A × S × World

module _ {S : Type 0} where
  abbrev pub self : Method S S
  self s w = (ok s, s, w)

  abbrev pub modify : (S → S) → Method S (Unit {0})
  modify f s w = (ok tt, f s, w)

  module _ {A : Type 0} where
    abbrev pub return : A → Method S A
    return a s w = (ok a, s, w)

    abbrev pub throw : Exception → Method S A
    throw e s w = (err e, s, w)

    -- A call that does not touch the object.
    abbrev pub lift : Io A → Method S A
    lift m s w = let (r, w') = m w in (r, s, w')

  module _ {A B : Type 0} where
    abbrev pub after : Result A → (A → Method S B) → Method S B
    after (ok a) f s w = f a s w
    after (err e) f s w = (err e, s, w)

    infixl 5 ◌>>=◌ ◌>>◌
    abbrev pub ◌>>=◌ : Method S A → (A → Method S B) → Method S B
    ◌>>=◌ m f s w = let (r, s', w') = m s w in after r f s' w'

    abbrev pub ◌>>◌ : Method S A → Method S B → Method S B
    m >> k = m >>= λ _. k
