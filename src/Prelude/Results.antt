-- ===== src/Prelude/Results.antt =====
-- A computation that may raise, as a value.
use mathlib.Core.Path.{◌≡◌, refl}
use mathlib.Core.Logic.{◌⊎◌, inl, inr}
use mathlib.Core.Bool.{Bool, true, false}

pub data Result (E A : Type 0) : Type 0 where
  err : (exception : E) → Result E A
  ok : (value : A) → Result E A

module _ {E A : Type 0} where
  -- How a computation ended.
  pub Result-cases : (r : Result E A) → ((a : A) × (r ≡ ok a)) ⊎ ((e : E) × (r ≡ err e))
  Result-cases (err exception) = inr (exception, refl)
  Result-cases (ok value) = inl (value, refl)

  pub ok-injective : (a b : A) → ◌≡◌ {A = Result E A} (ok a) (ok b) → a ≡ b
  ok-injective a b same = cc

module _ {E A B : Type 0} where
  infixl 5 ◌>>=◌
  -- `await`: an exception leaves the caller too.
  abbrev pub ◌>>=◌ : Result E A → (A → Result E B) → Result E B
  err exception >>= after = err exception
  ok value >>= after = after value

  -- A caller that returns got a value from what it called.
  pub >>=-eq-ok :
      (r : Result E A) (after : A → Result E B) {result : B}
      → (r >>= after) ≡ ok result
      → (value : A) × (r ≡ ok value) × (after value ≡ ok result)
  >>=-eq-ok (err exception) after returned = cc
  >>=-eq-ok (ok value) after returned = (value, refl, returned)

module _ {E : Type 0} where
  infixl 5 ◌>>◌
  abbrev pub ◌>>◌ : {B : Type 0} → Result E (Unit {0}) → Result E B → Result E B
  err exception >> after = err exception
  ok done >> after = after

  -- `if not test: raise exception`
  abbrev pub require : Bool → E → Result E (Unit {0})
  require false exception = err exception
  require true exception = ok tt
