-- ===== src/Prelude/Raising.antt =====
-- A computation that may raise: the error is a value of the module that raises it.
use mathlib.Core.Path.{◌≡◌, refl, subst}
use mathlib.Core.Logic.{◌⊎◌, inl, inr}
use mathlib.Core.Bool.{Bool, true, false}

pub data Result {ℓ κ} (Error : Type ℓ) (Value : Type κ) : Type (ℓ ⊔ κ) where
  err : Error → Result Error Value
  ok : Value → Result Error Value

module _ {ℓ κ ι} {E : Type ℓ} {A : Type κ} {B : Type ι} where
  -- What follows a raise is not run.
  infixl 5 ◌>>=◌
  abbrev pub ◌>>=◌ : Result E A → (A → Result E B) → Result E B
  err raised >>= next = err raised
  ok value >>= next = next value

  abbrev pub map_ok : (A → B) → Result E A → Result E B
  map_ok f (err raised) = err raised
  map_ok f (ok value) = ok (f value)

  -- Inversion of a successful chain.
  pub >>=-eq-ok :
      (run : Result E A) (next : A → Result E B) {b : B}
      → (run >>= next) ≡ ok b
      → (a : A) × (run ≡ ok a) × (next a ≡ ok b)
  >>=-eq-ok (err raised) next h = cc
  >>=-eq-ok (ok value) next h = (value, refl, h)

module _ {ℓ κ} {E : Type ℓ} {B : Type κ} where
  infixl 5 ◌>>◌
  abbrev pub ◌>>◌ : Result E (Unit {0}) → Result E B → Result E B
  err raised >> rest = err raised
  ok done >> rest = rest

  pub >>-eq-ok :
      (run : Result E (Unit {0})) (rest : Result E B) {b : B}
      → (run >> rest) ≡ ok b
      → (run ≡ ok tt) × (rest ≡ ok b)
  >>-eq-ok (err raised) rest h = cc
  >>-eq-ok (ok done) rest h = (refl, h)

-- `if test: raise e`
abbrev pub raise_if {ℓ} : {E : Type ℓ} → Bool → E → Result E (Unit {0})
raise_if false e = ok tt
raise_if true e = err e

-- Inversion of a guard.
pub raise_if-eq-ok {ℓ κ} :
    {E : Type ℓ} {B : Type κ} (test : Bool) (e : E) (rest : Result E B) {b : B}
    → (raise_if test e >> rest) ≡ ok b
    → (test ≡ false) × (rest ≡ ok b)
raise_if-eq-ok false e rest h = (refl, h)
raise_if-eq-ok true e rest h = cc

-- What holds of a returned value holds of the result it is.
pub of_ok {ℓ κ ι} :
    {E : Type ℓ} {A : Type κ} (P : A → Type ι) {a b : A}
    → ◌≡◌ {A = Result E A} (ok a) (ok b)
    → P a
    → P b
of_ok P {a} {b} h p = subst P same p
  where
    same : a ≡ b
    same = cc

pub raise_if-ok {ℓ} : {E : Type ℓ} (test : Bool) (e : E) → raise_if test e ≡ ok tt → test ≡ false
raise_if-ok false e h = refl
raise_if-ok true e h = cc

-- To split on a computed result and keep the equation.
pub Result-cases {ℓ κ} :
    {E : Type ℓ} {A : Type κ} (r : Result E A) → ((e : E) × (r ≡ err e)) ⊎ ((a : A) × (r ≡ ok a))
Result-cases (err e) = inl (e, refl)
Result-cases (ok a) = inr (a, refl)
