-- ===== src/Base/Results.antt =====
-- What a call returns or raises. An exception is carried as its message or its kind.
use mathlib.Core.Path.{◌≡◌, refl}
use mathlib.Core.Logic.{◌⊎◌, inl, inr}
use mathlib.Core.Option.{Option, none, some}

pub data Result {κ ℓ} (E : Type κ) (A : Type ℓ) : Type (κ ⊔ ℓ) where
  err : E → Result E A
  ok : A → Result E A

module _ {κ ℓ} {E : Type κ} {A : Type ℓ} where
  -- The value of an option that is there, or the exception.
  abbrev pub or_raise : E → Option A → Result E A
  or_raise message (some value) = ok value
  or_raise message none = err message

  -- A failed call is the end of the chain.
  infixl 5 ◌>>=◌
  abbrev pub ◌>>=◌ {μ} : {B : Type μ} → Result E A → (A → Result E B) → Result E B
  err message >>= next = err message
  ok value >>= next = next value

-- A chain that returned: what its first call returned, and that the rest returned from there.
module _ {κ ℓ μ} {E : Type κ} {A : Type ℓ} {B : Type μ} (next : A → Result E B) (result : B) where
  pub >>=-eq-ok :
      (first : Result E A)
      → (first >>= next) ≡ ok result
      → (value : A) × (first ≡ ok value) × (next value ≡ ok result)
  >>=-eq-ok (err message) returned = absurd cc
  >>=-eq-ok (ok value) returned = (value, refl, returned)

pub Result-cases {ℓ κ} :
    {E : Type κ} {A : Type ℓ} (r : Result E A) → ((a : A) × (r ≡ ok a)) ⊎ ((e : E) × (r ≡ err e))
Result-cases (ok a) = inl (a, refl)
Result-cases (err e) = inr (e, refl)
