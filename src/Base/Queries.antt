-- ===== src/Base/Queries.antt =====
-- SQLAlchemy's `scalar_one_or_none` on the rows of a query.
use Prim.Native.String.{String}
use mathlib.Core.Path.{◌≡◌, refl, ap}
use mathlib.Core.Option.{Option, none, some}
use mathlib.Core.List.{List, [], ◌∷◌}
use native.Mathlib.Omega.{arith}
use vinc_api.Base.Lists.{length}
use vinc_api.Base.Results.{Result, ok, err}

module _ {ℓ} {A : Type ℓ} where
  abbrev pub scalar_one_or_none : List A → Result String (Option A)
  scalar_one_or_none [] = ok none
  scalar_one_or_none (x ∷ []) = ok (some x)
  scalar_one_or_none (x ∷ y ∷ xs) = err "MultipleResultsFound"

  pub scalar-none : (xs : List A) → scalar_one_or_none xs ≡ ok none → length xs ≡ 0
  scalar-none [] q = refl
  scalar-none (x ∷ []) q = cc
  scalar-none (x ∷ y ∷ xs) q = cc

  pub scalar-some : (xs : List A) → length xs ≡ 1 → (x : A) × (scalar_one_or_none xs ≡ ok (some x))
  scalar-some [] q = absurd (omega arith)
  scalar-some (x ∷ []) q = (x, refl)
  scalar-some (x ∷ y ∷ xs) q = absurd (omega arith)

  pub scalar-one : (xs : List A) (x : A) → scalar_one_or_none xs ≡ ok (some x) → xs ≡ x ∷ []
  scalar-one [] x q = cc
  scalar-one (y ∷ []) x q = let same : y ≡ x = ground arith in ap (λ t. t ∷ []) same
  scalar-one (y ∷ z ∷ xs) x q = cc
