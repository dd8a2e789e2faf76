-- ===== src/Base/Members.antt =====
-- Rows that a query gives are rows of the table, and keys that stand only once.
use mathlib.Core.Path.{◌≡◌, refl, ap}
use mathlib.Core.Logic.{◌⊎◌, inl, inr}
use mathlib.Core.Bool.{Bool, true, false}
use mathlib.Core.Option.{some}
use mathlib.Core.List.{List, [], ◌∷◌, map}
use native.Mathlib.Omega.{arith}
use vinc_api.Base.Equality.{nat_eq}
use vinc_api.Base.Lists.{All, find, where_rows, any, all}
use vinc_api.Base.Tests.{Bool-cases}

module _ {A : Type 0} where
  -- A row of the table: each test that it passes, some row passes.
  unfoldable pub IsWithin : List A → A → Type 0
  unfolding any
  IsWithin xs x = (p : A → Bool) → p x ≡ true → any p xs ≡ true

  pub any-All : (xs : List A) (P : A → Bool) → any P xs ≡ false → All (λ x. P x ≡ false) xs
  unfolding any
  any-All [] P h = tt
  any-All (x ∷ xs) P h = elim (Bool-cases (P x)) [
    | inl e ↦ absurd (ground arith)
    | inr e ↦ (e, any-All xs P (ground arith))
  ]

  pub all-All : (xs : List A) (P : A → Bool) → all P xs ≡ true → All (λ x. P x ≡ true) xs
  unfolding all
  all-All [] P h = tt
  all-All (x ∷ xs) P h = elim (Bool-cases (P x)) [
    | inl e ↦ (e, all-All xs P (ground arith))
    | inr e ↦ absurd (ground arith)
  ]

  pub All-map {κ} : {P Q : A → Type κ} → ((x : A) → P x → Q x) → (xs : List A) → All P xs → All Q xs
  All-map f [] ps = tt
  All-map f (x ∷ xs) (p, ps) = (f x p, All-map f xs ps)

  pub All-both {κ} :
      (P Q : A → Type κ) (xs : List A) → All P xs → All Q xs → All (λ x. P x × Q x) xs
  All-both P Q [] ps qs = tt
  All-both P Q (x ∷ xs) (p, ps) (q, qs) = ((p, q), All-both P Q xs ps qs)

  pub All-keys {κ} :
      {B : Type 0} (P : B → Type κ) (f : A → B) (xs : List A)
      → All (λ x. P (f x)) xs
      → All P (map f xs)
  All-keys P f [] ps = tt
  All-keys P f (x ∷ xs) (p, ps) = (p, All-keys P f xs ps)

  IsWithin-more : (x y : A) (xs : List A) → IsWithin xs y → IsWithin (x ∷ xs) y
  unfolding IsWithin any
  IsWithin-more x y xs w p h = ground (arith, w p h)

  pub find-IsWithin : (p : A → Bool) (xs : List A) (x : A) → find p xs ≡ some x → IsWithin xs x
  unfolding IsWithin any find
  find-IsWithin p [] y h = absurd cc
  find-IsWithin p (x ∷ xs) y h = elim (Bool-cases (p x)) [
    | inl e ↦ let same : x ≡ y = ground arith in λ q t. rw (same, t) refl
    | inr e ↦ IsWithin-more x y xs (find-IsWithin p xs y (ground arith))
  ]

  pub where_rows-IsWithin :
      (p : A → Bool) (xs : List A) → All (λ x. IsWithin xs x × (p x ≡ true)) (where_rows p xs)
  unfolding where_rows IsWithin
  where_rows-IsWithin p [] = tt
  where_rows-IsWithin p (x ∷ xs) =
      let rest =
        All-map (λ y w. (IsWithin-more x y xs w.0, w.1)) (where_rows p xs)
          (where_rows-IsWithin p xs) in
      elim (Bool-cases (p x)) [
        | inl e ↦ rw e ((λ q t. rw (any, t) refl, e), rest)
        | inr e ↦ rw e rest
      ]

  -- What the rows have, the rows of a query have.
  pub where_rows-All {κ} :
      (P : A → Type κ) (p : A → Bool) (xs : List A) → All P xs → All P (where_rows p xs)
  unfolding where_rows
  where_rows-All P p [] ps = tt
  where_rows-All P p (x ∷ xs) (h, ps) = elim (Bool-cases (p x)) [
    | inl e ↦ rw e (h, where_rows-All P p xs ps)
    | inr e ↦ rw e (where_rows-All P p xs ps)
  ]

  pub List-cases : (xs : List A) → (xs ≡ []) ⊎ ((x : A) × (rest : List A) × (xs ≡ x ∷ rest))
  List-cases [] = inl refl
  List-cases (x ∷ xs) = inr (x, xs, refl)

  pub where_rows-true : (xs : List A) → where_rows (λ x. true) xs ≡ xs
  unfolding where_rows
  where_rows-true [] = refl
  where_rows-true (x ∷ xs) = ap (λ r. x ∷ r) (where_rows-true xs)
