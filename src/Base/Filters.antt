-- ===== src/Base/Filters.antt =====
-- What all the rows of a list do: all kept, none left, a search over two lists.
use Prim.Native.Nat.{◌≤◌}
use mathlib.Core.Path.{◌≡◌, refl, ap, subst}
use mathlib.Core.Logic.{inl, inr}
use mathlib.Core.Bool.{Bool, true, false, not, ◌&&◌}
use mathlib.Core.Option.{none, some}
use mathlib.Core.List.{List, [], ◌∷◌, ◌++◌}
use native.Mathlib.Omega.{arith}
use vinc_api.Base.Lists.{length, All, find, where_rows, any, update_rows}
use vinc_api.Base.Tests.{Bool-cases}
use vinc_api.Base.Members.{IsWithin, All-map, where_rows-IsWithin, where_rows-true}

module _ {A : Type 0} (p : A → Bool) where
  pub where_rows-kept : (xs : List A) → All (λ x. p x ≡ true) xs → where_rows p xs ≡ xs
  unfolding where_rows
  where_rows-kept [] h = refl
  where_rows-kept (x ∷ xs) (h, hs) = rw h (ap (λ t. x ∷ t) (where_rows-kept xs hs))

  pub where_rows-gone : (xs : List A) → All (λ x. p x ≡ false) xs → where_rows p xs ≡ []
  unfolding where_rows
  where_rows-gone [] h = refl
  where_rows-gone (x ∷ xs) (h, hs) = rw h (where_rows-gone xs hs)

  pub find-append :
      (xs : List A) (y : A) (ys : List A)
      → find p xs ≡ none
      → p y ≡ true
      → find p (xs ++ (y ∷ ys)) ≡ some y
  unfolding find
  find-append [] y ys h e = rw e refl
  find-append (x ∷ xs) y ys h e = ground (arith, find-append xs y ys)

  pub find-none : (xs : List A) → find p xs ≡ none → All (λ x. p x ≡ false) xs
  unfolding find
  find-none [] h = tt
  find-none (x ∷ xs) h = elim (Bool-cases (p x)) [
    | inl e ↦ absurd (ground arith)
    | inr e ↦ (e, find-none xs (ground arith))
  ]

pub each-IsWithin : {A : Type 0} (xs : List A) → All (λ x. IsWithin xs x) xs
each-IsWithin xs =
    subst (All (λ x. IsWithin xs x)) (where_rows-true xs)
      (All-map (λ x w. w.0) (where_rows (λ x. true) xs) (where_rows-IsWithin (λ x. true) xs))

pub any-never :
    {A : Type 0} (q : A → Bool) → ((x : A) → q x ≡ false) → (xs : List A) → any q xs ≡ false
unfolding any
any-never q h [] = refl
any-never q h (x ∷ xs) = rw (h x) (any-never q h xs)

module _ {A : Type 0} where
  pub where_rows_none :
      (p q : A → Bool)
      → ((x : A) → p x ≡ true → q x ≡ false)
      → (xs : List A) → where_rows q (where_rows p xs) ≡ []
  unfolding where_rows
  where_rows_none p q apart [] = refl
  where_rows_none p q apart (x ∷ xs) = elim (Bool-cases (p x)) [
    | inl e ↦ rw e (rw (apart x e) (where_rows_none p q apart xs))
    | inr e ↦ rw e (where_rows_none p q apart xs)
  ]

  pub where_rows_within :
      (p q : A → Bool)
      → ((x : A) → q x ≡ true → p x ≡ true)
      → (xs : List A) → where_rows q (where_rows p xs) ≡ where_rows q xs
  unfolding where_rows
  where_rows_within p q h [] = refl
  where_rows_within p q h (x ∷ xs) = elim (Bool-cases (p x)) [
    | inl e ↦ rw e (ground (arith, where_rows_within p q h xs))
    | inr e ↦ elim (Bool-cases (q x)) [
      | inl f ↦ absurd (ground (arith, h x f))
      | inr f ↦ rw (e, f) (where_rows_within p q h xs)
    ]
  ]

module _ {ℓ} {A : Type ℓ} (p q : A → Bool) where
  -- A further condition leaves at most as many rows.
  pub length-where_rows-both :
      (xs : List A) → length (where_rows (λ x. p x && q x) xs) ≤ length (where_rows p xs)
  unfolding where_rows
  length-where_rows-both [] = omega arith
  length-where_rows-both (x ∷ xs) = ground (arith, length-where_rows-both xs)

module _ {A : Type 0} (p : A → Bool) (y : A) (h : p y ≡ true) where
  -- Writing the rows that pass a test anew leaves the other rows.
  pub others-update_rows :
      (xs : List A)
      → where_rows (λ x. not (p x)) (update_rows p (λ x. y) xs) ≡ where_rows (λ x. not (p x)) xs
  unfolding where_rows update_rows
  others-update_rows [] = refl
  others-update_rows (x ∷ xs) = elim (Bool-cases (p x)) [
    | inl e ↦ rw e (rw h (others-update_rows xs))
    | inr e ↦ rw e (rw e (ap (λ t. x ∷ t) (others-update_rows xs)))
  ]

  none-update_rows :
      (xs : List A) → where_rows p xs ≡ [] → where_rows p (update_rows p (λ z. y) xs) ≡ []
  unfolding where_rows update_rows
  none-update_rows [] q = refl
  none-update_rows (z ∷ zs) q = elim (Bool-cases (p z)) [
    | inl e ↦ absurd (ground arith)
    | inr e ↦ rw e (rw e (none-update_rows zs (rw e at q)))
  ]

  -- A row that a query finds alone is the new one afterwards.
  pub found-update_rows :
      (x : A) (xs : List A)
      → where_rows p xs ≡ x ∷ []
      → where_rows p (update_rows p (λ z. y) xs) ≡ y ∷ []
  unfolding where_rows update_rows
  found-update_rows x [] q = absurd cc
  found-update_rows x (z ∷ zs) q = elim (Bool-cases (p z)) [
    | inl e ↦
        let rest : where_rows p zs ≡ [] = ground arith in
        rw e (rw h (ap (λ t. y ∷ t) (none-update_rows zs rest)))
    | inr e ↦ rw e (rw e (found-update_rows x zs (rw e at q)))
  ]
