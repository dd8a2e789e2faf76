-- ===== src/Base/Rows.antt =====
-- Rows that are written in place: what a query for one row gives then.
use mathlib.Core.Path.{◌≡◌, refl}
use mathlib.Core.Logic.{inl, inr}
use mathlib.Core.Bool.{Bool, true, false}
use mathlib.Core.Option.{some}
use mathlib.Core.List.{List, [], ◌∷◌}
use native.Mathlib.Omega.{arith}
use vinc_api.Base.Lists.{All, find, update_rows}
use vinc_api.Base.Tests.{Bool-cases}

-- A query for one row after a row was written.
module _ {A : Type 0} (p : A → Bool) (new : A) where
  pub update_rows-All :
      (P : A → Type 0) → P new → (xs : List A) → All P xs → All P (update_rows p (λ x. new) xs)
  unfolding update_rows
  update_rows-All P h [] ps = tt
  update_rows-All P h (x ∷ xs) (q, qs) = elim (Bool-cases (p x)) [
    | inl e ↦ rw e (h, update_rows-All P h xs qs)
    | inr e ↦ rw e (q, update_rows-All P h xs qs)
  ]

  pub find-update_rows_self :
      p new ≡ true
      → (xs : List A) (old : A) → find p xs ≡ some old
      → find p (update_rows p (λ x. new) xs) ≡ some new
  unfolding update_rows find
  find-update_rows_self h [] old f = absurd cc
  find-update_rows_self h (x ∷ xs) old f = elim (Bool-cases (p x)) [
    | inl e ↦ rw (e, h) refl
    | inr e ↦ rw (e, e) (find-update_rows_self h xs old (ground arith))
  ]

  pub find-update_rows_other :
      (q : A → Bool)
      → q new ≡ false
      → ((x : A) → p x ≡ true → q x ≡ false)
      → (xs : List A) → find q (update_rows p (λ x. new) xs) ≡ find q xs
  unfolding update_rows find
  find-update_rows_other q h apart [] = refl
  find-update_rows_other q h apart (x ∷ xs) = elim (Bool-cases (p x)) [
    | inl e ↦ rw (e, h, apart x e) (find-update_rows_other q h apart xs)
    | inr e ↦ rw e (ground (arith, find-update_rows_other q h apart xs))
  ]
