-- ===== src/Base/Paging.antt =====
-- OFFSET and LIMIT of a query.
use Prim.Native.Nat.{ℕ, zero, suc, ◌+◌, ◌≤◌}
use mathlib.Core.Path.{◌≡◌, refl, sym, ap, ◌∙◌}
use mathlib.Core.List.{List, [], ◌∷◌, ◌++◌}
use native.Mathlib.Omega.{arith}
use vinc_api.Base.Lists.{length}

-- OFFSET
unfoldable pub skip {ℓ} : {A : Type ℓ} → ℕ → List A → List A
skip zero xs = xs
skip (suc n) [] = []
skip (suc n) (x ∷ xs) = skip n xs

-- LIMIT
unfoldable pub take {ℓ} : {A : Type ℓ} → ℕ → List A → List A
take zero xs = []
take (suc n) [] = []
take (suc n) (x ∷ xs) = x ∷ take n xs

zero_add : (n : ℕ) → zero + n ≡ n
zero_add n = omega arith

suc_add : (m n : ℕ) → suc m + n ≡ suc (m + n)
suc_add m n = omega arith

module _ {ℓ} {A : Type ℓ} where
  pub length-take : (n : ℕ) (xs : List A) → length (take n xs) ≤ n
  unfolding take
  length-take zero xs = omega arith
  length-take (suc n) [] = omega arith
  length-take (suc n) (x ∷ xs) = omega (arith, length-take n xs)

  pub take-all : (n : ℕ) (xs : List A) → length xs ≤ n → take n xs ≡ xs
  unfolding take
  take-all zero [] h = refl
  take-all zero (x ∷ xs) h = absurd (omega arith)
  take-all (suc n) [] h = refl
  take-all (suc n) (x ∷ xs) h = ap (λ t. x ∷ t) (take-all n xs (omega arith))

  take-nil : (n : ℕ) → take {A = A} n [] ≡ []
  unfolding take
  take-nil zero = refl
  take-nil (suc n) = refl

  -- A page of m + n rows is a page of m and the n rows after it.
  pub take-add : (m n : ℕ) (xs : List A) → take (m + n) xs ≡ take m xs ++ take n (skip m xs)
  unfolding take skip
  take-add zero n xs = ap (λ k. take k xs) (zero_add n)
  take-add (suc m) n [] = take-nil (suc m + n) ∙ sym (take-nil n)
  take-add (suc m) n (x ∷ xs) =
      ap (λ k. take k (x ∷ xs)) (suc_add m n) ∙ ap (λ t. x ∷ t) (take-add m n xs)

  pub skip-add : (m n : ℕ) (xs : List A) → skip (m + n) xs ≡ skip n (skip m xs)
  unfolding skip
  skip-add zero n xs = ap (λ k. skip k xs) (zero_add n)
  skip-add (suc m) n [] = ap (λ k. skip k []) (suc_add m n) ∙ sym (skip-nil n)
    where
      skip-nil : (n : ℕ) → skip {A = A} n [] ≡ []
      skip-nil zero = refl
      skip-nil (suc n) = refl
  skip-add (suc m) n (x ∷ xs) = ap (λ k. skip k (x ∷ xs)) (suc_add m n) ∙ skip-add m n xs
