-- ===== src/Base/Tables.antt =====
-- Rows that are written in place: what a query gives after one row was replaced.
use Prim.Native.Nat.{◌≤◌}
use mathlib.Core.Path.{◌≡◌, refl, ap, sym, ◌∙◌}
use mathlib.Core.Logic.{◌⊎◌, inl, inr}
use mathlib.Core.Bool.{Bool, true, false}
use mathlib.Core.List.{List, [], ◌∷◌, ◌++◌, append-nil}
use native.Mathlib.Omega.{arith}
use vinc_api.Base.Lists.{length, All, where_rows, where_rows-append, update_rows}
use vinc_api.Base.Tests.{Bool-cases}

true_not_false : true ≡ false → ⊥
true_not_false h = cc

nil_of_length {ℓ} : {A : Type ℓ} (xs : List A) → length xs ≡ 0 → xs ≡ []
nil_of_length [] h = refl
nil_of_length (x ∷ xs) h = absurd (omega arith)

module _ {ℓ} {A : Type ℓ} where
  no_rows :
      (p : A → Bool) (xs : List A)
      → length (where_rows p xs) ≤ 0
      → (old : A) → All (λ r. p r ≡ true → r ≡ old) xs
  unfolding where_rows
  no_rows p [] h old = tt
  no_rows p (x ∷ xs) h old = elim (Bool-cases (p x)) [
    | inl e ↦ absurd (ground arith)
    | inr e ↦ (λ y. ground arith, no_rows p xs (ground arith) old)
  ]

  some_rows :
      (p q : A → Bool) (xs : List A) (old : A) (rest : List A)
      → where_rows q xs ≡ old ∷ rest
      → p old ≡ true
      → 1 ≤ length (where_rows p xs)
  unfolding where_rows
  some_rows p q [] old rest f h = cc
  some_rows p q (x ∷ xs) old rest f h = ground (arith, some_rows p q xs old rest)

  -- Where at most one row passes a test, every row that passes it is the one that a query found.
  pub only_row :
      (p q : A → Bool) (xs : List A) (old : A) (rest : List A)
      → where_rows q xs ≡ old ∷ rest
      → p old ≡ true
      → length (where_rows p xs) ≤ 1
      → All (λ r. p r ≡ true → r ≡ old) xs
  unfolding where_rows
  only_row p q [] old rest f h one = tt
  only_row p q (x ∷ xs) old rest f h one = elim (Bool-cases (q x)) [
    | inl e ↦ let same : x ≡ old = ground arith in (λ y. same, no_rows p xs (ground arith) old)
    | inr e ↦
        let later : where_rows q xs ≡ old ∷ rest = ground arith in
        (
          λ y. absurd (ground (arith, some_rows p q xs old rest later h)),
          only_row p q xs old rest later h (ground arith),
        )
  ]

  -- Such a row is all that the test's query gives.
  pub where_rows_single :
      (p q : A → Bool) (xs : List A) (old : A)
      → where_rows q xs ≡ old ∷ []
      → p old ≡ true
      → length (where_rows p xs) ≤ 1
      → where_rows p xs ≡ old ∷ []
  unfolding where_rows
  where_rows_single p q [] old f h one = cc
  where_rows_single p q (x ∷ xs) old f h one = elim (Bool-cases (q x)) [
    | inl e ↦
        let same : x ≡ old = ground arith in
        let t : p x ≡ true = ap p same ∙ h in
        let empty = nil_of_length (where_rows p xs) (ground arith) in ground arith
    | inr e ↦
        let later : where_rows q xs ≡ old ∷ [] = ground arith in
        let t : p x ≡ false = elim (Bool-cases (p x)) [
          | inr n ↦ n
          | inl y ↦ absurd (ground (arith, some_rows p q xs old [] later h))
        ] in
        ground (arith, where_rows_single p q xs old later h)
  ]

  -- A query that gives at most one row gives none, or one.
  pub few_rows : (xs : List A) → length xs ≤ 1 → (xs ≡ []) ⊎ ((x : A) × (xs ≡ x ∷ []))
  few_rows [] h = inl refl
  few_rows (x ∷ []) h = inr (x, refl)
  few_rows (x ∷ y ∷ xs) h = absurd (omega arith)

  -- A row passes the test of the query that gave it.
  pub where_rows_passes :
      (q : A → Bool) (xs : List A) (x : A) (rest : List A) → where_rows q xs ≡ x ∷ rest → q x ≡ true
  unfolding where_rows
  where_rows_passes q [] x rest h = cc
  where_rows_passes q (y ∷ xs) x rest h = ground (arith, where_rows_passes q xs x rest)

  -- A query after a row was added at the end.
  module _ (q : A → Bool) (xs : List A) (x : A) where
    pub where_rows-snoc_self :
        q x ≡ true → length (where_rows q xs) ≡ 0 → where_rows q (xs ++ (x ∷ [])) ≡ x ∷ []
    unfolding where_rows
    where_rows-snoc_self h empty =
        let none_yet = nil_of_length (where_rows q xs) empty in
        rw (where_rows-append q xs (x ∷ []), none_yet, h) refl

    pub where_rows-snoc_other : q x ≡ false → where_rows q (xs ++ (x ∷ [])) ≡ where_rows q xs
    unfolding where_rows
    where_rows-snoc_other h = rw (where_rows-append q xs (x ∷ []), h) (append-nil (where_rows q xs))

    pub length-where_rows-snoc :
        (q x ≡ true → length (where_rows q xs) ≡ 0)
        → length (where_rows q xs) ≤ 1
        → length (where_rows q (xs ++ (x ∷ []))) ≤ 1
    length-where_rows-snoc fresh one = elim (Bool-cases (q x)) [
      | inl e ↦ rw (where_rows-snoc_self e (fresh e)) (omega arith)
      | inr e ↦ rw (where_rows-snoc_other e) one
    ]

  module _ (p q : A → Bool) (old new : A) where
    -- A query that passes both the old and the new row gives as many rows as before.
    pub length-where_rows-update_rows :
        (xs : List A)
        → All (λ r. p r ≡ true → r ≡ old) xs
        → q old ≡ q new
        → length (where_rows q (update_rows p (λ r. new) xs)) ≡ length (where_rows q xs)
    unfolding where_rows update_rows
    length-where_rows-update_rows [] only same = refl
    length-where_rows-update_rows (x ∷ xs) (h, only) same = elim (Bool-cases (p x)) [
      | inl e ↦
          let t : q x ≡ q new = ap q (h e) ∙ same in
          ground (arith, length-where_rows-update_rows xs only same)
      | inr e ↦ ground (arith, length-where_rows-update_rows xs only same)
    ]

    -- A query that passes neither gives the same rows as before.
    pub where_rows-update_rows_other :
        (xs : List A)
        → All (λ r. p r ≡ true → r ≡ old) xs
        → q old ≡ false
        → q new ≡ false
        → where_rows q (update_rows p (λ r. new) xs) ≡ where_rows q xs
    unfolding where_rows update_rows
    where_rows-update_rows_other [] only qo qn = refl
    where_rows-update_rows_other (x ∷ xs) (h, only) qo qn = elim (Bool-cases (p x)) [
      | inl e ↦
          let t : q x ≡ false = ap q (h e) ∙ qo in
          ground (arith, where_rows-update_rows_other xs only qo qn)
      | inr e ↦ ground (arith, where_rows-update_rows_other xs only qo qn)
    ]

    -- A query that gave the old row alone gives the new row alone.
    pub where_rows-update_rows_self :
        (xs : List A)
        → All (λ r. p r ≡ true → r ≡ old) xs
        → p old ≡ true
        → q old ≡ true
        → q new ≡ true
        → where_rows q xs ≡ old ∷ []
        → where_rows q (update_rows p (λ r. new) xs) ≡ new ∷ []
    unfolding where_rows update_rows
    where_rows-update_rows_self [] only po qo qn f = cc
    where_rows-update_rows_self (x ∷ xs) (h, only) po qo qn f = elim (Bool-cases (p x)) [
      | inl e ↦
          let t : q x ≡ true = ap q (h e) ∙ qo in
          let none_left : where_rows q xs ≡ [] = ground arith in
          let none_new : length (where_rows q (update_rows p (λ r. new) xs)) ≡ 0 =
            length-where_rows-update_rows xs only (qo ∙ sym qn) ∙ ap length none_left in
          let empty = nil_of_length _ none_new in ground arith
      | inr e ↦
          let t : q x ≡ false = elim (Bool-cases (q x)) [
            | inr n ↦ n
            | inl y ↦
                let same : x ≡ old = ground arith in
                absurd (true_not_false (sym po ∙ ap p (sym same) ∙ e))
          ] in
          ground (arith, where_rows-update_rows_self xs only po qo qn)
    ]
