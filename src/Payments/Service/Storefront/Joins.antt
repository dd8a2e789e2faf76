-- ===== src/Payments/Service/Storefront/Joins.antt =====
-- What the rows of a join have.
use vinc_api.Base.{◌≡◌, Bool, true, List, [], ◌∷◌, ◌++◌, map, All, Bool-cases, inl, inr, where_rows}
use vinc_api.Payments.Service.Storefront.{join}

-- A row pairs what the ON clause joins, and passes the WHERE clause.
module _ {ℓ κ} {A : Type ℓ} {B : Type κ} (on : A → B → Bool) (passes : A × B → Bool) where
  abbrev pub Joined : A × B → Type 0
  Joined x = (on x.0 x.1 ≡ true) × (passes x ≡ true)

  All-append : (xs ys : List (A × B)) → All Joined xs → All Joined ys → All Joined (xs ++ ys)
  All-append [] ys hx hy = hy
  All-append (x ∷ xs) ys (p, hx) hy = (p, All-append xs ys hx hy)

  rows-Joined :
      (a : A) (bs : List B)
      → All Joined (where_rows passes (map (λ b. (a, b)) (where_rows (on a) bs)))
  unfolding where_rows
  rows-Joined a [] = tt
  rows-Joined a (b ∷ bs) = elim (Bool-cases (on a b)) [
    | inr e ↦ rw e (rows-Joined a bs)
    | inl e ↦ elim (Bool-cases (passes (a, b))) [
      | inr n ↦ rw (e, n) (rows-Joined a bs)
      | inl y ↦ rw (e, y) ((e, y), rows-Joined a bs)
    ]
  ]

  pub join-Joined : (as' : List A) (bs : List B) → All Joined (join on passes as' bs)
  unfolding join
  join-Joined [] bs = tt
  join-Joined (a ∷ rest) bs =
      All-append (where_rows passes (map (λ b. (a, b)) (where_rows (on a) bs)))
        (join on passes rest bs) (rows-Joined a bs) (join-Joined rest bs)

-- The left side of a join's rows comes from the left table.
module _ {ℓ κ μ} {A : Type ℓ} {B : Type κ} (on : A → B → Bool) (passes : A × B → Bool)
    (P : A → Type μ) where
  left_append :
      (xs ys : List (A × B))
      → All (λ x. P x.0) xs
      → All (λ x. P x.0) ys
      → All (λ x. P x.0) (xs ++ ys)
  left_append [] ys hx hy = hy
  left_append (x ∷ xs) ys (p, hx) hy = (p, left_append xs ys hx hy)

  left_rows :
      (a : A) (bs : List B)
      → P a
      → All (λ x. P x.0) (where_rows passes (map (λ b. (a, b)) (where_rows (on a) bs)))
  unfolding where_rows
  left_rows a [] h = tt
  left_rows a (b ∷ bs) h = elim (Bool-cases (on a b)) [
    | inr e ↦ rw e (left_rows a bs h)
    | inl e ↦ elim (Bool-cases (passes (a, b))) [
      | inr n ↦ rw (e, n) (left_rows a bs h)
      | inl y ↦ rw (e, y) (h, left_rows a bs h)
    ]
  ]

  pub join_left : (xs : List A) (bs : List B) → All P xs → All (λ x. P x.0) (join on passes xs bs)
  unfolding join
  join_left [] bs h = tt
  join_left (a ∷ rest) bs (h, hs) =
      left_append (where_rows passes (map (λ b. (a, b)) (where_rows (on a) bs)))
        (join on passes rest bs) (left_rows a bs h) (join_left rest bs hs)
