-- ===== src/Payments/Service/Storefront/Offers.antt =====
-- What a checkout offers: the order, the origin and the number of its methods.
use vinc_api.Base.{
  ℕ, ◌≡◌, ◌≤◌, ◌+◌, refl, ◌∙◌, string_eq, nat_eq, true, List, [], ◌∷◌, arith, length, All, ok,
  Result-cases, Bool-cases, inl, inr, where_rows, leb, >>=-eq-ok,
}
use vinc_api.Payments.Model.{TenantPaymentProvider, StorefrontPaymentMethod, Db}
use vinc_api.Payments.Encryption.{Codec}
use vinc_api.Payments.Instances.{Instance, get_provider_instance}
use vinc_api.Payments.Service.Providers.{is_of}
use vinc_api.Payments.Service.Storefront.Joins.{Joined, join-Joined}
use vinc_api.Payments.Service.Storefront.{
  within, joins, join, offered, PaymentMethodInfo, method_row, collect, insert, sort,
  get_available_payment_methods,
}

-- Each method's display order is at most the next one's.
abbrev pub IsSorted : List PaymentMethodInfo → Type 0
IsSorted [] = Unit
IsSorted (x ∷ xs) = All (λ y. x.display_order ≤ y.display_order) xs × IsSorted xs

module _ (P : PaymentMethodInfo → Type 0) where
  All-insert :
      (x : PaymentMethodInfo) (xs : List PaymentMethodInfo) → P x → All P xs → All P (insert x xs)
  unfolding insert
  All-insert x [] px pxs = (px, tt)
  All-insert x (y ∷ ys) px (py, pys) = elim (Bool-cases (leb x.display_order y.display_order)) [
    | inl e ↦ rw e (px, (py, pys))
    | inr e ↦ rw e (py, All-insert x ys px pys)
  ]

  All-sort : (xs : List PaymentMethodInfo) → All P xs → All P (sort xs)
  unfolding sort
  All-sort [] h = tt
  All-sort (x ∷ xs) (px, pxs) = All-insert x (sort xs) px (All-sort xs pxs)

All-≤-trans :
    (a b : ℕ)
    → a ≤ b
    → (xs : List PaymentMethodInfo) → All (λ y. b ≤ y.display_order) xs
    → All (λ y. a ≤ y.display_order) xs
All-≤-trans a b h [] ps = tt
All-≤-trans a b h (x ∷ xs) (p, ps) = (omega arith, All-≤-trans a b h xs ps)

insert-IsSorted :
    (x : PaymentMethodInfo) (xs : List PaymentMethodInfo) → IsSorted xs → IsSorted (insert x xs)
unfolding insert
insert-IsSorted x [] s = (tt, tt)
insert-IsSorted x (y ∷ ys) (low, s) = elim (Bool-cases (leb x.display_order y.display_order)) [
  | inl e ↦
      let h : x.display_order ≤ y.display_order = ground arith in
      rw e ((h, All-≤-trans x.display_order y.display_order h ys low), (low, s))
  | inr e ↦ rw e (
    All-insert (λ z. y.display_order ≤ z.display_order) x ys (ground arith) low,
    insert-IsSorted x ys s,
  )
]

sort-IsSorted : (xs : List PaymentMethodInfo) → IsSorted (sort xs)
unfolding sort
sort-IsSorted [] = tt
sort-IsSorted (x ∷ xs) = insert-IsSorted x (sort xs) (sort-IsSorted xs)

length-insert :
    (x : PaymentMethodInfo) (xs : List PaymentMethodInfo) → length (insert x xs) ≡ length xs + 1
unfolding insert
length-insert x [] = refl
length-insert x (y ∷ ys) = ground (arith, length-insert x ys)

length-sort : (xs : List PaymentMethodInfo) → length (sort xs) ≡ length xs
unfolding sort
length-sort [] = refl
length-sort (x ∷ xs) = omega (arith, length-insert x (sort xs), length-sort xs)

module _ (c : Codec) (storefront_id amount : ℕ) where
  -- The origin of an offered method: an enabled method of the storefront whose conditions the amount
  -- meets, with an enabled provider of the method's tenant and name that has an instance.
  pub record Offered (info : PaymentMethodInfo) : Type 0 where
    pub storefront_method : StorefrontPaymentMethod
    pub tenant_provider : TenantPaymentProvider
    pub provider_instance : Instance
    pub of_storefront : storefront_method.storefront_id ≡ storefront_id
    pub method_enabled : storefront_method.is_enabled ≡ true
    pub provider_enabled : tenant_provider.is_enabled ≡ true
    pub same_tenant : tenant_provider.tenant_id ≡ storefront_method.tenant_id
    pub same_provider : tenant_provider.provider ≡ storefront_method.provider
    pub meets : within amount storefront_method.conditions ≡ true
    pub makes : get_provider_instance c tenant_provider ≡ ok provider_instance
    pub shows : info ≡ method_row storefront_method provider_instance.info

  offer :
      (m : StorefrontPaymentMethod) (p : TenantPaymentProvider) (i : Instance)
      → Joined joins (offered storefront_id) (m, p)
      → within amount m.conditions ≡ true
      → get_provider_instance c p ≡ ok i
      → Offered (method_row m i.info)
  unfolding offered joins is_of
  offer m p i (on, pass) w q = record {
    storefront_method = m;
    tenant_provider = p;
    provider_instance = i;
    of_storefront = ground arith;
    method_enabled = ground arith;
    provider_enabled = ground arith;
    same_tenant = ground arith;
    same_provider = ground arith;
    meets = w;
    makes = q;
    shows = refl;
  }

  collect-Offered :
      (rows : List (StorefrontPaymentMethod × TenantPaymentProvider))
      (infos : List PaymentMethodInfo)
      → All (Joined joins (offered storefront_id)) rows
      → collect c amount rows ≡ ok infos
      → All Offered infos
  unfolding collect
  collect-Offered [] infos h r = let same : [] ≡ infos = cc in rw (← same) tt
  collect-Offered ((m, p) ∷ rest) infos (j, h) r = elim (Bool-cases (within amount m.conditions)) [
    | inr w ↦ collect-Offered rest infos h (ground arith)
    | inl w ↦ elim (Result-cases (get_provider_instance c p)) [
      | inr (e, q) ↦ absurd (ground arith)
      | inl (i, q) ↦ elim (Result-cases (collect c amount rest)) [
        | inr (e, q') ↦ absurd (ground arith)
        | inl (rows, q') ↦
            let same : method_row m i.info ∷ rows ≡ infos = ground arith in
            rw (← same) (offer m p i j w q, collect-Offered rest rows h q')
      ]
    ]
  ]

  length-collect :
      (rows : List (StorefrontPaymentMethod × TenantPaymentProvider))
      (infos : List PaymentMethodInfo)
      → collect c amount rows ≡ ok infos
      → length infos ≡ length (where_rows (λ x. within amount x.0.conditions) rows)
  unfolding collect where_rows
  length-collect [] infos r = let same : [] ≡ infos = cc in rw (← same) refl
  length-collect ((m, p) ∷ rest) infos r = elim (Bool-cases (within amount m.conditions)) [
    | inr w ↦ rw w (length-collect rest infos (ground arith))
    | inl w ↦ elim (Result-cases (get_provider_instance c p)) [
      | inr (e, q) ↦ absurd (ground arith)
      | inl (i, q) ↦ elim (Result-cases (collect c amount rest)) [
        | inr (e, q') ↦ absurd (ground arith)
        | inl (rows, q') ↦
            let same : method_row m i.info ∷ rows ≡ infos = ground arith in
            rw (w, ← same) (omega (arith, length-collect rest rows q'))
      ]
    ]
  ]

  module _ (db : Db) (infos : List PaymentMethodInfo)
      (returns : get_available_payment_methods c storefront_id amount db ≡ ok infos) where
    abbrev pub rows : List (StorefrontPaymentMethod × TenantPaymentProvider)
    rows = join joins (offered storefront_id) db.methods db.providers

    collected :
        (found : List PaymentMethodInfo) × (collect c amount rows ≡ ok found) × (infos ≡ sort found)
    unfolding get_available_payment_methods
    collected =
        let (found, q, e) = >>=-eq-ok (λ x. ok (sort x)) infos (collect c amount rows) returns in
        (found, q, ground arith)

    -- The methods that a checkout offers are in the order of their display orders. Each is an enabled
    -- method of the storefront whose conditions the amount meets, joined with an enabled provider of
    -- its tenant and name that has an instance. There are as many as enabled pairs of the storefront
    -- whose conditions the amount meets.
    pub available_methods_lem :
        IsSorted infos
        × All Offered infos
        × (length infos ≡ length (where_rows (λ x. within amount x.0.conditions) rows))
    available_methods_lem =
        let (found, q, same) = collected in
        rw same (
          sort-IsSorted found,
          All-sort Offered found (
              collect-Offered rows found
                (join-Joined joins (offered storefront_id) db.methods db.providers) q),
          length-sort found ∙ length-collect rows found q,
        )
