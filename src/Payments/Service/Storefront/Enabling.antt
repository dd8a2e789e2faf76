-- ===== src/Payments/Service/Storefront/Enabling.antt =====
-- What enabling a payment method does to the table of methods.
use vinc_api.Base.{
  ℕ, ◌≡◌, refl, ◌⊎◌, inl, inr, String, Option, none, some, [], ◌∷◌, ◌++◌, Result, ok, err,
  where_rows, scalar_one_or_none, scalar-one, where_rows_passes, ==_sound, arith, nat_eq, string_eq,
  Result-cases,
}
use vinc_api.Payments.Model.{TenantPaymentProvider, StorefrontPaymentMethod, Db}
use vinc_api.Payments.Service.Storefront.{
  EnableStorefrontMethodRequest, is_for, enabled_of, save_method, enable_method, enable_members,
}

-- A method was enabled: the tenant has one enabled provider of that name, and the row that is
-- returned has the data of the request and is added to the table, or takes the place of the one that
-- the storefront had for the name.
pub record Enabled (storefront_id tenant_id : ℕ) (r : EnableStorefrontMethodRequest) (before : Db)
    (after : Result String StorefrontPaymentMethod × Db) : Type 0 where
  pub tenant_provider : TenantPaymentProvider
  pub allows :
      scalar_one_or_none (where_rows (enabled_of tenant_id r.provider) before.providers)
      ≡ ok (some tenant_provider)
  pub row : StorefrontPaymentMethod
  pub returns : after.0 ≡ ok row
  pub same_storefront : row.storefront_id ≡ storefront_id
  pub same_provider : row.provider ≡ r.provider
  pub same_name : row.display_name ≡ r.display_name
  pub same_description : row.display_description ≡ r.display_description
  pub same_enabled : row.is_enabled ≡ r.is_enabled
  pub same_order : row.display_order ≡ r.display_order
  pub same_conditions : row.conditions ≡ r.conditions
  pub saves :
      ((scalar_one_or_none (where_rows (is_for storefront_id r.provider) before.methods) ≡ ok none)
        × (row.tenant_id ≡ tenant_id)
        × (after.1 ≡ record before { methods = before.methods ++ (row ∷ []) }))
      ⊎ ((old : StorefrontPaymentMethod) × (scalar_one_or_none
              (where_rows (is_for storefront_id r.provider) before.methods)
            ≡ ok (some old))
          × (row.id ≡ old.id)
          × (row.tenant_id ≡ old.tenant_id)
          × (after.1 ≡ record before { methods = save_method row before.methods }))

-- The call raised, and the tables are as they were.
pub record Rejected (before : Db) (after : Result String StorefrontPaymentMethod × Db)
    : Type 0 where
  pub message : String
  pub raises : after.0 ≡ err message
  pub unchanged : after.1 ≡ before

module _ (new_id now storefront_id tenant_id : ℕ) (r : EnableStorefrontMethodRequest)
    (db : Db) where
  abbrev query : Result String (Option StorefrontPaymentMethod)
  query = scalar_one_or_none (where_rows (is_for storefront_id r.provider) db.methods)

  old_names :
      (old : StorefrontPaymentMethod)
      → query ≡ ok (some old)
      → (old.storefront_id ≡ storefront_id) × (old.provider ≡ r.provider)
  old_names old f =
      let found = scalar-one (where_rows (is_for storefront_id r.provider) db.methods) old f in
      let named = where_rows_passes (is_for storefront_id r.provider) db.methods old [] found in
      unfold is_for in
      (
        ==_sound old.storefront_id storefront_id (ground arith),
        ==_sound old.provider r.provider (ground arith),
      )

  enable_with :
      (p : TenantPaymentProvider)
      → scalar_one_or_none (where_rows (enabled_of tenant_id r.provider) db.providers) ≡ ok (some p)
      → Rejected db (enable_members new_id now storefront_id tenant_id r db)
        ⊎ Enabled storefront_id tenant_id r db
            (enable_members new_id now storefront_id tenant_id r db)
  unfolding enable_members enable_method
  enable_with p q = elim (Result-cases query) [
    | inr (m, f) ↦ inl (
        rw (enable_members, q, enable_method, f)
          (record { message = m; raises = refl; unchanged = refl }))
    | inl (none, f) ↦ inr (
        rw (enable_members, q, enable_method, f)
          (record {
            tenant_provider = p;
            allows = q;
            row = _;
            returns = refl;
            same_storefront = refl;
            same_provider = refl;
            same_name = refl;
            same_description = refl;
            same_enabled = refl;
            same_order = refl;
            same_conditions = refl;
            saves = inl (f, refl, refl);
          }))
    | inl (some old, f) ↦ inr (
        rw (enable_members, q, enable_method, f)
          (record {
            tenant_provider = p;
            allows = q;
            row = _;
            returns = refl;
            same_storefront = (old_names old f).0;
            same_provider = (old_names old f).1;
            same_name = refl;
            same_description = refl;
            same_enabled = refl;
            same_order = refl;
            same_conditions = refl;
            saves = inr (old, f, refl, refl, refl);
          }))
  ]

  pub enable_members_lem :
      Rejected db (enable_members new_id now storefront_id tenant_id r db)
      ⊎ Enabled storefront_id tenant_id r db
          (enable_members new_id now storefront_id tenant_id r db)
  enable_members_lem =
      elim (Result-cases
        (scalar_one_or_none (where_rows (enabled_of tenant_id r.provider) db.providers))) [
          | inr (m, q) ↦ inl (
              unfold enable_members in
              rw (enable_members, q) (record { message = m; raises = refl; unchanged = refl }))
          | inl (none, q) ↦ inl (
              unfold enable_members in
              rw (enable_members, q)
                (record {
                  message = "Provider not enabled for this tenant";
                  raises = refl;
                  unchanged = refl;
                }))
          | inl (some p, q) ↦ enable_with p q
        ]
