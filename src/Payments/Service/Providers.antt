-- ===== src/Payments/Service/Providers.antt =====
-- `PaymentService`: the providers of a tenant. A new row is given its id, and each call its time.
pub mod Keys
pub mod Operations
use vinc_api.Base.{
  ℕ, String, string_eq, nat_eq, ◌==◌, Bool, true, false, ◌&&◌, Option, none, some, List, [], ◌∷◌,
  ◌++◌, Result, ok, err, scalar_one_or_none, or_value, where_rows, is_some, ◌||◌, if◌then◌else◌,
  update_rows,
}
use vinc_api.Payments.Model.{
  ProviderConfig, TenantPaymentProvider, Db, EnumFields, members, values, with_members,
}
use vinc_api.Payments.Encryption.{Codec, encrypt}

pub record ConfigureProviderRequest : Type 0 where
  pub provider : String
  pub credentials : List (String × String)
  pub mode : String
  pub config : ProviderConfig
  pub fee_bearer : String
  pub fees : List (String × String)

pub record UpdateProviderRequest : Type 0 where
  pub is_enabled : Option Bool
  pub credentials : Option (List (String × String))
  pub mode : Option String
  pub config : Option ProviderConfig
  pub fee_bearer : Option String
  pub fees : Option (List (String × String))

-- The WHERE clause on the tenant and the provider's name.
unfoldable pub is_of : ℕ → String → TenantPaymentProvider → Bool
is_of tenant_id provider p = p.tenant_id == tenant_id && p.provider == provider

unfoldable pub get_tenant_providers : ℕ → Db → List TenantPaymentProvider
unfolding where_rows
get_tenant_providers tenant_id db = where_rows (λ p. p.tenant_id == tenant_id) db.providers

-- Writing a row that was changed in place.
unfoldable pub save_provider :
    TenantPaymentProvider → List TenantPaymentProvider → List TenantPaymentProvider
unfolding update_rows
save_provider p ps = update_rows (λ r. r.id == p.id) (λ r. p) ps

module _ (c : Codec) where
  -- The row as it is configured, with the id and the time of creation of an old one.
  abbrev pub configured : ℕ → ℕ → ℕ → ℕ → ConfigureProviderRequest → TenantPaymentProvider
  configured id created now tenant_id r = record {
    id = id;
    tenant_id = tenant_id;
    provider = r.provider;
    is_enabled = true;
    mode = r.mode;
    credentials = encrypt c r.credentials;
    fee_bearer = r.fee_bearer;
    config = r.config;
    fees = r.fees;
    created_at = created;
    updated_at = now;
  }

  unfoldable pub configure_members :
      ℕ → ℕ → ℕ → ConfigureProviderRequest → Db → Result String TenantPaymentProvider × Db
  configure_members new_id now tenant_id r db =
      elim (scalar_one_or_none (where_rows (is_of tenant_id r.provider) db.providers)) [
        | err m ↦ (err m, db)
        | ok none ↦
            let p = configured new_id now now tenant_id r in
            (ok p, record db { providers = db.providers ++ (p ∷ []) })
        | ok (some old) ↦
            let p = record old {
              credentials = encrypt c r.credentials;
              mode = r.mode;
              config = r.config;
              fee_bearer = r.fee_bearer;
              fees = r.fees;
              is_enabled = true;
              updated_at = now;
            } in
            (ok p, record db { providers = save_provider p db.providers })
      ]

  -- `.value` of the provider's name raises before anything is written.
  unfoldable pub configure_provider :
      EnumFields
      → ℕ
      → ℕ
      → ℕ
      → ConfigureProviderRequest
      → Db
      → Result String TenantPaymentProvider × Db
  unfolding with_members configure_members
  configure_provider e new_id now tenant_id r =
      with_members e (configure_members new_id now tenant_id r)

  -- `credentials` is encrypted anew only if it is given.
  abbrev pub updated : ℕ → UpdateProviderRequest → TenantPaymentProvider → TenantPaymentProvider
  updated now u p = record p {
    is_enabled = or_value u.is_enabled p.is_enabled;
    credentials = elim u.credentials [ none ↦ p.credentials | some x ↦ encrypt c x ];
    mode = or_value u.mode p.mode;
    config = or_value u.config p.config;
    fee_bearer = or_value u.fee_bearer p.fee_bearer;
    fees = or_value u.fees p.fees;
    updated_at = now;
  }

  unfoldable pub update_members :
      ℕ → ℕ → UpdateProviderRequest → Db → Result String TenantPaymentProvider × Db
  update_members now provider_id u db =
      elim (scalar_one_or_none (where_rows (λ p. p.id == provider_id) db.providers)) [
        | err m ↦ (err m, db)
        | ok none ↦ (err "Provider not found", db)
        | ok (some p) ↦
            let q = updated now u p in
            (ok q, record db { providers = save_provider q db.providers })
      ]

  -- `.value` of a mode or a fee bearer that is given raises where the row is there, before the commit.
  unfoldable pub update_provider :
      EnumFields → ℕ → ℕ → UpdateProviderRequest → Db → Result String TenantPaymentProvider × Db
  unfolding update_members
  update_provider members now provider_id u db = update_members now provider_id u db
  update_provider values now provider_id u db =
      let (answer, db') = update_members now provider_id u db in
      elim answer [
        | err m ↦ (err m, db')
        | ok p ↦
            if is_some u.mode || is_some u.fee_bearer
            then (err "AttributeError", db)
            else (ok p, db')
      ]

-- A soft deletion.
unfoldable pub delete_provider : ℕ → ℕ → Db → Result String (Unit {0}) × Db
delete_provider now provider_id db =
    elim (scalar_one_or_none (where_rows (λ p. p.id == provider_id) db.providers)) [
      | err m ↦ (err m, db)
      | ok none ↦ (err "Provider not found", db)
      | ok (some p) ↦
          let q = record p { is_enabled = false; updated_at = now } in
          (ok tt, record db { providers = save_provider q db.providers })
    ]
