-- ===== src/Payments/Routes/Outcomes.antt =====
-- What the routes for a tenant's providers and a storefront's methods may answer.
use vinc_api.Base.{
  ℕ, ◌≡◌, String, string_eq, ◌⊎◌, Option, none, some, List, [], ◌∷◌, err, ok, where_rows, given,
  false, nat_eq,
}
use vinc_api.Payments.Model.{TenantPaymentProvider, StorefrontPaymentMethod, Db, EnumFields, values}
use vinc_api.Payments.Encryption.{Codec}
use vinc_api.Payments.Service.Providers.{
  ConfigureProviderRequest, UpdateProviderRequest, updated, is_of,
}
use vinc_api.Payments.Service.Providers.Keys.{has_id}
use vinc_api.Payments.Service.Storefront.{enabled_of, EnableStorefrontMethodRequest}
use vinc_api.Payments.Service.Storefront.Enabling.{Enabled}
use vinc_api.Payments.Service.Storefront.Keys.{IsMethodKeyed}
use vinc_api.Payments.Routes.{Reply, answered, http_error, raised}
use vinc_api.Permissions.{UuidLib}
use vinc_api.Users.Roles.{require_roles}

module _ {A : Type 0} (before : Db) where
  -- The reply is an error with the status, and the tables are as they were.
  abbrev pub FailsWith : ℕ → Reply A × Db → Type 0
  FailsWith status o = (m : String) × (o.0 ≡ http_error status m) × (o.1 ≡ before)

  -- The dependency on the roles refused the caller.
  abbrev pub IsForbidden : List String → Option String → Reply A × Db → Type 0
  IsForbidden allowed role o =
      ((m : String) × (require_roles allowed role ≡ err m)) × FailsWith 403 o

-- The reply is an answer with the status.
abbrev pub IsAnswered : {A : Type 0} → ℕ → (A → Type 0) → Reply A × Db → Type 0
IsAnswered {A} status P o = (a : A) × (o.0 ≡ answered status a) × P a

-- The fields of the request hold texts: an AttributeError that is not caught, and nothing is written.
abbrev pub Crashed : {A : Type 0} → EnumFields → Db → Reply A × Db → Type 0
Crashed e before o = (e ≡ values) × (o ≡ (raised "AttributeError", before))

-- A configuration is answered by the one row of the tenant and the name.
abbrev pub Configures : ℕ → ConfigureProviderRequest → Reply TenantPaymentProvider × Db → Type 0
Configures tenant_id r o =
    IsAnswered 201 (λ row. where_rows (is_of tenant_id r.provider) o.1.providers ≡ row ∷ []) o

module _ (db : Db) where
  -- The row of the table that has the id.
  abbrev pub Finds : ℕ → TenantPaymentProvider → Type 0
  Finds i p = where_rows (has_id i) db.providers ≡ p ∷ []

  abbrev pub FindsNone : ℕ → Type 0
  FindsNone i = where_rows (has_id i) db.providers ≡ []

  -- No row has the id, or the one that has it is answered as it was updated.
  abbrev pub Updates :
      Codec → ℕ → ℕ → UpdateProviderRequest → Reply TenantPaymentProvider × Db → Type 0
  Updates c now provider_id u o =
      FailsWith db 404 o × FindsNone provider_id
      ⊎ IsAnswered 200
          (λ q.
            (p : TenantPaymentProvider) × Finds provider_id p
            × (q ≡ updated c now u p)
            × (where_rows (is_of p.tenant_id p.provider) o.1.providers ≡ q ∷ []))
          o

  -- No row has the id, or the one that has it is disabled.
  abbrev pub Deletes : ℕ → ℕ → Reply (Unit {0}) × Db → Type 0
  Deletes now provider_id o =
      FailsWith db 404 o × FindsNone provider_id
      ⊎ IsAnswered 200
          (λ u.
            (p : TenantPaymentProvider) × Finds provider_id p
            × (where_rows (is_of p.tenant_id p.provider) o.1.providers
                ≡ record p { is_enabled = false; updated_at = now } ∷ []))
          o

  -- Why a method is not enabled: the header names no tenant, or one without an enabled provider.
  abbrev pub NoProvider : UuidLib → Option String → String → Type 0
  NoProvider lib tenant name =
      (given tenant ≡ none)
      ⊎ ((t : String) × (given tenant ≡ some t)
          × ((lib.parse t ≡ none)
              ⊎ ((i : ℕ) × (lib.parse t ≡ some i)
                  × (where_rows (enabled_of i name) db.providers ≡ []))))

  -- The header names no tenant with an enabled provider of the name, or the method is enabled, and
  -- saved with the request's data, and the keys of the methods are unique.
  abbrev pub Enables :
      UuidLib
      → Option String
      → ℕ
      → EnableStorefrontMethodRequest
      → Reply StorefrontPaymentMethod × Db
      → Type 0
  Enables lib tenant storefront_id r o =
      FailsWith db 400 o × NoProvider lib tenant r.provider
      ⊎ IsAnswered 201
          (λ m.
            ((t : String) × (i : ℕ) × (given tenant ≡ some t)
              × (lib.parse t ≡ some i)
              × Enabled storefront_id i r db (ok m, o.1))
            × IsMethodKeyed o.1.methods)
          o
