-- ===== src/Payments/Routes/Access.antt =====
-- Whose requests change the tables.
use vinc_api.Base.{
  ℕ, ◌≡◌, refl, Bool, String, string_eq, ◌==◌, ==_sound, true, false, ◌⊎◌, inl, inr, Option, some,
  List, [], ◌∷◌, Result, ok, err, Result-cases, Bool-cases, contains, lower, given, given_sound,
  Option-cases, arith,
}
use vinc_api.Payments.Model.{EnumFields, Db}
use vinc_api.Payments.Encryption.{Codec}
use vinc_api.Payments.Instances.{Instance}
use vinc_api.Payments.Service.Providers.{ConfigureProviderRequest, UpdateProviderRequest}
use vinc_api.Payments.Service.Storefront.{EnableStorefrontMethodRequest}
use vinc_api.Payments.Service.Transactions.{RefundPaymentRequest, RefundResult, RefundCall}
use vinc_api.Payments.Routes.{
  Reply, http_error, tenant_roles, storefront_roles, requiring, configure_payment_provider,
  update_payment_provider, delete_payment_provider, enable_storefront_payment_method,
  refund_payment_route,
}
use vinc_api.Permissions.{UuidLib}
use vinc_api.Users.Roles.{deps_alias, canonical_role, canonical_roles, require_roles}
use vinc_api.Users.Roles.Required.{require_roles-canonical_role}

-- A route refuses the caller and leaves the tables, or goes on to its body.
pub requiring-cases :
    {A : Type 0} (allowed : List String) (role : Option String) (body : Db → Reply A × Db) (db : Db)
    → ((m : String) × (require_roles allowed role ≡ err m)
        × (requiring allowed role body db ≡ (http_error 403 m, db)))
      ⊎ ((r : String) × (require_roles allowed role ≡ ok r)
          × (requiring allowed role body db ≡ body db))
unfolding requiring
requiring-cases allowed role body db = elim (Result-cases (require_roles allowed role)) [
  | inl (r, q) ↦ inr (r, q, rw (requiring, q) refl)
  | inr (m, q) ↦ inl (m, q, rw (requiring, q) refl)
]

-- The caller got 403, and the tables are as they were.
abbrev pub IsRefused : {A : Type 0} → Db → Reply A × Db → Type 0
IsRefused db o = (m : String) × (o ≡ (http_error 403 m, db))

-- The role of the caller, in small letters, is one of these names.
abbrev pub HasRoleOf : List String → Option String → Type 0
HasRoleOf names role = (r : String) × (role ≡ some r) × (contains (lower r) names ≡ true)

abbrev pub tenant_names : List String
tenant_names = "super_admin" ∷ "supplier_admin" ∷ "wholesaler_admin" ∷ "wholesale_admin" ∷ []

abbrev pub storefront_names : List String
storefront_names = "reseller" ∷ tenant_names

canonical_role-some_inv :
    (role : Option String) (x : String)
    → canonical_role role ≡ some x
    → (r : String) × (role ≡ some r) × (deps_alias (lower r) ≡ x)
unfolding canonical_role
canonical_role-some_inv role x h = elim (Option-cases (given role)) [
  | inl q ↦ absurd (ground arith)
  | inr (r, q) ↦ (r, given_sound role r q, ground arith)
]

deps_alias-cases :
    (key : String)
    → (key ≡ "wholesaler_admin") ⊎ (key ≡ "supplier_helpdesk") ⊎ (deps_alias key ≡ key)
unfolding deps_alias
deps_alias-cases key = elim (Bool-cases (key == "wholesaler_admin")) [
  | inl e ↦ inl (==_sound key "wholesaler_admin" e)
  | inr n ↦ elim (Bool-cases (key == "supplier_helpdesk")) [
    | inl e ↦ inr (inl (==_sound key "supplier_helpdesk" e))
    | inr m ↦ inr (inr (ground arith))
  ]
]

false_not_true : false ≡ true → ⊥
false_not_true h = cc

tenant_more : (key : String) → contains key tenant_roles ≡ true → contains key tenant_names ≡ true
unfolding contains
tenant_more key h = ground arith

tenant_alias :
    (key : String)
    → contains (deps_alias key) (canonical_roles tenant_roles) ≡ true
    → contains key tenant_names ≡ true
unfolding deps_alias canonical_role lower contains string_eq given
tenant_alias key h = elim (deps_alias-cases key) [
  | inl e ↦ rw e refl
  | inr (inl e) ↦ absurd (false_not_true (rw e at h))
  | inr (inr same) ↦ tenant_more key (rw same at h)
]

storefront_more :
    (key : String) → contains key storefront_roles ≡ true → contains key storefront_names ≡ true
unfolding contains
storefront_more key h = ground arith

storefront_alias :
    (key : String)
    → contains (deps_alias key) (canonical_roles storefront_roles) ≡ true
    → contains key storefront_names ≡ true
unfolding deps_alias canonical_role lower contains string_eq given
storefront_alias key h = elim (deps_alias-cases key) [
  | inl e ↦ rw e refl
  | inr (inl e) ↦ absurd (false_not_true (rw e at h))
  | inr (inr same) ↦ storefront_more key (rw same at h)
]

module _ (allowed names : List String)
    (alias : (key : String)
      → contains (deps_alias key) (canonical_roles allowed) ≡ true
      → contains key names ≡ true)
    (role : Option String) where
  require_roles-HasRoleOf : (x : String) → require_roles allowed role ≡ ok x → HasRoleOf names role
  require_roles-HasRoleOf x h =
      let (q, listed) = require_roles-canonical_role allowed role x h in
      let (r, same, e) = canonical_role-some_inv role x q in
      (r, same, alias (lower r) (rw e listed))

  -- A route that requires roles is answered to a caller with such a role only.
  requiring-HasRoleOf :
      {A : Type 0} (body : Db → Reply A × Db) (db : Db)
      → IsRefused db (requiring allowed role body db) ⊎ HasRoleOf names role
  requiring-HasRoleOf body db = elim (requiring-cases allowed role body db) [
    | inl (m, _, same) ↦ inl (m, same)
    | inr (x, q, _) ↦ inr (require_roles-HasRoleOf x q)
  ]

module _ (c : Codec) (outside : String → Bool) (e : EnumFields) (role : Option String)
    (db : Db) where
  -- A request to configure, update or delete a provider of a tenant, or to refund a payment, is
  -- answered 403 with the tables as they were, or the caller has, in small letters, the role
  -- super_admin, supplier_admin, wholesaler_admin or wholesale_admin. One to enable a payment method
  -- of a storefront is too, or the caller has one of these or the role reseller.
  pub routes-HasRoleOf :
      ((new_id now tenant_id : ℕ) (r : ConfigureProviderRequest)
        → IsRefused db (configure_payment_provider c outside e role new_id now tenant_id r db)
          ⊎ HasRoleOf tenant_names role)
      × ((now tenant_id provider_id : ℕ) (u : UpdateProviderRequest)
          → IsRefused db (update_payment_provider c outside e role now tenant_id provider_id u db)
            ⊎ HasRoleOf tenant_names role)
      × ((now tenant_id provider_id : ℕ)
          → IsRefused db (delete_payment_provider c outside e role now tenant_id provider_id db)
            ⊎ HasRoleOf tenant_names role)
      × ((now : ℕ) (call : Instance → RefundCall → Result String RefundResult) (transaction_id : ℕ)
            (r : RefundPaymentRequest)
          → IsRefused db (refund_payment_route c outside e role now call transaction_id r db)
            ⊎ HasRoleOf tenant_names role)
      × ((lib : UuidLib) (tenant : Option String) (new_id now storefront_id : ℕ)
            (r : EnableStorefrontMethodRequest)
          → IsRefused db (
              enable_storefront_payment_method c outside e role lib tenant new_id now storefront_id
                r db)
            ⊎ HasRoleOf storefront_names role)
  unfolding configure_payment_provider update_payment_provider delete_payment_provider
      refund_payment_route enable_storefront_payment_method
  routes-HasRoleOf = (
    λ new_id now tenant_id r. requiring-HasRoleOf tenant_roles tenant_names tenant_alias role _ db,
    λ now tenant_id provider_id u.
        requiring-HasRoleOf tenant_roles tenant_names tenant_alias role _ db,
    λ now tenant_id provider_id.
        requiring-HasRoleOf tenant_roles tenant_names tenant_alias role _ db,
    λ now call transaction_id r.
        requiring-HasRoleOf tenant_roles tenant_names tenant_alias role _ db,
    λ lib tenant new_id now storefront_id r.
        requiring-HasRoleOf storefront_roles storefront_names storefront_alias role _ db,
  )
