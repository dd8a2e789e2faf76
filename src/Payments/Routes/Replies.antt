-- ===== src/Payments/Routes/Replies.antt =====
-- How the routes for a tenant's providers and a storefront's methods end.
use vinc_api.Base.{
  ℕ, ◌≤◌, ◌≡◌, length-where_rows-both, refl, String, Bool, ◌⊎◌, inl, inr, Option, List, [], ◌∷◌, ok,
  err, length, where_rows, few_rows, ==_sound, nat_eq, arith, where_rows_passes,
}
use vinc_api.Payments.Model.{TenantPaymentProvider, StorefrontPaymentMethod, Db, members}
use vinc_api.Payments.Encryption.{Codec}
use vinc_api.Payments.Service.Providers.{is_of}
use vinc_api.Payments.Service.Providers.Keys.{IsKeyed, has_id}
use vinc_api.Payments.Service.Storefront.{EnableStorefrontMethodRequest, enabled_of, enable_members}
use vinc_api.Payments.Service.Storefront.Keys.{
  IsMethodKeyed, method_id, enable_method-IsMethodKeyed,
}
use vinc_api.Payments.Routes.{Reply, enable_for_tenant}
use vinc_api.Permissions.{UuidLib}

-- No row of the table has the id, or one row alone.
pub by_id :
    (ps : List TenantPaymentProvider)
    → IsKeyed ps
    → (i : ℕ)
    → (where_rows (has_id i) ps ≡ [])
      ⊎ ((p : TenantPaymentProvider) × (where_rows (has_id i) ps ≡ p ∷ []) × (p.id ≡ i))
by_id ps keyed i = elim (few_rows (where_rows (has_id i) ps) (keyed.one_id i)) [
  | inl q ↦ inl q
  | inr (p, q) ↦ inr (p, q, ==_sound p.id i (where_rows_passes (has_id i) ps p [] q))
]

module _ (c : Codec) (outside : String → Bool) (role : Option String) (db : Db)
    (keyed : IsKeyed db.providers) where
  module _ (new_id now storefront_id : ℕ) (r : EnableStorefrontMethodRequest)
      (methods_keyed : IsMethodKeyed db.methods)
      (fresh : length (where_rows (method_id new_id) db.methods) ≡ 0) where
    one_enabled : (i : ℕ) → length (where_rows (enabled_of i r.provider) db.providers) ≤ 1
    unfolding enabled_of
    one_enabled i = omega (
      arith,
      keyed.one_name i r.provider,
      length-where_rows-both (is_of i r.provider) (λ p. p.is_enabled) db.providers,
    )

    pub enable_call :
        (i : ℕ)
        → let o = enable_members new_id now storefront_id i r db in
          ((o ≡ (err "Provider not enabled for this tenant", db))
            × (where_rows (enabled_of i r.provider) db.providers ≡ []))
          ⊎ ((m : StorefrontPaymentMethod) × (o.0 ≡ ok m) × IsMethodKeyed o.1.methods)
    unfolding enable_members
    enable_call i =
        elim (few_rows (where_rows (enabled_of i r.provider) db.providers) (one_enabled i)) [
          | inl q ↦ inl (rw (enable_members, q) refl, q)
          | inr (p, q) ↦ inr (
              rw (enable_members, q)
                (enable_method-IsMethodKeyed new_id now storefront_id i r db.methods methods_keyed
                  fresh))
        ]

  module _ (lib : UuidLib) (tenant : Option String) (new_id now storefront_id : ℕ)
      (r : EnableStorefrontMethodRequest) (methods_keyed : IsMethodKeyed db.methods)
      (fresh : length (where_rows (method_id new_id) db.methods) ≡ 0) where
    abbrev enabled_reply : Reply StorefrontPaymentMethod × Db
    enabled_reply = enable_for_tenant outside members lib tenant new_id now storefront_id r db
