-- ===== src/Payments/Routes/Valid.antt =====
-- What each of the routes that write keeps true of the tables.
use vinc_api.Base.{
  Bool, ◌⊎◌, given, ℕ, ◌≡◌, refl, String, inl, inr, Option, none, List, Result, length, where_rows,
  Option-cases, arith,
}
use vinc_api.Payments.Model.{Db, EnumFields, members, values}
use vinc_api.Payments.Encryption.{Codec}
use vinc_api.Payments.Instances.{Instance}
use vinc_api.Payments.Service.Providers.{
  ConfigureProviderRequest, UpdateProviderRequest, configure_members, configure_provider,
  update_members, update_provider, delete_provider,
}
use vinc_api.Payments.Service.Providers.Keys.{IsKeyed, has_id}
use vinc_api.Payments.Service.Providers.Operations.{
  configure_members-Configured, update_provider-cases, update_provider_lem,
  delete_provider_disables,
}
use vinc_api.Payments.Service.Storefront.{
  EnableStorefrontMethodRequest, enable_members, enable_storefront_method,
}
use vinc_api.Payments.Service.Storefront.Keys.{IsMethodKeyed, method_id}
use vinc_api.Payments.Service.Transactions.{
  CreatePaymentIntentRequest, IntentResult, RefundPaymentRequest, RefundResult, RefundCall,
  create_payment_intent, refund_payment,
}
use vinc_api.Payments.Service.Transactions.Intents.{create_payment_intent_records}
use vinc_api.Payments.Service.Transactions.Refunds.{refund_payment_lem}
use vinc_api.Payments.Webhooks.Dedup.{IsDeduplicated, handle-IsDeduplicated}
use vinc_api.Payments.Webhooks.Handler.{Handler, handle}
use vinc_api.Payments.Routes.{Reply, requiring, enable_for_tenant}
use vinc_api.Payments.Routes.Replies.{by_id, enable_call}
use vinc_api.Payments.Routes.Access.{requiring-cases}
use vinc_api.Permissions.{UuidLib}

-- The keys of the tables: at most one provider has an id, and at most one a tenant and a name; the
-- same of the methods with storefront and name; and no event has two rows in the log that say success.
pub record IsValid (db : Db) : Type 0 where
  pub providers_keyed : IsKeyed db.providers
  pub methods_keyed : IsMethodKeyed db.methods
  pub deduplicated : IsDeduplicated db

module _ (db : Db) (valid : IsValid db) where
  -- The three parts of validity, where some of the tables are as they were.
  pub same_tables :
      (db' : Db)
      → db'.providers ≡ db.providers
      → db'.methods ≡ db.methods
      → IsDeduplicated db'
      → IsValid db'
  same_tables db' p m d = record {
    providers_keyed = rw p valid.providers_keyed;
    methods_keyed = rw m valid.methods_keyed;
    deduplicated = d;
  }

  pub new_providers :
      (db' : Db)
      → IsKeyed db'.providers
      → db'.methods ≡ db.methods
      → db'.webhook_logs ≡ db.webhook_logs
      → IsValid db'
  new_providers db' k m l = record {
    providers_keyed = k;
    methods_keyed = rw m valid.methods_keyed;
    deduplicated = rw l valid.deduplicated;
  }

module _ (c : Codec) (db : Db) where
  pub configure_frame :
      (new_id now tenant_id : ℕ) (r : ConfigureProviderRequest)
      → let o = configure_members c new_id now tenant_id r db in
        (o.1.methods ≡ db.methods) × (o.1.webhook_logs ≡ db.webhook_logs)
  unfolding configure_members
  configure_frame new_id now tenant_id r = ground arith

  pub update_frame :
      (now provider_id : ℕ) (u : UpdateProviderRequest)
      → let o = update_members c now provider_id u db in
        (o.1.methods ≡ db.methods) × (o.1.webhook_logs ≡ db.webhook_logs)
  unfolding update_members
  update_frame now provider_id u = ground arith

  pub configure_table :
      (e : EnumFields) (new_id now tenant_id : ℕ) (r : ConfigureProviderRequest)
      → let o = configure_provider c e new_id now tenant_id r db in
        (o.1 ≡ db) ⊎ (o.1 ≡ (configure_members c new_id now tenant_id r db).1)
  unfolding configure_provider
  configure_table members new_id now tenant_id r = inr refl
  configure_table values new_id now tenant_id r = inl refl

  pub delete_frame :
      (now provider_id : ℕ)
      → let o = delete_provider now provider_id db in
        (o.1.methods ≡ db.methods) × (o.1.webhook_logs ≡ db.webhook_logs)
  unfolding delete_provider
  delete_frame now provider_id = ground arith

  enable_frame :
      (new_id now storefront_id tenant_id : ℕ) (r : EnableStorefrontMethodRequest)
      → let o = enable_members new_id now storefront_id tenant_id r db in
        (o.1.providers ≡ db.providers) × (o.1.webhook_logs ≡ db.webhook_logs)
  unfolding enable_members
  enable_frame new_id now storefront_id tenant_id r = ground arith

module _ (c : Codec) (outside : String → Bool) (e : EnumFields) (db : Db) (valid : IsValid db) where
  -- A route that requires roles leaves valid tables, if its body does.
  pub requiring-IsValid :
      {A : Type 0} (allowed : List String) (role : Option String) (body : Db → Reply A × Db)
      → IsValid (body db).1
      → IsValid (requiring allowed role body db).1
  requiring-IsValid allowed role body h = elim (requiring-cases allowed role body db) [
    | inl (_, _, same) ↦ rw same valid
    | inr (_, _, same) ↦ rw same h
  ]

  pub update-IsKeyed :
      (now provider_id : ℕ) (u : UpdateProviderRequest)
      → IsKeyed (update_members c now provider_id u db).1.providers
  update-IsKeyed now provider_id u = elim (by_id db.providers valid.providers_keyed provider_id) [
    | inl q ↦ unfold update_members in rw (update_members, q) valid.providers_keyed
    | inr (p, q, same) ↦
        rw (← same) (update_provider_lem c now u p db valid.providers_keyed (rw (← same) at q)).1
  ]

  pub delete-IsKeyed :
      (now provider_id : ℕ) → IsKeyed (delete_provider now provider_id db).1.providers
  delete-IsKeyed now provider_id = elim (by_id db.providers valid.providers_keyed provider_id) [
    | inl q ↦ unfold delete_provider in rw (delete_provider, q) valid.providers_keyed
    | inr (p, q, same) ↦
        rw (← same) (delete_provider_disables now p db valid.providers_keyed (rw (← same) at q)).1
  ]

  enable-IsValid :
      (new_id now storefront_id : ℕ) (r : EnableStorefrontMethodRequest)
      → length (where_rows (method_id new_id) db.methods) ≡ 0
      → (tenant_id : ℕ) → IsValid (enable_members new_id now storefront_id tenant_id r db).1
  enable-IsValid new_id now storefront_id r fresh tenant_id =
      elim (enable_call c outside none db valid.providers_keyed new_id now storefront_id r
        valid.methods_keyed fresh tenant_id) [
          | inl (same, _) ↦ rw same valid
          | inr (_, _, k) ↦
              let (p, l) = enable_frame c db new_id now storefront_id tenant_id r in
              record {
                providers_keyed = rw p valid.providers_keyed;
                methods_keyed = k;
                deduplicated = rw l valid.deduplicated;
              }
        ]

  outer-IsValid :
      (new_id now storefront_id : ℕ) (r : EnableStorefrontMethodRequest)
      → length (where_rows (method_id new_id) db.methods) ≡ 0
      → (tenant_id : ℕ) (f : EnumFields)
      → IsValid (enable_storefront_method new_id now storefront_id tenant_id r f db).1
  unfolding enable_storefront_method
  outer-IsValid new_id now storefront_id r fresh tenant_id members =
      enable-IsValid new_id now storefront_id r fresh tenant_id
  outer-IsValid new_id now storefront_id r fresh tenant_id values = valid

  pub configure-IsValid :
      (new_id now tenant_id : ℕ) (r : ConfigureProviderRequest)
      → length (where_rows (has_id new_id) db.providers) ≡ 0
      → IsValid (configure_provider c e new_id now tenant_id r db).1
  configure-IsValid new_id now tenant_id r fresh =
      let done =
        configure_members-Configured c new_id now tenant_id r db valid.providers_keyed fresh in
      let (m, l) = configure_frame c db new_id now tenant_id r in
      elim (configure_table c db e new_id now tenant_id r) [
        | inl same ↦ rw same valid
        | inr same ↦ rw same (new_providers db valid _ done.keyed m l)
      ]

  pub update-IsValid :
      (now provider_id : ℕ) (u : UpdateProviderRequest)
      → IsValid (update_provider c e now provider_id u db).1
  update-IsValid now provider_id u =
      let (m, l) = update_frame c db now provider_id u in
      elim (update_provider-cases c now provider_id u db e) [
        | inl (_, same) ↦ rw same valid
        | inr same ↦ rw same (new_providers db valid _ (update-IsKeyed now provider_id u) m l)
      ]

  pub enable_for_tenant-IsValid :
      (lib : UuidLib) (tenant : Option String) (new_id now storefront_id : ℕ)
      (r : EnableStorefrontMethodRequest)
      → length (where_rows (method_id new_id) db.methods) ≡ 0
      → IsValid (enable_for_tenant outside e lib tenant new_id now storefront_id r db).1
  unfolding enable_for_tenant
  enable_for_tenant-IsValid lib tenant new_id now storefront_id r fresh =
      elim (Option-cases (given tenant)) [
        | inl g ↦ rw (enable_for_tenant, g) valid
        | inr (t, g) ↦ elim (Option-cases (lib.parse t)) [
          | inl q ↦ rw (enable_for_tenant, g, q) valid
          | inr (i, q) ↦
              rw (enable_for_tenant, g, q) (outer-IsValid new_id now storefront_id r fresh i e)
        ]
      ]

  pub intend-IsValid :
      (new_id now : ℕ) (call : Instance → CreatePaymentIntentRequest → Result String IntentResult)
      (r : CreatePaymentIntentRequest)
      → IsValid (create_payment_intent c new_id now call r e db).1
  intend-IsValid new_id now call r = elim (create_payment_intent_records c new_id now call r db e) [
    | inl (_, same) ↦ rw same valid
    | inr (inl (_, _, same)) ↦ rw same valid
    | inr (inr done) ↦ rw done.adds (same_tables db valid _ refl refl valid.deduplicated)
  ]

  pub refund-IsValid :
      (now : ℕ) (call : Instance → RefundCall → Result String RefundResult) (transaction_id : ℕ)
      (r : RefundPaymentRequest)
      → IsValid (refund_payment c now call transaction_id r db).after
  refund-IsValid now call transaction_id r =
      elim (refund_payment_lem c now call transaction_id r db) [
        | inl stopped ↦ rw stopped.unchanged valid
        | inr done ↦ rw done.saves (same_tables db valid _ refl refl valid.deduplicated)
      ]

  -- A delivery writes transactions and the log.
  pub handle-IsValid :
      {P E : Type 0} (h : Handler P E) (now : ℕ) (p : P) (sig : Option String)
      → IsValid (handle c h now p sig db).1
  handle-IsValid h now p sig =
      same_tables db valid (handle c h now p sig db).1 (unfold handle in refl)
        (unfold handle in refl) (handle-IsDeduplicated c h now p sig db valid.deduplicated)
