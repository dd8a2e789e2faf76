-- ===== src/Payments/Routes/Runs.antt =====
-- Sequences of requests, to any of the routes that write, by any callers and in any order.
use vinc_api.Base.{
  Bool, ℕ, ◌≡◌, String, inl, inr, Option, none, Result, length, where_rows, Result-cases,
}
use vinc_api.Payments.Model.{Db, EnumFields}
use vinc_api.Payments.Encryption.{Codec}
use vinc_api.Payments.Instances.{Instance}
use vinc_api.Payments.Service.Providers.{ConfigureProviderRequest, UpdateProviderRequest}
use vinc_api.Payments.Service.Providers.Keys.{has_id}
use vinc_api.Payments.Service.Storefront.{EnableStorefrontMethodRequest}
use vinc_api.Payments.Service.Storefront.Keys.{method_id}
use vinc_api.Payments.Service.Transactions.{
  CreatePaymentIntentRequest, IntentResult, RefundPaymentRequest, RefundResult, RefundCall,
}
use vinc_api.Payments.Webhooks.Handler.{raw}
use vinc_api.Payments.Webhooks.Stripe.{StripeLib, stripe_handler, stripe_handle}
use vinc_api.Payments.Webhooks.Paypal.{PaypalEvent, paypal_handler, paypal_handle}
use vinc_api.Payments.Webhooks.Nexi.{NexiLib, nexi_handler, nexi_handle}
use vinc_api.Payments.Webhooks.BancaSella.{SellaEvent, sella_handler, sella_handle}
use vinc_api.Payments.Webhooks.Scalapay.{ScalapayEvent, scalapay_handler, scalapay_handle}
use vinc_api.Payments.Routes.{
  tenant_roles, storefront_roles, create_payment_intent_route, configure_payment_provider,
  update_payment_provider, delete_payment_provider, enable_storefront_payment_method,
  refund_payment_route, stripe_webhook, paypal_webhook, nexi_webhook, banca_sella_webhook,
  scalapay_webhook,
}
use vinc_api.Payments.Routes.Valid.{
  IsValid, new_providers, delete_frame, requiring-IsValid, configure-IsValid, update-IsValid,
  delete-IsKeyed, enable_for_tenant-IsValid, intend-IsValid, refund-IsValid, handle-IsValid,
}
use vinc_api.Permissions.{UuidLib}

module _ (c : Codec) (outside : String → Bool) (e : EnumFields) where
  -- One request. A route that may add a row is given an id that no row of its table has.
  pub data Step (db : Db) : Db → Type 0 where
    configures :
        (role : Option String) (new_id now tenant_id : ℕ) (r : ConfigureProviderRequest)
        → length (where_rows (has_id new_id) db.providers) ≡ 0
        → Step db (configure_payment_provider c outside e role new_id now tenant_id r db).1
    updates :
        (role : Option String) (now tenant_id provider_id : ℕ) (u : UpdateProviderRequest)
        → Step db (update_payment_provider c outside e role now tenant_id provider_id u db).1
    deletes :
        (role : Option String) (now tenant_id provider_id : ℕ)
        → Step db (delete_payment_provider c outside e role now tenant_id provider_id db).1
    enables :
        (role : Option String) (lib : UuidLib) (tenant : Option String)
        (new_id now storefront_id : ℕ) (r : EnableStorefrontMethodRequest)
        → length (where_rows (method_id new_id) db.methods) ≡ 0
        → Step db
            (enable_storefront_payment_method c outside e role lib tenant new_id now storefront_id r
              db).1
    intends :
        (new_id now : ℕ) (call : Instance → CreatePaymentIntentRequest → Result String IntentResult)
        (r : CreatePaymentIntentRequest)
        → Step db (create_payment_intent_route c outside e new_id now call r db).1
    refunds :
        (role : Option String) (now : ℕ) (call : Instance → RefundCall → Result String RefundResult)
        (transaction_id : ℕ) (r : RefundPaymentRequest)
        → Step db (refund_payment_route c outside e role now call transaction_id r db).1
    stripe :
        (now : ℕ) (lib : StripeLib) (body : String) (signature : Option String)
        → Step db (stripe_webhook c now lib body signature db).1
    paypal :
        (now : ℕ) (json : String → Result String PaypalEvent) (body : String)
        → Step db (paypal_webhook c now json body db).1
    nexi :
        (now : ℕ) (lib : NexiLib) (body : String) (signature : Option String)
        → Step db (nexi_webhook c now lib body signature db).1
    banca_sella :
        (now : ℕ) (loads : String → Result String SellaEvent) (body : String)
        (signature : Option String)
        → Step db (banca_sella_webhook c now loads body signature db).1
    scalapay :
        (now : ℕ) (loads : String → Result String ScalapayEvent) (body : String)
        (signature : Option String)
        → Step db (scalapay_webhook c now loads body signature db).1

  pub data Run (before : Db) : Db → Type 0 where
    nothing : Run before before
    then_one : {db db' : Db} → Run before db → Step db db' → Run before db'

module _ (c : Codec) (outside : String → Bool) (e : EnumFields) where
  Step-IsValid : {db db' : Db} → Step c outside e db db' → IsValid db → IsValid db'
  unfolding configure_payment_provider update_payment_provider delete_payment_provider
      enable_storefront_payment_method create_payment_intent_route refund_payment_route
      stripe_webhook paypal_webhook nexi_webhook banca_sella_webhook scalapay_webhook stripe_handle
      paypal_handle nexi_handle sella_handle scalapay_handle
  Step-IsValid {db} (configures role new_id now tenant_id r fresh) valid =
      requiring-IsValid c outside e db valid tenant_roles role _
        (configure-IsValid c outside e db valid new_id now tenant_id r fresh)
  Step-IsValid {db} (updates role now tenant_id provider_id u) valid =
      requiring-IsValid c outside e db valid tenant_roles role _
        (update-IsValid c outside e db valid now provider_id u)
  Step-IsValid {db} (deletes role now tenant_id provider_id) valid =
      requiring-IsValid c outside e db valid tenant_roles role _ (
        let (m, l) = delete_frame c db now provider_id in
        new_providers db valid _ (delete-IsKeyed c outside e db valid now provider_id) m l)
  Step-IsValid {db} (enables role lib tenant new_id now storefront_id r fresh) valid =
      requiring-IsValid c outside e db valid storefront_roles role _
        (enable_for_tenant-IsValid c outside e db valid lib tenant new_id now storefront_id r fresh)
  Step-IsValid {db} (intends new_id now call r) valid =
      intend-IsValid c outside e db valid new_id now call r
  Step-IsValid {db} (refunds role now call transaction_id r) valid =
      requiring-IsValid c outside e db valid tenant_roles role _
        (refund-IsValid c outside e db valid now call transaction_id r)
  Step-IsValid {db} (stripe now lib body signature) valid =
      handle-IsValid c outside e db valid (stripe_handler c lib) now body signature
  Step-IsValid {db} (paypal now json body) valid = elim (Result-cases (json body)) [
    | inl (p, q) ↦
        rw (paypal_webhook, q) (handle-IsValid c outside e db valid paypal_handler now p none)
    | inr (m, q) ↦ rw (paypal_webhook, q) valid
  ]
  Step-IsValid {db} (nexi now lib body signature) valid =
      handle-IsValid c outside e db valid (nexi_handler c lib) now (raw body) signature
  Step-IsValid {db} (banca_sella now loads body signature) valid =
      handle-IsValid c outside e db valid (sella_handler c loads) now (raw body) signature
  Step-IsValid {db} (scalapay now loads body signature) valid =
      handle-IsValid c outside e db valid (scalapay_handler c loads) now (raw body) signature

  -- Whatever requests are sent to the routes that write, by callers with any role and in any order: if
  -- the keys of the tables were unique and no event had two rows in the log that say success, this
  -- holds at the end. The ids that are given to new providers and methods are fresh.
  pub Run-IsValid :
      {before after : Db} → Run c outside e before after → IsValid before → IsValid after
  Run-IsValid nothing valid = valid
  Run-IsValid (then_one run step) valid = Step-IsValid step (Run-IsValid run valid)
