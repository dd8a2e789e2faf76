-- ===== src/Payments/Routes.antt =====
-- modules/payments/router.py: the routes. A route is given the role of the caller and the rows that
-- are stored, and gives its reply with the rows after it. An exception that a route does not turn
-- into an answer is `raised`.
pub mod Outcomes
pub mod Replies
pub mod Access
pub mod Valid
pub mod Runs
mod Tests
use vinc_api.Base.{
  ℕ, String, string_eq, Bool, true, false, Option, none, some, List, [], ◌∷◌, Result, ok, err, map,
  given, contains, if◌then◌else◌, ◌>>=◌,
}
use vinc_api.Payments.Model.{
  EnumFields, TenantPaymentProvider, StorefrontPaymentMethod, PaymentTransaction, Db,
}
use vinc_api.Payments.Encryption.{Codec}
use vinc_api.Payments.Instances.{Instance}
use vinc_api.Payments.Service.Providers.{
  ConfigureProviderRequest, UpdateProviderRequest, get_tenant_providers, configure_provider,
  update_provider, delete_provider,
}
use vinc_api.Payments.Service.Storefront.{
  EnableStorefrontMethodRequest, PaymentMethodInfo, get_storefront_config, enable_storefront_method,
  get_available_payment_methods,
}
use vinc_api.Payments.Service.Transactions.{
  CreatePaymentIntentRequest, IntentResult, PaymentIntentResponse, RefundPaymentRequest,
  RefundResult, RefundResponse, RefundCall, create_payment_intent, get_payment_status,
  refund_payment,
}
use vinc_api.Payments.Service.Analytics.{PaymentAnalytics, get_analytics}
use vinc_api.Payments.Service.Logs.{LogFilters, get_transaction_logs}
use vinc_api.Payments.Webhooks.Handler.{Response, Payload, raw}
use vinc_api.Payments.Webhooks.Stripe.{StripeLib, stripe_handle}
use vinc_api.Payments.Webhooks.Paypal.{PaypalEvent, paypal_handle}
use vinc_api.Payments.Webhooks.Nexi.{NexiLib, NexiEvent, nexi_handle}
use vinc_api.Payments.Webhooks.BancaSella.{SellaEvent, sella_handle}
use vinc_api.Payments.Webhooks.Scalapay.{ScalapayEvent, scalapay_handle}
use vinc_api.Users.Roles.{require_roles}
use vinc_api.Permissions.{UuidLib}

pub data Reply {ℓ} (A : Type ℓ) : Type ℓ where
  answered : ℕ → A → Reply A
  http_error : ℕ → String → Reply A
  raised : String → Reply A

-- The roles of the routes for a tenant, and those of the routes for a storefront.
abbrev pub tenant_roles : List String
tenant_roles = "super_admin" ∷ "supplier_admin" ∷ "wholesale_admin" ∷ []

abbrev pub storefront_roles : List String
storefront_roles = "super_admin" ∷ "supplier_admin" ∷ "wholesale_admin" ∷ "reseller" ∷ []

-- The service's own exceptions that are a ValueError, and those that are another.
abbrev pub value_errors : List String
value_errors =
    "Provider not found" ∷ "Transaction not found" ∷ "Provider not enabled for this tenant"
    ∷ "Only succeeded payments can be refunded" ∷ "Provider not supported"
    ∷ "Failed to decrypt credentials" ∷ []

abbrev pub other_errors : List String
other_errors = "MultipleResultsFound" ∷ "TypeError" ∷ "AttributeError" ∷ []

-- A dependency on roles, before the body of the route.
unfoldable pub requiring :
    {A : Type 0} → List String → Option String → (Db → Reply A × Db) → Db → Reply A × Db
unfolding require_roles
requiring allowed role body db = elim (require_roles allowed role) [
  | err m ↦ (http_error 403 m, db)
  | ok r ↦ body db
]

-- A call outside every `try` block.
unfoldable pub uncaught : {A : Type 0} → ℕ → Result String A → Reply A
uncaught code (ok a) = answered code a
uncaught code (err m) = raised m

-- Whether an exception is a ValueError, where `outside` says it of those of the provider's API and
-- of the validation of an answer.
unfoldable pub is_value_error : (String → Bool) → String → Bool
unfolding contains
is_value_error outside m =
    if contains m value_errors then true else if contains m other_errors then false else outside m

-- `except ValueError as e: raise HTTPException(code, …)`
unfoldable pub or_http_error : {A : Type 0} → (String → Bool) → ℕ → ℕ → Result String A → Reply A
unfolding is_value_error
or_http_error outside code failure (ok a) = answered code a
or_http_error outside code failure (err m) =
    if is_value_error outside m then http_error failure m else raised m

-- The body of the route that enables a method. `tenant` is the header; a text that is no UUID is a
-- ValueError.
unfoldable pub enable_for_tenant :
    (String → Bool)
    → EnumFields
    → UuidLib
    → Option String
    → ℕ
    → ℕ
    → ℕ
    → EnableStorefrontMethodRequest
    → Db
    → Reply StorefrontPaymentMethod × Db
unfolding given or_http_error enable_storefront_method
enable_for_tenant outside e lib tenant new_id now storefront_id r db = elim (given tenant) [
  | none ↦ (http_error 400 "Tenant ID required", db)
  | some t ↦ elim (lib.parse t) [
    | none ↦ (http_error 400 "badly formed hexadecimal UUID string", db)
    | some tenant_id ↦
        let (answer, db') = enable_storefront_method new_id now storefront_id tenant_id r e db in
        (or_http_error outside 201 400 answer, db')
  ]
]

-- `e` is what the enumeration fields of a request hold.
module _ (c : Codec) (outside : String → Bool) (e : EnumFields) where
  unfoldable pub get_available_payment_methods_route :
      ℕ → ℕ → Db → Reply (List PaymentMethodInfo) × Db
  unfolding uncaught get_available_payment_methods
  get_available_payment_methods_route storefront_id amount db =
      (uncaught 200 (get_available_payment_methods c storefront_id amount db), db)

  unfoldable pub create_payment_intent_route :
      ℕ
      → ℕ
      → (Instance → CreatePaymentIntentRequest → Result String IntentResult)
      → CreatePaymentIntentRequest
      → Db
      → Reply PaymentIntentResponse × Db
  unfolding uncaught create_payment_intent
  create_payment_intent_route new_id now call r db =
      let (answer, db') = create_payment_intent c new_id now call r e db in
      (uncaught 201 answer, db')

  -- `validate` makes the answer of the row, or raises.
  unfoldable pub get_payment_status_route :
      {A : Type 0} → (PaymentTransaction → Result String A) → ℕ → Db → Reply A × Db
  unfolding or_http_error get_payment_status
  get_payment_status_route validate transaction_id db =
      (or_http_error outside 200 404 (get_payment_status transaction_id db >>= validate), db)

  module _ (role : Option String) where
    unfoldable pub get_tenant_payment_providers : ℕ → Db → Reply (List TenantPaymentProvider) × Db
    unfolding get_tenant_providers
    get_tenant_payment_providers tenant_id =
        requiring tenant_roles role λ db. (answered 200 (get_tenant_providers tenant_id db), db)

    unfoldable pub configure_payment_provider :
        ℕ → ℕ → ℕ → ConfigureProviderRequest → Db → Reply TenantPaymentProvider × Db
    unfolding uncaught configure_provider
    configure_payment_provider new_id now tenant_id r = requiring tenant_roles role λ db.
        let (answer, db') = configure_provider c e new_id now tenant_id r db in
        (uncaught 201 answer, db')

    unfoldable pub update_payment_provider :
        ℕ → ℕ → ℕ → UpdateProviderRequest → Db → Reply TenantPaymentProvider × Db
    unfolding or_http_error update_provider
    update_payment_provider now tenant_id provider_id u = requiring tenant_roles role λ db.
        let (answer, db') = update_provider c e now provider_id u db in
        (or_http_error outside 200 404 answer, db')

    unfoldable pub delete_payment_provider : ℕ → ℕ → ℕ → Db → Reply (Unit {0}) × Db
    unfolding or_http_error delete_provider
    delete_payment_provider now tenant_id provider_id = requiring tenant_roles role λ db.
        let (answer, db') = delete_provider now provider_id db in
        (or_http_error outside 200 404 answer, db')

    unfoldable pub get_storefront_payment_config :
        ℕ → Db → Reply (List StorefrontPaymentMethod) × Db
    unfolding get_storefront_config
    get_storefront_payment_config storefront_id =
        requiring storefront_roles role
          λ db. (answered 200 (get_storefront_config storefront_id db), db)

    unfoldable pub enable_storefront_payment_method :
        UuidLib
        → Option String
        → ℕ
        → ℕ
        → ℕ
        → EnableStorefrontMethodRequest
        → Db
        → Reply StorefrontPaymentMethod × Db
    unfolding enable_for_tenant
    enable_storefront_payment_method lib tenant new_id now storefront_id r =
        requiring storefront_roles role
          (enable_for_tenant outside e lib tenant new_id now storefront_id r)

    unfoldable pub get_transaction_logs_route :
        {A : Type 0}
        → (List PaymentTransaction → Result String (List A))
        → (List PaymentTransaction → List PaymentTransaction)
        → LogFilters
        → ℕ
        → ℕ
        → Db
        → Reply (List A) × Db
    unfolding uncaught get_transaction_logs
    get_transaction_logs_route validate order f limit offset =
        requiring tenant_roles role
          λ db. (uncaught 200 (validate (get_transaction_logs order f limit offset db)), db)

    unfoldable pub refund_payment_route :
        ℕ
        → (Instance → RefundCall → Result String RefundResult)
        → ℕ
        → RefundPaymentRequest
        → Db
        → Reply RefundResponse × Db
    unfolding or_http_error refund_payment
    refund_payment_route now call transaction_id r = requiring tenant_roles role λ db.
        let o = refund_payment c now call transaction_id r db in
        (or_http_error outside 200 400 o.answer, o.after)

    unfoldable pub get_payment_analytics : ℕ → ℕ → ℕ → Db → Reply PaymentAnalytics × Db
    unfolding get_analytics
    get_payment_analytics tenant_id start_date end_date =
        requiring tenant_roles role
          λ db. (answered 200 (get_analytics tenant_id start_date end_date db), db)

-- What a handler returns is the answer of its route.
abbrev answering : Response × Db → Reply Response × Db
answering (response, db) = (answered 200 response, db)

module _ (c : Codec) (now : ℕ) where
  unfoldable pub stripe_webhook : StripeLib → String → Option String → Db → Reply Response × Db
  unfolding stripe_handle
  stripe_webhook lib body signature db = answering (stripe_handle c lib now body signature db)

  -- The body is parsed before the handler sees it.
  unfoldable pub paypal_webhook :
      (String → Result String PaypalEvent) → String → Db → Reply Response × Db
  unfolding paypal_handle
  paypal_webhook json body db = elim (json body) [
    | err m ↦ (raised m, db)
    | ok e ↦ answering (paypal_handle c now e db)
  ]

  unfoldable pub nexi_webhook : NexiLib → String → Option String → Db → Reply Response × Db
  unfolding nexi_handle
  nexi_webhook lib body signature db = answering (nexi_handle c lib now (raw body) signature db)

  unfoldable pub banca_sella_webhook :
      (String → Result String SellaEvent) → String → Option String → Db → Reply Response × Db
  unfolding sella_handle
  banca_sella_webhook loads body signature db =
      answering (sella_handle c loads now (raw body) signature db)

  unfoldable pub scalapay_webhook :
      (String → Result String ScalapayEvent) → String → Option String → Db → Reply Response × Db
  unfolding scalapay_handle
  scalapay_webhook loads body signature db =
      answering (scalapay_handle c loads now (raw body) signature db)
