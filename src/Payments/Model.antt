-- ===== src/Payments/Model.antt =====
-- modules/payments/schemas.py and modules/payments/models.py: the enumerations, and the rows of
-- the tables with the columns that the code reads or writes. A UUID column and a point in time are
-- numbers, an amount is in cents.
use vinc_api.Base.{ℕ, String, Bool, Option, List, Eq, Result, err, ◌≡◌}

pub data PaymentStatus : Type 0 where
  pending processing requires_action succeeded failed cancelled refunded : PaymentStatus
  partially_refunded : PaymentStatus

unfoldable pub PaymentStatus-discrete : Discrete PaymentStatus
PaymentStatus-discrete = hlevel

instance unfoldable pub status_eq : Eq PaymentStatus
unfolding PaymentStatus-discrete
status_eq = record { dec = PaymentStatus-discrete }

-- A column `credentials`: a dictionary that `encrypt` made, or any other.
pub data StoredCredentials : Type 0 where
  sealed : String → StoredCredentials
  plain : List (String × String) → StoredCredentials

-- The keys of a provider's `config` that are read, amounts in cents.
pub record ProviderConfig : Type 0 where
  pub display_name : Option String
  pub min_amount : Option ℕ
  pub max_amount : Option ℕ

pub record TenantPaymentProvider : Type 0 where
  pub id : ℕ
  pub tenant_id : ℕ
  pub provider : String
  pub is_enabled : Bool
  pub mode : String
  pub credentials : StoredCredentials
  pub fee_bearer : String
  pub config : ProviderConfig
  pub fees : List (String × String)
  pub created_at : ℕ
  pub updated_at : ℕ

-- The two bounds that `conditions` may hold, in cents.
pub record Conditions : Type 0 where
  pub min_cart : Option ℕ
  pub max_cart : Option ℕ

pub record StorefrontPaymentMethod : Type 0 where
  pub id : ℕ
  pub storefront_id : ℕ
  pub tenant_id : ℕ
  pub provider : String
  pub is_enabled : Bool
  pub display_name : Option String
  pub display_description : Option String
  pub display_order : ℕ
  pub conditions : Conditions
  pub created_at : ℕ
  pub updated_at : ℕ

-- One entry of the column `webhook_events`; `reference` is its `event_id`, `payment_id` or `token`.
pub record WebhookEvent : Type 0 where
  pub event_type : Option String
  pub received_at : ℕ
  pub reference : Option String

pub record PaymentTransaction : Type 0 where
  pub id : ℕ
  pub tenant_id : ℕ
  pub storefront_id : Option ℕ
  pub order_id : ℕ
  pub provider : String
  pub provider_transaction_id : Option String
  pub provider_payment_intent_id : Option String
  pub amount : ℕ
  pub currency : String
  pub status : PaymentStatus
  pub customer_email : Option String
  pub customer_id : Option ℕ
  pub error_message : Option String
  pub webhook_events : List WebhookEvent
  pub refunded_amount : ℕ
  pub refund_reason : Option String
  pub created_at : ℕ
  pub updated_at : ℕ
  pub completed_at : Option ℕ

pub data LogStatus : Type 0 where
  success failed pending duplicate : LogStatus

unfoldable pub LogStatus-discrete : Discrete LogStatus
LogStatus-discrete = hlevel

instance unfoldable pub log_status_eq : Eq LogStatus
unfolding LogStatus-discrete
log_status_eq = record { dec = LogStatus-discrete }

pub record PaymentWebhookLog : Type 0 where
  pub provider : String
  pub event_type : Option String
  pub event_id : Option String
  pub signature : Option String
  pub status : LogStatus
  pub error_message : Option String
  pub transaction_id : Option ℕ
  pub processed_at : ℕ

-- The tables that the handlers and the service share.
pub record Db : Type 0 where
  pub providers : List TenantPaymentProvider
  pub methods : List StorefrontPaymentMethod
  pub transactions : List PaymentTransaction
  pub webhook_logs : List PaymentWebhookLog

-- What the fields of a request hold that are typed by an enumeration: its members, or, as pydantic
-- makes them under use_enum_values, plain texts, on which `.value` raises.
pub data EnumFields : Type 0 where
  members values : EnumFields

-- A body that begins with `.value` of such a field.
unfoldable pub with_members :
    {A : Type 0} → EnumFields → (Db → Result String A × Db) → Db → Result String A × Db
with_members members body db = body db
with_members values body db = (err "AttributeError", db)

-- The end of a call where the fields hold texts: `.value` raised, and nothing is written.
abbrev pub Crashes : {A : Type 0} → EnumFields → Db → Result String A × Db → Type 0
Crashes e db after = (e ≡ values) × (after ≡ (err "AttributeError", db))
