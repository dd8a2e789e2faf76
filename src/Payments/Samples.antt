-- ===== src/Payments/Samples.antt =====
-- Data for the runs: a codec whose token opens to the credentials, rows of the tables, and two
-- requests.
use vinc_api.Base.{ℕ, String, true, none, some, List, [], ◌∷◌}
use vinc_api.Payments.Model.{
  PaymentStatus, PaymentTransaction, TenantPaymentProvider, StorefrontPaymentMethod, sealed, Db,
}
use vinc_api.Payments.Encryption.{Codec}

abbrev pub creds : List (String × String)
creds = ("secret_key", "sk") ∷ ("webhook_secret", "whsec") ∷ []

abbrev pub codec : Codec
codec = record {
  dumps = λ x. "text";
  loads = λ s. some creds;
  fernet_encrypt = λ s. "token";
  fernet_decrypt = λ s. some "text";
  b64encode = λ s. s;
  b64decode = λ s. some s;
}

abbrev pub provider_row : ℕ → String → TenantPaymentProvider
provider_row i name = record {
  id = i;
  tenant_id = 7;
  provider = name;
  is_enabled = true;
  mode = "test";
  credentials = sealed "token";
  fee_bearer = "wholesaler";
  config = record { display_name = none; min_amount = none; max_amount = none };
  fees = [];
  created_at = 1;
  updated_at = 1;
}

abbrev pub payment : ℕ → String → String → PaymentTransaction
payment i name intent = record {
  id = i;
  tenant_id = 7;
  storefront_id = none;
  order_id = 40;
  provider = name;
  provider_transaction_id = none;
  provider_payment_intent_id = some intent;
  amount = 2500;
  currency = "EUR";
  status = PaymentStatus.pending;
  customer_email = none;
  customer_id = none;
  error_message = none;
  webhook_events = [];
  refunded_amount = 0;
  refund_reason = none;
  created_at = 1;
  updated_at = 1;
  completed_at = none;
}

abbrev pub tables : Db
tables = record {
  providers = provider_row 1 "scalapay" ∷ provider_row 2 "stripe" ∷ provider_row 3 "nexi" ∷ [];
  methods = [];
  transactions =
      payment 10 "stripe" "pi_1" ∷ payment 11 "scalapay" "tok" ∷ payment 12 "nexi" "n1" ∷ [];
  webhook_logs = [];
}

abbrev pub offering : ℕ → String → ℕ → StorefrontPaymentMethod
offering i name place = record {
  id = i;
  storefront_id = 30;
  tenant_id = 7;
  provider = name;
  is_enabled = true;
  display_name = none;
  display_description = none;
  display_order = place;
  conditions = record { min_cart = some 1000; max_cart = none };
  created_at = 1;
  updated_at = 1;
}

abbrev pub paid : PaymentTransaction
paid = record (payment 13 "stripe" "pi_2") {
  status = PaymentStatus.succeeded;
  completed_at = some 2;
}

abbrev pub shop : Db
shop = record {
  providers = provider_row 1 "scalapay" ∷ provider_row 2 "stripe" ∷ provider_row 3 "nexi" ∷ [];
  methods = offering 20 "stripe" 2 ∷ offering 21 "scalapay" 1 ∷ [];
  transactions = paid ∷ [];
  webhook_logs = [];
}
