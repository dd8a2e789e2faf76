-- ===== src/Payments/Instances.antt =====
-- modules/payments/providers: what each provider says of itself, the status that its API's answer
-- becomes, and `PaymentService._get_provider_instance`. Amounts are in cents.
pub mod Agreement
mod Tests
use vinc_api.Base.{
  ℕ, String, string_eq, ◌==◌, ◌||◌, Bool, true, false, Option, none, some, List, Result, ok, err,
  or_value, lower, upper, ◌>>=◌, if◌then◌else◌, contains, [], ◌∷◌,
}
use vinc_api.Payments.Model.{ProviderConfig, TenantPaymentProvider, PaymentStatus}
use vinc_api.Payments.Encryption.{Codec, decrypt}

pub record MethodInfo : Type 0 where
  pub name : String
  pub display_name : String
  pub kind : String
  pub logo_url : Option String
  pub min_amount : ℕ
  pub max_amount : ℕ
  pub supports_refund : Bool
  pub requires_redirect : Bool

-- The six `get_payment_method_info` are tables with these entries.
abbrev method_info :
    ProviderConfig → String → String → String → Option String → ℕ → ℕ → Bool → MethodInfo
method_info c name display_name kind logo_url min_amount max_amount redirect = record {
  name = name;
  display_name = or_value c.display_name display_name;
  kind = kind;
  logo_url = logo_url;
  min_amount = or_value c.min_amount min_amount;
  max_amount = or_value c.max_amount max_amount;
  supports_refund = true;
  requires_redirect = redirect;
}

unfoldable pub stripe_info : ProviderConfig → MethodInfo
stripe_info c =
    method_info c "Stripe" "Credit/Debit Card" "card"
      (some "https://stripe.com/img/v3/home/social.png") 50 99999999 false

unfoldable pub paypal_info : ProviderConfig → MethodInfo
paypal_info c =
    method_info c "PayPal" "PayPal" "digital_wallet"
      (some "https://www.paypalobjects.com/webstatic/icon/pp258.png") 100 99999999 true

unfoldable pub nexi_info : ProviderConfig → MethodInfo
nexi_info c =
    method_info c "Nexi" "Carta di Credito/Debito" "card"
      (some "https://www.nexi.it/content/dam/nexi/logo/logo-nexi.svg") 1 99999999 true

unfoldable pub banca_sella_info : ProviderConfig → MethodInfo
banca_sella_info c =
    method_info c "Banca Sella" "Carte di Credito" "card"
      (some "https://www.bancasella.it/img/logo.svg") 1 99999999 true

unfoldable pub scalapay_info : ProviderConfig → MethodInfo
scalapay_info c =
    method_info c "Scalapay" "Paga in 3 rate senza interessi" "bnpl"
      (some "https://cdn.scalapay.com/images/scalapay-logo.svg") 100 200000 true

unfoldable pub bank_transfer_info : ProviderConfig → MethodInfo
bank_transfer_info c =
    method_info c "Bank Transfer" "Bonifico Bancario" "bank_transfer" none 1 99999999 false

unfoldable pub map_stripe_status : String → PaymentStatus
map_stripe_status s =
    if s == "requires_action"
    then PaymentStatus.requires_action
    else if s == "processing" || s == "requires_capture"
    then PaymentStatus.processing
    else if s == "canceled"
    then PaymentStatus.cancelled
    else if s == "succeeded"
    then PaymentStatus.succeeded
    else PaymentStatus.pending

unfoldable pub map_paypal_status : String → PaymentStatus
map_paypal_status s =
    if s == "APPROVED"
    then PaymentStatus.processing
    else if s == "VOIDED"
    then PaymentStatus.cancelled
    else if s == "COMPLETED"
    then PaymentStatus.succeeded
    else if s == "PAYER_ACTION_REQUIRED"
    then PaymentStatus.requires_action
    else PaymentStatus.pending

-- After `lower()`
unfoldable pub map_nexi_status : String → PaymentStatus
map_nexi_status s =
    if s == "authorized"
    then PaymentStatus.processing
    else if s == "captured"
    then PaymentStatus.succeeded
    else if s == "cancelled"
    then PaymentStatus.cancelled
    else if s == "declined"
    then PaymentStatus.failed
    else if s == "refunded"
    then PaymentStatus.refunded
    else PaymentStatus.pending

-- After `upper()`
unfoldable pub map_banca_sella_status : String → PaymentStatus
map_banca_sella_status s =
    if s == "OK"
    then PaymentStatus.succeeded
    else if s == "KO"
    then PaymentStatus.failed
    else if s == "XX"
    then PaymentStatus.cancelled
    else PaymentStatus.pending

-- After `lower()`
unfoldable pub map_scalapay_status : String → PaymentStatus
map_scalapay_status s =
    if s == "captured"
    then PaymentStatus.succeeded
    else if s == "declined"
    then PaymentStatus.failed
    else if s == "approved"
    then PaymentStatus.processing
    else if s == "cancelled"
    then PaymentStatus.cancelled
    else if s == "refunded"
    then PaymentStatus.refunded
    else PaymentStatus.pending

-- An instance of a provider's class.
pub record Instance : Type 0 where
  pub provider : String
  pub credentials : List (String × String)
  pub mode : String
  pub info : MethodInfo

-- The table of classes.
unfoldable pub provider_map : String → ProviderConfig → Option MethodInfo
unfolding stripe_info paypal_info nexi_info banca_sella_info scalapay_info bank_transfer_info
provider_map name c =
    if name == "stripe"
    then some (stripe_info c)
    else if name == "paypal"
    then some (paypal_info c)
    else if name == "nexi"
    then some (nexi_info c)
    else if name == "banca_sella"
    then some (banca_sella_info c)
    else if name == "scalapay"
    then some (scalapay_info c)
    else if name == "bank_transfer"
    then some (bank_transfer_info c)
    else none

unfoldable pub get_provider_instance : Codec → TenantPaymentProvider → Result String Instance
unfolding decrypt provider_map
get_provider_instance c tp = do
  creds ← decrypt c tp.credentials
  elim (provider_map tp.provider tp.config) [
    | none ↦ err "Provider not supported"
    | some info ↦
        ok (record { provider = tp.provider; credentials = creds; mode = tp.mode; info = info })
  ]
