-- ===== src/Payments/Service/Tests.antt =====
-- Runs of the service, and its theorems at concrete data.
use vinc_api.Base.{
  true, ◌≡◌, refl, String, string_eq, nat_eq, option_eq, false, none, some, List, [], ◌∷◌, Result,
  ok, All, length, where_rows,
}
use vinc_api.Payments.Model.{PaymentStatus, TenantPaymentProvider, status_eq}
use vinc_api.Payments.Samples.{creds, codec, provider_row, offering, shop}
use vinc_api.Payments.Instances.{Instance, scalapay_info, stripe_info}
use vinc_api.Payments.Service.Providers.{ConfigureProviderRequest, UpdateProviderRequest}
use vinc_api.Payments.Service.Storefront.{
  EnableStorefrontMethodRequest, PaymentMethodInfo, within, join, joins, offered,
  get_available_payment_methods, method_row,
}
use vinc_api.Payments.Service.Storefront.Offers.{IsSorted, Offered, available_methods_lem}
use vinc_api.Payments.Service.Transactions.{
  CreatePaymentIntentRequest, IntentResult, RefundPaymentRequest, RefundResult, RefundCall,
  refund_payment,
}
use vinc_api.Payments.Service.Transactions.Refunds.{refund_payment_once}
use mathlib.Core.List.{Perm}
use mathlib.Core.List.Perm as Perms
use vinc_api.Payments.Service.Logs.{LogFilters}
use vinc_api.Payments.Service.Analytics.{get_analytics}
use vinc_api.Payments.Service.Analytics.Totals.{AddsUp, get_analytics-AddsUp}

abbrev request : ConfigureProviderRequest
request = record {
  provider = "stripe";
  credentials = creds;
  mode = "live";
  config = record { display_name = none; min_amount = none; max_amount = none };
  fee_bearer = "customer";
  fees = [];
}

abbrev stripe_row : TenantPaymentProvider
stripe_row = provider_row 2 "stripe"

abbrev disabling : UpdateProviderRequest
disabling = record {
  is_enabled = some false;
  credentials = some creds;
  mode = none;
  config = none;
  fee_bearer = none;
  fees = none;
}

abbrev nexi_method : EnableStorefrontMethodRequest
nexi_method = record {
  provider = "nexi";
  is_enabled = true;
  display_name = none;
  display_description = none;
  display_order = 3;
  conditions = record { min_cart = none; max_cart = none };
}

abbrev infos : List PaymentMethodInfo
infos =
    method_row (offering 21 "scalapay" 1) (scalapay_info stripe_row.config)
    ∷ method_row (offering 20 "stripe" 2) (stripe_info stripe_row.config)
    ∷ []

offers : get_available_payment_methods codec 30 2500 shop ≡ ok infos
unfolding get_available_payment_methods string_eq nat_eq
offers = refl

available_methods_lem_example :
    IsSorted infos
    × All (Offered codec 30 2500) infos
    × (length infos
        ≡ length (
            where_rows
              (λ x. within 2500 x.0.conditions)
              (join joins (offered 30) shop.methods shop.providers)))
available_methods_lem_example = available_methods_lem codec 30 2500 shop infos offers

abbrev answers : Instance → CreatePaymentIntentRequest → Result String IntentResult
answers i r = ok (record {
  payment_intent_id = "pi_9";
  client_secret = none;
  redirect_url = none;
  requires_action = false;
  status = PaymentStatus.processing;
})

abbrev order : CreatePaymentIntentRequest
order = record {
  storefront_id = 30;
  order_id = 41;
  provider = "stripe";
  amount = 2500;
  currency = "EUR";
  customer_email = "a@b.it";
  customer_id = none;
}

-- A provider that refunds what it is asked for.
abbrev refunds : Instance → RefundCall → Result String RefundResult
refunds i r =
    ok (record { refund_id = "re_1"; amount = 500; currency = "EUR"; status = "succeeded" })

abbrev part : RefundPaymentRequest
part = record { amount = some 500; reason = none }

refund_payment_once_example :
    let db' = (refund_payment codec 5 refunds 13 part shop).after in
    ((refund_payment codec 5 refunds 13 part db').after ≡ db')
    × ((refund_payment codec 5 refunds 13 part db').calls ≡ [])
unfolding refund_payment string_eq nat_eq status_eq
refund_payment_once_example =
    refund_payment_once codec 5 refunds 13 part part shop
      (record {
        transaction_id = 13;
        refund_id = "re_1";
        amount = 500;
        currency = "EUR";
        status = "succeeded";
        created_at = 5;
      })
      refl

get_analytics-AddsUp_example : AddsUp (get_analytics 7 0 9 shop)
get_analytics-AddsUp_example = get_analytics-AddsUp 7 0 9 shop

abbrev of_stripe : LogFilters
of_stripe = record {
  tenant_id = some 7;
  storefront_id = none;
  status = none;
  provider = some "stripe";
  start_date = some 1;
  end_date = none;
}
