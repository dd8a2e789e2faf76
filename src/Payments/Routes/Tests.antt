-- ===== src/Payments/Routes/Tests.antt =====
-- Runs of the routes, and their theorems at concrete data.
use text.Mathlib.TextEquality.{eq_iff}
use vinc_api.Payments.Model.{members}
use vinc_api.Base.{
  ◌≡◌, ◌⊎◌, refl, ℕ, String, string_eq, nat_eq, option_eq, Bool, true, false, none, some, [],
  Result, err, arith, Option, where_rows, lower, contains, given,
}
use vinc_api.Payments.Samples.{creds, codec, shop}
use vinc_api.Payments.Service.Providers.{ConfigureProviderRequest, UpdateProviderRequest, is_of}
use vinc_api.Payments.Service.Storefront.{EnableStorefrontMethodRequest, is_for}
use vinc_api.Payments.Webhooks.Dedup.{processed_count}
use vinc_api.Payments.Webhooks.Scalapay.{ScalapayEvent}
use vinc_api.Payments.Routes.{
  answered, requiring, update_payment_provider, delete_payment_provider, configure_payment_provider,
  enable_storefront_payment_method, refund_payment_route, scalapay_webhook,
}
use vinc_api.Payments.Routes.Access.{
  IsRefused, HasRoleOf, tenant_names, storefront_names, routes-HasRoleOf,
}
use vinc_api.Payments.Instances.{Instance}
use vinc_api.Payments.Service.Transactions.{RefundPaymentRequest, RefundResult, RefundCall}
use vinc_api.Payments.Routes.Runs.{nothing, then_one, deletes, scalapay, Run-IsValid}
use vinc_api.Payments.Routes.Valid.{IsValid}
use vinc_api.Permissions.{UuidLib}

abbrev nobody : String → Bool
nobody m = false

abbrev lib : UuidLib
lib = record { parse = λ s. some 7; str = λ i. "u" }

abbrev admin : Option String
admin = some "Wholesaler_Admin"

shop-IsValid : IsValid shop
unfolding where_rows is_of is_for processed_count
shop-IsValid = record {
  providers_keyed = record {
    one_id = λ i. ground arith;
    one_name = λ t n.
        ground
          (arith, eq_iff "scalapay" "stripe", eq_iff "scalapay" "nexi", eq_iff "stripe" "nexi");
  };
  methods_keyed = record {
    one_id = λ i. ground arith;
    one_method = λ s n. ground (arith, eq_iff "scalapay" "stripe");
  };
  deduplicated = λ provider i n. omega arith;
}

-- The tenant 99 of the path is not that of the row.
delete_other_tenant :
    (delete_payment_provider codec nobody members admin 5 99 2 shop).0 ≡ answered 200 tt
unfolding delete_payment_provider requiring nat_eq string_eq lower contains given where_rows
delete_other_tenant = refl

abbrev no_json : String → Result String ScalapayEvent
no_json s = err "JSONDecodeError"

Run-IsValid_example :
    let deleted = (delete_payment_provider codec nobody members admin 5 99 2 shop).1 in
    IsValid (scalapay_webhook codec 6 no_json "?" none deleted).1
Run-IsValid_example =
    Run-IsValid codec nobody members
      (then_one (then_one nothing (deletes admin 5 99 2)) (scalapay 6 no_json "?" none))
      shop-IsValid

abbrev stripe_request : ConfigureProviderRequest
stripe_request = record {
  provider = "stripe";
  credentials = creds;
  mode = "live";
  config = record { display_name = none; min_amount = none; max_amount = none };
  fee_bearer = "customer";
  fees = [];
}

abbrev disabling : UpdateProviderRequest
disabling = record {
  is_enabled = some false;
  credentials = none;
  mode = none;
  config = none;
  fee_bearer = none;
  fees = none;
}

abbrev nexi_method : EnableStorefrontMethodRequest
nexi_method = record {
  provider = "nexi";
  is_enabled = true;
  display_name = none;
  display_description = none;
  display_order = 3;
  conditions = record { min_cart = none; max_cart = none };
}

routes-HasRoleOf_example :
    ((new_id now tenant_id : ℕ) (r : ConfigureProviderRequest)
      → IsRefused shop
          (configure_payment_provider codec nobody members admin new_id now tenant_id r shop)
        ⊎ HasRoleOf tenant_names admin)
    × ((now tenant_id provider_id : ℕ) (u : UpdateProviderRequest)
        → IsRefused shop
            (update_payment_provider codec nobody members admin now tenant_id provider_id u shop)
          ⊎ HasRoleOf tenant_names admin)
    × ((now tenant_id provider_id : ℕ)
        → IsRefused shop
            (delete_payment_provider codec nobody members admin now tenant_id provider_id shop)
          ⊎ HasRoleOf tenant_names admin)
    × ((now : ℕ) (call : Instance → RefundCall → Result String RefundResult) (transaction_id : ℕ)
          (r : RefundPaymentRequest)
        → IsRefused shop
            (refund_payment_route codec nobody members admin now call transaction_id r shop)
          ⊎ HasRoleOf tenant_names admin)
    × ((lib : UuidLib) (tenant : Option String) (new_id now storefront_id : ℕ)
          (r : EnableStorefrontMethodRequest)
        → IsRefused shop (
            enable_storefront_payment_method codec nobody members admin lib tenant new_id now
              storefront_id r shop)
          ⊎ HasRoleOf storefront_names admin)
routes-HasRoleOf_example = routes-HasRoleOf codec nobody members admin shop
