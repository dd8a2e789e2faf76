-- ===== src/Payments/Webhooks/Tests.antt =====
-- Runs of the webhook handlers, and their theorems at concrete data.
use package.text.Mathlib.TextEquality.{eq_iff}
use vinc_api.Base.{
  ◌≡◌, refl, String, string_eq, nat_eq, option_eq, none, some, [], ◌∷◌, Result, err, arith, Option,
  ◌<>◌, where_rows, if◌then◌else◌, ◌==◌, ok, ◌⊎◌, ◌++◌,
}
use vinc_api.Payments.Model.{Db, status_eq, log_status_eq, PaymentWebhookLog}
use vinc_api.Payments.Samples.{codec, tables}
use vinc_api.Payments.Webhooks.Handler.{
  absent, text, parsed, Payload, Response, success, duplicate, handle,
}
use vinc_api.Payments.Webhooks.Dedup.{IsDeduplicated, processed_count, handle_log, status_of}
use vinc_api.Payments.Webhooks.Causes.{Cause, handle-Cause}
use vinc_api.Payments.Webhooks.Consistency.Handles.{AllConsistent, webhooks-AllConsistent}
use vinc_api.Payments.Webhooks.Stripe.{StripeLib, StripeEvent, PaymentError, stripe_handle}
use vinc_api.Payments.Webhooks.Paypal.{PaypalEvent, paypal_handle}
use vinc_api.Payments.Webhooks.Nexi.{NexiLib, NexiEvent, nexi_handle}
use vinc_api.Payments.Webhooks.BancaSella.{SellaEvent, sella_handle}
use vinc_api.Payments.Webhooks.Deliveries.{nothing, processed_once}
use vinc_api.Payments.Webhooks.Scalapay.{ScalapayEvent, scalapay_handler, scalapay_handle}

abbrev order : String → ScalapayEvent
order s = record {
  token = text "tok";
  status = text s;
  order_id = text "o9";
  decline_reason = absent;
}

abbrev no_json : {E : Type 0} → String → Result String E
no_json s = err "JSONDecodeError"

tables-IsDeduplicated : IsDeduplicated tables
unfolding processed_count where_rows
tables-IsDeduplicated provider i n = omega arith

approve : Response × Db
unfolding scalapay_handle option_eq nat_eq
approve = scalapay_handle codec no_json 5 (parsed (order "approved")) none tables

approve_succeeds : approve.0 ≡ success
unfolding approve option_eq nat_eq
approve_succeeds = refl

processed_once_example :
    let h = scalapay_handler codec no_json in
    let later = (handle codec h 5 (parsed (order "approved")) none tables).1 in
    ((handle codec h 6 (parsed (order "captured")) none later).0 ≡ duplicate)
    × ((handle codec h 6 (parsed (order "captured")) none later).1.transactions
        ≡ later.transactions)
unfolding scalapay_handle option_eq nat_eq
processed_once_example =
    processed_once codec (scalapay_handler codec no_json) 5 (parsed (order "approved")) none tables
      tables-IsDeduplicated refl (order "approved") "tok" refl refl
      (ground (arith, eq_iff "tok" "")) nothing 6 (parsed (order "captured")) none
      (order "captured") refl refl

handle-Cause_example :
    let after =
      (handle codec
        (scalapay_handler codec no_json)
        5
        (parsed (order "approved"))
        none
        tables).1.transactions in
    (after ≡ tables.transactions)
    ⊎ Cause codec (scalapay_handler codec no_json) 5 (parsed (order "approved")) none tables after
handle-Cause_example =
    handle-Cause codec (scalapay_handler codec no_json) 5 (parsed (order "approved")) none tables

tables-AllConsistent : AllConsistent tables
tables-AllConsistent = (ground arith, (ground arith, (ground arith, tt)))

webhooks-AllConsistent_example :
    ((lib : StripeLib) (p : String) (sig : Option String)
      → AllConsistent (stripe_handle codec lib 5 p sig tables).1)
    × ((e : PaypalEvent) → AllConsistent (paypal_handle codec 5 e tables).1)
    × ((lib : NexiLib) (p : Payload NexiEvent) (sig : Option String)
        → AllConsistent (nexi_handle codec lib 5 p sig tables).1)
    × ((loads : String → Result String SellaEvent) (p : Payload SellaEvent) (sig : Option String)
        → AllConsistent (sella_handle codec loads 5 p sig tables).1)
    × ((loads : String → Result String ScalapayEvent) (p : Payload ScalapayEvent)
          (sig : Option String)
        → AllConsistent (scalapay_handle codec loads 5 p sig tables).1)
webhooks-AllConsistent_example = webhooks-AllConsistent codec 5 tables tables-AllConsistent

abbrev charged : String → StripeEvent
charged kind = record {
  id = text "evt_1";
  kind = text kind;
  object_id = text "pi_1";
  charges = some (text "ch_1" ∷ []);
  last_payment_error = PaymentError.no_error;
  refunds = [];
}

-- A library that accepts one header under one secret.
abbrev stripe_lib : String → StripeLib
stripe_lib kind = record {
  loads = λ p. ok (charged kind);
  construct_event = λ p header secret.
      if header == "v1" then ok (charged kind) else err "SignatureVerificationError";
}

abbrev nexi_event : NexiEvent
nexi_event = record {
  payment_id = text "n1";
  operation = absent;
  status = text "captured";
  transaction_id = text "t1";
  error_message = absent;
}

abbrev nexi_lib : NexiLib
nexi_lib = record { loads = no_json; mac = λ secret p. "mac of " <> secret }

handle_log_example :
    let after =
      handle codec (scalapay_handler codec no_json) 5 (parsed (order "approved")) none tables in
    (row : PaymentWebhookLog) × (after.1.webhook_logs ≡ tables.webhook_logs ++ (row ∷ []))
    × (row.provider ≡ "scalapay")
    × (row.status ≡ status_of after.0)
unfolding scalapay_handler
handle_log_example =
    handle_log codec (scalapay_handler codec no_json) 5 (parsed (order "approved")) none tables
