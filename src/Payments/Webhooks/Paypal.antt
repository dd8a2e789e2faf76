-- ===== src/Payments/Webhooks/Paypal.antt =====
-- modules/payments/webhooks/paypal.py, and `verify_webhook` of modules/payments/providers/paypal.py.
use vinc_api.Base.{
  ℕ, ◌+◌, String, string_eq, ◌==◌, Option, none, some, List, Result, ok, err, given, has_part, leb,
  if◌then◌else◌,
}
use vinc_api.Payments.Model.{PaymentTransaction, PaymentStatus, Db}
use vinc_api.Payments.Encryption.{Codec, decrypt}
use vinc_api.Payments.Webhooks.Events.{noted, touched}
use vinc_api.Payments.Webhooks.Handler.{
  Field, absent, null, text, get, Response, Handler, handle, find_existing, find_transaction, save,
}

-- `resource.amount.value`, as `float` reads it, in cents; `unreadable` is what it raises on.
pub data Amount : Type 0 where
  unset unreadable : Amount
  number : ℕ → Amount

pub record PaypalEvent : Type 0 where
  pub id : Field
  pub event_type : Field
  pub resource_id : Field
  pub related_order_id : Field
  pub value : Amount

-- The order that the event concerns.
unfoldable pub paypal_reference : PaypalEvent → Result String (Option String)
unfolding has_part
paypal_reference e = elim (get e.event_type) [
  | none ↦ err "TypeError"
  | some k ↦ ok (
      if has_part k "CHECKOUT.ORDER"
      then get e.resource_id
      else if has_part k "PAYMENT.CAPTURE"
      then get e.related_order_id
      else none)
]

-- The payload is a dictionary here: the handler is given it parsed.
unfoldable pub paypal_verify :
    List (String × String) → PaypalEvent → Option String → Result String PaypalEvent
unfolding given
paypal_verify creds e sig = elim (given (get e.event_type)) [
  | none ↦ err "Invalid PayPal webhook: missing event_type"
  | some k ↦ ok e
]

-- The refund's part of `_process_event`.
unfoldable pub paypal_refund : ℕ → Amount → PaymentTransaction → PaymentTransaction × Option String
paypal_refund now unreadable t = (t, some "ValueError")
paypal_refund now unset t = touched now (record t {
  status =
      if leb t.amount t.refunded_amount
      then PaymentStatus.refunded
      else PaymentStatus.partially_refunded;
})
paypal_refund now (number a) t = touched now (record t {
  refunded_amount = t.refunded_amount + a;
  status =
      if leb t.amount (t.refunded_amount + a)
      then PaymentStatus.refunded
      else PaymentStatus.partially_refunded;
})

-- The branch on the event's type.
unfoldable pub paypal_update :
    ℕ → String → PaypalEvent → PaymentTransaction → PaymentTransaction × Option String
paypal_update now k e t =
    if k == "CHECKOUT.ORDER.APPROVED"
    then touched now (record t { status = PaymentStatus.processing })
    else if k == "CHECKOUT.ORDER.COMPLETED"
    then touched now (record t { status = PaymentStatus.succeeded; completed_at = some now })
    else if k == "PAYMENT.CAPTURE.COMPLETED"
    then touched now (record t {
      status = PaymentStatus.succeeded;
      completed_at = some now;
      provider_transaction_id = get e.resource_id;
    })
    else if k == "PAYMENT.CAPTURE.DENIED"
    then touched now (record t {
      status = PaymentStatus.failed;
      completed_at = some now;
      error_message = some "Payment capture denied";
    })
    else if k == "PAYMENT.CAPTURE.REFUNDED"
    then paypal_refund now e.value t
    else if k == "CHECKOUT.ORDER.VOIDED"
    then touched now (record t { status = PaymentStatus.cancelled; completed_at = some now })
    else touched now t

-- `_process_event`, with the reading of `verified_event["event_type"]` before it.
unfoldable pub paypal_process :
    ℕ → PaypalEvent → PaymentTransaction → PaymentTransaction × Option String
unfolding paypal_update
paypal_process now e t = elim e.event_type [
  | absent ↦ (t, some "KeyError")
  | null ↦ touched now (noted now none (get e.id) t)
  | text k ↦ paypal_update now k e (noted now (some k) (get e.id) t)
]

unfoldable pub paypal_handler : Handler PaypalEvent PaypalEvent
unfolding paypal_reference paypal_verify paypal_process
paypal_handler = record {
  provider = "paypal";
  parse = λ e. ok e;
  event_id = λ e. get e.id;
  event_type = λ e. get e.event_type;
  reference = paypal_reference;
  missing = "No order ID in webhook";
  not_found = "Transaction not found for order";
  verify = paypal_verify;
  process = paypal_process;
}

-- `PayPalWebhookHandler.handle`. The log keeps no signature.
unfoldable pub paypal_handle : Codec → ℕ → PaypalEvent → Db → Response × Db
unfolding handle paypal_handler string_eq paypal_refund given find_existing find_transaction save
    decrypt
paypal_handle c now e = handle c paypal_handler now e none
