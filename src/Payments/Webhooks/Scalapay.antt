-- ===== src/Payments/Webhooks/Scalapay.antt =====
-- modules/payments/webhooks/scalapay.py, and `verify_webhook` of
-- modules/payments/providers/scalapay.py.
use vinc_api.Base.{
  ℕ, String, string_eq, ◌==◌, Option, some, List, Result, ok, err, or_raise, ◌>>=◌, given, lower,
  if◌then◌else◌,
}
use vinc_api.Payments.Model.{PaymentTransaction, PaymentStatus, Db}
use vinc_api.Payments.Encryption.{Codec, decrypt}
use vinc_api.Payments.Webhooks.Events.{noted, touched}
use vinc_api.Payments.Webhooks.Handler.{
  Field, get, get_or, convert, Payload, parse_with, Response, Handler, handle, find_existing,
  find_transaction, save,
}

pub record ScalapayEvent : Type 0 where
  pub token : Field
  pub status : Field
  pub order_id : Field
  pub decline_reason : Field

-- No signature is looked at.
unfoldable pub scalapay_verify :
    (String → Result String ScalapayEvent)
    → List (String × String)
    → Payload ScalapayEvent
    → Option String
    → Result String ScalapayEvent
unfolding given
scalapay_verify loads creds p sig = do
  e ← parse_with loads p
  _ ← or_raise "Invalid Scalapay webhook: missing token" (given (get e.token))
  ok e

-- The branch on the status, in lower case.
unfoldable pub scalapay_update :
    ℕ → String → ScalapayEvent → PaymentTransaction → PaymentTransaction × Option String
scalapay_update now s e t =
    if s == "captured"
    then touched now (record t {
      status = PaymentStatus.succeeded;
      completed_at = some now;
      provider_transaction_id = get e.order_id;
    })
    else if s == "declined"
    then touched now (record t {
      status = PaymentStatus.failed;
      completed_at = some now;
      error_message = get_or e.decline_reason "Payment declined";
    })
    else if s == "approved"
    then touched now (record t { status = PaymentStatus.processing })
    else touched now t

-- `_process_event`
unfoldable pub scalapay_process :
    ℕ → ScalapayEvent → PaymentTransaction → PaymentTransaction × Option String
unfolding scalapay_update lower
scalapay_process now e t =
    let t' = noted now (get_or e.status "order_update") (get e.token) t in
    elim (convert lower e.status) [ err m ↦ (t', some m) | ok s ↦ scalapay_update now s e t' ]

module _ (c : Codec) (loads : String → Result String ScalapayEvent) where
  unfoldable pub scalapay_handler : Handler (Payload ScalapayEvent) ScalapayEvent
  unfolding scalapay_verify scalapay_process
  scalapay_handler = record {
    provider = "scalapay";
    parse = parse_with loads;
    event_id = λ e. get e.token;
    event_type = λ e. get_or e.status "order_update";
    reference = λ e. ok (get e.token);
    missing = "No token in webhook";
    not_found = "Transaction not found for token";
    verify = scalapay_verify loads;
    process = scalapay_process;
  }

  -- `ScalapayWebhookHandler.handle`
  unfoldable pub scalapay_handle : ℕ → Payload ScalapayEvent → Option String → Db → Response × Db
  unfolding handle scalapay_handler string_eq given find_existing find_transaction save decrypt
  scalapay_handle = handle c scalapay_handler
