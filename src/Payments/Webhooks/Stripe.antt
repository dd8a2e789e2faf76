-- ===== src/Payments/Webhooks/Stripe.antt =====
-- modules/payments/webhooks/stripe.py, and `verify_webhook` of modules/payments/providers/stripe.py.
use vinc_api.Base.{
  ℕ, ◌+◌, String, string_eq, ◌==◌, Option, none, some, List, [], ◌∷◌, Result, ok, err, or_raise,
  ◌>>=◌, given, has_part, leb, if◌then◌else◌,
}
use vinc_api.Payments.Model.{PaymentTransaction, PaymentStatus, Db}
use vinc_api.Payments.Encryption.{Codec, decrypt}
use vinc_api.Payments.Webhooks.Credentials.{credential}
use vinc_api.Payments.Webhooks.Events.{noted, touched}
use vinc_api.Payments.Webhooks.Handler.{
  Field, absent, null, text, get, get_or, Response, Handler, handle, find_existing,
  find_transaction, save,
}

-- `last_payment_error`, whose `message` is read.
pub data PaymentError : Type 0 where
  no_error null_error : PaymentError
  error_object : Field → PaymentError

-- An event with what the handler reads of it; `object_id` is `data.object.id`. `charges` are the
-- ids under `data.object.charges.data`, and `refunds` the amounts under `data.object.refunds.data`.
pub record StripeEvent : Type 0 where
  pub id : Field
  pub kind : Field
  pub object_id : Field
  pub charges : Option (List Field)
  pub last_payment_error : PaymentError
  pub refunds : List ℕ

-- `json.loads`, and the signature check of the stripe package.
pub record StripeLib : Type 0 where
  pub loads : String → Result String StripeEvent
  pub construct_event : String → String → String → Result String StripeEvent

-- The id of an event concerning a payment intent.
unfoldable pub stripe_reference : StripeEvent → Option String
unfolding given has_part string_eq
stripe_reference e = elim (given (get e.kind)) [
  | none ↦ none
  | some k ↦ if has_part k "payment_intent" then get e.object_id else none
]

unfoldable pub stripe_verify :
    StripeLib → List (String × String) → String → Option String → Result String StripeEvent
unfolding given credential
stripe_verify lib creds payload sig = do
  api_key ←
      or_raise "Stripe secret_key not configured in credentials"
        (given (credential "secret_key" creds))
  secret ←
      or_raise "Stripe webhook_secret not configured in credentials"
        (given (credential "webhook_secret" creds))
  header ← or_raise "Stripe-Signature header missing" (given sig)
  lib.construct_event payload header secret

unfoldable pub total_refunded : List ℕ → ℕ
total_refunded [] = 0
total_refunded (x ∷ xs) = x + total_refunded xs

-- `event_data.get("charges", {}).get("data", [{}])[0].get("id")`
abbrev pub first_charge : Option (List Field) → Result String (Option String)
first_charge none = ok none
first_charge (some []) = err "IndexError"
first_charge (some (f ∷ fs)) = ok (get f)

-- `event_data.get("last_payment_error", {}).get("message", "Payment failed")`
abbrev pub error_text : PaymentError → Result String (Option String)
error_text no_error = ok (some "Payment failed")
error_text null_error = err "AttributeError"
error_text (error_object f) = ok (get_or f "Payment failed")

-- The payment succeeded: the status is written before the charge is looked up.
unfoldable pub stripe_succeeded :
    ℕ → Option (List Field) → PaymentTransaction → PaymentTransaction × Option String
stripe_succeeded now charges t =
    let t' = record t { status = PaymentStatus.succeeded; completed_at = some now } in
    elim (first_charge charges) [
      | err m ↦ (t', some m)
      | ok charge ↦ touched now (record t' { provider_transaction_id = charge })
    ]

-- The payment failed: the status is written before the message is looked up.
unfoldable pub stripe_failed :
    ℕ → PaymentError → PaymentTransaction → PaymentTransaction × Option String
stripe_failed now e t =
    let t' = record t { status = PaymentStatus.failed; completed_at = some now } in
    elim (error_text e) [
      | err m ↦ (t', some m)
      | ok message ↦ touched now (record t' { error_message = message })
    ]

-- The refunds so far, if there are any.
unfoldable pub stripe_refunded :
    ℕ → List ℕ → PaymentTransaction → PaymentTransaction × Option String
unfolding total_refunded
stripe_refunded now [] t = touched now t
stripe_refunded now (a ∷ rest) t =
    let total = total_refunded (a ∷ rest) in
    touched now (record t {
      refunded_amount = total;
      status =
          if leb t.amount total then PaymentStatus.refunded else PaymentStatus.partially_refunded;
    })

-- The branch on the event's type, after the event was noted in `webhook_events`.
unfoldable pub stripe_update :
    ℕ → String → StripeEvent → PaymentTransaction → PaymentTransaction × Option String
stripe_update now k e t =
    if k == "payment_intent.succeeded"
    then stripe_succeeded now e.charges t
    else if k == "payment_intent.payment_failed"
    then stripe_failed now e.last_payment_error t
    else if k == "payment_intent.canceled"
    then touched now (record t { status = PaymentStatus.cancelled; completed_at = some now })
    else if k == "payment_intent.processing"
    then touched now (record t { status = PaymentStatus.processing })
    else if k == "payment_intent.requires_action"
    then touched now (record t { status = PaymentStatus.requires_action })
    else if k == "charge.refunded"
    then stripe_refunded now e.refunds t
    else touched now t

-- `_process_event`, with the reading of `verified_event["type"]` before it.
unfoldable pub stripe_process :
    ℕ → StripeEvent → PaymentTransaction → PaymentTransaction × Option String
unfolding stripe_update
stripe_process now e t = elim e.kind [
  | absent ↦ (t, some "KeyError")
  | null ↦ touched now (noted now none (get e.object_id) t)
  | text k ↦ stripe_update now k e (noted now (some k) (get e.object_id) t)
]

module _ (c : Codec) (lib : StripeLib) where
  unfoldable pub stripe_handler : Handler String StripeEvent
  unfolding stripe_reference stripe_verify stripe_process
  stripe_handler = record {
    provider = "stripe";
    parse = lib.loads;
    event_id = λ e. get e.id;
    event_type = λ e. get e.kind;
    reference = λ e. ok (stripe_reference e);
    missing = "No payment intent ID in webhook";
    not_found = "Transaction not found for payment intent";
    verify = stripe_verify lib;
    process = stripe_process;
  }

  -- `StripeWebhookHandler.handle`
  unfoldable pub stripe_handle : ℕ → String → Option String → Db → Response × Db
  unfolding handle stripe_handler string_eq stripe_succeeded stripe_failed stripe_refunded given
      find_existing find_transaction save decrypt
  stripe_handle = handle c stripe_handler
