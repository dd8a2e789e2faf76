-- ===== src/Payments/Webhooks/Nexi.antt =====
-- modules/payments/webhooks/nexi.py, and `verify_webhook` of modules/payments/providers/nexi.py.
use vinc_api.Base.{
  ℕ, String, string_eq, ◌==◌, ◌||◌, Option, none, some, List, Result, ok, err, or_raise, ◌>>=◌,
  given, lower, if◌then◌else◌,
}
use vinc_api.Payments.Model.{PaymentTransaction, PaymentStatus, Db}
use vinc_api.Payments.Encryption.{Codec, decrypt}
use vinc_api.Payments.Webhooks.Credentials.{credential}
use vinc_api.Payments.Webhooks.Events.{noted, touched}
use vinc_api.Payments.Webhooks.Handler.{
  Field, get, get_or, convert, Payload, parse_with, Response, Handler, handle, find_existing,
  find_transaction, save,
}

pub record NexiEvent : Type 0 where
  pub payment_id : Field
  pub operation : Field
  pub status : Field
  pub transaction_id : Field
  pub error_message : Field

-- `json.loads`, and the hexadecimal HMAC-SHA256 of a payload under a secret.
pub record NexiLib : Type 0 where
  pub loads : String → Result String NexiEvent
  pub mac : String → Payload NexiEvent → String

unfoldable pub nexi_verify :
    NexiLib → List (String × String) → Payload NexiEvent → Option String → Result String NexiEvent
unfolding given credential string_eq
nexi_verify lib creds p sig = do
  secret ← or_raise "Nexi webhook_secret not configured" (given (credential "webhook_secret" creds))
  e ← parse_with lib.loads p
  elim (given sig) [
    | none ↦ ok e
    | some s ↦ if lib.mac secret p == s then ok e else err "Webhook signature verification failed"
  ]

-- The branch on the status, in lower case.
unfoldable pub nexi_update :
    ℕ → String → NexiEvent → PaymentTransaction → PaymentTransaction × Option String
nexi_update now s e t =
    if s == "captured"
    then touched now (record t {
      status = PaymentStatus.succeeded;
      completed_at = some now;
      provider_transaction_id = get e.transaction_id;
    })
    else if s == "declined" || s == "cancelled"
    then touched now (record t {
      status = PaymentStatus.failed;
      completed_at = some now;
      error_message = get_or e.error_message "Payment failed";
    })
    else touched now t

-- `_process_event`
unfoldable pub nexi_process :
    ℕ → NexiEvent → PaymentTransaction → PaymentTransaction × Option String
unfolding nexi_update lower
nexi_process now e t =
    let t' = noted now (get_or e.operation "") (get e.payment_id) t in
    elim (convert lower e.status) [ err m ↦ (t', some m) | ok s ↦ nexi_update now s e t' ]

module _ (c : Codec) (lib : NexiLib) where
  unfoldable pub nexi_handler : Handler (Payload NexiEvent) NexiEvent
  unfolding nexi_verify nexi_process
  nexi_handler = record {
    provider = "nexi";
    parse = parse_with lib.loads;
    event_id = λ e. get e.payment_id;
    event_type = λ e. get e.operation;
    reference = λ e. ok (get e.payment_id);
    missing = "No payment ID in webhook";
    not_found = "Transaction not found for payment";
    verify = nexi_verify lib;
    process = nexi_process;
  }

  -- `NexiWebhookHandler.handle`
  unfoldable pub nexi_handle : ℕ → Payload NexiEvent → Option String → Db → Response × Db
  unfolding handle nexi_handler string_eq given find_existing find_transaction save decrypt
  nexi_handle = handle c nexi_handler
