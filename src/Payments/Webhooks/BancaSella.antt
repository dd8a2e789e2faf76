-- ===== src/Payments/Webhooks/BancaSella.antt =====
-- modules/payments/webhooks/banca_sella.py, and `verify_webhook` of
-- modules/payments/providers/banca_sella.py.
use vinc_api.Base.{
  ℕ, String, string_eq, ◌==◌, Option, some, List, Result, ok, err, or_raise, ◌>>=◌, given, or_text,
  upper, if◌then◌else◌,
}
use vinc_api.Payments.Model.{PaymentTransaction, PaymentStatus, Db}
use vinc_api.Payments.Encryption.{Codec, decrypt}
use vinc_api.Payments.Webhooks.Events.{noted, touched}
use vinc_api.Payments.Webhooks.Handler.{
  Field, get, get_or, convert, Payload, parse_with, Response, Handler, handle, find_existing,
  find_transaction, save,
}

pub record SellaEvent : Type 0 where
  pub shop_login : Field
  pub shop_transaction_id : Field
  pub payment_id : Field
  pub event_type : Field
  pub transaction_result : Field
  pub bank_transaction_id : Field
  pub error_description : Field

-- No signature is looked at.
unfoldable pub sella_verify :
    (String → Result String SellaEvent)
    → List (String × String)
    → Payload SellaEvent
    → Option String
    → Result String SellaEvent
unfolding given
sella_verify loads creds p sig = do
  e ← parse_with loads p
  _ ← or_raise "Invalid Banca Sella webhook: missing required fields" (given (get e.shop_login))
  _ ←
      or_raise "Invalid Banca Sella webhook: missing required fields"
        (given (get e.shop_transaction_id))
  ok e

-- The branch on the result, in upper case.
unfoldable pub sella_update :
    ℕ → String → SellaEvent → PaymentTransaction → PaymentTransaction × Option String
sella_update now s e t =
    if s == "OK"
    then touched now (record t {
      status = PaymentStatus.succeeded;
      completed_at = some now;
      provider_transaction_id = get e.bank_transaction_id;
    })
    else if s == "KO"
    then touched now (record t {
      status = PaymentStatus.failed;
      completed_at = some now;
      error_message = get_or e.error_description "Payment failed";
    })
    else if s == "XX"
    then touched now (record t { status = PaymentStatus.cancelled; completed_at = some now })
    else touched now t

-- `_process_event`
unfoldable pub sella_process :
    ℕ → SellaEvent → PaymentTransaction → PaymentTransaction × Option String
unfolding sella_update upper
sella_process now e t =
    let t' = noted now (get_or e.event_type "payment_update") (get e.payment_id) t in
    elim (convert upper e.transaction_result) [
      | err m ↦ (t', some m)
      | ok s ↦ sella_update now s e t'
    ]

module _ (c : Codec) (loads : String → Result String SellaEvent) where
  unfoldable pub sella_handler : Handler (Payload SellaEvent) SellaEvent
  unfolding sella_verify sella_process or_text
  sella_handler = record {
    provider = "banca_sella";
    parse = parse_with loads;
    event_id = λ e. get e.shop_transaction_id;
    event_type = λ e. get_or e.event_type "payment_update";
    reference = λ e. ok (or_text (get e.payment_id) (get e.shop_transaction_id));
    missing = "No payment ID in webhook";
    not_found = "Transaction not found for payment";
    verify = sella_verify loads;
    process = sella_process;
  }

  -- `BancaSellaWebhookHandler.handle`
  unfoldable pub sella_handle : ℕ → Payload SellaEvent → Option String → Db → Response × Db
  unfolding handle sella_handler string_eq given find_existing find_transaction save decrypt
  sella_handle = handle c sella_handler
