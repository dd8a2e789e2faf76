-- ===== src/Payments/Instances/Tests.antt =====
-- The theorems on statuses, and that on the credentials, at concrete data.
use package.text.Mathlib.TextEquality.{eq_iff}
use vinc_api.Base.{◌≡◌, refl, arith, ok}
use vinc_api.Payments.Encryption.{decrypt, encrypt, decrypt-encrypt}
use vinc_api.Payments.Samples.{creds, codec}
use vinc_api.Payments.Webhooks.Handler.{text, absent}
use vinc_api.Payments.Webhooks.Nexi.{NexiEvent}
use vinc_api.Payments.Webhooks.BancaSella.{SellaEvent}
use vinc_api.Payments.Webhooks.Scalapay.{ScalapayEvent}

abbrev scalapay_event : ScalapayEvent
scalapay_event = record {
  token = text "tok";
  status = text "declined";
  order_id = text "o9";
  decline_reason = absent;
}

abbrev nexi_event : NexiEvent
nexi_event = record {
  payment_id = text "n1";
  operation = absent;
  status = text "cancelled";
  transaction_id = text "t1";
  error_message = absent;
}

abbrev sella_event : SellaEvent
sella_event = record {
  shop_login = text "shop";
  shop_transaction_id = text "t1";
  payment_id = text "b1";
  event_type = absent;
  transaction_result = text "KO";
  bank_transaction_id = absent;
  error_description = absent;
}

decrypt-encrypt_example : decrypt codec (encrypt codec creds) ≡ ok creds
decrypt-encrypt_example =
    decrypt-encrypt codec creds refl refl (ground (arith, eq_iff "token" "")) (λ s. refl) refl
