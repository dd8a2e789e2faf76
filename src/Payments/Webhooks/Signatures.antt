-- ===== src/Payments/Webhooks/Signatures.antt =====
-- Which deliveries are authenticated before they change a transaction.
use vinc_api.Base.{
  given-some, ℕ, ◌≡◌, ◌≢◌, ◌⊎◌, inl, inr, String, string_eq, false, Option, some, List, ok, arith,
  given, has_part, Option-cases,
}
use vinc_api.Payments.Model.{Db, PaymentTransaction, TenantPaymentProvider}
use vinc_api.Payments.Encryption.{Codec, decrypt}
use vinc_api.Payments.Webhooks.Credentials.{credential}
use vinc_api.Payments.Webhooks.Handler.{Payload, success, text, attempt, save}
use vinc_api.Payments.Webhooks.Causes.{handle-Cause}
use vinc_api.Payments.Webhooks.Stripe.{StripeLib, StripeEvent, stripe_handler, stripe_handle}
use vinc_api.Payments.Webhooks.Nexi.{NexiLib, NexiEvent, nexi_verify, nexi_handler, nexi_handle}

-- The header and the secret of the credentials under which the stripe package accepts a payload.
pub record Signed (lib : StripeLib) (creds : List (String × String)) (payload : String)
    (sig : Option String) : Type 0 where
  pub header : String
  pub secret : String
  pub event : StripeEvent
  pub carries : sig ≡ some header
  pub configured : given (credential "webhook_secret" creds) ≡ some secret
  pub accepts : lib.construct_event payload header secret ≡ ok event

-- The transactions are those with one of them processed, for which the stripe package accepts the
-- payload with the secret that the transaction's tenant has stored for its provider stripe.
pub record GenuineDelivery (c : Codec) (lib : StripeLib) (now : ℕ) (payload : String)
    (sig : Option String) (db : Db) (after : List PaymentTransaction) : Type 0 where
  pub transaction : PaymentTransaction
  pub tenant_provider : TenantPaymentProvider
  pub creds : List (String × String)
  pub event : StripeEvent
  pub is_stripe : transaction.provider ≡ "stripe"
  pub of_tenant : tenant_provider.tenant_id ≡ transaction.tenant_id
  pub of_stripe : tenant_provider.provider ≡ "stripe"
  pub decrypts : decrypt c tenant_provider.credentials ≡ ok creds
  pub signed : Signed lib creds payload sig
  pub saves : after ≡ save ((stripe_handler c lib).process now event transaction).0 db.transactions

module _ (c : Codec) (lib : StripeLib) (now : ℕ) (payload : String) (sig : Option String)
    (db : Db) where
  -- A Stripe event whose type does not speak of a payment intent is not processed and changes no
  -- transaction.
  pub stripe_other_events :
      (e : StripeEvent) (k : String)
      → lib.loads payload ≡ ok e
      → e.kind ≡ text k
      → has_part k "payment_intent" ≡ false
      → ((stripe_handle c lib now payload sig db).0 ≢ success)
        × ((stripe_handle c lib now payload sig db).1.transactions ≡ db.transactions)
  unfolding stripe_handle attempt
  stripe_other_events e k q t n = ground (arith, n)

-- What the signature of a Nexi delivery that has one is compared with.
nexi_verify_signed :
    (lib : NexiLib) (creds : List (String × String)) (p : Payload NexiEvent) (sig : Option String)
    (s : String) (e : NexiEvent)
    → given sig ≡ some s
    → nexi_verify lib creds p sig ≡ ok e
    → (secret : String) × (given (credential "webhook_secret" creds) ≡ some secret)
      × (lib.mac secret p ≡ s)
unfolding nexi_verify
nexi_verify_signed lib creds p sig s e g h =
    elim (Option-cases (given (credential "webhook_secret" creds))) [
      | inl a ↦ absurd (ground arith)
      | inr (secret, a) ↦ (secret, a, ground arith)
    ]

module _ (c : Codec) (lib : NexiLib) (now : ℕ) (p : Payload NexiEvent) (db : Db) where
  -- A Nexi delivery with a signature changes a transaction only if the signature is the code of the
  -- payload under some secret.
  nexi_authentic :
      (s : String)
      → s ≢ ""
      → ((nexi_handle c lib now p (some s) db).1.transactions ≡ db.transactions)
        ⊎ ((secret : String) × (lib.mac secret p ≡ s))
  unfolding nexi_handle
  nexi_authentic s n = elim (handle-Cause c (nexi_handler c lib) now p (some s) db) [
    | inl same ↦ inl same
    | inr cause ↦
        let (secret, _, signed) =
          nexi_verify_signed lib cause.settled.creds p (some s) s cause.settled.event
            (given-some s n) cause.settled.verifies in
        inr (secret, signed)
  ]
