-- ===== src/Payments/Service/Transactions.antt =====
-- `PaymentService`: a payment and its refund. What the provider's API answers to a call is a
-- parameter. Amounts are in cents.
pub mod Intents
pub mod Refunds
use vinc_api.Base.{
  ℕ, ◌+◌, String, string_eq, nat_eq, ◌==◌, leb, Bool, true, false, ◌&&◌, Option, none, some, List,
  [], ◌∷◌, ◌++◌, Result, ok, err, ◌>>=◌, scalar_one_or_none, where_rows, update_rows, if◌then◌else◌,
  or_text, or_value,
}
use vinc_api.Payments.Model.{
  EnumFields, with_members, PaymentStatus, status_eq, TenantPaymentProvider,
  StorefrontPaymentMethod, PaymentTransaction, Db,
}
use vinc_api.Payments.Encryption.{Codec}
use vinc_api.Payments.Instances.{Instance, get_provider_instance}
use vinc_api.Payments.Service.Providers.{is_of}
use vinc_api.Payments.Service.Storefront.{join, joins}

pub record CreatePaymentIntentRequest : Type 0 where
  pub storefront_id : ℕ
  pub order_id : ℕ
  pub provider : String
  pub amount : ℕ
  pub currency : String
  pub customer_email : String
  pub customer_id : Option ℕ

-- `PaymentIntentResult`, the provider's answer.
pub record IntentResult : Type 0 where
  pub payment_intent_id : String
  pub client_secret : Option String
  pub redirect_url : Option String
  pub requires_action : Bool
  pub status : PaymentStatus

pub record PaymentIntentResponse : Type 0 where
  pub payment_intent_id : String
  pub transaction_id : ℕ
  pub client_secret : Option String
  pub redirect_url : Option String
  pub requires_action : Bool
  pub status : PaymentStatus
  pub amount : ℕ
  pub currency : String

-- The WHERE clause of `intend_members`.
unfoldable pub serves :
    CreatePaymentIntentRequest → StorefrontPaymentMethod × TenantPaymentProvider → Bool
serves r (m, p) =
    ((m.storefront_id == r.storefront_id && m.provider == r.provider) && m.is_enabled)
    && p.is_enabled

abbrev pub first {ℓ} : {A : Type ℓ} → List A → Option A
first [] = none
first (x ∷ xs) = some x

module _ (c : Codec) (new_id now : ℕ)
    (call : Instance → CreatePaymentIntentRequest → Result String IntentResult)
    (r : CreatePaymentIntentRequest) where
  -- The row that is written before the provider is called.
  abbrev pub pending_row : ℕ → PaymentTransaction
  pending_row tenant_id = record {
    id = new_id;
    tenant_id = tenant_id;
    storefront_id = some r.storefront_id;
    order_id = r.order_id;
    provider = r.provider;
    provider_transaction_id = none;
    provider_payment_intent_id = none;
    amount = r.amount;
    currency = r.currency;
    status = PaymentStatus.pending;
    customer_email = some r.customer_email;
    customer_id = r.customer_id;
    error_message = none;
    webhook_events = [];
    refunded_amount = 0;
    refund_reason = none;
    created_at = now;
    updated_at = now;
    completed_at = none;
  }

  -- The try block and its handler: the row as it is committed, and what is returned or raised.
  unfoldable pub charge :
      TenantPaymentProvider
      → PaymentTransaction
      → Result String PaymentIntentResponse × PaymentTransaction
  unfolding get_provider_instance
  charge p t = elim (get_provider_instance c p >>= λ i. call i r) [
    | err m ↦ (err m, record t { status = PaymentStatus.failed; error_message = some m })
    | ok a ↦ (
      ok (record {
        payment_intent_id = a.payment_intent_id;
        transaction_id = t.id;
        client_secret = a.client_secret;
        redirect_url = a.redirect_url;
        requires_action = a.requires_action;
        status = a.status;
        amount = r.amount;
        currency = r.currency;
      }),
      record t { provider_payment_intent_id = some a.payment_intent_id; status = a.status },
    )
  ]

  unfoldable pub intend_members : Db → Result String PaymentIntentResponse × Db
  unfolding join joins serves charge
  intend_members db = elim (first (join joins (serves r) db.methods db.providers)) [
    | none ↦ (err "Payment provider not available for this storefront", db)
    | some (m, p) ↦
        let (answer, t) = charge p (pending_row p.tenant_id) in
        (answer, record db { transactions = db.transactions ++ (t ∷ []) })
  ]

  -- `.value` of the provider's name raises before anything is written.
  unfoldable pub create_payment_intent : EnumFields → Db → Result String PaymentIntentResponse × Db
  unfolding with_members intend_members
  create_payment_intent e = with_members e intend_members

unfoldable pub get_payment_status : ℕ → Db → Result String PaymentTransaction
unfolding where_rows
get_payment_status transaction_id db = do
  found ← scalar_one_or_none (where_rows (λ t. t.id == transaction_id) db.transactions)
  elim found [ none ↦ err "Transaction not found" | some t ↦ ok t ]

pub record RefundPaymentRequest : Type 0 where
  pub amount : Option ℕ
  pub reason : Option String

pub record RefundResult : Type 0 where
  pub refund_id : String
  pub amount : ℕ
  pub currency : String
  pub status : String

pub record RefundResponse : Type 0 where
  pub transaction_id : ℕ
  pub refund_id : String
  pub amount : ℕ
  pub currency : String
  pub status : String
  pub created_at : ℕ

-- One call of the provider's refund.
pub record RefundCall : Type 0 where
  pub reference : String
  pub amount : Option ℕ
  pub reason : Option String

pub record RefundOutcome : Type 0 where
  pub answer : Result String RefundResponse
  pub after : Db
  pub calls : List RefundCall

unfoldable pub paid_with : PaymentTransaction → TenantPaymentProvider → Bool
unfolding is_of
paid_with t p = is_of t.tenant_id t.provider p

unfoldable pub save_transaction :
    PaymentTransaction → List PaymentTransaction → List PaymentTransaction
unfolding update_rows
save_transaction t ts = update_rows (λ x. x.id == t.id) (λ x. t) ts

-- The update of the transaction after the provider's refund of the amount; the column `updated_at`
-- follows each write.
unfoldable pub refunded_by : ℕ → ℕ → Option String → PaymentTransaction → PaymentTransaction
refunded_by now amount reason t =
    let total = t.refunded_amount + amount in
    record t {
      refunded_amount = total;
      refund_reason = reason;
      updated_at = now;
      status =
          if leb t.amount total then PaymentStatus.refunded else PaymentStatus.partially_refunded;
    }

module _ (c : Codec) (now : ℕ) (call : Instance → RefundCall → Result String RefundResult) where
  -- After the row is found. Without an amount, `float(…) + refund_amount` adds a float to the
  -- column's Decimal, which raises after the provider's refund.
  unfoldable pub refund_found :
      PaymentTransaction → TenantPaymentProvider → RefundPaymentRequest → Db → RefundOutcome
  unfolding get_provider_instance or_text refunded_by save_transaction
  refund_found t p r db =
      if t.status == PaymentStatus.succeeded
      then elim (get_provider_instance c p) [
        | err m ↦ record { answer = err m; after = db; calls = [] }
        | ok i ↦
            let asked : RefundCall = record {
              reference =
                  or_value
                    (or_text (or_text t.provider_transaction_id t.provider_payment_intent_id) none)
                    "";
              amount = r.amount;
              reason = r.reason;
            } in
            elim (call i asked) [
              | err m ↦ record { answer = err m; after = db; calls = asked ∷ [] }
              | ok done ↦ elim r.amount [
                | none ↦ record { answer = err "TypeError"; after = db; calls = asked ∷ [] }
                | some a ↦ record {
                  answer = ok (record {
                    transaction_id = t.id;
                    refund_id = done.refund_id;
                    amount = done.amount;
                    currency = done.currency;
                    status = done.status;
                    created_at = now;
                  });
                  after = record db {
                    transactions = save_transaction (refunded_by now a r.reason t) db.transactions;
                  };
                  calls = asked ∷ [];
                }
              ]
            ]
      ]
      else record { answer = err "Only succeeded payments can be refunded"; after = db; calls = [] }

  unfoldable pub refund_payment : ℕ → RefundPaymentRequest → Db → RefundOutcome
  unfolding join paid_with refund_found
  refund_payment transaction_id r db =
      elim (first (join paid_with (λ x. x.0.id == transaction_id) db.transactions db.providers)) [
        | none ↦ record { answer = err "Transaction not found"; after = db; calls = [] }
        | some (t, p) ↦ refund_found t p r db
      ]
