-- ===== src/Payments/Service/Transactions/Intents.antt =====
-- What a payment intent leaves in the table of transactions.
use vinc_api.Base.{
  ℕ, ◌≡◌, refl, String, [], ◌∷◌, ◌++◌, Result, ok, err, ◌>>=◌, Result-cases, Option-cases, inl, inr,
  none, some, ◌⊎◌,
}
use vinc_api.Payments.Model.{
  PaymentStatus, TenantPaymentProvider, StorefrontPaymentMethod, PaymentTransaction, Db, EnumFields,
  values, members, Crashes,
}
use vinc_api.Payments.Encryption.{Codec}
use vinc_api.Payments.Instances.{Instance, get_provider_instance}
use vinc_api.Payments.Service.Storefront.{join, joins}
use vinc_api.Payments.Service.Transactions.{
  CreatePaymentIntentRequest, IntentResult, PaymentIntentResponse, serves, first, pending_row,
  charge, intend_members, create_payment_intent,
}

-- How a call ended for its row: it returned the row's id and status with the request's amount, or it
-- raised, and the row is failed with the message.
abbrev pub Reported :
    CreatePaymentIntentRequest → Result String PaymentIntentResponse → PaymentTransaction → Type 0
Reported r (ok a) t =
    (a.transaction_id ≡ t.id)
    × (a.status ≡ t.status)
    × (a.amount ≡ r.amount)
    × (t.provider_payment_intent_id ≡ some a.payment_intent_id)
Reported r (err m) t = (t.status ≡ PaymentStatus.failed) × (t.error_message ≡ some m)

-- The one row that was added, with the data of the request and nothing refunded.
pub record Recorded (new_id : ℕ) (r : CreatePaymentIntentRequest) (before : Db)
    (after : Result String PaymentIntentResponse × Db) : Type 0 where
  pub row : PaymentTransaction
  pub adds : after.1 ≡ record before { transactions = before.transactions ++ (row ∷ []) }
  pub method : StorefrontPaymentMethod
  pub tenant_provider : TenantPaymentProvider
  pub served_by :
      first (join joins (serves r) before.methods before.providers) ≡ some (method, tenant_provider)
  pub same_id : row.id ≡ new_id
  pub same_tenant : row.tenant_id ≡ tenant_provider.tenant_id
  pub same_currency : row.currency ≡ r.currency
  pub same_email : row.customer_email ≡ some r.customer_email
  pub same_customer : row.customer_id ≡ r.customer_id
  pub same_order : row.order_id ≡ r.order_id
  pub same_storefront : row.storefront_id ≡ some r.storefront_id
  pub same_provider : row.provider ≡ r.provider
  pub same_amount : row.amount ≡ r.amount
  pub nothing_refunded : row.refunded_amount ≡ 0
  pub reported : Reported r after.0 row

-- No pair of an enabled method and an enabled provider serves the request: it is refused, and
-- nothing is written.
abbrev pub Refused :
    CreatePaymentIntentRequest → Db → Result String PaymentIntentResponse × Db → Type 0
Refused r before after =
    (first (join joins (serves r) before.methods before.providers) ≡ none)
    × (after.0 ≡ err "Payment provider not available for this storefront")
    × (after.1 ≡ before)

module _ (c : Codec) (new_id now : ℕ)
    (call : Instance → CreatePaymentIntentRequest → Result String IntentResult)
    (r : CreatePaymentIntentRequest) (db : Db) where
  abbrev row_of : TenantPaymentProvider → Result String PaymentIntentResponse × PaymentTransaction
  row_of p = charge c new_id now call r p (pending_row c new_id now call r p.tenant_id)

  create-charge :
      (m : StorefrontPaymentMethod) (p : TenantPaymentProvider)
      → first (join joins (serves r) db.methods db.providers) ≡ some (m, p)
      → intend_members c new_id now call r db
        ≡ ((row_of p).0, record db { transactions = db.transactions ++ ((row_of p).1 ∷ []) })
  unfolding intend_members
  create-charge m p found = rw (intend_members, found) refl

  charge-Recorded :
      (m : StorefrontPaymentMethod) (p : TenantPaymentProvider)
      → first (join joins (serves r) db.methods db.providers) ≡ some (m, p)
      → Recorded new_id r db
          ((row_of p).0, record db { transactions = db.transactions ++ ((row_of p).1 ∷ []) })
  unfolding charge
  charge-Recorded m p found = elim (Result-cases (get_provider_instance c p >>= λ i. call i r)) [
    | inl (a, q) ↦
        rw (charge, q)
          (record {
            row = record (pending_row c new_id now call r p.tenant_id) {
              provider_payment_intent_id = some a.payment_intent_id;
              status = a.status;
            };
            adds = refl;
            method = m;
            tenant_provider = p;
            served_by = found;
            same_id = refl;
            same_tenant = refl;
            same_currency = refl;
            same_email = refl;
            same_customer = refl;
            same_order = refl;
            same_storefront = refl;
            same_provider = refl;
            same_amount = refl;
            nothing_refunded = refl;
            reported = (refl, refl, refl, refl);
          })
    | inr (e, q) ↦
        rw (charge, q)
          (record {
            row = record (pending_row c new_id now call r p.tenant_id) {
              status = PaymentStatus.failed;
              error_message = some e;
            };
            adds = refl;
            method = m;
            tenant_provider = p;
            served_by = found;
            same_id = refl;
            same_tenant = refl;
            same_currency = refl;
            same_email = refl;
            same_customer = refl;
            same_order = refl;
            same_storefront = refl;
            same_provider = refl;
            same_amount = refl;
            nothing_refunded = refl;
            reported = (refl, refl);
          })
  ]

  pub intend_members_records :
      Refused r db (intend_members c new_id now call r db)
      ⊎ Recorded new_id r db (intend_members c new_id now call r db)
  intend_members_records =
      elim (Option-cases (first (join joins (serves r) db.methods db.providers))) [
        | inl q ↦ inl (unfold intend_members in rw (intend_members, q) (refl, refl, refl))
        | inr ((m, p), q) ↦ inr (rw (create-charge m p q) (charge-Recorded m p q))
      ]

  pub create_payment_intent_records :
      (e : EnumFields)
      → let after = create_payment_intent c new_id now call r e db in
        Crashes e db after ⊎ (Refused r db after ⊎ Recorded new_id r db after)
  unfolding create_payment_intent
  create_payment_intent_records values = inl (refl, refl)
  create_payment_intent_records members = inr intend_members_records
