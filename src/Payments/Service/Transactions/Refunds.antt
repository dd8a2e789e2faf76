-- ===== src/Payments/Service/Transactions/Refunds.antt =====
-- What a refund does to the transactions, and how often the provider is asked.
use vinc_api.Base.{
  ℕ, ◌≡◌, ◌≤◌, ◌+◌, refl, String, nat_eq, ◌==◌, ==_refl, ==_sound, ==_ne, true, false, List, [],
  ◌∷◌, arith, length, not, where_rows, others-update_rows, Result, ok, err, Result-cases,
  Option-cases, Bool-cases, inl, inr, Option, none, some, ◌⊎◌, All, or_value, or_text, leb,
}
use vinc_api.Payments.Model.{
  PaymentStatus, status_eq, TenantPaymentProvider, PaymentTransaction, Db,
}
use vinc_api.Payments.Encryption.{Codec}
use vinc_api.Payments.Instances.{Instance, get_provider_instance}
use vinc_api.Payments.Service.Storefront.{join}
use vinc_api.Payments.Service.Storefront.Joins.{Joined, join-Joined, join_left}
use vinc_api.Payments.Service.Transactions.{
  RefundPaymentRequest, RefundResult, RefundCall, RefundOutcome, RefundResponse, paid_with,
  save_transaction, refunded_by, refund_found, refund_payment, first,
}

module _ {ℓ κ} {A : Type ℓ} (P : A → Type κ) where
  first-All : (xs : List A) (x : A) → All P xs → first xs ≡ some x → P x
  first-All [] x h q = absurd cc
  first-All (y ∷ ys) x (p, ps) q = let same : y ≡ x = cc in rw (← same) p

module _ (c : Codec) (now : ℕ) (call : Instance → RefundCall → Result String RefundResult) where
  -- The call that a request makes for a transaction.
  abbrev pub asked_of : PaymentTransaction → RefundPaymentRequest → RefundCall
  asked_of t r = record {
    reference =
        or_value (or_text (or_text t.provider_transaction_id t.provider_payment_intent_id) none) "";
    amount = r.amount;
    reason = r.reason;
  }

  -- What a refund that returned has done: the provider was asked once, and the transaction, which had
  -- succeeded, is saved with the amount.
  pub record Refunded (transaction_id : ℕ) (r : RefundPaymentRequest) (db : Db) (o : RefundOutcome)
      : Type 0 where
    pub transaction : PaymentTransaction
    pub amount : ℕ
    pub found : transaction.id ≡ transaction_id
    pub paid : transaction.status ≡ PaymentStatus.succeeded
    pub asked : r.amount ≡ some amount
    pub asks : o.calls ≡ asked_of transaction r ∷ []
    pub of_amount : (asked_of transaction r).amount ≡ some amount
    pub adds :
        (refunded_by now amount r.reason transaction).refunded_amount
        ≡ transaction.refunded_amount + amount
    pub keeps_others :
        where_rows (λ t. not (t.id == transaction.id)) o.after.transactions
        ≡ where_rows (λ t. not (t.id == transaction.id)) db.transactions
    pub saves : o.after ≡ record db {
      transactions = save_transaction (refunded_by now amount r.reason transaction) db.transactions;
    }

  -- What a refund that raised has left: the tables as they were, after one call of the provider at
  -- most.
  pub record Raised (db : Db) (o : RefundOutcome) : Type 0 where
    pub message : String
    pub raises : o.answer ≡ err message
    pub unchanged : o.after ≡ db
    pub asked_at_most_once : length o.calls ≤ 1

  abbrev refused : Db → String → List RefundCall → RefundOutcome
  refused db m calls = record { answer = err m; after = db; calls = calls }

  raised :
      (o : RefundOutcome) (db : Db) (m : String) (calls : List RefundCall)
      → length calls ≤ 1
      → o ≡ refused db m calls
      → Raised db o
  raised o db m calls few same =
      rw same (record { message = m; raises = refl; unchanged = refl; asked_at_most_once = few })

  refund_found_lem :
      (t : PaymentTransaction) (p : TenantPaymentProvider) (r : RefundPaymentRequest) (db : Db)
      → Raised db (refund_found c now call t p r db)
        ⊎ Refunded t.id r db (refund_found c now call t p r db)
  unfolding refund_found
  refund_found_lem t p r db = elim (Bool-cases (t.status == PaymentStatus.succeeded)) [
    | inr n ↦ inl (
        raised (refund_found c now call t p r db) db "Only succeeded payments can be refunded" []
          (omega arith) (ground arith))
    | inl y ↦ elim (Result-cases (get_provider_instance c p)) [
      | inr (e, q) ↦
          inl (raised (refund_found c now call t p r db) db e [] (omega arith) (ground arith))
      | inl (i, q) ↦ elim (Result-cases (call i (asked_of t r))) [
        | inr (e, q') ↦ inl (
            raised (refund_found c now call t p r db) db e (asked_of t r ∷ []) (omega arith)
              (ground arith))
        | inl (done, q') ↦ elim (Option-cases r.amount) [
          | inl q'' ↦ inl (
              raised (refund_found c now call t p r db) db "TypeError" (asked_of t r ∷ [])
                (omega arith) (ground arith))
          | inr (a, q'') ↦
              let saves : (refund_found c now call t p r db).after ≡ record db {
                transactions = save_transaction (refunded_by now a r.reason t) db.transactions;
              } =
                ground arith in
              inr (record {
                transaction = t;
                amount = a;
                found = refl;
                paid = ==_sound t.status PaymentStatus.succeeded y;
                asked = q'';
                asks = ground arith;
                of_amount = q'';
                adds = unfold refunded_by in refl;
                keeps_others = rw (saves) (
                    unfold save_transaction in
                    unfold refunded_by in
                    others-update_rows (λ x. x.id == t.id) (refunded_by now a r.reason t)
                      (==_refl t.id) db.transactions);
                saves = saves;
              })
        ]
      ]
    ]
  ]

  found_id :
      (transaction_id : ℕ) (db : Db) (t : PaymentTransaction) (p : TenantPaymentProvider)
      → first (join paid_with (λ x. x.0.id == transaction_id) db.transactions db.providers)
        ≡ some (t, p)
      → t.id ≡ transaction_id
  found_id transaction_id db t p q =
      let h =
        first-All (Joined paid_with (λ x. x.0.id == transaction_id))
          (join paid_with (λ x. x.0.id == transaction_id) db.transactions db.providers) (t, p)
          (join-Joined paid_with (λ x. x.0.id == transaction_id) db.transactions db.providers) q in
      ==_sound t.id transaction_id h.1

  pub refund_payment_lem :
      (transaction_id : ℕ) (r : RefundPaymentRequest) (db : Db)
      → Raised db (refund_payment c now call transaction_id r db)
        ⊎ Refunded transaction_id r db (refund_payment c now call transaction_id r db)
  refund_payment_lem transaction_id r db =
      elim (Option-cases
        (first (join paid_with (λ x. x.0.id == transaction_id) db.transactions db.providers))) [
          | inl q ↦ inl (
              raised (refund_payment c now call transaction_id r db) db "Transaction not found" []
                (omega arith) (unfold refund_payment in rw (refund_payment, q) refl))
          | inr ((t, p), q) ↦
              let same : refund_payment c now call transaction_id r db
                  ≡ refund_found c now call t p r db =
                unfold refund_payment in rw (refund_payment, q) refl in
              rw (same, ← found_id transaction_id db t p q) (refund_found_lem t p r db)
        ]

  -- A row with the id is not one that succeeded.
  abbrev Spent : ℕ → PaymentTransaction → Type 0
  Spent transaction_id t =
      (t.id == transaction_id) ≡ true → (t.status == PaymentStatus.succeeded) ≡ false

  refunded_by-Spent :
      (a : ℕ) (reason : Option String) (t : PaymentTransaction)
      → ((refunded_by now a reason t).status == PaymentStatus.succeeded) ≡ false
  unfolding refunded_by
  refunded_by-Spent a reason t = elim (Bool-cases (leb t.amount (t.refunded_amount + a))) [
    | inl e ↦ rw e (==_ne PaymentStatus.refunded PaymentStatus.succeeded (λ h. cc))
    | inr e ↦ rw e (==_ne PaymentStatus.partially_refunded PaymentStatus.succeeded (λ h. cc))
  ]

  save_transaction-Spent :
      (new : PaymentTransaction)
      → (new.status == PaymentStatus.succeeded) ≡ false
      → (ts : List PaymentTransaction) → All (Spent new.id) (save_transaction new ts)
  unfolding save_transaction
  save_transaction-Spent new spent [] = tt
  save_transaction-Spent new spent (t ∷ ts) = elim (Bool-cases (t.id == new.id)) [
    | inl y ↦ rw y ((λ h. spent), save_transaction-Spent new spent ts)
    | inr n ↦ rw n ((λ h. absurd (ground arith)), save_transaction-Spent new spent ts)
  ]

  refused_found :
      (t : PaymentTransaction) (p : TenantPaymentProvider) (r : RefundPaymentRequest) (db : Db)
      → (t.status == PaymentStatus.succeeded) ≡ false
      → refund_found c now call t p r db ≡ refused db "Only succeeded payments can be refunded" []
  unfolding refund_found
  refused_found t p r db n = ground arith

  refused-Spent :
      (transaction_id : ℕ) (r : RefundPaymentRequest) (db : Db)
      → All (Spent transaction_id) db.transactions
      → ((refund_payment c now call transaction_id r db).after ≡ db)
        × ((refund_payment c now call transaction_id r db).calls ≡ [])
  refused-Spent transaction_id r db spent =
      elim (Option-cases
        (first (join paid_with (λ x. x.0.id == transaction_id) db.transactions db.providers))) [
          | inl q ↦ unfold refund_payment in rw (refund_payment, q) (refl, refl)
          | inr ((t, p), q) ↦
              let same : refund_payment c now call transaction_id r db
                  ≡ refund_found c now call t p r db =
                unfold refund_payment in rw (refund_payment, q) refl in
              let s =
                first-All (λ x. Spent transaction_id x.0)
                  (join paid_with (λ x. x.0.id == transaction_id) db.transactions db.providers)
                  (t, p)
                  (join_left paid_with (λ x. x.0.id == transaction_id) (Spent transaction_id)
                    db.transactions db.providers spent)
                  q in
              rw
                (
                  same,
                  refused_found t p r db
                      (s (found_id' transaction_id t (found_id transaction_id db t p q))),
                )
                (refl, refl)
        ]
    where
      found_id' : (i : ℕ) (t : PaymentTransaction) → t.id ≡ i → (t.id == i) ≡ true
      found_id' i t e = rw (← e) (==_refl t.id)

  -- After a refund that returned, no further refund of the transaction asks the provider or writes to
  -- the tables, whatever it requests.
  pub refund_payment_once :
      (transaction_id : ℕ) (r r' : RefundPaymentRequest) (db : Db) (a : RefundResponse)
      → (refund_payment c now call transaction_id r db).answer ≡ ok a
      → let db' = (refund_payment c now call transaction_id r db).after in
        ((refund_payment c now call transaction_id r' db').after ≡ db')
        × ((refund_payment c now call transaction_id r' db').calls ≡ [])
  unfolding refunded_by
  refund_payment_once transaction_id r r' db a returned =
      elim (refund_payment_lem transaction_id r db) [
        | inl o ↦ absurd (ground (arith, o.raises))
        | inr o ↦
            refused-Spent transaction_id r' (refund_payment c now call transaction_id r db).after (
              rw (o.saves, ← o.found)
                (save_transaction-Spent (refunded_by now o.amount r.reason o.transaction)
                  (refunded_by-Spent o.amount r.reason o.transaction) db.transactions))
      ]
