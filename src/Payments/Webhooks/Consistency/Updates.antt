-- ===== src/Payments/Webhooks/Consistency/Updates.antt =====
-- The five `_process_event` methods and the consistency of a transaction.
use vinc_api.Base.{
  ℕ, String, Option, none, some, List, [], ◌∷◌, string_eq, ◌==◌, Result, ◌||◌, lower, upper, ok,
  err,
}
use vinc_api.Payments.Model.{PaymentTransaction}
use vinc_api.Payments.Webhooks.Handler.{Field, absent, null, text, get, get_or, convert}
use vinc_api.Payments.Webhooks.Stripe.{
  StripeEvent, PaymentError, no_error, null_error, error_object, stripe_succeeded, stripe_failed,
  stripe_refunded, stripe_update, stripe_process,
}
use vinc_api.Payments.Webhooks.Paypal.{
  Amount, unset, unreadable, number, PaypalEvent, paypal_refund, paypal_update, paypal_process,
}
use vinc_api.Payments.Webhooks.Nexi.{NexiEvent, nexi_update, nexi_process}
use vinc_api.Payments.Webhooks.BancaSella.{SellaEvent, sella_update, sella_process}
use vinc_api.Payments.Webhooks.Scalapay.{ScalapayEvent, scalapay_update, scalapay_process}
use vinc_api.Payments.Webhooks.Events.{noted, touched}
use vinc_api.Payments.Webhooks.Consistency.{
  IsConsistent, Keeps, branch, succeeded-Consistent, failed-Consistent, cancelled-Consistent,
  processing-Consistent, requires_action-Consistent, refund-Consistent,
}

module _ (now : ℕ) where
  pub stripe_succeeded-IsConsistent :
      (charges : Option (List Field)) (t : PaymentTransaction)
      → Keeps (stripe_succeeded now charges t)
  unfolding stripe_succeeded
  stripe_succeeded-IsConsistent none t = succeeded-Consistent now _ _
  stripe_succeeded-IsConsistent (some []) t = succeeded-Consistent now _ _
  stripe_succeeded-IsConsistent (some (f ∷ fs)) t = succeeded-Consistent now _ _

  pub stripe_failed-IsConsistent :
      (e : PaymentError) (t : PaymentTransaction) → Keeps (stripe_failed now e t)
  unfolding stripe_failed
  stripe_failed-IsConsistent no_error t = failed-Consistent now _ _
  stripe_failed-IsConsistent null_error t = failed-Consistent now _ _
  stripe_failed-IsConsistent (error_object f) t = failed-Consistent now _ _

  pub stripe_refunded-IsConsistent :
      (refunds : List ℕ) (t : PaymentTransaction)
      → IsConsistent t
      → Keeps (stripe_refunded now refunds t)
  unfolding stripe_refunded
  stripe_refunded-IsConsistent [] t h = h
  stripe_refunded-IsConsistent (a ∷ rest) t h = refund-Consistent _ _ _

  pub stripe_update-IsConsistent :
      (k : String) (e : StripeEvent) (t : PaymentTransaction)
      → IsConsistent t
      → Keeps (stripe_update now k e t)
  unfolding stripe_update
  stripe_update-IsConsistent k e t h =
      branch (k == "payment_intent.succeeded") _ _ (stripe_succeeded-IsConsistent e.charges t) (
        branch (k == "payment_intent.payment_failed") _ _
          (stripe_failed-IsConsistent e.last_payment_error t)
          (branch (k == "payment_intent.canceled") _ _ (cancelled-Consistent now _ _) (
            branch (k == "payment_intent.processing") _ _ (processing-Consistent _ _ _) (
              branch (k == "payment_intent.requires_action") _ _ (requires_action-Consistent _ _ _)
                (branch (k == "charge.refunded") _ _ (stripe_refunded-IsConsistent e.refunds t h)
                  h)))))

  pub stripe_process-IsConsistent :
      (e : StripeEvent) (t : PaymentTransaction) → IsConsistent t → Keeps (stripe_process now e t)
  unfolding stripe_process
  stripe_process-IsConsistent e t h = on_kind e.kind
    where
      on_kind :
          (f : Field)
          → Keeps (elim f [
            | absent ↦ (t, some "KeyError")
            | null ↦ touched now (noted now none (get e.object_id) t)
            | text k ↦ stripe_update now k e (noted now (some k) (get e.object_id) t)
          ])
      on_kind absent = h
      on_kind null = h
      on_kind (text k) = stripe_update-IsConsistent k e (noted now (some k) (get e.object_id) t) h

  pub paypal_refund-IsConsistent :
      (a : Amount) (t : PaymentTransaction) → IsConsistent t → Keeps (paypal_refund now a t)
  unfolding paypal_refund
  paypal_refund-IsConsistent unreadable t h = h
  paypal_refund-IsConsistent unset t h = refund-Consistent _ _ _
  paypal_refund-IsConsistent (number a) t h = refund-Consistent _ _ _

  pub paypal_update-IsConsistent :
      (k : String) (e : PaypalEvent) (t : PaymentTransaction)
      → IsConsistent t
      → Keeps (paypal_update now k e t)
  unfolding paypal_update
  paypal_update-IsConsistent k e t h =
      branch (k == "CHECKOUT.ORDER.APPROVED") _ _ (processing-Consistent _ _ _) (
        branch (k == "CHECKOUT.ORDER.COMPLETED") _ _ (succeeded-Consistent now _ _) (
          branch (k == "PAYMENT.CAPTURE.COMPLETED") _ _ (succeeded-Consistent now _ _) (
            branch (k == "PAYMENT.CAPTURE.DENIED") _ _ (failed-Consistent now _ _) (
              branch (k == "PAYMENT.CAPTURE.REFUNDED") _ _ (paypal_refund-IsConsistent e.value t h)
                (branch (k == "CHECKOUT.ORDER.VOIDED") _ _ (cancelled-Consistent now _ _) h)))))

  pub nexi_update-IsConsistent :
      (s : String) (e : NexiEvent) (t : PaymentTransaction)
      → IsConsistent t
      → Keeps (nexi_update now s e t)
  unfolding nexi_update
  nexi_update-IsConsistent s e t h =
      branch (s == "captured") _ _ (succeeded-Consistent now _ _)
        (branch (s == "declined" || s == "cancelled") _ _ (failed-Consistent now _ _) h)

  pub sella_update-IsConsistent :
      (s : String) (e : SellaEvent) (t : PaymentTransaction)
      → IsConsistent t
      → Keeps (sella_update now s e t)
  unfolding sella_update
  sella_update-IsConsistent s e t h = branch (s == "OK") _ _ (succeeded-Consistent now _ _) (
      branch (s == "KO") _ _ (failed-Consistent now _ _)
        (branch (s == "XX") _ _ (cancelled-Consistent now _ _) h))

  pub scalapay_update-IsConsistent :
      (s : String) (e : ScalapayEvent) (t : PaymentTransaction)
      → IsConsistent t
      → Keeps (scalapay_update now s e t)
  unfolding scalapay_update
  scalapay_update-IsConsistent s e t h =
      branch (s == "captured") _ _ (succeeded-Consistent now _ _) (
        branch (s == "declined") _ _ (failed-Consistent now _ _)
          (branch (s == "approved") _ _ (processing-Consistent _ _ _) h))

  pub paypal_process-IsConsistent :
      (e : PaypalEvent) (t : PaymentTransaction) → IsConsistent t → Keeps (paypal_process now e t)
  unfolding paypal_process
  paypal_process-IsConsistent e t h = on_kind e.event_type
    where
      on_kind :
          (f : Field)
          → Keeps (elim f [
            | absent ↦ (t, some "KeyError")
            | null ↦ touched now (noted now none (get e.id) t)
            | text k ↦ paypal_update now k e (noted now (some k) (get e.id) t)
          ])
      on_kind absent = h
      on_kind null = h
      on_kind (text k) = paypal_update-IsConsistent k e (noted now (some k) (get e.id) t) h

  -- Where the reading of a field raises, or the rest goes on with what was read.
  on_read :
      (r : Result String String) (t : PaymentTransaction)
      (f : String → PaymentTransaction × Option String)
      → IsConsistent t
      → ((s : String) → Keeps (f s))
      → Keeps (elim r [ err m ↦ (t, some m) | ok s ↦ f s ])
  on_read (err m) t f h k = h
  on_read (ok s) t f h k = k s

  pub nexi_process-IsConsistent :
      (e : NexiEvent) (t : PaymentTransaction) → IsConsistent t → Keeps (nexi_process now e t)
  unfolding nexi_process
  nexi_process-IsConsistent e t h =
      on_read (convert lower e.status) _ _ h (λ s.
        nexi_update-IsConsistent s e (noted now (get_or e.operation "") (get e.payment_id) t) h)

  pub sella_process-IsConsistent :
      (e : SellaEvent) (t : PaymentTransaction) → IsConsistent t → Keeps (sella_process now e t)
  unfolding sella_process
  sella_process-IsConsistent e t h = on_read (convert upper e.transaction_result) _ _ h (λ s.
      sella_update-IsConsistent s e
        (noted now (get_or e.event_type "payment_update") (get e.payment_id) t) h)

  pub scalapay_process-IsConsistent :
      (e : ScalapayEvent) (t : PaymentTransaction)
      → IsConsistent t
      → Keeps (scalapay_process now e t)
  unfolding scalapay_process
  scalapay_process-IsConsistent e t h = on_read (convert lower e.status) _ _ h (λ s.
      scalapay_update-IsConsistent s e (noted now (get_or e.status "order_update") (get e.token) t)
        h)
