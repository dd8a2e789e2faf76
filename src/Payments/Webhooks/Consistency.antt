-- ===== src/Payments/Webhooks/Consistency.antt =====
-- What every webhook keeps true of a transaction.
pub mod Updates
pub mod Handles
use mathlib.Core.Bool.{cond}
use vinc_api.Base.{
  ℕ, ◌≤◌, ◌<◌, ◌≡◌, ◌≢◌, refl, String, Option, none, some, List, [], ◌∷◌, All, arith, string_eq,
  ◌==◌, inl, inr, update_rows, Result, Bool-cases, cond-holds, if◌then◌else◌, leb, Bool, ◌||◌,
  lower, upper, ok, err,
}
use vinc_api.Payments.Model.{PaymentTransaction, PaymentStatus, Db}
use vinc_api.Payments.Encryption.{Codec}
use vinc_api.Payments.Webhooks.Handler.{
  Handler, Payload, Field, absent, null, text, get, get_or, convert, save, find_transaction, handle,
}
use vinc_api.Payments.Webhooks.Causes.{handle-Cause}
use vinc_api.Payments.Webhooks.Stripe.{
  StripeLib, StripeEvent, PaymentError, no_error, null_error, error_object, stripe_succeeded,
  stripe_failed, stripe_refunded, stripe_update, stripe_process, stripe_handler, stripe_handle,
}
use vinc_api.Payments.Webhooks.Paypal.{
  Amount, unset, unreadable, number, PaypalEvent, paypal_refund, paypal_update, paypal_process,
  paypal_handler, paypal_handle,
}
use vinc_api.Payments.Webhooks.Nexi.{
  NexiLib, NexiEvent, nexi_update, nexi_process, nexi_handler, nexi_handle,
}
use vinc_api.Payments.Webhooks.BancaSella.{
  SellaEvent, sella_update, sella_process, sella_handler, sella_handle,
}
use vinc_api.Payments.Webhooks.Scalapay.{
  ScalapayEvent, scalapay_update, scalapay_process, scalapay_handler, scalapay_handle,
}
use vinc_api.Payments.Webhooks.Events.{noted, touched}

pub record Consistent (status : PaymentStatus) (completed_at : Option ℕ) (amount refunded : ℕ)
    : Type 0 where
  pub succeeded_ended : status ≡ PaymentStatus.succeeded → completed_at ≢ none
  pub failed_ended : status ≡ PaymentStatus.failed → completed_at ≢ none
  pub cancelled_ended : status ≡ PaymentStatus.cancelled → completed_at ≢ none
  pub refunded_fully : status ≡ PaymentStatus.refunded → amount ≤ refunded
  pub refunded_partly : status ≡ PaymentStatus.partially_refunded → refunded < amount

-- A transaction that has ended has a time of completion, and the two statuses of a refund agree with
-- the amounts.
abbrev pub IsConsistent : PaymentTransaction → Type 0
IsConsistent t = Consistent t.status t.completed_at t.amount t.refunded_amount

-- The transaction that a step of the processing gives.
abbrev pub Keeps : PaymentTransaction × Option String → Type 0
Keeps r = IsConsistent r.0

abbrev pub branch :
    (b : Bool) (x y : PaymentTransaction × Option String) → Keeps x → Keeps y → Keeps (cond b x y)
branch = cond-holds Keeps

module _ (now amount refunded : ℕ) where
  pub succeeded-Consistent : Consistent PaymentStatus.succeeded (some now) amount refunded
  succeeded-Consistent = ground arith

  pub failed-Consistent : Consistent PaymentStatus.failed (some now) amount refunded
  failed-Consistent = ground arith

  pub cancelled-Consistent : Consistent PaymentStatus.cancelled (some now) amount refunded
  cancelled-Consistent = ground arith

module _ (completed_at : Option ℕ) (amount refunded : ℕ) where
  pub processing-Consistent : Consistent PaymentStatus.processing completed_at amount refunded
  processing-Consistent = ground arith

  pub requires_action-Consistent :
      Consistent PaymentStatus.requires_action completed_at amount refunded
  requires_action-Consistent = ground arith

  pub refund-Consistent :
      Consistent
        (if leb amount refunded then PaymentStatus.refunded else PaymentStatus.partially_refunded)
        completed_at
        amount
        refunded
  refund-Consistent = elim (Bool-cases (leb amount refunded)) [
    | inl e ↦ rw e (ground arith)
    | inr e ↦ rw e (ground arith)
  ]
