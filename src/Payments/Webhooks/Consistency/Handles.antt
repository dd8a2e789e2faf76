-- ===== src/Payments/Webhooks/Consistency/Handles.antt =====
-- The five handlers and the consistency of all transactions.
use vinc_api.Base.{
  ℕ, ◌≡◌, String, Option, none, some, List, [], ◌∷◌, All, arith, string_eq, ◌==◌, inl, inr, ◌⊎◌,
  nat_eq, Result, cond-holds,
}
use vinc_api.Payments.Model.{TenantPaymentProvider, PaymentTransaction, Db}
use vinc_api.Payments.Encryption.{Codec}
use vinc_api.Payments.Webhooks.Handler.{Handler, Payload, save, find_transaction, handle}
use vinc_api.Payments.Webhooks.Causes.{handle-Cause}
use vinc_api.Payments.Webhooks.Stripe.{StripeLib, stripe_handler, stripe_handle}
use vinc_api.Payments.Webhooks.Paypal.{PaypalEvent, paypal_handler, paypal_handle}
use vinc_api.Payments.Webhooks.Nexi.{NexiLib, NexiEvent, nexi_handler, nexi_handle}
use vinc_api.Payments.Webhooks.BancaSella.{SellaEvent, sella_handler, sella_handle}
use vinc_api.Payments.Webhooks.Scalapay.{ScalapayEvent, scalapay_handler, scalapay_handle}
use vinc_api.Payments.Webhooks.Consistency.{IsConsistent, Keeps}
use vinc_api.Payments.Webhooks.Consistency.Updates.{
  stripe_process-IsConsistent, paypal_process-IsConsistent, nexi_process-IsConsistent,
  sella_process-IsConsistent, scalapay_process-IsConsistent,
}

abbrev pub AllConsistent : Db → Type 0
AllConsistent db = All IsConsistent db.transactions

save-All :
    (t : PaymentTransaction) (ts : List PaymentTransaction)
    → IsConsistent t
    → All IsConsistent ts
    → All IsConsistent (save t ts)
unfolding save
save-All t [] h all = tt
save-All t (r ∷ ts) h (hr, all) =
    (cond-holds IsConsistent (r.id == t.id) t r h hr, save-All t ts h all)

-- A row that a search gives is one of the table.
find_transaction-cons :
    (provider ref : String) (ps : List TenantPaymentProvider) (r : PaymentTransaction)
    (ts : List PaymentTransaction) (t : PaymentTransaction) (tp : TenantPaymentProvider)
    → find_transaction provider ref ps (r ∷ ts) ≡ some (t, tp)
    → (r ≡ t) ⊎ (find_transaction provider ref ps ts ≡ some (t, tp))
unfolding find_transaction
find_transaction-cons provider ref ps r ts t tp f = ground arith

find_transaction-All :
    (provider ref : String) (ps : List TenantPaymentProvider) (ts : List PaymentTransaction)
    (t : PaymentTransaction) (tp : TenantPaymentProvider)
    → find_transaction provider ref ps ts ≡ some (t, tp)
    → All IsConsistent ts
    → IsConsistent t
unfolding find_transaction
find_transaction-All provider ref ps [] t tp f all = cc
find_transaction-All provider ref ps (r ∷ ts) t tp f (hr, all) =
    elim (find_transaction-cons provider ref ps r ts t tp f) [
      | inl same ↦ rw (← same) hr
      | inr later ↦ find_transaction-All provider ref ps ts t tp later all
    ]

handle-AllConsistent :
    {P E : Type 0} (c : Codec) (h : Handler P E) (now : ℕ) (p : P) (sig : Option String) (db : Db)
    → ((e : E) (t : PaymentTransaction) → IsConsistent t → Keeps (h.process now e t))
    → AllConsistent db
    → AllConsistent (handle c h now p sig db).1
handle-AllConsistent c h now p sig db keeps all = elim (handle-Cause c h now p sig db) [
  | inl same ↦ rw same all
  | inr cause ↦ rw cause.settled.saves (
      save-All _ db.transactions
        (keeps cause.settled.event cause.transaction (
          find_transaction-All h.provider cause.ref db.providers db.transactions cause.transaction
            cause.tenant_provider cause.finds all))
        all)
]

module _ (c : Codec) (now : ℕ) (db : Db) (all : AllConsistent db) where
  -- Whatever is delivered to whichever handler, answered or failed: if every transaction is
  -- consistent before, every transaction is consistent after.
  pub webhooks-AllConsistent :
      ((lib : StripeLib) (p : String) (sig : Option String)
        → AllConsistent (stripe_handle c lib now p sig db).1)
      × ((e : PaypalEvent) → AllConsistent (paypal_handle c now e db).1)
      × ((lib : NexiLib) (p : Payload NexiEvent) (sig : Option String)
          → AllConsistent (nexi_handle c lib now p sig db).1)
      × ((loads : String → Result String SellaEvent) (p : Payload SellaEvent) (sig : Option String)
          → AllConsistent (sella_handle c loads now p sig db).1)
      × ((loads : String → Result String ScalapayEvent) (p : Payload ScalapayEvent)
            (sig : Option String)
          → AllConsistent (scalapay_handle c loads now p sig db).1)
  unfolding stripe_handle paypal_handle nexi_handle sella_handle scalapay_handle
  webhooks-AllConsistent = (
    λ lib p sig.
        handle-AllConsistent c (stripe_handler c lib) now p sig db (stripe_process-IsConsistent now)
          all,
    λ e. handle-AllConsistent c paypal_handler now e none db (paypal_process-IsConsistent now) all,
    λ lib p sig.
        handle-AllConsistent c (nexi_handler c lib) now p sig db (nexi_process-IsConsistent now)
          all,
    λ loads p sig.
        handle-AllConsistent c (sella_handler c loads) now p sig db (sella_process-IsConsistent now)
          all,
    λ loads p sig.
        handle-AllConsistent c (scalapay_handler c loads) now p sig db
          (scalapay_process-IsConsistent now) all,
  )
