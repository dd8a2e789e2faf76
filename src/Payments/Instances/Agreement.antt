-- ===== src/Payments/Instances/Agreement.antt =====
-- Two ways in which a provider's status reaches a transaction: the webhook, and the table for the
-- API's answers.
use vinc_api.Base.{ℕ, ◌≡◌, ◌≢◌, refl, String, string_eq, arith}
use vinc_api.Payments.Model.{PaymentStatus, PaymentTransaction}
use vinc_api.Payments.Instances.{map_nexi_status, map_banca_sella_status, map_scalapay_status}
use vinc_api.Payments.Webhooks.Nexi.{NexiEvent, nexi_update}
use vinc_api.Payments.Webhooks.BancaSella.{SellaEvent, sella_update}
use vinc_api.Payments.Webhooks.Scalapay.{ScalapayEvent, scalapay_update}

module _ (now : ℕ) (s : String) (t : PaymentTransaction)
    (waiting : t.status ≡ PaymentStatus.pending) where
  -- A Banca Sella webhook moves a pending transaction to the status that the API's answer with the
  -- same result would give it.
  sella_update-map_banca_sella_status :
      (e : SellaEvent) → (sella_update now s e t).0.status ≡ map_banca_sella_status s
  unfolding sella_update map_banca_sella_status
  sella_update-map_banca_sella_status e = ground arith

  -- So does a Scalapay webhook, for every status but the two that it leaves alone, cancelled and
  -- refunded.
  scalapay_update-map_scalapay_status :
      (e : ScalapayEvent)
      → s ≢ "cancelled"
      → s ≢ "refunded"
      → (scalapay_update now s e t).0.status ≡ map_scalapay_status s
  unfolding scalapay_update map_scalapay_status
  scalapay_update-map_scalapay_status e n m = ground arith

  -- A Nexi webhook with the status cancelled makes the transaction failed, where the API's answer
  -- makes it cancelled.
  pub nexi_update-cancelled :
      (e : NexiEvent)
      → s ≡ "cancelled"
      → ((nexi_update now s e t).0.status ≡ PaymentStatus.failed)
        × (map_nexi_status s ≡ PaymentStatus.cancelled)
  unfolding nexi_update map_nexi_status string_eq
  nexi_update-cancelled e same = rw same (refl, refl)
