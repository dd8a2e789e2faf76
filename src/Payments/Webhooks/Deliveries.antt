-- ===== src/Payments/Webhooks/Deliveries.antt =====
-- Sequences of deliveries, to any of the handlers and in any order.
use vinc_api.Base.{ℕ, ◌≡◌, ◌≢◌, String, Option, some, ok}
use vinc_api.Payments.Model.{Db}
use vinc_api.Payments.Encryption.{Codec}
use vinc_api.Payments.Webhooks.Handler.{success, duplicate, Handler, handle}
use vinc_api.Payments.Webhooks.Dedup.{
  IsDeduplicated, IsProcessed, handle-IsDeduplicated, handle-IsProcessed, handle_success,
  handle_duplicate,
}

-- The tables before and after some deliveries.
pub data Delivered (c : Codec) (a : Db) : Db → Type 1 where
  nothing : Delivered c a a
  then_one :
      {b : Db} {P E : Type 0}
      → Delivered c a b
      → (h : Handler P E) (now : ℕ) (p : P) (sig : Option String)
      → Delivered c a (handle c h now p sig b).1

module _ (c : Codec) (a : Db) where
  Delivered-IsDeduplicated : {b : Db} → Delivered c a b → IsDeduplicated a → IsDeduplicated b
  Delivered-IsDeduplicated nothing valid = valid
  Delivered-IsDeduplicated (then_one {b} d h now p sig) valid =
      handle-IsDeduplicated c h now p sig b (Delivered-IsDeduplicated d valid)

  Delivered-IsProcessed :
      (provider i : String) {b : Db}
      → Delivered c a b
      → IsProcessed provider i a
      → IsProcessed provider i b
  Delivered-IsProcessed provider i nothing done = done
  Delivered-IsProcessed provider i (then_one {b} d h now p sig) done =
      handle-IsProcessed c h now p sig b provider i (Delivered-IsProcessed provider i d done)

-- An event with a non-empty id is processed once: after an answer success, and after any further
-- deliveries to any handlers, a delivery of the same event id to the same handler is answered
-- duplicate and changes no transaction.
pub processed_once :
    {P E : Type 0} (c : Codec) (h : Handler P E) (now : ℕ) (p : P) (sig : Option String) (db : Db)
    → IsDeduplicated db
    → (handle c h now p sig db).0 ≡ success
    → (e : E) (i : String) → h.parse p ≡ ok e
    → h.event_id e ≡ some i
    → i ≢ ""
    → {later : Db} → Delivered c (handle c h now p sig db).1 later
    → (now' : ℕ) (p' : P) (sig' : Option String) (e' : E) → h.parse p' ≡ ok e'
    → h.event_id e' ≡ some i
    → ((handle c h now' p' sig' later).0 ≡ duplicate)
      × ((handle c h now' p' sig' later).1.transactions ≡ later.transactions)
processed_once c h now p sig db valid s e i q k n {later} d now' p' sig' e' q' k' =
    handle_duplicate c h now' p' sig' later
      (Delivered-IsDeduplicated c _ d (handle-IsDeduplicated c h now p sig db valid)) e' i q' k' n
      (Delivered-IsProcessed c _ h.provider i d (handle_success c h now p sig db s e i q k))
