-- ===== src/Payments/Webhooks/Dedup.antt =====
-- Deliveries and the webhook log: what one delivery writes, and that an event is processed once.
use vinc_api.Base.{
  given-some, ℕ, ◌+◌, ◌≤◌, String, ◌≡◌, refl, sym, ap, ◌∙◌, ◌≢◌, ◌⊎◌, inl, inr, Option, none, some,
  List, [], ◌∷◌, ◌++◌, ok, arith, length, given, where_rows, length-append, where_rows-append,
  Result-cases, scalar-none, scalar-some,
}
use vinc_api.Payments.Model.{PaymentWebhookLog, LogStatus, Db}
use vinc_api.Payments.Encryption.{Codec}
use vinc_api.Payments.Webhooks.Handler.{
  Response, success, duplicate, ignored, error, Handler, log_row, is_processed, find_existing,
  attempt, handle,
}

-- The status that the log gives an answer.
abbrev pub status_of : Response → LogStatus
status_of success = LogStatus.success
status_of duplicate = LogStatus.failed
status_of ignored = LogStatus.failed
status_of (error m) = LogStatus.failed

module _ {P E : Type 0} (c : Codec) (h : Handler P E) (now : ℕ) (p : P) (sig : Option String)
    (db : Db) where
  attempt_status :
      (attempt c h now p sig db).1.processing_status ≡ status_of (attempt c h now p sig db).0
  unfolding attempt
  attempt_status = ground arith

  attempt_success :
      (attempt c h now p sig db).0 ≡ success
      → (e : E) × (h.parse p ≡ ok e)
        × (find_existing h.provider (given (h.event_id e)) db.webhook_logs ≡ ok none)
        × ((attempt c h now p sig db).1.event_id ≡ h.event_id e)
  unfolding attempt
  attempt_success s = elim (Result-cases (h.parse p)) [
    | inl (e, q) ↦ (e, q, ground arith, ground arith)
    | inr (m, q) ↦ ground arith
  ]

  -- Each delivery adds one row to the log, for this provider. The row says success exactly for the
  -- answer success, and failed for every other answer.
  pub handle_log :
      (row : PaymentWebhookLog) × ((handle c h now p sig db).1.webhook_logs
        ≡ db.webhook_logs ++ (row ∷ []))
      × (row.provider ≡ h.provider)
      × (row.status ≡ status_of (handle c h now p sig db).0)
  unfolding handle
  handle_log = (log_row c h now sig (attempt c h now p sig db).1, refl, refl, attempt_status)

unfoldable pub processed_count : String → String → List PaymentWebhookLog → ℕ
processed_count provider i logs = length (where_rows (is_processed provider i) logs)

-- No event of a provider has two rows that say success.
abbrev pub IsDeduplicated : Db → Type 0
IsDeduplicated db = (provider i : String) → i ≢ "" → processed_count provider i db.webhook_logs ≤ 1

-- The event has such a row.
abbrev pub IsProcessed : String → String → Db → Type 0
IsProcessed provider i db = 1 ≤ processed_count provider i db.webhook_logs

processed_count-append :
    (provider i : String) (logs : List PaymentWebhookLog) (row : PaymentWebhookLog)
    → processed_count provider i (logs ++ (row ∷ []))
      ≡ processed_count provider i logs + processed_count provider i (row ∷ [])
unfolding processed_count
processed_count-append provider i logs row =
    rw (where_rows-append (is_processed provider i) logs (row ∷ []), length-append) refl

-- A row counts for an event only if it says success for it.
processed_count-row :
    (provider i : String) (row : PaymentWebhookLog)
    → (processed_count provider i (row ∷ []) ≡ 0)
      ⊎ ((processed_count provider i (row ∷ []) ≡ 1)
          × (row.provider ≡ provider)
          × (row.event_id ≡ some i)
          × (row.status ≡ LogStatus.success))
unfolding processed_count where_rows is_processed
processed_count-row provider i row = ground arith

module _ (provider i : String) (logs : List PaymentWebhookLog) where
  find_existing-none :
      find_existing provider (some i) logs ≡ ok none → processed_count provider i logs ≡ 0
  unfolding processed_count find_existing
  find_existing-none = scalar-none (where_rows (is_processed provider i) logs)

  find_existing-some :
      processed_count provider i logs ≡ 1
      → (l : PaymentWebhookLog) × (find_existing provider (some i) logs ≡ ok (some l))
  unfolding processed_count find_existing
  find_existing-some = scalar-some (where_rows (is_processed provider i) logs)

processed_count-success :
    (i : String) (row : PaymentWebhookLog)
    → row.event_id ≡ some i
    → row.status ≡ LogStatus.success
    → processed_count row.provider i (row ∷ []) ≡ 1
unfolding processed_count where_rows is_processed
processed_count-success i row k s = ground arith

status_of-success : (r : Response) → status_of r ≡ LogStatus.success → r ≡ success
status_of-success success h = refl
status_of-success duplicate h = cc
status_of-success ignored h = cc
status_of-success (error m) h = cc

module _ {P E : Type 0} (c : Codec) (h : Handler P E) (now : ℕ) (p : P) (sig : Option String)
    (db : Db) where
  -- An attempt that succeeds found no row that says success for its event.
  attempt_fresh :
      (i : String)
      → i ≢ ""
      → (attempt c h now p sig db).0 ≡ success
      → (attempt c h now p sig db).1.event_id ≡ some i
      → processed_count h.provider i db.webhook_logs ≡ 0
  attempt_fresh i n s k =
      let (e, q, unseen, same) = attempt_success c h now p sig db s in
      find_existing-none h.provider i db.webhook_logs (cc (unseen, same, given-some i n))

  -- A delivery keeps the log free of events that were processed twice.
  pub handle-IsDeduplicated : IsDeduplicated db → IsDeduplicated (handle c h now p sig db).1
  unfolding handle
  handle-IsDeduplicated valid provider i n =
      rw processed_count-append
        (elim (processed_count-row provider i (log_row c h now sig (attempt c h now p sig db).1)) [
          | inl none_new ↦ omega (arith, valid provider i n)
          | inr (one_new, same, event, says) ↦
              let s =
                status_of-success (attempt c h now p sig db).0
                  (sym (attempt_status c h now p sig db) ∙ says) in
              let fresh = rw same at (attempt_fresh i n s event) in omega arith
        ])

  -- What is processed stays so.
  pub handle-IsProcessed :
      (provider i : String)
      → IsProcessed provider i db
      → IsProcessed provider i (handle c h now p sig db).1
  unfolding handle
  handle-IsProcessed provider i done = rw processed_count-append (omega arith)

  -- An answer success makes the event processed.
  pub handle_success :
      (handle c h now p sig db).0 ≡ success
      → (e : E) (i : String) → h.parse p ≡ ok e
      → h.event_id e ≡ some i
      → IsProcessed h.provider i (handle c h now p sig db).1
  unfolding handle
  handle_success s e i q k =
      let (e', q', unseen, same) = attempt_success c h now p sig db s in
      let event : (attempt c h now p sig db).1.event_id ≡ some i = cc in
      rw processed_count-append (
        omega (
          arith,
          processed_count-success i (log_row c h now sig (attempt c h now p sig db).1) event
              (attempt_status c h now p sig db ∙ ap status_of s),
        ))

  -- A processed event is answered duplicate, and the transactions stay as they are.
  pub handle_duplicate :
      IsDeduplicated db
      → (e : E) (i : String) → h.parse p ≡ ok e
      → h.event_id e ≡ some i
      → i ≢ ""
      → IsProcessed h.provider i db
      → ((handle c h now p sig db).0 ≡ duplicate)
        × ((handle c h now p sig db).1.transactions ≡ db.transactions)
  unfolding handle attempt
  handle_duplicate valid e i q k n done =
      let (l, found) =
        find_existing-some h.provider i db.webhook_logs (omega (arith, valid h.provider i n)) in
      ground (arith, found, given-some i n)
