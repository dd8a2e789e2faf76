-- ===== src/Payments/Webhooks/Handler.antt =====
-- The body that the five `handle` methods of modules/payments/webhooks share, over what differs
-- between them. An exception is its message, or its kind where the message is the interpreter's.
use vinc_api.Base.{
  ℕ, String, string_eq, nat_eq, option_eq, ◌==◌, Bool, ◌&&◌, Option, none, some, List, [], ◌∷◌,
  ◌++◌, Result, ok, err, scalar_one_or_none, given, find, where_rows, update_rows, if◌then◌else◌,
}
use vinc_api.Payments.Model.{
  TenantPaymentProvider, PaymentTransaction, PaymentWebhookLog, LogStatus, log_status_eq, Db,
}
use vinc_api.Payments.Encryption.{Codec, decrypt}

-- A text field of a JSON object, as `.get` sees it.
pub data Field : Type 0 where
  absent null : Field
  text : String → Field

-- `.get(key)`
abbrev pub get : Field → Option String
get absent = none
get null = none
get (text s) = some s

-- `.get(key, default)`
abbrev pub get_or : Field → String → Option String
get_or absent d = some d
get_or null d = none
get_or (text s) d = some s

-- `.get(key, "").lower()` and the like, which raise on `None`.
abbrev pub convert : (String → String) → Field → Result String String
convert f absent = ok (f "")
convert f null = err "AttributeError"
convert f (text s) = ok (f s)

-- A body that is still bytes, or that the router has parsed.
pub data Payload (E : Type 0) : Type 0 where
  raw : String → Payload E
  parsed : E → Payload E

abbrev pub parse_with : {E : Type 0} → (String → Result String E) → Payload E → Result String E
parse_with loads (raw s) = loads s
parse_with loads (parsed e) = ok e

pub data Response : Type 0 where
  success duplicate ignored : Response
  error : String → Response

-- What one provider's handler does in its own way. `process` gives the transaction as far as it
-- got, with the exception that stopped it.
pub record Handler (P E : Type 0) : Type 0 where
  pub provider : String
  pub parse : P → Result String E
  pub event_id : E → Option String
  pub event_type : E → Option String
  pub reference : E → Result String (Option String)
  pub missing : String
  pub not_found : String
  pub verify : List (String × String) → P → Option String → Result String E
  pub process : ℕ → E → PaymentTransaction → PaymentTransaction × Option String

-- The local variables that the `finally` block reads.
pub record Locals : Type 0 where
  pub event_type : Option String
  pub event_id : Option String
  pub transaction_id : Option ℕ
  pub processing_status : LogStatus
  pub error_message : Option String

abbrev pub start : Locals
start = record {
  event_type = none;
  event_id = none;
  transaction_id = none;
  processing_status = LogStatus.failed;
  error_message = none;
}

-- How a `try` statement ended: the answer, the local variables and the transactions.
abbrev pub Ending : Type 0
Ending = Response × Locals × List PaymentTransaction

-- The `except` clause.
abbrev pub raised : String → Locals → List PaymentTransaction → Ending
raised m v ts =
    (error m, record v { processing_status = LogStatus.failed; error_message = some m }, ts)

-- The WHERE clause of the search for duplicates.
unfoldable pub is_processed : String → String → PaymentWebhookLog → Bool
is_processed provider i l =
    l.provider == provider && (l.event_id == some i && l.status == LogStatus.success)

unfoldable pub find_existing :
    String → Option String → List PaymentWebhookLog → Result String (Option PaymentWebhookLog)
unfolding is_processed where_rows
find_existing provider none logs = ok none
find_existing provider (some i) logs =
    scalar_one_or_none (where_rows (is_processed provider i) logs)

-- The first row of the join with the tenants' providers.
unfoldable pub find_transaction :
    String
    → String
    → List TenantPaymentProvider
    → List PaymentTransaction
    → Option (PaymentTransaction × TenantPaymentProvider)
unfolding find
find_transaction provider ref ps [] = none
find_transaction provider ref ps (t ∷ ts) =
    let rest = find_transaction provider ref ps ts in
    if t.provider_payment_intent_id == some ref && t.provider == provider
    then elim (find (λ p. p.tenant_id == t.tenant_id && p.provider == t.provider) ps) [
      | none ↦ rest
      | some p ↦ some (t, p)
    ]
    else rest

-- The commit of a transaction that was changed in place.
unfoldable pub save : PaymentTransaction → List PaymentTransaction → List PaymentTransaction
unfolding update_rows
save t ts = update_rows (λ r. r.id == t.id) (λ r. t) ts

module _ {P E : Type 0} (c : Codec) (h : Handler P E) where
  -- From the call of `_process_event` on.
  unfoldable pub finish : ℕ → E → PaymentTransaction → Locals → List PaymentTransaction → Ending
  finish now e t v ts =
      let (t', stopped) = h.process now e t in
      elim stopped [
        | none ↦ (success, record v { processing_status = LogStatus.success }, save t' ts)
        | some m ↦ raised m v (save t' ts)
      ]

  -- From the credentials on, for the row that was found.
  unfoldable pub settle :
      ℕ
      → P
      → Option String
      → PaymentTransaction × TenantPaymentProvider
      → Locals
      → List PaymentTransaction
      → Ending
  settle now p sig (t, tp) v ts =
      let v' : Locals = record v { transaction_id = some t.id } in
      elim (decrypt c tp.credentials) [
        | err m ↦ raised m v' ts
        | ok creds ↦ elim (h.verify creds p sig) [
          | err m ↦ raised m v' ts
          | ok e ↦ finish now e t v' ts
        ]
      ]

  -- From the reference to the transaction on.
  unfoldable pub locate : ℕ → P → Option String → E → Locals → Db → Ending
  locate now p sig e v db = elim (h.reference e) [
    | err m ↦ raised m v db.transactions
    | ok r ↦ elim (given r) [
      | none ↦ (ignored, record v { error_message = some h.missing }, db.transactions)
      | some ref ↦ elim (find_transaction h.provider ref db.providers db.transactions) [
        | none ↦ (ignored, record v { error_message = some h.not_found }, db.transactions)
        | some row ↦ settle now p sig row v db.transactions
      ]
    ]
  ]

  -- The `try` block.
  unfoldable pub attempt : ℕ → P → Option String → Db → Ending
  unfolding locate settle finish
  attempt now p sig db = elim (h.parse p) [
    | err m ↦ raised m start db.transactions
    | ok e ↦
        let v : Locals = record start { event_type = h.event_type e; event_id = h.event_id e } in
        elim (find_existing h.provider (given (h.event_id e)) db.webhook_logs) [
          | err m ↦ raised m v db.transactions
          | ok (some l) ↦ (duplicate, v, db.transactions)
          | ok none ↦ locate now p sig e v db
        ]
  ]

  -- The row that the `finally` block writes.
  abbrev pub log_row : ℕ → Option String → Locals → PaymentWebhookLog
  log_row now sig v = record {
    provider = h.provider;
    event_type = v.event_type;
    event_id = v.event_id;
    signature = sig;
    status = v.processing_status;
    error_message = v.error_message;
    transaction_id = v.transaction_id;
    processed_at = now;
  }

  unfoldable pub handle : ℕ → P → Option String → Db → Response × Db
  unfolding attempt
  handle now p sig db =
      let (response, v, ts) = attempt now p sig db in
      (
        response,
        record db { transactions = ts; webhook_logs = db.webhook_logs ++ (log_row now sig v ∷ []) },
      )
