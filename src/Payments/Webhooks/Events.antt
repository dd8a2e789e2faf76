-- ===== src/Payments/Webhooks/Events.antt =====
-- What every `_process_event` of modules/payments/webhooks does first and last.
use vinc_api.Base.{ℕ, String, Option, none}
use vinc_api.Payments.Model.{PaymentTransaction}

-- `transaction.webhook_events.append(…)`: the column is a plain JSON column, of which SQLAlchemy does not
-- track changes in place, so that what is appended is not written and is gone after the commit.
abbrev pub noted : ℕ → Option String → Option String → PaymentTransaction → PaymentTransaction
noted now kind reference t = t

-- `transaction.updated_at = datetime.utcnow()`, and no exception.
abbrev pub touched : ℕ → PaymentTransaction → PaymentTransaction × Option String
touched now t = (record t { updated_at = now }, none)
