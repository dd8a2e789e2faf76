-- ===== src/Payments/Service/Logs/Pages.antt =====
-- The transaction log: its filters, its order and its pages.
use vinc_api.Base.{◌≤◌, List, [], ◌∷◌, where_rows}
use vinc_api.Payments.Model.{PaymentTransaction, Db}
use vinc_api.Payments.Service.Logs.{LogFilters, is_logged}

-- No row is later than the one before it, from a row on.
abbrev IsLatestFrom : PaymentTransaction → List PaymentTransaction → Type 0
IsLatestFrom t [] = Unit {0}
IsLatestFrom t (u ∷ us) = (u.created_at ≤ t.created_at) × IsLatestFrom u us

abbrev pub IsLatestFirst : List PaymentTransaction → Type 0
IsLatestFirst [] = Unit {0}
IsLatestFirst (t ∷ ts) = IsLatestFrom t ts

module _ (f : LogFilters) (db : Db) where
  abbrev passing : List PaymentTransaction
  passing = where_rows (is_logged f) db.transactions
