-- ===== src/Payments/Service/Logs.antt =====
-- `PaymentService.get_transaction_logs`. A filter that is not given lets every row pass. The order of
-- rows that were created at the same time is the database's, and may differ between queries.
pub mod Pages
use vinc_api.Base.{
  ℕ, String, string_eq, nat_eq, ◌==◌, leb, Bool, true, false, ◌&&◌, Option, none, some, List, [],
  ◌∷◌, where_rows, skip, take, if◌then◌else◌,
}
use vinc_api.Payments.Model.{PaymentStatus, status_eq, PaymentTransaction, Db}

-- The arguments of the query; a storefront is compared as a column that may be NULL.
pub record LogFilters : Type 0 where
  pub tenant_id : Option ℕ
  pub storefront_id : Option ℕ
  pub status : Option PaymentStatus
  pub provider : Option String
  pub start_date : Option ℕ
  pub end_date : Option ℕ

-- `if value: stmt = stmt.where(…)`
abbrev pub given_passes {ℓ} : {A : Type ℓ} → Option A → (A → Bool) → Bool
given_passes none p = true
given_passes (some a) p = p a

unfoldable pub is_storefront : Option ℕ → ℕ → Bool
is_storefront column i = elim column [ none ↦ false | some j ↦ j == i ]

-- The WHERE clauses.
unfoldable pub is_logged : LogFilters → PaymentTransaction → Bool
unfolding is_storefront
is_logged f t =
    given_passes f.tenant_id (λ i. t.tenant_id == i)
    && (given_passes f.storefront_id (is_storefront t.storefront_id)
        && (given_passes f.status (λ s. t.status == s)
            && (given_passes f.provider (λ n. t.provider == n)
                && (given_passes f.start_date (λ d. leb d t.created_at)
                    && given_passes f.end_date (λ d. leb t.created_at d)))))

-- `order` is the order that the database gives to the rows of this query, by the time of creation.
unfoldable pub get_transaction_logs :
    (List PaymentTransaction → List PaymentTransaction)
    → LogFilters
    → ℕ
    → ℕ
    → Db
    → List PaymentTransaction
unfolding is_logged skip take where_rows
get_transaction_logs order f most skipped db =
    take most (skip skipped (order (where_rows (is_logged f) db.transactions)))
