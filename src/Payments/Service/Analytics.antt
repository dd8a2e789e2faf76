-- ===== src/Payments/Service/Analytics.antt =====
-- `PaymentService.get_analytics` and `get_transaction_logs`. Amounts are in cents.
pub mod Totals
use vinc_api.Base.{
  ℕ, ◌+◌, ◌-◌, String, string_eq, nat_eq, ◌==◌, leb, Bool, true, false, ◌&&◌, ◌||◌, Option, none,
  some, List, [], ◌∷◌, where_rows, length, if◌then◌else◌, Eq,
}
use vinc_api.Payments.Model.{PaymentStatus, status_eq, PaymentTransaction, Db}

-- `sum(… for t in ts)`
unfoldable pub total : (PaymentTransaction → ℕ) → List PaymentTransaction → ℕ
total f [] = 0
total f (t ∷ ts) = f t + total f ts

-- `sum(… for t in ts if …)`
unfoldable pub total_if :
    (PaymentTransaction → Bool) → (PaymentTransaction → ℕ) → List PaymentTransaction → ℕ
total_if p f [] = 0
total_if p f (t ∷ ts) = let rest = total_if p f ts in if p t then f t + rest else rest

pub record ProviderTotals : Type 0 where
  pub count : ℕ
  pub amount : ℕ
  pub successful : ℕ

unfoldable pub succeeded : PaymentTransaction → Bool
succeeded t = t.status == PaymentStatus.succeeded

-- The entry of a provider after one more transaction.
unfoldable pub add_to : PaymentTransaction → ProviderTotals → ProviderTotals
unfolding succeeded
add_to t e = record {
  count = e.count + 1;
  amount = e.amount + t.amount;
  successful = if succeeded t then e.successful + 1 else e.successful;
}

-- `by_provider`, a dictionary in the order of its insertions.
unfoldable pub count_provider :
    PaymentTransaction → List (String × ProviderTotals) → List (String × ProviderTotals)
unfolding add_to
count_provider t [] = (t.provider, add_to t (record { count = 0; amount = 0; successful = 0 })) ∷ []
count_provider t ((k, e) ∷ rest) =
    let more = count_provider t rest in
    if k == t.provider then (k, add_to t e) ∷ rest else (k, e) ∷ more

unfoldable pub by_provider :
    List PaymentTransaction → List (String × ProviderTotals) → List (String × ProviderTotals)
unfolding count_provider
by_provider [] d = d
by_provider (t ∷ ts) d = by_provider ts (count_provider t d)

-- `by_status[s] = by_status.get(s, 0) + 1`
unfoldable pub count_status : PaymentStatus → List (PaymentStatus × ℕ) → List (PaymentStatus × ℕ)
count_status s [] = (s, 1) ∷ []
count_status s ((k, n) ∷ rest) =
    let more = count_status s rest in if k == s then (k, n + 1) ∷ rest else (k, n) ∷ more

unfoldable pub by_status :
    List PaymentTransaction → List (PaymentStatus × ℕ) → List (PaymentStatus × ℕ)
unfolding count_status
by_status [] d = d
by_status (t ∷ ts) d = by_status ts (count_status t.status d)

pub record PaymentAnalytics : Type 0 where
  pub total_transactions : ℕ
  pub total_amount : ℕ
  pub successful_transactions : ℕ
  pub successful_amount : ℕ
  pub failed_transactions : ℕ
  pub refunded_transactions : ℕ
  pub refunded_amount : ℕ
  pub providers : List (String × ProviderTotals)
  pub statuses : List (PaymentStatus × ℕ)

unfoldable pub within_dates : ℕ → ℕ → ℕ → PaymentTransaction → Bool
within_dates tenant_id start_date end_date t =
    (t.tenant_id == tenant_id && leb start_date t.created_at) && leb t.created_at end_date

unfoldable pub analyse : List PaymentTransaction → PaymentAnalytics
unfolding total total_if succeeded by_provider by_status
analyse ts = record {
  total_transactions = length ts;
  total_amount = total (λ t. t.amount) ts;
  successful_transactions = total_if succeeded (λ t. 1) ts;
  successful_amount = total_if succeeded (λ t. t.amount) ts;
  failed_transactions = total_if (λ t. t.status == PaymentStatus.failed) (λ t. 1) ts;
  refunded_transactions =
      total_if
        (λ t. t.status == PaymentStatus.refunded || t.status == PaymentStatus.partially_refunded)
        (λ t. 1) ts;
  refunded_amount = total (λ t. t.refunded_amount) ts;
  providers = by_provider ts [];
  statuses = by_status ts [];
}

unfoldable pub get_analytics : ℕ → ℕ → ℕ → Db → PaymentAnalytics
unfolding within_dates analyse where_rows
get_analytics tenant_id start_date end_date db =
    analyse (where_rows (within_dates tenant_id start_date end_date) db.transactions)
