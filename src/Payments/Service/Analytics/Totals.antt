-- ===== src/Payments/Service/Analytics/Totals.antt =====
-- The breakdowns of the analytics against its totals.
use vinc_api.Base.{
  ℕ, ◌+◌, ◌≡◌, refl, String, string_eq, ◌==◌, List, [], ◌∷◌, arith, length, Bool-cases, inl, inr,
  if◌then◌else◌, where_rows,
}
use vinc_api.Payments.Model.{PaymentStatus, status_eq, PaymentTransaction, Db}
use vinc_api.Payments.Service.Analytics.{
  total, total_if, ProviderTotals, succeeded, add_to, count_provider, by_provider, count_status,
  by_status, analyse, get_analytics, within_dates, PaymentAnalytics,
}

-- A column of `by_provider`, summed.
unfoldable pub providers_sum : (ProviderTotals → ℕ) → List (String × ProviderTotals) → ℕ
providers_sum f [] = 0
providers_sum f ((k, e) ∷ rest) = f e + providers_sum f rest

-- `by_status`, summed.
unfoldable pub statuses_sum : List (PaymentStatus × ℕ) → ℕ
statuses_sum [] = 0
statuses_sum ((k, n) ∷ rest) = n + statuses_sum rest

-- `by_status.get(s, 0)`
unfoldable pub status_count : PaymentStatus → List (PaymentStatus × ℕ) → ℕ
status_count s [] = 0
status_count s ((k, n) ∷ rest) = let more = status_count s rest in if k == s then n else more

module _ (f : ProviderTotals → ℕ) (g : PaymentTransaction → ℕ)
    (empty : f (record { count = 0; amount = 0; successful = 0 }) ≡ 0)
    (adds : (t : PaymentTransaction) (e : ProviderTotals) → f (add_to t e) ≡ f e + g t) where
  providers_sum-count_provider :
      (t : PaymentTransaction) (d : List (String × ProviderTotals))
      → providers_sum f (count_provider t d) ≡ providers_sum f d + g t
  unfolding providers_sum count_provider
  providers_sum-count_provider t [] =
      omega (arith, adds t (record { count = 0; amount = 0; successful = 0 }), empty)
  providers_sum-count_provider t ((k, e) ∷ rest) = elim (Bool-cases (k == t.provider)) [
    | inl y ↦ rw y (omega (arith, adds t e))
    | inr n ↦ rw n (omega (arith, providers_sum-count_provider t rest))
  ]

  providers_sum-by_provider :
      (ts : List PaymentTransaction) (d : List (String × ProviderTotals))
      → providers_sum f (by_provider ts d) ≡ providers_sum f d + total g ts
  unfolding by_provider total
  providers_sum-by_provider [] d = omega arith
  providers_sum-by_provider (t ∷ ts) d =
      omega
        (arith, providers_sum-by_provider ts (count_provider t d), providers_sum-count_provider t d)

statuses_sum-count_status :
    (s : PaymentStatus) (d : List (PaymentStatus × ℕ))
    → statuses_sum (count_status s d) ≡ statuses_sum d + 1
unfolding statuses_sum count_status
statuses_sum-count_status s [] = refl
statuses_sum-count_status s ((k, n) ∷ rest) = elim (Bool-cases (k == s)) [
  | inl y ↦ rw y (omega arith)
  | inr m ↦ rw m (omega (arith, statuses_sum-count_status s rest))
]

statuses_sum-by_status :
    (ts : List PaymentTransaction) (d : List (PaymentStatus × ℕ))
    → statuses_sum (by_status ts d) ≡ statuses_sum d + length ts
unfolding by_status
statuses_sum-by_status [] d = omega arith
statuses_sum-by_status (t ∷ ts) d = omega (
  arith,
  statuses_sum-by_status ts (count_status t.status d),
  statuses_sum-count_status t.status d,
)

-- One more of a status, or of another.
status_count-count_status :
    (s s' : PaymentStatus) (d : List (PaymentStatus × ℕ))
    → status_count s (count_status s' d) ≡ status_count s d + (if s' == s then 1 else 0)
unfolding status_count count_status
status_count-count_status s s' [] = ground arith
status_count-count_status s s' ((k, n) ∷ rest) = elim (Bool-cases (k == s')) [
  | inl y ↦ ground arith
  | inr m ↦ ground (arith, status_count-count_status s s' rest)
]

status_count-by_status :
    (s : PaymentStatus) (ts : List PaymentTransaction) (d : List (PaymentStatus × ℕ))
    → status_count s (by_status ts d) ≡ status_count s d + total_if (λ t. t.status == s) (λ t. 1) ts
unfolding by_status total_if
status_count-by_status s [] d = omega arith
status_count-by_status s (t ∷ ts) d = ground (
  arith,
  status_count-by_status s ts (count_status t.status d),
  status_count-count_status s t.status d,
)

total_one : (ts : List PaymentTransaction) → total (λ t. 1) ts ≡ length ts
unfolding total
total_one [] = refl
total_one (t ∷ ts) = omega (arith, total_one ts)

total-succeeded :
    (ts : List PaymentTransaction)
    → total (λ t. if succeeded t then 1 else 0) ts ≡ total_if succeeded (λ t. 1) ts
unfolding total total_if
total-succeeded [] = refl
total-succeeded (t ∷ ts) = ground (arith, total-succeeded ts)

-- The two breakdowns add up to the totals.
pub record AddsUp (a : PaymentAnalytics) : Type 0 where
  pub counts : providers_sum (λ e. e.count) a.providers ≡ a.total_transactions
  pub amounts : providers_sum (λ e. e.amount) a.providers ≡ a.total_amount
  pub successes : providers_sum (λ e. e.successful) a.providers ≡ a.successful_transactions
  pub all_statuses : statuses_sum a.statuses ≡ a.total_transactions
  pub all_succeeded : status_count PaymentStatus.succeeded a.statuses ≡ a.successful_transactions
  pub all_failed : status_count PaymentStatus.failed a.statuses ≡ a.failed_transactions

analyse-AddsUp : (ts : List PaymentTransaction) → AddsUp (analyse ts)
unfolding analyse
analyse-AddsUp ts = record {
  counts =
      unfold providers_sum add_to in
      omega (
        arith,
        total_one ts,
        providers_sum-by_provider (λ e. e.count) (λ t. 1) refl (λ t e. refl) ts [],
      );
  amounts =
      unfold providers_sum add_to in
      omega
        (arith, providers_sum-by_provider (λ e. e.amount) (λ t. t.amount) refl (λ t e. refl) ts []);
  successes =
      unfold providers_sum add_to in
      omega (
        arith,
        total-succeeded ts,
        providers_sum-by_provider (λ e. e.successful) (λ t. if succeeded t then 1 else 0) refl
            (λ t e. ground arith) ts [],
      );
  all_statuses = unfold statuses_sum in omega (arith, statuses_sum-by_status ts []);
  all_succeeded =
      unfold status_count succeeded in
      omega (arith, status_count-by_status PaymentStatus.succeeded ts []);
  all_failed =
      unfold status_count in omega (arith, status_count-by_status PaymentStatus.failed ts []);
}

-- In the analytics of a tenant between two dates, the counts, the amounts and the successes by
-- provider add up to the totals, as do the counts by status, whose entries for succeeded and failed
-- are the numbers reported for these.
pub get_analytics-AddsUp :
    (tenant_id start_date end_date : ℕ) (db : Db)
    → AddsUp (get_analytics tenant_id start_date end_date db)
unfolding get_analytics
get_analytics-AddsUp tenant_id start_date end_date db =
    analyse-AddsUp (where_rows (within_dates tenant_id start_date end_date) db.transactions)
