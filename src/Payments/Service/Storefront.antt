-- ===== src/Payments/Service/Storefront.antt =====
-- `PaymentService`: the payment methods of a storefront, and those that a checkout offers. A join
-- gives its rows in the order of the tables. Amounts are in cents.
pub mod Joins
pub mod Offers
pub mod Enabling
pub mod Keys
use vinc_api.Base.{
  ℕ, String, string_eq, nat_eq, ◌==◌, ltb, leb, Bool, true, false, not, ◌&&◌, ◌||◌, Option, none,
  some, List, [], ◌∷◌, ◌++◌, map, Result, ok, err, ◌>>=◌, scalar_one_or_none, where_rows,
  update_rows, if◌then◌else◌, or_text, or_value,
}
use vinc_api.Payments.Model.{
  EnumFields, with_members, TenantPaymentProvider, StorefrontPaymentMethod, Conditions, Db,
}
use vinc_api.Payments.Encryption.{Codec}
use vinc_api.Payments.Instances.{Instance, MethodInfo, get_provider_instance}
use vinc_api.Payments.Service.Providers.{is_of}

pub record EnableStorefrontMethodRequest : Type 0 where
  pub provider : String
  pub is_enabled : Bool
  pub display_name : Option String
  pub display_description : Option String
  pub display_order : ℕ
  pub conditions : Conditions

unfoldable pub is_for : ℕ → String → StorefrontPaymentMethod → Bool
is_for storefront_id provider m = m.storefront_id == storefront_id && m.provider == provider

unfoldable pub get_storefront_config : ℕ → Db → List StorefrontPaymentMethod
unfolding where_rows
get_storefront_config storefront_id db =
    where_rows (λ m. m.storefront_id == storefront_id) db.methods

unfoldable pub save_method :
    StorefrontPaymentMethod → List StorefrontPaymentMethod → List StorefrontPaymentMethod
unfolding update_rows
save_method m ms = update_rows (λ r. r.id == m.id) (λ r. m) ms

-- The tenant's provider of that name, if it is enabled.
unfoldable pub enabled_of : ℕ → String → TenantPaymentProvider → Bool
unfolding is_of
enabled_of tenant_id provider p = is_of tenant_id provider p && p.is_enabled

module _ (new_id now storefront_id tenant_id : ℕ) (r : EnableStorefrontMethodRequest) where
  -- A row that exists keeps its tenant.
  unfoldable pub enable_method :
      List StorefrontPaymentMethod
      → Result String StorefrontPaymentMethod × List StorefrontPaymentMethod
  enable_method ms = elim (scalar_one_or_none (where_rows (is_for storefront_id r.provider) ms)) [
    | err m ↦ (err m, ms)
    | ok none ↦
        let m : StorefrontPaymentMethod = record {
          id = new_id;
          storefront_id = storefront_id;
          tenant_id = tenant_id;
          provider = r.provider;
          is_enabled = r.is_enabled;
          display_name = r.display_name;
          display_description = r.display_description;
          display_order = r.display_order;
          conditions = r.conditions;
          created_at = now;
          updated_at = now;
        } in
        (ok m, ms ++ (m ∷ []))
    | ok (some old) ↦
        let m : StorefrontPaymentMethod = record old {
          is_enabled = r.is_enabled;
          display_name = r.display_name;
          display_description = r.display_description;
          display_order = r.display_order;
          conditions = r.conditions;
          updated_at = now;
        } in
        (ok m, save_method m ms)
  ]

  unfoldable pub enable_members : Db → Result String StorefrontPaymentMethod × Db
  unfolding enable_method
  enable_members db =
      elim (scalar_one_or_none (where_rows (enabled_of tenant_id r.provider) db.providers)) [
        | err m ↦ (err m, db)
        | ok none ↦ (err "Provider not enabled for this tenant", db)
        | ok (some p) ↦
            let (answer, ms) = enable_method db.methods in (answer, record db { methods = ms })
      ]

  -- `.value` of the provider's name raises before anything is written.
  unfoldable pub enable_storefront_method :
      EnumFields → Db → Result String StorefrontPaymentMethod × Db
  unfolding with_members enable_members
  enable_storefront_method e = with_members e enable_members

-- A number under `if n and …` or `n or …`: zero counts as missing.
unfoldable pub nonzero : Option ℕ → Option ℕ
nonzero none = none
nonzero (some n) = if n == 0 then none else some n

-- The two checks of the conditions on the cart's amount.
unfoldable pub within : ℕ → Conditions → Bool
unfolding nonzero
within amount c =
    elim (nonzero c.min_cart) [ none ↦ true | some lo ↦ not (ltb amount lo) ]
    && elim (nonzero c.max_cart) [ none ↦ true | some hi ↦ not (ltb hi amount) ]

-- The ON clause that joins a method with its tenant's provider.
unfoldable pub joins : StorefrontPaymentMethod → TenantPaymentProvider → Bool
unfolding is_of
joins m p = is_of m.tenant_id m.provider p

-- The rows of a join that pass the WHERE clause.
unfoldable pub join {ℓ κ} :
    {A : Type ℓ} {B : Type κ} → (A → B → Bool) → (A × B → Bool) → List A → List B → List (A × B)
unfolding where_rows
join on passes [] bs = []
join on passes (a ∷ rest) bs =
    where_rows passes (map (λ b. (a, b)) (where_rows (on a) bs)) ++ join on passes rest bs

unfoldable pub offered : ℕ → StorefrontPaymentMethod × TenantPaymentProvider → Bool
offered storefront_id (m, p) = (m.storefront_id == storefront_id && m.is_enabled) && p.is_enabled

pub record PaymentMethodInfo : Type 0 where
  pub provider : String
  pub name : String
  pub display_name : Option String
  pub display_description : Option String
  pub logo_url : Option String
  pub kind : String
  pub min_amount : ℕ
  pub max_amount : ℕ
  pub supports_refund : Bool
  pub requires_redirect : Bool
  pub display_order : ℕ

unfoldable pub method_row : StorefrontPaymentMethod → MethodInfo → PaymentMethodInfo
unfolding or_text nonzero
method_row m info = record {
  provider = m.provider;
  name = info.name;
  display_name = or_text m.display_name (some info.display_name);
  display_description = m.display_description;
  logo_url = info.logo_url;
  kind = info.kind;
  min_amount = or_value (nonzero m.conditions.min_cart) info.min_amount;
  max_amount = or_value (nonzero m.conditions.max_cart) info.max_amount;
  supports_refund = info.supports_refund;
  requires_redirect = info.requires_redirect;
  display_order = m.display_order;
}

-- The loop over the joined rows.
unfoldable pub collect :
    Codec
    → ℕ
    → List (StorefrontPaymentMethod × TenantPaymentProvider)
    → Result String (List PaymentMethodInfo)
unfolding within method_row get_provider_instance
collect c amount [] = ok []
collect c amount ((m, p) ∷ rest) =
    let more = collect c amount rest in
    if within amount m.conditions
    then elim (get_provider_instance c p) [
      | err e ↦ err e
      | ok i ↦ elim more [ err e ↦ err e | ok rows ↦ ok (method_row m i.info ∷ rows) ]
    ]
    else more

unfoldable pub insert : PaymentMethodInfo → List PaymentMethodInfo → List PaymentMethodInfo
insert x [] = x ∷ []
insert x (y ∷ ys) =
    let rest = insert x ys in if leb x.display_order y.display_order then x ∷ y ∷ ys else y ∷ rest

-- `sort(key=…)`, which is stable.
unfoldable pub sort : List PaymentMethodInfo → List PaymentMethodInfo
unfolding insert
sort [] = []
sort (x ∷ xs) = insert x (sort xs)

unfoldable pub get_available_payment_methods :
    Codec → ℕ → ℕ → Db → Result String (List PaymentMethodInfo)
unfolding join offered joins collect sort
get_available_payment_methods c storefront_id amount db = do
  rows ← collect c amount (join joins (offered storefront_id) db.methods db.providers)
  ok (sort rows)
