-- ===== src/Payments/Service/Providers/Keys.antt =====
-- The keys of the table of providers: the id, and the tenant with the provider's name.
use vinc_api.Base.{
  ℕ, ◌≤◌, ◌≡◌, refl, String, string_eq, nat_eq, ◌==◌, ==_refl, Bool, true, false, List, [], ◌∷◌,
  All, length, where_rows, only_row, where_rows_single, length-where_rows-update_rows,
  where_rows-update_rows_other, where_rows-update_rows_self,
}
use vinc_api.Payments.Model.{TenantPaymentProvider}
use vinc_api.Payments.Service.Providers.{is_of, save_provider}

abbrev pub has_id : ℕ → TenantPaymentProvider → Bool
has_id i p = p.id == i

-- At most one row has an id, and at most one a tenant and a name.
pub record IsKeyed (ps : List TenantPaymentProvider) : Type 0 where
  pub one_id : (i : ℕ) → length (where_rows (has_id i) ps) ≤ 1
  pub one_name : (t : ℕ) (n : String) → length (where_rows (is_of t n) ps) ≤ 1

-- A row that a query found alone, written anew with its id, its tenant and its name.
module _ (ps : List TenantPaymentProvider) (keyed : IsKeyed ps) (q : TenantPaymentProvider → Bool)
    (old new : TenantPaymentProvider) (found : where_rows q ps ≡ old ∷ [])
    (same_id : new.id ≡ old.id) (same_tenant : new.tenant_id ≡ old.tenant_id)
    (same_name : new.provider ≡ old.provider) where
  only_old : All (λ r. has_id new.id r ≡ true → r ≡ old) ps
  only_old =
      only_row (has_id new.id) q ps old [] found (rw same_id (==_refl old.id)) (keyed.one_id new.id)

  pub save_provider-IsKeyed : IsKeyed (save_provider new ps)
  unfolding save_provider is_of
  save_provider-IsKeyed = record {
    one_id = λ i.
        rw
          (length-where_rows-update_rows (has_id new.id) (has_id i) old new ps only_old
            (rw same_id refl))
          (keyed.one_id i);
    one_name = λ t n.
        rw
          (length-where_rows-update_rows (has_id new.id) (is_of t n) old new ps only_old
            (rw (same_tenant, same_name) refl))
          (keyed.one_name t n);
  }

  -- The row is found anew, and every query that passes neither form gives what it gave.
  pub save_provider_self :
      (t : ℕ) (n : String)
      → old.tenant_id ≡ t
      → old.provider ≡ n
      → where_rows (is_of t n) (save_provider new ps) ≡ new ∷ []
  unfolding save_provider is_of
  save_provider_self t n et en =
      where_rows-update_rows_self (has_id new.id) (is_of t n) old new ps only_old
        (rw same_id (==_refl old.id)) named (rw (same_tenant, same_name) named)
        (where_rows_single (is_of t n) q ps old found named (keyed.one_name t n))
    where
      named : is_of t n old ≡ true
      named = rw (et, en, ==_refl t, ==_refl n) refl

  pub save_provider_other :
      (t : ℕ) (n : String)
      → is_of t n old ≡ false
      → where_rows (is_of t n) (save_provider new ps) ≡ where_rows (is_of t n) ps
  unfolding save_provider is_of
  save_provider_other t n e =
      where_rows-update_rows_other (has_id new.id) (is_of t n) old new ps only_old e
        (rw (same_tenant, same_name) e)
