-- ===== src/Payments/Service/Storefront/Keys.antt =====
-- The keys of the table of methods: the id, and the storefront with the provider's name.
use vinc_api.Base.{
  ℕ, ◌≤◌, ◌≡◌, refl, String, string_eq, nat_eq, ◌==◌, ==_refl, ==_sound, Bool, true, List, [], ◌∷◌,
  length, where_rows, only_row, length-where_rows-update_rows, length-where_rows-snoc, few_rows,
  inl, inr, ok, arith,
}
use vinc_api.Payments.Model.{StorefrontPaymentMethod}
use vinc_api.Payments.Service.Storefront.{
  EnableStorefrontMethodRequest, is_for, save_method, enable_method,
}

abbrev pub method_id : ℕ → StorefrontPaymentMethod → Bool
method_id i m = m.id == i

-- At most one row has an id, and at most one a storefront and a name.
pub record IsMethodKeyed (ms : List StorefrontPaymentMethod) : Type 0 where
  pub one_id : (i : ℕ) → length (where_rows (method_id i) ms) ≤ 1
  pub one_method : (s : ℕ) (n : String) → length (where_rows (is_for s n) ms) ≤ 1

is_for_sound :
    (s t : ℕ) (n k : String) (m : StorefrontPaymentMethod)
    → m.storefront_id ≡ t
    → m.provider ≡ k
    → is_for s n m ≡ true
    → (t ≡ s) × (k ≡ n)
unfolding is_for
is_for_sound s t n k m et ek h = ground (arith, ==_sound m.storefront_id s, ==_sound m.provider n)

-- A row that a query found alone, written anew with its id, its storefront and its name.
save_method-IsMethodKeyed :
    (ms : List StorefrontPaymentMethod)
    → IsMethodKeyed ms
    → (q : StorefrontPaymentMethod → Bool) (old new : StorefrontPaymentMethod)
    → where_rows q ms ≡ old ∷ []
    → new.id ≡ old.id
    → new.storefront_id ≡ old.storefront_id
    → new.provider ≡ old.provider
    → IsMethodKeyed (save_method new ms)
unfolding save_method is_for
save_method-IsMethodKeyed ms keyed q old new found same_id same_storefront same_name =
    let only =
      only_row (method_id new.id) q ms old [] found (rw same_id (==_refl old.id))
        (keyed.one_id new.id) in
    record {
      one_id = λ i.
          rw
            (length-where_rows-update_rows (method_id new.id) (method_id i) old new ms only
              (rw same_id refl))
            (keyed.one_id i);
      one_method = λ s n.
          rw
            (length-where_rows-update_rows (method_id new.id) (is_for s n) old new ms only
              (rw (same_storefront, same_name) refl))
            (keyed.one_method s n);
    }

module _ (new_id now storefront_id tenant_id : ℕ) (r : EnableStorefrontMethodRequest)
    (ms : List StorefrontPaymentMethod) (keyed : IsMethodKeyed ms)
    (fresh : length (where_rows (method_id new_id) ms) ≡ 0) where
  -- Over unique keys a method is enabled in any case, and the keys stay unique.
  pub enable_method-IsMethodKeyed :
      (m : StorefrontPaymentMethod) × ((enable_method new_id now storefront_id tenant_id r ms).0
        ≡ ok m)
      × IsMethodKeyed (enable_method new_id now storefront_id tenant_id r ms).1
  unfolding enable_method save_method
  enable_method-IsMethodKeyed =
      elim (few_rows (where_rows (is_for storefront_id r.provider) ms)
        (keyed.one_method storefront_id r.provider)) [
          | inl none_yet ↦
              rw (enable_method, none_yet)
                (
                  _,
                  refl,
                  record {
                    one_id = λ i.
                        length-where_rows-snoc (method_id i) ms _
                          (λ e. rw (← ==_sound new_id i e) fresh) (keyed.one_id i);
                    one_method = λ s n.
                        length-where_rows-snoc (is_for s n) ms _
                          (λ e.
                            let (es, en) =
                              is_for_sound s storefront_id n r.provider _ refl refl e in
                            rw (← es, ← en, none_yet) refl)
                          (keyed.one_method s n);
                  },
                )
          | inr (old, found) ↦
              rw (enable_method, found)
                (
                  _,
                  refl,
                  save_method-IsMethodKeyed ms keyed (is_for storefront_id r.provider) old _ found
                      refl refl refl,
                )
        ]
