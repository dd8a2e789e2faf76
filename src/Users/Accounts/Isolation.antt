-- ===== src/Users/Accounts/Isolation.antt =====
-- The customers that a user is assigned to are those of one supplier.
use vinc_api.Base.{
  ◌≡◌, refl, sym, ap, ◌∙◌, subst, ℕ, String, string_eq, nat_eq, ◌==◌, ==_sound, ==_refl, Bool, true,
  ◌&&◌, Option, some, List, [], ◌∷◌, map, ok, arith, ◌⊎◌, find, find_holds, where_rows, any, all,
  contains, All, IsWithin, List-cases, all-All, All-map, All-both, All-keys, find-IsWithin,
  where_rows-IsWithin, no_repeat, Bool-cases, Option-cases, Result-cases, inl, inr, given,
}
use vinc_api.Users.Model.{Customer, Supplier, Store}
use vinc_api.Users.Accounts.Lookups.{
  CustomerSelection, ResolvedCustomerSelection, address_key, customer_key, parse_all,
  derive_supplier, load_customers_by_ids, load_addresses_by_ids, resolve_customer_selections,
}
use vinc_api.Users.Accounts.Contexts.{
  flatten, selection_key, Memberships, SupplierSelection, MembershipContext, context_from_customers,
  context_from_memberships, base_context_for_create, build_context_for_create, scope_supplier,
  has_memberships, requested_doc, process_supplier_selections,
}
use vinc_api.Users.Accounts.Selections.{IsSelectable, resolve_customer_selections_lem}
use vinc_api.Permissions.{UuidLib, MembershipDoc, process_membership_scope}

-- A customer of the table, of the supplier.
unfoldable pub of_supplier : Store → ℕ → ℕ → Bool
unfolding any
of_supplier s p i = any (λ c. c.id == i && c.supplier_id == p) s.customers

-- Customers of one supplier, or no customers for a user of several suppliers.
unfoldable pub IsOfOneSupplier : Store → MembershipContext → Type 0
unfolding of_supplier any
IsOfOneSupplier s c =
    ((c.multi_tenant ≡ true) × (c.customer_ids ≡ []) × (c.address_ids ≡ []))
    ⊎ ((p : ℕ) × (any (λ x. x.id == p) s.suppliers ≡ true)
        × All (λ i. of_supplier s p i ≡ true) c.customer_ids)

module _ (lib : UuidLib) (s : Store) where
  within-of_supplier :
      (p : ℕ) (c : Customer)
      → IsWithin s.customers c
      → c.supplier_id ≡ p
      → of_supplier s p c.id ≡ true
  unfolding of_supplier IsWithin
  within-of_supplier p c w e =
      w (λ x. x.id == c.id && x.supplier_id == p) (rw (e, ==_refl c.id, ==_refl p) refl)

  IsSelectable-IsWithin :
      (r : ResolvedCustomerSelection) → IsSelectable s r → IsWithin s.customers r.customer
  unfolding IsSelectable
  IsSelectable-IsWithin r sel = sel.0

  derive_supplier-ok :
      (rs : List ResolvedCustomerSelection) (p : Supplier)
      → derive_supplier lib s rs ≡ ok p
      → (any (λ x. x.id == p.id) s.suppliers ≡ true) × All (λ r. r.customer.supplier_id ≡ p.id) rs
  unfolding derive_supplier IsWithin
  derive_supplier-ok [] p h = absurd cc
  derive_supplier-ok (r ∷ rs) p h =
      elim (Bool-cases (all (λ x. x.customer.supplier_id == r.customer.supplier_id) rs)) [
        | inr e ↦ absurd (ground arith)
        | inl e ↦ elim (Option-cases (find (λ p. p.id == r.customer.supplier_id) s.suppliers)) [
          | inl n ↦ absurd (ground arith)
          | inr (q, f) ↦
              let same : q ≡ p = ground arith in
              let f' : find (λ p. p.id == r.customer.supplier_id) s.suppliers ≡ some p =
                f ∙ ap some same in
              let key : p.id ≡ r.customer.supplier_id =
                ==_sound _ _ (find_holds (λ p. p.id == r.customer.supplier_id) s.suppliers p f') in
              (
                find-IsWithin _ s.suppliers p f' (λ x. x.id == p.id) (==_refl p.id),
                (sym key, All-map (λ x y. ==_sound _ _ y ∙ sym key) rs (all-All rs _ e)),
              )
        ]
      ]

  context_from_customers-IsOfOneSupplier :
      (xs : List CustomerSelection) (c : MembershipContext)
      → no_repeat (map address_key s.addresses) ≡ true
      → context_from_customers lib s xs ≡ ok c
      → IsOfOneSupplier s c
  unfolding context_from_customers IsOfOneSupplier
  context_from_customers-IsOfOneSupplier xs c distinct h =
      elim (Result-cases (resolve_customer_selections lib s xs)) [
        | inr (m, e) ↦ absurd (ground arith)
        | inl (rs, e) ↦ elim (List-cases (flatten rs)) [
          | inl n ↦ absurd (ground arith)
          | inr (a, rest, f) ↦ elim (Result-cases (derive_supplier lib s rs)) [
            | inr (m, d) ↦ absurd (ground arith)
            | inl (p, d) ↦
                let (there, one) = derive_supplier-ok rs p d in
                let (sels, _, _) = resolve_customer_selections_lem lib s xs rs distinct e in
                let ids : map selection_key rs ≡ c.customer_ids = ground arith in
                let each =
                  All-map
                    (λ r (sel, q).
                      within-of_supplier p.id r.customer (IsSelectable-IsWithin r sel) q)
                    rs (All-both _ _ rs sels one) in
                inr (
                  p.id,
                  there,
                  subst (All (λ i. of_supplier s p.id i ≡ true)) ids
                      (All-keys _ selection_key rs each),
                )
          ]
        ]
      ]

  load_customers_by_ids-ok :
      (texts : List String) (p : ℕ) (rows : List Customer)
      → load_customers_by_ids lib s texts p ≡ ok rows
      → All (λ c. of_supplier s p c.id ≡ true) rows
  unfolding load_customers_by_ids
  load_customers_by_ids-ok texts p rows h =
      elim (Result-cases (parse_all lib "Invalid customer identifier in memberships" texts)) [
        | inr (m, e) ↦ absurd (ground arith)
        | inl (is, e) ↦
            let found = where_rows (λ c. contains c.id is) s.customers in
            elim (Bool-cases (all (λ i. contains i (map customer_key found)) is)) [
              | inr y ↦ absurd (ground arith)
              | inl y ↦ elim (Bool-cases (all (λ c. c.supplier_id == p) found)) [
                | inr z ↦ absurd (ground arith)
                | inl z ↦
                    let same : found ≡ rows = ground arith in
                    subst (All (λ c. of_supplier s p c.id ≡ true)) same (
                      All-map
                        (λ c ((w, _), q). within-of_supplier p c w (==_sound c.supplier_id p q))
                        found
                        (All-both _ _ found
                          (where_rows-IsWithin (λ c. contains c.id is) s.customers)
                          (all-All found (λ c. c.supplier_id == p) z)))
              ]
            ]
      ]

  scope_supplier-ok :
      (text : String) (p : ℕ)
      → scope_supplier lib s text ≡ ok p
      → any (λ x. x.id == p) s.suppliers ≡ true
  unfolding scope_supplier IsWithin
  scope_supplier-ok text p h = elim (Option-cases (given (some text))) [
    | inl n ↦ absurd (ground arith)
    | inr (t, e) ↦ elim (Option-cases (lib.parse t)) [
      | inl n ↦ absurd (ground arith)
      | inr (i, f) ↦ elim (Option-cases (find (λ p. p.id == i) s.suppliers)) [
        | inl n ↦ absurd (ground arith)
        | inr (y, g) ↦
            let same : i ≡ p = ground arith in
            subst (λ k. any (λ x. x.id == k) s.suppliers ≡ true) same
              (find-IsWithin (λ p. p.id == i) s.suppliers y g (λ p. p.id == i)
                (find_holds (λ p. p.id == i) s.suppliers y g))
      ]
    ]
  ]

  context_from_memberships-IsOfOneSupplier :
      (doc : MembershipDoc) (c : MembershipContext)
      → context_from_memberships lib s doc ≡ ok c
      → IsOfOneSupplier s c
  unfolding context_from_memberships IsOfOneSupplier
  context_from_memberships-IsOfOneSupplier doc c h =
      elim (Result-cases (
        process_membership_scope lib (record { customers = s.customers; addresses = s.addresses })
          doc)) [
            | inr (m, e) ↦ absurd (ground arith)
            | inl (scope, e) ↦ elim (Bool-cases scope.multi_tenant) [
              | inl y ↦ inl (ground arith, ground arith, ground arith)
              | inr n ↦ elim (Result-cases (scope_supplier lib s scope.supplier_id)) [
                | inr (m, f) ↦ absurd (ground arith)
                | inl (p, f) ↦
                    elim (Result-cases (load_customers_by_ids lib s scope.allowed_customer_ids p)) [
                      | inr (m, g) ↦ absurd (ground arith)
                      | inl (rows, g) ↦
                          elim (Result-cases
                            (load_addresses_by_ids lib s scope.allowed_address_ids p)) [
                              | inr (m, k) ↦ absurd (ground arith)
                              | inl (spots, k) ↦
                                  let ids : map customer_key rows ≡ c.customer_ids = ground arith in
                                  inr (
                                    p,
                                    scope_supplier-ok scope.supplier_id p f,
                                    subst (All (λ i. of_supplier s p i ≡ true)) ids (
                                        All-keys _ customer_key rows (
                                          load_customers_by_ids-ok scope.allowed_customer_ids p rows
                                            g)),
                                  )
                            ]
                    ]
              ]
            ]
          ]

  base_context_for_create-IsOfOneSupplier :
      (ms : Option Memberships) (xs : List CustomerSelection) (c : MembershipContext)
      → no_repeat (map address_key s.addresses) ≡ true
      → base_context_for_create lib s ms xs ≡ ok c
      → IsOfOneSupplier s c
  unfolding base_context_for_create
  base_context_for_create-IsOfOneSupplier ms xs c distinct h =
      elim (Option-cases (has_memberships lib s ms)) [
        | inr (m, e) ↦ elim (Result-cases (requested_doc lib s "" m)) [
          | inr (x, f) ↦ absurd (ground arith)
          | inl (doc, f) ↦ context_from_memberships-IsOfOneSupplier doc c (ground arith)
        ]
        | inl e ↦ elim (List-cases xs) [
          | inl n ↦ absurd (ground arith)
          | inr (x, rest, n) ↦
              context_from_customers-IsOfOneSupplier (x ∷ rest) c distinct (ground arith)
        ]
      ]

-- If the table of addresses has no key twice and the assignments of a new user are accepted, then
-- all the customers that they link the user to are in the table and have one supplier, which is in
-- the table, or the user is one of several suppliers and is linked to no customer and no address.
pub build_context_for_create-IsOfOneSupplier :
    (lib : UuidLib) (s : Store) (ms : Option Memberships) (xs : List CustomerSelection)
    (ps : List SupplierSelection) (c : MembershipContext)
    → no_repeat (map address_key s.addresses) ≡ true
    → build_context_for_create lib s ms xs ps ≡ ok c
    → IsOfOneSupplier s c
unfolding build_context_for_create IsOfOneSupplier
build_context_for_create-IsOfOneSupplier lib s ms xs ps c distinct h =
    elim (Result-cases (base_context_for_create lib s ms xs)) [
      | inr (m, e) ↦ absurd (ground arith)
      | inl (b, e) ↦ elim (Result-cases (process_supplier_selections lib s ps)) [
        | inr (m, f) ↦ absurd (ground arith)
        | inl (links, f) ↦
            let same : record b { supplier_links = links } ≡ c = ground arith in
            subst (IsOfOneSupplier s) same
              (base_context_for_create-IsOfOneSupplier lib s ms xs b distinct e)
      ]
    ]
