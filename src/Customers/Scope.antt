-- ===== src/Customers/Scope.antt =====
-- What the routes of customers give to a caller who is no super admin.
use vinc_api.Base.{
  ◌≡◌, refl, sym, ap, ◌∙◌, subst, ℕ, String, nat_eq, ◌==◌, ==_sound, Bool, true, false, not, ◌&&◌,
  ◌||◌, Option, none, some, List, [], ◌∷◌, map, ok, arith, or_value, scalar_one_or_none, scalar-one,
  where_rows, any, all, contains, string_eq, All, all-All, All-map, All-keys, Bool-cases,
  Option-cases, Result-cases, inl, inr,
}
use vinc_api.Users.Model.{Customer, LinkType, link_type_eq, Store}
use vinc_api.Users.Roles.{require_roles}
use vinc_api.Users.Accounts.Lookups.{or_else}
use vinc_api.Customers.{
  Queries, CustomerDetailResponse, list_customers, get_customer, delete_customer, passes_search,
  serialize_customer, is_link_of,
}
use vinc_api.Customers.Routes.{
  Caller, admin_roles, is_super_admin, has_supplier_level_access, limit, get_tenant_supplier_id,
  has_active_link, is_allowed_for_supplier_team, require_tenant_scope, ensure_customer_scope,
  scoped_customer, list_customers_endpoint, delete_customer_endpoint,
}
use vinc_api.Permissions.{UuidLib}

any-where_rows-not :
    {A : Type 0} (p : A → Bool) (xs : List A) → any p (where_rows (λ x. not (p x)) xs) ≡ false
unfolding any where_rows
any-where_rows-not p [] = refl
any-where_rows-not p (x ∷ xs) = elim (Bool-cases (p x)) [
  | inl e ↦ rw e (any-where_rows-not p xs)
  | inr e ↦ rw e (rw e (any-where_rows-not p xs))
]

module _ (lib : UuidLib) (caller : Caller) (s : Store) where
  -- The request names the supplier, to which the caller has an active link.
  unfoldable pub ActsFor : ℕ → Type 0
  ActsFor p =
      (get_tenant_supplier_id lib caller s ≡ ok (some p)) × (has_active_link lib caller s p ≡ true)

  require_tenant_scope-ActsFor :
      is_super_admin caller ≡ false
      → (t : Option ℕ) → require_tenant_scope lib caller s ≡ ok t
      → (p : ℕ) × (t ≡ some p) × ActsFor p
  unfolding require_tenant_scope is_allowed_for_supplier_team ActsFor is_super_admin
  require_tenant_scope-ActsFor plain t h =
      elim (Result-cases (get_tenant_supplier_id lib caller s)) [
        | inr (m, e) ↦ absurd (ground arith)
        | inl (none, e) ↦ absurd (ground arith)
        | inl (some p, e) ↦ elim (Option-cases caller.user_role) [
          | inl n ↦ absurd (ground arith)
          | inr (r, f) ↦ elim (Bool-cases (has_active_link lib caller s p)) [
            | inr n ↦ absurd (ground arith)
            | inl y ↦ (p, ground arith, (e, y))
          ]
        ]
      ]

  get_customer-ok :
      (i : ℕ) (allowed : Option (List String)) (is_admin : Bool) (c : Customer)
      → get_customer lib i allowed is_admin s ≡ ok c
      → where_rows (λ x. x.id == i) s.customers ≡ c ∷ []
  unfolding get_customer
  get_customer-ok i allowed is_admin c h =
      let found = where_rows (λ x. x.id == i) s.customers in
      elim (Result-cases (scalar_one_or_none found)) [
        | inr (m, e) ↦ absurd (ground arith)
        | inl (none, e) ↦ absurd (ground arith)
        | inl (some x, e) ↦
            elim (Bool-cases (is_admin || contains (lib.str x.id) (or_value allowed []))) [
              | inr n ↦ absurd (ground arith)
              | inl y ↦
                  let same : x ≡ c = ground arith in scalar-one found x e ∙ ap (λ t. t ∷ []) same
            ]
      ]

  scoped_customer-ActsFor :
      is_super_admin caller ≡ false
      → (i : ℕ) (c : Customer) → scoped_customer lib caller s i ≡ ok c
      → (where_rows (λ x. x.id == i) s.customers ≡ c ∷ []) × ActsFor c.supplier_id
  unfolding scoped_customer ensure_customer_scope
  scoped_customer-ActsFor plain i c h = elim (Result-cases (require_tenant_scope lib caller s)) [
    | inr (m, e) ↦ absurd (ground arith)
    | inl (none, e) ↦ let (p, named, acts) = require_tenant_scope-ActsFor plain none e in absurd cc
    | inl (some t, e) ↦
        let (p, named, acts) = require_tenant_scope-ActsFor plain (some t) e in
        let allowed = limit caller caller.allowed_customers in
        elim (Result-cases (get_customer lib i allowed (has_supplier_level_access caller) s)) [
          | inr (m, f) ↦ absurd (ground arith)
          | inl (x, f) ↦ elim (Bool-cases (x.supplier_id == t)) [
            | inr n ↦ absurd (ground arith)
            | inl y ↦
                let same : x ≡ c = ground arith in
                let key : t ≡ c.supplier_id =
                  sym (==_sound x.supplier_id t y) ∙ ap (λ t. t.supplier_id) same in
                let tenant : p ≡ t = ground arith in
                (
                  get_customer-ok i allowed (has_supplier_level_access caller) x f
                      ∙ ap (λ t. t ∷ []) same,
                  subst ActsFor (tenant ∙ key) acts,
                )
          ]
        ]
  ]

-- The customer is taken from the table, and with it the addresses and the links that refer to it, and
-- nothing else.
abbrev pub Deleted : Customer → Store → Store → Type 0
Deleted c s s' =
    (s'.customers ≡ where_rows (λ x. not (x.id == c.id)) s.customers)
    × (s'.addresses ≡ where_rows (λ a. not (a.customer_id == c.id)) s.addresses)
    × (s'.links
        ≡ where_rows
            (λ l. not (
              l.link_type == LinkType.customer && l.target_id == c.id
              || l.link_type == LinkType.address
                && any (λ a. a.customer_id == c.id && a.id == l.target_id) s.addresses))
            s.links)
    × (s'.users ≡ s.users)
    × (s'.suppliers ≡ s.suppliers)

-- A caller who is no super admin and deletes a customer acts for the supplier of the customer: the
-- request names this supplier, and the caller has an active link to it. Then the customer is gone, the
-- other customers are as before, and no address and no link refers to the customer any more.
pub delete_customer_endpoint-ActsFor :
    (lib : UuidLib) (caller : Caller) (s s' : Store) (i : ℕ)
    → is_super_admin caller ≡ false
    → delete_customer_endpoint lib caller s i ≡ ok s'
    → (c : Customer) × (where_rows (λ x. x.id == i) s.customers ≡ c ∷ [])
      × ActsFor lib caller s c.supplier_id
      × Deleted c s s'
      × (any (λ x. x.id == c.id) s'.customers ≡ false)
      × (any (λ a. a.customer_id == c.id) s'.addresses ≡ false)
      × (any (is_link_of c s) s'.links ≡ false)
unfolding delete_customer_endpoint delete_customer is_link_of
delete_customer_endpoint-ActsFor lib caller s s' i plain h =
    elim (Result-cases (require_roles admin_roles caller.user_role)) [
      | inr (m, e) ↦ absurd (ground arith)
      | inl (r, e) ↦ elim (Result-cases (scoped_customer lib caller s i)) [
        | inr (m, f) ↦ absurd (ground arith)
        | inl (c, f) ↦
            let (one, acts) = scoped_customer-ActsFor lib caller s plain i c f in
            let rows : delete_customer c s ≡ s' = ground arith in
            subst
              (λ t.
                (c : Customer) × (where_rows (λ x. x.id == i) s.customers ≡ c ∷ [])
                × ActsFor lib caller s c.supplier_id
                × Deleted c s t
                × (any (λ x. x.id == c.id) t.customers ≡ false)
                × (any (λ a. a.customer_id == c.id) t.addresses ≡ false)
                × (any (is_link_of c s) t.links ≡ false))
              rows
              (
                c,
                one,
                acts,
                (refl, refl, refl, refl, refl),
                any-where_rows-not (λ x. x.id == c.id) s.customers,
                any-where_rows-not (λ a. a.customer_id == c.id) s.addresses,
                any-where_rows-not (is_link_of c s) s.links,
              )
      ]
    ]

-- A sort keeps what all its rows have.
abbrev pub KeepsAll : (List Customer → List Customer) → Type 0
KeepsAll order =
    (p : Customer → Bool) (xs : List Customer) → all p xs ≡ true → all p (order xs) ≡ true

all-where_rows :
    {A : Type 0} (p q : A → Bool)
    → ((x : A) → p x ≡ true → q x ≡ true)
    → (xs : List A) → all q (where_rows p xs) ≡ true
unfolding all where_rows
all-where_rows p q h [] = refl
all-where_rows p q h (x ∷ xs) = elim (Bool-cases (p x)) [
  | inl e ↦ rw e (rw (h x e) (all-where_rows p q h xs))
  | inr e ↦ rw e (all-where_rows p q h xs)
]

module _ (lib : UuidLib) (q : Queries) (s : Store) (keeps : KeepsAll q.by_erp) where
  list_customers-supplier :
      (include_inactive : Bool) (p : ℕ) (searched : Option String) (allowed : Option (List String))
      (is_admin : Bool)
      → all
          (λ c. c.supplier_id == p)
          (list_customers lib q include_inactive (some p) searched allowed is_admin s)
        ≡ true
  unfolding list_customers
  list_customers-supplier include_inactive p searched allowed is_admin =
      let test : Customer → Bool = λ c.
        c.supplier_id == p && ((include_inactive || c.is_active) && passes_search q searched c) in
      let rows =
        keeps (λ c. c.supplier_id == p) (where_rows test s.customers)
          (all-where_rows test (λ c. c.supplier_id == p) (λ c h. ground arith) s.customers) in
      elim (Bool-cases is_admin) [ inl e ↦ rw e rows | inr e ↦ rw e rows ]

  -- A caller who is no super admin and gets a list of customers acts for the supplier that the
  -- request names as its tenant, with an active link; but the customers that are listed have the
  -- supplier that the request asks for, whichever it is, and the tenant's only if it asks for none.
  -- The sort keeps what all its rows have.
  pub list_customers_endpoint-ActsFor :
      (caller : Caller) (include_inactive include_addresses : Bool) (asked : Option ℕ)
      (searched : Option String) (rs : List CustomerDetailResponse)
      → is_super_admin caller ≡ false
      → list_customers_endpoint lib caller s q include_inactive include_addresses asked searched
        ≡ ok rs
      → (t : ℕ) × ActsFor lib caller s t × All (λ r. r.customer.supplier_id ≡ or_value asked t) rs
  unfolding list_customers_endpoint serialize_customer
  list_customers_endpoint-ActsFor caller include_inactive include_addresses asked searched rs plain
        h =
      let shown =
        serialize_customer lib q (limit caller caller.allowed_addresses)
          (include_addresses || has_supplier_level_access caller) s in
      elim (Result-cases (require_tenant_scope lib caller s)) [
        | inr (m, e) ↦ absurd (ground arith)
        | inl (t, e) ↦
            let (p, named, acts) = require_tenant_scope-ActsFor lib caller s plain t e in
            let rows =
              list_customers lib q include_inactive (or_else asked t) searched
                (limit caller caller.allowed_customers) (has_supplier_level_access caller) s in
            let same : map shown rows ≡ rs = ground arith in
            let scope : or_else asked t ≡ some (or_value asked p) = elim (Option-cases asked) [
              | inl n ↦ rw n named
              | inr (k, n) ↦ rw n refl
            ] in
            let every : all (λ c. c.supplier_id == or_value asked p) rows ≡ true = rw scope (
              list_customers-supplier include_inactive (or_value asked p) searched
                (limit caller caller.allowed_customers) (has_supplier_level_access caller)) in
            let each =
              All-map (λ c h. ==_sound c.supplier_id (or_value asked p) h) rows
                (all-All rows (λ c. c.supplier_id == or_value asked p) every) in
            (
              p,
              acts,
              subst (All (λ r. r.customer.supplier_id ≡ or_value asked p)) same
                  (All-keys _ shown rows each),
            )
      ]
