-- ===== src/Users/Accounts/Returned.antt =====
-- Where `create_user` of modules/users/service.py returns.
use vinc_api.Base.{
  ◌≡◌, refl, subst, ℕ, String, string_eq, nat_eq, option_eq, ◌==◌, any, Bool, true, Option, none,
  some, List, [], ◌∷◌, map, ok, arith, where_rows, List-cases, Result-cases, inl, inr, no_repeat,
}
use vinc_api.Users.Model.{Store, User}
use vinc_api.Users.Roles.{canonicalize_role}
use vinc_api.Users.Roles.Canonical.{canonicalize_role-inverse}
use vinc_api.Users.Accounts.Lookups.{
  CustomerSelection, address_key, resolve_customer_selections, derive_supplier,
}
use vinc_api.Users.Accounts.Contexts.{
  MembershipContext, flatten, selection_key, context_from_customers, base_context_for_create,
  build_context_for_create, process_supplier_selections,
}
use vinc_api.Users.Accounts.Selections.{resolve_customer_selections_lem}
use vinc_api.Users.Accounts.Service.{
  Accounts, UserCreateRequest, requested_role, resolve_role, is_persistable, provision,
  kc_id_is_free, new_user, with_user, persist_membership, finish_create, create_user,
}
use vinc_api.Permissions.{UuidLib, MembershipDoc}

-- A user's supplier, if any, is in the table.
abbrev pub is_known : Store → Option ℕ → Bool
is_known s none = true
is_known s (some i) = any (λ p. p.id == i) s.suppliers

module _ (lib : UuidLib) (s : Store)
    (distinct : no_repeat (map address_key s.addresses) ≡ true) where
  context_from_customers-once :
      (xs : List CustomerSelection) (c : MembershipContext)
      → context_from_customers lib s xs ≡ ok c
      → (no_repeat c.customer_ids ≡ true)
        × (no_repeat c.address_ids ≡ true)
        × (c.supplier_links ≡ [])
        × (c.membership_doc ≡ none)
  unfolding context_from_customers
  context_from_customers-once xs c h = elim (Result-cases (resolve_customer_selections lib s xs)) [
    | inr (m, e) ↦ absurd (ground arith)
    | inl (rs, e) ↦ elim (List-cases (flatten rs)) [
      | inl n ↦ absurd (ground arith)
      | inr (a, rest, f) ↦ elim (Result-cases (derive_supplier lib s rs)) [
        | inr (m, d) ↦ absurd (ground arith)
        | inl (p, d) ↦
            let (_, one, each) = resolve_customer_selections_lem lib s xs rs distinct e in
            let ids : map selection_key rs ≡ c.customer_ids = ground arith in
            let spots : map address_key (flatten rs) ≡ c.address_ids = ground arith in
            (rw (← ids) one, rw (← spots) each, ground arith, ground arith)
      ]
    ]
  ]

  known_passes :
      (supplier_id : Option ℕ) (b : MembershipContext)
      → is_known s supplier_id ≡ true
      → no_repeat b.customer_ids ≡ true
      → no_repeat b.address_ids ≡ true
      → is_persistable s supplier_id (record b { supplier_links = [] }) ≡ true
  unfolding is_persistable no_repeat any
  known_passes none b k p q = rw (p, q) refl
  known_passes (some i) b k p q = rw (k, p, q) refl

  -- A request that gives customers alone never meets a constraint of the database.
  context-is_persistable :
      (supplier_id : Option ℕ) (xs : List CustomerSelection) (c : MembershipContext)
      → is_known s supplier_id ≡ true
      → build_context_for_create lib s none xs [] ≡ ok c
      → (is_persistable s supplier_id c ≡ true) × (c.membership_doc ≡ none)
  unfolding build_context_for_create base_context_for_create process_supplier_selections
      is_persistable no_repeat
  context-is_persistable supplier_id [] c k h = absurd (ground arith)
  context-is_persistable supplier_id (x ∷ rest) c k h =
      elim (Result-cases (context_from_customers lib s (x ∷ rest))) [
        | inr (m, e) ↦ absurd (ground arith)
        | inl (b, e) ↦
            let same : record b { supplier_links = [] } ≡ c = ground arith in
            let (customers, addresses, _, doc) = context_from_customers-once (x ∷ rest) b e in
            subst (λ t. (is_persistable s supplier_id t ≡ true) × (t.membership_doc ≡ none)) same
              (known_passes supplier_id b k customers addresses, doc)
      ]

resolve_role-given :
    (role : Option String) (doc : Option MembershipDoc) (r : String)
    → canonicalize_role role ≡ ok (some r)
    → resolve_role role doc ≡ ok r
unfolding resolve_role requested_role
resolve_role-given none doc r h = absurd (ground (arith, canonicalize_role-inverse none r h))
resolve_role-given (some x) doc r h = rw (h) refl

module _ (lib : UuidLib) (new_id now : ℕ) (r : UserCreateRequest) (supplier_id : Option ℕ)
    (a : Accounts) (c : MembershipContext) (role : String) where
  abbrev newcomer : User
  newcomer = new_user new_id r supplier_id role none

  finish_create-returns :
      is_persistable a.store supplier_id c ≡ true
      → c.membership_doc ≡ none
      → finish_create lib none new_id now r supplier_id c role a
        ≡ ok (newcomer, with_user now newcomer c a)
  unfolding finish_create provision kc_id_is_free persist_membership
  finish_create-returns fits doc = rw (fits, doc) refl

  -- A request with customers alone, whose customers resolve, whose role is allowed and whose e-mail
  -- address no user has, is never refused after these checks, whether the caller's supplier is given
  -- or none is: if the supplier that is given is in its table, the table of addresses has no key
  -- twice and Keycloak is not configured, `create_user` returns.
  pub create_user-returns :
      no_repeat (map address_key a.store.addresses) ≡ true
      → is_known a.store supplier_id ≡ true
      → r.memberships ≡ none
      → r.suppliers ≡ []
      → build_context_for_create lib a.store r.memberships r.customers r.suppliers ≡ ok c
      → canonicalize_role r.role ≡ ok (some role)
      → where_rows (λ u. u.email == r.email) a.store.users ≡ []
      → create_user lib none new_id now r supplier_id a ≡ ok (newcomer, with_user now newcomer c a)
  unfolding create_user
  create_user-returns distinct known no_documents no_suppliers built allowed unused =
      let plain : build_context_for_create lib a.store none r.customers [] ≡ ok c =
        subst (λ m. build_context_for_create lib a.store m r.customers [] ≡ ok c) no_documents
          (subst (λ p. build_context_for_create lib a.store r.memberships r.customers p ≡ ok c)
            no_suppliers built) in
      let (fits, doc) =
        context-is_persistable lib a.store distinct supplier_id r.customers c known plain in
      rw (built, resolve_role-given r.role c.membership_doc role allowed, unused)
        (finish_create-returns fits doc)
