-- ===== src/Permissions/Resolved.antt =====
-- What a user's memberships allow for the active supplier, as `resolve_permissions` finds it.
use vinc_api.Base.{
  ℕ, ◌≡◌, ◌⊎◌, inl, inr, refl, sym, ◌∙◌, subst, String, string_eq, nat_eq, ◌==◌, ==_sound, Bool,
  true, ◌&&◌, Option, none, some, List, [], map, arith, any, contains, where_rows, Option-cases,
  IsWithin, find-IsWithin, find_holds,
}
use vinc_api.Users.Model.{Customer}
use vinc_api.Permissions.{MembershipEntry, MembershipDoc, Tables, UuidLib, safe_uuid}
use vinc_api.Permissions.Sets.{contains-add_all}
use vinc_api.Permissions.Resolve.{
  PermissionsContext, MembershipStore, load_membership_doc, select_membership_for_scope, roles_of,
  collect_from, parse_ids, customers_of_supplier, aggregate, resolve_permissions,
}
use vinc_api.Permissions.Collected.{
  nothing, allows_customer, allows_address, all_collected, no_customers, parse_ids-denoted,
  parse_ids-fails, any-find, contains-rows, IsCapable, caps_or_defaults-IsCapable,
}

-- Why a customer is allowed for a supplier: a row of the table, of the supplier, whose id some selected
-- entry allows; or an entry allows its text, and one allows a text that is no UUID.
pub data IsAllowed (lib : UuidLib) (t : Tables) (selected : List MembershipEntry) (supplier : ℕ)
    (x : String) : Type 0 where
  of_supplier :
      (c : Customer)
      → IsWithin t.customers c
      → c.supplier_id ≡ supplier
      → lib.str c.id ≡ x
      → (i : String) → lib.parse i ≡ some c.id
      → any (allows_customer lib t (some supplier) i) selected ≡ true
      → IsAllowed lib t selected supplier x
  unchecked :
      (i : String)
      → lib.parse i ≡ none
      → any (allows_customer lib t (some supplier) i) selected ≡ true
      → any (allows_customer lib t (some supplier) x) selected ≡ true
      → IsAllowed lib t selected supplier x

module _ (lib : UuidLib) (t : Tables) (selected : List MembershipEntry) (supplier : ℕ)
    (resellers : List String)
    (collected : (s : String)
      → contains s resellers ≡ any (allows_customer lib t (some supplier) s) selected)
    (x : String) where
  customers_of_supplier-IsAllowed :
      contains x (customers_of_supplier lib t (some supplier) resellers) ≡ true
      → IsAllowed lib t selected supplier x
  unfolding customers_of_supplier contains
  customers_of_supplier-IsAllowed h = elim (Option-cases (parse_ids lib t resellers)) [
    | inl q ↦
        let (i, m, p) = parse_ids-fails lib t resellers q in
        let h' : contains x resellers ≡ true = rw (customers_of_supplier, q) at h in
        unchecked i p (sym (collected i) ∙ m) (sym (collected x) ∙ h')
    | inr (ids, q) ↦
        let own : Customer → Bool = λ c. c.supplier_id == supplier && contains c.id ids in
        let ids_of = λ (c : Customer). lib.str c.id in
        let h' = rw (customers_of_supplier, q) at h in
        let p = contains-add_all x (map ids_of (where_rows own t.customers)) [] in
        let found = contains-rows ids_of own x t.customers in
        let (c, f) =
          any-find (λ c. own c && x == ids_of c) t.customers (ground (arith, p, found)) in
        let holds = find_holds (λ c. own c && x == ids_of c) t.customers c f in
        let is_x : ids_of c ≡ x = sym (==_sound x (ids_of c) (ground arith)) in
        let (i, m, d) = parse_ids-denoted lib t resellers ids c.id q (ground arith) in
        of_supplier c (find-IsWithin _ t.customers c f)
          (==_sound c.supplier_id supplier (ground arith)) is_x i d (sym (collected i) ∙ m)
  ]

module _ (lib : UuidLib) (t : Tables) (store : MembershipStore) (user_key : String)
    (active : Option String) where
  abbrev selected : MembershipDoc → List MembershipEntry
  selected doc = select_membership_for_scope doc.memberships active

  -- What the resolved permissions of a user's document are, for the active supplier.
  pub record IsResolved (doc : MembershipDoc) (ctx : PermissionsContext) : Type 0 where
    pub capabilities :
        IsCapable (selected doc) (roles_of (selected doc) doc.default_role) ctx.capabilities
    pub addresses :
        (x : String)
        → contains x ctx.allowed_address_ids
          ≡ any (allows_address lib t (safe_uuid lib t active) x) (selected doc)
    pub customers :
        (supplier : ℕ) (x : String)
        → safe_uuid lib t active ≡ some supplier
        → contains x ctx.allowed_reseller_account_ids ≡ true
        → IsAllowed lib t (selected doc) supplier x

  -- A user without a document may do nothing.
  pub record IsNothing (ctx : PermissionsContext) : Type 0 where
    pub capabilities : ctx.capabilities ≡ []
    pub addresses : ctx.allowed_address_ids ≡ []
    pub customers : ctx.allowed_reseller_account_ids ≡ []

  pub resolve_permissions_lem :
      let ctx = resolve_permissions lib t store user_key active in
      ((load_membership_doc user_key store ≡ none) × IsNothing ctx)
      ⊎ ((doc : MembershipDoc) × (load_membership_doc user_key store ≡ some doc)
          × IsResolved doc ctx)
  unfolding resolve_permissions aggregate contains customers_of_supplier
  resolve_permissions_lem = elim (Option-cases (load_membership_doc user_key store)) [
    | inl q ↦ inl (
      q,
      rw (resolve_permissions, q)
          (record {
            capabilities = refl;
            addresses = refl;
            customers = no_customers lib t (safe_uuid lib t active);
          }),
    )
    | inr (doc, q) ↦ inr (
      doc,
      q,
      let chosen = selected doc in
          let supplier = safe_uuid lib t active in
          rw (resolve_permissions, q)
            (record {
              capabilities =
                  caps_or_defaults-IsCapable chosen doc.default_role _
                    (λ c. (all_collected lib t supplier c chosen).0);
              addresses = λ x. (all_collected lib t supplier x chosen).2;
              customers = λ s x h m.
                  customers_of_supplier-IsAllowed lib t chosen s _
                    (λ i. (all_collected lib t (some s) i chosen).1) x
                    (subst
                      (λ a.
                        contains x (
                          customers_of_supplier lib t a
                            (collect_from lib t a chosen nothing).resellers)
                        ≡ true)
                      h m);
            }),
    )
  ]
