-- ===== src/Users/Accounts/Created.antt =====
-- What `create_user` of modules/users/service.py writes.
use vinc_api.Base.{
  ◌≡◌, refl, sym, ap, ◌∙◌, subst, ℕ, String, string_eq, nat_eq, option_eq, ◌==◌, true, Option, none,
  some, [], ◌∷◌, ◌++◌, ok, arith, length, map, where_rows, any, contains, Bool-cases, Option-cases,
  Result-cases, inl, inr, scalar_one_or_none, scalar-none,
}
use vinc_api.Users.Model.{User, Store, UserStatus, LinkType, LinkStatus, Link}
use vinc_api.Users.Roles.{canonicalize_role, allowed_roles}
use vinc_api.Users.Roles.Canonical.{canonicalize_role-inverse}
use vinc_api.Users.Accounts.Keycloak.{Admin}
use vinc_api.Users.Accounts.Contexts.{MembershipContext, build_context_for_create}
use vinc_api.Users.Accounts.Service.{
  Accounts, UserCreateRequest, requested_role, resolve_role, is_persistable, provision,
  kc_id_is_free, new_user, with_user, customer_links, address_links, supplier_links,
  persist_membership, finish_create, create_user,
}
use vinc_api.Permissions.{UuidLib, MembershipDoc}

pub resolve_role-ok :
    (role : Option String) (doc : Option MembershipDoc) (r : String)
    → resolve_role role doc ≡ ok r
    → contains r allowed_roles ≡ true
unfolding resolve_role
resolve_role-ok role doc r h = elim (Result-cases (canonicalize_role (requested_role role doc))) [
  | inr (m, e) ↦ absurd (ground arith)
  | inl (none, e) ↦ absurd (ground arith)
  | inl (some q, e) ↦
      let same : q ≡ r = ground arith in
      let (_, _, member, _) = canonicalize_role-inverse (requested_role role doc) q e in
      subst (λ t. contains t allowed_roles ≡ true) same member
]

pub persist_membership-store :
    (lib : UuidLib) (u : User) (doc : Option MembershipDoc) (role : String) (a a' : Accounts)
    → persist_membership lib u doc role a ≡ ok a'
    → a.store ≡ a'.store
unfolding persist_membership
persist_membership-store lib u none role a a' h = ground arith
persist_membership-store lib u (some doc) role a a' h = elim (Option-cases a.memberships) [
  | inl n ↦ absurd (ground arith)
  | inr (docs, e) ↦ ground arith
]

module _ (lib : UuidLib) (admin : Option Admin) (new_id now : ℕ) (r : UserCreateRequest)
    (supplier_id : Option ℕ) where
  finish_create-ok :
      (c : MembershipContext) (role : String) (a a' : Accounts) (u : User)
      → finish_create lib admin new_id now r supplier_id c role a ≡ ok (u, a')
      → (kc : Option String) × (u ≡ new_user new_id r supplier_id role kc)
        × (kc_id_is_free kc new_id a.store.users ≡ true)
        × (a'.store ≡ (with_user now (new_user new_id r supplier_id role kc) c a).store)
  unfolding finish_create
  finish_create-ok c role a a' u h = elim (Bool-cases (is_persistable a.store supplier_id c)) [
    | inr n ↦ absurd (ground arith)
    | inl y ↦ elim (Result-cases (provision admin r c role)) [
      | inr (m, e) ↦ absurd (ground arith)
      | inl (kc, e) ↦ elim (Bool-cases (kc_id_is_free kc new_id a.store.users)) [
        | inr n ↦ absurd (ground arith)
        | inl free ↦
            let v = new_user new_id r supplier_id role kc in
            elim (Result-cases
              (persist_membership lib v c.membership_doc role (with_user now v c a))) [
                | inr (m, f) ↦ absurd (ground arith)
                | inl (b, f) ↦
                    let same : u ≡ v = ground arith in
                    let rows : b ≡ a' = ground arith in
                    let kept =
                      persist_membership-store lib v c.membership_doc role (with_user now v c a) b
                        f in
                    (kc, same, free, ap (λ t. t.store) (sym rows) ∙ sym kept)
              ]
      ]
    ]
  ]

-- An active link that was made now, without notes.
abbrev pub granted : ℕ → ℕ → LinkType → ℕ → String → Link
granted now user_id t target role = record {
  link_type = t;
  user_id = user_id;
  target_id = target;
  role = role;
  status = LinkStatus.active;
  is_active = true;
  notes = none;
  updated_at = now;
}

-- What is in the table after a user was created, and what it holds of the request.
unfoldable pub IsCreated :
    UuidLib → ℕ → ℕ → UserCreateRequest → Option ℕ → Store → User → Store → Type 0
unfolding kc_id_is_free any
IsCreated lib new_id now r supplier_id s u s' =
    (c : MembershipContext) × (build_context_for_create lib s r.memberships r.customers r.suppliers
      ≡ ok c)
    × (contains u.role allowed_roles ≡ true)
    × ((u.id ≡ new_id)
        × (u.email ≡ r.email)
        × (u.name ≡ r.name)
        × (u.status ≡ UserStatus.invited)
        × (u.auth_provider ≡ "keycloak")
        × (u.supplier_id ≡ supplier_id))
    × (length (where_rows (λ x. x.email == u.email) s.users) ≡ 0)
    × (kc_id_is_free u.kc_user_id u.id s.users ≡ true)
    × (s'.users ≡ s.users ++ (u ∷ []))
    × (s'.links
        ≡ s.links
          ++ (map (λ i. granted now u.id LinkType.customer i "buyer") c.customer_ids
              ++ (map (λ i. granted now u.id LinkType.address i "buyer") c.address_ids
                  ++ map (λ x. granted now u.id LinkType.supplier x.0 x.1) c.supplier_links)))

-- `create_user`, if it returns, adds one user at the end of the table, with the request's e-mail
-- address, which no user had, an allowed role, the status invited and an id in Keycloak that no
-- other user has, and it adds exactly the links that the request's assignments resolve to.
pub create_user-IsCreated :
    (lib : UuidLib) (admin : Option Admin) (new_id now : ℕ) (r : UserCreateRequest)
    (supplier_id : Option ℕ) (a a' : Accounts) (u : User)
    → create_user lib admin new_id now r supplier_id a ≡ ok (u, a')
    → IsCreated lib new_id now r supplier_id a.store u a'.store
unfolding create_user IsCreated new_user with_user customer_links address_links supplier_links
create_user-IsCreated lib admin new_id now r supplier_id a a' u h =
    elim (Result-cases
      (build_context_for_create lib a.store r.memberships r.customers r.suppliers)) [
        | inr (m, e) ↦ absurd (ground arith)
        | inl (c, e) ↦ elim (Result-cases (resolve_role r.role c.membership_doc)) [
          | inr (m, f) ↦ absurd (ground arith)
          | inl (role, f) ↦
              let same_email = where_rows (λ u. u.email == r.email) a.store.users in
              elim (Result-cases (scalar_one_or_none same_email)) [
                | inr (m, g) ↦ absurd (ground arith)
                | inl (some x, g) ↦ absurd (ground arith)
                | inl (none, g) ↦
                    let finish : finish_create lib admin new_id now r supplier_id c role a
                        ≡ ok (u, a') =
                      ground arith in
                    let (kc, same, free, rows) =
                      finish_create-ok lib admin new_id now r supplier_id c role a a' u finish in
                    let member = resolve_role-ok r.role c.membership_doc role f in
                    subst (λ t. IsCreated lib new_id now r supplier_id a.store t a'.store)
                      (sym same)
                      (
                        c,
                        e,
                        member,
                        (refl, refl, refl, refl, refl, refl),
                        scalar-none same_email g,
                        free,
                        ap (λ t. t.users) rows,
                        ap (λ t. t.links) rows,
                      )
              ]
        ]
      ]
