-- ===== src/Users/Accounts/Updated.antt =====
-- What `update_user` of modules/users/service.py writes.
use vinc_api.Base.{
  ◌≡◌, refl, sym, ap, ◌∙◌, subst, ℕ, string_eq, nat_eq, option_eq, ◌==◌, true, Option, none, some,
  [], ◌∷◌, ok, arith, where_rows, contains, Bool-cases, Option-cases, Result-cases, not,
  others-update_rows, found-update_rows, ==_refl, ==_sound, where_rows_passes, List, inl, inr,
  or_value, or_text, scalar_one_or_none, scalar-one,
}
use vinc_api.Users.Model.{User, link_type_eq, Link, Store}
use vinc_api.Users.Roles.{allowed_roles}
use vinc_api.Users.Accounts.Keycloak.{Admin}
use vinc_api.Users.Accounts.Lookups.{load_user_with_relations}
use vinc_api.Users.Accounts.Contexts.{MembershipContext, build_context_for_update}
use vinc_api.Users.Accounts.Created.{resolve_role-ok, persist_membership-store}
use vinc_api.Users.Accounts.Service.{
  Accounts, UserUpdateRequest, resolve_role, is_persistable, persist_membership, stored_doc,
}
use vinc_api.Users.Accounts.Updates.{assign_links, save_user, sync_keycloak, update_user}
use vinc_api.Permissions.Resolve.{load_membership_doc, MembershipStore, upsert_document}
use vinc_api.Permissions.{UuidLib, MembershipDoc}

load_user_with_relations-ok :
    (i : ℕ) (s : Store) (u : User)
    → load_user_with_relations i s ≡ ok u
    → where_rows (λ u. u.id == i) s.users ≡ u ∷ []
unfolding load_user_with_relations
load_user_with_relations-ok i s u h =
    elim (Result-cases (scalar_one_or_none (where_rows (λ u. u.id == i) s.users))) [
      | inr (m, e) ↦ absurd (ground arith)
      | inl (none, e) ↦ absurd (ground arith)
      | inl (some x, e) ↦
          let same : x ≡ u = ground arith in
          scalar-one (where_rows (λ u. u.id == i) s.users) x e ∙ ap (λ t. t ∷ []) same
    ]

-- Saving a row writes the one that a query by its id finds, and no other.
saved :
    (i : ℕ) (u v : User) (us : List User)
    → where_rows (λ x. x.id == i) us ≡ u ∷ []
    → v.id ≡ u.id
    → (where_rows (λ x. x.id == i) (save_user v us) ≡ v ∷ [])
      × (where_rows (λ x. not (x.id == i)) (save_user v us) ≡ where_rows (λ x. not (x.id == i)) us)
unfolding save_user
saved i u v us found kept =
    let key : v.id ≡ i =
      kept ∙ ==_sound u.id i (where_rows_passes (λ x. x.id == i) us u [] found) in
    let found' = rw (← key) at found in
    rw (← key) (
      found-update_rows (λ x. x.id == v.id) v (==_refl v.id) u us found',
      others-update_rows (λ x. x.id == v.id) v (==_refl v.id) us,
    )

-- The documents after the user's one was written, if there is one.
unfoldable pub written : UuidLib → User → Option MembershipDoc → MembershipStore → MembershipStore
unfolding upsert_document or_text
written lib u none docs = docs
written lib u (some doc) none = none
written lib u (some doc) (some docs) = some (
    upsert_document
      (record doc {
        user_key =
            or_value (or_text (or_text u.kc_user_id (some doc.user_key)) none) (lib.str u.id);
        default_role = or_text doc.default_role (some u.role);
      })
      docs)

persist_membership-written :
    (lib : UuidLib) (u : User) (doc : Option MembershipDoc) (a a' : Accounts)
    → persist_membership lib u doc u.role a ≡ ok a'
    → a'.memberships ≡ written lib u doc a.memberships
unfolding persist_membership written stored_doc
persist_membership-written lib u none a a' h = ground arith
persist_membership-written lib u (some doc) a a' h = elim (Option-cases a.memberships) [
  | inl n ↦ absurd (ground arith)
  | inr (docs, e) ↦ ground arith
]

-- What an update does to the tables.
unfoldable pub IsUpdated :
    UuidLib → (Link → Link → Link) → ℕ → ℕ → UserUpdateRequest → Accounts → User → Accounts → Type 0
unfolding save_user
IsUpdated lib switch now user_id r a u' a' =
    (u : User) × (c : MembershipContext) × (doc : Option MembershipDoc) × (where_rows
        (λ x. x.id == user_id) a.store.users
      ≡ u ∷ [])
    × (build_context_for_update lib a.store u
          (load_membership_doc (or_value (or_text u.kc_user_id none) (lib.str u.id)) a.memberships)
          r.memberships r.customers
        ≡ ok (c, doc))
    × (u' ≡ record u { role = u'.role })
    × (contains u'.role allowed_roles ≡ true)
    × (where_rows (λ x. x.id == user_id) a'.store.users ≡ u' ∷ [])
    × (where_rows (λ x. not (x.id == user_id)) a'.store.users
        ≡ where_rows (λ x. not (x.id == user_id)) a.store.users)
    × (a'.store ≡ record a.store {
      users = a'.store.users;
      links = assign_links lib switch now user_id c a.store.links;
    })
    × (a'.memberships ≡ written lib u' doc a.memberships)
    × (a'.store.users ≡ save_user u' a.store.users)

pub update_user-IsUpdated :
    (lib : UuidLib) (switch : Link → Link → Link) (now : ℕ) (admin : Option Admin) (user_id : ℕ)
    (r : UserUpdateRequest) (a a' : Accounts) (u' : User)
    → update_user lib switch now admin user_id r a ≡ ok (u', a')
    → IsUpdated lib switch now user_id r a u' a'
unfolding update_user IsUpdated
update_user-IsUpdated lib switch now admin user_id r a a' u' h =
    elim (Result-cases (load_user_with_relations user_id a.store)) [
      | inr (m, e) ↦ absurd (ground arith)
      | inl (u, e) ↦
          let stored =
            load_membership_doc (or_value (or_text u.kc_user_id none) (lib.str u.id))
              a.memberships in
          elim (Result-cases
            (build_context_for_update lib a.store u stored r.memberships r.customers)) [
              | inr (m, f) ↦ absurd (ground arith)
              | inl ((c, doc), f) ↦ elim (Result-cases (resolve_role r.role doc)) [
                | inr (m, g) ↦ absurd (ground arith)
                | inl (role, g) ↦ elim (Bool-cases (is_persistable a.store none c)) [
                  | inr n ↦ absurd (ground arith)
                  | inl y ↦
                      let v : User = record u { role = role } in
                      elim (Result-cases (sync_keycloak lib switch now admin v c)) [
                        | inr (m, k) ↦ absurd (ground arith)
                        | inl (_, k) ↦
                            let rows : Accounts = record a {
                              store = record a.store {
                                users = save_user v a.store.users;
                                links = assign_links lib switch now user_id c a.store.links;
                              };
                            } in
                            elim (Result-cases (persist_membership lib v doc role rows)) [
                              | inr (m, p) ↦ absurd (ground arith)
                              | inl (b, p) ↦
                                  let same : u' ≡ v = ground arith in
                                  let last : b ≡ a' = ground arith in
                                  let kept = persist_membership-store lib v doc role rows b p in
                                  let after : a'.store ≡ rows.store =
                                    ap (λ t. t.store) (sym last) ∙ sym kept in
                                  let users = ap (λ t. t.users) after in
                                  let found = load_user_with_relations-ok user_id a.store u e in
                                  let (one, others) = saved user_id u v a.store.users found refl in
                                  subst (λ t. IsUpdated lib switch now user_id r a t a') (sym same)
                                    (
                                      u,
                                      c,
                                      doc,
                                      found,
                                      f,
                                      refl,
                                      resolve_role-ok r.role doc role g,
                                      rw users one,
                                      rw users others,
                                      after
                                          ∙ ap
                                              (λ us. record a.store {
                                                users = us;
                                                links =
                                                    assign_links lib switch now user_id c
                                                      a.store.links;
                                              })
                                              (sym users),
                                      ap (λ t. t.memberships) (sym last)
                                          ∙ persist_membership-written lib v doc rows b p,
                                      users,
                                    )
                            ]
                      ]
                ]
              ]
            ]
    ]
