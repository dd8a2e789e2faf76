-- ===== src/Users/Accounts/Updates.antt =====
-- modules/users/service.py: changing a user that is there. `switch old new` is what the database
-- toolkit makes of a new link whose key an old link of the user has.
use vinc_api.Base.{
  ℕ, String, string_eq, nat_eq, option_eq, ◌==◌, Bool, true, false, not, ◌&&◌, Option, none, some,
  List, [], ◌∷◌, ◌++◌, Result, ok, err, ◌>>=◌, if◌then◌else◌, where_rows, update_rows, find,
  scalar_one_or_none, given, or_text, or_value,
}
use vinc_api.Users.Model.{User, UserStatus, user_status_eq, LinkType, link_type_eq, Link, Store}
use vinc_api.Users.Links.{is_link}
use vinc_api.Users.Accounts.Keycloak.{Admin, set_user_attributes, enable_user, disable_user}
use vinc_api.Users.Accounts.Lookups.{load_user_with_relations}
use vinc_api.Users.Accounts.Contexts.{MembershipContext, build_context_for_update}
use vinc_api.Users.Accounts.Service.{
  Accounts, UserUpdateRequest, resolve_role, is_persistable, customer_links, address_links,
  kc_id_is_free, persist_membership, attributes_of, unless_raise,
}
use vinc_api.Permissions.Resolve.{load_membership_doc}
use vinc_api.Permissions.{UuidLib}

-- The links of one kind of a user.
unfoldable pub is_of_user : LinkType → ℕ → Link → Bool
is_of_user t user_id l = l.link_type == t && l.user_id == user_id

-- Each new link, or what becomes of it and the old link of its key.
unfoldable pub switched : (Link → Link → Link) → List Link → List Link → List Link
unfolding find is_link
switched switch old [] = []
switched switch old (l ∷ ls) =
    let rest = switched switch old ls in
    elim (find (is_link l.link_type l.user_id l.target_id) old) [
      | none ↦ l ∷ rest
      | some o ↦ switch o l ∷ rest
    ]

-- The links of one kind of a user, replaced by others.
unfoldable pub replace_links :
    (Link → Link → Link) → LinkType → ℕ → List Link → List Link → List Link
unfolding is_of_user where_rows switched
replace_links switch t user_id new links =
    where_rows (λ l. not (is_of_user t user_id l)) links ++ switched switch links new

unfoldable pub save_user : User → List User → List User
unfolding update_rows
save_user u us = update_rows (λ x. x.id == u.id) (λ x. u) us

abbrev set_enabled : Admin → Bool → String → Result String (Unit {0})
set_enabled admin true k = disable_user admin k
set_enabled admin false k = enable_user admin k

module _ (lib : UuidLib) (switch : Link → Link → Link) (now : ℕ) where
  -- `_assign_links`; the links to suppliers stay, since an update gives none.
  unfoldable pub assign_links : ℕ → MembershipContext → List Link → List Link
  unfolding replace_links customer_links address_links
  assign_links user_id c links =
      replace_links switch LinkType.address user_id (address_links now user_id c)
        (replace_links switch LinkType.customer user_id (customer_links now user_id c) links)

  -- The attributes and the flag in Keycloak, for a user that is there.
  unfoldable pub sync_keycloak : Option Admin → User → MembershipContext → Result String (Unit {0})
  unfolding given set_user_attributes enable_user disable_user
  sync_keycloak none u c = ok tt
  sync_keycloak (some admin) u c = elim (given u.kc_user_id) [
    | none ↦ ok tt
    | some k ↦ do
      _ ← set_user_attributes admin k (attributes_of c u.role)
      set_enabled admin (u.status == UserStatus.disabled) k
  ]

  unfoldable pub update_user :
      Option Admin → ℕ → UserUpdateRequest → Accounts → Result String (User × Accounts)
  unfolding load_user_with_relations load_membership_doc or_text build_context_for_update
      resolve_role is_persistable assign_links save_user sync_keycloak persist_membership
  update_user admin user_id r a = do
    u ← load_user_with_relations user_id a.store
    let stored =
        load_membership_doc (or_value (or_text u.kc_user_id none) (lib.str u.id)) a.memberships
    (c, doc) ← build_context_for_update lib a.store u stored r.memberships r.customers
    role ← resolve_role r.role doc
    let u' = record u { role = role }
    _ ← unless_raise "Failed to persist user changes" (is_persistable a.store none c)
    _ ← sync_keycloak admin u' c
    a' ← persist_membership lib u' doc role (record a {
      store = record a.store {
        users = save_user u' a.store.users;
        links = assign_links user_id c a.store.links;
      };
    })
    ok (u', a')

-- `ensure_pending_reseller`: the row as it should be for the id in Keycloak.
unfoldable pub as_pending_reseller : String → User → User
as_pending_reseller kc u = record u {
  kc_user_id = some kc;
  role = "reseller";
  status = if u.status == UserStatus.disabled then UserStatus.invited else u.status;
  auth_provider = "keycloak";
}

unfoldable pub ensure_pending_reseller :
    ℕ → String → Option String → String → Store → Result String (User × Store)
unfolding where_rows as_pending_reseller kc_id_is_free save_user
ensure_pending_reseller new_id email name kc s =
    elim (scalar_one_or_none (where_rows (λ u. u.email == email) s.users)) [
      | err m ↦ err m
      | ok (some u) ↦
          if kc_id_is_free (some kc) u.id s.users
          then (let u' = as_pending_reseller kc u in
              ok (u', record s { users = save_user u' s.users }))
          else err "IntegrityError"
      | ok none ↦
          if kc_id_is_free (some kc) new_id s.users
          then (let u : User = record {
            id = new_id;
            email = email;
            name = name;
            role = "reseller";
            status = UserStatus.invited;
            auth_provider = "keycloak";
            kc_user_id = some kc;
            supplier_id = none;
          } in
              ok (u, record s { users = s.users ++ (u ∷ []) }))
          else err "Failed to persist user"
    ]
