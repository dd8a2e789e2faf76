-- ===== src/Users/Accounts/Service.antt =====
-- modules/users/service.py: creating and updating a user. A new row is given its id, and Keycloak is
-- a parameter that may be missing.
use vinc_api.Base.{
  ℕ, String, string_eq, nat_eq, option_eq, ◌==◌, Bool, true, false, not, ◌&&◌, Option, none, some,
  List, [], ◌∷◌, ◌++◌, map, Result, ok, err, ◌>>=◌, or_raise, where_rows, any, scalar_one_or_none,
  given, or_text, or_value, no_repeat,
}
use vinc_api.Users.Model.{
  User, UserStatus, user_status_eq, LinkType, link_type_eq, LinkStatus, Link, Store,
}
use vinc_api.Users.Roles.{canonicalize_role}
use vinc_api.Users.Accounts.Keycloak.{
  Admin, Attributes, build_user_attributes, set_user_attributes, enable_user, create_keycloak_user,
  send_invite,
}
use vinc_api.Users.Accounts.Lookups.{CustomerSelection}
use vinc_api.Users.Accounts.Contexts.{
  Memberships, SupplierSelection, MembershipContext, build_context_for_create,
}
use vinc_api.Permissions.Resolve.{upsert_document}
use vinc_api.Permissions.{UuidLib, MembershipDoc, derive_roles_from_memberships}

-- The tables, and the documents of memberships if their store is there.
pub record Accounts : Type 0 where
  pub store : Store
  pub memberships : Option (List MembershipDoc)

pub record UserCreateRequest : Type 0 where
  pub email : String
  pub name : Option String
  pub role : Option String
  pub suppliers : List SupplierSelection
  pub customers : List CustomerSelection
  pub memberships : Option Memberships
  pub send_invite : Bool

pub record UserUpdateRequest : Type 0 where
  pub role : Option String
  pub customers : Option (List CustomerSelection)
  pub memberships : Option Memberships

-- An error, if a test fails.
abbrev pub unless_raise : String → Bool → Result String (Unit {0})
unless_raise message true = ok tt
unless_raise message false = err message

-- The role of a request, or else the first of the document.
unfoldable pub requested_role : Option String → Option MembershipDoc → Option String
unfolding derive_roles_from_memberships given
requested_role (some r) doc = some r
requested_role none none = none
requested_role none (some doc) = elim (given doc.default_role) [
  | some r ↦ some r
  | none ↦ elim (derive_roles_from_memberships doc) [ [] ↦ none | r ∷ _ ↦ some r ]
]

unfoldable pub resolve_role : Option String → Option MembershipDoc → Result String String
unfolding requested_role canonicalize_role
resolve_role role doc = do
  r ← canonicalize_role (requested_role role doc)
  or_raise "Role is required" r

-- A new link, with the defaults of its columns.
abbrev pub new_link : ℕ → LinkType → ℕ → ℕ → String → Link
new_link now t user_id target role = record {
  link_type = t;
  user_id = user_id;
  target_id = target;
  role = role;
  status = LinkStatus.active;
  is_active = true;
  notes = none;
  updated_at = now;
}

-- The links that a context assigns.
unfoldable pub customer_links : ℕ → ℕ → MembershipContext → List Link
customer_links now user_id c =
    map (λ i. new_link now LinkType.customer user_id i "buyer") c.customer_ids

unfoldable pub address_links : ℕ → ℕ → MembershipContext → List Link
address_links now user_id c =
    map (λ i. new_link now LinkType.address user_id i "buyer") c.address_ids

unfoldable pub supplier_links : ℕ → ℕ → MembershipContext → List Link
supplier_links now user_id c =
    map (λ x. new_link now LinkType.supplier user_id x.0 x.1) c.supplier_links

-- The constraints of the database on a user's supplier and on the keys of the links.
unfoldable pub is_persistable : Store → Option ℕ → MembershipContext → Bool
unfolding any no_repeat
is_persistable s supplier_id c =
    elim supplier_id [ none ↦ true | some i ↦ any (λ p. p.id == i) s.suppliers ]
    && (no_repeat c.customer_ids
        && (no_repeat c.address_ids && no_repeat (map (λ x. x.0) c.supplier_links)))

-- Lists of a user with several suppliers are not written to Keycloak.
abbrev pub unless_many : MembershipContext → List String → List String
unless_many c xs = elim c.multi_tenant [ true ↦ [] | false ↦ xs ]

abbrev pub attributes_of : MembershipContext → String → Attributes
attributes_of c role =
    build_user_attributes c.supplier_for_stamp (unless_many c c.allowed_customer_ids)
      (unless_many c c.allowed_address_ids) c.allowed_wholesalers c.multi_tenant role

unfoldable invite : Admin → Bool → String → Result String (Unit {0})
unfolding send_invite
invite admin true id = send_invite admin id
invite admin false id = ok tt

unfoldable pub provision_keycloak_user :
    Admin → UserCreateRequest → MembershipContext → String → Result String String
unfolding create_keycloak_user set_user_attributes enable_user build_user_attributes invite
provision_keycloak_user admin r c role = do
  id ← create_keycloak_user admin r.email r.name
  _ ← set_user_attributes admin id (attributes_of c role)
  _ ← enable_user admin id
  _ ← invite admin r.send_invite id
  ok id

-- The new user's id in Keycloak, if there is one.
unfoldable pub provision :
    Option Admin → UserCreateRequest → MembershipContext → String → Result String (Option String)
unfolding provision_keycloak_user given
provision none r c role = ok none
provision (some admin) r c role = do
  id ← provision_keycloak_user admin r c role
  ok (given (some id))

-- No other user has the id in Keycloak.
unfoldable pub kc_id_is_free : Option String → ℕ → List User → Bool
unfolding any
kc_id_is_free none user_id us = true
kc_id_is_free (some k) user_id us =
    not (any (λ u. not (u.id == user_id) && u.kc_user_id == some k) us)

unfoldable pub new_user : ℕ → UserCreateRequest → Option ℕ → String → Option String → User
new_user id r supplier_id role kc = record {
  id = id;
  email = r.email;
  name = r.name;
  role = role;
  status = UserStatus.invited;
  auth_provider = "keycloak";
  kc_user_id = kc;
  supplier_id = supplier_id;
}

-- The user and the links that the flush has written.
unfoldable pub with_user : ℕ → User → MembershipContext → Accounts → Accounts
unfolding customer_links address_links supplier_links
with_user now u c a = record a {
  store = record a.store {
    users = a.store.users ++ (u ∷ []);
    links =
        a.store.links
        ++ (customer_links now u.id c ++ (address_links now u.id c ++ supplier_links now u.id c));
  };
}

module _ (lib : UuidLib) where
  unfoldable pub stored_doc : User → MembershipDoc → String → MembershipDoc
  unfolding or_text
  stored_doc u doc role = record doc {
    user_key = or_value (or_text (or_text u.kc_user_id (some doc.user_key)) none) (lib.str u.id);
    default_role = or_text doc.default_role (some role);
  }

  unfoldable pub persist_membership :
      User → Option MembershipDoc → String → Accounts → Result String Accounts
  unfolding stored_doc upsert_document
  persist_membership u none role a = ok a
  persist_membership u (some doc) role a = elim a.memberships [
    | none ↦ err "Membership store unavailable"
    | some docs ↦
        ok (record a { memberships = some (upsert_document (stored_doc u doc role) docs) })
  ]

  -- After the checks of the request: from the flush to the answer.
  unfoldable pub finish_create :
      Option Admin
      → ℕ
      → ℕ
      → UserCreateRequest
      → Option ℕ
      → MembershipContext
      → String
      → Accounts
      → Result String (User × Accounts)
  unfolding is_persistable provision kc_id_is_free new_user with_user persist_membership
  finish_create admin new_id now r supplier_id c role a = do
    _ ← unless_raise "Failed to persist user" (is_persistable a.store supplier_id c)
    kc ← provision admin r c role
    let u = new_user new_id r supplier_id role kc
    _ ← unless_raise "IntegrityError" (kc_id_is_free kc new_id a.store.users)
    a' ← persist_membership u c.membership_doc role (with_user now u c a)
    ok (u, a')

  unfoldable pub create_user :
      Option Admin
      → ℕ
      → ℕ
      → UserCreateRequest
      → Option ℕ
      → Accounts
      → Result String (User × Accounts)
  unfolding build_context_for_create resolve_role where_rows finish_create
  create_user admin new_id now r supplier_id a = do
    c ← build_context_for_create lib a.store r.memberships r.customers r.suppliers
    role ← resolve_role r.role c.membership_doc
    existing ← scalar_one_or_none (where_rows (λ u. u.email == r.email) a.store.users)
    elim existing [
      | some u ↦ err "A user with this email already exists"
      | none ↦ finish_create admin new_id now r supplier_id c role a
    ]
