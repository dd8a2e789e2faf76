-- ===== src/Customers/Routes.antt =====
-- modules/customers/router.py: the routes of customers. What the middlewares and the dependencies
-- have put into a request is the record Caller; its tenant is the header X-Tenant-ID.
-- A route that writes a row answers with the row.
use vinc_api.Base.{
  ℕ, String, string_eq, nat_eq, option_eq, ◌==◌, Bool, true, false, ◌&&◌, ◌||◌, Option, none, some,
  List, [], ◌∷◌, map, Result, ok, err, ◌>>=◌, find, any, given, lower,
}
use vinc_api.Users.Model.{
  Customer, CustomerAddress, LinkType, link_type_eq, LinkStatus, Link, Store,
}
use vinc_api.Users.Links.{is_link}
use vinc_api.Users.Roles.{require_roles}
use vinc_api.Users.Accounts.Lookups.{or_else}
use vinc_api.Users.Accounts.Service.{unless_raise}
use vinc_api.Customers.{
  Queries, CustomerCreate, CustomerUpdate, CustomerAddressCreate, CustomerAddressUpdate,
  CustomerDetailResponse, list_customers, get_customer, create_customer, update_customer,
  delete_customer, list_customer_addresses, serialize_customer, create_customer_address,
  get_customer_address, update_customer_address, delete_customer_address,
}
use vinc_api.Permissions.{UuidLib}

pub record Caller : Type 0 where
  pub user_role : Option String
  pub user_sub : Option String
  pub tenant_id : Option String
  pub allowed_customers : List String
  pub allowed_addresses : List String

abbrev pub admin_roles : List String
admin_roles = "super_admin" ∷ "wholesale_admin" ∷ "supplier_admin" ∷ []

-- A link that is active in both of its columns.
unfoldable pub is_active_link : Link → Bool
is_active_link l = l.is_active && elim l.status [ LinkStatus.active ↦ true | _ ↦ false ]

unfoldable pub has_role : String → Caller → Bool
unfolding lower
has_role role caller = elim caller.user_role [ none ↦ false | some r ↦ lower r == role ]

unfoldable pub is_super_admin : Caller → Bool
unfolding has_role
is_super_admin caller = has_role "super_admin" caller

unfoldable pub has_supplier_level_access : Caller → Bool
unfolding is_super_admin has_role
has_supplier_level_access caller = is_super_admin caller || has_role "supplier_admin" caller

-- The ids that the caller is limited to.
unfoldable pub limit : Caller → List String → Option (List String)
unfolding has_supplier_level_access
limit caller texts = elim (has_supplier_level_access caller) [ true ↦ none | false ↦ some texts ]

module _ (lib : UuidLib) (caller : Caller) (s : Store) where
  unfoldable pub get_tenant_supplier_id : Result String (Option ℕ)
  unfolding given
  get_tenant_supplier_id = elim (given caller.tenant_id) [
    | none ↦ ok none
    | some t ↦ elim (lib.parse t) [ none ↦ err "Invalid X-Tenant-ID header" | some i ↦ ok (some i) ]
  ]

  -- The user of the token has an active link to the supplier.
  unfoldable pub has_active_link : ℕ → Bool
  unfolding find any is_link is_active_link given
  has_active_link supplier_id = elim (given caller.user_sub) [
    | none ↦ false
    | some sub ↦ elim (find (λ u. u.kc_user_id == some sub) s.users) [
      | none ↦ false
      | some u ↦ any (λ l. is_link LinkType.supplier u.id supplier_id l && is_active_link l) s.links
    ]
  ]

  unfoldable pub is_allowed_for_supplier_team : ℕ → Result String Bool
  unfolding has_role has_active_link
  is_allowed_for_supplier_team supplier_id = elim caller.user_role [
    | none ↦ err "AttributeError"
    | some r ↦ ok (has_role "super_admin" caller || has_active_link supplier_id)
  ]

  unfoldable pub require_tenant_scope : Result String (Option ℕ)
  unfolding get_tenant_supplier_id is_super_admin is_allowed_for_supplier_team
  require_tenant_scope = do
    tenant ← get_tenant_supplier_id
    elim (is_super_admin caller) [
      | true ↦ ok tenant
      | false ↦ elim tenant [
        | none ↦ err "X-Tenant-ID header required"
        | some t ↦ do
          allowed ← is_allowed_for_supplier_team t
          _ ← unless_raise "Access denied: Not authorized for this supplier team" allowed
          ok (some t)
      ]
    ]

  unfoldable pub ensure_customer_scope : ℕ → Option ℕ → Result String (Unit {0})
  unfolding is_super_admin
  ensure_customer_scope supplier_id none = ok tt
  ensure_customer_scope supplier_id (some t) =
      unless_raise "Customer not available for current tenant"
        (is_super_admin caller || supplier_id == t)

  -- The customer of a route, in the scope of the caller.
  unfoldable pub scoped_customer : ℕ → Result String Customer
  unfolding require_tenant_scope get_customer limit has_supplier_level_access ensure_customer_scope
  scoped_customer customer_id = do
    tenant ← require_tenant_scope
    c ←
        get_customer lib customer_id (limit caller caller.allowed_customers)
          (has_supplier_level_access caller) s
    _ ← ensure_customer_scope c.supplier_id tenant
    ok c

  -- The supplier that a request asks for is taken before the tenant.
  unfoldable pub list_customers_endpoint :
      Queries → Bool → Bool → Option ℕ → Option String → Result String (List CustomerDetailResponse)
  unfolding require_tenant_scope list_customers serialize_customer limit has_supplier_level_access
  list_customers_endpoint q include_inactive include_inactive_addresses supplier_id searched = do
    tenant ← require_tenant_scope
    let customers =
        list_customers lib q include_inactive (or_else supplier_id tenant) searched
          (limit caller caller.allowed_customers) (has_supplier_level_access caller) s
    ok (
        map
          (serialize_customer lib q (limit caller caller.allowed_addresses)
            (include_inactive_addresses || has_supplier_level_access caller) s)
          customers)

  unfoldable pub get_customer_endpoint : Queries → ℕ → Bool → Result String CustomerDetailResponse
  unfolding scoped_customer serialize_customer limit has_supplier_level_access
  get_customer_endpoint q customer_id include_inactive_addresses = do
    c ← scoped_customer customer_id
    ok (
        serialize_customer lib q (limit caller caller.allowed_addresses)
          (include_inactive_addresses || has_supplier_level_access caller) s c)

  unfoldable pub create_customer_endpoint : ℕ → CustomerCreate → Result String (Customer × Store)
  unfolding require_roles require_tenant_scope ensure_customer_scope create_customer
  create_customer_endpoint new_id p = do
    _ ← require_roles admin_roles caller.user_role
    tenant ← require_tenant_scope
    _ ← ensure_customer_scope p.supplier_id tenant
    create_customer new_id p s

  unfoldable pub update_customer_endpoint : ℕ → CustomerUpdate → Result String (Customer × Store)
  unfolding require_roles scoped_customer update_customer
  update_customer_endpoint customer_id p = do
    _ ← require_roles admin_roles caller.user_role
    c ← scoped_customer customer_id
    update_customer c p s

  unfoldable pub delete_customer_endpoint : ℕ → Result String Store
  unfolding require_roles scoped_customer delete_customer
  delete_customer_endpoint customer_id = do
    _ ← require_roles admin_roles caller.user_role
    c ← scoped_customer customer_id
    ok (delete_customer c s)

  unfoldable pub list_addresses_endpoint : Queries → ℕ → Bool → Result String (List CustomerAddress)
  unfolding scoped_customer list_customer_addresses limit has_supplier_level_access
  list_addresses_endpoint q customer_id include_inactive = do
    c ← scoped_customer customer_id
    ok (
        list_customer_addresses lib q c (include_inactive || has_supplier_level_access caller)
          (limit caller caller.allowed_addresses) (has_supplier_level_access caller) s)

  unfoldable pub create_address_endpoint :
      ℕ → ℕ → CustomerAddressCreate → Result String (CustomerAddress × Store)
  unfolding require_roles scoped_customer create_customer_address
  create_address_endpoint new_id customer_id p = do
    _ ← require_roles admin_roles caller.user_role
    c ← scoped_customer customer_id
    create_customer_address new_id c p s

  -- The scope of the tenant is checked after the address.
  unfoldable pub get_address_endpoint : ℕ → ℕ → Result String CustomerAddress
  unfolding require_tenant_scope get_customer get_customer_address limit has_supplier_level_access
      ensure_customer_scope
  get_address_endpoint customer_id address_id = do
    tenant ← require_tenant_scope
    c ←
        get_customer lib customer_id (limit caller caller.allowed_customers)
          (has_supplier_level_access caller) s
    a ←
        get_customer_address lib c address_id (limit caller caller.allowed_addresses)
          (has_supplier_level_access caller) s
    _ ← ensure_customer_scope c.supplier_id tenant
    ok a

  -- The address of a route that changes it.
  unfoldable pub scoped_address : ℕ → ℕ → Result String CustomerAddress
  unfolding require_roles scoped_customer get_customer_address limit has_supplier_level_access
  scoped_address customer_id address_id = do
    _ ← require_roles admin_roles caller.user_role
    c ← scoped_customer customer_id
    get_customer_address lib c address_id (limit caller caller.allowed_addresses)
        (has_supplier_level_access caller) s

  unfoldable pub update_address_endpoint :
      ℕ → ℕ → CustomerAddressUpdate → Result String (CustomerAddress × Store)
  unfolding scoped_address update_customer_address
  update_address_endpoint customer_id address_id p = do
    a ← scoped_address customer_id address_id
    ok (update_customer_address a p s)

  unfoldable pub delete_address_endpoint : ℕ → ℕ → Result String Store
  unfolding scoped_address delete_customer_address
  delete_address_endpoint customer_id address_id = do
    a ← scoped_address customer_id address_id
    ok (delete_customer_address a s)
