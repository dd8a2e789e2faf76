-- ===== src/Permissions/Resolve.antt =====
-- modules/permissions/service.py: the store of the membership documents, and `resolve_permissions`,
-- which makes of a user's document what the user may do for the active supplier.
use vinc_api.Base.{
  ℕ, String, string_eq, nat_eq, option_eq, ◌==◌, Bool, ◌&&◌, Option, none, some, List, [], ◌∷◌,
  ◌++◌, map, Result, ok, err, if◌then◌else◌, find, where_rows, contains, given, lower, or_value,
}
use vinc_api.Users.Model.{Supplier}
use vinc_api.Permissions.{
  MembershipEntry, MembershipDoc, Tables, UuidLib, supplier_scope, entry_roles, safe_uuid,
  granted_ids, load_customers_for_supplier, load_addresses_for_supplier, add_all,
}

pub record PermissionsContext : Type 0 where
  pub active_wholesaler_id : Option String
  pub allowed_reseller_account_ids : List String
  pub allowed_address_ids : List String
  pub capabilities : List String

-- The collection of documents, if there is a document database; a document is read as it was written.
abbrev pub MembershipStore : Type 0
MembershipStore = Option (List MembershipDoc)

unfoldable pub has_user_key : String → MembershipDoc → Bool
has_user_key k d = d.user_key == k

unfoldable pub load_membership_doc : String → MembershipStore → Option MembershipDoc
unfolding find has_user_key
load_membership_doc k none = none
load_membership_doc k (some docs) = find (has_user_key k) docs

-- `update_one` with `upsert`: the first document with the key, or a new one at the end.
unfoldable pub upsert_document : MembershipDoc → List MembershipDoc → List MembershipDoc
unfolding has_user_key
upsert_document doc [] = doc ∷ []
upsert_document doc (d ∷ ds) =
    let rest = upsert_document doc ds in if has_user_key doc.user_key d then doc ∷ ds else d ∷ rest

unfoldable pub persist_membership_doc :
    MembershipDoc → MembershipStore → Result String MembershipDoc × MembershipStore
unfolding upsert_document
persist_membership_doc doc none = (err "Membership store unavailable", none)
persist_membership_doc doc (some docs) = (ok doc, some (upsert_document doc docs))

-- `_default_caps_for_role`, of the table `_ROLE_DEFAULT_CAPS`.
unfoldable pub default_caps_for_role : String → List String
unfolding lower
default_caps_for_role r =
    let role = lower r in
    if role == "super_admin"
    then "manage_suppliers" ∷ "manage_resellers" ∷ "manage_agents" ∷ "manage_configs"
      ∷ "place_orders" ∷ "view_orders" ∷ "view_data" ∷ []
    else if role == "wholesale_admin"
    then "manage_resellers" ∷ "manage_agents" ∷ "manage_configs" ∷ "view_orders" ∷ "view_data" ∷ []
    else if role == "wholesaler_helpdesk"
    then "support_read" ∷ "view_orders" ∷ []
    else if role == "supplier_admin"
    then "manage_resellers" ∷ "manage_agents" ∷ "manage_configs" ∷ "view_orders" ∷ "view_data" ∷ []
    else if role == "supplier_helpdesk"
    then "support_read" ∷ "view_orders" ∷ []
    else if role == "agent_admin"
    then "place_orders" ∷ "view_orders" ∷ []
    else if role == "agent"
    then "place_orders" ∷ "view_orders" ∷ []
    else if role == "reseller"
    then "place_orders" ∷ "view_orders" ∷ []
    else if role == "viewer"
    then "view_orders" ∷ "view_data" ∷ []
    else []

unfoldable pub is_global : MembershipEntry → Bool
is_global e = e.scope_type == "global"

unfoldable pub is_for_supplier : String → MembershipEntry → Bool
unfolding lower
is_for_supplier active e =
    e.scope_type == "supplier" && lower (or_value e.scope_id "") == lower active

-- `_select_membership_for_scope`: the global entries, and those of the active supplier.
unfoldable pub select_membership_for_scope :
    List MembershipEntry → Option String → List MembershipEntry
unfolding where_rows is_global is_for_supplier given
select_membership_for_scope entries active =
    where_rows is_global entries
    ++ elim (given active) [ none ↦ [] | some a ↦ where_rows (is_for_supplier a) entries ]

-- The sets that the loop over the entries fills.
pub record Collected : Type 0 where
  pub capabilities : List String
  pub resellers : List String
  pub addresses : List String

-- The default capabilities of the roles, added to a set.
unfoldable pub add_role_caps : List String → List String → List String
unfolding add_all default_caps_for_role
add_role_caps [] s = s
add_role_caps (r ∷ rs) s = add_role_caps rs (add_all (default_caps_for_role r) s)

-- The roles of the entries, or else the default role.
unfoldable pub roles_of : List MembershipEntry → Option String → List String
unfolding entry_roles given
roles_of selected default_role = elim (entry_roles selected) [
  | r ∷ rs ↦ r ∷ rs
  | [] ↦ elim (given default_role) [ none ↦ [] | some r ↦ r ∷ [] ]
]

-- The capabilities of the entries, or else those of the roles.
unfoldable pub caps_or_defaults : List String → List MembershipEntry → Option String → List String
unfolding add_role_caps roles_of
caps_or_defaults caps selected default_role = elim caps [
  | c ∷ cs ↦ c ∷ cs
  | [] ↦ add_role_caps (roles_of selected default_role) []
]

unfoldable pub lower_all : List String → List String
unfolding lower
lower_all [] = []
lower_all (c ∷ cs) = lower c ∷ lower_all cs

module _ (lib : UuidLib) (t : Tables) where
  -- The rows that the scope `all` of an entry stands for: none, unless it is of the active supplier.
  unfoldable pub scope_rows : (ℕ → List String) → Option ℕ → MembershipEntry → List String
  unfolding supplier_scope
  scope_rows load active e = elim (supplier_scope e) [
    | none ↦ []
    | some s ↦ elim (lib.parse s) [ none ↦ [] | some u ↦ if active == some u then load u else [] ]
  ]

  -- What an entry allows of the customers, and of the addresses.
  unfoldable pub reseller_grants : Option ℕ → MembershipEntry → List String
  unfolding scope_rows granted_ids load_customers_for_supplier
  reseller_grants active e =
      granted_ids lib t e.reseller_scope e.reseller_account_ids
        (scope_rows (load_customers_for_supplier lib t) active e)

  unfoldable pub address_grants : Option ℕ → MembershipEntry → List String
  unfolding scope_rows granted_ids load_addresses_for_supplier
  address_grants active e =
      granted_ids lib t e.address_scope e.address_ids
        (scope_rows (load_addresses_for_supplier lib t) active e)

  -- One turn of the loop over the selected entries.
  unfoldable pub collect_entry : Option ℕ → MembershipEntry → Collected → Collected
  unfolding add_all lower_all reseller_grants address_grants
  collect_entry active e c = record {
    capabilities = add_all (lower_all e.capabilities) c.capabilities;
    resellers = add_all (reseller_grants active e) c.resellers;
    addresses = add_all (address_grants active e) c.addresses;
  }

  unfoldable pub collect_from : Option ℕ → List MembershipEntry → Collected → Collected
  unfolding collect_entry
  collect_from active [] c = c
  collect_from active (e ∷ es) c = collect_from active es (collect_entry active e c)

  -- `[UUID(rid) for rid in …]`, which raises if a text is no UUID.
  unfoldable pub parse_ids : List String → Option (List ℕ)
  parse_ids [] = some []
  parse_ids (x ∷ xs) =
      let rest = parse_ids xs in
      elim (lib.parse x) [
        | none ↦ none
        | some n ↦ elim rest [ none ↦ none | some ns ↦ some (n ∷ ns) ]
      ]

  -- The ids of the customers that the active supplier has; they stay as they are without a supplier,
  -- and where a text is no UUID. From no ids it gives none, which is the test before it.
  unfoldable pub customers_of_supplier : Option ℕ → List String → List String
  unfolding parse_ids contains where_rows add_all
  customers_of_supplier none resellers = resellers
  customers_of_supplier (some supplier) resellers = elim (parse_ids resellers) [
    | none ↦ resellers
    | some ids ↦
        add_all
          (map (λ c. lib.str c.id)
            (where_rows (λ c. c.supplier_id == supplier && contains c.id ids) t.customers))
          []
  ]

  -- What a document gives for the active supplier, before the customers are checked.
  unfoldable pub aggregate : Option MembershipDoc → Option String → Collected
  unfolding collect_from safe_uuid select_membership_for_scope caps_or_defaults
  aggregate none active = record { capabilities = []; resellers = []; addresses = [] }
  aggregate (some doc) active =
      let selected = select_membership_for_scope doc.memberships active in
      let c =
        collect_from (safe_uuid lib t active) selected
          (record { capabilities = []; resellers = []; addresses = [] }) in
      record {
        capabilities = caps_or_defaults c.capabilities selected doc.default_role;
        resellers = c.resellers;
        addresses = c.addresses;
      }

  unfoldable pub resolve_permissions : MembershipStore → String → Option String → PermissionsContext
  unfolding aggregate load_membership_doc customers_of_supplier safe_uuid given
  resolve_permissions store user_key active =
      let c = aggregate (load_membership_doc user_key store) active in
      record {
        active_wholesaler_id = given active;
        allowed_reseller_account_ids = customers_of_supplier (safe_uuid lib t active) c.resellers;
        allowed_address_ids = c.addresses;
        capabilities = c.capabilities;
      }

-- The suppliers of the entries' scopes, in the order of the table.
unfoldable pub supplier_ids_of : UuidLib → List MembershipEntry → List ℕ
unfolding supplier_scope
supplier_ids_of lib [] = []
supplier_ids_of lib (e ∷ es) =
    let rest = supplier_ids_of lib es in
    elim (supplier_scope e) [
      | none ↦ rest
      | some s ↦ elim (lib.parse s) [ none ↦ rest | some u ↦ u ∷ rest ]
    ]

unfoldable pub list_suppliers_from_memberships :
    UuidLib → List Supplier → Option MembershipDoc → List Supplier
unfolding supplier_ids_of where_rows contains
list_suppliers_from_memberships lib suppliers none = []
list_suppliers_from_memberships lib suppliers (some doc) =
    where_rows (λ s. contains s.id (supplier_ids_of lib doc.memberships)) suppliers
