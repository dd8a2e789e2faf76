-- ===== src/Permissions.antt =====
-- modules/permissions/service.py: the scopes of a user's memberships. A set of texts is a list in
-- ascending order, which is what `sorted` gives of it.
mod Sets
pub mod Scopes
pub mod Granted
pub mod Resolve
pub mod Collected
pub mod Resolved
pub mod Stored
pub mod Guards
pub mod Entitled
pub mod Allowed
mod Tests
unfoldable pub use Sets.{add, add_all}
use vinc_api.Base.{
  ℕ, String, string_eq, nat_eq, option_eq, ◌==◌, Bool, true, false, not, ◌&&◌, ◌||◌, Option, none,
  some, List, [], ◌∷◌, ◌++◌, map, Result, ok, err, if◌then◌else◌, where_rows, any, contains, given,
  lower, or_text, or_value, is_some,
}
use vinc_api.Users.Model.{Customer, CustomerAddress}

pub record MembershipEntry : Type 0 where
  pub scope_type : String
  pub scope_id : Option String
  pub role : String
  pub capabilities : List String
  pub reseller_scope : Option String
  pub reseller_account_ids : List String
  pub address_scope : Option String
  pub address_ids : List String

pub record MembershipDoc : Type 0 where
  pub user_key : String
  pub default_role : Option String
  pub memberships : List MembershipEntry

-- The tables of customers and of addresses.
pub record Tables : Type 0 where
  pub customers : List Customer
  pub addresses : List CustomerAddress

-- Python's UUIDs: the value that a text denotes, if any, and the text of a value.
pub record UuidLib : Type 0 where
  pub parse : String → Option ℕ
  pub str : ℕ → String

-- The scope of an entry for a supplier, which is not empty.
unfoldable pub supplier_scope : MembershipEntry → Option String
unfolding given
supplier_scope e = if e.scope_type == "supplier" then given e.scope_id else none

-- The loop of `unique_supplier_scope_ids`, with the scopes seen.
unfoldable pub unique_from : List String → List MembershipEntry → List String
unique_from seen [] = []
unique_from seen (e ∷ es) = elim (supplier_scope e) [
  | none ↦ unique_from seen es
  | some s ↦ elim (contains (lower s) seen) [
    | true ↦ unique_from seen es
    | false ↦ s ∷ unique_from (lower s ∷ seen) es
  ]
]

unfoldable pub unique_supplier_scope_ids : MembershipDoc → List String
unfolding unique_from
unique_supplier_scope_ids doc = unique_from [] doc.memberships

-- The roles of the entries, and the default role at the end.
unfoldable pub entry_roles : List MembershipEntry → List String
unfolding given
entry_roles [] = []
entry_roles (e ∷ es) =
    let rest = entry_roles es in elim (given (some e.role)) [ none ↦ rest | some r ↦ r ∷ rest ]

unfoldable pub derive_roles_from_memberships : MembershipDoc → List String
unfolding entry_roles given
derive_roles_from_memberships doc =
    entry_roles doc.memberships ++ elim (given doc.default_role) [ none ↦ [] | some r ↦ r ∷ [] ]

module _ (lib : UuidLib) (t : Tables) where
  -- `_safe_uuid`
  unfoldable pub safe_uuid : Option String → Option ℕ
  unfolding given
  safe_uuid value = elim (given value) [ none ↦ none | some v ↦ lib.parse v ]

  unfoldable pub load_customers_for_supplier : ℕ → List String
  unfolding where_rows
  load_customers_for_supplier supplier_id =
      map (λ c. lib.str c.id)
        (where_rows (λ c. c.supplier_id == supplier_id && c.is_active) t.customers)

  unfoldable pub load_addresses_for_supplier : ℕ → List String
  unfolding where_rows any
  load_addresses_for_supplier supplier_id =
      map (λ a. lib.str a.id)
        (where_rows
          (λ a.
            any (λ c. c.id == a.customer_id && c.supplier_id == supplier_id) t.customers
            && a.is_active)
          t.addresses)

  -- An entry applies if it is global, or for the supplier.
  unfoldable pub applies : ℕ → MembershipEntry → Bool
  unfolding safe_uuid
  applies supplier e =
      e.scope_type == "global"
      || (e.scope_type == "supplier" && safe_uuid e.scope_id == some supplier)

  -- What an entry adds to a set, given its scope, its ids and all ids of the supplier.
  unfoldable pub granted_ids : Option String → List String → List String → List String
  unfolding or_text lower where_rows
  granted_ids scope ids every =
      let s = lower (or_value scope "") in
      if s == "list" then where_rows (λ i. not (i == "")) ids else if s == "all" then every else []

  -- One turn of the loop over the entries, on the two sets.
  unfoldable pub expand_entry :
      ℕ → MembershipEntry → List String × List String → List String × List String
  unfolding applies granted_ids load_customers_for_supplier load_addresses_for_supplier add_all
  expand_entry supplier e (resellers, addresses) =
      if applies supplier e
      then (
        add_all
            (granted_ids e.reseller_scope e.reseller_account_ids
              (load_customers_for_supplier supplier))
            resellers,
        add_all (granted_ids e.address_scope e.address_ids (load_addresses_for_supplier supplier))
            addresses,
      )
      else (resellers, addresses)

  unfoldable pub expand_from :
      ℕ → List MembershipEntry → List String × List String → List String × List String
  unfolding expand_entry
  expand_from supplier [] sets = sets
  expand_from supplier (e ∷ es) sets = expand_from supplier es (expand_entry supplier e sets)

  unfoldable pub expand_scope_for_supplier : MembershipDoc → String → List String × List String
  unfolding expand_from safe_uuid
  expand_scope_for_supplier doc supplier_id = elim (safe_uuid (some supplier_id)) [
    | none ↦ ([], [])
    | some supplier ↦ expand_from supplier doc.memberships ([], [])
  ]

pub record MembershipScope : Type 0 where
  pub supplier_id : String
  pub allowed_customer_ids : List String
  pub allowed_address_ids : List String
  pub allowed_wholesalers : List String
  pub multi_tenant : Bool

unfoldable pub process_membership_scope :
    UuidLib → Tables → MembershipDoc → Result String MembershipScope
unfolding unique_supplier_scope_ids expand_scope_for_supplier where_rows
process_membership_scope lib t doc =
    let wholesalers = where_rows (λ s. not (s == "")) (unique_supplier_scope_ids doc) in
    elim (unique_supplier_scope_ids doc) [
      | [] ↦ err "Membership must include at least one supplier scope"
      | s ∷ [] ↦
          let (customers, addresses) = expand_scope_for_supplier lib t doc s in
          ok (record {
            supplier_id = s;
            allowed_customer_ids = customers;
            allowed_address_ids = addresses;
            allowed_wholesalers = wholesalers;
            multi_tenant = false;
          })
      | s ∷ _ ∷ _ ↦ ok (record {
        supplier_id = s;
        allowed_customer_ids = [];
        allowed_address_ids = [];
        allowed_wholesalers = wholesalers;
        multi_tenant = true;
      })
    ]
