-- ===== src/Users/Accounts/Contexts.antt =====
-- modules/users/service.py: the assignments of a user, from the memberships or the customers of a
-- request, or from what the user has.
use vinc_api.Base.{
  ℕ, String, string_eq, nat_eq, ◌==◌, Bool, true, false, Option, none, some, List, [], ◌∷◌, ◌++◌,
  map, Result, ok, err, ◌>>=◌, or_raise, if◌then◌else◌, find, contains, given, or_text, or_value,
}
use vinc_api.Users.Model.{User, CustomerAddress, Store}
use vinc_api.Users.Accounts.Lookups.{
  CustomerSelection, ResolvedCustomerSelection, address_key, customer_key,
  resolve_customer_selections, derive_supplier, load_customers_by_ids, load_addresses_by_ids,
  resolved_from_user,
}
use vinc_api.Permissions.{UuidLib, MembershipEntry, MembershipDoc, process_membership_scope}

-- An entry as a request gives it.
pub record RequestedEntry : Type 0 where
  pub scope_type : String
  pub scope_id : Option String
  pub role : Option String
  pub capabilities : List String
  pub reseller_scope : Option String
  pub reseller_account_ids : List String
  pub address_scope : Option String
  pub address_ids : List String

pub record Memberships : Type 0 where
  pub user_key : Option String
  pub default_role : Option String
  pub memberships : List RequestedEntry

pub record SupplierSelection : Type 0 where
  pub supplier_id : String
  pub role : String

pub record MembershipContext : Type 0 where
  pub membership_doc : Option MembershipDoc
  pub supplier_for_stamp : Option String
  pub allowed_wholesalers : List String
  pub multi_tenant : Bool
  pub supplier_links : List (ℕ × String)
  pub customer_ids : List ℕ
  pub address_ids : List ℕ
  pub allowed_customer_ids : List String
  pub allowed_address_ids : List String

-- An entry without a role is refused by the schema of the store.
unfoldable pub normalize_membership_entries :
    List RequestedEntry → Result String (List MembershipEntry)
normalize_membership_entries [] = ok []
normalize_membership_entries (e ∷ es) = do
  role ← or_raise "ValidationError" e.role
  rest ← normalize_membership_entries es
  ok (
      record {
        scope_type = e.scope_type;
        scope_id = e.scope_id;
        role = role;
        capabilities = e.capabilities;
        reseller_scope = e.reseller_scope;
        reseller_account_ids = e.reseller_account_ids;
        address_scope = e.address_scope;
        address_ids = e.address_ids;
      }
      ∷ rest)

-- The role of a link to a supplier, if it is one of the three.
unfoldable pub link_role : String → String
unfolding contains
link_role role = if contains role ("admin" ∷ "helpdesk" ∷ "viewer" ∷ []) then role else "viewer"

abbrev pub flatten : List ResolvedCustomerSelection → List CustomerAddress
flatten [] = []
flatten (r ∷ rs) = r.addresses ++ flatten rs

abbrev pub selection_key : ResolvedCustomerSelection → ℕ
selection_key r = r.customer.id

module _ (lib : UuidLib) (s : Store) where
  unfoldable pub process_supplier_selections :
      List SupplierSelection → Result String (List (ℕ × String))
  unfolding find link_role
  process_supplier_selections [] = ok []
  process_supplier_selections (x ∷ xs) = do
    i ← or_raise "Invalid supplier ID" (lib.parse x.supplier_id)
    p ← or_raise "Supplier not found" (find (λ p. p.id == i) s.suppliers)
    rest ← process_supplier_selections xs
    ok ((i, link_role x.role) ∷ rest)

  -- The context of resolved customers, with the supplier's text and the wholesalers.
  abbrev pub context_of :
      Option String → List String → List ResolvedCustomerSelection → MembershipContext
  context_of stamp wholesalers rs =
      let customer_ids = map selection_key rs in
      let address_ids = map address_key (flatten rs) in
      record {
        membership_doc = none;
        supplier_for_stamp = stamp;
        allowed_wholesalers = wholesalers;
        multi_tenant = false;
        supplier_links = [];
        customer_ids = customer_ids;
        address_ids = address_ids;
        allowed_customer_ids = map lib.str customer_ids;
        allowed_address_ids = map lib.str address_ids;
      }

  unfoldable pub context_from_customers : List CustomerSelection → Result String MembershipContext
  unfolding resolve_customer_selections derive_supplier
  context_from_customers xs = elim (resolve_customer_selections lib s xs) [
    | err m ↦ err m
    | ok rs ↦ elim (flatten rs) [
      | [] ↦ err "At least one active customer address is required"
      | _ ∷ _ ↦ elim (derive_supplier lib s rs) [
        | err m ↦ err m
        | ok p ↦ ok (context_of (some (lib.str p.id)) (lib.str p.id ∷ []) rs)
      ]
    ]
  ]

  -- The supplier that a text denotes, if it is there.
  unfoldable pub scope_supplier : String → Result String ℕ
  unfolding given find
  scope_supplier text = do
    t ← or_raise "Membership scope missing supplier identifier" (given (some text))
    i ← or_raise "Invalid supplier identifier in memberships" (lib.parse t)
    p ← or_raise "Supplier not found for membership scope" (find (λ p. p.id == i) s.suppliers)
    ok i

  unfoldable pub context_from_memberships : MembershipDoc → Result String MembershipContext
  unfolding process_membership_scope scope_supplier load_customers_by_ids load_addresses_by_ids
  context_from_memberships doc =
      elim (process_membership_scope lib
        (record { customers = s.customers; addresses = s.addresses }) doc) [
          | err m ↦ err m
          | ok scope ↦ elim scope.multi_tenant [
            | true ↦ ok (record {
              membership_doc = some doc;
              supplier_for_stamp = some scope.supplier_id;
              allowed_wholesalers = scope.allowed_wholesalers;
              multi_tenant = true;
              supplier_links = [];
              customer_ids = [];
              address_ids = [];
              allowed_customer_ids = scope.allowed_customer_ids;
              allowed_address_ids = scope.allowed_address_ids;
            })
            | false ↦ do
              supplier ← scope_supplier scope.supplier_id
              customers ← load_customers_by_ids lib s scope.allowed_customer_ids supplier
              addresses ← load_addresses_by_ids lib s scope.allowed_address_ids supplier
              ok (record {
                membership_doc = some doc;
                supplier_for_stamp = some scope.supplier_id;
                allowed_wholesalers = scope.allowed_wholesalers;
                multi_tenant = false;
                supplier_links = [];
                customer_ids = map customer_key customers;
                address_ids = map address_key addresses;
                allowed_customer_ids = map lib.str (map customer_key customers);
                allowed_address_ids = map lib.str (map address_key addresses);
              })
          ]
        ]

  -- Without one supplier of all the customers, there is no supplier.
  unfoldable pub context_from_existing_user : ℕ → MembershipContext
  unfolding resolved_from_user derive_supplier
  context_from_existing_user user_id =
      let rs = resolved_from_user lib s user_id in
      elim (derive_supplier lib s rs) [
        | err m ↦ context_of none [] rs
        | ok p ↦ context_of (some (lib.str p.id)) (lib.str p.id ∷ []) rs
      ]

  -- The document of a request, under the first key that is given.
  unfoldable pub requested_doc : String → Memberships → Result String MembershipDoc
  unfolding normalize_membership_entries or_text
  requested_doc key m = do
    entries ← normalize_membership_entries m.memberships
    ok (record {
      user_key = or_value (or_text m.user_key none) key;
      default_role = m.default_role;
      memberships = entries;
    })

  abbrev pub has_memberships : Option Memberships → Option Memberships
  has_memberships none = none
  has_memberships (some m) = elim m.memberships [ [] ↦ none | _ ∷ _ ↦ some m ]

  -- The context without the links to suppliers.
  unfoldable pub base_context_for_create :
      Option Memberships → List CustomerSelection → Result String MembershipContext
  unfolding requested_doc context_from_memberships context_from_customers
  base_context_for_create memberships customers = elim (has_memberships memberships) [
    | some m ↦ requested_doc "" m >>= context_from_memberships
    | none ↦ elim customers [
      | [] ↦ err "At least one customer assignment is required"
      | x ∷ xs ↦ context_from_customers (x ∷ xs)
    ]
  ]

  unfoldable pub build_context_for_create :
      Option Memberships
      → List CustomerSelection
      → List SupplierSelection
      → Result String MembershipContext
  unfolding base_context_for_create process_supplier_selections
  build_context_for_create memberships customers suppliers = do
    c ← base_context_for_create memberships customers
    links ← process_supplier_selections suppliers
    ok (record c { supplier_links = links })

  abbrev pub or_list : List String → List String → List String
  or_list [] ys = ys
  or_list (x ∷ xs) ys = x ∷ xs

  -- What the user has, with the scopes of the stored document where it has any.
  unfoldable pub existing_context : User → Option MembershipDoc → Result String MembershipContext
  unfolding context_from_existing_user context_from_memberships
  existing_context u stored =
      let base = context_from_existing_user u.id in
      elim stored [
        | none ↦ ok base
        | some doc ↦ elim doc.memberships [
          | [] ↦ ok base
          | _ ∷ _ ↦ elim (context_from_memberships doc) [
            | err m ↦ err m
            | ok d ↦ ok (record base {
              allowed_customer_ids = or_list d.allowed_customer_ids base.allowed_customer_ids;
              allowed_address_ids = or_list d.allowed_address_ids base.allowed_address_ids;
              allowed_wholesalers = or_list d.allowed_wholesalers base.allowed_wholesalers;
              supplier_for_stamp = or_text d.supplier_for_stamp base.supplier_for_stamp;
              multi_tenant = d.multi_tenant;
            })
          ]
        ]
      ]

  -- The second part is the document to store.
  unfoldable pub build_context_for_update :
      User
      → Option MembershipDoc
      → Option Memberships
      → Option (List CustomerSelection)
      → Result String (MembershipContext × Option MembershipDoc)
  unfolding requested_doc context_from_memberships context_from_customers existing_context
  build_context_for_update u stored memberships customers = elim (has_memberships memberships) [
    | some m ↦ do
      doc ← requested_doc (or_value (or_text u.kc_user_id none) (lib.str u.id)) m
      c ← context_from_memberships doc
      ok (c, some doc)
    | none ↦ elim customers [
      | some xs ↦ do c ← context_from_customers xs; ok (c, none)
      | none ↦ do c ← existing_context u stored; ok (c, none)
    ]
  ]
