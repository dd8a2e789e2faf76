-- ===== src/Customers.antt =====
-- modules/customers/service.py: customers and their addresses. `texts` gives the texts of the eight
-- columns of a customer that a search looks at, and `by_erp` and `by_label` are the sorts. A field of
-- a request is missing or has a value; the other fields are not modelled.
pub mod Routes
pub mod Scope
mod Tests
use vinc_api.Base.{
  ℕ, String, string_eq, nat_eq, ◌==◌, Bool, true, false, not, ◌&&◌, ◌||◌, Option, none, some, List,
  [], ◌∷◌, ◌++◌, map, Result, ok, err, ◌>>=◌, or_raise, where_rows, update_rows, find, any,
  contains, given, or_value, scalar_one_or_none, if◌then◌else◌,
}
use vinc_api.Users.Model.{Customer, CustomerAddress, LinkType, link_type_eq, Link, Store}
use vinc_api.Users.Links.{is_link}
use vinc_api.Users.Accounts.Service.{unless_raise}
use vinc_api.Users.Accounts.Associations.{parse_some}
use vinc_api.Permissions.{UuidLib}

pub record CustomerCreate : Type 0 where
  pub supplier_id : ℕ
  pub erp_customer_id : String
  pub name : Option String
  pub is_active : Option Bool

pub record CustomerUpdate : Type 0 where
  pub erp_customer_id : Option String
  pub name : Option (Option String)
  pub is_active : Option Bool

pub record CustomerAddressCreate : Type 0 where
  pub erp_address_id : String
  pub label : Option String
  pub is_active : Option Bool

pub record CustomerAddressUpdate : Type 0 where
  pub label : Option (Option String)
  pub is_active : Option Bool

pub record CustomerDetailResponse : Type 0 where
  pub customer : Customer
  pub addresses : List CustomerAddress

-- What the database sorts by and looks for.
pub record Queries : Type 0 where
  pub ilike : String → String → Bool
  pub texts : Customer → List String
  pub by_erp : List Customer → List Customer
  pub by_label : List CustomerAddress → List CustomerAddress

-- Every value is allowed, or those of the list.
unfoldable pub is_allowed : UuidLib → Option (List String) → ℕ → Bool
unfolding contains
is_allowed lib none i = true
is_allowed lib (some texts) i = contains (lib.str i) texts

unfoldable pub passes_search : Queries → Option String → Customer → Bool
unfolding given any
passes_search q search c = elim (given search) [
  | none ↦ true
  | some t ↦ any (q.ilike t) (q.texts c)
]

unfoldable pub list_customers :
    UuidLib
    → Queries
    → Bool
    → Option ℕ
    → Option String
    → Option (List String)
    → Bool
    → Store
    → List Customer
unfolding where_rows passes_search parse_some contains
list_customers lib q include_inactive supplier_id search allowed is_admin s =
    let rows =
      where_rows
        (λ c.
          elim supplier_id [ none ↦ true | some p ↦ c.supplier_id == p ]
          && ((include_inactive || c.is_active) && passes_search q search c))
        s.customers in
    elim is_admin [
      | true ↦ q.by_erp rows
      | false ↦ elim supplier_id [
        | some p ↦ q.by_erp rows
        | none ↦ elim (parse_some lib (or_value allowed [])) [
          | [] ↦ []
          | i ∷ is ↦ q.by_erp (where_rows (λ c. contains c.id (i ∷ is)) rows)
        ]
      ]
    ]

unfoldable pub get_customer :
    UuidLib → ℕ → Option (List String) → Bool → Store → Result String Customer
unfolding where_rows contains
get_customer lib customer_id allowed is_admin s = do
  found ← scalar_one_or_none (where_rows (λ c. c.id == customer_id) s.customers)
  c ← or_raise "Customer not found" found
  _ ←
      unless_raise "Customer access denied"
        (is_admin || contains (lib.str c.id) (or_value allowed []))
  ok c

unfoldable pub create_customer : ℕ → CustomerCreate → Store → Result String (Customer × Store)
unfolding find any
create_customer new_id p s = do
  supplier ← or_raise "Supplier not found" (find (λ x. x.id == p.supplier_id) s.suppliers)
  _ ←
      unless_raise "Customer already exists"
        (not (any (λ c. c.erp_customer_id == p.erp_customer_id) s.customers))
  let c : Customer = record {
    id = new_id;
    erp_customer_id = p.erp_customer_id;
    supplier_id = p.supplier_id;
    name = p.name;
    is_active = or_value p.is_active true;
  }
  ok (c, record s { customers = s.customers ++ (c ∷ []) })

-- The number of the addresses stays as it was.
unfoldable pub update_customer :
    Customer → CustomerUpdate → Store → Result String (Customer × Store)
unfolding any update_rows
update_customer c p s = do
  let c' : Customer = record c {
    erp_customer_id = or_value p.erp_customer_id c.erp_customer_id;
    name = or_value p.name c.name;
    is_active = or_value p.is_active c.is_active;
  }
  _ ←
      unless_raise "Customer already exists"
        (not (any (λ x. not (x.id == c.id) && x.erp_customer_id == c'.erp_customer_id) s.customers))
  ok (c', record s { customers = update_rows (λ x. x.id == c.id) (λ x. c') s.customers })

-- A link to the customer or to an address of it.
unfoldable pub is_link_of : Customer → Store → Link → Bool
unfolding any
is_link_of c s l =
    l.link_type == LinkType.customer && l.target_id == c.id
    || l.link_type == LinkType.address
      && any (λ a. a.customer_id == c.id && a.id == l.target_id) s.addresses

-- The rows that refer to the customer go with it.
unfoldable pub delete_customer : Customer → Store → Store
unfolding where_rows is_link_of
delete_customer c s = record s {
  customers = where_rows (λ x. not (x.id == c.id)) s.customers;
  addresses = where_rows (λ a. not (a.customer_id == c.id)) s.addresses;
  links = where_rows (λ l. not (is_link_of c s l)) s.links;
}

-- The addresses that are shown, in the order of their labels.
unfoldable pub shown_addresses :
    UuidLib → Queries → Customer → Bool → Option (List String) → Store → List CustomerAddress
unfolding where_rows is_allowed
shown_addresses lib q c include_inactive allowed s =
    where_rows (λ a. (include_inactive || a.is_active) && is_allowed lib allowed a.id)
      (q.by_label (where_rows (λ a. a.customer_id == c.id) s.addresses))

unfoldable pub list_customer_addresses :
    UuidLib → Queries → Customer → Bool → Option (List String) → Bool → Store → List CustomerAddress
unfolding shown_addresses
list_customer_addresses lib q c include_inactive allowed true s =
    shown_addresses lib q c include_inactive none s
list_customer_addresses lib q c include_inactive none false s = []
list_customer_addresses lib q c include_inactive (some texts) false s =
    shown_addresses lib q c include_inactive (some texts) s

unfoldable pub serialize_customer :
    UuidLib → Queries → Option (List String) → Bool → Store → Customer → CustomerDetailResponse
unfolding shown_addresses
serialize_customer lib q allowed include_inactive s c = record {
  customer = c;
  addresses = shown_addresses lib q c include_inactive allowed s;
}

unfoldable pub create_customer_address :
    ℕ → Customer → CustomerAddressCreate → Store → Result String (CustomerAddress × Store)
unfolding any
create_customer_address new_id c p s = do
  _ ← unless_raise "Address already exists" (
      not (
        any (λ a. a.erp_customer_id == c.erp_customer_id && a.erp_address_id == p.erp_address_id)
          s.addresses))
  let a : CustomerAddress = record {
    id = new_id;
    erp_address_id = p.erp_address_id;
    erp_customer_id = c.erp_customer_id;
    customer_id = c.id;
    label = p.label;
    is_active = or_value p.is_active true;
  }
  ok (a, record s { addresses = s.addresses ++ (a ∷ []) })

unfoldable pub get_customer_address :
    UuidLib → Customer → ℕ → Option (List String) → Bool → Store → Result String CustomerAddress
unfolding find contains
get_customer_address lib c address_id allowed is_admin s = do
  a ← or_raise "Customer address not found" (find (λ a. a.id == address_id) s.addresses)
  _ ← unless_raise "Customer address not found" (a.erp_customer_id == c.erp_customer_id)
  _ ←
      unless_raise "Address access denied"
        (is_admin || contains (lib.str a.id) (or_value allowed []))
  ok a

unfoldable pub update_customer_address :
    CustomerAddress → CustomerAddressUpdate → Store → CustomerAddress × Store
unfolding update_rows
update_customer_address a p s =
    let a' : CustomerAddress = record a {
      label = or_value p.label a.label;
      is_active = or_value p.is_active a.is_active;
    } in
    (a', record s { addresses = update_rows (λ x. x.id == a.id) (λ x. a') s.addresses })

unfoldable pub delete_customer_address : CustomerAddress → Store → Store
unfolding where_rows
delete_customer_address a s = record s {
  addresses = where_rows (λ x. not (x.id == a.id)) s.addresses;
  links = where_rows (λ l. not (l.link_type == LinkType.address && l.target_id == a.id)) s.links;
}
