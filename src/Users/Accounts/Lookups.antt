-- ===== src/Users/Accounts/Lookups.antt =====
-- modules/users/db_helpers.py: rows of users, customers and addresses by what names them.
use vinc_api.Base.{
  ℕ, String, string_eq, nat_eq, option_eq, ◌==◌, Bool, true, false, ◌&&◌, Option, none, some, List,
  [], ◌∷◌, ◌++◌, map, Result, ok, err, ◌>>=◌, or_raise, if◌then◌else◌, where_rows, find, any, all,
  contains, scalar_one_or_none,
}
use vinc_api.Users.Model.{User, Supplier, Customer, CustomerAddress, LinkType, link_type_eq, Store}
use vinc_api.Permissions.{UuidLib}

unfoldable pub load_user_with_relations : ℕ → Store → Result String User
unfolding where_rows
load_user_with_relations user_id s = do
  found ← scalar_one_or_none (where_rows (λ u. u.id == user_id) s.users)
  or_raise "User not found" found

unfoldable pub load_user_with_relations_by_kc_id : String → Store → Result String User
unfolding where_rows
load_user_with_relations_by_kc_id kc s = do
  found ← scalar_one_or_none (where_rows (λ u. u.kc_user_id == some kc) s.users)
  or_raise "User not found" found

-- What a request selects of a customer.
pub record CustomerSelection : Type 0 where
  pub customer_id : String
  pub all_addresses : Bool
  pub address_ids : List String

pub record ResolvedCustomerSelection : Type 0 where
  pub customer : Customer
  pub addresses : List CustomerAddress

-- The second try of a search, if the first found nothing.
abbrev pub or_else {ℓ} : {A : Type ℓ} → Option A → Option A → Option A
or_else none b = b
or_else (some a) b = some a

-- `[UUID(value) for value in values]`, which raises on the first that is none.
unfoldable pub parse_all : UuidLib → String → List String → Result String (List ℕ)
parse_all lib message [] = ok []
parse_all lib message (v ∷ vs) = do
  i ← or_raise message (lib.parse v)
  rest ← parse_all lib message vs
  ok (i ∷ rest)

abbrev pub address_key : CustomerAddress → ℕ
address_key a = a.id

abbrev pub customer_key : Customer → ℕ
customer_key c = c.id

module _ (lib : UuidLib) (s : Store) where
  -- By the id, and else by the number in the ERP.
  unfoldable pub find_customer : String → Option Customer
  find_customer identifier =
      or_else
        (elim (lib.parse identifier) [ none ↦ none | some i ↦ find (λ c. c.id == i) s.customers ])
        (find (λ c. c.erp_customer_id == identifier) s.customers)

  unfoldable pub get_customer_by_identifier : String → Result String Customer
  get_customer_by_identifier identifier = elim (find_customer identifier) [
    | none ↦ err "Customer not found"
    | some c ↦ if c.is_active then ok c else err "Customer is disabled"
  ]

  -- The active addresses of the customer.
  unfoldable pub active_addresses : Customer → List CustomerAddress
  unfolding where_rows
  active_addresses c =
      where_rows (λ a. a.erp_customer_id == c.erp_customer_id && a.is_active) s.addresses

  -- All the active addresses, or those that are asked for, which must all be there if one is.
  unfoldable pub resolve_addresses_for_customer :
      Customer → Bool → List String → Result String (List CustomerAddress)
  unfolding where_rows all contains parse_all
  resolve_addresses_for_customer c true provided = ok (active_addresses c)
  resolve_addresses_for_customer c false [] =
      err "Address IDs are required when all_addresses is false"
  resolve_addresses_for_customer c false (v ∷ vs) =
      elim (parse_all lib "Invalid address identifier provided" (v ∷ vs)) [
        | err m ↦ err m
        | ok ids ↦ elim (where_rows (λ a. contains a.id ids) (active_addresses c)) [
          | [] ↦ ok []
          | a ∷ rest ↦
              if all (λ i. contains i (map address_key (a ∷ rest))) ids
              then ok (a ∷ rest)
              else err "Unknown customer address ids"
        ]
      ]

  -- One turn of the loop over the selections, with the customers and the addresses seen.
  unfoldable pub resolve_selection :
      List ℕ → List ℕ → CustomerSelection → Result String ResolvedCustomerSelection
  unfolding any contains
  resolve_selection seen_customers seen_addresses x =
      elim (get_customer_by_identifier x.customer_id) [
        | err m ↦ err m
        | ok c ↦
            if contains c.id seen_customers
            then err "Duplicate customer assignment is not allowed"
            else elim (resolve_addresses_for_customer c x.all_addresses x.address_ids) [
              | err m ↦ err m
              | ok [] ↦ err "Customer does not have active addresses for selection"
              | ok (a ∷ rest) ↦
                  if any (λ i. contains i seen_addresses) (map address_key (a ∷ rest))
                  then err "Duplicate customer address assignments are not allowed"
                  else ok (record { customer = c; addresses = a ∷ rest })
            ]
      ]

  unfoldable pub resolve_from :
      List ℕ → List ℕ → List CustomerSelection → Result String (List ResolvedCustomerSelection)
  resolve_from seen_customers seen_addresses [] = ok []
  resolve_from seen_customers seen_addresses (x ∷ xs) = do
    r ← resolve_selection seen_customers seen_addresses x
    rest ←
        resolve_from (r.customer.id ∷ seen_customers)
          (map address_key r.addresses ++ seen_addresses) xs
    ok (r ∷ rest)

  unfoldable pub resolve_customer_selections :
      List CustomerSelection → Result String (List ResolvedCustomerSelection)
  unfolding resolve_from
  resolve_customer_selections = resolve_from [] []

  -- The one supplier of the customers.
  unfoldable pub derive_supplier : List ResolvedCustomerSelection → Result String Supplier
  unfolding all find
  derive_supplier [] = err "Customers are not linked to an active supplier"
  derive_supplier (r ∷ rs) =
      if all (λ x. x.customer.supplier_id == r.customer.supplier_id) rs
      then or_raise "Supplier record not available for customers"
          (find (λ p. p.id == r.customer.supplier_id) s.suppliers)
      else err "Customers must belong to the same supplier"

  -- The rows of the ids, all of which must be there, and of the supplier.
  unfoldable pub load_customers_by_ids : List String → ℕ → Result String (List Customer)
  unfolding where_rows all contains parse_all
  load_customers_by_ids identifiers expected =
      elim (parse_all lib "Invalid customer identifier in memberships" identifiers) [
        | err m ↦ err m
        | ok ids ↦
            let customers = where_rows (λ c. contains c.id ids) s.customers in
            if all (λ i. contains i (map customer_key customers)) ids
            then (if all (λ c. c.supplier_id == expected) customers
                then ok customers
                else err "Customer not linked to supplier scope")
            else err "Unknown customer ids in memberships"
      ]

  -- The supplier of an address is that of its customer, if this is there.
  unfoldable pub address_fits : ℕ → CustomerAddress → Bool
  unfolding find
  address_fits expected a = elim (find (λ c. c.id == a.customer_id) s.customers) [
    | none ↦ true
    | some c ↦ c.supplier_id == expected
  ]

  unfoldable pub load_addresses_by_ids : List String → ℕ → Result String (List CustomerAddress)
  unfolding where_rows all contains parse_all
  load_addresses_by_ids identifiers expected =
      elim (parse_all lib "Invalid address identifier in memberships" identifiers) [
        | err m ↦ err m
        | ok ids ↦
            let addresses = where_rows (λ a. contains a.id ids) s.addresses in
            if all (λ i. contains i (map address_key addresses)) ids
            then (if all (address_fits expected) addresses
                then ok addresses
                else err "Address not linked to supplier scope")
            else err "Unknown address ids in memberships"
      ]

  -- The targets of a user's links of one kind, in the order of the table.
  unfoldable pub linked : LinkType → ℕ → List ℕ
  unfolding where_rows
  linked t user_id =
      map (λ l. l.target_id) (where_rows (λ l. l.link_type == t && l.user_id == user_id) s.links)

  -- The rows of the ids that are there.
  unfoldable pub rows_of {ℓ} : {A : Type ℓ} → (ℕ → Option A) → List ℕ → List A
  rows_of row [] = []
  rows_of row (i ∷ is) =
      let rest = rows_of row is in elim (row i) [ none ↦ rest | some x ↦ x ∷ rest ]

  unfoldable pub resolved_from_user : ℕ → List ResolvedCustomerSelection
  unfolding linked rows_of find where_rows
  resolved_from_user user_id =
      let addresses =
        rows_of (λ i. find (λ a. a.id == i) s.addresses) (linked LinkType.address user_id) in
      map
        (λ c. record {
          customer = c;
          addresses = where_rows (λ a. a.erp_customer_id == c.erp_customer_id) addresses;
        })
        (rows_of (λ i. find (λ c. c.id == i) s.customers) (linked LinkType.customer user_id))
