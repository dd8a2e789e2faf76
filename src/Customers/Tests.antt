-- ===== src/Customers/Tests.antt =====
-- The theorems on customers at concrete data.
use vinc_api.Base.{
  ◌≡◌, refl, ℕ, string_eq, nat_eq, option_eq, ◌==◌, false, none, some, List, [], ◌∷◌, any,
  where_rows, All,
}
use vinc_api.Users.Model.{LinkType, link_type_eq, Store, Customer}
use vinc_api.Users.Samples.{id_text, lib, link, shop_customer, depot, store}
use vinc_api.Customers.{Queries, CustomerDetailResponse, is_link_of}
use vinc_api.Customers.Routes.{
  Caller, delete_customer_endpoint, list_customers_endpoint, is_super_admin,
}
use vinc_api.Customers.Scope.{
  ActsFor, delete_customer_endpoint-ActsFor, Deleted, list_customers_endpoint-ActsFor,
}

-- User 9 is a supplier admin with an active link to supplier 4.
abbrev tables : Store
tables = record store {
  links =
      record link { link_type = LinkType.supplier; user_id = 9; target_id = 4; role = "admin" }
      ∷ store.links;
}

abbrev caller : Caller
caller = record {
  user_role = some "supplier_admin";
  user_sub = some "kc9";
  tenant_id = some (id_text 4);
  allowed_customers = [];
  allowed_addresses = [];
}

abbrev left : Store
left = record tables {
  customers = shop_customer 51 "C51" ∷ [];
  addresses = depot 61 51 "C51" ∷ [];
  links =
      record link { link_type = LinkType.supplier; user_id = 9; target_id = 4; role = "admin" }
      ∷ [];
}

delete_customer_endpoint-ActsFor_example :
    (c : Customer) × (where_rows (λ x. x.id == 50) tables.customers ≡ c ∷ [])
    × ActsFor lib caller tables c.supplier_id
    × Deleted c tables left
    × (any (λ x. x.id == c.id) left.customers ≡ false)
    × (any (λ a. a.customer_id == c.id) left.addresses ≡ false)
    × (any (is_link_of c tables) left.links ≡ false)
unfolding is_super_admin delete_customer_endpoint string_eq nat_eq option_eq link_type_eq
delete_customer_endpoint-ActsFor_example =
    delete_customer_endpoint-ActsFor lib caller tables left 50 refl refl

abbrev queries : Queries
queries = record { ilike = λ t x. t == x; texts = λ c. []; by_erp = λ cs. cs; by_label = λ xs. xs }

abbrev listed : List CustomerDetailResponse
listed =
    record { customer = shop_customer 50 "C50"; addresses = depot 60 50 "C50" ∷ [] }
    ∷ record { customer = shop_customer 51 "C51"; addresses = depot 61 51 "C51" ∷ [] }
    ∷ []

list_customers_endpoint-ActsFor_example :
    (t : ℕ) × ActsFor lib caller tables t × All (λ r. r.customer.supplier_id ≡ t) listed
unfolding is_super_admin list_customers_endpoint string_eq nat_eq option_eq link_type_eq
list_customers_endpoint-ActsFor_example =
    list_customers_endpoint-ActsFor lib queries tables (λ p xs h. h) caller false false none none
      listed refl refl
