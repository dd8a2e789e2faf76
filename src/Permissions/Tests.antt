-- ===== src/Permissions/Tests.antt =====
-- The theorems on memberships at concrete data.
use vinc_api.Base.{
  ◌≡◌, ◌⊎◌, refl, String, string_eq, nat_eq, option_eq, ◌==◌, true, false, none, some, [], ◌∷◌, any,
  contains, given, lower, if◌then◌else◌,
}
use vinc_api.Permissions.{
  MembershipEntry, MembershipDoc, Tables, UuidLib, safe_uuid, expand_scope_for_supplier,
  process_membership_scope, unique_supplier_scope_ids, supplier_scope,
}
use vinc_api.Permissions.Resolve.{MembershipStore}
use vinc_api.Permissions.Guards.{
  RequestState, require_capabilities, get_allowed_customer_ids, get_allowed_address_ids,
}
use vinc_api.Permissions.Entitled.{IsAnswered, require_capabilities-IsAnswered}
use vinc_api.Permissions.Allowed.{get_allowed_ids-again}
use vinc_api.Permissions.Granted.{
  grants_customer, grants_address, expand_scope_for_supplier_lem, NoScope, Scoped,
  process_membership_scope_lem,
}

-- Two texts of UUIDs.
abbrev lib : UuidLib
lib = record {
  parse = λ s. if s == "S4" then some 4 else if s == "c50" then some 50 else none;
  str = λ n. "c50";
}

abbrev entry : String → String → MembershipEntry
entry supplier scope = record {
  scope_type = "supplier";
  scope_id = some supplier;
  role = "agent";
  capabilities = [];
  reseller_scope = some scope;
  reseller_account_ids = "c50" ∷ "c51" ∷ [];
  address_scope = some "all";
  address_ids = [];
}

abbrev doc : MembershipDoc
doc = record {
  user_key = "u";
  default_role = none;
  memberships = entry "S4" "list" ∷ entry "s4" "all" ∷ [];
}

abbrev tables : Tables
tables = record {
  customers =
      record { id = 50; erp_customer_id = "C50"; supplier_id = 4; name = none; is_active = true }
      ∷ [];
  addresses =
      record {
        id = 60;
        erp_address_id = "A60";
        erp_customer_id = "C50";
        customer_id = 50;
        label = none;
        is_active = true;
      }
      ∷ [];
}

one_scope : unique_supplier_scope_ids doc ≡ "S4" ∷ []
unfolding unique_supplier_scope_ids supplier_scope string_eq given contains lower
one_scope = refl

expand_scope_for_supplier_lem_example :
    (contains "c51" (expand_scope_for_supplier lib tables doc "S4").0
      ≡ any (grants_customer lib tables 4 "c51") doc.memberships)
    × (contains "c51" (expand_scope_for_supplier lib tables doc "S4").1
        ≡ any (grants_address lib tables 4 "c51") doc.memberships)
unfolding safe_uuid given string_eq
expand_scope_for_supplier_lem_example =
    expand_scope_for_supplier_lem lib tables 4 "c51" doc "S4" refl

process_membership_scope_lem_example :
    NoScope lib tables doc (process_membership_scope lib tables doc)
    ⊎ Scoped lib tables doc (process_membership_scope lib tables doc)
process_membership_scope_lem_example = process_membership_scope_lem lib tables doc

abbrev store : MembershipStore
store = some (doc ∷ [])

abbrev request : RequestState
request = record {
  permissions_context = none;
  active_wholesaler_id = some "S4";
  tenant_id = some "S4";
  user_sub = some "u";
  effective_capabilities = none;
  allowed_customer_ids = [];
  allowed_address_ids = [];
  allowed_wholesaler_ids = "s4" ∷ [];
  multi_tenant = false;
  user_role = some "agent";
  authenticated_sub = some "u";
}

require_capabilities-IsAnswered_example :
    IsAnswered lib tables store request
      (" Place_Orders" ∷ [])
      (require_capabilities lib tables store (" Place_Orders" ∷ []) request).0
require_capabilities-IsAnswered_example =
    require_capabilities-IsAnswered lib tables store request (" Place_Orders" ∷ []) refl refl

get_allowed_ids-again_example :
    (let (ids, s') = get_allowed_customer_ids lib tables store request in
      get_allowed_customer_ids lib tables store s' ≡ (ids, s'))
    × (let (ids, s') = get_allowed_address_ids lib tables store request in
        get_allowed_address_ids lib tables store s' ≡ (ids, s'))
get_allowed_ids-again_example = get_allowed_ids-again lib tables store request

-- The customer that is no row of the supplier is left out only if its text is a UUID.
one_customer : (get_allowed_customer_ids lib tables store request).0 ≡ "c50" ∷ "c51" ∷ []
unfolding get_allowed_customer_ids string_eq nat_eq option_eq given contains lower
one_customer = refl
