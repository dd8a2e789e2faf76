-- ===== src/Users/Accounts/Tests.antt =====
-- The theorems on accounts at concrete data.
use Prim.Native.String.{count}
use package.text.Mathlib.TextLemmas.{length-append}
use vinc_api.Base.{
  ◌≡◌, ◌≤◌, refl, ap, ◌∙◌, ℕ, zero, suc, string_eq, nat_eq, option_eq, ◌==◌, ==_sound, true, false,
  none, some, [], ◌∷◌, map, ok, arith, All, no_repeat, find, any, where_rows, length, Bool-cases,
  inl, inr,
}
use vinc_api.Users.Model.{User, UserStatus, LinkType, link_type_eq, Link, Store}
use vinc_api.Users.Roles.{canonicalize_role}
use vinc_api.Users.Samples.{id_text, lib, link, helper, buyer, shop_customer, depot, store}
use vinc_api.Users.Accounts.Lookups.{
  CustomerSelection, ResolvedCustomerSelection, address_key, resolve_customer_selections,
  resolve_selection, get_customer_by_identifier, find_customer, resolve_addresses_for_customer,
  active_addresses,
}
use vinc_api.Users.Accounts.Contexts.{
  MembershipContext, flatten, selection_key, build_context_for_create,
}
use vinc_api.Users.Accounts.Service.{
  Accounts, UserCreateRequest, UserUpdateRequest, new_user, with_user, create_user,
}
use vinc_api.Users.Accounts.Updates.{assign_links, update_user}
use vinc_api.Users.Accounts.Selections.{IsSelectable, resolve_customer_selections_lem}
use vinc_api.Users.Accounts.Isolation.{IsOfOneSupplier, build_context_for_create-IsOfOneSupplier}
use vinc_api.Users.Accounts.Created.{IsCreated, create_user-IsCreated}
use vinc_api.Users.Accounts.Returned.{create_user-returns}
use vinc_api.Users.Accounts.Keys.{HasUniqueKeys}
use vinc_api.Users.Accounts.Runs.{here, next, updated, Run-HasUniqueKeys}
use vinc_api.Users.Accounts.Assigned.{KeepsKey, targets_of, is_untouched, assign_links_lem}
use vinc_api.Users.Accounts.Associations.{
  Association, add_user_customer_association, delete_user_customer_association, is_to_address_of,
  addresses_of,
}
use vinc_api.Users.Accounts.Associations.Roundtrip.{PrintsIds, delete-add_user_customer_association}
use vinc_api.Users.Accounts.Listing.{Filters, UserListResponse, list_users_endpoint}
use vinc_api.Users.Accounts.Listing.Pages.{pages_of, listed_users, list_users_endpoint-pages}

count-id_text : (n : ℕ) → count (id_text n) ≡ n
count-id_text zero = refl
count-id_text (suc n) = length-append "i" (id_text n) ∙ omega (arith, count-id_text n)

lib-PrintsIds : PrintsIds lib
lib-PrintsIds n = ap some (count-id_text n)

abbrev selection : CustomerSelection
selection = record { customer_id = "C50"; all_addresses = true; address_ids = [] }

abbrev resolved : ResolvedCustomerSelection
resolved = record { customer = shop_customer 50 "C50"; addresses = depot 60 50 "C50" ∷ [] }

resolve_customer_selections_lem_example :
    All (IsSelectable store) (resolved ∷ [])
    × (no_repeat (map selection_key (resolved ∷ [])) ≡ true)
    × (no_repeat (map address_key (flatten (resolved ∷ []))) ≡ true)
unfolding resolve_customer_selections no_repeat string_eq nat_eq find resolve_selection
    get_customer_by_identifier find_customer resolve_addresses_for_customer active_addresses
resolve_customer_selections_lem_example =
    resolve_customer_selections_lem lib store (selection ∷ []) (resolved ∷ []) refl refl

abbrev context : MembershipContext
context = record {
  membership_doc = none;
  supplier_for_stamp = some (id_text 4);
  allowed_wholesalers = id_text 4 ∷ [];
  multi_tenant = false;
  supplier_links = [];
  customer_ids = 50 ∷ [];
  address_ids = 60 ∷ [];
  allowed_customer_ids = id_text 50 ∷ [];
  allowed_address_ids = id_text 60 ∷ [];
}

build_context_for_create-IsOfOneSupplier_example : IsOfOneSupplier store context
unfolding build_context_for_create no_repeat string_eq nat_eq resolve_selection
    get_customer_by_identifier find_customer resolve_addresses_for_customer active_addresses
build_context_for_create-IsOfOneSupplier_example =
    build_context_for_create-IsOfOneSupplier lib store none (selection ∷ []) [] context refl refl

abbrev request : UserCreateRequest
request = record {
  email = "n@s.it";
  name = none;
  role = some "Agent";
  suppliers = [];
  customers = selection ∷ [];
  memberships = none;
  send_invite = false;
}

abbrev accounts : Accounts
accounts = record { store = store; memberships = none }

abbrev newcomer : User
newcomer = record {
  id = 7;
  email = "n@s.it";
  name = none;
  role = "agent";
  status = UserStatus.invited;
  auth_provider = "keycloak";
  kc_user_id = none;
  supplier_id = none;
}

create_user-IsCreated_example :
    IsCreated lib 7 3 request none store newcomer (with_user 3 newcomer context accounts).store
unfolding create_user with_user string_eq nat_eq option_eq resolve_selection
    get_customer_by_identifier find_customer resolve_addresses_for_customer active_addresses
create_user-IsCreated_example =
    create_user-IsCreated lib none 7 3 request none accounts (with_user 3 newcomer context accounts)
      newcomer refl

create_user-returns_example :
    create_user lib none 7 3 request none accounts
    ≡ ok (
      new_user 7 request none "agent" none,
      with_user 3 (new_user 7 request none "agent" none) context accounts,
    )
unfolding build_context_for_create canonicalize_role no_repeat string_eq nat_eq where_rows
    resolve_selection get_customer_by_identifier find_customer resolve_addresses_for_customer
    active_addresses
create_user-returns_example =
    create_user-returns lib 7 3 request none accounts context "agent" refl refl refl refl refl refl
      refl

abbrev keep_notes : Link → Link → Link
keep_notes old new = record new { notes = old.notes }

keep_notes-KeepsKey : KeepsKey keep_notes
unfolding KeepsKey
keep_notes-KeepsKey old new = (refl, refl, refl)

assign_links_lem_example :
    let after = assign_links lib keep_notes 3 1 context store.links in
    (targets_of LinkType.customer 1 after ≡ 50 ∷ [])
    × (targets_of LinkType.address 1 after ≡ 60 ∷ [])
    × (where_rows (is_untouched 1) after ≡ where_rows (is_untouched 1) store.links)
assign_links_lem_example =
    assign_links_lem lib keep_notes 3 1 context store.links keep_notes-KeepsKey

abbrev change : UserUpdateRequest
change = record { role = some "Viewer"; customers = some (selection ∷ []); memberships = none }

abbrev changed : Accounts
changed = record accounts {
  store = record store {
    users = record buyer { role = "viewer" } ∷ helper ∷ [];
    links =
        record link { updated_at = 3 }
        ∷ record link { link_type = LinkType.address; target_id = 60; updated_at = 3 }
        ∷ [];
  };
}

store-HasUniqueKeys : HasUniqueKeys store.users
unfolding HasUniqueKeys where_rows
store-HasUniqueKeys = (
  λ i. elim (Bool-cases (1 == i)) [
    | inl e ↦
        let other : 9 == i ≡ false = rw (← ==_sound 1 i e) (unfold nat_eq in refl) in ground arith
    | inr e ↦ ground arith
  ],
  λ t. elim (Bool-cases ("b@s.it" == t)) [
    | inl e ↦
        let other : "h@s.it" == t ≡ false =
          rw (← ==_sound "b@s.it" t e) (unfold string_eq in refl) in
        ground arith
    | inr e ↦ ground arith
  ],
  λ k. elim (Bool-cases (some "kc1" == some k)) [
    | inl e ↦
        let other : some "kc9" == some k ≡ false =
          rw (← ==_sound (some "kc1") (some k) e) (unfold option_eq in unfold string_eq in refl) in
        ground arith
    | inr e ↦ ground arith
  ],
)

Run-HasUniqueKeys_example : HasUniqueKeys changed.store.users
unfolding update_user string_eq nat_eq option_eq link_type_eq resolve_selection
    get_customer_by_identifier find_customer resolve_addresses_for_customer active_addresses
Run-HasUniqueKeys_example =
    Run-HasUniqueKeys lib keep_notes accounts changed store-HasUniqueKeys
      (next here (updated none 3 1 change (record buyer { role = "viewer" }) changed refl))

abbrev association : Association
association = record {
  customer_id = some (id_text 51);
  all_addresses = true;
  address_ids = [];
  role = "buyer";
}

abbrev extended : Store
extended = record store {
  links =
      link
      ∷ record link { user_id = 9; target_id = 51; updated_at = 3 }
      ∷ record link { link_type = LinkType.address; user_id = 9; target_id = 61; updated_at = 3 }
      ∷ [];
}

delete-add_user_customer_association_example :
    delete_user_customer_association lib 3 9 51 extended ≡ ok store
unfolding add_user_customer_association is_to_address_of addresses_of string_eq nat_eq link_type_eq
    find any
delete-add_user_customer_association_example =
    delete-add_user_customer_association lib 3 9 association store extended helper (id_text 51) 51
      (shop_customer 51 "C51") lib-PrintsIds refl refl refl refl refl refl

abbrev filters : Filters
filters = record { search = none; role_filter = none; status_filter = none; supplier_id = none }

abbrev page : UserListResponse
page = list_users_endpoint (λ t x. t == x) store (λ us. us) false (some 4) 2 1 filters

list_users_endpoint-pages_example :
    (length page.items ≤ 1)
    × (page.total
        ≡ length (listed_users (λ t x. t == x) store (λ k us. us) false (some 4) 1 filters))
    × (pages_of (λ t x. t == x) store (λ k us. us) false (some 4) 1 filters page.total_pages
        ≡ listed_users (λ t x. t == x) store (λ k us. us) false (some 4) 1 filters)
list_users_endpoint-pages_example =
    list_users_endpoint-pages (λ t x. t == x) store (λ k us. us) false (some 4) 1 filters
      (omega arith) (λ k. refl) refl 2
