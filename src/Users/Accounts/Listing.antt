-- ===== src/Users/Accounts/Listing.antt =====
-- modules/users/service.py and modules/users/router.py: the lists of users. `ilike` is the test of
-- the database on a text and a search, and `by_created` its sort by the time of creation.
pub mod Pages
use vinc_api.Base.{
  skip, take, length-take, take-all, take-add, ℕ, zero, suc, ◌+◌, ◌-◌, ◌*◌, ◌/◌, String, string_eq,
  nat_eq, option_eq, ◌==◌, Bool, true, false, ◌&&◌, ◌||◌, Option, none, some, List, [], ◌∷◌, length,
  where_rows, any, given, ltb, if◌then◌else◌,
}
use vinc_api.Users.Model.{User, UserStatus, LinkType, link_type_eq, Link, Store}

unfoldable pub status_text : UserStatus → String
status_text UserStatus.invited = "invited"
status_text UserStatus.active = "active"
status_text UserStatus.disabled = "disabled"

pub record Filters : Type 0 where
  pub search : Option String
  pub role_filter : Option String
  pub status_filter : Option String
  pub supplier_id : Option ℕ

module _ (ilike : String → String → Bool) (s : Store) where
  -- The user has a link to a customer of the supplier.
  unfoldable pub has_customer_of : ℕ → User → Bool
  unfolding any
  has_customer_of supplier_id u =
      any
        (λ l.
          l.link_type == LinkType.customer
          && (l.user_id == u.id
              && any (λ c. c.id == l.target_id && c.supplier_id == supplier_id) s.customers))
        s.links

  unfoldable pub in_scope : Option ℕ → User → Bool
  in_scope none u = true
  in_scope (some p) u = u.supplier_id == some p || has_customer_of p u

  unfoldable pub matches : Option String → User → Bool
  unfolding given
  matches search u = elim (given search) [
    | none ↦ true
    | some t ↦
        ilike t u.email || (elim u.name [ none ↦ false | some n ↦ ilike t n ] || ilike t u.role)
  ]

  unfoldable pub list_users : (List User → List User) → Option ℕ → Option String → List User
  unfolding where_rows in_scope matches
  list_users by_email supplier_id search =
      by_email (where_rows (λ u. in_scope supplier_id u && matches search u) s.users)

  -- A filter is left out if it is missing or empty.
  unfoldable pub passes : Filters → User → Bool
  unfolding in_scope matches given status_text
  passes f u =
      in_scope f.supplier_id u
      && (matches f.search u
          && (elim (given f.role_filter) [ none ↦ true | some r ↦ u.role == r ]
              && elim (given f.status_filter) [ none ↦ true | some t ↦ status_text u.status == t ]))

  -- The users of the page and the number of all that pass the filters; the first page is 1.
  unfoldable pub list_users_paginated : (List User → List User) → ℕ → ℕ → Filters → List User × ℕ
  unfolding where_rows passes skip take
  list_users_paginated by_created page page_size f =
      let stmt = where_rows (passes f) s.users in
      (take page_size (skip ((page - 1) * page_size) (by_created stmt)), length stmt)

pub record UserListResponse : Type 0 where
  pub items : List User
  pub total : ℕ
  pub page : ℕ
  pub page_size : ℕ
  pub total_pages : ℕ

-- The supplier whose users are listed: for a super admin the one that is asked for.
unfoldable pub effective_supplier_id : Bool → Option ℕ → Option ℕ → Option ℕ
effective_supplier_id true (some p) tenant = some p
effective_supplier_id true none tenant = tenant
effective_supplier_id false asked tenant = tenant

unfoldable pub total_pages : ℕ → ℕ → ℕ
total_pages total page_size = if ltb 0 total then (total + page_size - 1) / page_size else 0

-- After the checks of the role and of the tenant.
unfoldable pub list_users_endpoint :
    (String → String → Bool)
    → Store
    → (List User → List User)
    → Bool
    → Option ℕ
    → ℕ
    → ℕ
    → Filters
    → UserListResponse
unfolding list_users_paginated total_pages effective_supplier_id
list_users_endpoint ilike s by_created is_super_admin tenant page page_size f =
    let scoped = record f {
      supplier_id = effective_supplier_id is_super_admin f.supplier_id tenant;
    } in
    let (users, total) = list_users_paginated ilike s by_created page page_size scoped in
    record {
      items = users;
      total = total;
      page = page;
      page_size = page_size;
      total_pages = total_pages total page_size;
    }
