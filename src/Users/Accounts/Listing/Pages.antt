-- ===== src/Users/Accounts/Listing/Pages.antt =====
-- The pages of a list of users.
use Prim.Native.Nat.{◌%◌}
use native.Mathlib.Nat.{div-add-mod', mod-lt}
use vinc_api.Base.{
  skip, take, length-take, take-all, take-add, ◌≡◌, ◌≤◌, ◌<◌, refl, sym, ap, ◌∙◌, ℕ, zero, suc, ◌+◌,
  ◌-◌, ◌*◌, ◌/◌, Bool, List, [], ◌++◌, length, arith, where_rows, ltb, Bool-cases, inl, inr, String,
  Option, none, some, true, false, if◌then◌else◌,
}
use vinc_api.Users.Model.{User, Store}
use vinc_api.Users.Accounts.Listing.{
  Filters, passes, list_users_paginated, total_pages, list_users_endpoint, UserListResponse,
  effective_supplier_id,
}

zero_mul : (n : ℕ) → 0 ≡ 0 * n
zero_mul n = omega arith

suc_mul : (k n : ℕ) → suc k * n ≡ k * n + n
suc_mul k n = omega arith

module _ {A : Type 0} where
  -- The first pages of a list, one after the other.
  unfoldable pub pages : ℕ → ℕ → List A → List A
  unfolding take skip
  pages zero size xs = []
  pages (suc k) size xs = pages k size xs ++ take size (skip (k * size) xs)

  pages-take : (k size : ℕ) (xs : List A) → pages k size xs ≡ take (k * size) xs
  unfolding pages
  pages-take zero size xs = unfold take in ap (λ k. take k xs) (zero_mul size)
  pages-take (suc k) size xs =
      ap (λ t. t ++ take size (skip (k * size) xs)) (pages-take k size xs)
      ∙ sym (take-add (k * size) size xs)
      ∙ ap (λ n. take n xs) (sym (suc_mul k size))

total_pages-enough : (total size : ℕ) → 1 ≤ size → total ≤ total_pages total size * size
unfolding total_pages
total_pages-enough total size h = elim (Bool-cases (ltb 0 total)) [
  | inl e ↦
      let a = total + size - 1 in
      let whole : a / size * size + a % size ≡ a = div-add-mod' a size in
      let part : a % size < size = mod-lt a (omega arith) in rw e (omega arith)
  | inr e ↦ let none_there : total ≡ 0 = ground arith in rw (e, none_there) (omega arith)
]

effective_supplier_id_lem :
    (is_super_admin : Bool) (asked tenant : Option ℕ)
    → effective_supplier_id is_super_admin asked tenant
      ≡ (if is_super_admin then elim asked [ none ↦ tenant | some p ↦ some p ] else tenant)
unfolding effective_supplier_id
effective_supplier_id_lem true none tenant = refl
effective_supplier_id_lem true (some p) tenant = refl
effective_supplier_id_lem false asked tenant = refl

-- `order` is the order that the database gives to the rows of the query of a page.
module _ (ilike : String → String → Bool) (s : Store) (order : ℕ → List User → List User)
    (is_super_admin : Bool) (tenant : Option ℕ) (size : ℕ) (f : Filters) where
  abbrev page_of : ℕ → UserListResponse
  page_of page = list_users_endpoint ilike s (order page) is_super_admin tenant page size f

  -- The items of the pages from the first one on.
  unfoldable pub pages_of : ℕ → List User
  pages_of zero = []
  pages_of (suc k) = pages_of k ++ (page_of (suc k)).items

  -- Only a super admin is shown another supplier than the tenant.
  abbrev scope_of : Filters
  scope_of = record f {
    supplier_id =
        if is_super_admin then elim f.supplier_id [ none ↦ tenant | some p ↦ some p ] else tenant;
  }

  unfoldable pub listed_users : List User
  unfolding where_rows passes
  listed_users = where_rows (passes ilike s scope_of) s.users

  page_of-items :
      (k : ℕ) → (page_of (suc k)).items ≡ take size (skip (k * size) (order (suc k) listed_users))
  unfolding list_users_endpoint list_users_paginated listed_users
  page_of-items k =
      let before : suc k - 1 ≡ k = omega arith in
      rw (before, effective_supplier_id_lem is_super_admin f.supplier_id tenant) refl

  pages_of-pages :
      ((page : ℕ) → order page listed_users ≡ order 0 listed_users)
      → (k : ℕ) → pages_of k ≡ pages k size (order 0 listed_users)
  unfolding pages_of pages
  pages_of-pages same zero = refl
  pages_of-pages same (suc k) = rw (page_of-items k, same (suc k), pages_of-pages same k) refl

  -- A page has no more users than its size, and names the number of all the users that pass the filters
  -- in the supplier's scope: the tenant, or for a super admin the supplier that is asked for, if any.
  -- If the database keeps the number of users and gives the same order in the query of every page,
  -- which the source's order by the time of creation promises only where no two users were created at
  -- the same time, then the pages, one after the other up to the number of pages that each of them
  -- gives, are all these users in this order.
  pub list_users_endpoint-pages :
      1 ≤ size
      → ((page : ℕ) → order page listed_users ≡ order 0 listed_users)
      → length (order 0 listed_users) ≡ length listed_users
      → (page : ℕ)
      → (length (page_of page).items ≤ size)
        × ((page_of page).total ≡ length listed_users)
        × (pages_of (page_of page).total_pages ≡ order 0 listed_users)
  unfolding list_users_endpoint list_users_paginated listed_users
  list_users_endpoint-pages h same keeps page =
      let total = length listed_users in
      let enough = total_pages-enough total size h in
      let all_users = order 0 listed_users in
      let n = total_pages total size in
      let scope = effective_supplier_id_lem is_super_admin f.supplier_id tenant in
      let shown =
        where_rows
          (passes ilike s
            (record f { supplier_id = effective_supplier_id is_super_admin f.supplier_id tenant }))
          s.users in
      (
        length-take size (skip ((page - 1) * size) (order page shown)),
        rw scope refl,
        rw scope (
            pages_of-pages same n
            ∙ pages-take n size all_users
            ∙ take-all (n * size) all_users (rw keeps enough)),
      )
