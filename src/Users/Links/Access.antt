-- ===== src/Users/Links/Access.antt =====
-- Who may manage the links of customers and of addresses.
use vinc_api.Base.{
  ℕ, ◌≡◌, ◌⊎◌, inl, inr, refl, String, string_eq, nat_eq, ◌==◌, true, false, Option, some, ok,
  arith, All, find, Bool-cases, Option-cases,
}
use vinc_api.Users.Roles.{allowed_roles, canonicalize_role}
use vinc_api.Users.Roles.Canonical.{contains-All, canonicalize_role-inverse}
use vinc_api.Users.Model.{User, Store, Customer, CustomerAddress}
use vinc_api.Users.Links.{
  is_supplier_staff, is_own_customer, can_manage_customer_link, can_manage_address_link,
}

-- The customer is found and belongs to the supplier of the actor.
pub record Owned (actor : User) (customer_id : ℕ) (s : Store) : Type 0 where
  pub customer : Customer
  pub found : find (λ c. c.id == customer_id) s.customers ≡ some customer
  pub own : actor.supplier_id ≡ some customer.supplier_id

is_own_customer-Owned :
    (actor : User) (customer_id : ℕ) (s : Store)
    → is_own_customer actor customer_id s ≡ true
    → Owned actor customer_id s
unfolding is_own_customer
is_own_customer-Owned actor customer_id s h = elim (Option-cases actor.supplier_id) [
  | inl q ↦ absurd (ground arith)
  | inr (i, q) ↦ elim (Option-cases (find (λ c. c.id == customer_id) s.customers)) [
    | inl f ↦ absurd (ground arith)
    | inr (c, f) ↦ record { customer = c; found = f; own = ground arith }
  ]
]

-- Who may manage the link of a customer is a super admin, or holds one of the two roles of a
-- supplier's staff and belongs to the supplier of the customer, which is there.
pub can_manage_customer_link_lem :
    (actor : User) (customer_id : ℕ) (s : Store)
    → can_manage_customer_link actor customer_id s ≡ true
    → (actor.role ≡ "super_admin")
      ⊎ (((actor.role ≡ "supplier_admin") ⊎ (actor.role ≡ "supplier_helpdesk"))
          × Owned actor customer_id s)
unfolding can_manage_customer_link is_supplier_staff
can_manage_customer_link_lem actor customer_id s h =
    elim (Bool-cases (is_own_customer actor customer_id s)) [
      | inl y ↦ let owned = is_own_customer-Owned actor customer_id s y in ground (arith, owned)
      | inr n ↦ ground arith
    ]

-- The link of an address that is there may be managed by those who may manage the link of its
-- customer, and by no others.
can_manage_address_link-can_manage_customer_link :
    (actor : User) (address_id : ℕ) (s : Store) (a : CustomerAddress)
    → find (λ x. x.id == address_id) s.addresses ≡ some a
    → can_manage_address_link actor address_id s ≡ can_manage_customer_link actor a.customer_id s
unfolding can_manage_address_link can_manage_customer_link
can_manage_address_link-can_manage_customer_link actor address_id s a f =
    rw (can_manage_address_link, f) refl

-- Of the roles that canonicalizing gives, only supplier_admin counts as a supplier's staff: the
-- canonical role of a helpdesk does not.
pub is_supplier_staff-canonicalize_role :
    (actor : User) (role : Option String)
    → canonicalize_role role ≡ ok (some actor.role)
    → is_supplier_staff actor ≡ (actor.role == "supplier_admin")
unfolding is_supplier_staff
is_supplier_staff-canonicalize_role actor role h =
    let (_, _, member, _) = canonicalize_role-inverse role actor.role h in
    let other =
      contains-All (λ r. (r == "supplier_helpdesk") ≡ false) actor.role allowed_roles no_helpdesk
        member in
    ground (arith, other)
  where
    no_helpdesk : All (λ r. (r == "supplier_helpdesk") ≡ false) allowed_roles
    no_helpdesk = unfold string_eq in (refl, (refl, (refl, (refl, (refl, (refl, (refl, tt)))))))
