-- ===== src/Users/Tests.antt =====
-- The theorems on roles and links at concrete data.
use package.text.Mathlib.TextEquality.{eq_iff}
use vinc_api.Base.{◌≡◌, ◌⊎◌, refl, string_eq, nat_eq, true, false, none, some, arith, lower}
use vinc_api.Users.Roles.{canonicalize_role, canonical_role}
use vinc_api.Users.Roles.Canonical.{canonical_role-canonicalize_role}
use vinc_api.Users.Samples.{helper, store}
use vinc_api.Users.Model.{LinkType, link_type_eq, LinkStatus, User, EventType}
use vinc_api.Users.Links.{
  Change, activate_link, deactivate_link, suspend_link, revoke_link, can_manage_customer_link,
}
use vinc_api.Users.Links.Changes.{AllAligned, links-AllAligned}
use vinc_api.Users.Links.Access.{Owned, can_manage_customer_link_lem}

canonical_role-canonicalize_role_example :
    canonical_role (some "Wholesaler_Admin") ≡ some "supplier_admin"
unfolding canonicalize_role lower string_eq
canonical_role-canonicalize_role_example =
    canonical_role-canonicalize_role "Wholesaler_Admin" "supplier_admin" refl
      (ground (arith, eq_iff "wholesaler_admin" "agent_admin"))
      (ground (arith, eq_iff "Wholesaler_Admin" ""))

abbrev revoking : Change
revoking = record { event_type = EventType.revoked; status = LinkStatus.revoked; is_active = false }

store-AllAligned : AllAligned store
store-AllAligned = (((λ h. refl), (λ h. refl)), tt)

links-AllAligned_example :
    AllAligned (activate_link 5 true LinkType.customer 1 50 helper none store).1
    × AllAligned (deactivate_link 5 true LinkType.customer 1 50 helper none store).1
    × AllAligned (suspend_link 5 true LinkType.customer 1 50 helper none store).1
    × AllAligned (revoke_link 5 true LinkType.customer 1 50 helper none store).1
links-AllAligned_example =
    links-AllAligned 5 true LinkType.customer 1 50 helper none store store-AllAligned

can_manage_customer_link_lem_example :
    (helper.role ≡ "super_admin")
    ⊎ (((helper.role ≡ "supplier_admin") ⊎ (helper.role ≡ "supplier_helpdesk"))
        × Owned helper 50 store)
unfolding can_manage_customer_link string_eq nat_eq
can_manage_customer_link_lem_example = can_manage_customer_link_lem helper 50 store refl

abbrev helpdesk : User
helpdesk = record helper { role = "wholesaler_helpdesk" }
