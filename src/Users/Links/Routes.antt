-- ===== src/Users/Links/Routes.antt =====
-- modules/users/supplier_links_router.py, customer_links_router.py and address_links_router.py: the
-- routes on links. A route that raises rolls the session back and gives no tables.
pub mod Views
pub mod Returned
pub mod Unchanged
pub mod Journal
pub mod Runs
pub mod History
pub mod Endings
mod Tests
use vinc_api.Base.{
  ℕ, String, string_eq, ◌==◌, nat_eq, Bool, true, false, not, ◌&&◌, Option, none, some, List, [],
  ◌∷◌, ◌++◌, Result, ok, err, ◌>>=◌, or_raise, given, find, where_rows, update_rows, contains, take,
  or_value, option_eq, if◌then◌else◌,
}
use vinc_api.Users.Model.{
  LinkType, link_type_eq, LinkStatus, link_status_eq, Link, User, Supplier, EventType, AuditEvent,
  ChangeRecord, Store,
}
use vinc_api.Users.Links.{
  is_link, get_link, Change, change_link, activating, deactivating, suspending,
  can_manage_customer_link, can_manage_address_link,
}
use vinc_api.Users.Roles.{require_roles}
use vinc_api.Users.Accounts.Lookups.{load_user_with_relations_by_kc_id}
use vinc_api.Permissions.{UuidLib}
use vinc_api.Users.Links.Requests.{
  HttpError, http_error, uncaught, LinkCaller, Mongo, no_database, a_database, is_there, truth,
  refusing, guard, staff_roles, super_roles, actor_of, link_event, logged, Entry, absent, null,
  value, valid_role, valid_status, not_revoked, SupplierLinkPayload, SupplierLinkUpdate,
  update_changes, new_flag, new_notes, is_nil,
}

abbrev pub is_absent {ℓ} : {A : Type ℓ} → Option A → Bool
is_absent none = true
is_absent (some a) = false

abbrev pub exists : HttpError
exists = http_error 400 "Link already exists"

abbrev pub flushed : Result String ℕ → Result HttpError ℕ
flushed (ok t) = ok t
flushed (err m) = err (uncaught m)

module _ (lib : UuidLib) (caller : LinkCaller) (mongo : Mongo) where
  unfoldable pub list_user_suppliers : ℕ → Store → Result HttpError (List Link)
  unfolding find where_rows require_roles
  list_user_suppliers user_id s = do
    _ ← refusing 403 (require_roles super_roles caller.user_role)
    _ ← or_raise (http_error 404 "User not found") (find (λ u. u.id == user_id) s.users)
    ok (where_rows (λ l. l.link_type == LinkType.supplier && l.user_id == user_id) s.links)

  -- `UUID(payload.get("supplier_id"))`
  unfoldable pub payload_supplier : Option String → Result HttpError ℕ
  payload_supplier none = err (uncaught "TypeError")
  payload_supplier (some t) = or_raise (uncaught "ValueError") (lib.parse t)

  unfoldable pub create_supplier_link :
      ℕ → ℕ → SupplierLinkPayload → Store → Result HttpError (Link × Store)
  unfolding actor_of find payload_supplier get_link valid_role valid_status not_revoked
  create_supplier_link now user_id p s = do
    actor ← actor_of super_roles caller s
    _ ← or_raise (http_error 404 "User not found") (find (λ u. u.id == user_id) s.users)
    supplier_id ← payload_supplier p.supplier_id
    _ ← or_raise (http_error 404 "Supplier not found") (find (λ x. x.id == supplier_id) s.suppliers)
    _ ← guard (is_absent (get_link LinkType.supplier user_id supplier_id s)) exists
    role ← valid_role p.role "viewer"
    status ← valid_status not_revoked p.status LinkStatus.active
    let l : Link = record {
      link_type = LinkType.supplier;
      user_id = user_id;
      target_id = supplier_id;
      role = role;
      status = status;
      is_active = or_value p.is_active (status == LinkStatus.active);
      notes = p.notes;
      updated_at = now;
    }
    ok (
      l,
      record s {
        links = s.links ++ (l ∷ []);
        events =
            logged (is_there mongo) (link_event EventType.created actor p.reason [] l) s.events;
      },
    )

  -- `onupdate` is what the database toolkit makes of the None in `updated_at`: a time, or a refusal.
  unfoldable pub update_supplier_link :
      Result String ℕ → ℕ → ℕ → SupplierLinkUpdate → Store → Result HttpError (Link × Store)
  unfolding actor_of get_link is_link valid_role valid_status update_changes update_rows
  update_supplier_link onupdate user_id supplier_id p s = do
    actor ← actor_of super_roles caller s
    old ←
        or_raise (http_error 404 "Link not found")
          (get_link LinkType.supplier user_id supplier_id s)
    role ← valid_role p.role old.role
    status ← valid_status (λ st. true) p.status old.status
    time ← flushed onupdate
    let l : Link = record old {
      role = role;
      status = status;
      is_active = new_flag p.is_active old.is_active;
      notes = new_notes p.notes old.notes;
      updated_at = time;
    }
    let changes = update_changes p.notes old l
    ok (
      l,
      record s {
        links = update_rows (is_link LinkType.supplier user_id supplier_id) (λ r. l) s.links;
        events =
            logged (is_there mongo && not (is_nil changes))
              (link_event EventType.updated actor p.reason changes l) s.events;
      },
    )

  unfoldable pub delete_supplier_link : ℕ → ℕ → Store → Result HttpError Store
  unfolding actor_of get_link is_link where_rows
  delete_supplier_link user_id supplier_id s = do
    actor ← actor_of super_roles caller s
    l ←
        or_raise (http_error 404 "Link not found")
          (get_link LinkType.supplier user_id supplier_id s)
    ok (record s {
      links = where_rows (λ r. not (is_link LinkType.supplier user_id supplier_id r)) s.links;
      events = logged (is_there mongo) (link_event EventType.deleted actor none [] l) s.events;
    })

  -- The nine routes that change a status: the roles and the check of the permission differ, the
  -- change is that of the status manager.
  unfoldable pub change_route :
      List String
      → (User → ℕ → Store → Bool)
      → LinkType
      → Change
      → ℕ
      → ℕ
      → ℕ
      → Option String
      → Store
      → Result HttpError Store
  unfolding actor_of change_link
  change_route roles permitted t c now user_id target_id reason s = do
    actor ← actor_of roles caller s
    _ ← guard (permitted actor target_id s) (http_error 403 "Insufficient permissions")
    has_audit ← truth mongo
    let (answer, s') = change_link now has_audit t user_id target_id actor reason c s
    elim answer [ err m ↦ err (http_error 404 m) | ok u ↦ ok s' ]

  abbrev for_super_admin : User → ℕ → Store → Bool
  for_super_admin actor target_id s = true

  unfoldable pub activate_supplier_link : ℕ → ℕ → ℕ → Option String → Store → Result HttpError Store
  unfolding change_route
  activate_supplier_link = change_route super_roles for_super_admin LinkType.supplier activating

  unfoldable pub deactivate_supplier_link :
      ℕ → ℕ → ℕ → Option String → Store → Result HttpError Store
  unfolding change_route
  deactivate_supplier_link = change_route super_roles for_super_admin LinkType.supplier deactivating

  unfoldable pub suspend_supplier_link : ℕ → ℕ → ℕ → Option String → Store → Result HttpError Store
  unfolding change_route
  suspend_supplier_link = change_route super_roles for_super_admin LinkType.supplier suspending

  unfoldable pub activate_customer_link : ℕ → ℕ → ℕ → Option String → Store → Result HttpError Store
  unfolding change_route can_manage_customer_link
  activate_customer_link =
      change_route staff_roles can_manage_customer_link LinkType.customer activating

  unfoldable pub deactivate_customer_link :
      ℕ → ℕ → ℕ → Option String → Store → Result HttpError Store
  unfolding change_route can_manage_customer_link
  deactivate_customer_link =
      change_route staff_roles can_manage_customer_link LinkType.customer deactivating

  unfoldable pub suspend_customer_link : ℕ → ℕ → ℕ → Option String → Store → Result HttpError Store
  unfolding change_route can_manage_customer_link
  suspend_customer_link =
      change_route staff_roles can_manage_customer_link LinkType.customer suspending

  unfoldable pub activate_address_link : ℕ → ℕ → ℕ → Option String → Store → Result HttpError Store
  unfolding change_route can_manage_address_link
  activate_address_link =
      change_route staff_roles can_manage_address_link LinkType.address activating

  unfoldable pub deactivate_address_link :
      ℕ → ℕ → ℕ → Option String → Store → Result HttpError Store
  unfolding change_route can_manage_address_link
  deactivate_address_link =
      change_route staff_roles can_manage_address_link LinkType.address deactivating

  unfoldable pub suspend_address_link : ℕ → ℕ → ℕ → Option String → Store → Result HttpError Store
  unfolding change_route can_manage_address_link
  suspend_address_link =
      change_route staff_roles can_manage_address_link LinkType.address suspending
