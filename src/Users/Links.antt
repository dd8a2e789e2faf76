-- ===== src/Users/Links.antt =====
-- modules/users/link_manager.py: the status of the links of a user to suppliers, customers and
-- addresses, and who may manage them. The three tables of links are one list with the kind of each
-- link; a row of a link's target is looked up in the tables of customers and addresses.
pub mod Changes
pub mod Access
pub mod Requests
pub mod Routes
pub mod Reads
use vinc_api.Base.{
  ℕ, String, string_eq, nat_eq, ◌==◌, Bool, true, false, ◌&&◌, ◌||◌, Option, none, some, List, [],
  ◌∷◌, ◌++◌, Result, ok, err, find, update_rows, if◌then◌else◌, Eq, or_text, or_value,
}
use vinc_api.Users.Model.{
  LinkType, link_type_eq, LinkStatus, Link, User, Customer, CustomerAddress, EventType, AuditEvent,
  ChangeRecord, Store,
}

-- The primary key of a link.
unfoldable pub is_link : LinkType → ℕ → ℕ → Link → Bool
is_link t u i l = l.link_type == t && (l.user_id == u && l.target_id == i)

-- `_get_link`
unfoldable pub get_link : LinkType → ℕ → ℕ → Store → Option Link
unfolding find is_link
get_link t u i s = find (is_link t u i) s.links

-- The four methods are the same but for the status, the flag and the kind of event.
pub record Change : Type 0 where
  pub event_type : EventType
  pub status : LinkStatus
  pub is_active : Bool

abbrev pub activating : Change
activating = record {
  event_type = EventType.activated;
  status = LinkStatus.active;
  is_active = true;
}

abbrev pub deactivating : Change
deactivating = record {
  event_type = EventType.deactivated;
  status = LinkStatus.suspended;
  is_active = false;
}

abbrev pub suspending : Change
suspending = record {
  event_type = EventType.suspended;
  status = LinkStatus.suspended;
  is_active = false;
}

abbrev pub revoking : Change
revoking = record { event_type = EventType.revoked; status = LinkStatus.revoked; is_active = false }

module _ (now : ℕ) (has_audit : Bool) (t : LinkType) (user_id target_id : ℕ) (actor : User)
    (reason : Option String) where
  unfoldable pub change_link : Change → Store → Result String (Unit {0}) × Store
  unfolding get_link update_rows
  change_link c s = elim (get_link t user_id target_id s) [
    | none ↦ (err "Link not found", s)
    | some link ↦
        let link' : Link = record link {
          status = c.status;
          is_active = c.is_active;
          updated_at = now;
        } in
        let event : AuditEvent = record {
          link_type = t;
          event_type = c.event_type;
          user_id = user_id;
          target_id = target_id;
          actor_id = actor.id;
          actor_role = actor.role;
          snapshot = link';
          changes =
              ChangeRecord.status link.status c.status
              ∷ ChangeRecord.is_active link.is_active c.is_active
              ∷ [];
          reason = reason;
        } in
        (
          ok tt,
          record s {
            links = update_rows (is_link t user_id target_id) (λ l. link') s.links;
            events = if has_audit then s.events ++ (event ∷ []) else s.events;
          },
        )
  ]

  unfoldable pub activate_link : Store → Result String (Unit {0}) × Store
  unfolding change_link
  activate_link = change_link activating

  unfoldable pub deactivate_link : Store → Result String (Unit {0}) × Store
  unfolding change_link
  deactivate_link = change_link deactivating

  unfoldable pub suspend_link : Store → Result String (Unit {0}) × Store
  unfolding change_link
  suspend_link = change_link suspending

  unfoldable pub revoke_link : Store → Result String (Unit {0}) × Store
  unfolding change_link
  revoke_link = change_link revoking

unfoldable pub can_manage_supplier_link : User → Bool
can_manage_supplier_link actor = actor.role == "super_admin"

-- `actor.role in ("supplier_admin", "supplier_helpdesk")`
unfoldable pub is_supplier_staff : User → Bool
is_supplier_staff actor = actor.role == "supplier_admin" || actor.role == "supplier_helpdesk"

-- The customer of that id belongs to the actor's supplier.
unfoldable pub is_own_customer : User → ℕ → Store → Bool
unfolding find
is_own_customer actor customer_id s = elim actor.supplier_id [
  | none ↦ false
  | some supplier_id ↦ elim (find (λ c. c.id == customer_id) s.customers) [
    | none ↦ false
    | some c ↦ c.supplier_id == supplier_id
  ]
]

unfoldable pub can_manage_customer_link : User → ℕ → Store → Bool
unfolding is_supplier_staff is_own_customer
can_manage_customer_link actor customer_id s =
    if actor.role == "super_admin"
    then true
    else is_supplier_staff actor && is_own_customer actor customer_id s

unfoldable pub can_manage_address_link : User → ℕ → Store → Bool
unfolding is_supplier_staff is_own_customer find
can_manage_address_link actor address_id s =
    if actor.role == "super_admin"
    then true
    else is_supplier_staff actor && elim (find (λ a. a.id == address_id) s.addresses) [
      | none ↦ false
      | some a ↦ is_own_customer actor a.customer_id s
    ]

unfoldable pub can_view_audit : User → ℕ → Bool
unfolding is_supplier_staff
can_view_audit actor link_user_id =
    if actor.role == "super_admin"
    then true
    else if is_supplier_staff actor
    then true
    else actor.id == link_user_id
