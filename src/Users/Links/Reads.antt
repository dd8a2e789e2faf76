-- ===== src/Users/Links/Reads.antt =====
-- The routes of supplier_links_router.py, customer_links_router.py and address_links_router.py that
-- read, modules/users/audit_router.py and the searches of modules/users/link_audit.py. Events are
-- logged in the order of their timestamps, so the newest come first from the end of the log.
use vinc_api.Base.{
  ℕ, String, string_eq, ◌==◌, nat_eq, Bool, true, ◌&&◌, Option, none, some, List, [], ◌∷◌, ◌++◌,
  Result, ok, err, ◌>>=◌, or_raise, given, find, where_rows, take, skip, length, if◌then◌else◌,
}
use vinc_api.Users.Model.{
  LinkType, link_type_eq, EventType, event_type_eq, Link, User, AuditEvent, Store,
}
use vinc_api.Users.Links.{get_link, can_manage_customer_link, can_manage_address_link}
use vinc_api.Users.Roles.{require_roles}
use vinc_api.Permissions.{UuidLib}
use vinc_api.Users.Links.Requests.{
  HttpError, http_error, LinkCaller, Mongo, is_there, truth, refusing, guard, staff_roles,
  super_roles, actor_of,
}

-- `sort("timestamp", -1)`
unfoldable pub newest_first : List AuditEvent → List AuditEvent
newest_first [] = []
newest_first (e ∷ es) = newest_first es ++ (e ∷ [])

-- A filter that is not given lets every event pass.
abbrev pub if_given {ℓ} : {A : Type ℓ} → Option A → (A → Bool) → Bool
if_given none p = true
if_given (some a) p = p a

-- `find(query).sort(…).limit(limit)`
unfoldable pub newest : (AuditEvent → Bool) → ℕ → List AuditEvent → List AuditEvent
unfolding newest_first where_rows take
newest p limit es = take limit (newest_first (where_rows p es))

unfoldable pub get_link_history : LinkType → ℕ → ℕ → ℕ → Store → List AuditEvent
unfolding newest
get_link_history t user_id target_id limit s =
    newest (λ e. e.link_type == t && (e.user_id == user_id && e.target_id == target_id)) limit
      s.events

unfoldable pub get_user_link_history : ℕ → Option LinkType → ℕ → Store → List AuditEvent
unfolding newest
get_user_link_history user_id t limit s =
    newest (λ e. e.user_id == user_id && if_given t (λ k. e.link_type == k)) limit s.events

unfoldable pub get_recent_events : Option LinkType → Option EventType → ℕ → Store → List AuditEvent
unfolding newest
get_recent_events t kind limit s =
    newest (λ e. if_given t (λ k. e.link_type == k) && if_given kind (λ k. e.event_type == k)) limit
      s.events

unfoldable pub get_actor_activity : ℕ → ℕ → Store → List AuditEvent
unfolding newest
get_actor_activity actor_id limit s = newest (λ e. e.actor_id == actor_id) limit s.events

pub record AuditFilters : Type 0 where
  pub link_type : Option LinkType
  pub event_type : Option EventType
  pub user_id : Option String
  pub actor_id : Option String

-- The ids are compared as texts; the empty text is no filter.
unfoldable pub is_searched : UuidLib → AuditFilters → AuditEvent → Bool
unfolding given
is_searched lib f e =
    if_given f.link_type (λ k. e.link_type == k)
    && (if_given f.event_type (λ k. e.event_type == k)
        && (if_given (given f.user_id) (λ i. lib.str e.user_id == i)
            && if_given (given f.actor_id) (λ i. lib.str e.actor_id == i)))

-- The records of a page, and how many there are in all.
unfoldable pub search_audit_logs : UuidLib → AuditFilters → ℕ → ℕ → Store → List AuditEvent × ℕ
unfolding is_searched newest_first where_rows skip take
search_audit_logs lib f skipped limit s =
    let found = where_rows (is_searched lib f) s.events in
    (take limit (skip skipped (newest_first found)), length found)

-- `LinkType(value)` and `EventType(value)`
unfoldable pub parse_link_type : String → Option LinkType
parse_link_type t =
    if t == "supplier"
    then some LinkType.supplier
    else if t == "customer"
    then some LinkType.customer
    else if t == "address"
    then some LinkType.address
    else none

unfoldable pub parse_event_type : String → Option EventType
parse_event_type t =
    if t == "created"
    then some EventType.created
    else if t == "updated"
    then some EventType.updated
    else if t == "activated"
    then some EventType.activated
    else if t == "deactivated"
    then some EventType.deactivated
    else if t == "suspended"
    then some EventType.suspended
    else if t == "revoked"
    then some EventType.revoked
    else if t == "approved"
    then some EventType.approved
    else if t == "rejected"
    then some EventType.rejected
    else if t == "deleted"
    then some EventType.deleted
    else none

-- A filter of a query, empty or parsed.
unfoldable pub parsed_filter :
    {A : Type 0} → (String → Option A) → String → Option String → Result HttpError (Option A)
unfolding given
parsed_filter parse message t = elim (given t) [
  | none ↦ ok none
  | some v ↦ elim (parse v) [ none ↦ err (http_error 400 message) | some a ↦ ok (some a) ]
]

module _ (caller : LinkCaller) (mongo : Mongo) (s : Store) where
  -- The actor of a route of the audit, and the document database.
  unfoldable pub audit_actor : List String → Result HttpError User
  unfolding actor_of
  audit_actor roles = do
    actor ← actor_of roles caller s
    _ ← guard (is_there mongo) (http_error 503 "Audit service unavailable")
    ok actor

  unfoldable pub get_all_link_audits :
      UuidLib
      → Option String
      → Option String
      → Option String
      → Option String
      → ℕ
      → ℕ
      → Result HttpError (List AuditEvent × ℕ)
  unfolding audit_actor parsed_filter search_audit_logs
  get_all_link_audits lib link_type event_type user_id actor_id skipped limit = do
    _ ← audit_actor staff_roles
    t ← parsed_filter parse_link_type "Invalid link_type" link_type
    kind ← parsed_filter parse_event_type "Invalid event_type" event_type
    let f : AuditFilters = record {
      link_type = t;
      event_type = kind;
      user_id = user_id;
      actor_id = actor_id;
    }
    ok (search_audit_logs lib f skipped limit s)

  unfoldable pub get_recent_link_events :
      Option String → Option String → ℕ → Result HttpError (List AuditEvent)
  unfolding audit_actor parsed_filter get_recent_events
  get_recent_link_events link_type event_type limit = do
    _ ← audit_actor staff_roles
    t ← parsed_filter parse_link_type "Invalid link_type" link_type
    kind ← parsed_filter parse_event_type "Invalid event_type" event_type
    ok (get_recent_events t kind limit s)

  unfoldable pub get_user_activity : ℕ → ℕ → Result HttpError (List AuditEvent)
  unfolding audit_actor get_user_link_history
  get_user_activity user_id limit = do
    _ ← audit_actor staff_roles
    ok (get_user_link_history user_id none limit s)

  unfoldable pub get_actor_activity_route : ℕ → ℕ → Result HttpError (List AuditEvent)
  unfolding audit_actor get_actor_activity
  get_actor_activity_route actor_id limit = do
    _ ← audit_actor super_roles
    ok (get_actor_activity actor_id limit s)

  -- The status of a link: its row.
  unfoldable pub get_status_route :
      (User → ℕ → Store → Bool) → LinkType → ℕ → ℕ → Result HttpError Link
  unfolding actor_of get_link
  get_status_route permitted t user_id target_id = do
    actor ← actor_of staff_roles caller s
    _ ← guard (permitted actor target_id s) (http_error 403 "Insufficient permissions")
    or_raise (http_error 404 "Link not found") (get_link t user_id target_id s)

  unfoldable pub get_customer_link_status : ℕ → ℕ → Result HttpError Link
  unfolding get_status_route can_manage_customer_link
  get_customer_link_status = get_status_route can_manage_customer_link LinkType.customer

  unfoldable pub get_address_link_status : ℕ → ℕ → Result HttpError Link
  unfolding get_status_route can_manage_address_link
  get_address_link_status = get_status_route can_manage_address_link LinkType.address

  -- `if not mongo_db: raise`
  unfoldable pub link_history : LinkType → ℕ → ℕ → ℕ → Result HttpError (List AuditEvent)
  unfolding get_link_history
  link_history t user_id target_id limit = do
    there ← truth mongo
    _ ← guard there (http_error 503 "Audit service unavailable")
    ok (get_link_history t user_id target_id limit s)

  unfoldable pub get_supplier_link_audit : ℕ → ℕ → ℕ → Result HttpError (List AuditEvent)
  unfolding link_history require_roles
  get_supplier_link_audit user_id supplier_id limit = do
    _ ← refusing 403 (require_roles super_roles caller.user_role)
    link_history LinkType.supplier user_id supplier_id limit

  unfoldable pub get_customer_link_audit : ℕ → ℕ → ℕ → Result HttpError (List AuditEvent)
  unfolding link_history actor_of can_manage_customer_link
  get_customer_link_audit user_id customer_id limit = do
    actor ← actor_of staff_roles caller s
    _ ←
        guard (can_manage_customer_link actor customer_id s)
          (http_error 403 "Insufficient permissions")
    link_history LinkType.customer user_id customer_id limit

  unfoldable pub get_address_link_audit : ℕ → ℕ → ℕ → Result HttpError (List AuditEvent)
  unfolding link_history actor_of can_manage_address_link
  get_address_link_audit user_id address_id limit = do
    actor ← actor_of staff_roles caller s
    _ ←
        guard (can_manage_address_link actor address_id s)
          (http_error 403 "Insufficient permissions")
    link_history LinkType.address user_id address_id limit

  -- A caller who is no super admin sees the links to addresses that it may manage.
  unfoldable pub list_user_addresses : ℕ → Result HttpError (List Link)
  unfolding actor_of find where_rows can_manage_address_link
  list_user_addresses user_id = do
    actor ← actor_of staff_roles caller s
    _ ← or_raise (http_error 404 "User not found") (find (λ u. u.id == user_id) s.users)
    let links = where_rows (λ l. l.link_type == LinkType.address && l.user_id == user_id) s.links
    ok (
        if actor.role == "super_admin"
        then links
        else where_rows (λ l. can_manage_address_link actor l.target_id s) links)
