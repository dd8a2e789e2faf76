-- ===== src/Users/Links/Requests.antt =====
-- What the routes on links share: the caller, the errors, the document database, the payloads.
use vinc_api.Base.{
  ℕ, String, string_eq, ◌==◌, nat_eq, Bool, true, false, not, Option, none, some, List, [], ◌∷◌,
  ◌++◌, Result, ok, err, ◌>>=◌, or_raise, given, contains, option_eq, if◌then◌else◌,
}
use vinc_api.Users.Model.{
  link_type_eq, LinkStatus, link_status_eq, Link, User, EventType, AuditEvent, ChangeRecord, Store,
}
use vinc_api.Users.Roles.{require_roles}
use vinc_api.Users.Accounts.Lookups.{load_user_with_relations_by_kc_id}

-- An answer with the status and the detail, or an exception that no handler turns into one.
pub data HttpError : Type 0 where
  http_error : ℕ → String → HttpError
  uncaught : String → HttpError

-- What the middlewares have put into the request: the role and the subject of the token.
pub record LinkCaller : Type 0 where
  pub user_role : Option String
  pub user_sub : Option String

-- The document database: none, or one with what `bool` makes of it, which may raise.
pub data Mongo : Type 0 where
  no_database : Mongo
  a_database : Result String Bool → Mongo

-- `mongo_db is not None`
abbrev pub is_there : Mongo → Bool
is_there no_database = false
is_there (a_database t) = true

-- `if mongo_db`
abbrev pub truth : Mongo → Result HttpError Bool
truth no_database = ok false
truth (a_database (ok b)) = ok b
truth (a_database (err m)) = err (uncaught m)

abbrev pub refusing : {A : Type 0} → ℕ → Result String A → Result HttpError A
refusing status (ok a) = ok a
refusing status (err m) = err (http_error status m)

abbrev pub guard : Bool → HttpError → Result HttpError (Unit {0})
guard true e = ok tt
guard false e = err e

abbrev pub staff_roles : List String
staff_roles = "supplier_admin" ∷ "supplier_helpdesk" ∷ "super_admin" ∷ []

abbrev pub super_roles : List String
super_roles = "super_admin" ∷ []

-- The two dependencies, and the look up of the actor.
unfoldable pub actor_of : List String → LinkCaller → Store → Result HttpError User
unfolding given require_roles load_user_with_relations_by_kc_id
actor_of roles caller s = do
  sub ← or_raise (http_error 401 "Missing user subject") (given caller.user_sub)
  _ ← refusing 403 (require_roles roles caller.user_role)
  elim (load_user_with_relations_by_kc_id sub s) [
    | ok actor ↦ ok actor
    | err m ↦
        if m == "User not found" then err (http_error 401 "Actor not found") else err (uncaught m)
  ]

-- An event as the routes log it, with the row of the link.
abbrev pub link_event : EventType → User → Option String → List ChangeRecord → Link → AuditEvent
link_event kind actor reason changes l = record {
  link_type = l.link_type;
  event_type = kind;
  user_id = l.user_id;
  target_id = l.target_id;
  actor_id = actor.id;
  actor_role = actor.role;
  snapshot = l;
  changes = changes;
  reason = reason;
}

-- `log_event`, if there is a database.
abbrev pub logged : Bool → AuditEvent → List AuditEvent → List AuditEvent
logged has_audit e es = if has_audit then es ++ (e ∷ []) else es

-- A value of the payload: absent, null, or a value of the type that is expected.
pub data Entry (A : Type 0) : Type 0 where
  absent null : Entry A
  value : A → Entry A

-- The status that a text names.
unfoldable pub parse_status : String → Option LinkStatus
parse_status t =
    if t == "pending"
    then some LinkStatus.pending
    else if t == "active"
    then some LinkStatus.active
    else if t == "suspended"
    then some LinkStatus.suspended
    else if t == "revoked"
    then some LinkStatus.revoked
    else none

abbrev pub link_roles : List String
link_roles = "admin" ∷ "helpdesk" ∷ "viewer" ∷ []

-- `if role not in (…): raise`
unfoldable pub valid_role : Entry String → String → Result HttpError String
unfolding contains
valid_role absent default = ok default
valid_role null default = err (http_error 400 "Invalid role")
valid_role (value r) default =
    if contains r link_roles then ok r else err (http_error 400 "Invalid role")

-- The same of the status; a link may not be created as revoked.
unfoldable pub valid_status :
    (LinkStatus → Bool) → Entry String → LinkStatus → Result HttpError LinkStatus
unfolding parse_status
valid_status allowed absent default = ok default
valid_status allowed null default = err (http_error 400 "Invalid status")
valid_status allowed (value t) default = elim (parse_status t) [
  | none ↦ err (http_error 400 "Invalid status")
  | some st ↦ if allowed st then ok st else err (http_error 400 "Invalid status")
]

unfoldable pub not_revoked : LinkStatus → Bool
not_revoked st = not (st == LinkStatus.revoked)

-- The body of the creation of a supplier's link; `is_active` is absent or a Boolean.
pub record SupplierLinkPayload : Type 0 where
  pub supplier_id : Option String
  pub role : Entry String
  pub status : Entry String
  pub is_active : Option Bool
  pub notes : Option String
  pub reason : Option String

-- The body of its update.
pub record SupplierLinkUpdate : Type 0 where
  pub role : Entry String
  pub status : Entry String
  pub is_active : Entry Bool
  pub notes : Entry String
  pub reason : Option String

abbrev pub bool_same : Bool → Bool → Bool
bool_same true b = b
bool_same false b = not b

-- The fields of an update that differ; notes that are in the payload count in any case.
unfoldable pub update_changes : Entry String → Link → Link → List ChangeRecord
update_changes given_notes old new =
    (if old.role == new.role then [] else ChangeRecord.role old.role new.role ∷ [])
    ++ ((if old.status == new.status then [] else ChangeRecord.status old.status new.status ∷ [])
        ++ ((if bool_same old.is_active new.is_active
              then []
              else ChangeRecord.is_active old.is_active new.is_active ∷ [])
            ++ elim given_notes [ absent ↦ [] | _ ↦ ChangeRecord.notes old.notes new.notes ∷ [] ]))

-- `bool(payload["is_active"])`, and the notes, if they are in the payload.
abbrev pub new_flag : Entry Bool → Bool → Bool
new_flag absent old = old
new_flag null old = false
new_flag (value b) old = b

abbrev pub new_notes : Entry String → Option String → Option String
new_notes absent old = old
new_notes null old = none
new_notes (value t) old = some t

abbrev pub is_nil {ℓ} : {A : Type ℓ} → List A → Bool
is_nil [] = true
is_nil (x ∷ xs) = false
