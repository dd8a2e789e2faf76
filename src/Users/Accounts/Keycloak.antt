-- ===== src/Users/Accounts/Keycloak.antt =====
-- core/keycloak.py: the attributes of a user in Keycloak and the calls of its administration. What
-- the server answers to a call is a parameter.
use vinc_api.Base.{
  String, string_eq, ◌==◌, Bool, true, false, not, Option, none, some, List, [], ◌∷◌, Result, ok,
  err, ◌>>=◌, where_rows, given, or_value, has_part, ℕ,
}

-- The attributes that are set, under the names of the settings.
pub record Attributes : Type 0 where
  pub supplier : Option String
  pub customers : Option (List String)
  pub addresses : Option (List String)
  pub wholesalers : Option (List String)
  pub multi_tenant : Option Bool
  pub role : Option String

-- The values that are not empty, if there are any.
unfoldable pub filled : List String → Option (List String)
unfolding where_rows
filled xs = elim (where_rows (λ x. not (x == "")) xs) [ [] ↦ none | y ∷ ys ↦ some (y ∷ ys) ]

unfoldable pub build_user_attributes :
    Option String → List String → List String → List String → Bool → String → Attributes
unfolding filled given
build_user_attributes supplier customers addresses wholesalers multi_tenant role = record {
  supplier = given supplier;
  customers = filled customers;
  addresses = filled addresses;
  wholesalers = filled wholesalers;
  multi_tenant = elim multi_tenant [ true ↦ some true | false ↦ none ];
  role = given (some role);
}

abbrev pub over {ℓ} : {A : Type ℓ} → Option A → Option A → Option A
over old none = old
over old (some x) = some x

-- `{**current_attributes, **attributes}`
unfoldable pub merged : Attributes → Attributes → Attributes
merged old new = record {
  supplier = over old.supplier new.supplier;
  customers = over old.customers new.customers;
  addresses = over old.addresses new.addresses;
  wholesalers = over old.wholesalers new.wholesalers;
  multi_tenant = over old.multi_tenant new.multi_tenant;
  role = over old.role new.role;
}

-- A user in Keycloak, as far as it is read.
pub record KcUser : Type 0 where
  pub attributes : Attributes
  pub enabled : Bool

-- What an update sends: the attributes, if they are sent, and the flag.
pub record KcPayload : Type 0 where
  pub attributes : Option Attributes
  pub enabled : Bool

-- What a new user is created with, and what the call answers.
pub record NewKcUser : Type 0 where
  pub email : String
  pub username : String
  pub first_name : String
  pub enabled : Bool
  pub email_verified : Bool

pub data KcAnswer : Type 0 where
  text : String → KcAnswer
  dict : Option String → KcAnswer
  other : KcAnswer

-- An exception of the client: KeycloakPutError, or another one that is caught.
pub data KcFailure : Type 0 where
  put_error : String → KcFailure
  other_error : String → KcFailure

-- The client for the administration of Keycloak; each call may raise. `send` is the call that sends
-- the e-mail of the actions, if the client has one; it is given how often it was called before.
pub record Admin : Type 0 where
  pub create_user : NewKcUser → Result String KcAnswer
  pub get_user_id : String → Result String String
  pub get_user : String → Result String KcUser
  pub update_user : String → KcPayload → Result String (Unit {0})
  pub invite_actions : List String
  pub send : Option (ℕ → String → List String → Result KcFailure (Unit {0}))

-- The id in the answer, if it is not empty.
unfoldable pub answered_id : KcAnswer → Option String
unfolding given
answered_id (text id) = given (some id)
answered_id (dict id) = given id
answered_id other = none

-- A failed call is raised anew as a KeycloakServiceError.
abbrev pub or_service_error {ℓ} : {A : Type ℓ} → String → Result String A → Result String A
or_service_error message (err m) = err message
or_service_error message (ok x) = ok x

module _ (admin : Admin) where
  unfoldable pub create_keycloak_user : String → Option String → Result String String
  unfolding answered_id
  create_keycloak_user email name = do
    answer ← or_service_error "Failed to create Keycloak user" (
        admin.create_user (record {
          email = email;
          username = email;
          first_name = or_value name "";
          enabled = true;
          email_verified = false;
        }))
    elim (answered_id answer) [
      | some id ↦ ok id
      | none ↦
          or_service_error "Keycloak user created but ID lookup failed" (admin.get_user_id email)
    ]

  unfoldable pub set_user_attributes : String → Attributes → Result String (Unit {0})
  unfolding merged
  set_user_attributes id attributes = do
    current ← or_service_error "Failed to load Keycloak user" (admin.get_user id)
    or_service_error "Failed to update Keycloak user attributes" (
        admin.update_user id (record {
          attributes = some (merged current.attributes attributes);
          enabled = current.enabled;
        }))

  unfoldable pub toggle_user_enabled : String → Bool → Result String (Unit {0})
  toggle_user_enabled id enabled =
      or_service_error "Failed to set the flag of the Keycloak user"
        (admin.update_user id (record { attributes = none; enabled = enabled }))

  unfoldable pub enable_user : String → Result String (Unit {0})
  unfolding toggle_user_enabled
  enable_user id = toggle_user_enabled id true

  unfoldable pub disable_user : String → Result String (Unit {0})
  unfolding toggle_user_enabled
  disable_user id = toggle_user_enabled id false

  abbrev invite_failed : Result KcFailure (Unit {0}) → Result String (Unit {0})
  invite_failed (err e) = err "Failed to trigger Keycloak invite"
  invite_failed (ok x) = ok x

  -- A user that is refused as disabled is enabled, and the call is made again.
  unfoldable pub send_with :
      (ℕ → String → List String → Result KcFailure (Unit {0}))
      → String
      → List String
      → Result String (Unit {0})
  unfolding enable_user has_part
  send_with send id actions = elim (send 0 id actions) [
    | ok x ↦ ok x
    | err (other_error m) ↦ err "Failed to trigger Keycloak invite"
    | err (put_error m) ↦ elim (has_part m "User is disabled") [
      | false ↦ err "Failed to trigger Keycloak invite"
      | true ↦ enable_user id >>= λ x. invite_failed (send 1 id actions)
    ]
  ]

  unfoldable pub send_invite : String → Result String (Unit {0})
  unfolding send_with
  send_invite id = elim admin.invite_actions [
    | [] ↦ ok tt
    | a ∷ actions ↦ elim admin.send [ none ↦ ok tt | some send ↦ send_with send id (a ∷ actions) ]
  ]
