-- ===== src/Users/Roles.antt =====
-- modules/users/roles.py, and the second table of roles in api/deps.py.
pub mod Canonical
pub mod Required
use vinc_api.Base.{
  String, string_eq, ◌==◌, Bool, Option, none, some, List, [], ◌∷◌, Result, ok, err, contains,
  lower, if◌then◌else◌, given,
}

-- `_ROLE_ALIASES.get(key, key)`
unfoldable pub alias : String → String
alias key =
    if key == "wholesaler_admin"
    then "supplier_admin"
    else if key == "supplier_helpdesk"
    then "wholesaler_helpdesk"
    else if key == "agent_admin"
    then "agent"
    else key

-- `_ALLOWED_ROLES`
abbrev pub allowed_roles : List String
allowed_roles =
    "reseller" ∷ "agent" ∷ "viewer" ∷ "wholesale_admin" ∷ "supplier_admin" ∷ "wholesaler_helpdesk"
    ∷ "super_admin" ∷ []

unfoldable pub canonicalize_role : Option String → Result String (Option String)
unfolding alias lower contains
canonicalize_role none = ok none
canonicalize_role (some role) =
    let canonical = alias (lower role) in
    if contains canonical allowed_roles then ok (some canonical) else err "Unsupported role"

-- `_ROLE_ALIASES.get(key, key)` of api/deps.py; the entries that map a role to itself are left out.
unfoldable pub deps_alias : String → String
deps_alias key =
    if key == "wholesaler_admin"
    then "supplier_admin"
    else if key == "supplier_helpdesk"
    then "wholesaler_helpdesk"
    else key

-- `_canonical_role` of api/deps.py
unfoldable pub canonical_role : Option String → Option String
unfolding given deps_alias lower
canonical_role value = elim (given value) [ none ↦ none | some v ↦ some (deps_alias (lower v)) ]

-- `require_roles(…)`: the role that the dependency returns, or the exception.
abbrev pub canonical_roles : List String → List String
canonical_roles [] = []
canonical_roles (r ∷ rs) = elim (canonical_role (some r)) [
  | none ↦ canonical_roles rs
  | some c ↦ c ∷ canonical_roles rs
]

unfoldable pub require_roles : List String → Option String → Result String String
unfolding canonical_role given contains
require_roles allowed user_role = elim (canonical_role user_role) [
  | none ↦ err "Forbidden"
  | some role ↦ elim (given (some role)) [
    | none ↦ err "Forbidden"
    | some r ↦ if contains r (canonical_roles allowed) then ok r else err "Forbidden"
  ]
]
