-- ===== src/Users/Roles/Canonical.antt =====
-- What the canonical roles are, and where the two tables of roles agree.
use mathlib.Core.Option.{some-injective}
use vinc_api.Base.{
  ◌≡◌, ◌≢◌, refl, String, string_eq, ◌==◌, ==_sound, true, Option, none, some, List, [], ◌∷◌, ok,
  arith, contains, lower, Bool-cases, inl, inr, given-some, All,
}
use vinc_api.Users.Roles.{alias, allowed_roles, canonicalize_role, deps_alias, canonical_role}

-- What all the members of a list have, each member has.
pub contains-All :
    (P : String → Type 0) (r : String) (xs : List String) → All P xs → contains r xs ≡ true → P r
unfolding contains
contains-All P r [] ps h = absurd cc
contains-All P r (x ∷ xs) (p, ps) h = elim (Bool-cases (r == x)) [
  | inl e ↦ rw (==_sound r x e) p
  | inr e ↦ contains-All P r xs ps (ground arith)
]

pub canonicalize_role-inverse :
    (role : Option String) (r : String)
    → canonicalize_role role ≡ ok (some r)
    → (s : String) × (role ≡ some s) × (contains r allowed_roles ≡ true) × (alias (lower s) ≡ r)
unfolding canonicalize_role
canonicalize_role-inverse none r h = absurd cc
canonicalize_role-inverse (some s) r h =
    elim (Bool-cases (contains (alias (lower s)) allowed_roles)) [
      | inl e ↦ let same : alias (lower s) ≡ r = ground arith in (s, refl, rw (← same) e, same)
      | inr e ↦ absurd (ground arith)
    ]

abbrev IsFixed : String → Type 0
IsFixed r = canonicalize_role (some r) ≡ ok (some r)

allowed-IsFixed : All IsFixed allowed_roles
unfolding canonicalize_role string_eq
allowed-IsFixed = (refl, (refl, (refl, (refl, (refl, (refl, (refl, tt)))))))

-- A role that canonicalizing returns is its own canonical role.
canonicalize_role_idempotent :
    (role : Option String) (r : String)
    → canonicalize_role role ≡ ok (some r)
    → canonicalize_role (some r) ≡ ok (some r)
canonicalize_role_idempotent role r h =
    let (s, _, member, _) = canonicalize_role-inverse role r h in
    contains-All IsFixed r allowed_roles allowed-IsFixed member

-- The table of api/deps.py gives a role that the users' table accepts the same canonical role, if
-- the role is not empty and is not agent_admin up to case.
pub canonical_role-canonicalize_role :
    (role r : String)
    → canonicalize_role (some role) ≡ ok (some r)
    → lower role ≢ "agent_admin"
    → role ≢ ""
    → canonical_role (some role) ≡ some r
unfolding canonical_role alias deps_alias
canonical_role-canonicalize_role role r h n m =
    let (s, same, _, q) = canonicalize_role-inverse (some role) r h in
    let equal : role ≡ s = some-injective role s same in
    rw (canonical_role, given-some role m) (ground (arith, equal))
