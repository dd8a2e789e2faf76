-- ===== src/Users/Roles/Required.antt =====
-- Whom `require_roles` admits.
use text.Mathlib.TextEquality.{eq_iff}
use vinc_api.Base.{
  ◌≡◌, ◌≢◌, refl, ap, ◌∙◌, String, string_eq, ◌==◌, ==_refl, ==_sound, true, Option, some, List, [],
  ◌∷◌, ok, arith, contains, lower, given, given-some, given_sound, Option-cases, Bool-cases, inl,
  inr,
}
use vinc_api.Users.Roles.{deps_alias, canonical_role, canonical_roles, require_roles}

-- Whoever is admitted has a role whose canonical role is that of a required role, and that is what
-- is returned.
pub require_roles-canonical_role :
    (allowed : List String) (role : Option String) (r : String)
    → require_roles allowed role ≡ ok r
    → (canonical_role role ≡ some r) × (contains r (canonical_roles allowed) ≡ true)
unfolding require_roles
require_roles-canonical_role allowed role r h = elim (Option-cases (canonical_role role)) [
  | inl q ↦ absurd (ground arith)
  | inr (c, q) ↦ elim (Option-cases (given (some c))) [
    | inl g ↦ absurd (ground arith)
    | inr (d, g) ↦
        let same : some c ≡ some d = given_sound (some c) d g in
        elim (Bool-cases (contains d (canonical_roles allowed))) [
          | inr n ↦ absurd (ground arith)
          | inl y ↦ let e : d ≡ r = ground arith in (q ∙ same ∙ ap some e, rw (← e) y)
        ]
  ]
]

canonical_role-some :
    (role : String) → role ≢ "" → canonical_role (some role) ≡ some (deps_alias (lower role))
unfolding canonical_role
canonical_role-some role n = rw (canonical_role, given-some role n) refl

contains-canonical_roles :
    (role : String) (allowed : List String)
    → role ≢ ""
    → contains role allowed ≡ true
    → contains (deps_alias (lower role)) (canonical_roles allowed) ≡ true
unfolding contains
contains-canonical_roles role [] n h = absurd cc
contains-canonical_roles role (a ∷ rest) n h = elim (Bool-cases (role == a)) [
  | inl y ↦
      let same = ==_sound role a y in
      rw (← same, canonical_roles, canonical_role-some role n)
        (ground (arith, ==_refl (deps_alias (lower role))))
  | inr m ↦ elim (Option-cases (canonical_role (some a))) [
    | inl q ↦ rw (canonical_roles, q) (contains-canonical_roles role rest n (ground arith))
    | inr (c, q) ↦ rw (canonical_roles, q) (ground (arith, contains-canonical_roles role rest n))
  ]
]

lower_filled : (role : String) → role ≢ "" → lower role ≢ ""
unfolding lower
lower_filled String.[] n = absurd (n refl)
lower_filled (String.◌∷◌ c s) n = λ h. cc

deps_alias_filled : (key : String) → key ≢ "" → deps_alias key ≢ ""
unfolding deps_alias
deps_alias_filled key n =
    ground (arith, eq_iff "supplier_admin" "", eq_iff "wholesaler_helpdesk" "")

-- A user whose role is one of the required ones, and not empty, is admitted, with its canonical role.
require_roles_lem :
    (allowed : List String) (role : String)
    → contains role allowed ≡ true
    → role ≢ ""
    → require_roles allowed (some role) ≡ ok (deps_alias (lower role))
unfolding require_roles
require_roles_lem allowed role h n =
    rw
      (
        require_roles,
        canonical_role-some role n,
        given-some (deps_alias (lower role)) (deps_alias_filled (lower role) (lower_filled role n)),
        contains-canonical_roles role allowed n h,
      )
      refl
