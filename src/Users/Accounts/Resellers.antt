-- ===== src/Users/Accounts/Resellers.antt =====
-- What `ensure_pending_reseller` of modules/users/service.py leaves in the table of users.
use vinc_api.Base.{
  ◌≡◌, refl, sym, ap, subst, ℕ, String, string_eq, nat_eq, option_eq, ◌==◌, ==_sound, true, false,
  Option, none, some, List, [], ◌∷◌, ◌++◌, ok, arith, length, where_rows, any, Bool-cases,
  Result-cases, inl, inr, scalar_one_or_none, scalar-one, scalar-none, where_rows_passes,
  if◌then◌else◌, ◌⊎◌,
}
use vinc_api.Users.Model.{User, UserStatus, user_status_eq, Store}
use vinc_api.Users.Accounts.Service.{kc_id_is_free}
use vinc_api.Users.Accounts.Updates.{save_user, as_pending_reseller, ensure_pending_reseller}

-- A user that may sign in as a reseller, once approved.
abbrev IsPendingReseller : String → String → User → Type 0
IsPendingReseller email kc u =
    (u.email ≡ email)
    × (u.kc_user_id ≡ some kc)
    × (u.role ≡ "reseller")
    × (u.auth_provider ≡ "keycloak")
    × (u.status == UserStatus.disabled ≡ false)

-- The users that there were, with the user added or written in place of the old one.
unfoldable pub IsEnsured : ℕ → String → String → List User → User → List User → Type 0
unfolding kc_id_is_free any save_user
IsEnsured new_id email kc us u us' =
    IsPendingReseller email kc u
    × (kc_id_is_free u.kc_user_id u.id us ≡ true)
    × (((length (where_rows (λ x. x.email == email) us) ≡ 0)
          × (u.id ≡ new_id)
          × (us' ≡ us ++ (u ∷ [])))
        ⊎ ((old : User) × (where_rows (λ x. x.email == email) us ≡ old ∷ [])
            × (u.id ≡ old.id)
            × (us' ≡ save_user u us)))

restored :
    (st : UserStatus)
    → (if st == UserStatus.disabled then UserStatus.invited else st) == UserStatus.disabled ≡ false
unfolding user_status_eq
restored UserStatus.invited = refl
restored UserStatus.active = refl
restored UserStatus.disabled = refl

as_pending_reseller-IsPendingReseller :
    (email kc : String) (u : User)
    → u.email ≡ email
    → IsPendingReseller email kc (as_pending_reseller kc u)
unfolding as_pending_reseller
as_pending_reseller-IsPendingReseller email kc u h = (h, refl, refl, refl, restored u.status)

pub ensure_pending_reseller-IsEnsured :
    (new_id : ℕ) (email : String) (name : Option String) (kc : String) (s s' : Store) (u : User)
    → ensure_pending_reseller new_id email name kc s ≡ ok (u, s')
    → IsEnsured new_id email kc s.users u s'.users
unfolding ensure_pending_reseller IsEnsured as_pending_reseller user_status_eq
ensure_pending_reseller-IsEnsured new_id email name kc s s' u h =
    let found = where_rows (λ u. u.email == email) s.users in
    elim (Result-cases (scalar_one_or_none found)) [
      | inr (m, e) ↦ absurd (ground arith)
      | inl (some old, e) ↦ elim (Bool-cases (kc_id_is_free (some kc) old.id s.users)) [
        | inr n ↦ absurd (ground arith)
        | inl free ↦
            let v = as_pending_reseller kc old in
            let one = scalar-one found old e in
            let email_kept =
              ==_sound old.email email
                (where_rows_passes (λ u. u.email == email) s.users old [] one) in
            let same : u ≡ v = ground arith in
            let rows : record s { users = save_user v s.users } ≡ s' = ground arith in
            subst (λ t. IsEnsured new_id email kc s.users t s'.users) (sym same)
              (
                as_pending_reseller-IsPendingReseller email kc old email_kept,
                free,
                inr (old, one, refl, ap (λ t. t.users) (sym rows)),
              )
      ]
      | inl (none, e) ↦ elim (Bool-cases (kc_id_is_free (some kc) new_id s.users)) [
        | inr n ↦ absurd (ground arith)
        | inl free ↦
            let v : User = record {
              id = new_id;
              email = email;
              name = name;
              role = "reseller";
              status = UserStatus.invited;
              auth_provider = "keycloak";
              kc_user_id = some kc;
              supplier_id = none;
            } in
            let same : u ≡ v = ground arith in
            let rows : record s { users = s.users ++ (v ∷ []) } ≡ s' = ground arith in
            subst (λ t. IsEnsured new_id email kc s.users t s'.users) (sym same)
              (
                (refl, refl, refl, refl, restored UserStatus.invited),
                free,
                inl (scalar-none found e, refl, ap (λ t. t.users) (sym rows)),
              )
      ]
    ]
