-- ===== src/Users/Accounts/Runs.antt =====
-- Runs of the operations of modules/users/service.py that write the table of users: a call that
-- raises leaves the tables, so a step is a call that returns.
use vinc_api.Base.{
  ◌≡◌, refl, sym, ap, ◌∙◌, subst, ℕ, String, string_eq, nat_eq, option_eq, ◌==◌, ==_sound, ==_refl,
  Bool, true, Option, some, List, [], ◌∷◌, ok, arith, length, where_rows, any, All, Bool-cases,
  Option-cases, inl, inr, only_row, where_rows_passes,
}
use vinc_api.Users.Model.{User, Link, Store}
use vinc_api.Users.Accounts.Keycloak.{Admin}
use vinc_api.Users.Accounts.Service.{
  Accounts, UserCreateRequest, UserUpdateRequest, create_user, new_user, kc_id_is_free,
}
use vinc_api.Users.Accounts.Updates.{update_user, ensure_pending_reseller}
use vinc_api.Users.Accounts.Created.{IsCreated, create_user-IsCreated}
use vinc_api.Users.Accounts.Updated.{IsUpdated, update_user-IsUpdated}
use vinc_api.Users.Accounts.Resellers.{IsEnsured, ensure_pending_reseller-IsEnsured}
use vinc_api.Users.Accounts.Keys.{HasUniqueKeys, append-HasUniqueKeys, save_user-HasUniqueKeys}
use vinc_api.Permissions.{UuidLib}

-- No user has the id, as of an id that was just generated.
abbrev pub IsNewId : ℕ → Accounts → Type 0
IsNewId i a = length (where_rows (λ u. u.id == i) a.store.users) ≡ 0

module _ (lib : UuidLib) (switch : Link → Link → Link) where
  pub data Step (a : Accounts) : Accounts → Type 0 where
    created :
        (admin : Option Admin) (new_id now : ℕ) (r : UserCreateRequest) (supplier_id : Option ℕ)
        (u : User) (a' : Accounts)
        → IsNewId new_id a
        → create_user lib admin new_id now r supplier_id a ≡ ok (u, a')
        → Step a a'
    updated :
        (admin : Option Admin) (now user_id : ℕ) (r : UserUpdateRequest) (u : User) (a' : Accounts)
        → update_user lib switch now admin user_id r a ≡ ok (u, a')
        → Step a a'
    ensured :
        (new_id : ℕ) (email : String) (name : Option String) (kc : String) (u : User) (s' : Store)
        → IsNewId new_id a
        → ensure_pending_reseller new_id email name kc a.store ≡ ok (u, s')
        → Step a (record a { store = s' })

  pub data Run (a : Accounts) : Accounts → Type 0 where
    here : Run a a
    next : {b c : Accounts} → Run a b → Step b c → Run a c

only_of_id :
    (us : List User) (u : User)
    → HasUniqueKeys us
    → (q : User → Bool) → where_rows q us ≡ u ∷ []
    → (v : User) → v.id ≡ u.id
    → All (λ r. r.id == v.id ≡ true → r ≡ u) us
unfolding HasUniqueKeys
only_of_id us u (ids, _, _) q f v same =
    only_row (λ r. r.id == v.id) q us u [] f (rw same (==_refl u.id)) (ids v.id)

kc_of_one :
    (us : List User) (u : User) (k : String)
    → All (λ r. r.kc_user_id == some k ≡ true → r ≡ u) us
    → kc_id_is_free (some k) u.id us ≡ true
unfolding kc_id_is_free any
kc_of_one [] u k only = refl
kc_of_one (x ∷ us) u k (h, only) = elim (Bool-cases (x.kc_user_id == some k)) [
  | inl e ↦
      let same : x.id == u.id ≡ true = rw (h e) (==_refl u.id) in
      ground (arith, kc_of_one us u k only)
  | inr e ↦ ground (arith, kc_of_one us u k only)
]

-- The id in Keycloak that a user has already, no other user has.
own_kc_id :
    (us : List User) (u : User)
    → HasUniqueKeys us
    → (q : User → Bool) → where_rows q us ≡ u ∷ []
    → kc_id_is_free u.kc_user_id u.id us ≡ true
unfolding HasUniqueKeys
own_kc_id us u keys q f = elim (Option-cases u.kc_user_id) [
  | inl e ↦ rw e (unfold kc_id_is_free in refl)
  | inr (k, e) ↦ rw e (
      kc_of_one us u k
        (only_row (λ r. r.kc_user_id == some k) q us u [] f (rw e (==_refl (some k))) (keys.2 k)))
]

step-HasUniqueKeys :
    (lib : UuidLib) (switch : Link → Link → Link) (a a' : Accounts)
    → HasUniqueKeys a.store.users
    → Step lib switch a a'
    → HasUniqueKeys a'.store.users
unfolding IsCreated IsUpdated IsEnsured new_user
step-HasUniqueKeys lib switch a a' keys (created admin new_id now r supplier_id u _ fresh h) =
    let (c, _, _, row, unused, free, rows, _) =
      create_user-IsCreated lib admin new_id now r supplier_id a a' u h in
    let id : u.id ≡ new_id = row.0 in
    let is_new = subst (λ i. IsNewId i a) (sym id) fresh in
    subst HasUniqueKeys (sym rows) (append-HasUniqueKeys a.store.users u keys is_new unused free)
step-HasUniqueKeys lib switch a a' keys (updated admin now user_id r u _ h) =
    let (old, c, doc, one, _, row, _, _, _, _, _, rows) =
      update_user-IsUpdated lib switch now admin user_id r a a' u h in
    let q : User → Bool = λ x. x.id == user_id in
    let id : u.id ≡ old.id = ap (λ t. t.id) row in
    let kc : kc_id_is_free u.kc_user_id u.id a.store.users ≡ true =
      subst (λ t. kc_id_is_free t.kc_user_id t.id a.store.users ≡ true) (sym row)
        (own_kc_id a.store.users old keys q one) in
    subst HasUniqueKeys (sym rows) (
      save_user-HasUniqueKeys a.store.users old u keys
        (only_of_id a.store.users old keys q one u id) (ap (λ t. t.email) row) id kc)
step-HasUniqueKeys lib switch a a' keys (ensured new_id email name kc u s' fresh h) =
    let (pending, free, either) =
      ensure_pending_reseller-IsEnsured new_id email name kc a.store s' u h in
    elim either [
      | inl (unused, id, rows) ↦ subst HasUniqueKeys (sym rows) (
          append-HasUniqueKeys a.store.users u keys (subst (λ i. IsNewId i a) (sym id) fresh)
            (subst (λ e. length (where_rows (λ x. x.email == e) a.store.users) ≡ 0) (sym pending.0)
              unused)
            free)
      | inr (old, one, id, rows) ↦
          let q : User → Bool = λ x. x.email == email in
          let email_kept =
            ==_sound old.email email (where_rows_passes q a.store.users old [] one) in
          subst HasUniqueKeys (sym rows) (
            save_user-HasUniqueKeys a.store.users old u keys
              (only_of_id a.store.users old keys q one u id) (pending.0 ∙ sym email_kept) id free)
    ]

-- On every run of creating users, updating them and ensuring pending resellers, with new ids for
-- new users, no two users get the same id, e-mail address or id in Keycloak, if no two had before.
pub Run-HasUniqueKeys :
    (lib : UuidLib) (switch : Link → Link → Link) (a a' : Accounts)
    → HasUniqueKeys a.store.users
    → Run lib switch a a'
    → HasUniqueKeys a'.store.users
Run-HasUniqueKeys lib switch a a' keys here = keys
Run-HasUniqueKeys lib switch a a' keys (next {b} run step) =
    step-HasUniqueKeys lib switch b a' (Run-HasUniqueKeys lib switch a b keys run) step
