-- ===== src/Users/Accounts/Keys.antt =====
-- The keys of the table of users stay unique, over every run of the operations of
-- modules/users/service.py that write it.
use vinc_api.Base.{
  ◌≡◌, ◌≤◌, refl, sym, ap, subst, ℕ, String, string_eq, nat_eq, option_eq, ◌==◌, ==_sound, Bool,
  true, false, not, ◌&&◌, some, List, [], ◌∷◌, ◌++◌, arith, length, where_rows, update_rows, any,
  All, Bool-cases, inl, inr, length-where_rows-snoc, length-where_rows-update_rows,
}
use vinc_api.Users.Model.{User}
use vinc_api.Users.Accounts.Service.{kc_id_is_free}
use vinc_api.Users.Accounts.Updates.{save_user}

-- At most one user has an id, an e-mail address, an id in Keycloak.
unfoldable pub HasUniqueKeys : List User → Type 0
HasUniqueKeys us =
    ((i : ℕ) → length (where_rows (λ u. u.id == i) us) ≤ 1)
    × ((e : String) → length (where_rows (λ u. u.email == e) us) ≤ 1)
    × ((k : String) → length (where_rows (λ u. u.kc_user_id == some k) us) ≤ 1)

kc_id_is_free-none :
    (k : String) (i : ℕ) (us : List User)
    → kc_id_is_free (some k) i us ≡ true
    → length (where_rows (λ u. u.id == i) us) ≡ 0
    → length (where_rows (λ u. u.kc_user_id == some k) us) ≡ 0
unfolding kc_id_is_free any where_rows
kc_id_is_free-none k i [] free fresh = refl
kc_id_is_free-none k i (u ∷ us) free fresh = elim (Bool-cases (u.id == i)) [
  | inl e ↦ absurd (ground arith)
  | inr e ↦ elim (Bool-cases (u.kc_user_id == some k)) [
    | inl f ↦ absurd (ground arith)
    | inr f ↦ ground (arith, kc_id_is_free-none k i us)
  ]
]

-- A user at the end of the table, with new keys.
pub append-HasUniqueKeys :
    (us : List User) (u : User)
    → HasUniqueKeys us
    → length (where_rows (λ x. x.id == u.id) us) ≡ 0
    → length (where_rows (λ x. x.email == u.email) us) ≡ 0
    → kc_id_is_free u.kc_user_id u.id us ≡ true
    → HasUniqueKeys (us ++ (u ∷ []))
unfolding HasUniqueKeys
append-HasUniqueKeys us u (ids, emails, kcs) fresh unused free = (
  λ i.
      length-where_rows-snoc (λ x. x.id == i) us u (λ h. rw (sym (==_sound u.id i h)) fresh)
        (ids i),
  λ e.
      length-where_rows-snoc (λ x. x.email == e) us u (λ h. rw (sym (==_sound u.email e h)) unused)
        (emails e),
  λ k.
      length-where_rows-snoc (λ x. x.kc_user_id == some k) us u
        (λ h.
          kc_id_is_free-none k u.id us
            (subst (λ t. kc_id_is_free t u.id us ≡ true) (==_sound u.kc_user_id (some k) h) free)
            fresh)
        (kcs k),
)

module _ (p q : User → Bool) (new : User) where
  fewer_rows :
      (us : List User)
      → q new ≡ false
      → length (where_rows q (update_rows p (λ x. new) us)) ≤ length (where_rows q us)
  unfolding where_rows update_rows
  fewer_rows [] h = omega arith
  fewer_rows (u ∷ us) h = elim (Bool-cases (p u)) [
    | inl e ↦ rw (e, h) (ground (arith, fewer_rows us h))
    | inr e ↦ rw e (ground (arith, fewer_rows us h))
  ]

  written_rows :
      (us : List User)
      → any (λ x. not (p x) && q x) us ≡ false
      → length (where_rows q (update_rows p (λ x. new) us)) ≤ length (where_rows p us)
  unfolding where_rows update_rows any
  written_rows [] h = omega arith
  written_rows (u ∷ us) h = elim (Bool-cases (p u)) [
    | inl e ↦ rw e (ground (arith, written_rows us))
    | inr e ↦ rw e (ground (arith, written_rows us))
  ]

save_user-kc :
    (us : List User) (new : User) (k : String)
    → kc_id_is_free new.kc_user_id new.id us ≡ true
    → length (where_rows (λ x. x.id == new.id) us) ≤ 1
    → length (where_rows (λ x. x.kc_user_id == some k) us) ≤ 1
    → length (where_rows (λ x. x.kc_user_id == some k) (save_user new us)) ≤ 1
unfolding save_user kc_id_is_free
save_user-kc us new k free one few =
    let p : User → Bool = λ x. x.id == new.id in
    let q : User → Bool = λ x. x.kc_user_id == some k in
    elim (Bool-cases (new.kc_user_id == some k)) [
      | inl e ↦
          let free' =
            subst (λ t. kc_id_is_free t new.id us ≡ true) (==_sound new.kc_user_id (some k) e)
              free in
          let others : any (λ x. not (p x) && q x) us ≡ false = ground arith in
          let fewer = written_rows p q new us others in omega arith
      | inr e ↦ let fewer = fewer_rows p q new us e in omega arith
    ]

-- A user that is written anew, with the id and the e-mail address as before, and an id in Keycloak
-- that no other user has.
pub save_user-HasUniqueKeys :
    (us : List User) (old new : User)
    → HasUniqueKeys us
    → All (λ r. r.id == new.id ≡ true → r ≡ old) us
    → new.email ≡ old.email
    → new.id ≡ old.id
    → kc_id_is_free new.kc_user_id new.id us ≡ true
    → HasUniqueKeys (save_user new us)
unfolding HasUniqueKeys save_user kc_id_is_free
save_user-HasUniqueKeys us old new (ids, emails, kcs) only email id free = (
  λ i.
      subst (λ n. n ≤ 1)
        (sym (
          length-where_rows-update_rows (λ x. x.id == new.id) (λ x. x.id == i) old new us only
            (ap (λ t. t == i) (sym id))))
        (ids i),
  λ e.
      subst (λ n. n ≤ 1)
        (sym (
          length-where_rows-update_rows (λ x. x.id == new.id) (λ x. x.email == e) old new us only
            (ap (λ t. t == e) (sym email))))
        (emails e),
  λ k. save_user-kc us new k free (ids new.id) (kcs k),
)
