-- ===== src/Users/Links/Routes/Views.antt =====
-- The links of the table as a map, after each way of writing a link.
use vinc_api.Base.{
  ℕ, ◌≡◌, refl, String, string_eq, nat_eq, Bool, true, false, not, Option, none, some, List, [],
  ◌∷◌, ◌++◌, arith, find, where_rows, update_rows, find-update_rows_self, find-update_rows_other,
  Bool-cases, Option-cases, inl, inr, if◌then◌else◌,
}
use vinc_api.Users.Model.{
  LinkType, link_type_eq, LinkStatus, Link, AuditEvent, event_type_eq, Store,
}
use vinc_api.Users.Links.{is_link, get_link}

-- `LinkSnapshot`: what the log keeps of a link.
pub record LinkSnapshot : Type 0 where
  pub role : String
  pub status : LinkStatus
  pub is_active : Bool
  pub notes : Option String

abbrev pub snapshot_of : Link → LinkSnapshot
snapshot_of l = record {
  role = l.role;
  status = l.status;
  is_active = l.is_active;
  notes = l.notes;
}

abbrev pub View : Type 0
View = LinkType → ℕ → ℕ → Option LinkSnapshot

abbrev map_snapshot : Option Link → Option LinkSnapshot
map_snapshot none = none
map_snapshot (some l) = some (snapshot_of l)

-- The links of the table as a map.
unfoldable pub links_view : Store → View
unfolding get_link
links_view s t u i = map_snapshot (get_link t u i s)

module _ (t : LinkType) (u i : ℕ) (l : Link) (named : is_link t u i l ≡ true) where
  -- A link with a key has no other key, and every link with the key has the same other keys.
  pub same_key :
      (t' : LinkType) (u' i' : ℕ) → is_link t' u' i' l ≡ true → (t ≡ t') × (u ≡ u') × (i ≡ i')
  unfolding is_link
  same_key t' u' i' h = ground arith

  other_key :
      (t' : LinkType) (u' i' : ℕ)
      → is_link t' u' i' l ≡ false
      → (x : Link) → is_link t u i x ≡ true
      → is_link t' u' i' x ≡ false
  unfolding is_link
  other_key t' u' i' h x e = ground arith

find-snoc :
    {A : Type 0} (p : A → Bool) (xs : List A) (x : A)
    → find p (xs ++ (x ∷ []))
      ≡ elim (find p xs) [ some y ↦ some y | none ↦ if p x then some x else none ]
unfolding find
find-snoc p [] x = refl
find-snoc p (y ∷ ys) x = elim (Bool-cases (p y)) [
  | inl e ↦ rw e refl
  | inr e ↦ rw e (find-snoc p ys x)
]

find-where_rows-not :
    {A : Type 0} (p q : A → Bool) (xs : List A)
    → ((x : A) → p x ≡ true → q x ≡ false)
    → find q (where_rows (λ x. not (p x)) xs) ≡ find q xs
unfolding find where_rows
find-where_rows-not p q [] apart = refl
find-where_rows-not p q (x ∷ xs) apart = elim (Bool-cases (p x)) [
  | inl e ↦ rw (e, apart x e) (find-where_rows-not p q xs apart)
  | inr e ↦ rw e (ground (arith, find-where_rows-not p q xs apart))
]

find-where_rows_gone :
    {A : Type 0} (p : A → Bool) (xs : List A) → find p (where_rows (λ x. not (p x)) xs) ≡ none
unfolding find where_rows
find-where_rows_gone p [] = refl
find-where_rows_gone p (x ∷ xs) = elim (Bool-cases (p x)) [
  | inl e ↦ rw e (find-where_rows_gone p xs)
  | inr e ↦ rw (e, e) (find-where_rows_gone p xs)
]

module _ (t : LinkType) (u i : ℕ) (s : Store) (events : List AuditEvent) where
  -- The map after a link was added under a key that had none.
  pub added_view :
      (l : Link)
      → is_link t u i l ≡ true
      → get_link t u i s ≡ none
      → (t' : LinkType) (u' i' : ℕ)
      → links_view (record s { links = s.links ++ (l ∷ []); events = events }) t' u' i'
        ≡ (if is_link t' u' i' l then some (snapshot_of l) else links_view s t' u' i')
  unfolding links_view get_link
  added_view l named empty t' u' i' = elim (Bool-cases (is_link t' u' i' l)) [
    | inl e ↦
        let (et, eu, ei) = same_key t u i l named t' u' i' e in
        let gone : find (is_link t' u' i') s.links ≡ none = rw (← et, ← eu, ← ei) empty in
        rw (find-snoc, gone, e) refl
    | inr e ↦ elim (Option-cases (find (is_link t' u' i') s.links)) [
      | inl q ↦ rw (find-snoc, q, e) refl
      | inr (y, q) ↦ rw (find-snoc, q, e) refl
    ]
  ]

  -- The map after the link of a key was replaced.
  pub replaced_view :
      (old l : Link)
      → is_link t u i l ≡ true
      → get_link t u i s ≡ some old
      → (t' : LinkType) (u' i' : ℕ)
      → links_view
          (record s { links = update_rows (is_link t u i) (λ r. l) s.links; events = events })
          t'
          u'
          i'
        ≡ (if is_link t' u' i' l then some (snapshot_of l) else links_view s t' u' i')
  unfolding links_view get_link
  replaced_view old l named found t' u' i' = elim (Bool-cases (is_link t' u' i' l)) [
    | inl e ↦
        let (et, eu, ei) = same_key t u i l named t' u' i' e in
        let now_there : find (is_link t' u' i') (update_rows (is_link t u i) (λ r. l) s.links)
            ≡ some l =
          rw (← et, ← eu, ← ei) (find-update_rows_self (is_link t u i) l named s.links old found) in
        rw (now_there, e) refl
    | inr e ↦
        rw
          (
            e,
            find-update_rows_other (is_link t u i) l (is_link t' u' i') e
                (other_key t u i l named t' u' i' e) s.links,
          )
          refl
  ]

  -- The map after the link of a key was deleted.
  pub deleted_view :
      (l : Link)
      → is_link t u i l ≡ true
      → (t' : LinkType) (u' i' : ℕ)
      → links_view
          (record s { links = where_rows (λ r. not (is_link t u i r)) s.links; events = events })
          t'
          u'
          i'
        ≡ (if is_link t' u' i' l then none else links_view s t' u' i')
  unfolding links_view get_link
  deleted_view l named t' u' i' = elim (Bool-cases (is_link t' u' i' l)) [
    | inl e ↦
        let (et, eu, ei) = same_key t u i l named t' u' i' e in
        let gone : find (is_link t' u' i') (where_rows (λ r. not (is_link t u i r)) s.links)
            ≡ none =
          rw (← et, ← eu, ← ei) (find-where_rows_gone (is_link t u i) s.links) in
        rw (gone, e) refl
    | inr e ↦
        rw
          (
            e,
            find-where_rows-not (is_link t u i) (is_link t' u' i') s.links
                (other_key t u i l named t' u' i' e),
          )
          refl
  ]

-- The map at the other names of a key.
pub found_view :
    (t : LinkType) (u i : ℕ) (s : Store) (old l : Link)
    → get_link t u i s ≡ some old
    → is_link t u i l ≡ true
    → (t' : LinkType) (u' i' : ℕ) → is_link t' u' i' l ≡ true
    → links_view s t' u' i' ≡ some (snapshot_of old)
unfolding links_view
found_view t u i s old l found named t' u' i' e =
    let (et, eu, ei) = same_key t u i l named t' u' i' e in rw (← et, ← eu, ← ei, found) refl
