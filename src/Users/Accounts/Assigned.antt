-- ===== src/Users/Accounts/Assigned.antt =====
-- The links of a user after `_assign_links` of modules/users/service.py, and the attributes in
-- Keycloak after `set_user_attributes` of core/keycloak.py.
use vinc_api.Base.{
  where_rows_none, where_rows_within, ◌≡◌, refl, sym, ap, ◌∙◌, subst, ℕ, string_eq, nat_eq, ◌==◌,
  ==_sound, ==_refl, Bool, true, false, not, ◌&&◌, List, [], ◌∷◌, map, arith, find, where_rows,
  where_rows-append, append-nil, Bool-cases, Option-cases, inl, inr,
}
use vinc_api.Users.Model.{LinkType, link_type_eq, Link}
use vinc_api.Users.Links.{is_link}
use vinc_api.Users.Accounts.Contexts.{MembershipContext}
use vinc_api.Users.Accounts.Service.{new_link, customer_links, address_links}
use vinc_api.Permissions.{UuidLib}
use vinc_api.Users.Accounts.Updates.{is_of_user, switched, replace_links, assign_links}

-- The key of the row stays that of the new link.
unfoldable pub KeepsKey : (Link → Link → Link) → Type 0
KeepsKey switch =
    (old new : Link)
    → ((switch old new).link_type ≡ new.link_type)
      × ((switch old new).user_id ≡ new.user_id)
      × ((switch old new).target_id ≡ new.target_id)

abbrev pub targets : List Link → List ℕ
targets ls = map (λ l. l.target_id) ls

-- What the targets of a user's links of a kind are.
abbrev pub targets_of : LinkType → ℕ → List Link → List ℕ
targets_of t user_id ls = targets (where_rows (is_of_user t user_id) ls)

module _ (switch : Link → Link → Link) (keeps : KeepsKey switch) (now : ℕ) (t : LinkType)
    (user_id : ℕ) where
  abbrev buyer_links : List ℕ → List Link
  buyer_links is = map (λ i. new_link now t user_id i "buyer") is

  -- The head of the links that are written.
  switched-head :
      (old : List Link) (i : ℕ) (is : List ℕ)
      → (l : Link) × (switched switch old (buyer_links (i ∷ is))
          ≡ l ∷ switched switch old (buyer_links is))
        × (l.link_type ≡ t)
        × (l.user_id ≡ user_id)
        × (l.target_id ≡ i)
  unfolding switched KeepsKey
  switched-head old i is =
      let l = new_link now t user_id i "buyer" in
      elim (Option-cases (find (is_link t user_id i) old)) [
        | inl e ↦ (l, rw (switched, e) refl, refl, refl, refl)
        | inr (o, e) ↦ let (a, b, c) = keeps o l in (switch o l, rw (switched, e) refl, a, b, c)
      ]

  switched-targets :
      (old : List Link) (is : List ℕ)
      → targets_of t user_id (switched switch old (buyer_links is)) ≡ is
  unfolding where_rows is_of_user
  switched-targets old [] = unfold switched in refl
  switched-targets old (i ∷ is) =
      let (l, e, a, b, c) = switched-head old i is in
      let passes : is_of_user t user_id l ≡ true = rw (a, b, ==_refl t, ==_refl user_id) refl in
      subst (λ ls. targets_of t user_id ls ≡ i ∷ is) (sym e)
        (rw passes (
          ap (λ j. j ∷ targets_of t user_id (switched switch old (buyer_links is))) c
          ∙ ap (λ js. i ∷ js) (switched-targets old is)))

  -- The links that are written are of the kind and of the user.
  switched-none :
      (q : Link → Bool)
      → ((l : Link) → is_of_user t user_id l ≡ true → q l ≡ false)
      → (old : List Link) (is : List ℕ) → where_rows q (switched switch old (buyer_links is)) ≡ []
  unfolding where_rows is_of_user
  switched-none q apart old [] = unfold switched in refl
  switched-none q apart old (i ∷ is) =
      let (l, e, a, b, _) = switched-head old i is in
      let passes : is_of_user t user_id l ≡ true = rw (a, b, ==_refl t, ==_refl user_id) refl in
      subst (λ ls. where_rows q ls ≡ []) (sym e)
        (rw (apart l passes) (switched-none q apart old is))

  replace_links-targets :
      (links : List Link) (is : List ℕ)
      → targets_of t user_id (replace_links switch t user_id (buyer_links is) links) ≡ is
  unfolding replace_links
  replace_links-targets links is =
      let p : Link → Bool = λ l. not (is_of_user t user_id l) in
      let gone = where_rows_none p (is_of_user t user_id) (λ l h. ground arith) links in
      rw
        (
          where_rows-append (is_of_user t user_id) (where_rows p links)
              (switched switch links (buyer_links is)),
          gone,
        )
        (switched-targets links is)

  replace_links-others :
      (q : Link → Bool)
      → ((l : Link) → is_of_user t user_id l ≡ true → q l ≡ false)
      → (links : List Link) (is : List ℕ)
      → where_rows q (replace_links switch t user_id (buyer_links is) links) ≡ where_rows q links
  unfolding replace_links
  replace_links-others q apart links is =
      let p : Link → Bool = λ l. not (is_of_user t user_id l) in
      let kept = where_rows_within p q (λ l h. ground (arith, apart l)) links in
      rw
        (
          where_rows-append q (where_rows p links) (switched switch links (buyer_links is)),
          switched-none q apart links is,
          kept,
        )
        (append-nil (where_rows q links))

-- A link that an update of the user leaves alone.
unfoldable pub is_untouched : ℕ → Link → Bool
unfolding is_of_user
is_untouched user_id l =
    not (is_of_user LinkType.customer user_id l) && not (is_of_user LinkType.address user_id l)

other_kind :
    (t t' : LinkType)
    → t == t' ≡ false
    → (user_id : ℕ) (l : Link) → is_of_user t user_id l ≡ true
    → is_of_user t' user_id l ≡ false
unfolding is_of_user
other_kind t t' differ user_id l h = elim (Bool-cases (l.link_type == t)) [
  | inl e ↦ let same : l.link_type ≡ t = ==_sound l.link_type t e in rw (same, differ) refl
  | inr e ↦ absurd (ground arith)
]

-- The user's links to customers and to addresses are those of the assignments, in order, after
-- `_assign_links`, whatever becomes of a row whose key an old one has, as long as it keeps the key; all
-- other links, those of other users and those to suppliers, are as before.
pub assign_links_lem :
    (lib : UuidLib) (switch : Link → Link → Link) (now user_id : ℕ) (c : MembershipContext)
    (links : List Link)
    → KeepsKey switch
    → let after = assign_links lib switch now user_id c links in
      (targets_of LinkType.customer user_id after ≡ c.customer_ids)
      × (targets_of LinkType.address user_id after ≡ c.address_ids)
      × (where_rows (is_untouched user_id) after ≡ where_rows (is_untouched user_id) links)
unfolding assign_links customer_links address_links
assign_links_lem lib switch now user_id c links keeps =
    let middle =
      replace_links switch LinkType.customer user_id (customer_links now user_id c) links in
    (
      ap targets (
            replace_links-others switch keeps now LinkType.address user_id
              (is_of_user LinkType.customer user_id)
              (other_kind LinkType.address LinkType.customer (unfold link_type_eq in refl) user_id)
              middle c.address_ids)
          ∙ replace_links-targets switch keeps now LinkType.customer user_id links c.customer_ids,
      replace_links-targets switch keeps now LinkType.address user_id middle c.address_ids,
      replace_links-others switch keeps now LinkType.address user_id (is_untouched user_id)
            (λ l h. unfold is_untouched in ground arith) middle c.address_ids
          ∙ replace_links-others switch keeps now LinkType.customer user_id (is_untouched user_id)
              (λ l h. unfold is_untouched in ground arith) links c.customer_ids,
    )
