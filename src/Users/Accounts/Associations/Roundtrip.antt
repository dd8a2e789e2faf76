-- ===== src/Users/Accounts/Associations/Roundtrip.antt =====
-- Adding a customer to a user and taking it away again.
use vinc_api.Base.{
  where_rows-kept, where_rows-gone, find-append, find-none, each-IsWithin, any-never, ◌≡◌, refl,
  sym, ap, ◌∙◌, subst, ℕ, String, string_eq, nat_eq, ◌==◌, ==_refl, Bool, true, false, not, none,
  some, List, [], ◌∷◌, ◌++◌, map, append-nil, ok, arith, where_rows, where_rows-append,
  where_rows-All, find, any, any-All, given, All, All-map, All-keys, IsWithin, given_sound,
  Bool-cases, Option-cases, Result-cases, inl, inr,
}
use vinc_api.Users.Model.{User, Customer, CustomerAddress, LinkType, link_type_eq, Link, Store}
use vinc_api.Users.Links.{is_link, get_link}
use vinc_api.Users.Accounts.Lookups.{address_key, load_user_with_relations}
use vinc_api.Users.Accounts.Service.{new_link}
use vinc_api.Users.Accounts.Associations.{
  Association, parse_some, addresses_of, asked_addresses, is_to_address_of, can_link, links_to,
  add_user_customer_association, delete_user_customer_association,
}
use vinc_api.Permissions.{UuidLib}

-- A text of an id is read as the id.
abbrev pub PrintsIds : UuidLib → Type 0
PrintsIds lib = (i : ℕ) → lib.parse (lib.str i) ≡ some i

parse_some-map :
    (lib : UuidLib) → PrintsIds lib → (is : List ℕ) → parse_some lib (map lib.str is) ≡ is
unfolding parse_some
parse_some-map lib prints [] = refl
parse_some-map lib prints (i ∷ is) = rw (prints i) (ap (λ t. i ∷ t) (parse_some-map lib prints is))

module _ (lib : UuidLib) (now user_id : ℕ) (p : Association) (s : Store) where
  abbrev unlinked : Customer → List ℕ
  unlinked c =
      where_rows (λ i. not (any (is_link LinkType.address user_id i) s.links))
        (asked_addresses lib p c s)

  abbrev added_links : ℕ → Customer → List Link
  added_links i c =
      new_link now LinkType.customer user_id i p.role ∷ links_to now user_id p.role (unlinked c)

  pub add_user_customer_association-ok :
      (u : User) (s' : Store)
      → add_user_customer_association lib now user_id p s ≡ ok (u, s')
      → (t : String) × (i : ℕ) × (c : Customer) × (p.customer_id ≡ some t)
        × (lib.parse t ≡ some i)
        × (load_user_with_relations user_id s ≡ ok u)
        × (get_link LinkType.customer user_id i s ≡ none)
        × (find (λ c. c.id == i) s.customers ≡ some c)
        × (s' ≡ record s { links = s.links ++ added_links i c })
  unfolding add_user_customer_association
  add_user_customer_association-ok u s' h =
      elim (Result-cases (load_user_with_relations user_id s)) [
        | inr (m, e) ↦ absurd (ground arith)
        | inl (v, e) ↦ elim (Option-cases p.customer_id) [
          | inl n ↦ absurd (ground arith)
          | inr (t, f) ↦ elim (Option-cases (given (some t))) [
            | inl n ↦ absurd (ground arith)
            | inr (t', f') ↦ elim (Option-cases (lib.parse t')) [
              | inl n ↦ absurd (ground arith)
              | inr (i, g) ↦ elim (Option-cases (get_link LinkType.customer user_id i s)) [
                | inr (l, k) ↦ absurd (ground arith)
                | inl k ↦ elim (Option-cases (find (λ c. c.id == i) s.customers)) [
                  | inl n ↦ absurd (ground arith)
                  | inr (c, m) ↦ elim (Bool-cases (can_link user_id (unlinked c) s)) [
                    | inr n ↦ absurd (ground arith)
                    | inl y ↦
                        let same : v ≡ u = ground arith in
                        let rows : record s { links = s.links ++ added_links i c } ≡ s' =
                          ground arith in
                        (
                          t',
                          i,
                          c,
                          f ∙ given_sound (some t) t' f',
                          g,
                          e ∙ ap ok same,
                          k,
                          m,
                          sym rows,
                        )
                  ]
                ]
              ]
            ]
          ]
        ]
      ]

asked_addresses-all :
    (lib : UuidLib) (p : Association) (c : Customer) (s : Store)
    → PrintsIds lib
    → p.all_addresses ≡ true
    → asked_addresses lib p c s ≡ map address_key (addresses_of c s)
unfolding asked_addresses
asked_addresses-all lib p c s prints every =
    rw every (parse_some-map lib prints (map address_key (addresses_of c s)))

module _ (now user_id : ℕ) (role : String) (c : Customer) (s : Store) where
  address_link-is_to_address_of :
      (a : CustomerAddress)
      → IsWithin (addresses_of c s) a
      → is_to_address_of user_id c s (new_link now LinkType.address user_id a.id role) ≡ true
  unfolding is_to_address_of is_link IsWithin
  address_link-is_to_address_of a w =
      w
        (λ b.
          is_link LinkType.address user_id b.id (new_link now LinkType.address user_id a.id role))
        (rw (==_refl LinkType.address, ==_refl user_id, ==_refl a.id) refl)

  -- None of the links to a customer's addresses is left.
  links_to-gone :
      (q : ℕ → Bool)
      → where_rows
          (λ x. not (is_to_address_of user_id c s x))
          (links_to now user_id role (where_rows q (map address_key (addresses_of c s))))
        ≡ []
  links_to-gone q =
      let each : All
          (λ i.
            not (is_to_address_of user_id c s (new_link now LinkType.address user_id i role))
            ≡ false)
          (map address_key (addresses_of c s)) =
        All-keys _ address_key (addresses_of c s) (
          All-map (λ a w. ap not (address_link-is_to_address_of a w)) (addresses_of c s)
            (each-IsWithin (addresses_of c s))) in
      where_rows-gone _ _ (
        All-keys _ (λ i. new_link now LinkType.address user_id i role) _
          (where_rows-All _ q _ each))

delete-returns :
    (lib : UuidLib) (now user_id i : ℕ) (s : Store) (u : User) (l : Link) (c : Customer)
    (rest : List Link)
    → load_user_with_relations user_id s ≡ ok u
    → get_link LinkType.customer user_id i s ≡ some l
    → find (λ c. c.id == i) s.customers ≡ some c
    → where_rows
        (λ x. not (is_link LinkType.customer user_id i x))
        (where_rows (λ x. not (is_to_address_of user_id c s x)) s.links)
      ≡ rest
    → delete_user_customer_association lib now user_id i s ≡ ok (record s { links = rest })
unfolding delete_user_customer_association
delete-returns lib now user_id i s u l c rest there linked found left =
    rw (there, linked, found, left) refl

customer-is_not_address :
    (now user_id i j : ℕ) (role : String)
    → is_link LinkType.address user_id j (new_link now LinkType.customer user_id i role) ≡ false
unfolding is_link link_type_eq
customer-is_not_address now user_id i j role = refl

customer-is_link :
    (now user_id i : ℕ) (role : String)
    → is_link LinkType.customer user_id i (new_link now LinkType.customer user_id i role) ≡ true
unfolding is_link
customer-is_link now user_id i role =
    rw (==_refl LinkType.customer, ==_refl user_id, ==_refl i) refl

-- A link to a customer is none to an address.
customer_link-stays :
    (now user_id i : ℕ) (role : String) (c : Customer) (s : Store) (ls : List Link)
    → let l = new_link now LinkType.customer user_id i role in
      where_rows (λ x. not (is_to_address_of user_id c s x)) (l ∷ ls)
      ≡ l ∷ where_rows (λ x. not (is_to_address_of user_id c s x)) ls
unfolding is_to_address_of where_rows
customer_link-stays now user_id i role c s ls =
    rw
      (any-never _ (λ (a : CustomerAddress). customer-is_not_address now user_id i a.id role)
        (addresses_of c s))
      refl

customer_link-goes :
    (now user_id i : ℕ) (role : String)
    → where_rows
        (λ x. not (is_link LinkType.customer user_id i x))
        (new_link now LinkType.customer user_id i role ∷ [])
      ≡ []
unfolding where_rows
customer_link-goes now user_id i role = rw (customer-is_link now user_id i role) refl

-- The links that are added are all taken away, and only these.
links-restored :
    (now user_id i : ℕ) (role : String) (c : Customer) (s : Store) (q : ℕ → Bool)
    → get_link LinkType.customer user_id i s ≡ none
    → any (is_to_address_of user_id c s) s.links ≡ false
    → where_rows
        (λ x. not (is_link LinkType.customer user_id i x))
        (where_rows
          (λ x. not (is_to_address_of user_id c s x))
          (s.links
            ++ (new_link now LinkType.customer user_id i role
                ∷ links_to now user_id role (where_rows q (map address_key (addresses_of c s))))))
      ≡ s.links
links-restored now user_id i role c s q new no_links =
    let p1 : Link → Bool = λ x. not (is_to_address_of user_id c s x) in
    let p2 : Link → Bool = λ x. not (is_link LinkType.customer user_id i x) in
    let l = new_link now LinkType.customer user_id i role in
    let als = links_to now user_id role (where_rows q (map address_key (addresses_of c s))) in
    let kept1 : where_rows p1 s.links ≡ s.links = where_rows-kept p1 s.links (
      All-map (λ x h. ap not h) s.links
        (any-All s.links (is_to_address_of user_id c s) no_links)) in
    let kept2 : where_rows p2 s.links ≡ s.links = where_rows-kept p2 s.links (
      All-map (λ x h. ap not h) s.links
        (find-none (is_link LinkType.customer user_id i) s.links (unfold get_link in new))) in
    let l_stays : where_rows p1 (l ∷ als) ≡ l ∷ [] =
      customer_link-stays now user_id i role c s als
      ∙ ap (λ t. l ∷ t) (links_to-gone now user_id role c s q) in
    let l_goes : where_rows p2 (l ∷ []) ≡ [] = customer_link-goes now user_id i role in
    rw
      (
        where_rows-append p1 s.links (l ∷ als),
        kept1,
        l_stays,
        where_rows-append p2 s.links (l ∷ []),
        kept2,
        l_goes,
      )
      (append-nil s.links)

-- A customer that was added to a user with all of its addresses, and is then taken away from the
-- user, leaves the tables as they were, if the user had no link to an address of the customer.
pub delete-add_user_customer_association :
    (lib : UuidLib) (now user_id : ℕ) (p : Association) (s s' : Store) (u : User) (t : String)
    (i : ℕ) (c : Customer)
    → PrintsIds lib
    → add_user_customer_association lib now user_id p s ≡ ok (u, s')
    → p.all_addresses ≡ true
    → p.customer_id ≡ some t
    → lib.parse t ≡ some i
    → find (λ c. c.id == i) s.customers ≡ some c
    → any (is_to_address_of user_id c s) s.links ≡ false
    → delete_user_customer_association lib now user_id i s' ≡ ok s
delete-add_user_customer_association lib now user_id p s s' u t i c prints added every given_id
      parsed found no_links =
    let (t', i', c', named, parsed', there, new, found', rows) =
      add_user_customer_association-ok lib now user_id p s u s' added in
    let same_text : t' ≡ t = ground arith in
    let same_id : i' ≡ i = ground arith in
    let same : c' ≡ c = ground arith in
    let q : ℕ → Bool = λ i. not (any (is_link LinkType.address user_id i) s.links) in
    let l = new_link now LinkType.customer user_id i p.role in
    let linked : List ℕ → Store =
      λ ks. record s { links = s.links ++ (l ∷ links_to now user_id p.role (where_rows q ks)) } in
    let ks = map address_key (addresses_of c s) in
    let unseen : get_link LinkType.customer user_id i s ≡ none =
      subst (λ j. get_link LinkType.customer user_id j s ≡ none) same_id new in
    let shape : s' ≡ linked ks =
      rows
      ∙ ap (λ j. record s { links = s.links ++ added_links lib now user_id p s j c' }) same_id
      ∙ ap (λ d. record s { links = s.links ++ added_links lib now user_id p s i d }) same
      ∙ ap linked (asked_addresses-all lib p c s prints every) in
    subst (λ x. delete_user_customer_association lib now user_id i x ≡ ok s) (sym shape)
      (delete-returns lib now user_id i (linked ks) u l c s.links
        (unfold load_user_with_relations in there)
        (unfold get_link in
          find-append (is_link LinkType.customer user_id i) s.links l
            (links_to now user_id p.role (where_rows q ks)) unseen
            (customer-is_link now user_id i p.role))
        found
        (unfold is_to_address_of in
          unfold addresses_of in links-restored now user_id i p.role c s q unseen no_links))
