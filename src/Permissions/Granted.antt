-- ===== src/Permissions/Granted.antt =====
-- Which customers and addresses the memberships grant for a supplier.
use vinc_api.Base.{
  given, given-some, not, none, Option, where_rows, ◌==◌, ==_sound, nat_eq, option_eq, Option-cases,
  or_value, subst, lower, ==_refl, sym, ◌∙◌, ℕ, ◌≡◌, refl, String, string_eq, Bool, true, false,
  ◌&&◌, ◌||◌, some, List, [], ◌∷◌, arith, any, contains, Result, ok, err, Bool-cases, inl, inr, ◌⊎◌,
}
use vinc_api.Permissions.{
  MembershipEntry, MembershipDoc, Tables, UuidLib, MembershipScope, safe_uuid, applies, granted_ids,
  load_customers_for_supplier, load_addresses_for_supplier, expand_entry, expand_from,
  expand_scope_for_supplier, process_membership_scope, unique_supplier_scope_ids,
}
use vinc_api.Permissions.Scopes.{has_scope, unique_supplier_scope_ids_lem, lowers, IsDistinct}
use vinc_api.Permissions.Collected.{contains-rows}
use vinc_api.Permissions.Sets.{contains-add_all}

contains-filled :
    (x : String) (ids : List String)
    → contains x (where_rows (λ i. not (i == "")) ids) ≡ (not (x == "") && contains x ids)
unfolding contains where_rows
contains-filled x [] = ground arith
contains-filled x (i ∷ ids) = elim (Bool-cases (i == "")) [
  | inl e ↦ let empty = ==_sound i "" e in rw e (ground (arith, contains-filled x ids, empty))
  | inr e ↦ elim (Bool-cases (x == i)) [
    | inl y ↦ let same = ==_sound x i y in rw e (ground (arith, same))
    | inr n ↦ rw e (ground (arith, contains-filled x ids))
  ]
]

any-same :
    {A : Type 0} (p q : A → Bool) → ((y : A) → p y ≡ q y) → (ys : List A) → any p ys ≡ any q ys
unfolding any
any-same p q h [] = refl
any-same p q h (y ∷ ys) = rw (h y) (ground (arith, any-same p q h ys))

-- The text is one of the list, and not the empty one, and the scope is the list; or the scope is all,
-- and the supplier has the text.
abbrev pub grants : String → Option String → List String → Bool → Bool
grants x scope ids of_supplier =
    let s = lower (or_value scope "") in
    (s == "list" && (not (x == "") && contains x ids)) || (s == "all" && of_supplier)

module _ (lib : UuidLib) (t : Tables) (supplier : ℕ) (x : String) where
  -- The entry applies to the supplier and grants the customer, or the address.
  abbrev gives_customer : MembershipEntry → Bool
  gives_customer e =
      applies lib t supplier e
      && contains x (
          granted_ids lib t e.reseller_scope e.reseller_account_ids
            (load_customers_for_supplier lib t supplier))

  abbrev gives_address : MembershipEntry → Bool
  gives_address e =
      applies lib t supplier e
      && contains x (
          granted_ids lib t e.address_scope e.address_ids
            (load_addresses_for_supplier lib t supplier))

  expand_entry-contains :
      (e : MembershipEntry) (rs as' : List String)
      → (contains x (expand_entry lib t supplier e (rs, as')).0
          ≡ (gives_customer e || contains x rs))
        × (contains x (expand_entry lib t supplier e (rs, as')).1
            ≡ (gives_address e || contains x as'))
  unfolding expand_entry
  expand_entry-contains e rs as' = elim (Bool-cases (applies lib t supplier e)) [
    | inl y ↦ rw y (
      contains-add_all x
          (granted_ids lib t e.reseller_scope e.reseller_account_ids
            (load_customers_for_supplier lib t supplier))
          rs,
      contains-add_all x
          (granted_ids lib t e.address_scope e.address_ids
            (load_addresses_for_supplier lib t supplier))
          as',
    )
    | inr n ↦ rw n (refl, refl)
  ]

  expand_from-contains :
      (es : List MembershipEntry) (rs as' : List String)
      → (contains x (expand_from lib t supplier es (rs, as')).0
          ≡ (any gives_customer es || contains x rs))
        × (contains x (expand_from lib t supplier es (rs, as')).1
            ≡ (any gives_address es || contains x as'))
  unfolding expand_from any
  expand_from-contains [] rs as' = (refl, refl)
  expand_from-contains (e ∷ es) rs as' =
      let sets = expand_entry lib t supplier e (rs, as') in
      let (p, q) = expand_entry-contains e rs as' in
      let (p', q') = expand_from-contains es sets.0 sets.1 in
      (ground (arith, p, p'), ground (arith, q, q'))

  -- The entry is global, or it is for the supplier, whom its scope denotes.
  abbrev pub for_supplier : MembershipEntry → Bool
  for_supplier e =
      e.scope_type == "global"
      || (e.scope_type == "supplier" && elim e.scope_id [
        | none ↦ false
        | some v ↦ not (v == "") && lib.parse v == some supplier
      ])

  -- The entry is for the supplier and grants the text of a customer: it lists it, or it grants all, and
  -- the customer is an active one of the supplier.
  abbrev pub grants_customer : MembershipEntry → Bool
  grants_customer e =
      for_supplier e
      && grants x e.reseller_scope e.reseller_account_ids
          (any (λ c. (c.supplier_id == supplier && c.is_active) && x == lib.str c.id) t.customers)

  -- The same of an address: with all, an active one of a customer of the supplier.
  abbrev pub grants_address : MembershipEntry → Bool
  grants_address e =
      for_supplier e
      && grants x e.address_scope e.address_ids (
          any
            (λ a.
              (any (λ c. c.id == a.customer_id && c.supplier_id == supplier) t.customers
                && a.is_active)
              && x == lib.str a.id)
            t.addresses)

  granted_ids-grants :
      (scope : Option String) (ids every : List String)
      → contains x (granted_ids lib t scope ids every) ≡ grants x scope ids (contains x every)
  unfolding granted_ids contains
  granted_ids-grants scope ids every =
      let s = lower (or_value scope "") in
      elim (Bool-cases (s == "list")) [
        | inl l ↦
            let is_list = ==_sound s "list" l in
            let not_all : (s == "all") ≡ false = rw is_list (unfold string_eq in refl) in
            rw (granted_ids, l, not_all) (ground (arith, contains-filled x ids))
        | inr l ↦ elim (Bool-cases (s == "all")) [
          | inl a ↦ rw (granted_ids, l, a) refl
          | inr a ↦ rw (granted_ids, l, a) refl
        ]
      ]

  denoted :
      (v : String)
      → (safe_uuid lib t (some v) == some supplier)
        ≡ (not (v == "") && lib.parse v == some supplier)
  unfolding safe_uuid option_eq
  denoted v = elim (Bool-cases (v == "")) [
    | inl y ↦ let empty = ==_sound v "" y in rw (y, empty) (unfold given in refl)
    | inr y ↦ let full = given-some v (λ p. ground (arith, p, y)) in rw (y, safe_uuid, full) refl
  ]

  applies-for_supplier : (e : MembershipEntry) → applies lib t supplier e ≡ for_supplier e
  unfolding applies safe_uuid given
  applies-for_supplier e = elim (Option-cases e.scope_id) [
    | inl n ↦ rw (applies, n) (ground arith)
    | inr (v, q) ↦ rw (applies, q, denoted v) refl
  ]

  gives-grants :
      (e : MembershipEntry)
      → (gives_customer e ≡ grants_customer e) × (gives_address e ≡ grants_address e)
  unfolding load_customers_for_supplier load_addresses_for_supplier
  gives-grants e = (
    rw
        (
          applies-for_supplier e,
          granted_ids-grants e.reseller_scope e.reseller_account_ids
              (load_customers_for_supplier lib t supplier),
          contains-rows (λ c. lib.str c.id) (λ c. c.supplier_id == supplier && c.is_active) x
              t.customers,
        )
        refl,
    rw
        (
          applies-for_supplier e,
          granted_ids-grants e.address_scope e.address_ids
              (load_addresses_for_supplier lib t supplier),
          contains-rows (λ a. lib.str a.id)
              (λ a.
                any (λ c. c.id == a.customer_id && c.supplier_id == supplier) t.customers
                && a.is_active)
              x t.addresses,
        )
        refl,
  )

  -- For a text that denotes a supplier, a customer or an address is in the expanded scope exactly if
  -- some entry that applies to the supplier grants it: by its list, or as one of the active ones of
  -- the supplier where the entry's scope is all.
  pub expand_scope_for_supplier_lem :
      (doc : MembershipDoc) (supplier_id : String)
      → safe_uuid lib t (some supplier_id) ≡ some supplier
      → (contains x (expand_scope_for_supplier lib t doc supplier_id).0
          ≡ any grants_customer doc.memberships)
        × (contains x (expand_scope_for_supplier lib t doc supplier_id).1
            ≡ any grants_address doc.memberships)
  unfolding expand_scope_for_supplier contains
  expand_scope_for_supplier_lem doc supplier_id h =
      let (p, q) = expand_from-contains doc.memberships [] [] in
      let customers =
        any-same gives_customer grants_customer (λ e. (gives-grants e).0) doc.memberships in
      let addresses =
        any-same gives_address grants_address (λ e. (gives-grants e).1) doc.memberships in
      rw (expand_scope_for_supplier, h) (ground (arith, p, customers), ground (arith, q, addresses))

list-cases :
    (xs : List String)
    → (xs ≡ [])
      ⊎ (((x : String) × (xs ≡ x ∷ []))
          ⊎ ((x : String) × (y : String) × (ys : List String) × (xs ≡ x ∷ y ∷ ys)))
list-cases [] = inl refl
list-cases (x ∷ []) = inr (inl (x, refl))
list-cases (x ∷ y ∷ ys) = inr (inr (x, y, ys, refl))

module _ (lib : UuidLib) (t : Tables) (doc : MembershipDoc) where
  -- No entry has a supplier scope, and the document is refused.
  pub record NoScope (r : Result String MembershipScope) : Type 0 where
    pub message : String
    pub raises : r ≡ err message
    pub no_entry : (k : String) → any (has_scope k) doc.memberships ≡ false

  -- The scope of the document: its supplier is the scope of an entry. With several suppliers it
  -- grants nothing, and else every customer and every address in it is granted by an entry that
  -- applies to the supplier.
  pub record Scoped (r : Result String MembershipScope) : Type 0 where
    pub scope : MembershipScope
    pub returns : r ≡ ok scope
    pub of_entry : any (has_scope (lower scope.supplier_id)) doc.memberships ≡ true
    pub one_of_many :
        ((k : String) → any (has_scope k) doc.memberships ≡ (k == lower scope.supplier_id))
          × (scope.multi_tenant ≡ false)
        ⊎ ((k : String) × (any (has_scope k) doc.memberships ≡ true)
            × ((k == lower scope.supplier_id) ≡ false)
            × (scope.multi_tenant ≡ true)
            × (scope.allowed_customer_ids ≡ [])
            × (scope.allowed_address_ids ≡ []))
    pub customers :
        (supplier : ℕ) (x : String)
        → safe_uuid lib t (some scope.supplier_id) ≡ some supplier
        → contains x scope.allowed_customer_ids ≡ true
        → any (grants_customer lib t supplier x) doc.memberships ≡ true
    pub addresses :
        (supplier : ℕ) (x : String)
        → safe_uuid lib t (some scope.supplier_id) ≡ some supplier
        → contains x scope.allowed_address_ids ≡ true
        → any (grants_address lib t supplier x) doc.memberships ≡ true

  entry_of :
      (s : String) (rest : List String)
      → unique_supplier_scope_ids doc ≡ s ∷ rest
      → any (has_scope (lower s)) doc.memberships ≡ true
  entry_of s rest q =
      let (_, all) = unique_supplier_scope_ids_lem doc in
      let here = all (lower s) in unfold contains in ground (arith, rw q at here, ==_refl (lower s))

  no_entry_of :
      (k : String) → unique_supplier_scope_ids doc ≡ [] → any (has_scope k) doc.memberships ≡ false
  unfolding contains
  no_entry_of k q =
      let (_, all) = unique_supplier_scope_ids_lem doc in
      let here = all k in ground (arith, rw q at here)

  single :
      (s : String)
      → unique_supplier_scope_ids doc ≡ s ∷ []
      → (k : String) → any (has_scope k) doc.memberships ≡ (k == lower s)
  unfolding contains
  single s q k =
      let (_, every) = unique_supplier_scope_ids_lem doc in
      let here = every k in ground (arith, rw q at here)

  second :
      (s s' : String) (rest : List String)
      → unique_supplier_scope_ids doc ≡ s ∷ s' ∷ rest
      → (k : String) × (any (has_scope k) doc.memberships ≡ true) × ((k == lower s) ≡ false)
  unfolding contains
  second s s' rest q =
      let (distinct, every) = unique_supplier_scope_ids_lem doc in
      let apart : contains (lower s) (lowers (s' ∷ rest)) ≡ false =
        (subst IsDistinct q distinct).0 in
      let here = every (lower s') in
      (
        lower s',
        ground (arith, rw q at here, ==_refl (lower s')),
        elim (Bool-cases (lower s' == lower s)) [
          | inr n ↦ n
          | inl y ↦
              let same = ==_sound (lower s') (lower s) y in
              absurd (ground (arith, rw (← same) at apart, ==_refl (lower s')))
        ],
      )

  -- A document is refused if no entry has a supplier scope. Else its scope has the supplier of an
  -- entry. If an entry has another supplier, up to case, it says so and grants nothing; and else only
  -- what entries that apply to the supplier grant.
  pub process_membership_scope_lem :
      NoScope (process_membership_scope lib t doc) ⊎ Scoped (process_membership_scope lib t doc)
  process_membership_scope_lem = elim (list-cases (unique_supplier_scope_ids doc)) [
    | inl q ↦ inl (
        unfold process_membership_scope in
        rw (process_membership_scope, q)
          (record {
            message = "Membership must include at least one supplier scope";
            raises = refl;
            no_entry = λ k. no_entry_of k q;
          }))
    | inr (inl (s, q)) ↦ inr (
        unfold process_membership_scope in
        rw (process_membership_scope, q)
          (record {
            scope = _;
            returns = refl;
            of_entry = entry_of s [] q;
            one_of_many = inl (single s q, refl);
            customers = λ supplier x h m.
                sym (expand_scope_for_supplier_lem lib t supplier x doc s h).0 ∙ m;
            addresses = λ supplier x h m.
                sym (expand_scope_for_supplier_lem lib t supplier x doc s h).1 ∙ m;
          }))
    | inr (inr (s, s', rest, q)) ↦ inr (
        unfold process_membership_scope in
        rw (process_membership_scope, q)
          (record {
            scope = _;
            returns = refl;
            of_entry = entry_of s (s' ∷ rest) q;
            one_of_many = let (k, m, n) = second s s' rest q in inr (k, m, n, refl, refl, refl);
            customers = λ supplier x h m. unfold contains in absurd (ground arith);
            addresses = λ supplier x h m. unfold contains in absurd (ground arith);
          }))
  ]
