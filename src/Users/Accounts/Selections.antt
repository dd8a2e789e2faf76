-- ===== src/Users/Accounts/Selections.antt =====
-- What `resolve_customer_selections` of modules/users/db_helpers.py gives.
use vinc_api.Base.{
  ◌≡◌, refl, sym, subst, ℕ, String, string_eq, nat_eq, ◌==◌, ==_sound, Bool, true, false, some,
  List, [], ◌∷◌, ◌++◌, map, ok, arith, find, where_rows, any, all, contains, All, IsWithin,
  no_repeat, no_repeat-where_rows, no_repeat-append, contains-away, contains-apart, where_rows-true,
  ◌∙◌, List-cases, where_rows-All, any-All, All-map, find-IsWithin, where_rows-IsWithin, Bool-cases,
  Option-cases, Result-cases, inl, inr, >>=-eq-ok,
}
use vinc_api.Users.Model.{Customer, CustomerAddress, Store}
use vinc_api.Users.Accounts.Lookups.{
  CustomerSelection, ResolvedCustomerSelection, address_key, find_customer,
  get_customer_by_identifier, active_addresses, resolve_addresses_for_customer, resolve_selection,
  resolve_from, resolve_customer_selections, parse_all,
}
use vinc_api.Users.Accounts.Contexts.{flatten, selection_key}
use vinc_api.Permissions.{UuidLib}

module _ (s : Store) where
  -- An active address with the customer's number.
  unfoldable pub IsOwn : Customer → CustomerAddress → Type 0
  IsOwn c a =
      IsWithin s.addresses a × (a.erp_customer_id ≡ c.erp_customer_id) × (a.is_active ≡ true)

  -- An active customer with one or more of the addresses, each of them once.
  unfoldable pub IsSelectable : ResolvedCustomerSelection → Type 0
  unfolding IsOwn
  IsSelectable r =
      IsWithin s.customers r.customer
      × (r.customer.is_active ≡ true)
      × (r.addresses ≡ [] → ⊥)
      × All (IsOwn r.customer) r.addresses
      × (no_repeat (map address_key r.addresses) ≡ true)

-- Selections that keep clear of each other, and of what was seen before.
unfoldable pub IsApart : List ℕ → List ℕ → List ResolvedCustomerSelection → Type 0
IsApart seen used [] = Unit
IsApart seen used (r ∷ rs) =
    (contains r.customer.id seen ≡ false)
    × All (λ i. contains i used ≡ false) (map address_key r.addresses)
    × IsApart (r.customer.id ∷ seen) (map address_key r.addresses ++ used) rs

module _ (lib : UuidLib) (s : Store) where
  find_customer-IsWithin :
      (text : String) (c : Customer) → find_customer lib s text ≡ some c → IsWithin s.customers c
  unfolding find_customer
  find_customer-IsWithin text c h = elim (Option-cases (lib.parse text)) [
    | inl e ↦ find-IsWithin (λ c. c.erp_customer_id == text) s.customers c (ground arith)
    | inr (i, e) ↦ elim (Option-cases (find (λ c. c.id == i) s.customers)) [
      | inl n ↦ find-IsWithin (λ c. c.erp_customer_id == text) s.customers c (ground arith)
      | inr (d, f) ↦ find-IsWithin (λ c. c.id == i) s.customers c (ground arith)
    ]
  ]

  get_customer_by_identifier-ok :
      (text : String) (c : Customer)
      → get_customer_by_identifier lib s text ≡ ok c
      → IsWithin s.customers c × (c.is_active ≡ true)
  unfolding get_customer_by_identifier
  get_customer_by_identifier-ok text c h = elim (Option-cases (find_customer lib s text)) [
    | inl e ↦ absurd (ground arith)
    | inr (d, e) ↦ elim (Bool-cases d.is_active) [
      | inl y ↦
          let same : d ≡ c = ground arith in
          (find_customer-IsWithin text c (ground arith), ground arith)
      | inr n ↦ absurd (ground arith)
    ]
  ]

  active_addresses-IsOwn : (c : Customer) → All (IsOwn s c) (active_addresses lib s c)
  unfolding active_addresses IsOwn
  active_addresses-IsOwn c =
      All-map
        (λ a (w, h). elim (Bool-cases (a.erp_customer_id == c.erp_customer_id)) [
          | inl e ↦ (w, ==_sound a.erp_customer_id c.erp_customer_id e, ground arith)
          | inr e ↦ absurd (ground arith)
        ])
        _ (where_rows-IsWithin _ s.addresses)

  -- The rows are those of a query on the active addresses.
  resolve_addresses_for_customer-ok :
      (c : Customer) (every : Bool) (ids : List String) (rows : List CustomerAddress)
      → resolve_addresses_for_customer lib s c every ids ≡ ok rows
      → (p : CustomerAddress → Bool) × (where_rows p (active_addresses lib s c) ≡ rows)
  unfolding resolve_addresses_for_customer
  resolve_addresses_for_customer-ok c true ids rows h =
      (λ a. true, where_rows-true (active_addresses lib s c) ∙ ground arith)
  resolve_addresses_for_customer-ok c false [] rows h = absurd cc
  resolve_addresses_for_customer-ok c false (v ∷ vs) rows h =
      elim (Result-cases (parse_all lib "Invalid address identifier provided" (v ∷ vs))) [
        | inr (m, e) ↦ absurd (ground arith)
        | inl (is, e) ↦
            let p : CustomerAddress → Bool = λ a. contains a.id is in
            (
              p,
              elim (List-cases (where_rows p (active_addresses lib s c))) [
                | inl n ↦ ground arith
                | inr (a, rest, f) ↦
                    elim (Bool-cases (all (λ i. contains i (map address_key (a ∷ rest))) is)) [
                      | inl y ↦ ground arith
                      | inr y ↦ absurd (ground arith)
                    ]
              ],
            )
      ]

  module _ (distinct : no_repeat (map address_key s.addresses) ≡ true) where
    resolve_addresses_for_customer-once :
        (c : Customer) (every : Bool) (ids : List String) (rows : List CustomerAddress)
        → resolve_addresses_for_customer lib s c every ids ≡ ok rows
        → All (IsOwn s c) rows × (no_repeat (map address_key rows) ≡ true)
    unfolding active_addresses
    resolve_addresses_for_customer-once c every ids rows h =
        let (p, same) = resolve_addresses_for_customer-ok c every ids rows h in
        subst (λ t. All (IsOwn s c) t × (no_repeat (map address_key t) ≡ true)) same
          (
            where_rows-All (IsOwn s c) p (active_addresses lib s c) (active_addresses-IsOwn c),
            no_repeat-where_rows address_key p (active_addresses lib s c)
                (no_repeat-where_rows address_key _ s.addresses distinct),
          )

    resolve_selection-ok :
        (seen : List ℕ) (used : List ℕ) (x : CustomerSelection) (r : ResolvedCustomerSelection)
        → resolve_selection lib s seen used x ≡ ok r
        → IsSelectable s r
          × (contains r.customer.id seen ≡ false)
          × All (λ i. contains i used ≡ false) (map address_key r.addresses)
    unfolding resolve_selection IsSelectable
    resolve_selection-ok seen used x r h =
        elim (Result-cases (get_customer_by_identifier lib s x.customer_id)) [
          | inr (m, e) ↦ absurd (ground arith)
          | inl (c, e) ↦ elim (Bool-cases (contains c.id seen)) [
            | inl y ↦ absurd (ground arith)
            | inr fresh ↦
                elim (Result-cases
                  (resolve_addresses_for_customer lib s c x.all_addresses x.address_ids)) [
                    | inr (m, f) ↦ absurd (ground arith)
                    | inl (rows, f) ↦ elim (List-cases rows) [
                      | inl n ↦ absurd (ground arith)
                      | inr (a, rest, n) ↦
                          elim (Bool-cases
                            (any (λ i. contains i used) (map address_key (a ∷ rest)))) [
                              | inl y ↦ absurd (ground arith)
                              | inr unused ↦
                                  let same : r ≡ record { customer = c; addresses = a ∷ rest } =
                                    ground arith in
                                  let (w, active) =
                                    get_customer_by_identifier-ok x.customer_id c e in
                                  let own : All (IsOwn s c) (a ∷ rest)
                                      × (no_repeat (map address_key (a ∷ rest)) ≡ true) =
                                    subst
                                      (λ t.
                                        All (IsOwn s c) t × (no_repeat (map address_key t) ≡ true))
                                      n
                                      (resolve_addresses_for_customer-once c x.all_addresses
                                        x.address_ids rows f) in
                                  subst
                                    (λ t.
                                      IsSelectable s t
                                      × (contains t.customer.id seen ≡ false)
                                      × All (λ i. contains i used ≡ false)
                                          (map address_key t.addresses))
                                    (sym same)
                                    (
                                      (w, active, λ q. cc, own.0, own.1),
                                      fresh,
                                      any-All (map address_key (a ∷ rest)) (λ i. contains i used)
                                          unused,
                                    )
                            ]
                    ]
                  ]
          ]
        ]

    pub resolve_from-ok :
        (seen used : List ℕ) (xs : List CustomerSelection) (rs : List ResolvedCustomerSelection)
        → resolve_from lib s seen used xs ≡ ok rs
        → All (IsSelectable s) rs × IsApart seen used rs
    unfolding resolve_from IsApart
    resolve_from-ok seen used [] rs h =
        let same : [] ≡ rs = ground arith in
        subst (λ t. All (IsSelectable s) t × IsApart seen used t) same (tt, tt)
    resolve_from-ok seen used (x ∷ xs) rs h =
        let (r, e, h') = >>=-eq-ok _ rs (resolve_selection lib s seen used x) h in
        let (rest, f, h'') =
          >>=-eq-ok _ rs
            (resolve_from lib s (r.customer.id ∷ seen) (map address_key r.addresses ++ used) xs)
            h' in
        let same : r ∷ rest ≡ rs = ground arith in
        let (sel, fresh, unused) = resolve_selection-ok seen used x r e in
        let (sels, apart) =
          resolve_from-ok (r.customer.id ∷ seen) (map address_key r.addresses ++ used) xs rest f in
        subst (λ t. All (IsSelectable s) t × IsApart seen used t) same
          ((sel, sels), (fresh, unused, apart))

keys-IsApart :
    (seen used : List ℕ) (rs : List ResolvedCustomerSelection)
    → IsApart seen used rs
    → All (λ i. contains i seen ≡ false) (map selection_key rs)
      × (no_repeat (map selection_key rs) ≡ true)
unfolding IsApart no_repeat
keys-IsApart seen used [] h = (tt, refl)
keys-IsApart seen used (r ∷ rs) (fresh, _, apart) =
    let (away, once) =
      keys-IsApart (r.customer.id ∷ seen) (map address_key r.addresses ++ used) rs apart in
    let (new, rest) = contains-away r.customer.id seen (map selection_key rs) away in
    ((fresh, rest), rw (new, once) refl)

map-append :
    (xs ys : List CustomerAddress)
    → map address_key (xs ++ ys) ≡ map address_key xs ++ map address_key ys
map-append [] ys = refl
map-append (x ∷ xs) ys = rw (map-append xs ys) refl

All-append : (P : ℕ → Type 0) (xs ys : List ℕ) → All P xs → All P ys → All P (xs ++ ys)
All-append P [] ys ps qs = qs
All-append P (x ∷ xs) ys (p, ps) qs = (p, All-append P xs ys ps qs)

flatten-IsApart :
    (s : Store) (seen used : List ℕ) (rs : List ResolvedCustomerSelection)
    → All (IsSelectable s) rs
    → IsApart seen used rs
    → All (λ i. contains i used ≡ false) (map address_key (flatten rs))
      × (no_repeat (map address_key (flatten rs)) ≡ true)
unfolding IsApart IsSelectable
flatten-IsApart s seen used [] sels h = (tt, unfold no_repeat in refl)
flatten-IsApart s seen used (r ∷ rs) (sel, sels) (_, unused, apart) =
    let ks = map address_key r.addresses in
    let (away, once) = flatten-IsApart s (r.customer.id ∷ seen) (ks ++ used) rs sels apart in
    let (clear, rest) = contains-apart ks used (map address_key (flatten rs)) away in
    subst (λ t. All (λ i. contains i used ≡ false) t × (no_repeat t ≡ true))
      (sym (map-append r.addresses (flatten rs)))
      (All-append _ ks _ unused rest, no_repeat-append ks _ sel.4 once clear)

-- Customers that the selections of a request resolve to are active rows of the table, each of them
-- once, and come with addresses: active rows of the table that have the customer's number, each of them
-- once among all the selections, if the table of addresses has no key twice.
pub resolve_customer_selections_lem :
    (lib : UuidLib) (s : Store) (xs : List CustomerSelection) (rs : List ResolvedCustomerSelection)
    → no_repeat (map address_key s.addresses) ≡ true
    → resolve_customer_selections lib s xs ≡ ok rs
    → All (IsSelectable s) rs
      × (no_repeat (map selection_key rs) ≡ true)
      × (no_repeat (map address_key (flatten rs)) ≡ true)
unfolding resolve_customer_selections
resolve_customer_selections_lem lib s xs rs distinct h =
    let (sels, apart) = resolve_from-ok lib s distinct [] [] xs rs h in
    (sels, (keys-IsApart [] [] rs apart).1, (flatten-IsApart s [] [] rs sels apart).1)
