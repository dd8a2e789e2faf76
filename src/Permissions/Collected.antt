-- ===== src/Permissions/Collected.antt =====
-- The loop of `resolve_permissions` over the selected entries, and the texts of ids that it parses.
use vinc_api.Base.{
  ℕ, ◌≡◌, inl, inr, refl, sym, ◌∙◌, ap, subst, String, string_eq, nat_eq, ◌==◌, ==_sound, ==_refl,
  Bool, true, false, ◌&&◌, ◌||◌, Option, none, some, List, [], ◌∷◌, map, arith, any, contains,
  where_rows, find, Bool-cases, Option-cases,
}
use vinc_api.Users.Model.{Customer}
use vinc_api.Permissions.{MembershipEntry, Tables, UuidLib, add_all}
use vinc_api.Permissions.Sets.{contains-add_all}
use vinc_api.Permissions.Resolve.{
  Collected, default_caps_for_role, add_role_caps, roles_of, caps_or_defaults, lower_all,
  reseller_grants, address_grants, collect_entry, collect_from, parse_ids, customers_of_supplier,
}

-- The sets before the loop.
abbrev pub nothing : Collected
nothing = record { capabilities = []; resellers = []; addresses = [] }

-- The entry names the capability, up to case.
unfoldable pub names_capability : String → MembershipEntry → Bool
unfolding contains lower_all
names_capability k e = contains k (lower_all e.capabilities)

-- The role has the capability by default.
unfoldable pub has_capability : String → String → Bool
unfolding contains default_caps_for_role
has_capability k r = contains k (default_caps_for_role r)

module _ (lib : UuidLib) (t : Tables) (active : Option ℕ) (x : String) where
  -- The entry allows the customer, or the address.
  unfoldable pub allows_customer : MembershipEntry → Bool
  unfolding contains reseller_grants
  allows_customer e = contains x (reseller_grants lib t active e)

  unfoldable pub allows_address : MembershipEntry → Bool
  unfolding contains address_grants
  allows_address e = contains x (address_grants lib t active e)

  -- The three sets after the loop have what an entry gives, and what they had.
  collect_from-contains :
      (es : List MembershipEntry) (c : Collected)
      → let d = collect_from lib t active es c in
        (contains x d.capabilities ≡ (any (names_capability x) es || contains x c.capabilities))
        × (contains x d.resellers ≡ (any allows_customer es || contains x c.resellers))
        × (contains x d.addresses ≡ (any allows_address es || contains x c.addresses))
  unfolding collect_from any names_capability allows_customer allows_address
  collect_from-contains [] c = (refl, refl, refl)
  collect_from-contains (e ∷ es) c =
      let (p, q, r) = collect_from-contains es (collect_entry lib t active e c) in
      let p' = contains-add_all x (lower_all e.capabilities) c.capabilities in
      let q' = contains-add_all x (reseller_grants lib t active e) c.resellers in
      let r' = contains-add_all x (address_grants lib t active e) c.addresses in
      unfold collect_entry in (ground (arith, p, p'), ground (arith, q, q'), ground (arith, r, r'))

  -- The three sets that a loop from empty ones fills.
  pub all_collected :
      (es : List MembershipEntry)
      → let d = collect_from lib t active es nothing in
        (contains x d.capabilities ≡ any (names_capability x) es)
        × (contains x d.resellers ≡ any allows_customer es)
        × (contains x d.addresses ≡ any allows_address es)
  unfolding contains
  all_collected es =
      let (p, q, r) = collect_from-contains es nothing in
      (ground (arith, p), ground (arith, q), ground (arith, r))

no_rows : {A : Type 0} (p : A → Bool) (xs : List A) → ((x : A) → p x ≡ false) → where_rows p xs ≡ []
unfolding where_rows
no_rows p [] h = refl
no_rows p (x ∷ xs) h = rw (h x) (no_rows p xs h)

-- From no ids there are none.
pub no_customers :
    (lib : UuidLib) (t : Tables) (active : Option ℕ) → customers_of_supplier lib t active [] ≡ []
unfolding customers_of_supplier parse_ids contains add_all
no_customers lib t none = refl
no_customers lib t (some supplier) =
    let own : Customer → Bool = λ c. c.supplier_id == supplier && false in
    let never : (c : Customer) → own c ≡ false = λ c. ground arith in
    ap (λ rows. add_all (map (λ (c : Customer). lib.str c.id) rows) [])
      (no_rows own t.customers never)

pub contains-add_role_caps :
    (k : String) (rs s : List String)
    → contains k (add_role_caps rs s) ≡ (any (has_capability k) rs || contains k s)
unfolding add_role_caps any has_capability
contains-add_role_caps k [] s = refl
contains-add_role_caps k (r ∷ rs) s =
    let p = contains-add_role_caps k rs (add_all (default_caps_for_role r) s) in
    let q = contains-add_all k (default_caps_for_role r) s in ground (arith, p, q)

-- A document for the active supplier gives capabilities: those that its selected entries name, if
-- they name any, and else the defaults of the roles.
pub data IsCapable (selected : List MembershipEntry) (roles caps : List String) : Type 0 where
  named :
      (k : String)
      → any (names_capability k) selected ≡ true
      → ((c : String) → contains c caps ≡ any (names_capability c) selected)
      → IsCapable selected roles caps
  by_role :
      ((c : String) → any (names_capability c) selected ≡ false)
      → ((c : String) → contains c caps ≡ any (has_capability c) roles)
      → IsCapable selected roles caps

pub caps_or_defaults-IsCapable :
    (selected : List MembershipEntry) (default_role : Option String) (caps : List String)
    → ((c : String) → contains c caps ≡ any (names_capability c) selected)
    → IsCapable selected
        (roles_of selected default_role)
        (caps_or_defaults caps selected default_role)
unfolding caps_or_defaults contains
caps_or_defaults-IsCapable selected default_role [] h =
    by_role (λ c. sym (h c))
      (λ c. ground (arith, contains-add_role_caps c (roles_of selected default_role) []))
caps_or_defaults-IsCapable selected default_role (k ∷ ks) h =
    named k (sym (h k) ∙ ground (arith, ==_refl k)) h

contains-more :
    (s x : String) (xs : List String) → contains s xs ≡ true → contains s (x ∷ xs) ≡ true
unfolding contains
contains-more s x xs m = ground (arith, m)

module _ (lib : UuidLib) (t : Tables) where
  pub parse_ids-denoted :
      (xs : List String) (ns : List ℕ) (n : ℕ)
      → parse_ids lib t xs ≡ some ns
      → contains n ns ≡ true
      → (s : String) × (contains s xs ≡ true) × (lib.parse s ≡ some n)
  unfolding parse_ids contains
  parse_ids-denoted [] ns n h m = absurd (ground arith)
  parse_ids-denoted (x ∷ xs) ns n h m = elim (Option-cases (lib.parse x)) [
    | inl q ↦ absurd (ground (arith, rw (parse_ids, q) at h))
    | inr (i, q) ↦ elim (Option-cases (parse_ids lib t xs)) [
      | inl r ↦ absurd (ground (arith, rw (parse_ids, q, r) at h))
      | inr (is, r) ↦
          let same : i ∷ is ≡ ns = ground (arith, rw (parse_ids, q, r) at h) in
          let here : contains n (i ∷ is) ≡ true = subst (λ z. contains n z ≡ true) (sym same) m in
          elim (Bool-cases (n == i)) [
            | inl e ↦
                let is_i = ==_sound n i e in (x, ground (arith, ==_refl x), q ∙ ap some (sym is_i))
            | inr e ↦
                let later : contains n is ≡ true = ground (arith, here, e) in
                let (s, m', p) = parse_ids-denoted xs is n r later in
                (s, contains-more s x xs m', p)
          ]
    ]
  ]

  pub parse_ids-fails :
      (xs : List String)
      → parse_ids lib t xs ≡ none
      → (s : String) × (contains s xs ≡ true) × (lib.parse s ≡ none)
  unfolding parse_ids contains
  parse_ids-fails [] h = absurd cc
  parse_ids-fails (x ∷ xs) h = elim (Option-cases (lib.parse x)) [
    | inl q ↦ (x, ground (arith, ==_refl x), q)
    | inr (i, q) ↦
        let rest : parse_ids lib t xs ≡ none = elim (Option-cases (parse_ids lib t xs)) [
          | inl r ↦ r
          | inr (is, r) ↦ absurd (ground (arith, rw (parse_ids, q, r) at h))
        ] in
        let (s, m, p) = parse_ids-fails xs rest in (s, contains-more s x xs m, p)
  ]

pub any-find :
    {A : Type 0} (p : A → Bool) (xs : List A) → any p xs ≡ true → (x : A) × (find p xs ≡ some x)
unfolding any find
any-find p [] h = absurd cc
any-find p (x ∷ xs) h = elim (Bool-cases (p x)) [
  | inl e ↦ (x, rw e refl)
  | inr e ↦ let (y, f) = any-find p xs (ground arith) in (y, rw e f)
]

pub contains-rows :
    {A : Type 0} (f : A → String) (p : A → Bool) (x : String) (rows : List A)
    → contains x (map f (where_rows p rows)) ≡ any (λ r. p r && x == f r) rows
unfolding contains where_rows any
contains-rows f p x [] = refl
contains-rows f p x (r ∷ rs) = elim (Bool-cases (p r)) [
  | inl e ↦ rw e (ground (arith, contains-rows f p x rs))
  | inr e ↦ rw e (contains-rows f p x rs)
]
