-- ===== src/Permissions/Entitled.antt =====
-- Who passes `require_capabilities`, and which ids a request is given.
use vinc_api.Base.{
  ◌≡◌, ◌⊎◌, inl, inr, refl, sym, ◌∙◌, String, string_eq, ◌==◌, ==_sound, ==_refl, Bool, true, false,
  none, some, List, [], ◌∷◌, Result, ok, err, arith, any, all, contains, given, lower, Bool-cases,
  Option-cases,
}
use vinc_api.Permissions.{MembershipDoc, Tables, UuidLib}
use vinc_api.Permissions.Resolve.{
  MembershipStore, load_membership_doc, resolve_permissions, lower_all, select_membership_for_scope,
  roles_of,
}
use vinc_api.Permissions.Collected.{names_capability, has_capability, named, by_role}
use vinc_api.Permissions.Resolved.{resolve_permissions_lem}
use vinc_api.Permissions.Guards.{
  HttpException, RequestState, tenant_of, required_caps, resolve_permissions_context,
  effective_caps, require_capabilities,
}

lower_all-contains :
    (r : String) (cs : List String)
    → contains r (lower_all cs) ≡ true
    → (c : String) × (contains c cs ≡ true) × (lower c ≡ r)
unfolding lower_all contains
lower_all-contains r [] h = absurd (ground arith)
lower_all-contains r (c ∷ cs) h = elim (Bool-cases (r == lower c)) [
  | inl e ↦ (c, ground (arith, ==_refl c), sym (==_sound r (lower c) e))
  | inr e ↦ let (c', m, q) = lower_all-contains r cs (ground arith) in (c', ground (arith, m), q)
]

-- What `all` does not find, some member fails.
all-fails :
    (p : String → Bool) (xs : List String)
    → all p xs ≡ false
    → (x : String) × (contains x xs ≡ true) × (p x ≡ false)
unfolding all contains
all-fails p [] h = absurd cc
all-fails p (x ∷ xs) h = elim (Bool-cases (p x)) [
  | inl e ↦ let (y, m, q) = all-fails p xs (ground arith) in (y, ground (arith, m), q)
  | inr e ↦ (x, ground (arith, ==_refl x), e)
]

all-has :
    (p : String → Bool) (xs : List String) (x : String)
    → all p xs ≡ true
    → contains x xs ≡ true
    → p x ≡ true
unfolding all contains
all-has p [] x h m = absurd (ground arith)
all-has p (y ∷ ys) x h m = elim (Bool-cases (x == y)) [
  | inl e ↦ rw (==_sound x y e) (ground (arith, h))
  | inr e ↦ all-has p ys x (ground (arith, h)) (ground (arith, m, e))
]

module _ (lib : UuidLib) (t : Tables) (store : MembershipStore) (s : RequestState) where
  -- The subject has a document, and one of its entries for the tenant names the capability, up to
  -- case; or none names any, and one of the roles has it by default.
  pub record IsEntitledTo (sub capability : String) : Type 0 where
    pub doc : MembershipDoc
    pub loaded : load_membership_doc sub store ≡ some doc
    pub spelling : String
    pub spells : lower spelling ≡ capability
    pub entitled :
        (any (names_capability spelling) (select_membership_for_scope doc.memberships (tenant_of s))
          ≡ true)
        ⊎ (any (has_capability spelling) (
              roles_of (select_membership_for_scope doc.memberships (tenant_of s)) doc.default_role)
            ≡ true)

  capable-IsEntitledTo :
      (sub r : String)
      → contains r (lower_all (resolve_permissions lib t store sub (tenant_of s)).capabilities)
        ≡ true
      → IsEntitledTo sub r
  capable-IsEntitledTo sub r h =
      let ctx = resolve_permissions lib t store sub (tenant_of s) in
      let (c, m, q) = lower_all-contains r ctx.capabilities h in
      elim (resolve_permissions_lem lib t store sub (tenant_of s)) [
        | inl (_, n) ↦ unfold contains in absurd (ground (arith, n.capabilities, m))
        | inr (doc, l, res) ↦ elim res.capabilities [
          | named k _ all_of ↦ record {
            doc = doc;
            loaded = l;
            spelling = c;
            spells = q;
            entitled = inl (sym (all_of c) ∙ m);
          }
          | by_role _ all_of ↦ record {
            doc = doc;
            loaded = l;
            spelling = c;
            spells = q;
            entitled = inr (sym (all_of c) ∙ m);
          }
        ]
      ]

  -- How the check of the capabilities ends for a request that has resolved nothing yet.
  pub data IsAnswered (required : List String) (r : Result HttpException (List String))
      : Type 0 where
    unauthorized :
        given s.user_sub ≡ none
        → r ≡ err (record { status_code = 401; detail = "Unauthorized" })
        → IsAnswered required r
    forbidden :
        (sub : String)
        → given s.user_sub ≡ some sub
        → (capability : String) → contains capability (required_caps required) ≡ true
        → contains capability
            (lower_all (resolve_permissions lib t store sub (tenant_of s)).capabilities)
          ≡ false
        → r ≡ err (record { status_code = 403; detail = "Forbidden" })
        → IsAnswered required r
    permitted :
        (sub : String)
        → given s.user_sub ≡ some sub
        → r ≡ ok (resolve_permissions lib t store sub (tenant_of s)).capabilities
        → ((capability : String)
            → contains capability (required_caps required) ≡ true
            → IsEntitledTo sub capability)
        → IsAnswered required r

  -- A request whose state holds neither resolved permissions nor capabilities is refused with 401
  -- if it has no subject; with 403 if a required capability is not among those that its subject
  -- has for the tenant; else it passes, and the subject's document entitles it to every capability
  -- that is required, not counting blanks around it and its case.
  pub require_capabilities-IsAnswered :
      (required : List String)
      → s.permissions_context ≡ none
      → s.effective_capabilities ≡ none
      → IsAnswered required (require_capabilities lib t store required s).0
  unfolding require_capabilities effective_caps resolve_permissions_context
  require_capabilities-IsAnswered required no_context no_caps =
      elim (Option-cases (given s.user_sub)) [
        | inl q ↦ unauthorized q (rw (require_capabilities, no_caps, no_context, q) refl)
        | inr (sub, q) ↦
            let caps = (resolve_permissions lib t store sub (tenant_of s)).capabilities in
            let has = λ (r : String). contains r (lower_all caps) in
            elim (Bool-cases (all has (required_caps required))) [
              | inl e ↦
                  permitted sub q (rw (require_capabilities, no_caps, no_context, q, e) refl)
                    (λ r m. capable-IsEntitledTo sub r (all-has has (required_caps required) r e m))
              | inr e ↦
                  let (r, m, f) = all-fails has (required_caps required) e in
                  forbidden sub q r m f (rw (require_capabilities, no_caps, no_context, q, e) refl)
            ]
      ]
