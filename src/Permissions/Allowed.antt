-- ===== src/Permissions/Allowed.antt =====
-- The ids of customers and of addresses that a request is given stay the same within the request.
use vinc_api.Base.{
  ◌≡◌, inl, inr, refl, sym, ◌∙◌, subst, String, true, false, none, some, List, [], ◌∷◌, ok, err,
  given, Bool-cases, Option-cases, List-cases,
}
use vinc_api.Permissions.{Tables, UuidLib}
use vinc_api.Permissions.Resolve.{PermissionsContext, MembershipStore, resolve_permissions}
use vinc_api.Permissions.Guards.{
  HttpException, RequestState, tenant_of, with_context, resolve_permissions_context,
  is_of_wholesalers, get_allowed, get_allowed_customer_ids, get_allowed_address_ids, or_ids,
}

module _ (lib : UuidLib) (t : Tables) (store : MembershipStore) (s : RequestState) where
  resolve-cached :
      (ctx : PermissionsContext)
      → s.permissions_context ≡ some ctx
      → resolve_permissions_context lib t store s ≡ (ok ctx, s)
  unfolding resolve_permissions_context
  resolve-cached ctx h = simp (resolve_permissions_context, h) refl

  resolve-unauthorized :
      s.permissions_context ≡ none
      → given s.user_sub ≡ none
      → resolve_permissions_context lib t store s
        ≡ (err (record { status_code = 401; detail = "Unauthorized" }), s)
  unfolding resolve_permissions_context
  resolve-unauthorized h g = simp (resolve_permissions_context, h, g) refl

  resolve-new :
      (sub : String)
      → s.permissions_context ≡ none
      → given s.user_sub ≡ some sub
      → let ctx = resolve_permissions lib t store sub (tenant_of s) in
        resolve_permissions_context lib t store s ≡ (ok ctx, with_context ctx s)
  unfolding resolve_permissions_context
  resolve-new sub h g = simp (resolve_permissions_context, h, g) refl

  module _ (ids_of : RequestState → List String) (resolved : PermissionsContext → List String) where
    allowed-given :
        (x : String) (xs : List String)
        → ids_of s ≡ x ∷ xs
        → get_allowed lib t store ids_of resolved s ≡ (x ∷ xs, s)
    unfolding get_allowed
    allowed-given x xs q = rw (get_allowed, q) refl

    allowed-none :
        ids_of s ≡ []
        → is_of_wholesalers s ≡ false
        → get_allowed lib t store ids_of resolved s ≡ ([], s)
    unfolding get_allowed
    allowed-none q w = rw (get_allowed, q, w) refl

    allowed-resolved :
        (ctx : PermissionsContext) (s' : RequestState)
        → ids_of s ≡ []
        → is_of_wholesalers s ≡ true
        → resolve_permissions_context lib t store s ≡ (ok ctx, s')
        → get_allowed lib t store ids_of resolved s ≡ (resolved ctx, s')
    unfolding get_allowed
    allowed-resolved ctx s' q w r = simp (get_allowed, q, w, r) refl

    allowed-refused :
        (e : HttpException)
        → ids_of s ≡ []
        → is_of_wholesalers s ≡ true
        → resolve_permissions_context lib t store s ≡ (err e, s)
        → get_allowed lib t store ids_of resolved s ≡ ([], s)
    unfolding get_allowed
    allowed-refused e q w r = simp (get_allowed, q, w, r) refl

module _ (lib : UuidLib) (t : Tables) (store : MembershipStore)
    (ids_of : RequestState → List String) (resolved : PermissionsContext → List String)
    (keeps : (ctx : PermissionsContext) (s : RequestState)
      → ids_of (with_context ctx s) ≡ or_ids (ids_of s) (resolved ctx)) where
  -- From the state that has the context, the ids are those of the context.
  allowed-with_context :
      (s : RequestState) (ctx : PermissionsContext)
      → ids_of s ≡ []
      → is_of_wholesalers s ≡ true
      → get_allowed lib t store ids_of resolved (with_context ctx s)
        ≡ (resolved ctx, with_context ctx s)
  unfolding or_ids
  allowed-with_context s ctx q w =
      let s' = with_context ctx s in
      let of_s' : is_of_wholesalers s' ≡ true =
        unfold with_context in unfold is_of_wholesalers in w in
      let kept : ids_of s' ≡ resolved ctx =
        subst (λ i. ids_of s' ≡ or_ids i (resolved ctx)) q (keeps ctx s) in
      elim (List-cases (resolved ctx)) [
        | inr (x, xs, r) ↦ rw r (allowed-given lib t store s' ids_of resolved x xs (kept ∙ r))
        | inl r ↦
            allowed-resolved lib t store s' ids_of resolved ctx s' (kept ∙ r) of_s'
              (resolve-cached lib t store s' ctx (unfold with_context in refl))
      ]

  -- A second call gives the same ids, and leaves the state as the first left it.
  IsStable : RequestState → Type 0
  IsStable s =
      let (ids, s') = get_allowed lib t store ids_of resolved s in
      get_allowed lib t store ids_of resolved s' ≡ (ids, s')

  stable :
      (s s' : RequestState) (ids : List String)
      → get_allowed lib t store ids_of resolved s ≡ (ids, s')
      → get_allowed lib t store ids_of resolved s' ≡ (ids, s')
      → IsStable s
  unfolding IsStable
  stable s s' ids first second =
      subst (λ p. get_allowed lib t store ids_of resolved p.1 ≡ p) (sym first) second

  get_allowed-IsStable : (s : RequestState) → IsStable s
  get_allowed-IsStable s = elim (List-cases (ids_of s)) [
    | inr (x, xs, q) ↦
        let same = allowed-given lib t store s ids_of resolved x xs q in stable s s _ same same
    | inl q ↦ elim (Bool-cases (is_of_wholesalers s)) [
      | inr w ↦ let same = allowed-none lib t store s ids_of resolved q w in stable s s _ same same
      | inl w ↦ elim (Option-cases s.permissions_context) [
        | inr (ctx, h) ↦
            let cached = resolve-cached lib t store s ctx h in
            let same = allowed-resolved lib t store s ids_of resolved ctx s q w cached in
            stable s s _ same same
        | inl h ↦ elim (Option-cases (given s.user_sub)) [
          | inl g ↦
              let refused = resolve-unauthorized lib t store s h g in
              let same = allowed-refused lib t store s ids_of resolved _ q w refused in
              stable s s _ same same
          | inr (sub, g) ↦
              let new = resolve-new lib t store s sub h g in
              stable s _ _ (allowed-resolved lib t store s ids_of resolved _ _ q w new)
                (allowed-with_context s _ q w)
        ]
      ]
    ]
  ]

-- While the tables and the documents stay as they are, a request in whatever state that asks twice for
-- the customers that it may see, or for the addresses, gets the same answer, and the second call
-- leaves the state as the first left it.
pub get_allowed_ids-again :
    (lib : UuidLib) (t : Tables) (store : MembershipStore) (s : RequestState)
    → (let (ids, s') = get_allowed_customer_ids lib t store s in
        get_allowed_customer_ids lib t store s' ≡ (ids, s'))
      × (let (ids, s') = get_allowed_address_ids lib t store s in
          get_allowed_address_ids lib t store s' ≡ (ids, s'))
unfolding get_allowed_customer_ids get_allowed_address_ids IsStable with_context
get_allowed_ids-again lib t store s = (
  get_allowed-IsStable lib t store (λ s. s.allowed_customer_ids)
      (λ c. c.allowed_reseller_account_ids) (λ ctx r. refl) s,
  get_allowed-IsStable lib t store (λ s. s.allowed_address_ids) (λ c. c.allowed_address_ids)
      (λ ctx r. refl) s,
)
