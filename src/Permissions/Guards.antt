-- ===== src/Permissions/Guards.antt =====
-- api/deps.py: what the dependencies of the routes take from the state of a request, which the
-- middleware fills from the token, and the permissions that they resolve for it, once. A list that is
-- missing there counts as empty, as `or []` makes it.
use vinc_api.Base.{
  ℕ, String, string_eq, ◌==◌, Bool, true, false, not, ◌&&◌, ◌||◌, Option, none, some, List, [], ◌∷◌,
  Result, ok, err, if◌then◌else◌, all, contains, given, lower, or_text, strip,
}
use vinc_api.Permissions.{Tables, UuidLib}
use vinc_api.Permissions.Resolve.{
  PermissionsContext, MembershipStore, resolve_permissions, lower_all,
}

pub record HttpException : Type 0 where
  pub status_code : ℕ
  pub detail : String

pub record RequestState : Type 0 where
  pub permissions_context : Option PermissionsContext
  pub active_wholesaler_id : Option String
  pub tenant_id : Option String
  pub user_sub : Option String
  pub effective_capabilities : Option (List String)
  pub allowed_customer_ids : List String
  pub allowed_address_ids : List String
  pub allowed_wholesaler_ids : List String
  pub multi_tenant : Bool
  pub user_role : Option String
  pub authenticated_sub : Option String

abbrev pub is_empty : List String → Bool
is_empty [] = true
is_empty (x ∷ xs) = false

-- `ids`, unless they are empty: then the others.
unfoldable pub or_ids : List String → List String → List String
or_ids [] others = others
or_ids (x ∷ xs) others = x ∷ xs

unfoldable pub or_capabilities : Option (List String) → List String → Option (List String)
or_capabilities (some (x ∷ xs)) others = some (x ∷ xs)
or_capabilities (some []) others = if is_empty others then some [] else some others
or_capabilities none others = if is_empty others then none else some others

unfoldable pub tenant_of : RequestState → Option String
unfolding or_text
tenant_of s = or_text s.active_wholesaler_id s.tenant_id

-- What `_resolve_permissions_context` leaves in the state.
unfoldable pub with_context : PermissionsContext → RequestState → RequestState
unfolding or_ids or_capabilities
with_context ctx s = record {
  permissions_context = some ctx;
  active_wholesaler_id = s.active_wholesaler_id;
  tenant_id = s.tenant_id;
  user_sub = s.user_sub;
  effective_capabilities = or_capabilities s.effective_capabilities ctx.capabilities;
  allowed_customer_ids = or_ids s.allowed_customer_ids ctx.allowed_reseller_account_ids;
  allowed_address_ids = or_ids s.allowed_address_ids ctx.allowed_address_ids;
  allowed_wholesaler_ids = s.allowed_wholesaler_ids;
  multi_tenant = s.multi_tenant;
  user_role = s.user_role;
  authenticated_sub = s.authenticated_sub;
}

unfoldable pub with_capabilities : List String → RequestState → RequestState
with_capabilities caps s = record {
  permissions_context = s.permissions_context;
  active_wholesaler_id = s.active_wholesaler_id;
  tenant_id = s.tenant_id;
  user_sub = s.user_sub;
  effective_capabilities = some caps;
  allowed_customer_ids = s.allowed_customer_ids;
  allowed_address_ids = s.allowed_address_ids;
  allowed_wholesaler_ids = s.allowed_wholesaler_ids;
  multi_tenant = s.multi_tenant;
  user_role = s.user_role;
  authenticated_sub = s.authenticated_sub;
}

-- The capabilities that are required, without blanks around them and in lower case.
unfoldable pub required_caps : List String → List String
unfolding strip lower
required_caps [] = []
required_caps (r ∷ rs) =
    let rest = required_caps rs in if strip r == "" then rest else lower (strip r) ∷ rest

unfoldable pub get_request_user_sub : RequestState → Result HttpException String
unfolding given
get_request_user_sub s = elim (given s.authenticated_sub) [
  | none ↦ err (record { status_code = 401; detail = "Missing user subject" })
  | some sub ↦ ok sub
]

unfoldable pub ensure_address_access : String → RequestState → Result HttpException String
unfolding contains
ensure_address_access address_id s = elim (contains address_id s.allowed_address_ids) [
  | false ↦ err (record { status_code = 403; detail = "Address access denied" })
  | true ↦ ok address_id
]

unfoldable pub get_request_user_role : RequestState → Option String
unfolding lower
get_request_user_role s = elim s.user_role [ none ↦ none | some r ↦ some (lower r) ]

-- `multi_tenant or allowed_wholesalers`
unfoldable pub is_of_wholesalers : RequestState → Bool
is_of_wholesalers s = s.multi_tenant || not (is_empty s.allowed_wholesaler_ids)

module _ (lib : UuidLib) (t : Tables) (store : MembershipStore) where
  unfoldable pub resolve_permissions_context :
      RequestState → Result HttpException PermissionsContext × RequestState
  unfolding given tenant_of with_context resolve_permissions
  resolve_permissions_context s = elim s.permissions_context [
    | some ctx ↦ (ok ctx, s)
    | none ↦ elim (given s.user_sub) [
      | none ↦ (err (record { status_code = 401; detail = "Unauthorized" }), s)
      | some sub ↦
          let ctx = resolve_permissions lib t store sub (tenant_of s) in
          (ok ctx, with_context ctx s)
    ]
  ]

  -- The capabilities of the state, or those of the context, which the state then keeps.
  unfoldable pub effective_caps : RequestState → Result HttpException (List String) × RequestState
  unfolding resolve_permissions_context with_capabilities
  effective_caps s = elim s.effective_capabilities [
    | some caps ↦ (ok caps, s)
    | none ↦
        let (ctx, s') = resolve_permissions_context s in
        elim ctx [
          | err e ↦ (err e, s')
          | ok c ↦ (ok c.capabilities, with_capabilities c.capabilities s')
        ]
  ]

  unfoldable pub require_capabilities :
      List String → RequestState → Result HttpException (List String) × RequestState
  unfolding effective_caps required_caps all contains lower_all
  require_capabilities required s =
      let (caps, s') = effective_caps s in
      elim caps [
        | err e ↦ (err e, s')
        | ok cs ↦ elim (all (λ r. contains r (lower_all cs)) (required_caps required)) [
          | false ↦ (err (record { status_code = 403; detail = "Forbidden" }), s')
          | true ↦ (ok cs, s')
        ]
      ]

  unfoldable pub ensure_active_wholesaler_allowed :
      RequestState → Result HttpException (Option String) × RequestState
  unfolding tenant_of given contains lower lower_all resolve_permissions_context is_of_wholesalers
  ensure_active_wholesaler_allowed s = elim (given (tenant_of s)) [
    | none ↦ (ok (tenant_of s), s)
    | some w ↦
        elim (not (is_empty s.allowed_wholesaler_ids)
          && not (contains (lower w) (lower_all s.allowed_wholesaler_ids))) [
            | true ↦ (err (record { status_code = 403; detail = "Wholesaler access denied" }), s)
            | false ↦ elim (is_of_wholesalers s) [
              | false ↦ (ok (tenant_of s), s)
              | true ↦
                  let (ctx, s') = resolve_permissions_context s in
                  elim ctx [ err e ↦ (err e, s') | ok c ↦ (ok (tenant_of s), s') ]
            ]
          ]
  ]

  -- The ids of the state, or else, for a caller of wholesalers, those of the context, if any.
  unfoldable pub get_allowed :
      (RequestState → List String)
      → (PermissionsContext → List String)
      → RequestState
      → List String × RequestState
  unfolding is_of_wholesalers resolve_permissions_context
  get_allowed ids_of resolved s = elim (ids_of s) [
    | x ∷ xs ↦ (x ∷ xs, s)
    | [] ↦ elim (is_of_wholesalers s) [
      | false ↦ ([], s)
      | true ↦
          let (ctx, s') = resolve_permissions_context s in
          elim ctx [ err e ↦ ([], s') | ok c ↦ (resolved c, s') ]
    ]
  ]

  unfoldable pub get_allowed_customer_ids : RequestState → List String × RequestState
  unfolding get_allowed
  get_allowed_customer_ids =
      get_allowed (λ s. s.allowed_customer_ids) (λ c. c.allowed_reseller_account_ids)

  unfoldable pub get_allowed_address_ids : RequestState → List String × RequestState
  unfolding get_allowed
  get_allowed_address_ids = get_allowed (λ s. s.allowed_address_ids) (λ c. c.allowed_address_ids)
