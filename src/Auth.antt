-- ===== src/Auth.antt =====
-- common/auth.py and JWTAuthMiddleware of common/middleware.py: who is let through with a token. PyJWT
-- and the request for the keys are parameters. A time is in seconds.
pub mod Verified
mod Tests
use Prim.Native.String.{slice, len}
use text.Mathlib.Text.{starts_with}
use vinc_api.Base.{
  strip, ℕ, ◌-◌, String, string_eq, option_eq, ◌==◌, Bool, true, false, not, ◌&&◌, ◌||◌, Option,
  none, some, List, [], ◌∷◌, ◌++◌, Result, ok, err, find, any, contains, given, lower, ltb, or_text,
  if◌then◌else◌,
}
use vinc_api.Users.Roles.{allowed_roles}

-- An exception: a ValueError, which the middleware catches, or another one.
pub data AuthError : Type 0 where
  value_error : String → AuthError
  other_error : String → AuthError

pub record Header : Type 0 where
  pub alg : Option String
  pub kid : Option String

-- The claims that are read, each a text or missing.
pub record Claims : Type 0 where
  pub sub : Option String
  pub email : Option String
  pub preferred_username : Option String
  pub role : Option String
  pub realm_roles : List (Option String)

pub record Jwk : Type 0 where
  pub kid : Option String
  pub material : String

-- PyJWT; a key that cannot be read and a header that cannot be parsed raise its own exceptions.
pub record JwtLib : Type 0 where
  pub get_unverified_header : String → Result String Header
  pub from_jwk : Jwk → Result String String
  pub decode : String → String → String → Option String → Result String Claims

pub record JwtSettings : Type 0 where
  pub enabled : Bool
  pub audience : Option String
  pub test_secret : Option String
  pub has_jwks_url : Bool
  pub ttl : ℕ

-- JWKSClient: the keys that were fetched, and when.
pub record JwksClient : Type 0 where
  pub jwks : Option (List Jwk)
  pub fetched_at : ℕ

pub record AuthenticatedUser : Type 0 where
  pub sub : String
  pub email : Option String
  pub role : Option String

-- What becomes of a request: it goes on, with the user of the token if there was one, it is
-- answered with 401, or an exception is raised.
pub data Outcome : Type 0 where
  passed : Option AuthenticatedUser → Outcome
  unauthorized : String → Outcome
  raised : String → Outcome

abbrev anonymous_exact_paths : List String
anonymous_exact_paths =
    "/api/v1/health" ∷ "/api/v1/public" ∷ "/api/v1/public/retailer/register" ∷ []

abbrev anonymous_path_prefixes : List String
anonymous_path_prefixes = "/docs" ∷ "/redoc" ∷ "/openapi" ∷ "/api/v1/public/" ∷ []

unfoldable pub is_anonymous_path : String → Bool
unfolding contains any
is_anonymous_path path =
    contains path anonymous_exact_paths || any (starts_with path) anonymous_path_prefixes

unfoldable pub get_all_application_roles : List String
get_all_application_roles =
    allowed_roles ++ ("wholesaler_admin" ∷ "supplier_helpdesk" ∷ "agent_admin" ∷ [])

-- The first role of the realm that is one of the application.
unfoldable pub first_application_role : List (Option String) → Option String
unfolding given contains lower get_all_application_roles
first_application_role [] = none
first_application_role (r ∷ rs) =
    let rest = first_application_role rs in
    elim (given r) [
      | none ↦ rest
      | some t ↦ if contains (lower t) get_all_application_roles then some t else rest
    ]

unfoldable pub role_of : Claims → Option String
unfolding given first_application_role
role_of c = elim (given c.role) [ some r ↦ some r | none ↦ first_application_role c.realm_roles ]

module _ (lib : JwtLib) (fetch : ℕ → Result String (List Jwk)) (settings : JwtSettings)
    (now : ℕ) where
  -- The keys are fetched if there are none or if they are too old.
  unfoldable pub ensure_keys : JwksClient → Result AuthError (List Jwk) × JwksClient
  ensure_keys client =
      let refreshed : Result AuthError (List Jwk) × JwksClient = elim (fetch now) [
        | err m ↦ (err (value_error m), client)
        | ok keys ↦ (ok keys, record { jwks = some keys; fetched_at = now })
      ] in
      elim client.jwks [
        | none ↦ refreshed
        | some keys ↦
            if ltb settings.ttl (now - client.fetched_at) then refreshed else (ok keys, client)
      ]

  unfoldable pub get_signing_key : String → JwksClient → Result AuthError String × JwksClient
  unfolding ensure_keys find
  get_signing_key kid client =
      let (keys, client') = ensure_keys client in
      elim keys [
        | err e ↦ (err e, client')
        | ok ks ↦ elim (find (λ k. k.kid == some kid) ks) [
          | none ↦ (err (value_error "Signing key not found in JWKS"), client')
          | some k ↦ elim (lib.from_jwk k) [
            | err m ↦ (err (other_error m), client')
            | ok key ↦ (ok key, client')
          ]
        ]
      ]

  -- The key that the token's header calls for.
  unfoldable pub key_for : String → Header → JwksClient → Result AuthError String × JwksClient
  unfolding get_signing_key given
  key_for alg header client = elim (starts_with alg "HS") [
    | true ↦ elim (given settings.test_secret) [
      | none ↦
          (err (value_error "HS tokens are not allowed without JWT_TEST_SECRET configured"), client)
      | some secret ↦ (ok secret, client)
    ]
    | false ↦ elim (given header.kid) [
      | none ↦ (err (value_error "Token missing key id (kid)"), client)
      | some kid ↦ elim settings.has_jwks_url [
        | false ↦ (err (value_error "JWKS client is not configured"), client)
        | true ↦ get_signing_key kid client
      ]
    ]
  ]

  unfoldable pub decode : String → JwksClient → Result AuthError Claims × JwksClient
  unfolding key_for given
  decode token client = elim settings.enabled [
    | false ↦ (err (value_error "JWT verification is disabled"), client)
    | true ↦ elim (given (some token)) [
      | none ↦ (err (value_error "Missing bearer token"), client)
      | some t ↦ elim (lib.get_unverified_header t) [
        | err m ↦ (err (other_error m), client)
        | ok header ↦ elim (given header.alg) [
          | none ↦ (err (value_error "Token missing signing algorithm"), client)
          | some alg ↦
              let (key, client') = key_for alg header client in
              elim key [
                | err e ↦ (err e, client')
                | ok k ↦ elim (lib.decode t k alg settings.audience) [
                  | err m ↦ (err (value_error m), client')
                  | ok claims ↦ (ok claims, client')
                ]
              ]
        ]
      ]
    ]
  ]

  unfoldable pub authenticate :
      String → JwksClient → Result AuthError AuthenticatedUser × JwksClient
  unfolding decode given role_of or_text
  authenticate token client =
      let (claims, client') = decode token client in
      elim claims [
        | err e ↦ (err e, client')
        | ok c ↦ elim (given c.sub) [
          | none ↦ (err (value_error "Token missing subject"), client')
          | some sub ↦ (
            ok (record {
              sub = sub;
              email = or_text c.email c.preferred_username;
              role = role_of c;
            }),
            client',
          )
        ]
      ]

  -- `JWTAuthMiddleware.dispatch`.
  unfoldable pub dispatch : String → Option String → JwksClient → Outcome × JwksClient
  unfolding is_anonymous_path given authenticate strip
  dispatch path authorization client = elim (not settings.enabled || is_anonymous_path path) [
    | true ↦ (passed none, client)
    | false ↦ elim (given authorization) [
      | none ↦ (unauthorized "Missing bearer token", client)
      | some a ↦ elim (starts_with a "Bearer ") [
        | false ↦ (unauthorized "Missing bearer token", client)
        | true ↦
            let (user, client') = authenticate (strip (slice a 7 (len a))) client in
            elim user [
              | err (value_error m) ↦ (unauthorized m, client')
              | err (other_error m) ↦ (raised m, client')
              | ok u ↦ (passed (some u), client')
            ]
      ]
    ]
  ]
