-- ===== src/Auth/Tests.antt =====
-- The theorem on tokens at concrete data.
use Prim.Native.String.{slice, len}
use text.Mathlib.Text.{starts_with}
use vinc_api.Base.{
  strip, ◌≡◌, ◌⊎◌, refl, ℕ, String, string_eq, option_eq, true, not, ◌||◌, none, some, List, [],
  ◌∷◌, Result, ok, given, contains,
}
use vinc_api.Auth.{
  Claims, Jwk, JwtLib, JwtSettings, JwksClient, AuthenticatedUser, is_anonymous_path, role_of,
  dispatch,
}
use vinc_api.Auth.Verified.{IsVerified, dispatch-IsVerified}

abbrev token_claims : Claims
token_claims = record {
  sub = some "kc9";
  email = some "h@s.it";
  preferred_username = none;
  role = none;
  realm_roles = some "offline_access" ∷ some "agent" ∷ [];
}

abbrev jwt : JwtLib
jwt = record {
  get_unverified_header = λ t. ok (record { alg = some "RS256"; kid = some "k1" });
  from_jwk = λ k. ok k.material;
  decode = λ t key alg audience. ok token_claims;
}

abbrev fetch : ℕ → Result String (List Jwk)
fetch n = ok (record { kid = some "k1"; material = "m" } ∷ [])

abbrev settings : JwtSettings
settings = record {
  enabled = true;
  audience = none;
  test_secret = none;
  has_jwks_url = true;
  ttl = 300;
}

abbrev fetched : JwksClient
fetched = record {
  jwks = some (record { kid = some "k1"; material = "m" } ∷ []);
  fetched_at = 1000;
}

abbrev someone : AuthenticatedUser
someone = record { sub = "kc9"; email = some "h@s.it"; role = some "agent" }

dispatch-IsVerified_example :
    ((some someone ≡ none) × ((not settings.enabled || is_anonymous_path "/api/v1/users") ≡ true))
    ⊎ ((u : AuthenticatedUser) × (a : String) × (claims : Claims) × (some someone ≡ some u)
        × (given (some "Bearer abc") ≡ some a)
        × (starts_with a "Bearer " ≡ true)
        × IsVerified jwt fetch settings 1000 (strip (slice a 7 (len a))) claims fetched
        × (given claims.sub ≡ some u.sub)
        × (u.role ≡ role_of claims))
unfolding dispatch contains string_eq option_eq
dispatch-IsVerified_example =
    dispatch-IsVerified jwt fetch settings 1000 "/api/v1/users" (some "Bearer abc")
      (record { jwks = none; fetched_at = 0 }) fetched (some someone) refl
