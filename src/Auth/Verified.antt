-- ===== src/Auth/Verified.antt =====
-- Which requests go on, and with which keys their tokens were checked.
use Prim.Native.String.{slice, len}
use text.Mathlib.Text.{starts_with}
use vinc_api.Base.{
  strip, ◌≡◌, ◌≤◌, refl, ap, ◌∙◌, subst, ◌⊎◌, ℕ, ◌-◌, String, string_eq, option_eq, ◌==◌, true,
  false, not, ◌||◌, Option, none, some, List, Result, ok, arith, find, given, given_sound, ltb,
  or_text, Bool-cases, Option-cases, Result-cases, inl, inr,
}
use vinc_api.Auth.{
  value_error, other_error, Header, Claims, Jwk, JwtLib, JwtSettings, JwksClient, AuthenticatedUser,
  passed, is_anonymous_path, role_of, ensure_keys, get_signing_key, key_for, decode, authenticate,
  dispatch,
}

pair_path :
    {A B : Type 0} (r : A × B) (x : A) (y : B) → r.0 ≡ x → r.1 ≡ y → ◌≡◌ {A = A × B} r (x, y)
pair_path {B} r x y p q = ap (λ t. (t, r.1)) p ∙ ap (λ t. (x, t)) q

module _ (lib : JwtLib) (fetch : ℕ → Result String (List Jwk)) (settings : JwtSettings)
    (now : ℕ) where
  -- The client holds the keys, and they are not too old.
  abbrev IsFresh : List Jwk → JwksClient → Type 0
  IsFresh ks client = (client.jwks ≡ some ks) × (now - client.fetched_at ≤ settings.ttl)

  fetched-IsFresh : (ks : List Jwk) → IsFresh ks (record { jwks = some ks; fetched_at = now })
  fetched-IsFresh ks = (refl, omega arith)

  ensure_keys-IsFresh :
      (client client' : JwksClient) (ks : List Jwk)
      → ensure_keys lib fetch settings now client ≡ (ok ks, client')
      → IsFresh ks client'
  unfolding ensure_keys
  ensure_keys-IsFresh client client' ks h =
      let new : JwksClient = record { jwks = some ks; fetched_at = now } in
      elim (Option-cases client.jwks) [
        | inl n ↦ elim (Result-cases (fetch now)) [
          | inr (m, e) ↦ absurd (ground arith)
          | inl (keys, e) ↦
              let same : new ≡ client' = ground arith in
              subst (IsFresh ks) same (fetched-IsFresh ks)
        ]
        | inr (keys, n) ↦ elim (Bool-cases (ltb settings.ttl (now - client.fetched_at))) [
          | inr y ↦
              let same : client ≡ client' = ground arith in
              let k : client.jwks ≡ some ks = ground arith in
              subst (IsFresh ks) same (k, ground arith)
          | inl y ↦ elim (Result-cases (fetch now)) [
            | inr (m, e) ↦ absurd (ground arith)
            | inl (keys', e) ↦
                let same : new ≡ client' = ground arith in
                subst (IsFresh ks) same (fetched-IsFresh ks)
          ]
        ]
      ]

  -- The key is the secret for tests, or it is one of the fresh keys and has the id in the header.
  unfoldable pub IsKeyFor : String → Header → String → JwksClient → Type 0
  IsKeyFor alg header key client =
      ((starts_with alg "HS" ≡ true) × (given settings.test_secret ≡ some key))
      ⊎ ((kid : String) × (ks : List Jwk) × (k : Jwk) × (starts_with alg "HS" ≡ false)
          × (given header.kid ≡ some kid)
          × IsFresh ks client
          × (find (λ x. x.kid == some kid) ks ≡ some k)
          × (lib.from_jwk k ≡ ok key))

  get_signing_key-IsFresh :
      (kid key : String) (client client' : JwksClient)
      → get_signing_key lib fetch settings now kid client ≡ (ok key, client')
      → (ks : List Jwk) × (k : Jwk) × IsFresh ks client'
        × (find (λ x. x.kid == some kid) ks ≡ some k)
        × (lib.from_jwk k ≡ ok key)
  unfolding get_signing_key
  get_signing_key-IsFresh kid key client client' h =
      let got = ensure_keys lib fetch settings now client in
      elim (Result-cases got.0) [
        | inr (m, e) ↦ absurd (ground arith)
        | inl (ks, e) ↦ elim (Option-cases (find (λ k. k.kid == some kid) ks)) [
          | inl n ↦ absurd (ground arith)
          | inr (k, f) ↦ elim (Result-cases (lib.from_jwk k)) [
            | inr (m, g) ↦ absurd (ground arith)
            | inl (x, g) ↦
                let left : got.1 ≡ client' = ground arith in
                let key_is : x ≡ key = ground arith in
                let whole : got ≡ (ok ks, client') = pair_path got (ok ks) client' e left in
                (ks, k, ensure_keys-IsFresh client client' ks whole, f, g ∙ ap ok key_is)
          ]
        ]
      ]

  key_for-IsKeyFor :
      (alg : String) (header : Header) (key : String) (client client' : JwksClient)
      → key_for lib fetch settings now alg header client ≡ (ok key, client')
      → IsKeyFor alg header key client'
  unfolding key_for IsKeyFor
  key_for-IsKeyFor alg header key client client' h = elim (Bool-cases (starts_with alg "HS")) [
    | inl y ↦ elim (Option-cases (given settings.test_secret)) [
      | inl n ↦ absurd (ground arith)
      | inr (secret, e) ↦ inl (y, ground arith)
    ]
    | inr n ↦ elim (Option-cases (given header.kid)) [
      | inl m ↦ absurd (ground arith)
      | inr (kid, e) ↦ elim (Bool-cases settings.has_jwks_url) [
        | inr m ↦ absurd (ground arith)
        | inl u ↦
            let got : get_signing_key lib fetch settings now kid client ≡ (ok key, client') =
              ground arith in
            let (ks, k, fresh, f, g) = get_signing_key-IsFresh kid key client client' got in
            inr (kid, ks, k, n, e, fresh, f, g)
      ]
    ]
  ]

  -- The token was accepted under a key that its header calls for.
  unfoldable pub IsVerified : String → Claims → JwksClient → Type 0
  unfolding IsKeyFor
  IsVerified token claims client =
      (header : Header) × (alg : String) × (key : String) × (lib.get_unverified_header token
        ≡ ok header)
      × (given header.alg ≡ some alg)
      × IsKeyFor alg header key client
      × (lib.decode token key alg settings.audience ≡ ok claims)

  decode-IsVerified :
      (token : String) (claims : Claims) (client client' : JwksClient)
      → decode lib fetch settings now token client ≡ (ok claims, client')
      → IsVerified token claims client'
  unfolding decode IsVerified
  decode-IsVerified token claims client client' h = elim (Bool-cases settings.enabled) [
    | inr n ↦ absurd (ground arith)
    | inl y ↦ elim (Option-cases (given (some token))) [
      | inl n ↦ absurd (ground arith)
      | inr (t, e) ↦ elim (Result-cases (lib.get_unverified_header t)) [
        | inr (m, f) ↦ absurd (ground arith)
        | inl (header, f) ↦ elim (Option-cases (given header.alg)) [
          | inl n ↦ absurd (ground arith)
          | inr (alg, g) ↦
              let got = key_for lib fetch settings now alg header client in
              elim (Result-cases got.0) [
                | inr (m, k) ↦ absurd (ground arith)
                | inl (key, k) ↦ elim (Result-cases (lib.decode t key alg settings.audience)) [
                  | inr (m, d) ↦ absurd (ground arith)
                  | inl (c, d) ↦
                      let same : some token ≡ some t = given_sound (some token) t e in
                      let token_is : t ≡ token = ground arith in
                      let claims_are : c ≡ claims = ground arith in
                      let left : got.1 ≡ client' = ground arith in
                      let whole : got ≡ (ok key, client') = pair_path got (ok key) client' k left in
                      subst (λ x. IsVerified x claims client') token_is
                        (
                          header,
                          alg,
                          key,
                          f,
                          g,
                          key_for-IsKeyFor alg header key client client' whole,
                          d ∙ ap ok claims_are,
                        )
                ]
              ]
        ]
      ]
    ]
  ]

  -- A request that is let through goes on without a user only if the check of tokens is off or the path
  -- is anonymous. Else it has a bearer token, which PyJWT accepts for the audience with the algorithm in
  -- the token's header, under the secret for tests if this is an HS algorithm, and otherwise under the
  -- key of the header's id among keys that are not older than allowed; and the user has the token's
  -- subject, which is not empty, and the role of its claims.
  pub dispatch-IsVerified :
      (path : String) (authorization : Option String) (client client' : JwksClient)
      (user : Option AuthenticatedUser)
      → dispatch lib fetch settings now path authorization client ≡ (passed user, client')
      → ((user ≡ none) × ((not settings.enabled || is_anonymous_path path) ≡ true))
        ⊎ ((u : AuthenticatedUser) × (a : String) × (claims : Claims) × (user ≡ some u)
            × (given authorization ≡ some a)
            × (starts_with a "Bearer " ≡ true)
            × IsVerified (strip (slice a 7 (len a))) claims client'
            × (given claims.sub ≡ some u.sub)
            × (u.role ≡ role_of claims))
  unfolding dispatch authenticate
  dispatch-IsVerified path authorization client client' user h =
      elim (Bool-cases (not settings.enabled || is_anonymous_path path)) [
        | inl y ↦ inl (ground arith, y)
        | inr n ↦ elim (Option-cases (given authorization)) [
          | inl m ↦ absurd (ground arith)
          | inr (a, e) ↦ elim (Bool-cases (starts_with a "Bearer ")) [
            | inr m ↦ absurd (ground arith)
            | inl y ↦
                let token = strip (slice a 7 (len a)) in
                let got = decode lib fetch settings now token client in
                elim (Result-cases got.0) [
                  | inr (value_error m, f) ↦ absurd (ground arith)
                  | inr (other_error m, f) ↦ absurd (ground arith)
                  | inl (claims, f) ↦ elim (Option-cases (given claims.sub)) [
                    | inl m ↦ absurd (ground arith)
                    | inr (sub, g) ↦
                        let u : AuthenticatedUser = record {
                          sub = sub;
                          email = or_text claims.email claims.preferred_username;
                          role = role_of claims;
                        } in
                        let user_is : user ≡ some u = ground arith in
                        let left : got.1 ≡ client' = ground arith in
                        let whole : got ≡ (ok claims, client') =
                          pair_path got (ok claims) client' f left in
                        inr (
                          u,
                          a,
                          claims,
                          user_is,
                          e,
                          y,
                          decode-IsVerified token claims client client' whole,
                          g,
                          refl,
                        )
                  ]
                ]
          ]
        ]
      ]
