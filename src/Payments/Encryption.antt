-- ===== src/Payments/Encryption.antt =====
-- modules/payments/utils/encryption.py: `CredentialsEncryption.encrypt` and `decrypt`.
use vinc_api.Base.{
  ◌≡◌, ◌∙◌, sym, refl, String, string_eq, ◌==◌, ==_ne, ◌≢◌, Option, some, List, [], ◌∷◌, Result, ok,
  ◌>>=◌, or_raise, ap, if◌then◌else◌,
}
use mathlib.Core.Option.{some-injective}
use vinc_api.Payments.Model.{StoredCredentials, sealed, plain}

-- The packages the class calls, with the key of the process: `dumps` and `loads` of `json`, the
-- `encrypt` and `decrypt` of its Fernet instance, and `b64encode` and `b64decode` of `base64`. A
-- function that raises has no value. Bytes and their text are one type.
pub record Codec : Type 0 where
  pub dumps : List (String × String) → String
  pub loads : String → Option (List (String × String))
  pub fernet_encrypt : String → String
  pub fernet_decrypt : String → Option String
  pub b64encode : String → String
  pub b64decode : String → Option String

module _ (c : Codec) where
  unfoldable pub encrypt : List (String × String) → StoredCredentials
  encrypt [] = sealed ""
  encrypt (x ∷ xs) =
      let json_str = c.dumps (x ∷ xs) in
      let encrypted_bytes = c.fernet_encrypt json_str in sealed (c.b64encode encrypted_bytes)

  -- The body of the `try` block, with its `except` clause at each call that can raise.
  unfoldable opened : String → Result String (List (String × String))
  opened encrypted_str = do
    encrypted_bytes ← or_raise "Failed to decrypt credentials" (c.b64decode encrypted_str)
    json_str ← or_raise "Failed to decrypt credentials" (c.fernet_decrypt encrypted_bytes)
    or_raise "Failed to decrypt credentials" (c.loads json_str)

  unfoldable pub decrypt : StoredCredentials → Result String (List (String × String))
  unfolding opened
  decrypt (plain x) = ok x
  decrypt (sealed s) = if s == "" then ok [] else opened s

  -- If JSON reads back the text it makes of the credentials, Fernet opens the token it makes of
  -- that text, which is not empty, and base64 decodes every text it encodes, the empty one as
  -- the empty one, decrypting what was encrypted gives the credentials back.
  pub decrypt-encrypt :
      (x : List (String × String))
      → c.loads (c.dumps x) ≡ some x
      → c.fernet_decrypt (c.fernet_encrypt (c.dumps x)) ≡ some (c.dumps x)
      → c.fernet_encrypt (c.dumps x) ≢ ""
      → ((bytes : String) → c.b64decode (c.b64encode bytes) ≡ some bytes)
      → c.b64decode "" ≡ some ""
      → decrypt (encrypt x) ≡ ok x
  unfolding decrypt encrypt opened string_eq
  decrypt-encrypt [] json fernet filled base64 base64-empty = refl
  decrypt-encrypt (x ∷ xs) json fernet filled base64 base64-empty =
      rw (==_ne (c.b64encode token) "" stays, base64 token, fernet, json) refl
    where
      token : String
      token = c.fernet_encrypt (c.dumps (x ∷ xs))

      stays : c.b64encode token ≢ ""
      stays empty =
          filled (some-injective _ _ (sym (base64 token) ∙ ap c.b64decode empty ∙ base64-empty))
