-- ===== src/Payments/Webhooks/Credentials.antt =====
-- `get_credential` of modules/payments/providers/base.py.
use vinc_api.Base.{String, string_eq, ◌==◌, Option, none, some, List, [], ◌∷◌, if◌then◌else◌}

unfoldable pub credential : String → List (String × String) → Option String
unfolding string_eq
credential key [] = none
credential key ((k, v) ∷ creds) = if k == key then some v else credential key creds
