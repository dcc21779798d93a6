-- ===== src/Errors.antt =====
-- rustica/src/error.rs, and the errors of the authorizers (rustica/src/auth/mod.rs).
use Prim.Native.Nat.{ℕ}
use rustica.Common.{◌++◌}
use rustica.Common.Text.{Text, text}

pub data RusticaServerError : Type 0 where
  success time_expired bad_challenge invalid_key unsupported_key_type : RusticaServerError
  bad_cert_options not_authorized bad_request piv_client_cert_too_big : RusticaServerError
  piv_intermediate_cert_too_big u2f_attestation_too_big : RusticaServerError
  u2f_intermediate_cert_too_big unknown : RusticaServerError

-- `e as i64`
unfoldable pub code : RusticaServerError → ℕ
code success = 0
code time_expired = 1
code bad_challenge = 2
code invalid_key = 3
code unsupported_key_type = 4
code bad_cert_options = 5
code not_authorized = 6
code bad_request = 7
code piv_client_cert_too_big = 8
code piv_intermediate_cert_too_big = 9
code u2f_attestation_too_big = 10
code u2f_intermediate_cert_too_big = 11
code unknown = 9001

-- `{:?}`
unfoldable pub debug : RusticaServerError → Text
debug success = text "Success"
debug time_expired = text "TimeExpired"
debug bad_challenge = text "BadChallenge"
debug invalid_key = text "InvalidKey"
debug unsupported_key_type = text "UnsupportedKeyType"
debug bad_cert_options = text "BadCertOptions"
debug not_authorized = text "NotAuthorized"
debug bad_request = text "BadRequest"
debug piv_client_cert_too_big = text "PivClientCertTooBig"
debug piv_intermediate_cert_too_big = text "PivIntermediateCertTooBig"
debug u2f_attestation_too_big = text "U2fAttestationTooBig"
debug u2f_intermediate_cert_too_big = text "U2fIntermediateCertTooBig"
debug unknown = text "Unknown"

pub data AuthorizationError : Type 0 where
  cert_type not_authorized authorizer_error connection_failure : AuthorizationError
  database_error external_error : Text → AuthorizationError

-- `Display`
unfoldable pub show : AuthorizationError → Text
show cert_type = text "Not authorized for this certificate type"
show AuthorizationError.not_authorized = text "Not authorized"
show authorizer_error = text "Authorization error"
show connection_failure = text "Could not connect to authorization service"
show (database_error m) = text "Database error: " ++ m
show (external_error m) = m

-- `From<AuthorizationError>`
unfoldable pub of_authorization : AuthorizationError → RusticaServerError
of_authorization cert_type = bad_cert_options
of_authorization AuthorizationError.not_authorized = RusticaServerError.not_authorized
of_authorization _ = unknown
