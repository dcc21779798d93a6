-- ===== src/Auth/External/X509.antt =====
-- rustica/src/auth/external.rs: X509 authorizations by the author service.
use rustica.Common.{ℕ, ◌*◌, Option, none, some, List, [], ◌∷◌, first}
use rustica.Common.Text.{Text, text, commas}
use rustica.Common.Words.{ℤ, pos, add64}
use rustica.Common.Decimal.{parse_u64, parse_i64}
use rustica.Common.Maps.{Map, lookup, collect}
use rustica.Common.Run.{Run, ok, err, ◌>>=◌, ok_or, unwrap}
use rustica.Errors.{AuthorizationError, authorizer_error, connection_failure}
use rustica.Keys.{Bytes}
use rustica.Foreign.{CustomExtension}
use rustica.Auth.{X509Authorization, X509AuthorizationRequestProperties}
use rustica.Auth.External.{Reply, answered, no_channel, no_connection, refused, failed, AuthServer}

unfoldable pub x509_request : X509AuthorizationRequestProperties → Map Text
x509_request req =
    collect ((text "type", text "rustica_mtls") ∷ (text "authority", req.authority) ∷ []) []

-- hex: `hex::encode`
unfoldable pub x509_identities : (Bytes → Text) → X509AuthorizationRequestProperties → Map Text
x509_identities hex req =
    collect
      ((text "mtls_identities", commas req.mtls_identities)
        ∷ (text "requester_ip", req.requester_ip)
        ∷ (text "leaf", hex req.attestation)
        ∷ (text "intermediate", hex req.attestation_intermediate)
        ∷ [])
      []

-- oid_extension: an entry whose key is an OID, as `x509_parser` and `asn1` read and write it
abbrev x509_extensions : (Text → Text → Option CustomExtension) → Map Text → List CustomExtension
x509_extensions oid_extension [] = []
x509_extensions oid_extension ((key, value) ∷ rest) = elim (oid_extension key value) [
  | none ↦ x509_extensions oid_extension rest
  | some extension ↦ extension ∷ x509_extensions oid_extension rest
]

abbrev pub both : Option ℕ → Option ℕ → Run AuthorizationError (ℕ × ℕ)
both (some valid_before) (some valid_after) = ok (valid_before, valid_after)
both (some _) none = err authorizer_error
both none _ = err authorizer_error

-- Both ends of the validity are given and are numbers, or neither is given.
unfoldable pub validity : Option ℕ → Option Text → Option Text → Run AuthorizationError (ℕ × ℕ)
validity now (some valid_before) (some valid_after) =
    both (parse_u64 valid_before) (parse_u64 valid_after)
validity now none none =
    unwrap now >>= λ current_time. ok (add64 current_time (3600 * 12), current_time)
validity now (some _) none = err authorizer_error
validity now none (some _) = err authorizer_error

abbrev pub serial_of : Option Text → Run AuthorizationError ℤ
serial_of none = ok (pos 0xFEFEFEFEFE)
serial_of (some t) = ok_or authorizer_error (parse_i64 t)

abbrev issuer_of : Option Text → Text
issuer_of none = text "Rustica"
issuer_of (some issuer) = issuer

unfoldable pub x509_approved :
    (Text → Text → Option CustomExtension)
    → Option ℕ
    → List Text
    → Map Text
    → Run AuthorizationError X509Authorization
x509_approved oid_extension now mtls_identities response = do
  mtls_user ← ok_or authorizer_error (first mtls_identities)
  ends ← validity now (lookup (text "valid_before") response) (lookup (text "valid_after") response)
  serial ← serial_of (lookup (text "serial") response)
  authority ← ok_or authorizer_error (lookup (text "authority") response)
  ok (record {
    authority = authority;
    issuer = issuer_of (lookup (text "issuer") response);
    common_name = mtls_user;
    sans = mtls_user ∷ [];
    extensions = x509_extensions oid_extension response;
    serial = serial;
    valid_before = ends.0;
    valid_after = ends.1;
  })

unfoldable pub x509_approval :
    (Text → Text → Option CustomExtension)
    → Option ℕ
    → List Text
    → Reply (Map Text)
    → Run AuthorizationError X509Authorization
x509_approval oid_extension now mtls_identities (answered response) =
    x509_approved oid_extension now mtls_identities response
x509_approval oid_extension now mtls_identities no_channel = err connection_failure
x509_approval oid_extension now mtls_identities no_connection = err connection_failure
x509_approval oid_extension now mtls_identities (refused m) = err authorizer_error
x509_approval oid_extension now mtls_identities (failed m) = err authorizer_error

unfoldable pub authorize_attested_x509_cert :
    (Bytes → Text)
    → (Text → Text → Option CustomExtension)
    → AuthServer
    → Option ℕ
    → X509AuthorizationRequestProperties
    → Run AuthorizationError X509Authorization
authorize_attested_x509_cert hex oid_extension author now req =
    x509_approval oid_extension now req.mtls_identities
      (author.authorize (x509_identities hex req) (x509_request req))
