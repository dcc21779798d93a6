-- ===== src/Auth/External.antt =====
-- rustica/src/auth/external.rs: the authorizer that asks the author service (proto/author.proto). The
-- service and the connection to it are a parameter.
pub mod Approvals
pub mod X509
pub mod Ends
use rustica.Common.{ℕ, Bool, Option, none, some, List, [], ◌∷◌, map}
use rustica.Common.Text.{Text, text, commas}
use rustica.Common.Words.{ℤ}
use rustica.Common.Decimal.{print_u64, parse_u64}
use rustica.Common.Maps.{Map, lookup, collect, contains_key}
use rustica.Common.Split.{split_commas, strip_prefix}
use rustica.Common.Run.{Run, ok, err, panic, ◌>>=◌, ok_or, unwrap}
use rustica.Errors.{
  AuthorizationError, not_authorized, authorizer_error, connection_failure, external_error,
}
use rustica.Keys.{KeyAttestation, piv, u2f, Bytes}
use rustica.Foreign.{CertType}
use rustica.Auth.{
  SshAuthorization, SshAuthorizationRequestProperties, RegisterKeyRequestProperties, AllowedSigner,
}

-- How a call of the service ends: an answer, no channel for the address, no connection, or a status,
-- which is `PERMISSION_DENIED` or another one with its text.
pub data Reply (A : Type 0) : Type 0 where
  answered : A → Reply A
  no_channel no_connection : Reply A
  refused failed : Text → Reply A

pub record AuthServer : Type 0 where
  pub authorize : Map Text → Map Text → Reply (Map Text)
  pub add_identity_data : Map Text → Map Text → Reply (Unit {0})
  pub get_allowed_signers : Reply (List AllowedSigner)

unfoldable pub ssh_identities : SshAuthorizationRequestProperties → Map Text
ssh_identities req =
    collect
      ((text "requester_ip", req.requester_ip)
        ∷ (text "key_fingerprint", req.fingerprint)
        ∷ (text "mtls_identities", commas req.mtls_identities)
        ∷ [])
      []

unfoldable pub ssh_request : (CertType → Text) → SshAuthorizationRequestProperties → Map Text
ssh_request show_cert_type req =
    collect
      ((text "type", text "ssh")
        ∷ (text "principals", commas req.principals)
        ∷ (text "servers", commas req.servers)
        ∷ (text "valid_before", print_u64 req.valid_before)
        ∷ (text "valid_after", print_u64 req.valid_after)
        ∷ (text "cert_type", show_cert_type req.cert_type)
        ∷ (text "authority", req.authority)
        ∷ [])
      []

-- approval_response[key]
abbrev pub index : Text → Map Text → Run AuthorizationError Text
index key approval = unwrap (lookup key approval)

abbrev pub number : Text → Map Text → Run AuthorizationError ℕ
number key approval = index key approval >>= λ t. ok_or authorizer_error (parse_u64 t)

-- The entries whose keys start with "extension.", without this prefix.
abbrev extension_entries : Map Text → Map Text
extension_entries [] = []
extension_entries ((key, value) ∷ rest) = elim (strip_prefix (text "extension.") key) [
  | none ↦ extension_entries rest
  | some name ↦ (name, value) ∷ extension_entries rest
]

unfoldable pub extensions_of : Map Text → Map Text
extensions_of approval = collect (extension_entries approval) []

unfoldable pub hosts_of : Map Text → Option (List Text)
hosts_of approval = elim (lookup (text "authorized_fingerprints") approval) [
  | none ↦ none
  | some names ↦ some (split_commas names)
]

unfoldable pub approved : Map Text → Run AuthorizationError SshAuthorization
approved approval = do
  serial ← number (text "serial") approval
  valid_before ← number (text "valid_before") approval
  valid_after ← number (text "valid_after") approval
  principals ← index (text "principals") approval
  authority ← index (text "authority") approval
  ok (record {
    serial = serial;
    valid_before = valid_before;
    valid_after = valid_after;
    principals = split_commas principals;
    hosts = hosts_of approval;
    extensions = extensions_of approval;
    force_command = lookup (text "force_command") approval;
    force_source_ip = contains_key (text "force_source_ip") approval;
    authority = authority;
  })

unfoldable pub ssh_approval : Reply (Map Text) → Run AuthorizationError SshAuthorization
ssh_approval (answered approval) = approved approval
ssh_approval no_channel = err authorizer_error
ssh_approval no_connection = err connection_failure
ssh_approval (refused m) = err AuthorizationError.not_authorized
ssh_approval (failed m) = err authorizer_error

unfoldable pub authorize_ssh_cert :
    AuthServer
    → (CertType → Text)
    → SshAuthorizationRequestProperties
    → Run AuthorizationError SshAuthorization
authorize_ssh_cert author show_cert_type req =
    ssh_approval (author.authorize (ssh_identities req) (ssh_request show_cert_type req))

unfoldable pub key_identities : RegisterKeyRequestProperties → Map Text
key_identities req =
    collect
      ((text "requester_ip", req.requester_ip)
        ∷ (text "key_fingerprint", req.fingerprint)
        ∷ (text "mtls_identities", commas req.mtls_identities)
        ∷ [])
      []

-- hex: `hex::encode`; show_alg: the decimal text of an i32
unfoldable pub identity_data : (Bytes → Text) → (ℤ → Text) → Option KeyAttestation → Map Text
identity_data hex show_alg none = collect ((text "type", text "ssh_key") ∷ []) []
identity_data hex show_alg (some (piv a)) =
    collect
      ((text "type", text "ssh_key")
        ∷ (text "certificate", hex a.certificate)
        ∷ (text "intermediate_certificate", hex a.intermediate)
        ∷ [])
      []
identity_data hex show_alg (some (u2f a)) =
    collect
      ((text "type", text "u2f_ssh_key")
        ∷ (text "auth_data", hex a.auth_data)
        ∷ (text "auth_data_signature", hex a.auth_data_signature)
        ∷ (text "intermediate_certificate", hex a.intermediate)
        ∷ (text "challenge", hex a.challenge)
        ∷ (text "application", hex a.application)
        ∷ (text "alg", show_alg a.alg)
        ∷ (text "aaguid", a.aaguid)
        ∷ [])
      []

-- shown: the text of a status
unfoldable pub key_registration : Reply (Unit {0}) → Run AuthorizationError (Unit {0})
key_registration (answered _) = ok tt
key_registration no_channel = err connection_failure
key_registration no_connection = err connection_failure
key_registration (refused m) = err (external_error m)
key_registration (failed m) = err (external_error m)

unfoldable pub register_key :
    (Bytes → Text)
    → (ℤ → Text)
    → AuthServer
    → RegisterKeyRequestProperties
    → Run AuthorizationError (Unit {0})
register_key hex show_alg author req =
    key_registration
      (author.add_identity_data (key_identities req) (identity_data hex show_alg req.attestation))

unfoldable pub get_allowed_signers : AuthServer → Run AuthorizationError (List AllowedSigner)
get_allowed_signers author = elim author.get_allowed_signers [
  | answered signers ↦ ok signers
  | no_channel ↦ err connection_failure
  | no_connection ↦ err connection_failure
  | refused m ↦ err authorizer_error
  | failed m ↦ err authorizer_error
]
