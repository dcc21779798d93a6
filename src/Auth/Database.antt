-- ===== src/Auth/Database.antt =====
-- rustica/src/auth/database.rs and rustica/src/auth/database/models.rs: the authorizer over a local
-- SQLite database. A table is the list of its rows; that a query fails, on which the source panics,
-- is left out. The primary key of `registered_keys` is its fingerprint
-- (rustica/src/auth/database/schema.rs).
pub mod Grants
pub mod X509
pub mod Registry
use rustica.Common.{ℕ, ◌+◌, ◌*◌, Bool, true, false, ◌&&◌, Option, none, some, List, [], ◌∷◌, ◌++◌}
use rustica.Common.{map, select, first, if◌then◌else◌}
use rustica.Common.Text.{Text, text, eq, commas}
use rustica.Common.Words.{ℤ, pos, u64_max, add64, as_u64}
use rustica.Common.Decimal.{print_u64}
use rustica.Common.Maps.{Map, collect}
use rustica.Common.Run.{Run, ok, err, panic, ◌>>=◌, ok_or, unwrap}
use rustica.Errors.{AuthorizationError, cert_type, not_authorized, authorizer_error, database_error}
use rustica.Keys.{
  Bytes, KeyAttestation, piv, u2f, PivAttestation, U2fAttestation, TouchPolicy, is_never,
  show_touch, show_pin,
}
use rustica.Foreign.{CertType, user, host}
use rustica.Auth.{
  SshAuthorization, SshAuthorizationRequestProperties, X509Authorization,
  X509AuthorizationRequestProperties, RegisterKeyRequestProperties, AllowedSigner, Authorizer,
}

pub record FingerprintPrincipalAuthorization : Type 0 where
  pub fingerprint : Text
  pub principal : Text
  pub authority : Text

pub record FingerprintHostAuthorization : Type 0 where
  pub fingerprint : Text
  pub hostname : Text
  pub authority : Text

pub record FingerprintExtension : Type 0 where
  pub fingerprint : Text
  pub extension_name : Text
  pub extension_value : Option Text
  pub authority : Text

pub record FingerprintPermission : Type 0 where
  pub fingerprint : Text
  pub host_unrestricted : Bool
  pub principal_unrestricted : Bool
  pub can_create_host_certs : Bool
  pub can_create_user_certs : Bool
  pub max_creation_time : ℤ
  pub authority : Text

pub record RegisteredKey : Type 0 where
  pub fingerprint : Text
  pub pubkey : Text
  pub owner : Text
  pub pin_policy : Option Text
  pub touch_policy : Option Text
  pub hsm_serial : Option Text
  pub firmware : Option Text
  pub attestation_certificate : Option Text
  pub attestation_intermediate : Option Text
  pub auth_data : Option Text
  pub auth_data_signature : Option Text
  pub aaguid : Option Text
  pub challenge : Option Text
  pub alg : Option ℤ
  pub application : Option Text

-- a row of `x509_authorizations`
pub record X509Grant : Type 0 where
  pub owner : Text
  pub hsm_serial : Text
  pub require_touch : Bool
  pub authority : Text

pub record Database : Type 0 where
  pub principals : List FingerprintPrincipalAuthorization
  pub hosts : List FingerprintHostAuthorization
  pub extensions : List FingerprintExtension
  pub permissions : List FingerprintPermission
  pub registered_keys : List RegisteredKey
  pub x509_authorizations : List X509Grant

-- filter(fingerprint.eq(fp).and(authority.eq(&req.authority)))
abbrev pub for_key : SshAuthorizationRequestProperties → Text → Text → Bool
for_key req fingerprint authority = eq fingerprint req.fingerprint && eq authority req.authority

abbrev value_or_empty : Option Text → Text
value_or_empty none = []
value_or_empty (some v) = v

abbrev pub permission_rows :
    SshAuthorizationRequestProperties → Database → List FingerprintPermission
permission_rows req db = select (λ r. for_key req r.fingerprint r.authority) db.permissions

abbrev pub principal_rows :
    SshAuthorizationRequestProperties → Database → List FingerprintPrincipalAuthorization
principal_rows req db = select (λ r. for_key req r.fingerprint r.authority) db.principals

abbrev host_rows : SshAuthorizationRequestProperties → Database → List FingerprintHostAuthorization
host_rows req db = select (λ r. for_key req r.fingerprint r.authority) db.hosts

abbrev extension_rows : SshAuthorizationRequestProperties → Database → List FingerprintExtension
extension_rows req db = select (λ r. for_key req r.fingerprint r.authority) db.extensions

-- the `match` on `req.cert_type`
abbrev pub may_create : CertType → FingerprintPermission → Bool
may_create user p = p.can_create_user_certs
may_create host p = p.can_create_host_certs

-- A clock before 1970 reads as a time to which the source adds without overflow.
abbrev secs_or_late : Option ℕ → ℕ
secs_or_late none = 0xEFFFFFFFFFFFFFFF
secs_or_late (some t) = t

unfoldable pub authorize_ssh_cert :
    Option ℕ
    → SshAuthorizationRequestProperties
    → Database
    → Run AuthorizationError SshAuthorization
authorize_ssh_cert now req db = do
  row ← ok_or AuthorizationError.not_authorized (first (permission_rows req db))
  if may_create req.cert_type row
      then ok (record {
        serial = 0;
        valid_before = add64 (secs_or_late now) (as_u64 row.max_creation_time);
        valid_after = req.valid_after;
        principals =
            if row.principal_unrestricted
            then req.principals
            else map (λ r. r.principal) (principal_rows req db);
        hosts =
            if row.host_unrestricted then none else some (map (λ r. r.hostname) (host_rows req db));
        extensions =
            collect
              (map (λ r. (r.extension_name, value_or_empty r.extension_value))
                (extension_rows req db))
              [];
        force_command = none;
        force_source_ip = false;
        authority = req.authority;
      })
      else err cert_type

-- hex: `hex::encode`
-- SQLite takes no second row with the primary key of the table, which is the fingerprint.
unfoldable pub insert_row : RegisteredKey → List RegisteredKey → Option (List RegisteredKey)
insert_row row rows = elim (first (select (λ r. eq r.fingerprint row.fingerprint) rows)) [
  | some _ ↦ none
  | none ↦ some (rows ++ row ∷ [])
]

module _ (hex : Bytes → Text) where
  abbrev blank : RegisterKeyRequestProperties → RegisteredKey
  blank req = record {
    fingerprint = req.fingerprint;
    pubkey = req.pubkey;
    owner = commas req.mtls_identities;
    pin_policy = none;
    touch_policy = none;
    hsm_serial = none;
    firmware = none;
    attestation_certificate = none;
    attestation_intermediate = none;
    auth_data = none;
    auth_data_signature = none;
    aaguid = none;
    challenge = none;
    alg = none;
    application = none;
  }

  -- the `match` on `req.attestation`
  attested : RegisteredKey → Option KeyAttestation → RegisteredKey
  attested row none = row
  attested row (some (piv a)) = record row {
    firmware = some a.firmware;
    hsm_serial = some (print_u64 a.serial);
    touch_policy = some (show_touch a.touch_policy);
    pin_policy = some (show_pin a.pin_policy);
    attestation_certificate = some (hex a.certificate);
    attestation_intermediate = some (hex a.intermediate);
  }
  attested row (some (u2f a)) = record row {
    firmware = some a.firmware;
    attestation_intermediate = some (hex a.intermediate);
    auth_data = some (hex a.auth_data);
    auth_data_signature = some (hex a.auth_data_signature);
    aaguid = some (hex a.aaguid);
    challenge = some (hex a.challenge);
    alg = some a.alg;
    application = some (hex a.application);
  }

  unfoldable pub registered_key : RegisterKeyRequestProperties → RegisteredKey
  unfolding attested
  registered_key req = attested (blank req) req.attestation

  -- refusal: what diesel says of a row that the table does not take
  unfoldable pub register_key :
      Text → RegisterKeyRequestProperties → Database → Run AuthorizationError (Unit {0}) × Database
  register_key refusal req db = elim (insert_row (registered_key req) db.registered_keys) [
    | none ↦ (err (database_error refusal), db)
    | some rows ↦ (ok tt, record db { registered_keys = rows })
  ]

-- Only a PIV attestation will do.
abbrev pub piv_of : Option KeyAttestation → Run AuthorizationError PivAttestation
piv_of none = err authorizer_error
piv_of (some (u2f _)) = err authorizer_error
piv_of (some (piv a)) = ok a

abbrev pub grant_rows : Text → Text → Text → Database → List X509Grant
grant_rows owner authority serial db =
    select (λ r. eq r.owner owner && (eq r.authority authority && eq r.hsm_serial serial))
      db.x509_authorizations

unfoldable pub authorize_attested_x509_cert :
    Option ℕ
    → X509AuthorizationRequestProperties
    → Database
    → Run AuthorizationError X509Authorization
authorize_attested_x509_cert now req db = do
  att ← piv_of req.key.attestation
  mtls_user ← ok_or authorizer_error (first req.mtls_identities)
  grant ←
      ok_or AuthorizationError.not_authorized
        (first (grant_rows mtls_user req.authority (print_u64 att.serial) db))
  if grant.require_touch && is_never att.touch_policy
      then err AuthorizationError.not_authorized
      else (do
        current_time ← unwrap now
        ok (record {
          authority = req.authority;
          issuer = text "Rustica";
          common_name = mtls_user;
          sans = mtls_user ∷ [];
          extensions = [];
          serial = pos 0xFEFEFEFEFE;
          valid_before = add64 current_time (3600 * 12);
          valid_after = current_time;
        }))

unfoldable pub get_allowed_signers : Database → Run AuthorizationError (List AllowedSigner)
get_allowed_signers db =
    ok (map (λ r. record { identity = r.owner; pubkey = r.pubkey }) db.registered_keys)

-- The database behind the methods that a handler calls, at one reading of the clock.
abbrev pub local : (Bytes → Text) → Text → Option ℕ → Authorizer Database
local hex refusal now = record {
  authorize_ssh_cert = authorize_ssh_cert now;
  authorize_attested_x509_cert = authorize_attested_x509_cert now;
  register_key = register_key hex refusal;
  get_allowed_signers = get_allowed_signers;
}
