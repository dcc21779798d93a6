-- ===== src/Tests/Databases.antt =====
-- The tables of the local database.

use rustica.Common.{◌≡◌, ◌↔◌, refl, false, none, some, [], ◌∷◌, arith}
use rustica.Common.{All}
use rustica.Common.Lists.{select}
use rustica.Common.Text.{Text, text, eq, join}
use rustica.Common.Words.{pos}
use rustica.Common.Decimal.{print_u64}
use rustica.Common.Maps.{collect, insert}
use rustica.Common.Run.{ok, err}
use rustica.Errors.{not_authorized}
use rustica.Foreign.{user}
use rustica.Keys.{Key, TouchPolicy, once, piv}
use rustica.Auth.{
  SshAuthorization, SshAuthorizationRequestProperties, X509Authorization,
  X509AuthorizationRequestProperties, RegisterKeyRequestProperties,
}
use rustica.Auth.Database.{
  Database, authorize_ssh_cert, authorize_attested_x509_cert, register_key, registered_key, for_key,
}
use rustica.Auth.Database.Grants.{not_authorized_iff}
use rustica.Auth.Database.X509.{X509Granted, authorize_attested_x509_cert-X509Granted}
use rustica.Auth.Database.{insert_row, get_allowed_signers}
use rustica.Auth.Database.Registry.{Registered, register_key-Registered}
use rustica.Tests.Server.{db}

run : Unit {0}
unfolding eq join print_u64 collect insert select authorize_ssh_cert authorize_attested_x509_cert
    registered_key register_key insert_row get_allowed_signers
run = tt

abbrev asked : Text → SshAuthorizationRequestProperties
asked fingerprint = record {
  fingerprint = fingerprint;
  mtls_identities = text "ann" ∷ [];
  requester_ip = text "10.0.0.1";
  principals = text "admin" ∷ [];
  servers = [];
  valid_before = 5000;
  valid_after = 3;
  cert_type = user;
  authority = text "main";
}

-- Ten seconds, as the row says, whatever the request asks for; the principals are those of the rows.
abbrev granted : SshAuthorization
granted = record {
  serial = 0;
  valid_before = 1010;
  valid_after = 3;
  principals = text "root" ∷ [];
  hosts = some [];
  extensions = [];
  force_command = none;
  force_source_ip = false;
  authority = text "main";
}

not_authorized_iff_example :
    (authorize_ssh_cert (some 1000) (asked (text "other")) db ≡ err not_authorized)
    ↔ All (λ r. for_key (asked (text "other")) r.fingerprint r.authority ≡ false) db.permissions
not_authorized_iff_example = not_authorized_iff (some 1000) (asked (text "other")) db

abbrev held : Key
held = record {
  fingerprint = text "key";
  attestation = some (
      piv (record {
        pin_policy = once;
        touch_policy = TouchPolicy.always;
        serial = 7;
        firmware = text "5.4";
        certificate = text "c";
        intermediate = text "i";
      }));
}

abbrev x509_asked : X509AuthorizationRequestProperties
x509_asked = record {
  authority = text "main";
  mtls_identities = text "ann" ∷ [];
  requester_ip = text "10.0.0.1";
  attestation = text "c";
  attestation_intermediate = text "i";
  key = held;
}

abbrev x509_granted : X509Authorization
x509_granted = record {
  authority = text "main";
  issuer = text "Rustica";
  common_name = text "ann";
  sans = text "ann" ∷ [];
  extensions = [];
  serial = pos 0xFEFEFEFEFE;
  valid_before = 44200;
  valid_after = 1000;
}

x509_test : authorize_attested_x509_cert (some 1000) x509_asked db ≡ ok x509_granted
unfolding run
x509_test = refl

authorize_attested_x509_cert-X509Granted_example : X509Granted 1000 x509_asked db x509_granted
authorize_attested_x509_cert-X509Granted_example =
    authorize_attested_x509_cert-X509Granted 1000 x509_asked db x509_granted (omega arith) x509_test

abbrev claimed : Text → RegisterKeyRequestProperties
claimed fingerprint = record {
  fingerprint = fingerprint;
  pubkey = text "ssh";
  mtls_identities = text "ann" ∷ [];
  requester_ip = text "10.0.0.1";
  attestation = none;
}

abbrev hex : Text → Text
hex b = b

-- The database with the key "a" registered.
abbrev one : Database
one = record db { registered_keys = registered_key hex (claimed (text "a")) ∷ [] }

listed_test :
    get_allowed_signers one ≡ ok (record { identity = text "ann"; pubkey = text "ssh" } ∷ [])
unfolding run
listed_test = refl

register_test : (register_key hex [] (claimed (text "b")) one).0 ≡ ok tt
unfolding run
register_test = refl

register_key-Registered_example :
    Registered hex
      (claimed (text "b"))
      one
      (record { identity = text "ann"; pubkey = text "ssh" } ∷ [])
      (register_key hex [] (claimed (text "b")) one).1
register_key-Registered_example =
    register_key-Registered hex [] (claimed (text "b")) one
      (record { identity = text "ann"; pubkey = text "ssh" } ∷ []) listed_test register_test
