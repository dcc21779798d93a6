-- ===== src/Auth/Mechanism.antt =====
-- rustica/src/auth/mod.rs: the authorizer that the configuration names, and the dispatch to it. Both
-- backends are compiled in (the feature local-db).
use rustica.Common.{Option, none, some, ◌++◌}
use rustica.Common.Text.{Text, text}
use rustica.Common.Words.{ℤ}
use rustica.Keys.{Bytes}
use rustica.Foreign.{CertType, CustomExtension}
use rustica.Common.{ℕ}
use rustica.Auth.{Authorizer}
use rustica.Auth.Database
use rustica.Auth.Database.{Database}
use rustica.Auth.External
use rustica.Auth.External.{AuthServer}
use rustica.Auth.External.X509

pub record LocalDatabase : Type 0 where
  pub path : Text

-- `AuthServer` as it is configured
pub record AuthServerConfiguration : Type 0 where
  pub server : Text
  pub port : Text
  pub ca : Text
  pub mtls_cert : Text
  pub mtls_key : Text

pub record AuthorizationConfiguration : Type 0 where
  pub database : Option LocalDatabase
  pub external : Option AuthServerConfiguration

pub data AuthorizationMechanism : Type 0 where
  local : LocalDatabase → AuthorizationMechanism
  external : AuthServerConfiguration → AuthorizationMechanism

-- `TryInto<AuthorizationMechanism>`: one backend, and no more than one
unfoldable pub mechanism_of : AuthorizationConfiguration → Option AuthorizationMechanism
mechanism_of c = elim c.database [
  | some database ↦ elim c.external [ none ↦ some (local database) | some _ ↦ none ]
  | none ↦ elim c.external [ none ↦ none | some server ↦ some (external server) ]
]

unfoldable pub info : AuthorizationMechanism → Text
info (local database) = text "Configured authorizer: Local DB at " ++ database.path
info (external server) = text "Configured authorizer: Remote Service at " ++ server.server

-- What the backends take from elsewhere: `hex::encode`, the text of a refused row, the texts of a
-- certificate type and of an algorithm, the making of an extension, and the connection to the service.
pub record Backends : Type 0 where
  pub hex : Bytes → Text
  pub refusal : Text
  pub show_cert_type : CertType → Text
  pub show_alg : ℤ → Text
  pub oid_extension : Text → Text → Option CustomExtension
  pub connect : AuthServerConfiguration → AuthServer

-- A call of the service leaves the local state as it is.
abbrev remote : Backends → AuthServer → Option ℕ → Authorizer Database
remote b author now = record {
  authorize_ssh_cert = λ req db. External.authorize_ssh_cert author b.show_cert_type req;
  authorize_attested_x509_cert =
      λ req db. External.X509.authorize_attested_x509_cert b.hex b.oid_extension author now req;
  register_key = λ req db. (External.register_key b.hex b.show_alg author req, db);
  get_allowed_signers = λ db. External.get_allowed_signers author;
}

-- the methods of `AuthorizationMechanism`, at a reading of the clock
unfoldable pub dispatch : Backends → AuthorizationMechanism → Option ℕ → Authorizer Database
dispatch b (local database) now = Database.local b.hex b.refusal now
dispatch b (external server) now = remote b (b.connect server) now
