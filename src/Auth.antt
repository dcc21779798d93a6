-- ===== src/Auth.antt =====
-- rustica/src/auth/mod.rs: what the handlers ask of an authorizer, and what it answers.
pub mod Database
pub mod External
pub mod Mechanism
use Prim.Native.Nat.{ℕ}
use rustica.Common.{Bool, Option, List}
use rustica.Common.Text.{Text}
use rustica.Common.Words.{ℤ}
use rustica.Common.Maps.{Map}
use rustica.Common.Run.{Run}
use rustica.Keys.{Bytes, Key, KeyAttestation}
use rustica.Errors.{AuthorizationError}
use rustica.Foreign.{CertType, CustomExtension}

pub record SshAuthorization : Type 0 where
  pub serial : ℕ
  pub valid_before : ℕ
  pub valid_after : ℕ
  pub principals : List Text
  pub hosts : Option (List Text)
  pub extensions : Map Text
  pub force_command : Option Text
  pub force_source_ip : Bool
  pub authority : Text

pub record SshAuthorizationRequestProperties : Type 0 where
  pub fingerprint : Text
  pub mtls_identities : List Text
  pub requester_ip : Text
  pub principals : List Text
  pub servers : List Text
  pub valid_before : ℕ
  pub valid_after : ℕ
  pub cert_type : CertType
  pub authority : Text

pub record X509AuthorizationRequestProperties : Type 0 where
  pub authority : Text
  pub mtls_identities : List Text
  pub requester_ip : Text
  pub attestation : Bytes
  pub attestation_intermediate : Bytes
  pub key : Key

pub record X509Authorization : Type 0 where
  pub authority : Text
  pub issuer : Text
  pub common_name : Text
  pub sans : List Text
  pub serial : ℤ
  pub valid_before : ℕ
  pub valid_after : ℕ
  pub extensions : List CustomExtension

pub record RegisterKeyRequestProperties : Type 0 where
  pub fingerprint : Text
  pub pubkey : Text
  pub mtls_identities : List Text
  pub requester_ip : Text
  pub attestation : Option KeyAttestation

pub record AllowedSigner : Type 0 where
  pub identity : Text
  pub pubkey : Text

-- The methods of `AuthorizationMechanism`, over a state `S` of the backend.
pub record Authorizer (S : Type 0) : Type 0 where
  pub authorize_ssh_cert :
      SshAuthorizationRequestProperties → S → Run AuthorizationError SshAuthorization
  pub authorize_attested_x509_cert :
      X509AuthorizationRequestProperties → S → Run AuthorizationError X509Authorization
  pub register_key : RegisterKeyRequestProperties → S → Run AuthorizationError (Unit {0}) × S
  pub get_allowed_signers : S → Run AuthorizationError (List AllowedSigner)
