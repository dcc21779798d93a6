-- ===== src/Server.antt =====
-- rustica/src/server.rs and the messages of proto/rustica.proto: the state of the gRPC server, and
-- what its handlers take and return.
pub mod Peer
pub mod Validate
pub mod Challenges
pub mod Certificates
pub mod Registrations
pub mod Attested
pub mod AllowedSigners
pub mod Configure
use rustica.Common.{ℕ, Bool, Option, List, []}
use rustica.Common.Text.{Text}
use rustica.Common.Words.{ℤ}
use rustica.Common.Maps.{Map}
use rustica.Foreign.{Foreign}
use rustica.Keys.{Bytes}
use rustica.Signing.{SigningMechanism}

-- `tonic::Status`: its code; the messages are part of it where the source gives one
pub data Status : Type 0 where
  permission_denied cancelled invalid_argument unavailable resource_exhausted : Text → Status

-- `Status::permission_denied("")`
abbrev pub denied : Status
denied = permission_denied []

-- `SocketAddr`: its text, and that of its IP address
pub record SocketAddr : Type 0 where
  pub shown : Text
  pub ip : Text

-- What tonic says of the connection that a request came by.
pub record Connection : Type 0 where
  pub remote_addr : Option SocketAddr
  pub peer_certs : Option (List Bytes)

pub record Challenge : Type 0 where
  pub pubkey : Text
  pub challenge : Text
  pub challenge_signature : Text
  pub challenge_time : Text

pub record ClientAuthorityConfiguration : Type 0 where
  pub authority : Text
  pub validity_length : ℕ
  pub expiration_renewal_period : ℕ

pub record MtlsCertificateInfo : Type 0 where
  pub identities : List Text
  pub expiry_timestamp : ℤ

pub record CertificateRefreshSettings : Type 0 where
  pub not_after : ℕ
  pub not_before : ℕ

module _ (f : Foreign) where
  open f use {HmacKey, PrivateKey}

  -- `RusticaServer`, less the authorizer, the log channel and the cells that handlers share
  pub record RusticaServer : Type 0 where
    pub hmac_key : HmacKey
    pub challenge_key : PrivateKey
    pub signer : SigningMechanism f
    pub require_rustica_proof : Bool
    pub require_attestation_chain : Bool
    pub client_authority : ClientAuthorityConfiguration
