-- ===== src/Agent/Clients.antt =====
-- rustica-agent/src/rustica/mod.rs, error.rs, cert.rs and key.rs: the calls of a server. A negative
-- `error_code`, which no server of the repository sends, is left out.
pub mod Accepted
use rustica.Common.{ℕ, ◌+◌, Bool, true, false, Option, none, some, List, [], ◌∷◌, ◌++◌}
use rustica.Common.{◌==◌, if◌then◌else◌, not}
use rustica.Common.Text.{Text, text, eq, is_empty}
use rustica.Common.Words.{ℤ, u64_max, add64}
use rustica.Common.Maps.{Map}
use rustica.Common.Run.{Run, ok, err, panic, ok_or}
use rustica.Keys.{Bytes}
use rustica.Foreign.{Foreign, CertType, user, host}
use rustica.Server.{Status, Challenge}
use rustica.Server.Challenges.{ChallengeResponse}
use rustica.Server.Certificates.{CertificateRequest, CertificateResponse}
use rustica.Server.Registrations.{RegisterKeyRequest, RegisterU2fKeyRequest}
use rustica.Server.Attested.{AttestedX509CertificateRequest, AttestedX509CertificateResponse}
use rustica.Agent.{
  AgentCrates, Yubikey, YubikeySigner, Signatory, yubikey, direct, RusticaServer, Notified, ◌>>=◌,
  ◌>>◌, pure, lift, notify,
}

pub data RefreshError : Type 0 where
  transport_error signing_error server_challenge_not_for_client_key unsupported_mode : RefreshError
  invalid_uri bad_allowed_signers unknown_error : RefreshError
  configuration_error : Text → RefreshError
  transport_bad_status : Status → RefreshError
  rustica_server_error : ℕ → Text → RefreshError

-- What a call comes back with.
pub data Answer (A : Type 0) : Type 0 where
  answered : A → Answer A
  refused : Status → Answer A

-- `RusticaClient`, connected to a server
pub record RusticaClient : Type 0 where
  pub challenge : Text → Answer ChallengeResponse
  pub certificate : CertificateRequest → Answer CertificateResponse
  pub register_key : RegisterKeyRequest → Answer (Unit {0})
  pub register_u2f_key : RegisterU2fKeyRequest → Answer (Unit {0})
  pub attested_x509_certificate :
      AttestedX509CertificateRequest → Answer AttestedX509CertificateResponse
  pub allowed_signers : Answer Bytes

-- tonic: whether an address is a URI, and the connection to a server
pub record Network : Type 0 where
  pub is_uri : Text → Bool
  pub connect : RusticaServer → Option RusticaClient

-- `From<tonic::Status>`, as `?` applies it
abbrev pub inner : {A : Type 0} → Answer A → Run RefreshError A
inner (answered a) = ok a
inner (refused status) = err (transport_bad_status status)

unfoldable pub get_rustica_client : Network → RusticaServer → Run RefreshError RusticaClient
get_rustica_client net server =
    if net.is_uri server.address
    then ok_or transport_error (net.connect server)
    else err invalid_uri

pub record RusticaCert : Type 0 where
  pub cert : Text
  pub comment : Text

pub record MtlsCredentials : Type 0 where
  pub certificate : Text
  pub key : Text

pub record CertificateConfig : Type 0 where
  pub principals : List Text
  pub hosts : List Text
  pub cert_type : CertType
  pub duration : ℕ
  pub authority : Text

-- `options.cert_type as u32`
abbrev pub cert_type_code : CertType → ℕ
cert_type_code user = 1
cert_type_code host = 2

module _ {f : Foreign} (crates : AgentCrates f) where
  open f use {
    PublicKey, Certificate, public_key_to_string, fingerprint, pubkey, certificate_of_string,
    certificate_to_string, certified_key,
  }

  -- The public key of the signatory; a Yubikey is connected to anew.
  unfoldable pub public_key_of : Signatory crates → Run RefreshError PublicKey
  public_key_of (direct privkey) = ok (pubkey privkey)
  public_key_of (yubikey signer) = elim signer.yk.reconnect [
    | none ↦ err signing_error
    | some _ ↦ ok_or signing_error (signer.yk.ssh_cert_fetch_pubkey signer.slot)
  ]

  unfoldable pub resign : Signatory crates → Certificate → Option Certificate
  resign (direct privkey) certificate = crates.sign_certificate privkey certificate
  resign (yubikey signer) certificate =
      elim (signer.yk.ssh_cert_signer (crates.tbs_certificate certificate) signer.slot) [
        | none ↦ none
        | some signature ↦ crates.add_signature signature certificate
      ]

  abbrev pub challenge_of : Text → ChallengeResponse → Text → Challenge
  challenge_of encoded_key response certificate = record {
    pubkey = encoded_key;
    challenge_time = response.time;
    challenge = certificate;
    challenge_signature = [];
  }

  -- The certificate of the challenge, signed by the client.
  unfoldable pub sign_challenge :
      Signatory crates → Bool → PublicKey → Text → Notified RefreshError Text
  sign_challenge signatory notifies ssh_pubkey certificate = do
    parsed ← lift (ok_or signing_error (certificate_of_string certificate))
    let challenge_certificate = crates.with_signature_key (certified_key parsed) parsed
    lift (
        if eq (fingerprint (certified_key challenge_certificate)) (fingerprint ssh_pubkey)
        then ok tt
        else err server_challenge_not_for_client_key)
    notify notifies
    resigned ← lift (ok_or signing_error (resign signatory challenge_certificate))
    pure (certificate_to_string resigned)

  -- notifies: whether a notification function is given
  unfoldable pub complete_rustica_challenge :
      Network
      → RusticaServer
      → Signatory crates
      → Bool
      → Notified RefreshError (RusticaClient × Challenge)
  complete_rustica_challenge net server signatory notifies = do
    ssh_pubkey ← lift (public_key_of signatory)
    let encoded_key = public_key_to_string ssh_pubkey
    client ← lift (get_rustica_client net server)
    response ← lift (inner (client.challenge encoded_key))
    certificate ←
        (if response.no_signature_required
          then pure response.challenge
          else sign_challenge signatory notifies ssh_pubkey response.challenge)
    pure (client, challenge_of encoded_key response certificate)

  abbrev secs_or_max : Option ℕ → ℕ
  secs_or_max none = u64_max
  secs_or_max (some t) = t

  unfoldable pub certificate_request : CertificateConfig → ℕ → Challenge → CertificateRequest
  certificate_request options now challenge = record {
    cert_type = cert_type_code options.cert_type;
    key_id = options.authority;
    critical_options = [];
    extensions = crates.standard_extensions;
    servers = options.hosts;
    principals = options.principals;
    valid_before = add64 now options.duration;
    valid_after = now;
    challenge = some challenge;
  }

  -- New credentials come with a certificate; the key alone does not count.
  unfoldable pub credentials_of : CertificateResponse → Option MtlsCredentials
  credentials_of response =
      if is_empty response.new_client_certificate
      then none
      else some
          (record { certificate = response.new_client_certificate; key = response.new_client_key })

  unfoldable pub refresh_certificate_async :
      Network
      → RusticaServer
      → Signatory crates
      → CertificateConfig
      → Bool
      → Option ℕ
      → Notified RefreshError (RusticaCert × Option MtlsCredentials)
  refresh_certificate_async net server signatory options notifies now = do
    (client, challenge) ← complete_rustica_challenge net server signatory notifies
    response ←
        lift (inner (client.certificate (certificate_request options (secs_or_max now) challenge)))
    lift (
        if response.error_code == 0
        then ok tt
        else err (rustica_server_error response.error_code response.error))
    pure (record { cert = response.certificate; comment = text "JITC" }, credentials_of response)

  pub record PivAttestation : Type 0 where
    pub certificate : Bytes
    pub intermediate : Bytes

  pub record U2fAttestation : Type 0 where
    pub auth_data : Bytes
    pub auth_data_sig : Bytes
    pub intermediate : Bytes
    pub challenge : Bytes
    pub alg : ℤ

  unfoldable pub register_key_async :
      Network → RusticaServer → Signatory crates → PivAttestation → Notified RefreshError (Unit {0})
  register_key_async net server signatory attestation = do
    (client, challenge) ← complete_rustica_challenge net server signatory false
    lift (
        inner (
          client.register_key (record {
            certificate = attestation.certificate;
            intermediate = attestation.intermediate;
            challenge = some challenge;
          })))

  -- application: the bytes of its text
  unfoldable pub register_u2f_key_async :
      Network
      → RusticaServer
      → Signatory crates
      → Text
      → U2fAttestation
      → Notified RefreshError (Unit {0})
  register_u2f_key_async net server signatory application attestation = do
    (client, challenge) ← complete_rustica_challenge net server signatory false
    lift (
        inner (
          client.register_u2f_key (record {
            auth_data = attestation.auth_data;
            auth_data_signature = attestation.auth_data_sig;
            sk_application = application;
            u2f_challenge = attestation.challenge;
            intermediate = attestation.intermediate;
            alg = attestation.alg;
            challenge = some challenge;
            u2f_challenge_hashed = true;
          })))
