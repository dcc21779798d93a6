-- ===== src/Server/Certificates.antt =====
-- rustica/src/server.rs: the handler `certificate`, which issues SSH certificates. The clock is read
-- by `validate_request` and once more by the handler; the authorizer reads its own.
pub mod Drafted
pub mod Issued
use rustica.Common.{ℕ, Bool, true, false, not, ◌||◌, Option, none, some, List, [], ◌∷◌, ◌++◌}
use rustica.Common.{first, if◌then◌else◌, ltb, ◌==◌}
use rustica.Common.Text.{Text, text, is_empty}
use rustica.Common.Words.{u64_max}
use rustica.Common.Maps.{Map, insert}
use rustica.Common.Run.{Run, ok, err, panic, ok_or, unwrap}
use rustica.Errors.{
  RusticaServerError, AuthorizationError, success, bad_request, bad_cert_options, bad_challenge,
  of_authorization, code, debug,
}
use rustica.Logs.{
  Log, certificate_issued, Logged, rustica_error, ◌>>=◌, ◌>>◌, pure, lift, fail, send, ok_or_warn,
}
use rustica.Foreign.{Foreign, CertType, user, host, Draft}
use rustica.Auth.{SshAuthorization, SshAuthorizationRequestProperties, Authorizer}
use rustica.Signing
use rustica.Signing.{SigningError}
use rustica.Server.{
  RusticaServer, Status, denied, SocketAddr, Connection, Challenge, CertificateRefreshSettings,
}
use rustica.Server.Validate.{Validated, validate_request}

pub record CertificateRequest : Type 0 where
  pub cert_type : ℕ
  pub key_id : Text
  pub principals : List Text
  pub servers : List Text
  pub extensions : Map Text
  pub critical_options : Map Text
  pub valid_after : ℕ
  pub valid_before : ℕ
  pub challenge : Option Challenge

pub record CertificateResponse : Type 0 where
  pub certificate : Text
  pub error : Text
  pub error_code : ℕ
  pub new_client_certificate : Text
  pub new_client_key : Text

unfoldable pub create_response : RusticaServerError → CertificateResponse
create_response e = record {
  certificate = [];
  error = debug e;
  error_code = code e;
  new_client_certificate = [];
  new_client_key = [];
}

-- An early return: `Ok(create_response(e))`, or a status.
pub data Refusal : Type 0 where
  respond : RusticaServerError → Refusal
  status : Status → Refusal

abbrev pub responding : {A : Type 0} → Logged RusticaServerError A → Logged Refusal A
responding (ok a, l) = (ok a, l)
responding (err e, l) = (err (respond e), l)
responding (panic, l) = (panic, l)

abbrev pub authorized : {A : Type 0} → Run AuthorizationError A → Run Refusal A
authorized (ok a) = ok a
authorized (err e) = err (respond (of_authorization e))
authorized panic = panic

-- Whatever keeps the authority from having a key of this type is answered alike.
abbrev pub signer_key : {A : Type 0} → Run SigningError A → Run Refusal A
signer_key (ok key) = ok key
signer_key (err e) = err (respond RusticaServerError.not_authorized)
signer_key panic = panic

abbrev pub settle : Logged Refusal CertificateResponse → Logged Status CertificateResponse
settle (ok r, l) = (ok r, l)
settle (err (respond e), l) = (ok (create_response e), l)
settle (err (status s), l) = (err s, l)
settle (panic, l) = (panic, l)

abbrev pub secs_or_max : Option ℕ → ℕ
secs_or_max none = u64_max
secs_or_max (some t) = t

-- the `match` on `request.cert_type`
unfoldable pub cert_type_of : ℕ → Option CertType
cert_type_of n = if n == 1 then some user else if n == 2 then some host else none

-- The validity does not end before it starts, and is not over.
unfoldable pub times_ok : CertificateRequest → ℕ → Bool
times_ok req now = not (ltb req.valid_before req.valid_after || ltb req.valid_before now)

unfoldable pub critical_options : SshAuthorization → SocketAddr → Map Text
critical_options a remote =
    let forced : Map Text = elim a.force_command [
      | none ↦ []
      | some cmd ↦ insert (text "force-command") cmd []
    ] in
    if a.force_source_ip then insert (text "source-address") remote.ip forced else forced

module _ (f : Foreign) where
  open f use {
    PublicKey, Certificate, fingerprint, show_cert_type, builder_takes, certificate_of_string,
    certificate_to_string, certificate_error, CaCertificate, from_params, serialize_private_key_pem,
    serialize_pem_with_signer,
  }

  unfoldable pub authority_of : RusticaServer f → CertificateRequest → Text
  authority_of srv req = if is_empty req.key_id then srv.signer.default_authority else req.key_id

  unfoldable pub properties :
      RusticaServer f
      → CertificateRequest
      → SocketAddr
      → Validated f
      → CertType
      → SshAuthorizationRequestProperties
  properties srv req remote v cert_type = record {
    fingerprint = fingerprint v.ssh_pubkey;
    mtls_identities = v.identities;
    requester_ip = remote.shown;
    principals = req.principals;
    servers = req.servers;
    valid_before = req.valid_before;
    valid_after = req.valid_after;
    cert_type = cert_type;
    authority = authority_of srv req;
  }

  unfoldable pub draft_of :
      Validated f → CertType → PublicKey → SshAuthorization → SocketAddr → Draft PublicKey
  draft_of v cert_type ca_cert a remote = record {
    key = v.ssh_pubkey;
    cert_type = cert_type;
    ca_key = ca_cert;
    serial = a.serial;
    key_id = text "Rustica-JITC-for-" ++ fingerprint v.ssh_pubkey;
    principals = a.principals;
    valid_after = a.valid_after;
    valid_before = a.valid_before;
    critical_options = critical_options a remote;
    extensions = a.extensions;
  }

  -- The signer of the granted authority signs, and the result must be readable.
  unfoldable pub signed_text : Run SigningError Certificate → Logged Refusal Text
  signed_text (ok cert) = elim (certificate_of_string (certificate_to_string cert)) [
    | none ↦ fail (respond bad_cert_options) (
        rustica_error (
          text "Couldn't deserialize certificate: "
          ++ certificate_error (certificate_to_string cert)))
    | some _ ↦ pure (certificate_to_string cert)
  ]
  signed_text (err e) =
      fail (respond bad_challenge)
        (rustica_error (text "Creating certificate failed: " ++ Signing.show e))
  signed_text panic = (panic, [])

  -- the certificate and the key of a renewed client; both stay empty where nothing is renewed
  unfoldable pub renew :
      Option CertificateRefreshSettings
      → Run SigningError (Option CaCertificate)
      → List Text
      → Run Refusal (Text × Text)
  renew (some settings) (ok (some ca)) identities =
      elim (from_params (record {
        subject_alt_names = identities;
        not_before = settings.not_before;
        not_after = settings.not_after;
        common_name = elim (first identities) [ none ↦ [] | some name ↦ name ];
      })) [
        | none ↦ panic
        | some new ↦ elim (serialize_pem_with_signer new ca) [
          | none ↦ panic
          | some pem ↦ ok (pem, serialize_private_key_pem new)
        ]
      ]
  renew _ _ identities = ok ([], [])

  abbrev was_some : {A : Type 0} → Option A → Bool
  was_some none = false
  was_some (some _) = true

  unfoldable pub issued_event :
      RusticaServer f
      → CertificateRequest
      → SocketAddr
      → Validated f
      → CertType
      → PublicKey
      → SshAuthorization
      → Log
  issued_event srv req remote v cert_type ca_cert a = certificate_issued (record {
    fingerprint = fingerprint v.ssh_pubkey;
    signed_by = fingerprint ca_cert;
    serial = a.serial;
    authority = authority_of srv req;
    certificate_type = show_cert_type cert_type;
    mtls_identities = v.identities;
    principals = a.principals;
    extensions = a.extensions;
    critical_options = critical_options a remote;
    valid_after = a.valid_after;
    valid_before = a.valid_before;
    new_access_certificate_issued = was_some v.refresh;
  })

  module _ {S : Type 0} (srv : RusticaServer f) (auth : Authorizer S) (conn : Connection)
      (req : CertificateRequest) where
    pub issue : Option ℕ → Option ℕ → S → Logged Refusal CertificateResponse
    issue now now' s = do
      remote ← lift (ok_or (status denied) conn.remote_addr)
      challenge ← lift (ok_or (respond bad_request) req.challenge)
      peer ← lift (ok_or (respond bad_request) conn.peer_certs)
      v ← responding (validate_request f srv peer challenge now)
      lift (if times_ok req (secs_or_max now') then ok tt else err (respond bad_cert_options))
      cert_type ← lift (ok_or (respond bad_cert_options) (cert_type_of req.cert_type))
      ca_cert ←
          lift (
            signer_key
              (Signing.get_signer_public_key f srv.signer (authority_of srv req) cert_type))
      a ← lift (authorized (auth.authorize_ssh_cert (properties srv req remote v cert_type) s))
      lift (if builder_takes v.ssh_pubkey cert_type ca_cert then ok tt else err (status denied))
      serialized ←
          signed_text
            (Signing.sign f srv.signer a.authority (draft_of v cert_type ca_cert a remote))
      renewed ← lift (
          renew v.refresh
            (Signing.get_client_certificate_authority f srv.signer srv.client_authority.authority)
            v.identities)
      send (issued_event srv req remote v cert_type ca_cert a)
      pure (record {
        certificate = serialized;
        error = [];
        error_code = code success;
        new_client_certificate = renewed.0;
        new_client_key = renewed.1;
      })

    unfoldable pub certificate : Option ℕ → Option ℕ → S → Logged Status CertificateResponse
    unfolding issue
    certificate now now' s = settle (issue now now' s)
