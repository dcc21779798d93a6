-- ===== src/Server/Attested.antt =====
-- rustica/src/server.rs: the handler `attested_x509_certificate`, which signs the request of a client
-- whose key lives in an attested PIV slot. The signing request is parsed by rcgen, which gives no way to
-- see its key; the handler compares the key of the certificate that it has just made.
pub mod Certified
use rustica.Common.{ℕ, Bool, Option, none, some, List, [], ◌∷◌, ◌++◌, map, if◌then◌else◌}
use rustica.Common.Text.{Text, text, eq, is_empty, commas, join}
use rustica.Common.Decimal.{print_u64}
use rustica.Common.Run.{Run, ok, err, panic, ok_or}
use rustica.Errors.{AuthorizationError, show}
use rustica.Logs.{
  Log, x509_certificate_issued, Logged, rustica_warning, rustica_error, ◌>>=◌, ◌>>◌, pure, lift,
  fail, send, check, ok_or_warn,
}
use rustica.Keys.{Bytes, Key}
use rustica.Foreign.{Foreign, AttestedParameters, CustomExtension}
use rustica.Attestation.{verify_piv_certificate_chain}
use rustica.Auth.{X509Authorization, X509AuthorizationRequestProperties, Authorizer}
use rustica.Signing
use rustica.Server.{
  RusticaServer, Status, denied, permission_denied, SocketAddr, Connection, MtlsCertificateInfo,
}
use rustica.Server.Peer.{extract_certificate_information}

pub record AttestedX509CertificateRequest : Type 0 where
  pub csr : Bytes
  pub attestation : Bytes
  pub attestation_intermediate : Bytes
  pub key_id : Text

pub record AttestedX509CertificateResponse : Type 0 where
  pub certificate : Bytes
  pub error : Text
  pub error_code : ℕ

-- `result.map_err(|_| status)?`
abbrev pub or_status : {E A : Type 0} → Status → Run E A → Run Status A
or_status s (ok a) = ok a
or_status s (err e) = err s
or_status s panic = panic

-- Exactly one client certificate.
unfoldable pub only_peer : Text → List Bytes → Logged Status Bytes
only_peer remote [] =
    fail denied (rustica_error (text "No peer certificate was presented. Tonic issue?"))
only_peer remote (peer ∷ []) = pure peer
only_peer remote (_ ∷ _ ∷ _) =
    fail denied
      (rustica_warning (text "Received request with multiple peer identities from " ++ remote))

-- the `match` on what the authorizer answers
unfoldable pub x509_authorized : {A : Type 0} → Text → Run AuthorizationError A → Logged Status A
x509_authorized from (ok a) = pure a
x509_authorized from (err e) = fail (permission_denied (text "Not authorized")) (
    rustica_warning (
      text "Authorizer rejected ["
      ++ from
      ++ text "] from fetching new X509 certificate. Error: ["
      ++ show e
      ++ text "]"))
x509_authorized from panic = (panic, [])

-- The assignments to `csr.params`.
unfoldable pub csr_params : X509Authorization → AttestedParameters
csr_params a = record {
  rfc822_name = a.common_name;
  serial_number = a.serial;
  custom_extensions = a.extensions;
  organization_name = text "Rustica-" ++ a.authority;
  common_name = a.common_name;
  not_before = a.valid_after;
  not_after = a.valid_before;
}

module _ (f : Foreign) where
  open f use {
    X509, parse_x509_certificate, x509_error, subject_pki, hex_encode, Csr, csr_from_der, csr_error,
    serialize_der_with_signer, CaCertificate,
  }

  abbrev requested_authority : RusticaServer f → AttestedX509CertificateRequest → Text
  requested_authority srv req =
      if is_empty req.key_id then srv.signer.default_authority else req.key_id

  unfoldable pub x509_properties :
      RusticaServer f
      → AttestedX509CertificateRequest
      → SocketAddr
      → MtlsCertificateInfo
      → Key
      → X509AuthorizationRequestProperties
  x509_properties srv req remote info key = record {
    authority = requested_authority srv req;
    mtls_identities = info.identities;
    requester_ip = remote.shown;
    attestation = req.attestation;
    attestation_intermediate = req.attestation_intermediate;
    key = key;
  }

  abbrev extension_entry : CustomExtension → Text × Text
  extension_entry e = (join (text ".") (map print_u64 e.oid_components), hex_encode e.content)

  unfoldable pub x509_event :
      RusticaServer f
      → AttestedX509CertificateRequest
      → MtlsCertificateInfo
      → X509Authorization
      → Log
  x509_event srv req info a = x509_certificate_issued (record {
    authority = requested_authority srv req;
    mtls_identities = info.identities;
    extensions = map extension_entry a.extensions;
    valid_after = a.valid_after;
    valid_before = a.valid_before;
    serial = a.serial;
  })

  abbrev no_authority : X509Authorization → Log
  no_authority a = rustica_error (
      text "The requested authority " ++ a.authority ++ text " does not exist or is not configured")

  abbrev unsigned : X509Authorization → Log
  unsigned a =
      rustica_error (text "Could not serialize attested x509 certificate for " ++ a.common_name)

  abbrev unreadable : Text → Text → Bytes → Log
  unreadable what from bytes = rustica_error (
      text "Could not parse "
      ++ what
      ++ text " for ["
      ++ from
      ++ text "]. Error: ["
      ++ x509_error bytes
      ++ text "]")

  abbrev invalid_csr : Text → Bytes → Log
  invalid_csr from bytes = rustica_warning (
      text "Invalid CSR was provided by ["
      ++ from
      ++ text "]. Error: ["
      ++ csr_error bytes
      ++ text "]")

  abbrev mismatch : Text → Log
  mismatch from = rustica_error (
      text "A CSR was submitted that didn't match their attestation chain by [" ++ from ++ text "]")

  module _ {S : Type 0} (srv : RusticaServer f) (auth : Authorizer S) where
    unfoldable pub attested_x509_certificate :
        Connection
        → AttestedX509CertificateRequest
        → S
        → Logged Status AttestedX509CertificateResponse
    attested_x509_certificate conn req s = do
      remote ← lift (ok_or denied conn.remote_addr)
      peer_certs ← lift (ok_or denied conn.peer_certs)
      peer ← only_peer remote.shown peer_certs
      info ← lift (or_status denied (extract_certificate_information f peer))
      let from = commas info.identities
      key ← lift (
          or_status (permission_denied (text "Invalid attestation chain"))
            (verify_piv_certificate_chain f req.attestation req.attestation_intermediate))
      a ←
          x509_authorized from
            (auth.authorize_attested_x509_cert (x509_properties srv req remote info key) s)
      csr ← ok_or_warn denied (invalid_csr from req.csr) (csr_from_der req.csr)
      maybe_ca ← lift (
          or_status (permission_denied (text "message"))
            (Signing.get_attested_x509_certificate_authority f srv.signer a.authority))
      ca ← ok_or_warn denied (no_authority a) maybe_ca
      cert ← ok_or_warn denied (unsigned a) (serialize_der_with_signer csr (csr_params a) ca)
      new_certificate ←
          ok_or_warn denied (unreadable (text "new certificate") from cert)
            (parse_x509_certificate cert)
      leaf ←
          ok_or_warn denied (unreadable (text "provided attestation") from req.attestation)
            (parse_x509_certificate req.attestation)
      check (eq (subject_pki new_certificate) (subject_pki leaf)) denied (mismatch from)
      send (x509_event srv req info a)
      pure (record { certificate = cert; error = []; error_code = 0 })
