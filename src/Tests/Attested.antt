-- ===== src/Tests/Attested.antt =====
-- An X509 certificate for the holder of an attested key.
use rustica.Common.{◌≡◌, refl, false, some, [], ◌∷◌}
use rustica.Common.Lists.{select}
use rustica.Common.Text.{Text, text, eq, join}
use rustica.Common.Decimal.{print_u64}
use rustica.Common.Maps.{lookup}
use rustica.Common.Run.{ok, err}
use rustica.Errors.{show}
use rustica.Keys.{pin_policy_of, touch_policy_of}
use rustica.Attestation.{verify_piv_certificate_chain}
use rustica.Auth.Database.{Database, local, authorize_attested_x509_cert}
use rustica.Signing
use rustica.Signing.File
use rustica.Server.{denied, permission_denied}
use rustica.Server.Peer.{extract_certificate_information}
use rustica.Server.Attested.{
  AttestedX509CertificateRequest, AttestedX509CertificateResponse, only_peer, x509_authorized,
  csr_params, x509_properties, x509_event, attested_x509_certificate,
}
use rustica.Server.Attested.Certified.{IsCertified, attested_x509_certificate-IsCertified}
use rustica.Tests.Toy.{toy}
use rustica.Tests.Server.{server, conn, db}

run : Unit {0}
unfolding eq join select lookup print_u64 show pin_policy_of touch_policy_of
    verify_piv_certificate_chain authorize_attested_x509_cert
    Signing.get_attested_x509_certificate_authority File.signer extract_certificate_information
    only_peer x509_authorized csr_params x509_properties x509_event attested_x509_certificate
run = tt

-- The row asks for a touch, and the stand-in attests a key that is never touched.
refused_test :
    (attested_x509_certificate toy
      (server false false)
      (local (λ b. b) [] (some 1000))
      conn
      (record {
        csr = text "key";
        attestation = text "key";
        attestation_intermediate = text "i";
        key_id = [];
      })
      db).0
    ≡ err (permission_denied (text "Not authorized"))
unfolding run
refused_test = refl

abbrev untouched : Database
untouched = record db {
  x509_authorizations =
      record {
        owner = text "ann";
        hsm_serial = text "7";
        require_touch = false;
        authority = text "main";
      }
      ∷ [];
}

abbrev asked : Text → AttestedX509CertificateRequest
asked csr = record {
  csr = csr;
  attestation = text "key";
  attestation_intermediate = text "i";
  key_id = [];
}

abbrev reply : AttestedX509CertificateResponse
reply = record { certificate = text "key"; error = []; error_code = 0 }

attested_test :
    (attested_x509_certificate toy
      (server false false)
      (local (λ b. b) [] (some 1000))
      conn
      (asked (text "key"))
      untouched).0
    ≡ ok reply
unfolding run
attested_test = refl

-- A signing request for another key.
mismatch_test :
    (attested_x509_certificate toy
      (server false false)
      (local (λ b. b) [] (some 1000))
      conn
      (asked (text "other"))
      untouched).0
    ≡ err denied
unfolding run
mismatch_test = refl

attested_x509_certificate-IsCertified_example :
    IsCertified toy
      (server false false)
      (local (λ b. b) [] (some 1000))
      conn
      (asked (text "key"))
      untouched
      reply
attested_x509_certificate-IsCertified_example =
    attested_x509_certificate-IsCertified toy (server false false) (local (λ b. b) [] (some 1000))
      conn (asked (text "key")) untouched reply attested_test
