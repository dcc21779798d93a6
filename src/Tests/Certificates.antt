-- ===== src/Tests/Certificates.antt =====
-- A certificate from the local database.
use rustica.Common.{ℕ, ◌≡◌, refl, true, false, some, [], ◌∷◌}
use rustica.Common.Lists.{select}
use rustica.Common.Text.{text, eq, join}
use rustica.Common.Decimal.{print_u64, parse_u64}
use rustica.Common.Maps.{lookup, insert, collect}
use rustica.Common.Run.{ok}
use rustica.Errors.{code, debug, of_authorization, bad_cert_options}
use rustica.Auth.Database.{local, authorize_ssh_cert}
use rustica.Auth.Database.Grants.{Granted}
use rustica.Signing
use rustica.Signing.File
use rustica.Server.Validate.{validate_request, payload, refresh_settings, check_signer}
use rustica.Server.Peer.{extract_certificate_information}
use rustica.Server.Challenges.{ChallengeResponse}
use rustica.Server.Challenges.RoundTrip.{answer}
use rustica.Server.Certificates.{
  CertificateRequest, CertificateResponse, create_response, cert_type_of, times_ok,
  critical_options, authority_of, properties, draft_of, signed_text, renew, issued_event,
  certificate,
}
use rustica.Server.Certificates.Issued.{IsIssued, certificate-IsIssued, certificate-local}
use rustica.Tests.Toy.{toy, print}
use rustica.Tests.Server.{server, conn, db}

run : Unit {0}
unfolding eq join print_u64 parse_u64 lookup insert collect select code debug of_authorization
    authorize_ssh_cert Signing.sign Signing.get_signer_public_key
    Signing.get_client_certificate_authority File.signer payload refresh_settings check_signer
    extract_certificate_information validate_request create_response cert_type_of times_ok
    critical_options authority_of properties draft_of signed_text renew issued_event certificate
run = tt

abbrev response : ChallengeResponse
response = record {
  time = text "1000";
  challenge =
      print (record { key_id = text "k1000-key-ann"; key = text "key"; signature_key = text "S" });
  no_signature_required = true;
}

abbrev asked : ℕ → ℕ → CertificateRequest
asked cert_type valid_before = record {
  cert_type = cert_type;
  key_id = [];
  principals = text "root" ∷ text "admin" ∷ [];
  servers = [];
  extensions = [];
  critical_options = [];
  valid_after = 0;
  valid_before = valid_before;
  challenge = some (answer (text "key") response);
}

abbrev reply : CertificateResponse
reply = record {
  certificate =
      print (record {
        key_id = text "Rustica-JITC-for-key";
        key = text "key";
        signature_key = text "U";
      });
  error = [];
  error_code = 0;
  new_client_certificate = [];
  new_client_key = [];
}

certificate_test :
    (certificate toy
      (server false false)
      (local (λ b. b) [] (some 1002))
      conn
      (asked 1 5000)
      (some 1001)
      (some 1002)
      db).0
    ≡ ok reply
unfolding run
certificate_test = refl

-- A host certificate is not allowed by the row; a validity that is over is refused.
refusal_tests :
    ((certificate toy
        (server false false)
        (local (λ b. b) [] (some 1002))
        conn
        (asked 2 5000)
        (some 1001)
        (some 1002)
        db).0
      ≡ ok (create_response bad_cert_options))
    × ((certificate toy
          (server false false)
          (local (λ b. b) [] (some 1002))
          conn
          (asked 1 900)
          (some 1001)
          (some 1002)
          db).0
        ≡ ok (create_response bad_cert_options))
unfolding run
refusal_tests = (refl, refl)

certificate-IsIssued_example :
    IsIssued toy
      (server false false)
      (local (λ b. b) [] (some 1002))
      conn
      (asked 1 5000)
      (some 1001)
      (some 1002)
      db
      reply
certificate-IsIssued_example =
    certificate-IsIssued toy (server false false) (local (λ b. b) [] (some 1002)) conn
      (asked 1 5000) (some 1001) (some 1002) db reply certificate_test (λ e. cc)

certificate-local_example :
    (i : IsIssued toy
      (server false false)
      (local (λ b. b) [] (some 1002))
      conn
      (asked 1 5000)
      (some 1001)
      (some 1002)
      db
      reply)
    × Granted 1002
        (properties toy (server false false) (asked 1 5000) i.remote i.v i.cert_type)
        db
        i.a
    × (i.a.authority ≡ authority_of toy (server false false) (asked 1 5000))
    × (i.a.valid_after ≡ 0)
certificate-local_example =
    certificate-local toy (λ b. b) [] 1002 (server false false) conn (asked 1 5000) (some 1001)
      (some 1002) db reply certificate_test (λ e. cc)
