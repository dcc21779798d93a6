-- ===== src/Tests/Registrations.antt =====
-- Keys that are registered, and one that is not.
use rustica.Common.{ℕ, zero, suc, ◌≡◌, refl, true, false, some, [], ◌∷◌}
use rustica.Common.Lists.{select}
use rustica.Common.Text.{text, eq, join}
use rustica.Common.Words.{pos}
use rustica.Common.Decimal.{print_u64, parse_u64}
use rustica.Common.Utf8.{from_utf8}
use rustica.Common.Run.{ok, err}
use rustica.Errors.{debug, u2f_attestation_too_big}
use rustica.Keys.{Bytes, Key, pin_policy_of, touch_policy_of, once, TouchPolicy, piv}
use rustica.Attestation.{verify_piv_certificate_chain, verify_u2f_certificate_chain}
use rustica.Attestation.Limits.{Attests, verify_piv_certificate_chain-Attests}
use rustica.Errors.{piv_client_cert_too_big}
use rustica.Auth.{RegisterKeyRequestProperties}
use rustica.Auth.Database
use rustica.Auth.Database.{Database, local, registered_key}
use rustica.Server.Validate.{validate_request, payload, refresh_settings, check_signer}
use rustica.Server.Peer.{extract_certificate_information}
use rustica.Server.Challenges.{ChallengeResponse}
use rustica.Server.Challenges.RoundTrip.{answer}
use rustica.Server.Registrations.{
  RegisterKeyRequest, RegisterU2fKeyRequest, claim_of, prepare, register_key, register_u2f_key,
}
use rustica.Server.Registrations.Recorded.{
  IsProved, register_key-IsProved, register_u2f_key-IsProved,
}
use rustica.Tests.Toy.{toy, print}
use rustica.Tests.Server.{server, conn, db}

run : Unit {0}
unfolding eq join print_u64 parse_u64 select debug pin_policy_of touch_policy_of from_utf8
    verify_piv_certificate_chain verify_u2f_certificate_chain Database.register_key
    Database.insert_row registered_key payload refresh_settings check_signer
    extract_certificate_information validate_request claim_of prepare register_key register_u2f_key
run = tt

abbrev response : ChallengeResponse
response = record {
  time = text "1000";
  challenge =
      print (record { key_id = text "k1000-key-ann"; key = text "key"; signature_key = text "S" });
  no_signature_required = true;
}

abbrev piv_request : RegisterKeyRequest
piv_request = record {
  certificate = text "key";
  intermediate = text "i";
  challenge = some (answer (text "key") response);
}

abbrev u2f_request : Bytes → RegisterU2fKeyRequest
u2f_request auth_data = record {
  auth_data = auth_data;
  auth_data_signature = text "s";
  sk_application = text "ssh:";
  u2f_challenge = text "c";
  intermediate = text "i";
  alg = pos 7;
  challenge = some (answer (text "key") response);
  u2f_challenge_hashed = true;
}

abbrev zeros : ℕ → Bytes
zeros zero = []
zeros (suc n) = 0 ∷ zeros n

register_key_test :
    (register_key toy
      (local (λ b. b) [] (some 1001))
      (server false true)
      conn
      piv_request
      (some 1001)
      db).0.0
    ≡ ok tt
unfolding run
register_key_test = refl

register_u2f_key_test :
    (register_u2f_key toy
      (local (λ b. b) [] (some 1001))
      (server false true)
      conn
      (u2f_request (text "key"))
      (some 1001)
      db).0.0
    ≡ ok tt
unfolding run
register_u2f_key_test = refl

register_key-IsProved_example :
    (p : RegisterKeyRequestProperties) × (Database.register_key (λ b. b) [] p db ≡ (
      ok tt,
      (register_key toy
          (local (λ b. b) [] (some 1001))
          (server false true)
          conn
          piv_request
          (some 1001)
          db).1,
    ))
    × IsProved toy
        (server false true)
        conn
        (some (answer (text "key") response))
        (verify_piv_certificate_chain toy (text "key") (text "i"))
        (some 1001)
        p
register_key-IsProved_example =
    register_key-IsProved toy (local (λ b. b) [] (some 1001)) (server false true) conn piv_request
      (some 1001) db register_key_test

register_u2f_key-IsProved_example :
    (p : RegisterKeyRequestProperties) × (Database.register_key (λ b. b) [] p db ≡ (
      ok tt,
      (register_u2f_key toy
          (local (λ b. b) [] (some 1001))
          (server false true)
          conn
          (u2f_request (text "key"))
          (some 1001)
          db).1,
    ))
    × IsProved toy
        (server false true)
        conn
        (some (answer (text "key") response))
        (verify_u2f_certificate_chain toy
          (text "key")
          (text "s")
          (text "i")
          (pos 7)
          (text "c")
          (text "ssh:")
          true)
        (some 1001)
        p
register_u2f_key-IsProved_example =
    register_u2f_key-IsProved toy (local (λ b. b) [] (some 1001)) (server false true) conn
      (u2f_request (text "key")) (some 1001) db register_u2f_key_test

big_piv : verify_piv_certificate_chain toy (zeros 2049) (text "i") ≡ err piv_client_cert_too_big
unfolding verify_piv_certificate_chain
big_piv = refl

big_u2f :
    verify_u2f_certificate_chain toy
      (zeros 2049)
      (text "s")
      (text "i")
      (pos 7)
      (text "c")
      (text "ssh:")
      true
    ≡ err u2f_attestation_too_big
unfolding verify_u2f_certificate_chain
big_u2f = refl

abbrev attested : Key
attested = record {
  fingerprint = text "key";
  attestation = some (
      piv (record {
        pin_policy = once;
        touch_policy = TouchPolicy.never;
        serial = 7;
        firmware = text "5.4";
        certificate = text "key";
        intermediate = text "i";
      }));
}

piv_test : verify_piv_certificate_chain toy (text "key") (text "i") ≡ ok attested
unfolding run
piv_test = refl

verify_piv_certificate_chain-Attests_example : Attests toy (text "key") (text "i") attested
verify_piv_certificate_chain-Attests_example =
    verify_piv_certificate_chain-Attests toy (text "key") (text "i") attested piv_test
