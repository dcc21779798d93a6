-- ===== src/Tests/Challenges.antt =====
-- The challenge, handed out and answered.
use rustica.Errors.{time_expired}
use rustica.Common.{ℕ, ◌≡◌, refl, true, false, none, some, [], ◌∷◌, arith}
use rustica.Common.Text.{Text, text, eq, join, commas}
use rustica.Common.Decimal.{print_u64, parse_u64}
use rustica.Common.Run.{ok, err}
use rustica.Logs.{pure}
use rustica.Server.Validate.{Validated, validate_request, payload, refresh_settings, check_signer}
use rustica.Server.Validate.Accepted.{Accepted, validate_request_sound, validate_request_complete}
use rustica.Server.Validate.Payload.{Dashless, payload-injective}
use rustica.Server.Peer.{extract_certificate_information}
use rustica.Server.Challenges.{ChallengeResponse, challenge, challenge_draft}
use rustica.Server.Challenges.RoundTrip.{answer, resigned_accepted}
use rustica.Tests.Toy.{toy, toy-Behaves, ToyCertificate, print}
use rustica.Tests.Server.{server, conn}

run : Unit {0}
unfolding eq challenge challenge_draft payload print_u64 parse_u64 join
    extract_certificate_information validate_request refresh_settings check_signer
run = tt

abbrev tag : Text
tag = text "k1000-key-ann"

-- The challenge for the key "key" of "ann" at the time 1000.
abbrev response : ChallengeResponse
response = record {
  time = text "1000";
  challenge = print (record { key_id = tag; key = text "key"; signature_key = text "S" });
  no_signature_required = true;
}

challenge_test : (challenge toy (server false false) conn (text "key") (some 1000)).0 ≡ ok response
unfolding run
challenge_test = refl

abbrev accepted : Validated toy
accepted = record { ssh_pubkey = text "key"; identities = text "ann" ∷ []; refresh = none }

validate_test :
    (validate_request toy
      (server false false)
      (text "ann" ∷ [])
      (answer (text "key") response)
      (some 1005)).0
    ≡ ok accepted
unfolding run
validate_test = refl

-- A second too late, and with a time that is still to come.
late_test :
    ((validate_request toy
        (server false false)
        (text "ann" ∷ [])
        (answer (text "key") response)
        (some 1006)).0
      ≡ err time_expired)
    × ((validate_request toy
          (server false false)
          (text "ann" ∷ [])
          (answer (text "key") response)
          (some 999)).0
        ≡ err time_expired)
unfolding run
late_test = (refl, refl)

validate_request_sound_example :
    Accepted toy
      (server false false)
      (text "ann" ∷ [])
      (answer (text "key") response)
      (some 1005)
      accepted
validate_request_sound_example =
    validate_request_sound toy (server false false) (text "ann" ∷ []) (answer (text "key") response)
      (some 1005) accepted validate_test

facts :
    Accepted toy
      (server false false)
      (text "ann" ∷ [])
      (answer (text "key") response)
      (some 1005)
      accepted
facts =
    validate_request_sound toy (server false false) (text "ann" ∷ []) (answer (text "key") response)
      (some 1005) accepted validate_test

validate_request_complete_example :
    validate_request toy
      (server false false)
      (text "ann" ∷ [])
      (answer (text "key") response)
      (some 1005)
    ≡ pure accepted
validate_request_complete_example =
    validate_request_complete toy (server false false) (text "ann" ∷ [])
      (answer (text "key") response) (some 1005) accepted facts

-- The same challenge of a server that asks for a proof, and the certificate resigned by the key.
abbrev proof_response : ChallengeResponse
proof_response = record response { no_signature_required = false }

proof_challenge_test :
    (challenge toy (server true false) conn (text "key") (some 1000)).0 ≡ ok proof_response
unfolding run
proof_challenge_test = refl

abbrev resigned : ToyCertificate
resigned = record { key_id = tag; key = text "key"; signature_key = text "key" }

resigned_accepted_example :
    (v : Validated toy) × (validate_request toy
        (server true false)
        (text "ann" ∷ [])
        (record (answer (text "key") proof_response) { challenge = print resigned })
        (some 1003)
      ≡ pure v)
    × (v.ssh_pubkey ≡ text "key")
resigned_accepted_example =
    resigned_accepted toy toy-Behaves (server true false) conn (text "ann" ∷ []) (text "key") 1000
      1003 proof_response refl proof_challenge_test (print resigned) resigned refl (omega arith)
      (omega arith) (omega arith) (omega arith) refl
      (record { key_id = tag; key = text "key"; signature_key = text "S" }) refl refl refl
      (text "key") refl refl

ann_Dashless : Dashless (commas (text "ann" ∷ []))
unfolding join
ann_Dashless = (omega arith, (omega arith, (omega arith, tt)))

payload-injective_example :
    (◌≡◌ {A = ℕ} 1000 1000)
    × (text "key" ≡ text "key")
    × (commas (text "ann" ∷ []) ≡ commas (text "ann" ∷ []))
payload-injective_example =
    payload-injective 1000 1000 (text "key") (text "key") (text "ann" ∷ []) (text "ann" ∷ [])
      (omega arith) (omega arith) ann_Dashless ann_Dashless refl

-- With a dash in an identity two pairs of a key and an identity share a text.
ambiguous_payload :
    payload 5 (text "key") (text "a-b" ∷ []) ≡ payload 5 (text "key-a") (text "b" ∷ [])
unfolding payload join print_u64
ambiguous_payload = refl
