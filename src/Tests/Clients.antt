-- ===== src/Tests/Clients.antt =====
-- The agent asks a server for a certificate, and for the registration of a key.
use rustica.Common.{ℕ, ◌≡◌, ◌↔◌, refl, ap, true, false, Option, none, some, List, [], ◌∷◌, arith}
use rustica.Common.Text.{Text, text, eq, is_empty, join}
use rustica.Common.Lists.{select}
use rustica.Common.Maps.{lookup, insert}
use rustica.Common.Decimal.{print_u64}
use rustica.Common.Run.{Run, ok, err}
use rustica.Logs
use rustica.Server.Validate.{Validated, validate_request, payload}
use rustica.Server.Challenges.{ChallengeResponse, challenge, challenge_draft}
use rustica.Server.Peer.{extract_certificate_information}
use rustica.Server
use rustica.Agent.{direct, RusticaServer}
use rustica.Agent.Clients.{
  transport_error, MtlsCredentials, complete_rustica_challenge, get_rustica_client, public_key_of,
  resign, sign_challenge, certificate_request, credentials_of, refresh_certificate_async,
  PivAttestation, register_key_async,
}
use rustica.Agent.Clients.Accepted.{complete_rustica_challenge_accepted}
use rustica.Agent.Config.{
  whole, RusticaAgentLibraryError, server_returned_invalid_certificate, Config, Toml, write,
  parse_v1_config, parse_v2_config, parse_config, parse_config_path, open_configuration,
  update_servers,
}
use rustica.Agent.Fetch.{
  Settings, try_servers, register_key, renewed_server, store_credentials, take_certificate,
  fetch_from, fetch_new_certificate,
}
use rustica.Agent.Fetch.First.{FirstAnswer, register_key_iff}
use rustica.Agent.Fetch.Renewed.{
  IsFetched, fetch_new_certificate-IsFetched, fetch_new_certificate-invalid,
}
use rustica.Tests.Toy.{toy, toy-Behaves, ToyCertificate, print}
use rustica.Tests.Server.{server, conn}
use rustica.Tests.Devices.{crates, crates-AgentBehaves, server_at, options, client, network}

run : Unit {0}
unfolding eq is_empty join select lookup insert print_u64 payload challenge challenge_draft
    extract_certificate_information get_rustica_client public_key_of resign sign_challenge
    complete_rustica_challenge certificate_request credentials_of refresh_certificate_async
    register_key_async write parse_v1_config parse_v2_config parse_config parse_config_path
    open_configuration update_servers try_servers register_key renewed_server store_credentials
    take_certificate fetch_from fetch_new_certificate
run = tt

abbrev tag : Text
tag = text "k1000-key-ann"

abbrev pub response : ChallengeResponse
response = record {
  time = text "1000";
  challenge = print (record { key_id = tag; key = text "key"; signature_key = text "S" });
  no_signature_required = false;
}

challenge_test : (challenge toy (server true false) conn (text "key") (some 1000)).0 ≡ ok response
unfolding run
challenge_test = refl

abbrev signed : Server.Challenge
signed = record {
  pubkey = text "key";
  challenge_time = text "1000";
  challenge = print (record { key_id = tag; key = text "key"; signature_key = text "key" });
  challenge_signature = [];
}

completed_test :
    (complete_rustica_challenge crates
      (network response [])
      (server_at (text "a"))
      (direct (text "key"))
      true).0
    ≡ ok (client response [], signed)
unfolding run
completed_test = refl

connected_test :
    get_rustica_client (network response []) (server_at (text "a")) ≡ ok (client response [])
unfolding run
connected_test = refl

key_test : public_key_of crates (direct (text "key")) ≡ ok (text "key")
unfolding run
key_test = refl

complete_rustica_challenge_accepted_example :
    (v : Validated toy) × (validate_request toy
        (server true false)
        (text "ann" ∷ [])
        signed
        (some 1003)
      ≡ Logs.pure v)
    × (v.ssh_pubkey ≡ text "key")
complete_rustica_challenge_accepted_example =
    complete_rustica_challenge_accepted toy toy-Behaves crates crates-AgentBehaves
      (network response []) (server_at (text "a")) (direct (text "key")) true (server true false)
      conn (text "ann" ∷ []) (text "key") 1000 1003 response (client response []) signed refl
      challenge_test (omega arith) (omega arith) (omega arith) (client response []) key_test
      connected_test refl completed_test (omega arith)

abbrev attestation : PivAttestation crates
attestation = record { certificate = text "c"; intermediate = text "i" }

register_key_iff_example :
    ((register_key crates
        (network response [])
        (direct (text "key"))
        attestation
        (server_at [] ∷ server_at (text "a") ∷ [])).0
      ≡ ok tt)
    ↔ FirstAnswer
        (λ server.
          register_key_async crates (network response []) server (direct (text "key")) attestation)
        (server_at [] ∷ server_at (text "a") ∷ [])
        tt
register_key_iff_example =
    register_key_iff crates (network response []) (direct (text "key")) attestation
      (server_at [] ∷ server_at (text "a") ∷ [])

register_key_test :
    (register_key crates
      (network response [])
      (direct (text "key"))
      attestation
      (server_at [] ∷ server_at (text "a") ∷ [])).0
    ≡ ok tt
unfolding run
register_key_test = refl

-- A configuration prints as its servers' credentials; the stand-in keeps the first file as it was.
abbrev pub config : List RusticaServer → Config
config servers = record {
  version = 2;
  servers = servers;
  slot = none;
  key = none;
  options = none;
  socket = none;
}

abbrev pub settings : List RusticaServer → Settings
settings servers = record {
  configuration = record { path = text "conf"; configuration = config servers };
  files = record {
    files = (text "conf", text "start") ∷ [];
    writing = λ path contents. whole;
    read_error = λ path. text "no file";
  };
}

abbrev pub toml : Toml
toml = record {
  version_of = λ s. some 2;
  v1_of = λ s. err [];
  v2_of = λ s. ok (config []);
  to_string = λ c. some (text "printed");
}

abbrev pub issued : ToyCertificate
issued = record { key_id = text "id"; key = text "key"; signature_key = text "U" }

abbrev pub now : ℕ → Option ℕ
now n = some 1000

-- The first server is not reached, the second one answers and renews its credentials.
abbrev pub after_fetch : Settings
after_fetch = record {
  configuration = record {
    path = text "conf";
    configuration = config (
        server_at []
        ∷ record (server_at (text "a")) { mtls_cert = text "new" }
        ∷ server_at (text "b")
        ∷ []);
  };
  files = record {
    files = (text "conf", text "printed") ∷ [];
    writing = λ path contents. whole;
    read_error = λ path. text "no file";
  };
}

abbrev pub servers : List RusticaServer
servers = server_at [] ∷ server_at (text "a") ∷ server_at (text "b") ∷ []

fetch_test :
    fetch_new_certificate crates toml
      (network response (print issued))
      (direct (text "key"))
      options
      true
      now
      (settings servers)
    ≡ ((ok issued, 1), after_fetch)
unfolding run
fetch_test = refl

fetch_new_certificate-IsFetched_example :
    IsFetched crates toml
      (network response (print issued))
      (direct (text "key"))
      options
      true
      now
      servers
      (settings servers)
      (fetch_new_certificate crates toml
        (network response (print issued))
        (direct (text "key"))
        options
        true
        now
        (settings servers)).1
      issued
fetch_new_certificate-IsFetched_example =
    fetch_new_certificate-IsFetched crates toml (network response (print issued))
      (direct (text "key")) options true now (settings servers) issued
      (ap (λ (x : (Run RusticaAgentLibraryError ToyCertificate × ℕ) × Settings). x.0.0) fetch_test)

refused_test :
    (refresh_certificate_async crates
      (network response [])
      (server_at [])
      (direct (text "key"))
      options
      true
      (some 1000)).0
    ≡ err transport_error
unfolding run
refused_test = refl

abbrev credentials : MtlsCredentials
credentials = record { certificate = b'n' ∷ 13 ∷ b'e' ∷ b'w' ∷ []; key = [] }

answered_test :
    (refresh_certificate_async crates
      (network response [])
      (server_at (text "a"))
      (direct (text "key"))
      options
      true
      (some 1000)).0
    ≡ ok (record { cert = []; comment = text "JITC" }, some credentials)
unfolding run
answered_test = refl

-- What the second server calls a certificate is none; the third one is not asked.
fetch_new_certificate-invalid_example :
    ((fetch_new_certificate crates toml
        (network response [])
        (direct (text "key"))
        options
        true
        now
        (settings servers)).0.0
      ≡ err (server_returned_invalid_certificate []))
    × ((fetch_new_certificate crates toml
          (network response [])
          (direct (text "key"))
          options
          true
          now
          (settings servers)).1
        ≡ settings servers)
fetch_new_certificate-invalid_example =
    fetch_new_certificate-invalid crates toml (network response []) (direct (text "key")) options
      true now (server_at [] ∷ []) (server_at (text "a")) (server_at (text "b") ∷ [])
      (settings servers) (record { cert = []; comment = text "JITC" }) (some credentials) refl
      ((transport_error, refused_test), tt) answered_test refl
