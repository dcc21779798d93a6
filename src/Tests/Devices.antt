-- ===== src/Tests/Devices.antt =====
-- Stand-ins for what the agent takes from other crates, and servers that it can call.
use rustica.Common.{ℕ, refl, true, false, Option, none, some, [], ◌∷◌, ◌++◌}
use rustica.Common.Text.{Text, text}
use rustica.Foreign.{user}
use rustica.Server.{unavailable}
use rustica.Server.Challenges.{ChallengeResponse}
use rustica.Server.Certificates.{CertificateResponse}
use rustica.Agent.{AgentCrates, Yubikey, RusticaServer}
use rustica.Agent.Clients.{RusticaClient, answered, refused, Network, CertificateConfig}
use rustica.Agent.Clients.Accepted.{AgentBehaves}
use rustica.Tests.Toy.{toy, parse, print, parse-print}

abbrev pub crates : AgentCrates toy
crates = record {
  private_key_of_bytes = λ b. some b;
  certificate_of_bytes = parse;
  public_key_of_bytes = λ b. some b;
  encode = λ k. k;
  comment = λ k. text "added";
  is_sk = λ k. false;
  sign_data = λ k m. some (k ++ m);
  valid_before = λ c. 2000;
  serialized = print;
  certificate_comment = λ c. none;
  standard_extensions = [];
  with_signature_key = λ k c. record c { signature_key = k };
  tbs_certificate = print;
  add_signature = λ s c. some c;
  sign_certificate = λ sk c. some c;
  SlotId = ℕ;
  slot_of_u8 = λ n. some n;
  retired_slot_of_u8 = λ n. some n;
  cert_type_of = λ s. none;
  show_slot = λ n. text "slot";
}

pub crates-AgentBehaves : AgentBehaves crates
crates-AgentBehaves = record {
  parse-print_key = λ k. refl;
  signature_key-with = λ k c. refl;
  certified_key-with = λ k c. refl;
  key_id-with = λ k c. refl;
  fields-sign = λ sk c d h. (cc, cc, cc);
  fields-add_signature = λ s c d h. (cc, cc, cc);
  parse-print-sign = λ sk c d h. parse-print d;
  parse-print-add_signature = λ s c d h. parse-print d;
}

abbrev pub device : Yubikey crates
device = record {
  reconnect = some tt;
  ssh_cert_fetch_pubkey = λ slot. some (slot ∷ []);
  ssh_cert_signer = λ m slot. some (slot ∷ m);
  generate_csr = λ slot. none;
  fetch_attestation = λ slot. none;
  fetch_intermediate = none;
  unlock = λ pin key. true;
  fetch_subject = λ slot. none;
  provision = λ slot subject touch pin. none;
  get_pin_retries = none;
  attestation_error = text "none";
}

abbrev pub server_at : Text → RusticaServer
server_at address = record {
  address = address;
  ca_pem = text "ca";
  mtls_cert = text "old";
  mtls_key = text "old key";
}

abbrev pub options : CertificateConfig
options = record {
  principals = [];
  hosts = [];
  cert_type = user;
  duration = 10;
  authority = text "main";
}

abbrev reply : Text → CertificateResponse
reply certificate = record {
  certificate = certificate;
  error = [];
  error_code = 0;
  new_client_certificate = b'n' ∷ 13 ∷ b'e' ∷ b'w' ∷ [];
  new_client_key = [];
}

-- It answers every challenge with `challenged`, and every request with `certificate`.
abbrev pub client : ChallengeResponse → Text → RusticaClient
client challenged certificate = record {
  challenge = λ key. answered challenged;
  certificate = λ request. answered (reply certificate);
  register_key = λ request. answered tt;
  register_u2f_key = λ request. answered tt;
  attested_x509_certificate = λ request. refused (unavailable []);
  allowed_signers = answered (text "list");
}

abbrev of_address : ChallengeResponse → Text → Text → Option RusticaClient
of_address challenged certificate [] = none
of_address challenged certificate (_ ∷ _) = some (client challenged certificate)

-- A server without an address cannot be reached.
abbrev pub network : ChallengeResponse → Text → Network
network challenged certificate = record {
  is_uri = λ address. true;
  connect = λ server. of_address challenged certificate server.address;
}
