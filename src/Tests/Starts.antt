-- ===== src/Tests/Starts.antt =====
-- The server starts from a configuration with one authorizer, and with the keys of a Yubikey.
use rustica.Common.{ℕ, ◌≡◌, refl, true, false, none, some, [], ◌∷◌, ◌++◌}
use rustica.Common.Text.{Text, text, eq}
use rustica.Common.Maps.{lookup, insert}
use rustica.Common.Run.{ok, err}
use rustica.Keys.{Bytes}
use rustica.Foreign.{host, Draft}
use rustica.Auth.Mechanism.{AuthorizationMechanism, mechanism_of}
use rustica.Signing.{get_signer_public_key, get_client_certificate_authority}
use rustica.Signing.File
use rustica.Signing.File.{signer}
use rustica.Signing.Setup.{
  check_roles, remember, hash_of, convert_from, convert_to_signing_mechanism,
}
use rustica.Signing.Yubikey
use rustica.Signing.Yubikey.{
  Device, YubikeySigner, ssh_key, keys_of, authority_of, rcgen_certificate_from_yubikey,
  into_signer, sign,
}
use rustica.Signing.Yubikey.Announced.{BySlot, into_signer-BySlot}
use rustica.Signing.Kms
use rustica.Signing.Kms.{
  Kms, AmazonKmsSigner, answered, ecdsa_sha256, ecdsa_sha384, slice_from, ssh_key_from_kms,
  rcgen_certificate_from_kms,
}
use rustica.Server.Configure.{
  validate_only, Configuration, RusticaSettings, Invocation, has_ssh_keys, client_ca, configure,
}
use rustica.Server.Configure.Ready.{IsReady, configure-IsReady}
use rustica.Tests.Toy.{toy, ToyCertificate}
use rustica.Tests.Server.{file_signer, mechanism}

run : Unit {0}
unfolding eq lookup insert mechanism_of get_signer_public_key get_client_certificate_authority
    File.signer check_roles remember hash_of convert_from convert_to_signing_mechanism has_ssh_keys
    client_ca configure ssh_key keys_of authority_of rcgen_certificate_from_yubikey into_signer sign
    Yubikey.get_signer_public_key slice_from ssh_key_from_kms rcgen_certificate_from_kms Kms.keys_of
    Kms.authority_of Kms.into_signer Kms.sign
run = tt

abbrev configuration : Bytes → Configuration toy (Unit {0})
configuration path = record {
  server_cert = text "cert";
  server_key = text "cert key";
  client_authority = record {
    authority = text "main";
    validity_length = 86400;
    expiration_renewal_period = 3600;
  };
  listen_address = text "10.0.0.1:50052";
  authorization = record { database = some (record { path = path }); external = none };
  signing = record {
    default_authority = text "main";
    authorities = (text "main", ok (signer toy file_signer)) ∷ [];
  };
  require_rustica_proof = true;
  require_attestation_chain = false;
  logging = tt;
  allowed_signers = record { cache_validity_length = 60; rate_limit_cooldown = 5 };
}

abbrev invocation : ℕ → Invocation toy (Unit {0})
invocation validate = record {
  file = some (text "db");
  toml = λ s. some (configuration s);
  validate = validate;
  parse_address = λ a. some a;
  generated_hmac_key = some (text "k");
  generated_challenge_key = some (text "S");
  pem_error = [];
}

abbrev settings : RusticaSettings toy (Unit {0})
settings = record {
  server = record {
    hmac_key = text "k";
    challenge_key = text "S";
    signer = mechanism;
    require_rustica_proof = true;
    require_attestation_chain = false;
    client_authority = record {
      authority = text "main";
      validity_length = 86400;
      expiration_renewal_period = 3600;
    };
  };
  authorizer = AuthorizationMechanism.local (record { path = text "db" });
  allowed_signers = record { cache_validity_length = 60; rate_limit_cooldown = 5 };
  allowed_signers_cache = record { compressed_allowed_signers = []; expiry_timestamp = 0 };
  client_ca_cert = text "C";
  server_cert = text "cert";
  server_key = text "cert key";
  address = text "10.0.0.1:50052";
  logging_configuration = tt;
}

configure_test : configure toy (Unit {0}) (invocation 0) ≡ ok settings
unfolding run
configure_test = refl

validate_tests :
    (configure toy (Unit {0}) (invocation 1) ≡ err validate_only)
    × (configure toy (Unit {0}) (invocation 2) ≡ err validate_only)
unfolding run
validate_tests = (refl, refl)

configure-IsReady_example : IsReady toy (Unit {0}) (invocation 0) settings
configure-IsReady_example = configure-IsReady toy (Unit {0}) (invocation 0) settings configure_test

-- The key of a slot is its number, and its signature is that and the text of the certificate.
abbrev yubikey : Device toy
yubikey = record {
  SlotId = ℕ;
  show_slot = λ slot. slot ∷ [];
  connected = some tt;
  serial = 7;
  ssh_cert_fetch_pubkey = λ slot. some (slot ∷ []);
  ssh_cert_signer = λ tbs slot. some (slot ∷ tbs);
  tbs_certificate = λ d. d.key_id;
  add_signature =
      λ signature d. some (record { key_id = d.key_id; key = d.key; signature_key = signature });
  remote_key_pair = λ serial slot. some (slot ∷ []);
  ca_from_remote = λ name kp. some name;
}

abbrev draft : Draft Text
draft = record {
  key = text "key";
  cert_type = host;
  ca_key = 131 ∷ [];
  serial = 1;
  key_id = text "id";
  principals = [];
  valid_after = 0;
  valid_before = 10;
  critical_options = [];
  extensions = [];
}

abbrev slots : Yubikey.Config toy yubikey
slots = record {
  user_slot = some 130;
  host_slot = some 131;
  x509_slot = none;
  client_certificate_authority_slot = some 132;
  client_certificate_authority_common_name = some (text "C");
}

abbrev yubikey_signer : YubikeySigner toy yubikey
yubikey_signer = record {
  ssh_keys = some (record {
    user_key = record { slot = 130; public_key = 130 ∷ [] };
    host_key = record { slot = 131; public_key = 131 ∷ [] };
  });
  x509_certificate = none;
  client_certificate_authority = some (text "C");
}

abbrev signed : ToyCertificate
signed = record { key_id = text "id"; key = text "key"; signature_key = 131 ∷ text "id" }

into_signer_test : into_signer toy yubikey slots ≡ ok yubikey_signer
unfolding run
into_signer_test = refl

sign_test : sign toy yubikey yubikey_signer draft ≡ ok signed
unfolding run
sign_test = refl

into_signer-BySlot_example :
    (key : Text) × (Yubikey.get_signer_public_key toy yubikey yubikey_signer host ≡ some key)
    × BySlot toy yubikey key draft signed
into_signer-BySlot_example =
    into_signer-BySlot toy yubikey slots yubikey_signer draft signed into_signer_test sign_test

-- A service whose keys are their names, all of the curve P-384.
abbrev service : Kms toy
service = record {
  get_public_key = λ key_id. answered (some (text "thirty-one bytes before it all:" ++ key_id));
  kms_sign = λ key_id spec m. answered (some (key_id ++ m));
  spec_of = λ s. ecdsa_sha384;
  der_encoding_to_ssh_public_key = λ der. some der;
  format_signature_for_ssh = λ key signature. some signature;
  tbs_certificate = λ d. d.key_id;
  add_signature =
      λ signature d. some (record { key_id = d.key_id; key = d.key; signature_key = signature });
  from_remote = λ key key_id spec. some key;
}

abbrev named : Text → Kms.KmsKeyDefinition
named id = record { id = id; algorithm = text "ECDSA_SHA_384"; common_name = none }

abbrev kms_config : Kms.Config toy service
kms_config = record {
  user_key = some (named (text "u"));
  host_key = some (named (text "h"));
  x509_key = none;
  client_certificate_authority_key = some (named (text "c"));
}

abbrev kms_key : Text → Kms.SshKmsKey toy service
kms_key id = record {
  public_key = text "thirty-one bytes before it all:" ++ id;
  key_id = id;
  key_signing_algorithm = ecdsa_sha384;
}

abbrev kms_signer : AmazonKmsSigner toy service
kms_signer = record {
  ssh_keys = some (record { user_key = kms_key (text "u"); host_key = kms_key (text "h") });
  x509_certificate = none;
  client_certificate_authority = some (text "RusticaAccess");
}

kms_tests :
    (Kms.into_signer toy service kms_config ≡ ok kms_signer)
    × (Kms.sign toy service kms_signer draft
        ≡ ok (record { key_id = text "id"; key = text "key"; signature_key = text "hid" }))
unfolding run
kms_tests = (refl, refl)
