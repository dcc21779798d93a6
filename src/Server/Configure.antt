-- ===== src/Server/Configure.antt =====
-- rustica/src/config/mod.rs: what the server starts with, and the checks before it.
pub mod Ready
use rustica.Common.{ℕ, ◌++◌, ◌==◌, Bool, true, false, Option, none, some, List, [], ◌∷◌}
use rustica.Common.{ltb, if◌then◌else◌}
use rustica.Common.Text.{Text, text, join}
use rustica.Common.Maps.{Map}
use rustica.Common.Run.{Run, ok, err, panic, ok_or, unwrap, ◌>>=◌, ◌>>◌}
use rustica.Keys.{Bytes}
use rustica.Foreign.{Foreign, user}
use rustica.Auth.Mechanism.{AuthorizationConfiguration, AuthorizationMechanism, mechanism_of}
use rustica.Signing
use rustica.Signing.{
  SigningError, access_error, Signer, SigningMechanism, get_signer_public_key,
  get_client_certificate_authority, get_authorities,
}
use rustica.Signing.Setup.{convert_to_signing_mechanism}
use rustica.Server.{ClientAuthorityConfiguration, RusticaServer}
use rustica.Server.AllowedSigners.{AllowedSignersConfiguration, AllowedSignersCache}

pub data ConfigurationError : Type 0 where
  file_error parsing_error ssh_key_error invalid_listen_address authorizer_error :
      ConfigurationError
  validate_only default_authority_does_not_have_ssh_keys : ConfigurationError
  signing_mechanism_error : SigningError → ConfigurationError
  no_such_signing_mechanism_for_client_ca : Text → List Text → ConfigurationError

-- `Display`
abbrev show : ConfigurationError → Text
show file_error = text "Could not read configuration file"
show parsing_error = text "Could not parse the configuration file"
show ssh_key_error = text "Could not parse the provided SSH keys file"
show invalid_listen_address = text "Invalid address and/or port to listen on"
show authorizer_error = text "Configuration for authorization was invalid"
show (signing_mechanism_error e) = Signing.show e
show validate_only = text "Configuration was validated"
show default_authority_does_not_have_ssh_keys = text "The default authority must provide SSH keys"
show (no_such_signing_mechanism_for_client_ca chosen options) =
    text "The requested signing mechanism to issue client certificates ("
    ++ (chosen ++ (text ") is not configured. Options are: " ++ join (text ", ") options))

-- An error of signing is one of the configuration.
abbrev pub or_signing : {A : Type 0} → Run SigningError A → Run ConfigurationError A
or_signing (ok a) = ok a
or_signing (err e) = err (signing_mechanism_error e)
or_signing panic = panic

-- `Logging`: the configuration of the log
module _ (f : Foreign) (Logging : Type 0) where
  open f use {HmacKey, PrivateKey, CaCertificate, serialize_pem}

  -- Of each authority, what its `into_signer` comes to.
  pub record SigningConfiguration : Type 0 where
    pub default_authority : Text
    pub authorities : List (Text × Run SigningError (Signer f))

  pub record Configuration : Type 0 where
    pub server_cert : Text
    pub server_key : Text
    pub client_authority : ClientAuthorityConfiguration
    pub listen_address : Text
    pub authorization : AuthorizationConfiguration
    pub signing : SigningConfiguration
    pub require_rustica_proof : Bool
    pub require_attestation_chain : Bool
    pub logging : Logging
    pub allowed_signers : AllowedSignersConfiguration

  -- The shared cells of the server are fields of their own.
  pub record RusticaSettings : Type 0 where
    pub server : RusticaServer f
    pub authorizer : AuthorizationMechanism
    pub allowed_signers : AllowedSignersConfiguration
    pub allowed_signers_cache : AllowedSignersCache
    pub client_ca_cert : Text
    pub server_cert : Text
    pub server_key : Text
    pub address : Text
    pub logging_configuration : Logging

  -- What configure finds: the bytes of the file, toml, how often validation was asked for, the parsing
  -- of an address to its text, and what the generators of keys return.
  pub record Invocation : Type 0 where
    pub file : Option Bytes
    pub toml : Bytes → Option Configuration
    pub validate : ℕ
    pub parse_address : Text → Option Text
    pub generated_hmac_key : Option HmacKey
    pub generated_challenge_key : Option PrivateKey
    -- what the error of `serialize_pem` says
    pub pem_error : Text

  unfoldable pub has_ssh_keys : SigningMechanism f → Run ConfigurationError (Unit {0})
  has_ssh_keys m = elim (get_signer_public_key f m m.default_authority user) [
    | ok _ ↦ ok tt
    | err _ ↦ err default_authority_does_not_have_ssh_keys
    | panic ↦ panic
  ]

  unfoldable pub client_ca : SigningMechanism f → Text → Text → Run ConfigurationError Text
  client_ca m authority pem_error = do
    found ← or_signing (get_client_certificate_authority f m authority)
    ca ← ok_or (no_such_signing_mechanism_for_client_ca authority (get_authorities f m)) found
    ok_or
        (signing_mechanism_error (
          access_error
            (text "Could not create a PEM from the requested signing system: " ++ pem_error)))
        (serialize_pem ca)

  unfoldable pub configure : Invocation → Run ConfigurationError RusticaSettings
  configure i = do
    file ← ok_or file_error i.file
    config ← ok_or parsing_error (i.toml file)
    (if i.validate == 1 then err validate_only else ok tt)
    address ← ok_or invalid_listen_address (i.parse_address config.listen_address)
    authorizer ← ok_or authorizer_error (mechanism_of config.authorization)
    mechanism ←
        or_signing (
          convert_to_signing_mechanism f config.signing.default_authority
            config.signing.authorities)
    has_ssh_keys mechanism
    hmac_key ← unwrap i.generated_hmac_key
    challenge_key ← unwrap i.generated_challenge_key
    client_ca_cert ← client_ca mechanism config.client_authority.authority i.pem_error
    (if ltb 1 i.validate then err validate_only else ok tt)
    ok (record {
      server = record {
        hmac_key = hmac_key;
        challenge_key = challenge_key;
        signer = mechanism;
        require_rustica_proof = config.require_rustica_proof;
        require_attestation_chain = config.require_attestation_chain;
        client_authority = config.client_authority;
      };
      authorizer = authorizer;
      allowed_signers = config.allowed_signers;
      allowed_signers_cache = record { compressed_allowed_signers = []; expiry_timestamp = 0 };
      client_ca_cert = client_ca_cert;
      server_cert = config.server_cert;
      server_key = config.server_key;
      address = address;
      logging_configuration = config.logging;
    })
