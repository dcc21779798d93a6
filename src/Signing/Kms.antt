-- ===== src/Signing/Kms.antt =====
-- rustica/src/signing/amazon_kms.rs: the signer whose keys are held by Amazon KMS. The service is a
-- parameter; the credentials and the timeouts of its client are left out.
pub mod Announced
use rustica.Common.{ℕ, zero, suc, Option, none, some, List, [], ◌∷◌, ◌++◌}
use rustica.Common.Text.{Text, text}
use rustica.Common.Run.{Run, ok, err, panic, ok_or, unwrap, ◌>>=◌, ◌>>◌}
use rustica.Keys.{Bytes}
use rustica.Foreign.{Foreign, CertType, user, host, Draft, Algorithm, p256, p384}
use rustica.Signing.{
  SigningError, access_error, signing_failure, parsing_error, signer_does_not_have_ssh_keys,
  signer_does_not_all_required_ssh_keys, Signer,
}

-- `aws_sdk_kms::types::SigningAlgorithmSpec`
pub data SigningAlgorithmSpec : Type 0 where
  ecdsa_sha256 ecdsa_sha384 : SigningAlgorithmSpec
  other : Text → SigningAlgorithmSpec
  unknown : Text → SigningAlgorithmSpec

pub record KmsKeyDefinition : Type 0 where
  pub id : Text
  pub algorithm : Text
  pub common_name : Option Text

-- `bytes[n..]`
unfoldable pub slice_from : ℕ → Bytes → Run SigningError Bytes
slice_from zero bytes = ok bytes
slice_from (suc n) [] = panic
slice_from (suc n) (b ∷ bytes) = slice_from n bytes

-- `Err` with the text of the error, and no value in an answer
pub data KmsAnswer : Type 0 where
  failed : Text → KmsAnswer
  answered : Option Bytes → KmsAnswer

-- An answer with a value, or an access error with one of two texts.
abbrev pub value_of : (Text → Text) → Text → KmsAnswer → Run SigningError Bytes
value_of failure missing (failed e) = err (access_error (failure e))
value_of failure missing (answered none) = err (access_error missing)
value_of failure missing (answered (some value)) = ok value

module _ (f : Foreign) where
  open f use {PublicKey, Certificate, CaCertificate, KeyPair}

  pub record Kms : Type 0 where
    pub get_public_key : Text → KmsAnswer
    pub kms_sign : Text → SigningAlgorithmSpec → Bytes → KmsAnswer
    pub spec_of : Text → SigningAlgorithmSpec
    pub der_encoding_to_ssh_public_key : Bytes → Option PublicKey
    pub format_signature_for_ssh : PublicKey → Bytes → Option Bytes
    pub tbs_certificate : Draft PublicKey → Bytes
    pub add_signature : Bytes → Draft PublicKey → Option Certificate
    -- a key pair that rcgen signs with, from its public key, its name and its algorithm
    pub from_remote : Bytes → Text → SigningAlgorithmSpec → Option KeyPair

  module _ (kms : Kms) where
    open kms use {get_public_key, kms_sign, spec_of}

    pub record Config : Type 0 where
      pub user_key : Option KmsKeyDefinition
      pub host_key : Option KmsKeyDefinition
      pub x509_key : Option KmsKeyDefinition
      pub client_certificate_authority_key : Option KmsKeyDefinition

    pub record SshKmsKey : Type 0 where
      pub public_key : PublicKey
      pub key_id : Text
      pub key_signing_algorithm : SigningAlgorithmSpec

    pub record SshKeys : Type 0 where
      pub user_key : SshKmsKey
      pub host_key : SshKmsKey

    pub record AmazonKmsSigner : Type 0 where
      pub ssh_keys : Option SshKeys
      pub x509_certificate : Option CaCertificate
      pub client_certificate_authority : Option CaCertificate

    abbrev known : SigningAlgorithmSpec → Run SigningError (Unit {0})
    known (unknown _) = err (access_error (text "Unknown algorithm for user key"))
    known ecdsa_sha256 = ok tt
    known ecdsa_sha384 = ok tt
    known (other _) = ok tt

    unfoldable pub ssh_key_from_kms : Text → Text → Run SigningError SshKmsKey
    ssh_key_from_kms key_id key_alg = do
      der ←
          value_of (λ e. text "Could not access key " ++ key_id)
            (text "Could not access key_id " ++ key_id) (get_public_key key_id)
      public_key ←
          ok_or (access_error (text "Key is not of a Rustica compatible type " ++ key_id))
            (kms.der_encoding_to_ssh_public_key der)
      known (spec_of key_alg)
      ok (record {
        public_key = public_key;
        key_id = key_id;
        key_signing_algorithm = spec_of key_alg;
      })

    -- The algorithm for rcgen, and the public key without the head of its encoding.
    abbrev raw_key : Text → SigningAlgorithmSpec → Bytes → Run SigningError (Algorithm × Bytes)
    raw_key key_id ecdsa_sha256 der = slice_from 25 der >>= λ key. ok (p256, key)
    raw_key key_id ecdsa_sha384 der = slice_from 23 der >>= λ key. ok (p384, key)
    raw_key key_id (other _) der =
        err (access_error (text "Unsupported algorithm for key " ++ key_id))
    raw_key key_id (unknown _) der =
        err (access_error (text "Unsupported algorithm for key " ++ key_id))

    unfoldable pub rcgen_certificate_from_kms : Text → Text → Text → Run SigningError CaCertificate
    rcgen_certificate_from_kms common_name key_id key_alg = do
      der ←
          value_of (λ e. text "Could not access key " ++ key_id)
            (text "One or more keys were not returned correctly or at all") (get_public_key key_id)
      (alg, public_key) ← raw_key key_id (spec_of key_alg) der
      kp ←
          ok_or (access_error (text "Could not create remote signer for key " ++ key_id))
            (kms.from_remote public_key key_id (spec_of key_alg))
      ok_or (access_error (text "Could not create certificate for key " ++ key_id))
          (f.ca_from_params common_name alg kp)

    unfoldable pub keys_of :
        Option KmsKeyDefinition → Option KmsKeyDefinition → Run SigningError (Option SshKeys)
    keys_of (some user_key) (some host_key) = do
      u ← ssh_key_from_kms user_key.id user_key.algorithm
      h ← ssh_key_from_kms host_key.id host_key.algorithm
      ok (some (record { user_key = u; host_key = h }))
    keys_of none none = ok none
    keys_of (some _) none = err signer_does_not_all_required_ssh_keys
    keys_of none (some _) = err signer_does_not_all_required_ssh_keys

    unfoldable pub authority_of :
        Text → Option KmsKeyDefinition → Run SigningError (Option CaCertificate)
    authority_of common_name none = ok none
    authority_of common_name (some key) =
        rcgen_certificate_from_kms common_name key.id key.algorithm >>= λ ca. ok (some ca)

    abbrev client_name : Option KmsKeyDefinition → Text
    client_name none = []
    client_name (some key) = elim key.common_name [ none ↦ text "RusticaAccess" | some name ↦ name ]

    unfoldable pub into_signer : Config → Run SigningError AmazonKmsSigner
    into_signer c = do
      keys ← keys_of c.user_key c.host_key
      x509 ← authority_of (text "Rustica") c.x509_key
      client ←
          authority_of (client_name c.client_certificate_authority_key)
            c.client_certificate_authority_key
      ok (record {
        ssh_keys = keys;
        x509_certificate = x509;
        client_certificate_authority = client;
      })

    abbrev pub key_for : CertType → SshKeys → SshKmsKey
    key_for user keys = keys.user_key
    key_for host keys = keys.host_key

    -- `impl Signer for AmazonKMSSigner`
    unfoldable pub sign : AmazonKmsSigner → Draft PublicKey → Run SigningError Certificate
    sign s cert = do
      keys ← ok_or signer_does_not_have_ssh_keys s.ssh_keys
      let key = key_for cert.cert_type keys
      raw ←
          value_of (λ e. e) (text "No signature returned")
            (kms_sign key.key_id key.key_signing_algorithm (kms.tbs_certificate cert))
      signature ← ok_or parsing_error (kms.format_signature_for_ssh key.public_key raw)
      ok_or signing_failure (kms.add_signature signature cert)

    unfoldable pub get_signer_public_key : AmazonKmsSigner → CertType → Option PublicKey
    get_signer_public_key s cert_type = elim s.ssh_keys [
      | none ↦ none
      | some keys ↦ some (key_for cert_type keys).public_key
    ]

    unfoldable pub signer : AmazonKmsSigner → Signer f
    signer s = record {
      sign = sign s;
      get_signer_public_key = get_signer_public_key s;
      get_attested_x509_certificate_authority = s.x509_certificate;
      get_client_certificate_authority = s.client_certificate_authority;
    }
