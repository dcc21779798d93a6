-- ===== src/Signing/File.antt =====
-- rustica/src/signing/file.rs: the signer whose keys stand in the configuration.
use rustica.Common.{Option, none, some, if◌then◌else◌}
use rustica.Common.Text.{Text, text, eq}
use rustica.Common.Run.{Run, ok, err, ok_or, ◌>>=◌}
use rustica.Foreign.{Foreign, CertType, user, host, Draft, p256, p384}
use rustica.Signing.{SigningError, signing_failure, parsing_error, Signer}
use rustica.Signing.{signer_does_not_have_ssh_keys, signer_does_not_all_required_ssh_keys}

module _ (f : Foreign) where
  open f use {
    PublicKey, PrivateKey, Certificate, CaCertificate, pubkey, sign_draft, KeyPair, base64_decode,
    key_pair_from_der, ca_from_params,
  }

  pub record Config : Type 0 where
    pub user_key : Option PrivateKey
    pub host_key : Option PrivateKey
    pub x509_private_key : Option Text
    pub x509_private_key_algorithm : Option Text
    pub client_certificate_authority_private_key : Option Text
    pub client_certificate_authority_private_key_algorithm : Option Text
    pub client_certificate_authority_common_name : Option Text

  pub record SshKeys : Type 0 where
    pub user_key : PrivateKey
    pub host_key : PrivateKey

  pub record FileSigner : Type 0 where
    pub ssh_keys : Option SshKeys
    pub x509_certificate : Option CaCertificate
    pub client_certificate_authority : Option CaCertificate

  abbrev key_for : CertType → SshKeys → PrivateKey
  key_for user keys = keys.user_key
  key_for host keys = keys.host_key

  -- `impl Signer for FileSigner`
  unfoldable pub sign : FileSigner → Draft PublicKey → Run SigningError Certificate
  sign s cert = do
    keys ← ok_or signer_does_not_have_ssh_keys s.ssh_keys
    ok_or signing_failure (sign_draft (key_for cert.cert_type keys) cert)

  unfoldable pub get_signer_public_key : FileSigner → CertType → Option PublicKey
  get_signer_public_key s cert_type = elim s.ssh_keys [
    | none ↦ none
    | some keys ↦ some (pubkey (key_for cert_type keys))
  ]

  unfoldable pub signer : FileSigner → Signer f
  unfolding sign get_signer_public_key
  signer s = record {
    sign = sign s;
    get_signer_public_key = get_signer_public_key s;
    get_attested_x509_certificate_authority = s.x509_certificate;
    get_client_certificate_authority = s.client_certificate_authority;
  }

  -- The decoded key is read before the algorithm is looked at.
  unfoldable pub rcgen_certificate_from_private_key :
      Text → Text → Text → Run SigningError CaCertificate
  rcgen_certificate_from_private_key common_name private_key alg = do
    key_bytes ← ok_or parsing_error (base64_decode private_key)
    kp ← ok_or parsing_error (key_pair_from_der key_bytes)
    algorithm ←
        (if eq alg (text "p256")
          then ok p256
          else if eq alg (text "p384")
          then ok p384
          else err parsing_error)
    ok_or signing_failure (ca_from_params common_name algorithm kp)

  -- A key, its algorithm and a name make an authority; if any of them is missing there is none.
  authority_of : Option Text → Option Text → Option Text → Run SigningError (Option CaCertificate)
  authority_of (some common_name) (some private_key) (some alg) =
      rcgen_certificate_from_private_key common_name private_key alg >>= λ ca. ok (some ca)
  authority_of _ _ _ = ok none

  keys_of : Option PrivateKey → Option PrivateKey → Run SigningError (Option SshKeys)
  keys_of (some u) (some h) = ok (some (record { user_key = u; host_key = h }))
  keys_of none none = ok none
  keys_of _ _ = err signer_does_not_all_required_ssh_keys

  unfoldable pub into_signer : Config → Run SigningError FileSigner
  unfolding authority_of keys_of rcgen_certificate_from_private_key
  into_signer c = do
    x509 ← authority_of (some (text "Rustica")) c.x509_private_key c.x509_private_key_algorithm
    client ←
        authority_of c.client_certificate_authority_common_name
          c.client_certificate_authority_private_key
          c.client_certificate_authority_private_key_algorithm
    keys ← keys_of c.user_key c.host_key
    ok (record { ssh_keys = keys; x509_certificate = x509; client_certificate_authority = client })
