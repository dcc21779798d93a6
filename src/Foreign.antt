-- ===== src/Foreign.antt =====
-- What the server takes from other crates: sshcerts (keys and certificates), ring (HMAC), hex, base64,
-- x509_parser and rcgen. Each is a parameter of the development.
use Prim.Native.Nat.{ℕ}
use rustica.Common.{◌≡◌, Bool, true, Option, some, List}
use rustica.Common.Text.{Text}
use rustica.Common.Words.{ℤ}
use rustica.Common.Maps.{Map}
use rustica.Keys.{Bytes}

-- `sshcerts::ssh::CertType`
pub data CertType : Type 0 where
  user host : CertType

-- `rcgen::PKCS_ECDSA_P256_SHA256` and `rcgen::PKCS_ECDSA_P384_SHA384`
pub data Algorithm : Type 0 where
  p256 p384 : Algorithm

-- What the source hands to `sshcerts::Certificate::builder` and its setters.
pub record Draft (PublicKey : Type 0) : Type 0 where
  pub key : PublicKey
  pub cert_type : CertType
  pub ca_key : PublicKey
  pub serial : ℕ
  pub key_id : Text
  pub principals : List Text
  pub valid_after : ℕ
  pub valid_before : ℕ
  pub critical_options : Map Text
  pub extensions : Map Text

-- What the source sets in the `rcgen::CertificateParams` of a renewed client certificate.
pub record ClientParameters : Type 0 where
  pub subject_alt_names : List Text
  pub not_before : ℕ
  pub not_after : ℕ
  pub common_name : Text

-- `rcgen::CustomExtension`: the components of its OID and its content
pub record CustomExtension : Type 0 where
  pub oid_components : List ℕ
  pub content : Bytes

-- What the source sets in the parameters of a signing request for an attested certificate; it also
-- makes it no CA, for digital signatures alone, with no name constraint.
pub record AttestedParameters : Type 0 where
  pub rfc822_name : Text
  pub serial_number : ℤ
  pub custom_extensions : List CustomExtension
  pub organization_name : Text
  pub common_name : Text
  pub not_before : ℕ
  pub not_after : ℕ

-- `yubikey::verification::verify_certificate_chain`: what the chain of a PIV slot attests
pub record PivData (PublicKey : Type 0) : Type 0 where
  pub public_key : PublicKey
  pub pin_policy : ℕ
  pub touch_policy : ℕ
  pub serial : ℕ
  pub firmware : Text

-- `fido::verification::verify_auth_data`: what the data of a FIDO key attests
pub record U2fData (AuthData : Type 0) : Type 0 where
  pub auth_data : AuthData
  pub firmware : Option Text

pub record Foreign : Type 1 where
  -- sshcerts
  pub PublicKey : Type 0
  pub PrivateKey : Type 0
  pub Certificate : Type 0
  pub public_key_of_string : Text → Option PublicKey
  pub public_key_to_string : PublicKey → Text
  pub fingerprint : PublicKey → Text
  pub pubkey : PrivateKey → PublicKey
  pub certificate_of_string : Text → Option Certificate
  pub certificate_to_string : Certificate → Text
  pub key_id : Certificate → Text
  pub certified_key : Certificate → PublicKey
  pub signature_key : Certificate → PublicKey
  pub show_cert_type : CertType → Text
  -- whether `Certificate::builder` takes the key, the type and the CA's key
  pub builder_takes : PublicKey → CertType → PublicKey → Bool
  pub sign_draft : PrivateKey → Draft PublicKey → Option Certificate
  pub verify_certificate_chain : Bytes → Bytes → Option (PivData PublicKey)
  pub AuthData : Type 0
  pub verify_auth_data : Bytes → Bytes → Bytes → ℤ → Bytes → Option (U2fData AuthData)
  pub ssh_public_key : AuthData → Text → Option PublicKey
  pub aaguid : AuthData → Bytes
  -- what the errors of `Certificate::from_string` say
  pub certificate_error : Text → Text
  -- ring
  pub sha256 : Bytes → Bytes
  pub HmacKey : Type 0
  pub hmac_sign : HmacKey → Text → Bytes
  pub hmac_verify : HmacKey → Text → Bytes → Bool
  -- hex
  pub hex_encode : Bytes → Text
  pub hex_decode : Text → Option Bytes
  pub base64_decode : Text → Option Bytes
  -- x509_parser
  pub X509 : Type 0
  pub Attribute : Type 0
  pub parse_x509_certificate : Bytes → Option X509
  pub not_after : X509 → ℤ
  pub subject_rdns : X509 → List (List Attribute)
  pub attr_type : Attribute → List ℕ
  pub attr_str : Attribute → Option Text
  pub subject_pki : X509 → Bytes
  -- what its errors say of bytes that are no certificate
  pub x509_error : Bytes → Text
  -- rcgen
  pub CaCertificate : Type 0
  pub from_params : ClientParameters → Option CaCertificate
  pub serialize_private_key_pem : CaCertificate → Text
  pub serialize_pem : CaCertificate → Option Text
  pub serialize_pem_with_signer : CaCertificate → CaCertificate → Option Text
  pub KeyPair : Type 0
  pub key_pair_from_der : Bytes → Option KeyPair
  -- an unconstrained authority with this common name
  pub ca_from_params : Text → Algorithm → KeyPair → Option CaCertificate
  pub Csr : Type 0
  pub csr_from_der : Bytes → Option Csr
  pub csr_error : Bytes → Text
  pub serialize_der_with_signer : Csr → AttestedParameters → CaCertificate → Option Bytes

-- Documented behaviour that the correctness of the challenge rests on.
pub record Behaves (f : Foreign) : Type 0 where
  pub verify-sign : (k : f.HmacKey) (m : Text) → f.hmac_verify k m (f.hmac_sign k m) ≡ true
  pub decode-encode : (b : Bytes) → f.hex_decode (f.hex_encode b) ≡ some b
  -- a certificate that was signed is read back from its text; reading verifies the signature
  pub parse-print :
      (sk : f.PrivateKey) (d : Draft f.PublicKey) (c : f.Certificate)
      → f.sign_draft sk d ≡ some c
      → f.certificate_of_string (f.certificate_to_string c) ≡ some c
  pub key_id-sign :
      (sk : f.PrivateKey) (d : Draft f.PublicKey) (c : f.Certificate)
      → f.sign_draft sk d ≡ some c
      → f.key_id c ≡ d.key_id
  pub signature_key-sign :
      (sk : f.PrivateKey) (d : Draft f.PublicKey) (c : f.Certificate)
      → f.sign_draft sk d ≡ some c
      → f.signature_key c ≡ f.pubkey sk
