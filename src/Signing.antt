-- ===== src/Signing.antt =====
-- rustica/src/signing/mod.rs: the signers of an instance, by the name of their authority.
pub mod File
pub mod Setup
pub mod Yubikey
pub mod Kms
use rustica.Common.{◌++◌, Option, List, [], ◌∷◌}
use rustica.Common.Text.{Text, text}
use rustica.Common.Maps.{Map, lookup}
use rustica.Common.Run.{Run, ok, ok_or, ◌>>=◌}
use rustica.Foreign.{Foreign, CertType, Draft}

pub data SigningError : Type 0 where
  access_error unknown_authority identical_user_and_host_key : Text → SigningError
  signing_failure parsing_error signer_does_not_have_ssh_keys : SigningError
  signer_does_not_all_required_ssh_keys : SigningError
  duplicated_key : Text → Text → SigningError

-- `Display`
pub show : SigningError → Text
show (access_error e) = text "Could not access the private key material: " ++ e
show signing_failure = text "The signing operation on the provided certificate failed"
show parsing_error = text "The signature could not be parsed"
show (unknown_authority authority) =
    text "Unknown authority was requested for a signing operation: " ++ authority
show (duplicated_key a1 a2) =
    text "Authorities "
    ++ a1
    ++ text " and "
    ++ a2
    ++ text " share at least one key. This is not allowed as it almost always a misconfiguration "
    ++ text "leading to access that is not correctly restricted"
show (identical_user_and_host_key authority) =
    text "Authority "
    ++ authority
    ++ text " has an identical key for both user and host certificates. This is not allowed as "
    ++ text "it's much safer to use separate keys for both."
show signer_does_not_have_ssh_keys =
    text "Signer was not configured with SSH keys so it cannot create an SSH certificate"
show signer_does_not_all_required_ssh_keys =
    text "Signer did not have both user and host keys defined"

module _ (f : Foreign) where
  open f use {PublicKey, Certificate, CaCertificate}

  -- the trait `Signer`
  pub record Signer : Type 0 where
    pub sign : Draft PublicKey → Run SigningError Certificate
    pub get_signer_public_key : CertType → Option PublicKey
    pub get_attested_x509_certificate_authority : Option CaCertificate
    pub get_client_certificate_authority : Option CaCertificate

  pub record SigningMechanism : Type 0 where
    pub default_authority : Text
    pub authorities : Map Signer

  abbrev pub signer_of : SigningMechanism → Text → Run SigningError Signer
  signer_of m authority = ok_or (unknown_authority authority) (lookup authority m.authorities)

  -- the methods of `SigningMechanism`
  unfoldable pub sign : SigningMechanism → Text → Draft PublicKey → Run SigningError Certificate
  sign m authority cert = signer_of m authority >>= λ s. s.sign cert

  unfoldable pub get_signer_public_key :
      SigningMechanism → Text → CertType → Run SigningError PublicKey
  get_signer_public_key m authority cert_type = signer_of m authority >>= λ s.
      ok_or signer_does_not_have_ssh_keys (s.get_signer_public_key cert_type)

  unfoldable pub get_attested_x509_certificate_authority :
      SigningMechanism → Text → Run SigningError (Option CaCertificate)
  get_attested_x509_certificate_authority m authority =
      signer_of m authority >>= λ s. ok s.get_attested_x509_certificate_authority

  unfoldable pub get_client_certificate_authority :
      SigningMechanism → Text → Run SigningError (Option CaCertificate)
  get_client_certificate_authority m authority =
      signer_of m authority >>= λ s. ok s.get_client_certificate_authority

  abbrev names : Map Signer → List Text
  names [] = []
  names ((name, _) ∷ rest) = name ∷ names rest

  pub get_authorities : SigningMechanism → List Text
  get_authorities m = names m.authorities
