-- ===== src/Signing/Yubikey.antt =====
-- rustica/src/signing/yubikey.rs: the signer whose keys are in the slots of a Yubikey. Its mutex is
-- never poisoned.
pub mod Announced
use rustica.Common.{ℕ, Option, none, some, ◌++◌}
use rustica.Common.Text.{Text, text}
use rustica.Common.Run.{Run, ok, err, panic, ok_or, unwrap, ◌>>=◌, ◌>>◌}
use rustica.Keys.{Bytes}
use rustica.Foreign.{Foreign, CertType, user, host, Draft}
use rustica.Signing.{
  SigningError, access_error, signing_failure, signer_does_not_have_ssh_keys,
  signer_does_not_all_required_ssh_keys, Signer,
}

module _ (f : Foreign) where
  open f use {PublicKey, Certificate, CaCertificate, KeyPair}

  -- The Yubikey, what sshcerts makes of a certificate that is not signed yet, and the keys of slots
  -- that rcgen signs with.
  pub record Device : Type 1 where
    pub SlotId : Type 0
    pub show_slot : SlotId → Text
    -- `Yubikey::new()`: whether one is connected
    pub connected : Option (Unit {0})
    pub serial : ℕ
    pub ssh_cert_fetch_pubkey : SlotId → Option PublicKey
    pub ssh_cert_signer : Bytes → SlotId → Option Bytes
    pub tbs_certificate : Draft PublicKey → Bytes
    pub add_signature : Bytes → Draft PublicKey → Option Certificate
    pub remote_key_pair : ℕ → SlotId → Option KeyPair
    -- an unconstrained authority with this common name
    pub ca_from_remote : Text → KeyPair → Option CaCertificate

  module _ (yk : Device) where
    open yk use {SlotId, show_slot, connected, serial, ssh_cert_fetch_pubkey, ssh_cert_signer}

    pub record Config : Type 0 where
      pub user_slot : Option SlotId
      pub host_slot : Option SlotId
      pub x509_slot : Option SlotId
      pub client_certificate_authority_slot : Option SlotId
      pub client_certificate_authority_common_name : Option Text

    pub record SshKey : Type 0 where
      pub slot : SlotId
      pub public_key : PublicKey

    pub record SshKeys : Type 0 where
      pub user_key : SshKey
      pub host_key : SshKey

    pub record YubikeySigner : Type 0 where
      pub ssh_keys : Option SshKeys
      pub x509_certificate : Option CaCertificate
      pub client_certificate_authority : Option CaCertificate

    unfoldable pub rcgen_certificate_from_yubikey : Text → SlotId → Run SigningError CaCertificate
    rcgen_certificate_from_yubikey common_name slot = do
      kp ←
          ok_or (access_error (text "Could not create remote signer for X509 key"))
            (yk.remote_key_pair serial slot)
      ok_or (access_error (text "Could not create certificate for slot " ++ show_slot slot))
          (yk.ca_from_remote common_name kp)

    unfoldable pub ssh_key : SlotId → Run SigningError SshKey
    ssh_key slot =
        ok_or (access_error (text "Could fetch public key for user key"))
          (ssh_cert_fetch_pubkey slot)
        >>= λ key. ok (record { slot = slot; public_key = key })

    -- Both slots or none.
    unfoldable pub keys_of : Option SlotId → Option SlotId → Run SigningError (Option SshKeys)
    keys_of (some user_slot) (some host_slot) = do
      u ← ssh_key user_slot
      h ← ssh_key host_slot
      ok (some (record { user_key = u; host_key = h }))
    keys_of none none = ok none
    keys_of (some _) none = err signer_does_not_all_required_ssh_keys
    keys_of none (some _) = err signer_does_not_all_required_ssh_keys

    unfoldable pub authority_of :
        Option Text → Option SlotId → Run SigningError (Option CaCertificate)
    authority_of (some common_name) (some slot) =
        rcgen_certificate_from_yubikey common_name slot >>= λ ca. ok (some ca)
    authority_of (some _) none = ok none
    authority_of none _ = ok none

    unfoldable pub into_signer : Config → Run SigningError YubikeySigner
    into_signer c = do
      unwrap connected
      keys ← keys_of c.user_slot c.host_slot
      x509 ← authority_of (some (text "Rustica")) c.x509_slot
      client ←
          authority_of c.client_certificate_authority_common_name
            c.client_certificate_authority_slot
      ok (record {
        ssh_keys = keys;
        x509_certificate = x509;
        client_certificate_authority = client;
      })

    abbrev pub key_for : CertType → SshKeys → SshKey
    key_for user keys = keys.user_key
    key_for host keys = keys.host_key

    -- `impl Signer for YubikeySigner`: the Yubikey is connected to anew.
    unfoldable pub sign : YubikeySigner → Draft PublicKey → Run SigningError Certificate
    sign s cert = do
      keys ← ok_or signer_does_not_have_ssh_keys s.ssh_keys
      unwrap connected
      signature ←
          ok_or signing_failure
            (ssh_cert_signer (yk.tbs_certificate cert) (key_for cert.cert_type keys).slot)
      ok_or signing_failure (yk.add_signature signature cert)

    unfoldable pub get_signer_public_key : YubikeySigner → CertType → Option PublicKey
    get_signer_public_key s cert_type = elim s.ssh_keys [
      | none ↦ none
      | some keys ↦ some (key_for cert_type keys).public_key
    ]

    unfoldable pub signer : YubikeySigner → Signer f
    signer s = record {
      sign = sign s;
      get_signer_public_key = get_signer_public_key s;
      get_attested_x509_certificate_authority = s.x509_certificate;
      get_client_certificate_authority = s.client_certificate_authority;
    }
