-- ===== src/Attestation.antt =====
-- rustica/src/verification.rs: the attestation of a key by its device. The chains are checked by
-- sshcerts; the sizes, the policies and the application by the source.
pub mod Limits
use rustica.Common.{ℕ, Bool, Option, none, some, if◌then◌else◌, ltb, length}
use rustica.Common.Text.{Text, text}
use rustica.Common.Words.{ℤ}
use rustica.Common.Utf8.{from_utf8}
use rustica.Common.Run.{Run, ok, err, ◌>>=◌, ◌>>◌, ok_or}
use rustica.Errors.{
  RusticaServerError, invalid_key, piv_client_cert_too_big, piv_intermediate_cert_too_big,
  u2f_attestation_too_big, u2f_intermediate_cert_too_big,
}
use rustica.Keys.{Bytes, Key, piv, u2f, pin_policy_of, touch_policy_of}
use rustica.Foreign.{Foreign}

abbrev pub cert_max_size : ℕ
cert_max_size = 2048

-- if data.len() > CERT_MAX_SIZE { return Err(e); }
abbrev pub check_size : Bytes → RusticaServerError → Run RusticaServerError (Unit {0})
check_size bytes e = if ltb cert_max_size (length bytes) then err e else ok tt

abbrev or_unknown : Option Text → Text
or_unknown none = text "Unknown"
or_unknown (some firmware) = firmware

module _ (f : Foreign) where
  open f use {
    verify_certificate_chain, fingerprint, sha256, verify_auth_data, ssh_public_key, hex_encode,
    aaguid,
  }

  unfoldable pub verify_piv_certificate_chain : Bytes → Bytes → Run RusticaServerError Key
  verify_piv_certificate_chain client intermediate = do
    check_size intermediate piv_intermediate_cert_too_big
    check_size client piv_client_cert_too_big
    data' ← ok_or invalid_key (verify_certificate_chain client intermediate)
    pin_policy ← ok_or invalid_key (pin_policy_of data'.pin_policy)
    touch_policy ← ok_or invalid_key (touch_policy_of data'.touch_policy)
    ok (record {
      fingerprint = fingerprint data'.public_key;
      attestation = some (
          piv (record {
            pin_policy = pin_policy;
            touch_policy = touch_policy;
            serial = data'.serial;
            firmware = data'.firmware;
            certificate = client;
            intermediate = intermediate;
          }));
    })

  unfoldable pub verify_u2f_certificate_chain :
      Bytes → Bytes → Bytes → ℤ → Bytes → Bytes → Bool → Run RusticaServerError Key
  verify_u2f_certificate_chain auth_data auth_data_signature intermediate alg u2f_challenge
        application u2f_challenge_hashed =
      do
        check_size intermediate u2f_intermediate_cert_too_big
        check_size auth_data u2f_attestation_too_big
        let challenge = if u2f_challenge_hashed then u2f_challenge else sha256 u2f_challenge
        data' ←
            ok_or invalid_key
              (verify_auth_data auth_data auth_data_signature challenge alg intermediate)
        parsed_application ← ok_or invalid_key (from_utf8 application)
        key ← ok_or invalid_key (ssh_public_key data'.auth_data parsed_application)
        ok (record {
          fingerprint = fingerprint key;
          attestation = some (
              u2f (record {
                aaguid = hex_encode (aaguid data'.auth_data);
                firmware = or_unknown data'.firmware;
                auth_data = auth_data;
                auth_data_signature = auth_data_signature;
                intermediate = intermediate;
                challenge = challenge;
                application = application;
                alg = alg;
              }));
        })
