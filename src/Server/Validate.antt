-- ===== src/Server/Validate.antt =====
-- rustica/src/server.rs: `validate_request`, the check that a client holds a fresh challenge of this
-- server. Its clock is read once; a clock before 1970 is `none`.
pub mod Accepted
pub mod Payload
use rustica.Common.{ℕ, Bool, ◌||◌, Option, none, some, List, ◌∷◌}
use rustica.Common.{◌++◌, if◌then◌else◌, leb, ltb, length, first}
use rustica.Common.Text.{Text, text, eq, commas}
use rustica.Common.Words.{ℤ, add64, sub64, as_u64}
use rustica.Common.Decimal.{print_u64, parse_u64}
use rustica.Common.Run.{ok_or}
use rustica.Errors.{RusticaServerError, bad_request, bad_challenge, time_expired, unknown}
use rustica.Logs.{
  Logged, rustica_warning, rustica_error, ◌>>=◌, ◌>>◌, pure, lift, check, ok_or_warn,
}
use rustica.Keys.{Bytes}
use rustica.Foreign.{Foreign}
use rustica.Server.{
  RusticaServer, Challenge, ClientAuthorityConfiguration, CertificateRefreshSettings,
}
use rustica.Server.Peer.{extract_certificate_information}

-- format!("{}-{}-{}", time, pubkey, identities.join(","))
unfoldable pub payload : ℕ → Text → List Text → Text
payload time pubkey identities = print_u64 time ++ b'-' ∷ (pubkey ++ b'-' ∷ commas identities)

-- A client certificate that is over, or that is over soon, is renewed.
unfoldable pub refresh_settings :
    ClientAuthorityConfiguration → ℤ → ℕ → Option CertificateRefreshSettings
refresh_settings authority expiry time =
    if ltb (as_u64 expiry) time
      || ltb (sub64 (as_u64 expiry) time) authority.expiration_renewal_period
    then some (record { not_after = add64 time authority.validity_length; not_before = time })
    else none

module _ (f : Foreign) where
  open f use {
    PublicKey, Certificate, public_key_of_string, fingerprint, pubkey, certificate_of_string,
    key_id, certified_key, signature_key, hmac_verify, hex_decode,
  }

  pub record Validated : Type 0 where
    pub ssh_pubkey : PublicKey
    pub identities : List Text
    pub refresh : Option CertificateRefreshSettings

  pub same_key : PublicKey → PublicKey → Bool
  same_key a b = eq (fingerprint a) (fingerprint b)

  -- The last checks: who signed the certificate that came back.
  unfoldable pub check_signer :
      RusticaServer f → Text → Certificate → PublicKey → Logged RusticaServerError (Unit {0})
  unfolding same_key
  check_signer srv from parsed key =
      if srv.require_rustica_proof
      then (do
        check (same_key (certified_key parsed) (signature_key parsed)) bad_challenge
            (rustica_warning (text "User key did not equal CA key when talking to: " ++ from))
        check (same_key (certified_key parsed) key) bad_challenge
            (rustica_warning (text "User key did not equal HMAC validated public key: " ++ from)))
      else check (same_key (signature_key parsed) (pubkey srv.challenge_key)) bad_challenge
          (rustica_warning (text "Received an incorrect certificate from " ++ from))

  unfoldable pub validate_request :
      RusticaServer f → List Bytes → Challenge → Option ℕ → Logged RusticaServerError Validated
  validate_request srv peer_certs challenge now = do
    cert ← lift (ok_or bad_request (first peer_certs))
    info ← lift (extract_certificate_information f cert)
    request_time ← lift (ok_or unknown (parse_u64 challenge.challenge_time))
    time ← lift (ok_or unknown now)
    let from = commas info.identities
    check (leb (sub64 time request_time) 5) time_expired
        (rustica_warning (text "Expired challenge received from: " ++ from))
    check (leb (length challenge.challenge) 1024) unknown
        (rustica_warning (text "Received a certificate that is far too large from from: " ++ from))
    parsed ←
        ok_or_warn bad_challenge
          (rustica_warning (text "Received a bad certificate from: " ++ from))
          (certificate_of_string challenge.challenge)
    decoded ← lift (ok_or bad_challenge (hex_decode (key_id parsed)))
    check (hmac_verify srv.hmac_key (payload request_time challenge.pubkey info.identities) decoded)
        bad_challenge (rustica_warning (text "Received a bad challenge from: " ++ from))
    key ←
        ok_or_warn bad_challenge
          (rustica_error (
            text "Public key was invalid when negotiating with ["
            ++ from
            ++ text "]. Public key: ["
            ++ challenge.pubkey
            ++ text "]"))
          (public_key_of_string challenge.pubkey)
    check_signer srv from parsed key
    pure (record {
      ssh_pubkey = key;
      identities = info.identities;
      refresh = refresh_settings srv.client_authority info.expiry_timestamp time;
    })
