-- ===== src/Server/Registrations.antt =====
-- rustica/src/server.rs: the handlers `register_key` and `register_u2f_key`. They differ in the
-- attestation that they check, and in what they say of a request that was not valid.
pub mod Recorded
use rustica.Common.{ℕ, Bool, true, false, Option, none, some, List, [], ◌∷◌, ◌++◌, if◌then◌else◌}
use rustica.Common.Text.{Text, text, eq}
use rustica.Common.Words.{ℤ}
use rustica.Common.Run.{Run, ok, err, panic, ok_or}
use rustica.Errors.{RusticaServerError, AuthorizationError, debug, show}
use rustica.Logs.{
  Log, KeyInfo, key_registered, key_registration_failure, Logged, rustica_warning, rustica_error,
  ◌>>=◌, pure, lift, fail,
}
use rustica.Keys.{Bytes, Key, KeyAttestation}
use rustica.Attestation.{verify_piv_certificate_chain, verify_u2f_certificate_chain}
use rustica.Foreign.{Foreign}
use rustica.Auth.{RegisterKeyRequestProperties, Authorizer}
use rustica.Server.{
  RusticaServer, Status, denied, cancelled, invalid_argument, unavailable, SocketAddr, Connection,
  Challenge,
}
use rustica.Server.Validate.{Validated, validate_request}

pub record RegisterKeyRequest : Type 0 where
  pub certificate : Bytes
  pub intermediate : Bytes
  pub challenge : Option Challenge

pub record RegisterU2fKeyRequest : Type 0 where
  pub auth_data : Bytes
  pub auth_data_signature : Bytes
  pub sk_application : Bytes
  pub u2f_challenge : Bytes
  pub intermediate : Bytes
  pub alg : ℤ
  pub challenge : Option Challenge
  pub u2f_challenge_hashed : Bool

abbrev shown_or_empty : Option SocketAddr → Text
shown_or_empty none = []
shown_or_empty (some a) = a.shown

-- An error of the validation as a status, with the event that goes with it.
abbrev pub refusing :
    {A : Type 0}
    → (RusticaServerError → Status)
    → (RusticaServerError → List Log)
    → Logged RusticaServerError A
    → Logged Status A
refusing to events (ok a, l) = (ok a, l)
refusing to events (err e, l) = (err (to e), l ++ events e)
refusing to events (panic, l) = (panic, l)

abbrev failure : Text → List Text → Text → Log
failure fingerprint identities message = key_registration_failure (record {
  key_info = record { fingerprint = fingerprint; mtls_identities = identities };
  message = message;
})

-- A key that is to be registered: its fingerprint and what attests it.
pub record Claim : Type 0 where
  pub fingerprint : Text
  pub attestation : Option KeyAttestation

module _ (f : Foreign) where
  open f use {PublicKey, public_key_to_string}

  -- An attestation must be for the key that was proved; without one the key counts if the server
  -- asks for none.
  unfoldable pub claim_of :
      RusticaServer f → Text → Validated f → Run RusticaServerError Key → Logged Status Claim
  claim_of srv requester_ip v (ok key) =
      if eq (f.fingerprint v.ssh_pubkey) key.fingerprint
      then pure (record { fingerprint = key.fingerprint; attestation = key.attestation })
      else fail (invalid_argument (text "Attestation did not match challenge")) (
          rustica_warning (
            text "Attestation fingerprint did not match challenge from host ["
            ++ requester_ip
            ++ text "]. Attestation: ["
            ++ f.fingerprint v.ssh_pubkey
            ++ text "] Challenge: ["
            ++ key.fingerprint
            ++ text "]"))
  claim_of srv requester_ip v (err e) =
      if srv.require_attestation_chain
      then fail (unavailable (text "Could not register a key without valid attestation data")) (
          failure (f.fingerprint v.ssh_pubkey) v.identities
            (text "Attempt to register a key with an invalid attestation chain"))
      else pure (record { fingerprint = f.fingerprint v.ssh_pubkey; attestation = none })
  claim_of srv requester_ip v panic = (panic, [])

  -- Up to the call of the authorizer.
  unfoldable pub prepare :
      RusticaServer f
      → Connection
      → Option Challenge
      → (RusticaServerError → Status)
      → (RusticaServerError → List Log)
      → Run RusticaServerError Key
      → Option ℕ
      → Logged Status RegisterKeyRequestProperties
  prepare srv conn sent to events key now = do
    challenge ← lift (ok_or denied sent)
    peer ← lift (ok_or denied conn.peer_certs)
    v ← refusing to events (validate_request f srv peer challenge now)
    claim ← claim_of srv (shown_or_empty conn.remote_addr) v key
    pure (record {
      fingerprint = claim.fingerprint;
      pubkey = public_key_to_string v.ssh_pubkey;
      mtls_identities = v.identities;
      requester_ip = shown_or_empty conn.remote_addr;
      attestation = claim.attestation;
    })

  module _ {S : Type 0} (auth : Authorizer S) where
    -- what the authorizer answered, with its new state
    recorded :
        RegisterKeyRequestProperties
        → List Log
        → Run AuthorizationError (Unit {0}) × S
        → Logged Status (Unit {0}) × S
    recorded p l (ok _, s) = (
      (
        ok tt,
        l
            ++ key_registered
                (record { fingerprint = p.fingerprint; mtls_identities = p.mtls_identities })
              ∷ [],
      ),
      s,
    )
    recorded p l (err e, s) = (
      (
        err (unavailable (text "Could not register new key")),
        l ++ failure p.fingerprint p.mtls_identities (show e) ∷ [],
      ),
      s,
    )
    recorded p l (panic, s) = ((panic, l), s)

    record_key : Logged Status RegisterKeyRequestProperties → S → Logged Status (Unit {0}) × S
    record_key (ok p, l) s = recorded p l (auth.register_key p s)
    record_key (err e, l) s = ((err e, l), s)
    record_key (panic, l) s = ((panic, l), s)

    unfoldable pub register_key :
        RusticaServer f
        → Connection
        → RegisterKeyRequest
        → Option ℕ
        → S
        → Logged Status (Unit {0}) × S
    unfolding record_key recorded
    register_key srv conn req now s =
        record_key
          (prepare srv conn req.challenge (λ e. cancelled [])
            (λ e. rustica_error (text "Could not validate request: " ++ debug e) ∷ [])
            (verify_piv_certificate_chain f req.certificate req.intermediate) now)
          s

    unfoldable pub register_u2f_key :
        RusticaServer f
        → Connection
        → RegisterU2fKeyRequest
        → Option ℕ
        → S
        → Logged Status (Unit {0}) × S
    unfolding record_key recorded
    register_u2f_key srv conn req now s =
        record_key
          (prepare srv conn req.challenge (λ e. cancelled (debug e)) (λ e. [])
            (verify_u2f_certificate_chain f req.auth_data req.auth_data_signature req.intermediate
              req.alg req.u2f_challenge req.sk_application req.u2f_challenge_hashed)
            now)
          s
