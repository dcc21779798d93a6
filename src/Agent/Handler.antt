-- ===== src/Agent/Handler.antt =====
-- rustica-agent/src/lib.rs, the `Handler`: the state of the agent and its answers to ssh. Debug output
-- is left out, and the network, the clock and the Yubikeys are given for each call of the handler.
pub mod Cached
pub mod Signs
use rustica.Common.{ℕ, suc, ◌+◌, Bool, true, false, Option, none, some, List, [], ◌∷◌, ◌++◌, map}
use rustica.Common.{ltb, if◌then◌else◌}
use rustica.Common.Text.{Text, text, eq}
use rustica.Common.Maps.{Map, lookup, insert}
use rustica.Common.Decimal.{print_u64}
use rustica.Common.Words.{add64}
use rustica.Common.Run.{Run, ok, err, panic, ok_or}
use rustica.Keys.{Bytes}
use rustica.Foreign.{Foreign}
use rustica.Agent.{
  AgentError, details, AgentCrates, Yubikey, YubikeySigner, Signatory, yubikey, direct, Notified,
  ◌>>=◌, ◌>>◌, pure, lift, notify,
}
use rustica.Agent.Protocol.{Identity, Response, success, identities_answer, sign_response}
use rustica.Agent.Session.{SshAgentHandler}
use rustica.Agent.Clients.{Network, CertificateConfig}
use rustica.Agent.Config.{RusticaAgentLibraryError, no_servers_returned_certificate, Toml}
use rustica.Agent.Fetch.{Settings, fetch_new_certificate}

-- the decoded "010203040506070801020304050607080102030405060708"
abbrev pub management_key : Bytes
management_key =
    1 ∷ 2 ∷ 3 ∷ 4 ∷ 5 ∷ 6 ∷ 7 ∷ 8 ∷ 1 ∷ 2 ∷ 3 ∷ 4 ∷ 5 ∷ 6 ∷ 7 ∷ 8 ∷ 1 ∷ 2 ∷ 3 ∷ 4 ∷ 5 ∷ 6 ∷ 7 ∷ 8
    ∷ []

module _ {f : Foreign} (crates : AgentCrates f) where
  open f use {PublicKey, PrivateKey, Certificate, fingerprint, pubkey, certified_key}

  pub record YubikeyPivKeyDescriptor : Type 0 where
    pub serial : ℕ
    pub slot : crates.SlotId
    pub public_key : PublicKey
    pub pin : Option Text
    pub subject : Text

  -- The fields of `Handler` that no call changes; notifies: whether there is a notification function.
  pub record Handler : Type 0 where
    pub pubkey : PublicKey
    pub signatory : Signatory crates
    pub certificate_options : CertificateConfig
    pub piv_identities : Map YubikeyPivKeyDescriptor
    pub notifies : Bool
    pub certificate_priority : Bool

  -- Its fields under a mutex, with the number of notifications and of calls so far.
  pub record HandlerState : Type 0 where
    pub settings : Settings
    pub cert : Option Certificate
    pub stale_at : ℕ
    pub identities : Map PrivateKey
    pub notified : ℕ
    pub calls : ℕ

  -- What a call meets: the servers, `SystemTime::now()` of the handler, the readings of the clock in
  -- the requests to the servers, and the Yubikeys that can be opened.
  pub record Surroundings : Type 0 where
    pub net : Network
    pub timestamp : Option ℕ
    pub request_times : ℕ → Option ℕ
    pub open_yubikey : ℕ → Option (Yubikey crates)

  -- The cached certificate, if it lasts for more than five seconds.
  unfoldable pub cached : ℕ → HandlerState → Option Certificate
  cached timestamp s = elim s.cert [
    | none ↦ none
    | some cert ↦ if ltb (add64 timestamp 5) s.stale_at then some cert else none
  ]

  abbrev pub add_notified : ℕ → HandlerState → HandlerState
  add_notified times s = record s { notified = s.notified + times }

  module _ (toml : Toml) (h : Handler) (around : ℕ → Surroundings) where
    -- The cache after a fetch.
    abbrev pub refreshed :
        HandlerState
        → Notified RusticaAgentLibraryError Certificate × Settings
        → Run RusticaAgentLibraryError (Option Certificate) × HandlerState
    refreshed s ((ok cert, times), settings) = (
      ok (some cert),
      record (add_notified times s) {
        settings = settings;
        cert = some cert;
        stale_at = crates.valid_before cert;
      },
    )
    refreshed s ((err e, times), settings) =
        (err e, record (add_notified times s) { settings = settings })
    refreshed s ((panic, times), settings) =
        (panic, record (add_notified times s) { settings = settings })

    abbrev pub cached_or_fetch :
        Surroundings
        → HandlerState
        → Option Certificate
        → Run RusticaAgentLibraryError (Option Certificate) × HandlerState
    cached_or_fetch a s (some cert) = (ok (some cert), s)
    cached_or_fetch a s none = refreshed s (
        fetch_new_certificate crates toml a.net h.signatory h.certificate_options h.notifies
          a.request_times s.settings)

    -- A clock before 1970 panics.
    unfoldable pub get_certificate :
        Bool
        → Surroundings
        → HandlerState
        → Run RusticaAgentLibraryError (Option Certificate) × HandlerState
    get_certificate fetch_new_cert_if_needed a s = elim a.timestamp [
      | none ↦ (panic, s)
      | some timestamp ↦
          if fetch_new_cert_if_needed
          then cached_or_fetch a s (cached timestamp s)
          else (ok (cached timestamp s), s)
    ]

    unfoldable pub add_identity : PrivateKey → HandlerState → Run AgentError Response × HandlerState
    add_identity private_key s = (
      ok success,
      record s {
        identities = insert (crates.encode (pubkey private_key)) private_key s.identities;
        calls = suc s.calls;
      },
    )

    abbrev pub key_identity : Text × PrivateKey → Identity
    key_identity (_, x) = record {
      key_blob = crates.encode (pubkey x);
      key_comment = crates.comment x;
    }

    abbrev pub piv_identity : Text × YubikeyPivKeyDescriptor → Identity
    piv_identity (_, x) = record {
      key_blob = crates.encode x.public_key;
      key_comment =
          text "Yubikey Serial: "
          ++ (print_u64 x.serial ++ (text " Slot: " ++ crates.show_slot x.slot));
    }

    abbrev or_empty : Option Text → Text
    or_empty none = []
    or_empty (some comment) = comment

    abbrev pub certificate_identity : Certificate → Identity
    certificate_identity v = record {
      key_blob = crates.serialized v;
      key_comment = or_empty (crates.certificate_comment v);
    }

    abbrev pub own_identity : Text → Identity
    own_identity comment = record { key_blob = crates.encode h.pubkey; key_comment = comment }

    -- The key and its certificate in the requested order.
    abbrev pub last_identities : Option Certificate → List Identity
    last_identities none =
        own_identity (text "No server returned valid certificate. Only your key is available") ∷ []
    last_identities (some v) =
        if h.certificate_priority
        then certificate_identity v ∷ own_identity [] ∷ []
        else own_identity [] ∷ certificate_identity v ∷ []

    abbrev pub listed :
        List Identity → Run RusticaAgentLibraryError (Option Certificate) → Run AgentError Response
    listed ids (ok certificate) = ok (identities_answer (ids ++ last_identities certificate))
    listed ids (err e) = ok (identities_answer (ids ++ last_identities none))
    listed ids panic = panic

    unfoldable pub identities : HandlerState → Run AgentError Response × HandlerState
    identities s =
        let known = map key_identity s.identities ++ map piv_identity h.piv_identities in
        let (result, s') = get_certificate true (around s.calls) s in
        (listed known result, record s' { calls = suc s'.calls })

    -- The key that the blob names, as a certificate or as a public key.
    unfoldable pub key_of_blob : Bytes → Option PublicKey
    key_of_blob blob = elim (crates.certificate_of_bytes blob) [
      | some cert ↦ some (certified_key cert)
      | none ↦ crates.public_key_of_bytes blob
    ]

    abbrev pub signature_of : Text → Option Bytes → Notified AgentError Response
    signature_of e signature =
        lift (ok_or (details e) signature) >>= λ signature. pure (sign_response signature)

    -- An unlock that fails is an error, whose text depends on whether the tries can be counted.
    abbrev pub unlock : Option Text → Yubikey crates → Notified AgentError (Unit {0})
    unlock none yk = pure tt
    unlock (some pin) yk =
        if yk.unlock pin management_key
        then pure tt
        else lift (ok_or (details (text "Could not fetch pin retries")) yk.get_pin_retries) >>= λ _.
            lift (err (details (text "Yubikey unlocking error")))

    unfoldable pub sign_with_piv :
        Surroundings → YubikeyPivKeyDescriptor → Bytes → Notified AgentError Response
    sign_with_piv a descriptor message = do
      yk ← lift (ok_or (details (text "Unable to open Yubikey")) (a.open_yubikey descriptor.serial))
      notify h.notifies
      unlock descriptor.pin yk
      signature_of (text "Yubikey signing error") (yk.ssh_cert_signer message descriptor.slot)

    unfoldable pub sign_with_signatory :
        Signatory crates → PublicKey → Bytes → Notified AgentError Response
    sign_with_signatory (direct privkey) key message = do
      lift (
          if eq (fingerprint (pubkey privkey)) (fingerprint key)
          then ok tt
          else err (details (text "No such key")))
      (if crates.is_sk privkey then notify h.notifies else pure tt)
      signature_of (text "Signing Error") (crates.sign_data privkey message)
    sign_with_signatory (yubikey signer) key message = do
      own ← lift (
          ok_or (details (text "Yubikey fetch certificate error"))
            (signer.yk.ssh_cert_fetch_pubkey signer.slot))
      lift (
          if eq (fingerprint own) (fingerprint key)
          then ok tt
          else err (details (text "No such key")))
      notify h.notifies
      signature_of (text "Yubikey signing error") (signer.yk.ssh_cert_signer message signer.slot)

    -- The keys that were added, then those of the Yubikeys, then the signatory.
    unfoldable pub sign_as :
        Surroundings → PublicKey → Bytes → Bytes → HandlerState → Notified AgentError Response
    sign_as a key blob message s = elim (lookup blob s.identities) [
      | some private_key ↦
          signature_of (text "Signing Error") (crates.sign_data private_key message)
      | none ↦ elim (lookup blob h.piv_identities) [
        | some descriptor ↦ sign_with_piv a descriptor message
        | none ↦ sign_with_signatory h.signatory key message
      ]
    ]

    abbrev pub signed :
        HandlerState → Notified AgentError Response → Run AgentError Response × HandlerState
    signed s (result, times) = (result, record (add_notified times s) { calls = suc s.calls })

    unfoldable pub sign_request :
        Bytes → Bytes → ℕ → HandlerState → Run AgentError Response × HandlerState
    sign_request blob message flags s = signed s (
        lift (ok_or (details (text "Invalid key blob")) (key_of_blob blob)) >>= λ key.
        sign_as (around s.calls) key blob message s)

    abbrev pub handler : SshAgentHandler crates.private_key_of_bytes HandlerState
    handler = record {
      add_identity = add_identity;
      identities = identities;
      sign_request = sign_request;
    }
