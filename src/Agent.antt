-- ===== src/Agent.antt =====
-- The agent, rustica-agent/src: it speaks the protocol of ssh-agent to ssh, and asks the servers of its
-- configuration for certificates. Here: what its modules share.
pub mod Protocol
pub mod Session
pub mod Clients
pub mod Config
pub mod Handler
pub mod Slots
pub mod Command
pub mod Fetch
use rustica.Common.{ℕ, ◌+◌, ◌≡◌, refl, Bool, true, false, Option}
use rustica.Common.Text.{Text}
use rustica.Common.Maps.{Map}
use rustica.Common.Run.{Run, ok, err, panic}
use rustica.Keys.{Bytes, TouchPolicy, PinPolicy}
use rustica.Foreign.{Foreign, CertType}

-- rustica-agent/src/sshagent/error.rs: an I/O error, whose text is the system's, or a text of the agent
pub data AgentError : Type 0 where
  io_error : AgentError
  details : Text → AgentError

-- What the agent takes from sshcerts and yubikey beside what the server does.
pub record AgentCrates (f : Foreign) : Type 1 where
  pub private_key_of_bytes : Bytes → Option f.PrivateKey
  pub certificate_of_bytes : Bytes → Option f.Certificate
  pub public_key_of_bytes : Bytes → Option f.PublicKey
  pub encode : f.PublicKey → Bytes
  pub comment : f.PrivateKey → Text
  pub is_sk : f.PrivateKey → Bool
  pub sign_data : f.PrivateKey → Bytes → Option Bytes
  pub valid_before : f.Certificate → ℕ
  pub serialized : f.Certificate → Bytes
  pub certificate_comment : f.Certificate → Option Text
  pub standard_extensions : Map Text
  -- `signature_key` assigned
  pub with_signature_key : f.PublicKey → f.Certificate → f.Certificate
  pub tbs_certificate : f.Certificate → Bytes
  pub add_signature : Bytes → f.Certificate → Option f.Certificate
  pub sign_certificate : f.PrivateKey → f.Certificate → Option f.Certificate
  pub SlotId : Type 0
  pub slot_of_u8 : ℕ → Option SlotId
  -- `SlotId::Retired` of `RetiredSlotId::try_from`
  pub retired_slot_of_u8 : ℕ → Option SlotId
  pub cert_type_of : Text → Option CertType
  pub show_slot : SlotId → Text

-- A Yubikey that is open: what each call of it returns, `none` for an error.
pub record Yubikey {f : Foreign} (crates : AgentCrates f) : Type 0 where
  pub reconnect : Option (Unit {0})
  pub ssh_cert_fetch_pubkey : crates.SlotId → Option f.PublicKey
  pub ssh_cert_signer : Bytes → crates.SlotId → Option Bytes
  pub generate_csr : crates.SlotId → Option Bytes
  pub fetch_attestation : crates.SlotId → Option Bytes
  pub fetch_intermediate : Option Bytes
  -- with a PIN and the management key
  pub unlock : Text → Bytes → Bool
  pub fetch_subject : crates.SlotId → Option Text
  -- a new key of the curve P-384 with this subject: the attestation and the intermediate certificate
  -- that are read after it
  pub provision :
      crates.SlotId → Text → TouchPolicy → PinPolicy → Option (Option Bytes × Option Bytes)
  pub get_pin_retries : Option ℕ
  -- what the error of `fetch_attestation` says
  pub attestation_error : Text

module _ {f : Foreign} (crates : AgentCrates f) where
  pub record YubikeySigner : Type 0 where
    pub slot : crates.SlotId
    pub yk : Yubikey crates

  pub data Signatory : Type 0 where
    yubikey : YubikeySigner → Signatory
    direct : f.PrivateKey → Signatory

-- A server of the agent's configuration.
pub record RusticaServer : Type 0 where
  pub address : Text
  pub ca_pem : Text
  pub mtls_cert : Text
  pub mtls_key : Text

-- A call with the number of times that it has notified the user, who is to touch a device.
abbrev pub Notified {ℓ κ} : Type ℓ → Type κ → Type (ℓ ⊔ κ)
Notified E A = Run E A × ℕ

infixl 5 ◌>>=◌ ◌>>◌
abbrev pub ◌>>=◌ {ℓ κ μ} :
    {E : Type ℓ} {A : Type κ} {B : Type μ} → Notified E A → (A → Notified E B) → Notified E B
(panic, times) >>= next = (panic, times)
(err e, times) >>= next = (err e, times)
(ok a, times) >>= next = let (result, more) = next a in (result, times + more)

abbrev pub ◌>>◌ {ℓ κ} :
    {E : Type ℓ} {B : Type κ} → Notified E (Unit {0}) → Notified E B → Notified E B
call >> next = call >>= λ _. next

abbrev pub pure {ℓ κ} : {E : Type ℓ} {A : Type κ} → A → Notified E A
pure a = (ok a, 0)

abbrev pub lift {ℓ κ} : {E : Type ℓ} {A : Type κ} → Run E A → Notified E A
lift r = (r, 0)

-- if let Some(f) = notification_function { f() }
abbrev pub notify {ℓ} : {E : Type ℓ} → Bool → Notified E (Unit {0})
notify true = (ok tt, 1)
notify false = (ok tt, 0)

-- Inversion of a bind that succeeded.
pub after {ℓ κ μ ν} :
    {E : Type ℓ} {A : Type κ} {B : Type μ} {Goal : Type ν} (call : Notified E A)
    (next : A → Notified E B) {b : B}
    → (call >>= next).0 ≡ ok b
    → ((a : A) → call.0 ≡ ok a → (next a).0 ≡ ok b → Goal)
    → Goal
after (panic, times) next h goal = cc
after (err e, times) next h goal = cc
after (ok a, times) next h goal = goal a refl h
