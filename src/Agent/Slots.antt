-- ===== src/Agent/Slots.antt =====
-- rustica-agent/src/lib.rs: the slots of a Yubikey and the keys in them, and the options of a
-- certificate. What is printed on the way is left out.
pub mod Named
pub mod Listed
use rustica.Common.{
  ℕ, zero, suc, ◌+◌, ◌==◌, ◌||◌, Bool, true, false, Option, none, some, List, [], ◌∷◌, ◌++◌,
}
use rustica.Common.{leb, if◌then◌else◌, length}
use rustica.Common.Text.{Text, text, eq}
use rustica.Common.Maps.{Map, insert}
use rustica.Common.Split.{strip_prefix}
use rustica.Common.Decimal.{print_u64, parse_u8}
use rustica.Common.Run.{Run, ok, err, panic, unwrap, ok_or, ◌>>=◌}
use rustica.Keys.{Bytes, TouchPolicy, PinPolicy, cached}
use rustica.Foreign.{Foreign, CertType, user}
use rustica.Agent.{AgentCrates, Yubikey, YubikeySigner}
use rustica.Agent.Clients.{CertificateConfig, PivAttestation}
use rustica.Agent.Config.{
  Options, RusticaAgentLibraryError, could_not_open_yubikey, could_not_enumerate_yubikeys,
}
use rustica.Agent.Handler.{YubikeyPivKeyDescriptor}

-- `option.unwrap_or(default)`
abbrev pub unwrap_or {ℓ} : {A : Type ℓ} → A → Option A → A
unwrap_or default none = default
unwrap_or default (some a) = a

-- The digits after `R`, and those after `0x`, of a text of the right length.
unfoldable pub numbered : Text → Option Text
numbered slot = if length slot == 2 || length slot == 3 then strip_prefix (text "R") slot else none

unfoldable pub hexadecimal : Text → Option Text
hexadecimal slot = if length slot == 4 then strip_prefix (text "0x") slot else none

-- u32 as i64 and back keeps the number
abbrev opened : List (Option ℕ) → List ℕ
opened [] = []
opened (none ∷ readers) = opened readers
opened (some serial ∷ readers) = serial ∷ opened readers

-- readers: the readers of the context, each with the serial number of its Yubikey if it opens, or the
-- text of the error of the context
unfoldable pub list_yubikey_serials :
    Run Text (List (Option ℕ)) → Run RusticaAgentLibraryError (List ℕ)
list_yubikey_serials (ok readers) = ok (opened readers)
list_yubikey_serials (err e) = err (could_not_enumerate_yubikeys e)
list_yubikey_serials panic = panic

-- `first..first + count`
abbrev pub range : ℕ → ℕ → List ℕ
range first zero = []
range first (suc count) = first ∷ range (suc first) count

-- The PIN of one Yubikey, or the one for all.
unfoldable pub pin_of : (Text → Option Text) → ℕ → Option Text
pin_of env serial = elim (env (text "YK_PIN_" ++ print_u64 serial)) [
  | some pin ↦ some pin
  | none ↦ env (text "YK_PIN")
]

module _ {f : Foreign} (crates : AgentCrates f) where
  open f use {PublicKey, public_key_to_string, hex_decode}

  -- `Some(SlotId::try_from(b).unwrap())`
  abbrev pub slot_at : ℕ → Run Text (Option crates.SlotId)
  slot_at b = unwrap (crates.slot_of_u8 b) >>= λ slot. ok (some slot)

  abbrev first_byte : Option Bytes → Run Text (Option crates.SlotId)
  first_byte none = panic
  first_byte (some []) = panic
  first_byte (some (b ∷ _)) = slot_at b

  abbrev pub in_range : Option ℕ → Run Text (Option crates.SlotId)
  in_range none = ok none
  in_range (some v) = if leb v 20 then slot_at (0x81 + v) else ok none

  -- It has no error: `ok none` is the source's `None`.
  unfoldable pub slot_parser : Text → Run Text (Option crates.SlotId)
  slot_parser slot = elim (numbered slot) [
    | some digits ↦ in_range (parse_u8 digits)
    | none ↦ elim (hexadecimal slot) [
      | some digits ↦ first_byte (hex_decode digits)
      | none ↦ ok none
    ]
  ]

  abbrev valid_or : Option crates.SlotId → Run Text (Unit {0})
  valid_or (some _) = ok tt
  valid_or none =
      err (text "Provided slot was not valid. Should be R1 - R20 or a raw hex identifier")

  unfoldable pub slot_validator : Text → Run Text (Unit {0})
  slot_validator slot = slot_parser slot >>= valid_or

  abbrev attested : Option (Option Bytes × Option Bytes) → Run (Unit {0}) (PivAttestation crates)
  attested (some (some certificate, some intermediate)) =
      ok (record { certificate = certificate; intermediate = intermediate })
  attested (some (none, _)) = err tt
  attested (some (some _, none)) = err tt
  attested none = panic

  -- `err tt` is the source's `None`.
  unfoldable pub provision_new_key :
      YubikeySigner crates
      → Text
      → Text
      → Bytes
      → Bool
      → PinPolicy
      → Run (Unit {0}) (PivAttestation crates)
  provision_new_key signer pin subj mgm_key require_touch pin_policy =
      let policy = if require_touch then TouchPolicy.always else cached in
      if signer.yk.unlock pin mgm_key
      then attested (signer.yk.provision signer.slot subj policy pin_policy)
      else err tt

  unfoldable pub git_config_from_public_key : PublicKey → Text
  git_config_from_public_key key =
      text "git config --local gpg.format ssh && git config --local commit.gpgsign true && "
      ++ (text "git config --local user.signingKey \"key::"
          ++ (public_key_to_string key ++ text "\""))

  -- `From<Option<Options>>`
  unfoldable pub certificate_config_of : Option Options → CertificateConfig
  certificate_config_of none = record {
    cert_type = user;
    duration = 10;
    hosts = [];
    principals = [];
    authority = [];
  }
  certificate_config_of (some co) = record {
    cert_type = unwrap_or user (crates.cert_type_of (unwrap_or (text "user") co.kind));
    duration = unwrap_or 10 co.duration;
    hosts = unwrap_or [] co.hosts;
    principals = unwrap_or [] co.principals;
    authority = unwrap_or [] co.authority;
  }

  abbrev pub PivKeys : Type 0
  PivKeys = Map (YubikeyPivKeyDescriptor crates)

  abbrev pub descriptor_of :
      Yubikey crates → ℕ → Option Text → crates.SlotId → PublicKey → YubikeyPivKeyDescriptor crates
  descriptor_of yk serial pin slot pubkey = record {
    serial = serial;
    slot = slot;
    public_key = pubkey;
    pin = pin;
    subject = unwrap_or [] (yk.fetch_subject slot);
  }

  -- A slot without a key is passed over.
  abbrev pub add_key :
      Yubikey crates → ℕ → Option Text → crates.SlotId → Option PublicKey → PivKeys → PivKeys
  add_key yk serial pin slot none keys = keys
  add_key yk serial pin slot (some pubkey) keys =
      insert (crates.encode pubkey) (descriptor_of yk serial pin slot pubkey) keys

  unfoldable pub add_slots :
      Yubikey crates → ℕ → Option Text → List ℕ → PivKeys → Run RusticaAgentLibraryError PivKeys
  add_slots yk serial pin [] keys = ok keys
  add_slots yk serial pin (n ∷ slots) keys = unwrap (crates.retired_slot_of_u8 n) >>= λ slot.
      add_slots yk serial pin slots
        (add_key yk serial pin slot (yk.ssh_cert_fetch_pubkey slot) keys)

  module _ (env : Text → Option Text) (open_yubikey : ℕ → Option (Yubikey crates)) where
    unfoldable pub add_serials : List ℕ → PivKeys → Run RusticaAgentLibraryError PivKeys
    add_serials [] keys = ok keys
    add_serials (serial ∷ serials) keys =
        ok_or (could_not_open_yubikey serial) (open_yubikey serial) >>= λ yk.
        (add_slots yk serial (pin_of env serial) (range 0x82 20) keys >>= λ keys'.
        add_serials serials keys')

    unfoldable pub get_all_piv_keys :
        Run Text (List (Option ℕ)) → Run RusticaAgentLibraryError PivKeys
    get_all_piv_keys readers = list_yubikey_serials readers >>= λ serials. add_serials serials []
