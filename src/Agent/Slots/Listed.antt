-- ===== src/Agent/Slots/Listed.antt =====
-- What stands in the list of the keys of all Yubikeys.

use rustica.Common.{ℕ, ◌≡◌, refl, sym, ◌∙◌, Option, none, some, List, [], ◌∷◌, inl, inr}
use rustica.Common.{Bool-cases}
use rustica.Common.Text.{Text, eq, eq_iff}
use rustica.Common.Maps.{lookup, lookup-insert}
use rustica.Common.Run.{Run, ok, unwrap, ok_or, ok_or-eq-ok, >>=-eq-ok, ok-injective}
use rustica.Keys.{Bytes}
use rustica.Foreign.{Foreign}
use rustica.Agent.{AgentCrates, Yubikey}
use rustica.Agent.Config.{could_not_open_yubikey}
use rustica.Agent.Handler.{YubikeyPivKeyDescriptor}
use rustica.Agent.Slots.{
  list_yubikey_serials, range, pin_of, PivKeys, descriptor_of, add_key, add_slots, add_serials,
  get_all_piv_keys,
}

module _ {f : Foreign} (crates : AgentCrates f) (env : Text → Option Text)
    (open_yubikey : ℕ → Option (Yubikey crates)) where
  -- The descriptor is of a Yubikey that opens, whose slot has the key with this blob.
  abbrev pub IsPresent : Bytes → YubikeyPivKeyDescriptor crates → Type 0
  IsPresent blob d =
      (yk : Yubikey crates) × (open_yubikey d.serial ≡ some yk)
      × (yk.ssh_cert_fetch_pubkey d.slot ≡ some d.public_key)
      × (crates.encode d.public_key ≡ blob)
      × (d.pin ≡ pin_of env d.serial)

  abbrev ArePresent : PivKeys crates → Type 0
  ArePresent keys =
      (blob : Bytes) (d : YubikeyPivKeyDescriptor crates)
      → lookup blob keys ≡ some d
      → IsPresent blob d

  descriptor_of-IsPresent :
      (yk : Yubikey crates) (serial : ℕ) (slot : crates.SlotId) (key : f.PublicKey) (blob : Bytes)
      (d : YubikeyPivKeyDescriptor crates)
      → open_yubikey serial ≡ some yk
      → yk.ssh_cert_fetch_pubkey slot ≡ some key
      → crates.encode key ≡ blob
      → descriptor_of crates yk serial (pin_of env serial) slot key ≡ d
      → IsPresent blob d
  descriptor_of-IsPresent yk serial slot key blob d opens fetched same is_new =
      rw (← is_new) (yk, opens, fetched, same, refl)

  add_key-ArePresent :
      (yk : Yubikey crates) (serial : ℕ) (slot : crates.SlotId) (pubkey : Option f.PublicKey)
      (keys : PivKeys crates)
      → open_yubikey serial ≡ some yk
      → yk.ssh_cert_fetch_pubkey slot ≡ pubkey
      → ArePresent keys
      → ArePresent (add_key crates yk serial (pin_of env serial) slot pubkey keys)
  add_key-ArePresent yk serial slot none keys opens fetched present = present
  add_key-ArePresent yk serial slot (some key) keys opens fetched present = λ blob d found.
      let new = descriptor_of crates yk serial (pin_of env serial) slot key in
      let looked = sym (lookup-insert (crates.encode key) blob new keys) ∙ found in
      elim (Bool-cases (eq (crates.encode key) blob)) [
        | inl same ↦
            let is_new : new ≡ d = cc (rw same at looked) in
            descriptor_of-IsPresent yk serial slot key blob d opens fetched
              ((eq_iff (crates.encode key) blob).0 same) is_new
        | inr other ↦ present blob d (rw other at looked)
      ]

  add_slots-ArePresent :
      (yk : Yubikey crates) (serial : ℕ) (slots : List ℕ) (keys : PivKeys crates)
      {keys' : PivKeys crates}
      → open_yubikey serial ≡ some yk
      → add_slots crates yk serial (pin_of env serial) slots keys ≡ ok keys'
      → ArePresent keys
      → ArePresent keys'
  unfolding add_slots
  add_slots-ArePresent yk serial [] keys opens h present = rw (← ok-injective h) present
  add_slots-ArePresent yk serial (n ∷ slots) keys opens h present =
      let (slot, _, k) = >>=-eq-ok (unwrap (crates.retired_slot_of_u8 n)) _ h in
      add_slots-ArePresent yk serial slots _ opens k
        (add_key-ArePresent yk serial slot (yk.ssh_cert_fetch_pubkey slot) keys opens refl present)

  add_serials-ArePresent :
      (serials : List ℕ) (keys : PivKeys crates) {keys' : PivKeys crates}
      → add_serials crates env open_yubikey serials keys ≡ ok keys'
      → ArePresent keys
      → ArePresent keys'
  unfolding add_serials
  add_serials-ArePresent [] keys h present = rw (← ok-injective h) present
  add_serials-ArePresent (serial ∷ serials) keys h present =
      let (yk, opens, k) =
        >>=-eq-ok (ok_or (could_not_open_yubikey serial) (open_yubikey serial)) _ h in
      let (more, added, l) =
        >>=-eq-ok (add_slots crates yk serial (pin_of env serial) (range 0x82 20) keys) _ k in
      add_serials-ArePresent serials more l
        (add_slots-ArePresent yk serial (range 0x82 20) keys (ok_or-eq-ok _ _ opens) added present)

  -- What get_all_piv_keys lists under a blob is a slot of a Yubikey that opens by the listed serial
  -- number, whose public key is the listed one and has this blob as its encoding, with the PIN of
  -- the environment for the serial number or the one for all.
  pub get_all_piv_keys-IsPresent :
      (readers : Run Text (List (Option ℕ))) (keys : PivKeys crates) (blob : Bytes)
      (d : YubikeyPivKeyDescriptor crates)
      → get_all_piv_keys crates env open_yubikey readers ≡ ok keys
      → lookup blob keys ≡ some d
      → IsPresent blob d
  unfolding get_all_piv_keys lookup
  get_all_piv_keys-IsPresent readers keys blob d h found =
      let (serials, _, k) = >>=-eq-ok (list_yubikey_serials readers) _ h in
      add_serials-ArePresent serials [] k (λ b e none_found. cc) blob d found
