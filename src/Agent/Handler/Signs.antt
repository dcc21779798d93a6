-- ===== src/Agent/Handler/Signs.antt =====
-- What the agent signs, and with which key.

use rustica.Common.{ℕ, ◌≡◌, ◌⊎◌, refl, sym, true, Option, none, some, inl, inr}
use rustica.Common.{Option-cases, Bool-cases, if◌then◌else◌}
use rustica.Common.Text.{Text, text, eq, eq_iff, eq_refl}
use rustica.Common.Maps.{lookup, insert, lookup-insert}
use rustica.Common.Run.{ok, err, ok_or, ok_or-eq-ok, guard-eq-ok, ok-injective}
use rustica.Keys.{Bytes}
use rustica.Foreign.{Foreign}
use rustica.Agent.{
  details, AgentCrates, Yubikey, Signatory, yubikey, direct, pure, lift, notify, after,
}
use rustica.Agent.Protocol.{Response, sign_response}
use rustica.Agent.Config.{Toml}
use rustica.Agent.Handler.{
  YubikeyPivKeyDescriptor, Handler, HandlerState, Surroundings, key_of_blob, signature_of, unlock,
  sign_with_piv, sign_with_signatory, sign_as, sign_request, add_identity, management_key,
}

module _ {f : Foreign} (crates : AgentCrates f) (toml : Toml) (h : Handler crates)
    (around : ℕ → Surroundings crates) where
  open f use {PublicKey, PrivateKey, fingerprint, pubkey}

  -- The PIN of the key, if there is one, opened the Yubikey.
  abbrev pub Unlocked : Option Text → Yubikey crates → Type 0
  Unlocked none yk = Unit
  Unlocked (some pin) yk = yk.unlock pin management_key ≡ true

  abbrev pub ByAdded : HandlerState crates → Bytes → Bytes → Bytes → Type 0
  ByAdded s blob message signature =
      (sk : PrivateKey) × (lookup blob s.identities ≡ some sk)
      × (crates.sign_data sk message ≡ some signature)

  -- The Yubikey with the key that has this blob.
  abbrev pub ByPiv : Surroundings crates → Bytes → Bytes → Bytes → Type 0
  ByPiv a blob message signature =
      (d : YubikeyPivKeyDescriptor crates) × (yk : Yubikey crates) × (lookup blob h.piv_identities
        ≡ some d)
      × (a.open_yubikey d.serial ≡ some yk)
      × Unlocked d.pin yk
      × (yk.ssh_cert_signer message d.slot ≡ some signature)

  -- The signatory, whose key has the fingerprint of the requested one.
  abbrev pub BySignatory : Signatory crates → PublicKey → Bytes → Bytes → Type 0
  BySignatory (direct sk) key message signature =
      (fingerprint (pubkey sk) ≡ fingerprint key) × (crates.sign_data sk message ≡ some signature)
  BySignatory (yubikey signer) key message signature =
      (own : PublicKey) × (signer.yk.ssh_cert_fetch_pubkey signer.slot ≡ some own)
      × (fingerprint own ≡ fingerprint key)
      × (signer.yk.ssh_cert_signer message signer.slot ≡ some signature)

  signature_of-eq-ok :
      (e : Text) (o : Option Bytes) {r : Response}
      → (signature_of crates toml h around e o).0 ≡ ok r
      → (signature : Bytes) × (r ≡ sign_response signature) × (o ≡ some signature)
  signature_of-eq-ok e none k = cc
  signature_of-eq-ok e (some signature) k = (signature, sym (ok-injective k), refl)

  unlock-Unlocked :
      (pin : Option Text) (yk : Yubikey crates) {u : Unit {0}}
      → (unlock crates toml h around pin yk).0 ≡ ok u
      → Unlocked pin yk
  unlock-Unlocked none yk k = tt
  unlock-Unlocked (some pin) yk k = elim (Bool-cases (yk.unlock pin management_key)) [
    | inl opened ↦ opened
    | inr shut ↦ elim (Option-cases yk.get_pin_retries) [
      | inl e ↦ cc (rw (shut, e) at k)
      | inr (tries, e) ↦ cc (rw (shut, e) at k)
    ]
  ]

  sign_with_piv-ByPiv :
      (a : Surroundings crates) (d : YubikeyPivKeyDescriptor crates) (blob message : Bytes)
      (r : Response)
      → lookup blob h.piv_identities ≡ some d
      → (sign_with_piv crates toml h around a d message).0 ≡ ok r
      → (signature : Bytes) × (r ≡ sign_response signature) × ByPiv a blob message signature
  unfolding sign_with_piv
  sign_with_piv-ByPiv a d blob message r found k =
      after (lift (ok_or (details (text "Unable to open Yubikey")) (a.open_yubikey d.serial))) _ k
        λ yk e1 k1. after (notify h.notifies) _ k1 λ _ e2 k2.
          after (unlock crates toml h around d.pin yk) _ k2 λ u e3 k3.
            let (signature, same, made) = signature_of-eq-ok (text "Yubikey signing error") _ k3 in
            (
              signature,
              same,
              (d, yk, found, ok_or-eq-ok _ _ e1, unlock-Unlocked d.pin yk {u = u} e3, made),
            )

  sign_with_signatory-BySignatory :
      (signatory : Signatory crates) (key : PublicKey) (message : Bytes) (r : Response)
      → (sign_with_signatory crates toml h around signatory key message).0 ≡ ok r
      → (signature : Bytes) × (r ≡ sign_response signature)
        × BySignatory signatory key message signature
  unfolding sign_with_signatory
  sign_with_signatory-BySignatory (direct sk) key message r k =
      after
        (lift (
          if eq (fingerprint (pubkey sk)) (fingerprint key)
          then ok tt
          else err (details (text "No such key"))))
        _ k
        λ _ e1 k1. after (if crates.is_sk sk then notify h.notifies else pure tt) _ k1 λ _ e2 k2.
          let (signature, same, made) = signature_of-eq-ok (text "Signing Error") _ k2 in
          (
            signature,
            same,
            ((eq_iff (fingerprint (pubkey sk)) (fingerprint key)).0 (guard-eq-ok _ _ e1), made),
          )
  sign_with_signatory-BySignatory (yubikey signer) key message r k =
      after
        (lift (
          ok_or (details (text "Yubikey fetch certificate error"))
            (signer.yk.ssh_cert_fetch_pubkey signer.slot)))
        _ k
        λ own e1 k1.
          after
            (lift (
              if eq (fingerprint own) (fingerprint key)
              then ok tt
              else err (details (text "No such key"))))
            _ k1
            λ _ e2 k2. after (notify h.notifies) _ k2 λ _ e3 k3.
              let (signature, same, made) =
                signature_of-eq-ok (text "Yubikey signing error") _ k3 in
              (
                signature,
                same,
                (
                  own,
                  ok_or-eq-ok _ _ e1,
                  (eq_iff (fingerprint own) (fingerprint key)).0 (guard-eq-ok _ _ e2),
                  made,
                ),
              )

  abbrev pub IsSigned : Surroundings crates → HandlerState crates → Bytes → Bytes → Bytes → Type 0
  IsSigned a s blob message signature =
      ByAdded s blob message signature
      ⊎ (ByPiv a blob message signature
          ⊎ ((key : PublicKey) × (key_of_blob crates toml h around blob ≡ some key)
              × BySignatory h.signatory key message signature))

  sign_as-IsSigned :
      (a : Surroundings crates) (key : PublicKey) (blob message : Bytes) (s : HandlerState crates)
      (r : Response)
      → key_of_blob crates toml h around blob ≡ some key
      → (sign_as crates toml h around a key blob message s).0 ≡ ok r
      → (signature : Bytes) × (r ≡ sign_response signature) × IsSigned a s blob message signature
  unfolding sign_as
  sign_as-IsSigned a key blob message s r named k = elim (Option-cases (lookup blob s.identities)) [
    | inr (sk, added) ↦
        let (signature, same, made) =
          signature_of-eq-ok (text "Signing Error") (crates.sign_data sk message)
            (rw (added, sign_as) at k) in
        (signature, same, inl (sk, added, made))
    | inl other ↦ elim (Option-cases (lookup blob h.piv_identities)) [
      | inr (d, found) ↦
          let (signature, same, by) =
            sign_with_piv-ByPiv a d blob message r found (rw (other, sign_as, found) at k) in
          (signature, same, inr (inl by))
      | inl unknown ↦
          let (signature, same, by) =
            sign_with_signatory-BySignatory h.signatory key message r
              (rw (other, sign_as, unknown) at k) in
          (signature, same, inr (inr (key, named, by)))
    ]
  ]

  -- If sign_request of the agent answers, then the answer is a signature of the message, and it was
  -- made by a key that was added under the requested blob, by the Yubikey of the serial number
  -- listed for the blob, unlocked where it has a PIN, or by the signatory, whose key has the
  -- fingerprint of the one that the blob names.
  pub sign_request-IsSigned :
      (blob message : Bytes) (flags : ℕ) (s : HandlerState crates) (r : Response)
      → (sign_request crates toml h around blob message flags s).0 ≡ ok r
      → (signature : Bytes) × (r ≡ sign_response signature)
        × IsSigned (around s.calls) s blob message signature
  unfolding sign_request
  sign_request-IsSigned blob message flags s r k =
      after
        (lift (ok_or (details (text "Invalid key blob")) (key_of_blob crates toml h around blob))) _
        k λ key e k1. sign_as-IsSigned (around s.calls) key blob message s r (ok_or-eq-ok _ _ e) k1

  -- After add_identity of a key whose blob names a key, a request to sign for this blob is answered
  -- with the signature that the added key makes, if it makes one.
  add_identity-sign_request :
      (sk : PrivateKey) (message signature : Bytes) (flags : ℕ) (s : HandlerState crates)
      (key : PublicKey)
      → key_of_blob crates toml h around (crates.encode (pubkey sk)) ≡ some key
      → crates.sign_data sk message ≡ some signature
      → (sign_request crates toml h around
          (crates.encode (pubkey sk))
          message
          flags
          (add_identity crates toml h around sk s).1).0
        ≡ ok (sign_response signature)
  unfolding sign_request add_identity sign_as
  add_identity-sign_request sk message signature flags s key named made =
      let blob = crates.encode (pubkey sk) in
      let found : lookup blob (insert blob sk s.identities) ≡ some sk =
        rw (lookup-insert blob blob sk s.identities, eq_refl blob) refl in
      rw (named, found, made, sign_as) refl
