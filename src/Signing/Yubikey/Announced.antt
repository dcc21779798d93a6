-- ===== src/Signing/Yubikey/Announced.antt =====
-- The slot that signs is the one whose key is announced.
use rustica.Common.{◌≡◌, refl, ap, ◌∙◌, Option, none, some}
use rustica.Common.Text.{text}
use rustica.Common.Run.{ok, ok_or, unwrap, >>=-eq-ok, ok_or-eq-ok, ok-injective}
use rustica.Foreign.{Foreign, CertType, user, host, Draft}
use rustica.Keys.{Bytes}
use rustica.Signing.{access_error, signing_failure, signer_does_not_have_ssh_keys}
use rustica.Signing.Yubikey.{
  Device, Config, SshKey, SshKeys, YubikeySigner, ssh_key, keys_of, authority_of, into_signer,
  key_for, sign, signer,
}
use rustica.Signing.Yubikey as Y

module _ (f : Foreign) (yk : Device f) where
  open f use {PublicKey, Certificate}

  -- Each of the keys was read from its slot.
  abbrev AreFetched : SshKeys f yk → Type 0
  AreFetched keys =
      (k : CertType)
      → yk.ssh_cert_fetch_pubkey (key_for f yk k keys).slot ≡ some (key_for f yk k keys).public_key

  ssh_key-fetched :
      (slot : yk.SlotId) {key : SshKey f yk}
      → ssh_key f yk slot ≡ ok key
      → yk.ssh_cert_fetch_pubkey key.slot ≡ some key.public_key
  unfolding ssh_key
  ssh_key-fetched slot h =
      let (key, fetched, k) =
        >>=-eq-ok
          (ok_or (access_error (text "Could fetch public key for user key"))
            (yk.ssh_cert_fetch_pubkey slot))
          _ h in
      rw (← ok-injective k) (ok_or-eq-ok _ _ fetched)

  both-AreFetched :
      (u h : SshKey f yk)
      → yk.ssh_cert_fetch_pubkey u.slot ≡ some u.public_key
      → yk.ssh_cert_fetch_pubkey h.slot ≡ some h.public_key
      → AreFetched (record { user_key = u; host_key = h })
  both-AreFetched u h a b user = a
  both-AreFetched u h a b host = b

  keys_of-AreFetched :
      (u h : Option yk.SlotId) (keys : SshKeys f yk)
      → keys_of f yk u h ≡ ok (some keys)
      → AreFetched keys
  unfolding keys_of
  keys_of-AreFetched (some u) (some h) keys made =
      let (first, a, made1) = >>=-eq-ok (ssh_key f yk u) _ made in
      let (second, b, made2) = >>=-eq-ok (ssh_key f yk h) _ made1 in
      let same : record { user_key = first; host_key = second } ≡ keys = cc (ok-injective made2) in
      rw (← same) (both-AreFetched first second (ssh_key-fetched u a) (ssh_key-fetched h b))
  keys_of-AreFetched none none keys made = cc (ok-injective made)
  keys_of-AreFetched (some u) none keys made = cc
  keys_of-AreFetched none (some h) keys made = cc

  into_signer-AreFetched :
      (c : Config f yk) (s : YubikeySigner f yk) (keys : SshKeys f yk)
      → into_signer f yk c ≡ ok s
      → s.ssh_keys ≡ some keys
      → AreFetched keys
  unfolding into_signer
  into_signer-AreFetched c s keys h has =
      let (_, _, h1) = >>=-eq-ok (unwrap yk.connected) _ h in
      let (found, made, h2) = >>=-eq-ok (keys_of f yk c.user_slot c.host_slot) _ h1 in
      let (_, _, h3) = >>=-eq-ok (authority_of f yk (some (text "Rustica")) c.x509_slot) _ h2 in
      let (_, _, h4) =
        >>=-eq-ok
          (authority_of f yk c.client_certificate_authority_common_name
            c.client_certificate_authority_slot)
          _ h3 in
      let same : found ≡ some keys =
        ap (λ (x : YubikeySigner f yk). x.ssh_keys) (ok-injective h4) ∙ has in
      keys_of-AreFetched c.user_slot c.host_slot keys (rw same at made)

  -- A certificate of the signer carries a signature of the slot whose key the signer announces.
  abbrev pub BySlot : PublicKey → Draft PublicKey → Certificate → Type 0
  BySlot key draft certificate =
      (slot : yk.SlotId) × (signature : Bytes) × (yk.ssh_cert_fetch_pubkey slot ≡ some key)
      × (yk.ssh_cert_signer (yk.tbs_certificate draft) slot ≡ some signature)
      × (yk.add_signature signature draft ≡ some certificate)

  -- A certificate from a Yubikey signer, made by into_signer, carries a signature of the slot whose
  -- key the signer announces for the type of the certificate, and this key is what the Yubikey has
  -- in the slot.
  pub into_signer-BySlot :
      (c : Config f yk) (s : YubikeySigner f yk) (draft : Draft PublicKey)
      (certificate : Certificate)
      → into_signer f yk c ≡ ok s
      → sign f yk s draft ≡ ok certificate
      → (key : PublicKey) × (Y.get_signer_public_key f yk s draft.cert_type ≡ some key)
        × BySlot key draft certificate
  unfolding sign Y.get_signer_public_key
  into_signer-BySlot c s draft certificate h signed =
      let (keys, has, h1) = >>=-eq-ok (ok_or signer_does_not_have_ssh_keys s.ssh_keys) _ signed in
      let (_, _, h2) = >>=-eq-ok (unwrap yk.connected) _ h1 in
      let (signature, made, h3) =
        >>=-eq-ok
          (ok_or signing_failure (
            yk.ssh_cert_signer (yk.tbs_certificate draft) (key_for f yk draft.cert_type keys).slot))
          _ h2 in
      let known = ok_or-eq-ok _ _ has in
      (
        (key_for f yk draft.cert_type keys).public_key,
        rw known refl,
        (
          (key_for f yk draft.cert_type keys).slot,
          signature,
          into_signer-AreFetched c s keys h known draft.cert_type,
          ok_or-eq-ok _ _ made,
          ok_or-eq-ok _ _ h3,
        ),
      )
