-- ===== src/Signing/Kms/Announced.antt =====
-- The key of the service that signs is the one that is announced.
use rustica.Common.{◌≡◌, refl, ap, ◌∙◌, Option, none, some}
use rustica.Common.Text.{Text, text}
use rustica.Common.Run.{ok, ok_or, >>=-eq-ok, ok_or-eq-ok, ok-injective}
use rustica.Keys.{Bytes}
use rustica.Foreign.{Foreign, CertType, user, host, Draft}
use rustica.Signing.{parsing_error, signer_does_not_have_ssh_keys}
use rustica.Signing.Kms as K
use rustica.Signing.Kms.{
  Kms, KmsKeyDefinition, KmsAnswer, answered, failed, value_of, Config, SshKmsKey, SshKeys,
  AmazonKmsSigner, known, ssh_key_from_kms, keys_of, authority_of, client_name, into_signer,
  key_for, sign,
}

value_of-eq-ok :
    (failure : Text → Text) (missing : Text) (a : KmsAnswer) {value : Bytes}
    → value_of failure missing a ≡ ok value
    → a ≡ answered (some value)
value_of-eq-ok failure missing (failed e) h = cc
value_of-eq-ok failure missing (answered none) h = cc
value_of-eq-ok failure missing (answered (some v)) h = ap (λ x. answered (some x)) (ok-injective h)

module _ (f : Foreign) (kms : Kms f) where
  open f use {PublicKey, Certificate}

  -- The service has this public key under the name.
  abbrev pub Holds : Text → PublicKey → Type 0
  Holds key_id key =
      (der : Bytes) × (kms.get_public_key key_id ≡ answered (some der))
      × (kms.der_encoding_to_ssh_public_key der ≡ some key)

  abbrev AreHeld : SshKeys f kms → Type 0
  AreHeld keys =
      (k : CertType) → Holds (key_for f kms k keys).key_id (key_for f kms k keys).public_key

  ssh_key_from_kms-Holds :
      (key_id key_alg : Text) {key : SshKmsKey f kms}
      → ssh_key_from_kms f kms key_id key_alg ≡ ok key
      → Holds key.key_id key.public_key
  unfolding ssh_key_from_kms
  ssh_key_from_kms-Holds key_id key_alg h =
      let (der, got, h1) = >>=-eq-ok (value_of _ _ (kms.get_public_key key_id)) _ h in
      let (key, read, h2) = >>=-eq-ok (ok_or _ (kms.der_encoding_to_ssh_public_key der)) _ h1 in
      let (_, _, h3) = >>=-eq-ok (known f kms (kms.spec_of key_alg)) _ h2 in
      rw (← ok-injective h3)
        (der, value_of-eq-ok _ _ (kms.get_public_key key_id) got, ok_or-eq-ok _ _ read)

  both-AreHeld :
      (u h : SshKmsKey f kms)
      → Holds u.key_id u.public_key
      → Holds h.key_id h.public_key
      → AreHeld (record { user_key = u; host_key = h })
  both-AreHeld u h a b user = a
  both-AreHeld u h a b host = b

  keys_of-AreHeld :
      (u h : Option KmsKeyDefinition) (keys : SshKeys f kms)
      → keys_of f kms u h ≡ ok (some keys)
      → AreHeld keys
  unfolding keys_of
  keys_of-AreHeld (some u) (some h) keys made =
      let (first, a, made1) = >>=-eq-ok (ssh_key_from_kms f kms u.id u.algorithm) _ made in
      let (second, b, made2) = >>=-eq-ok (ssh_key_from_kms f kms h.id h.algorithm) _ made1 in
      let same : record { user_key = first; host_key = second } ≡ keys = cc (ok-injective made2) in
      rw (← same) (
        both-AreHeld first second (ssh_key_from_kms-Holds u.id u.algorithm a)
          (ssh_key_from_kms-Holds h.id h.algorithm b))
  keys_of-AreHeld none none keys made = cc (ok-injective made)
  keys_of-AreHeld (some u) none keys made = cc
  keys_of-AreHeld none (some h) keys made = cc

  into_signer-AreHeld :
      (c : Config f kms) (s : AmazonKmsSigner f kms) (keys : SshKeys f kms)
      → into_signer f kms c ≡ ok s
      → s.ssh_keys ≡ some keys
      → AreHeld keys
  unfolding into_signer
  into_signer-AreHeld c s keys h has =
      let (found, made, h1) = >>=-eq-ok (keys_of f kms c.user_key c.host_key) _ h in
      let (_, _, h2) = >>=-eq-ok (authority_of f kms (text "Rustica") c.x509_key) _ h1 in
      let (_, _, h3) =
        >>=-eq-ok
          (authority_of f kms (client_name f kms c.client_certificate_authority_key)
            c.client_certificate_authority_key)
          _ h2 in
      let same : found ≡ some keys =
        ap (λ (x : AmazonKmsSigner f kms). x.ssh_keys) (ok-injective h3) ∙ has in
      keys_of-AreHeld c.user_key c.host_key keys (rw same at made)

  -- The certificate carries a signature that the service made with the key it holds under this name.
  abbrev pub ByKey : PublicKey → Draft PublicKey → Certificate → Type 0
  ByKey key draft certificate =
      (key_id : Text) × (algorithm : K.SigningAlgorithmSpec) × (raw signature : Bytes) × Holds
        key_id key
      × (kms.kms_sign key_id algorithm (kms.tbs_certificate draft) ≡ answered (some raw))
      × (kms.format_signature_for_ssh key raw ≡ some signature)
      × (kms.add_signature signature draft ≡ some certificate)

  -- A certificate of a signer that into_signer made carries a signature of the service, by the key that
  -- it holds under the name of the key that the signer announces for the type of the certificate.
  into_signer-ByKey :
      (c : Config f kms) (s : AmazonKmsSigner f kms) (draft : Draft PublicKey)
      (certificate : Certificate)
      → into_signer f kms c ≡ ok s
      → sign f kms s draft ≡ ok certificate
      → (key : PublicKey) × (K.get_signer_public_key f kms s draft.cert_type ≡ some key)
        × ByKey key draft certificate
  unfolding sign K.get_signer_public_key
  into_signer-ByKey c s draft certificate h signed =
      let (keys, has, h1) = >>=-eq-ok (ok_or signer_does_not_have_ssh_keys s.ssh_keys) _ signed in
      let key = key_for f kms draft.cert_type keys in
      let (raw, made, h2) =
        >>=-eq-ok
          (value_of _ _
            (kms.kms_sign key.key_id key.key_signing_algorithm (kms.tbs_certificate draft)))
          _ h1 in
      let (signature, formatted, h3) =
        >>=-eq-ok (ok_or parsing_error (kms.format_signature_for_ssh key.public_key raw)) _ h2 in
      let present = ok_or-eq-ok _ _ has in
      (
        key.public_key,
        rw present refl,
        (
          key.key_id,
          key.key_signing_algorithm,
          raw,
          signature,
          into_signer-AreHeld c s keys h present draft.cert_type,
          value_of-eq-ok _ _
              (kms.kms_sign key.key_id key.key_signing_algorithm (kms.tbs_certificate draft)) made,
          ok_or-eq-ok _ _ formatted,
          ok_or-eq-ok _ _ h3,
        ),
      )
