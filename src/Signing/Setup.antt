-- ===== src/Signing/Setup.antt =====
-- rustica/src/signing/mod.rs: `convert_to_signing_mechanism`, which builds the signers and refuses
-- a key that two of them, or the two roles of one of them, would share. The source walks a
-- `HashMap`, so the entries come in any order.
pub mod Distinct
use rustica.Common.{Bool, Option, none, some, List, [], ◌∷◌, if◌then◌else◌}
use rustica.Common.Text.{Text, eq}
use rustica.Common.Maps.{Map, lookup, insert}
use rustica.Common.Run.{Run, ok, err, ◌>>=◌, ◌>>◌}
use rustica.Foreign.{Foreign, CertType, user, host}
use rustica.Signing.{
  SigningError, identical_user_and_host_key, duplicated_key, Signer, SigningMechanism,
}

-- if let (Some(user_hash), Some(host_hash)) = … { if user_hash == host_hash { return Err(…) } }
unfoldable pub check_roles : Text → Option Text → Option Text → Run SigningError (Unit {0})
check_roles name (some user_hash) (some host_hash) =
    if eq user_hash host_hash then err (identical_user_and_host_key name) else ok tt
check_roles name none _ = ok tt
check_roles name (some _) none = ok tt

-- A fingerprint that was seen is refused; a new one is remembered with its authority.
unfoldable pub remember : Text → Option Text → Map Text → Run SigningError (Map Text)
remember name none seen = ok seen
remember name (some hash) seen = elim (lookup hash seen) [
  | some existing ↦ err (duplicated_key name existing)
  | none ↦ ok (insert hash name seen)
]

module _ (f : Foreign) where
  open f use {PublicKey, fingerprint}

  unfoldable pub hash_of : Signer f → CertType → Option Text
  hash_of s cert_type = elim (s.get_signer_public_key cert_type) [
    | none ↦ none
    | some key ↦ some (fingerprint key)
  ]

  -- the loop: the signers built, the fingerprints seen, and the entries to come
  unfoldable pub convert_from :
      Map (Signer f)
      → Map Text
      → List (Text × Run SigningError (Signer f))
      → Run SigningError (Map (Signer f))
  convert_from built seen [] = ok built
  convert_from built seen ((name, into_signer) ∷ rest) = do
    s ← into_signer
    check_roles name (hash_of s user) (hash_of s host)
    seen' ← remember name (hash_of s user) seen
    seen'' ← remember name (hash_of s host) seen'
    convert_from (insert name s built) seen'' rest

  unfoldable pub convert_to_signing_mechanism :
      Text → List (Text × Run SigningError (Signer f)) → Run SigningError (SigningMechanism f)
  unfolding convert_from
  convert_to_signing_mechanism default_authority configurations = do
    built ← convert_from [] [] configurations
    ok (record { default_authority = default_authority; authorities = built })
