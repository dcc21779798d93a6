-- ===== src/Attestation/Limits.antt =====
-- rustica/src/verification.rs: what stands behind an attested PIV key.
use rustica.Common.{◌≤◌, ◌≡◌, refl, Option-cases, inl, inr, some, arith, length}
use rustica.Common.Run.{ok}
use rustica.Keys.{Bytes, Key, PivAttestation, piv, pin_policy_of, touch_policy_of}
use rustica.Foreign.{Foreign, PivData}
use rustica.Attestation.{cert_max_size, verify_piv_certificate_chain}

module _ (f : Foreign) where
  -- An attested PIV key: both certificates are small, and the chain vouches for key and policies.
  pub record Attests (client intermediate : Bytes) (k : Key) : Type 0 where
    pub chain : PivData f.PublicKey
    pub att : PivAttestation
    pub verified : f.verify_certificate_chain client intermediate ≡ some chain
    pub small_client : length client ≤ cert_max_size
    pub small_intermediate : length intermediate ≤ cert_max_size
    pub same_key : k.fingerprint ≡ f.fingerprint chain.public_key
    pub attested : k.attestation ≡ some (piv att)
    pub same_serial : att.serial ≡ chain.serial
    pub touch : touch_policy_of chain.touch_policy ≡ some att.touch_policy
    pub pin : pin_policy_of chain.pin_policy ≡ some att.pin_policy

  -- If verify_piv_certificate_chain returns a key, then both certificates are of at most 2048
  -- bytes, the chain was verified, and the fingerprint, the serial number and the policies are
  -- those that the chain attests.
  pub verify_piv_certificate_chain-Attests :
      (client intermediate : Bytes) (k : Key)
      → verify_piv_certificate_chain f client intermediate ≡ ok k
      → Attests client intermediate k
  unfolding verify_piv_certificate_chain
  verify_piv_certificate_chain-Attests client intermediate k h =
      elim (Option-cases (f.verify_certificate_chain client intermediate)) [
        | inl e ↦ ground arith
        | inr (chain, verified) ↦ elim (Option-cases (pin_policy_of chain.pin_policy)) [
          | inl e ↦ ground arith
          | inr (pin, is_pin) ↦ elim (Option-cases (touch_policy_of chain.touch_policy)) [
            | inl e ↦ ground arith
            | inr (touch, is_touch) ↦ record {
              chain = chain;
              att = record {
                pin_policy = pin;
                touch_policy = touch;
                serial = chain.serial;
                firmware = chain.firmware;
                certificate = client;
                intermediate = intermediate;
              };
              verified = verified;
              small_client = ground arith;
              small_intermediate = ground arith;
              same_key = ground arith;
              attested = ground arith;
              same_serial = refl;
              touch = is_touch;
              pin = is_pin;
            }
          ]
        ]
      ]
