-- ===== src/Server/Registrations/Recorded.antt =====
-- What stands behind a registered key, and that a refused request leaves the registry alone.
use rustica.Common.{
  ℕ, ◌≡◌, ◌≢◌, refl, sym, ap, ◌∙◌, true, false, Option, some, List, arith, ◌⊎◌, inl, inr,
}
use rustica.Common.Text.{Text, eq_iff}
use rustica.Common.Run.{Run, ok, err, panic, ok_or, ok_or-eq-ok, ok-injective}
use rustica.Errors.{RusticaServerError, AuthorizationError}
use rustica.Logs.{Log, Logged, lift, after}
use rustica.Keys.{Bytes, Key}
use rustica.Attestation.{verify_piv_certificate_chain, verify_u2f_certificate_chain}
use rustica.Foreign.{Foreign}
use rustica.Auth.{RegisterKeyRequestProperties, Authorizer}
use rustica.Server.{RusticaServer, Status, denied, Connection, Challenge}
use rustica.Server.Validate.{Validated, validate_request}
use rustica.Server.Registrations.{
  RegisterKeyRequest, RegisterU2fKeyRequest, refusing, Claim, claim_of, prepare, recorded,
  record_key, register_key, register_u2f_key,
}

refusing-eq-ok :
    {A : Type 0} (to : RusticaServerError → Status) (events : RusticaServerError → List Log)
    (m : Logged RusticaServerError A) {a : A}
    → (refusing to events m).0 ≡ ok a
    → m.0 ≡ ok a
refusing-eq-ok to events (ok a, l) h = ap ok (ok-injective h)
refusing-eq-ok to events (err e, l) h = cc
refusing-eq-ok to events (panic, l) h = cc

module _ (f : Foreign) where
  -- What is handed to the authorizer is the key that was proved, and its attestation if asked for.
  pub record IsProved (srv : RusticaServer f) (conn : Connection) (sent : Option Challenge)
      (key : Run RusticaServerError Key) (now : Option ℕ) (p : RegisterKeyRequestProperties)
      : Type 0 where
    pub challenge : Challenge
    pub peer : List Bytes
    pub v : Validated f
    pub challenged : sent ≡ some challenge
    pub presented : conn.peer_certs ≡ some peer
    pub validated : (validate_request f srv peer challenge now).0 ≡ ok v
    pub same_key : p.fingerprint ≡ f.fingerprint v.ssh_pubkey
    pub same_identities : p.mtls_identities ≡ v.identities
    pub attested :
        (srv.require_attestation_chain ≡ false)
        ⊎ ((k : Key) × (key ≡ ok k)
            × (k.fingerprint ≡ p.fingerprint)
            × (p.attestation ≡ k.attestation))

  record IsClaim (srv : RusticaServer f) (v : Validated f) (key : Run RusticaServerError Key)
      (c : Claim) : Type 0 where
    same_key : c.fingerprint ≡ f.fingerprint v.ssh_pubkey
    attested :
        (srv.require_attestation_chain ≡ false)
        ⊎ ((k : Key) × (key ≡ ok k)
            × (k.fingerprint ≡ c.fingerprint)
            × (c.attestation ≡ k.attestation))

  claim_of-IsClaim :
      (srv : RusticaServer f) (ip : Text) (v : Validated f) (key : Run RusticaServerError Key)
      (c : Claim)
      → (claim_of f srv ip v key).0 ≡ ok c
      → IsClaim srv v key c
  unfolding claim_of
  claim_of-IsClaim srv ip v (ok k) c h = record {
    same_key = ground (arith, eq_iff (f.fingerprint v.ssh_pubkey) k.fingerprint);
    attested = inr (k, refl, ground arith, ground arith);
  }
  claim_of-IsClaim srv ip v (err e) c h = record {
    same_key = ground arith;
    attested = inl (ground arith);
  }
  claim_of-IsClaim srv ip v panic c h = cc

  prepare-IsProved :
      (srv : RusticaServer f) (conn : Connection) (sent : Option Challenge)
      (to : RusticaServerError → Status) (events : RusticaServerError → List Log)
      (key : Run RusticaServerError Key) (now : Option ℕ) (p : RegisterKeyRequestProperties)
      → (prepare f srv conn sent to events key now).0 ≡ ok p
      → IsProved srv conn sent key now p
  unfolding prepare
  prepare-IsProved srv conn sent to events key now p h =
      after (lift (ok_or denied sent)) _ h λ challenge e1 h1.
        after (lift (ok_or denied conn.peer_certs)) _ h1 λ peer e2 h2.
          after (refusing to events (validate_request f srv peer challenge now)) _ h2 λ v e3 h3.
            after (claim_of f srv _ v key) _ h3 λ claim e4 h4.
              let c = claim_of-IsClaim srv _ v key claim e4 in
              let fp : claim.fingerprint ≡ p.fingerprint =
                ap (λ (x : RegisterKeyRequestProperties). x.fingerprint) (ok-injective h4) in
              let att : claim.attestation ≡ p.attestation =
                ap (λ (x : RegisterKeyRequestProperties). x.attestation) (ok-injective h4) in
              record {
                challenge = challenge;
                peer = peer;
                v = v;
                challenged = ok_or-eq-ok _ _ e1;
                presented = ok_or-eq-ok _ _ e2;
                validated = refusing-eq-ok to events _ e3;
                same_key = sym fp ∙ c.same_key;
                same_identities = sym (
                    ap (λ (x : RegisterKeyRequestProperties). x.mtls_identities) (ok-injective h4));
                attested = elim c.attested [
                  | inl r ↦ inl r
                  | inr (k, made, same, its) ↦ inr (k, made, same ∙ fp, sym att ∙ its)
                ];
              }

  not_attested :
      (srv : RusticaServer f) (conn : Connection) (sent : Option Challenge)
      (key : Run RusticaServerError Key) (now : Option ℕ) (p : RegisterKeyRequestProperties)
      (e : RusticaServerError)
      → IsProved srv conn sent key now p
      → srv.require_attestation_chain ≡ true
      → key ≡ err e
      → ⊥
  not_attested srv conn sent key now p e i required bad = elim i.attested [
    | inl free ↦ cc (required, free)
    | inr (k, made, _, _) ↦ cc (made, bad)
  ]

  module _ {S : Type 0} (auth : Authorizer S) where
    recorded-eq-ok :
        (p : RegisterKeyRequestProperties) (l : List Log)
        (answer : Run AuthorizationError (Unit {0}) × S)
        → (recorded f auth p l answer).0.0 ≡ ok tt
        → answer ≡ (ok tt, (recorded f auth p l answer).1)
    unfolding recorded
    recorded-eq-ok p l (ok tt, s) h = refl
    recorded-eq-ok p l (err e, s) h = cc
    recorded-eq-ok p l (panic, s) h = cc

    record_key-eq-ok :
        (m : Logged Status RegisterKeyRequestProperties) (s : S)
        → (record_key f auth m s).0.0 ≡ ok tt
        → (p : RegisterKeyRequestProperties) × (m.0 ≡ ok p)
          × (auth.register_key p s ≡ (ok tt, (record_key f auth m s).1))
    unfolding record_key
    record_key-eq-ok (ok p, l) s h = (p, refl, recorded-eq-ok p l (auth.register_key p s) h)
    record_key-eq-ok (err e, l) s h = cc
    record_key-eq-ok (panic, l) s h = cc

    -- If the handler register_key succeeds, then the authorizer took a key whose fingerprint the
    -- client proved, with its identities, and where the attestation chain is required, the chain
    -- attests this fingerprint and is what was handed over.
    pub register_key-IsProved :
        (srv : RusticaServer f) (conn : Connection) (req : RegisterKeyRequest) (now : Option ℕ)
        (s : S)
        → (register_key f auth srv conn req now s).0.0 ≡ ok tt
        → (p : RegisterKeyRequestProperties) × (auth.register_key p s
            ≡ (ok tt, (register_key f auth srv conn req now s).1))
          × IsProved srv conn req.challenge
              (verify_piv_certificate_chain f req.certificate req.intermediate)
              now
              p
    unfolding register_key
    register_key-IsProved srv conn req now s h =
        let (p, made, taken) = record_key-eq-ok _ s h in
        (p, taken, prepare-IsProved srv conn req.challenge _ _ _ now p made)

    -- If the handler register_u2f_key succeeds, then the authorizer took a key whose fingerprint
    -- the client proved, with its identities, and where the attestation chain is required, the FIDO
    -- attestation is for this fingerprint and is what was handed over.
    pub register_u2f_key-IsProved :
        (srv : RusticaServer f) (conn : Connection) (req : RegisterU2fKeyRequest) (now : Option ℕ)
        (s : S)
        → (register_u2f_key f auth srv conn req now s).0.0 ≡ ok tt
        → (p : RegisterKeyRequestProperties) × (auth.register_key p s
            ≡ (ok tt, (register_u2f_key f auth srv conn req now s).1))
          × IsProved srv conn req.challenge
              (verify_u2f_certificate_chain f req.auth_data req.auth_data_signature req.intermediate
                req.alg req.u2f_challenge req.sk_application req.u2f_challenge_hashed)
              now
              p
    unfolding register_u2f_key
    register_u2f_key-IsProved srv conn req now s h =
        let (p, made, taken) = record_key-eq-ok _ s h in
        (p, taken, prepare-IsProved srv conn req.challenge _ _ _ now p made)

    record_key-unchanged :
        (m : Logged Status RegisterKeyRequestProperties) (s : S)
        → ((p : RegisterKeyRequestProperties) → m.0 ≢ ok p)
        → ((record_key f auth m s).1 ≡ s) × ((record_key f auth m s).0.0 ≢ ok tt)
    unfolding record_key
    record_key-unchanged (ok p, l) s h = absurd (h p refl)
    record_key-unchanged (err e, l) s h = (refl, λ k. cc)
    record_key-unchanged (panic, l) s h = (refl, λ k. cc)

    -- Where the attestation chain is required and the PIV chain is not valid, the handler
    -- register_key does not succeed and the state of the authorizer stays as it is.
    register_key-unattested :
        (srv : RusticaServer f) (conn : Connection) (req : RegisterKeyRequest) (now : Option ℕ)
        (s : S) (e : RusticaServerError)
        → srv.require_attestation_chain ≡ true
        → verify_piv_certificate_chain f req.certificate req.intermediate ≡ err e
        → ((register_key f auth srv conn req now s).1 ≡ s)
          × ((register_key f auth srv conn req now s).0.0 ≢ ok tt)
    unfolding register_key
    register_key-unattested srv conn req now s e required bad = record_key-unchanged _ s (λ p made.
        not_attested srv conn req.challenge _ now p e
          (prepare-IsProved srv conn req.challenge _ _ _ now p made) required bad)

    -- Where the attestation chain is required and the FIDO attestation is not valid, the handler
    -- register_u2f_key does not succeed and the state of the authorizer stays as it is.
    register_u2f_key-unattested :
        (srv : RusticaServer f) (conn : Connection) (req : RegisterU2fKeyRequest) (now : Option ℕ)
        (s : S) (e : RusticaServerError)
        → srv.require_attestation_chain ≡ true
        → verify_u2f_certificate_chain f req.auth_data req.auth_data_signature req.intermediate
            req.alg req.u2f_challenge req.sk_application req.u2f_challenge_hashed
          ≡ err e
        → ((register_u2f_key f auth srv conn req now s).1 ≡ s)
          × ((register_u2f_key f auth srv conn req now s).0.0 ≢ ok tt)
    unfolding register_u2f_key
    register_u2f_key-unattested srv conn req now s e required bad =
        record_key-unchanged _ s (λ p made.
          not_attested srv conn req.challenge _ now p e
            (prepare-IsProved srv conn req.challenge _ _ _ now p made) required bad)
