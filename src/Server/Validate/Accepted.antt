-- ===== src/Server/Validate/Accepted.antt =====
-- What an accepted request has shown.
use rustica.Common.{
  leb, leb_iff, sym, ap, ◌∙◌, ◌++◌, ℕ, ◌≤◌, ◌≡◌, refl, Bool, true, false, Option, some, List, arith,
  first, length,
}
use rustica.Common.Text.{text, Text, eq_iff, commas}
use rustica.Common.Words.{sub64}
use rustica.Common.Decimal.{parse_u64}
use rustica.Common.Run.{ok, ok_or, ok_or-eq-ok, ok-injective}
use rustica.Keys.{Bytes}
use rustica.Logs.{
  pure, lift, check, ok_or_warn, rustica_warning, after, check-eq-ok, ok_or_warn-eq-ok,
}
use rustica.Errors.{bad_request, unknown, time_expired, bad_challenge}
use rustica.Foreign.{Foreign}
use rustica.Server.{RusticaServer, Challenge, MtlsCertificateInfo}
use rustica.Server.Peer.{extract_certificate_information}
use rustica.Server.Validate.{payload, refresh_settings, Validated, check_signer, validate_request}

module _ (f : Foreign) where
  open f use {
    PublicKey, Certificate, public_key_of_string, fingerprint, pubkey, certificate_of_string,
    key_id, certified_key, signature_key, hmac_verify, hex_decode,
  }

  -- Who has signed the certificate: the server, or the key that the client is to prove.
  abbrev pub SignedBy : RusticaServer f → Certificate → PublicKey → Bool → Type 0
  SignedBy srv c key true =
      (fingerprint (certified_key c) ≡ fingerprint (signature_key c))
      × (fingerprint (certified_key c) ≡ fingerprint key)
  SignedBy srv c key false = fingerprint (signature_key c) ≡ fingerprint (pubkey srv.challenge_key)

  pub record Accepted (srv : RusticaServer f) (certs : List Bytes) (ch : Challenge) (now : Option ℕ)
      (v : Validated f) : Type 0 where
    pub peer : Bytes
    pub info : MtlsCertificateInfo
    pub request_time : ℕ
    pub time : ℕ
    pub parsed : Certificate
    pub tag : Bytes
    pub presented : first certs ≡ some peer
    pub read : extract_certificate_information f peer ≡ ok info
    pub same_identities : v.identities ≡ info.identities
    pub requested_at : parse_u64 ch.challenge_time ≡ some request_time
    pub checked_at : now ≡ some time
    pub fresh : sub64 time request_time ≤ 5
    pub small : length ch.challenge ≤ 1024
    pub returned : certificate_of_string ch.challenge ≡ some parsed
    pub decoded : hex_decode (key_id parsed) ≡ some tag
    pub authentic :
        hmac_verify srv.hmac_key (payload request_time ch.pubkey info.identities) tag ≡ true
    pub same_key : public_key_of_string ch.pubkey ≡ some v.ssh_pubkey
    pub signed : SignedBy srv parsed v.ssh_pubkey srv.require_rustica_proof
    pub renewal : v.refresh ≡ refresh_settings srv.client_authority info.expiry_timestamp time

  check_signer_sound :
      (srv : RusticaServer f) (from : Text) (c : Certificate) (key : PublicKey) (b : Bool)
      → srv.require_rustica_proof ≡ b
      → (check_signer f srv from c key).0 ≡ ok tt
      → SignedBy srv c key b
  unfolding check_signer
  check_signer_sound srv from c key true e h = (
    ground (arith, eq_iff (fingerprint (certified_key c)) (fingerprint (signature_key c))),
    ground (arith, eq_iff (fingerprint (certified_key c)) (fingerprint key)),
  )
  check_signer_sound srv from c key false e h =
      ground
        (arith, eq_iff (fingerprint (signature_key c)) (fingerprint (pubkey srv.challenge_key)))

  -- If validate_request succeeds, then all of Accepted holds: the time of the challenge is at most
  -- five seconds from the clock (in the wrap-around subtraction of u64), its HMAC is verified over
  -- the time, the key and the identities of the presented certificate, the certificate is small and
  -- readable and signed by the server or, where a proof is required, by the very key, and the key
  -- and the identities returned are those.
  pub validate_request_sound :
      (srv : RusticaServer f) (certs : List Bytes) (ch : Challenge) (now : Option ℕ)
      (v : Validated f)
      → (validate_request f srv certs ch now).0 ≡ ok v
      → Accepted srv certs ch now v
  unfolding validate_request
  validate_request_sound srv certs ch now v h =
      after (lift (ok_or bad_request (first certs))) _ h λ peer presented h1.
        after (lift (extract_certificate_information f peer)) _ h1 λ info read h2.
          after (lift (ok_or unknown (parse_u64 ch.challenge_time))) _ h2
            λ request_time requested_at h3.
              after (lift (ok_or unknown now)) _ h3 λ time checked_at h4.
                after
                  (check (leb (sub64 time request_time) 5) time_expired (
                    rustica_warning
                      (text "Expired challenge received from: " ++ commas info.identities)))
                  _ h4
                  λ _ fresh h5.
                    after
                      (check (leb (length ch.challenge) 1024) unknown (
                        rustica_warning (
                          text "Received a certificate that is far too large from from: "
                          ++ commas info.identities)))
                      _ h5
                      λ _ small h6.
                        after
                          (ok_or_warn bad_challenge
                            (rustica_warning
                              (text "Received a bad certificate from: " ++ commas info.identities))
                            (certificate_of_string ch.challenge))
                          _ h6
                          λ parsed returned h7.
                            after (lift (ok_or bad_challenge (hex_decode (key_id parsed)))) _ h7
                              λ tag decoded h8.
                                after
                                  (check
                                    (hmac_verify srv.hmac_key
                                      (payload request_time ch.pubkey info.identities) tag)
                                    bad_challenge
                                    (rustica_warning (
                                      text "Received a bad challenge from: "
                                      ++ commas info.identities)))
                                  _ h8
                                  λ _ authentic h9.
                                    after
                                      (ok_or_warn bad_challenge _ (public_key_of_string ch.pubkey))
                                      _ h9
                                      λ key same h10.
                                        after
                                          (check_signer f srv (commas info.identities) parsed key) _
                                          h10
                                          λ _ signed h11.
                                            let e : record {
                                              ssh_pubkey = key;
                                              identities = info.identities;
                                              refresh =
                                                  refresh_settings srv.client_authority
                                                    info.expiry_timestamp time;
                                            }
                                                ≡ v =
                                              ok-injective h11 in
                                            record {
                                              peer = peer;
                                              info = info;
                                              request_time = request_time;
                                              time = time;
                                              parsed = parsed;
                                              tag = tag;
                                              presented = ok_or-eq-ok _ _ presented;
                                              read = read;
                                              same_identities =
                                                  sym (ap (λ (x : Validated f). x.identities) e);
                                              requested_at = ok_or-eq-ok _ _ requested_at;
                                              checked_at = ok_or-eq-ok _ _ checked_at;
                                              fresh = (leb_iff _ _).0 (check-eq-ok _ _ _ fresh);
                                              small = (leb_iff _ _).0 (check-eq-ok _ _ _ small);
                                              returned = ok_or_warn-eq-ok _ _ _ returned;
                                              decoded = ok_or-eq-ok _ _ decoded;
                                              authentic = check-eq-ok _ _ _ authentic;
                                              same_key =
                                                  ok_or_warn-eq-ok _ _ _ same
                                                  ∙ ap (λ (x : Validated f). some x.ssh_pubkey) e;
                                              signed = rw (← e) (
                                                  check_signer_sound srv (commas info.identities)
                                                    parsed key _ refl signed);
                                              renewal = sym (ap (λ (x : Validated f). x.refresh) e);
                                            }

  check_signer_complete :
      (srv : RusticaServer f) (from : Text) (c : Certificate) (key : PublicKey) (b : Bool)
      → srv.require_rustica_proof ≡ b
      → SignedBy srv c key b
      → check_signer f srv from c key ≡ pure tt
  unfolding check_signer
  check_signer_complete srv from c key true e (h, k) = ground (
    arith,
    eq_iff (fingerprint (certified_key c)) (fingerprint (signature_key c)),
    eq_iff (fingerprint (certified_key c)) (fingerprint key),
  )
  check_signer_complete srv from c key false e h =
      ground
        (arith, eq_iff (fingerprint (signature_key c)) (fingerprint (pubkey srv.challenge_key)))

  -- If all of Accepted holds of a request and a result, then validate_request returns this result
  -- and sends no event.
  pub validate_request_complete :
      (srv : RusticaServer f) (certs : List Bytes) (ch : Challenge) (now : Option ℕ)
      (v : Validated f)
      → Accepted srv certs ch now v
      → validate_request f srv certs ch now ≡ pure v
  unfolding validate_request
  validate_request_complete srv certs ch now v a = ground (
    arith,
    check_signer_complete srv (commas a.info.identities) a.parsed v.ssh_pubkey _ refl a.signed,
  )
