-- ===== src/Server/Challenges/RoundTrip.antt =====
-- A challenge that the server hands out opens its own `validate_request`.
use rustica.Common.{
  ℕ, ◌+◌, ◌≤◌, ◌≡◌, refl, ap, ◌∙◌, true, false, some, List, [], arith, length, first, not,
  Option-cases, inl, inr,
}
use rustica.Common.Text.{Text}
use rustica.Common.Words.{u64_max, sub64-of_le}
use rustica.Common.Decimal.{print_u64, parse-print_u64}
use rustica.Common.Run.{ok, Run-cases}
use rustica.Logs.{pure}
use rustica.Keys.{Bytes}
use rustica.Foreign.{Foreign, Behaves}
use rustica.Server.{RusticaServer, Challenge, Connection, MtlsCertificateInfo}
use rustica.Server.Peer.{extract_certificate_information}
use rustica.Server.Validate.{Validated, validate_request, payload, refresh_settings}
use rustica.Server.Validate.Accepted.{SignedBy, Accepted, validate_request_complete}
use rustica.Server.Challenges.{ChallengeResponse, challenge, challenge_draft}

-- The challenge as the client sends it back unchanged.
abbrev pub answer : Text → ChallengeResponse → Challenge
answer key r = record {
  pubkey = key;
  challenge = r.challenge;
  challenge_signature = [];
  challenge_time = r.time;
}

module _ (f : Foreign) (b : Behaves f) where
  open f use {PublicKey, PrivateKey, Certificate, sign_draft, public_key_of_string}

  -- What the handler has done when it answers.
  record Issued (srv : RusticaServer f) (certs : List Bytes) (key : Text) (time : ℕ)
      (r : ChallengeResponse) : Type 0 where
    peer : Bytes
    info : MtlsCertificateInfo
    ssh_pubkey : PublicKey
    cert : Certificate
    presented : first certs ≡ some peer
    read : extract_certificate_information f peer ≡ ok info
    parsed : public_key_of_string key ≡ some ssh_pubkey
    signed :
        sign_draft srv.challenge_key (
          challenge_draft f srv ssh_pubkey
            (f.hex_encode (f.hmac_sign srv.hmac_key (payload time key info.identities))))
        ≡ some cert
    printed : r.challenge ≡ f.certificate_to_string cert
    stamped : r.time ≡ print_u64 time
    flagged : r.no_signature_required ≡ not srv.require_rustica_proof

  challenge_issues :
      (srv : RusticaServer f) (conn : Connection) (certs : List Bytes) (key : Text) (time : ℕ)
      (r : ChallengeResponse)
      → conn.peer_certs ≡ some certs
      → (challenge f srv conn key (some time)).0 ≡ ok r
      → Issued srv certs key time r
  unfolding challenge
  challenge_issues srv conn certs key time r c h = elim (Option-cases (first certs)) [
    | inl e ↦ ground arith
    | inr (peer, presented) ↦ elim (Run-cases (extract_certificate_information f peer)) [
      | inr e ↦ ground arith
      | inl (info, read) ↦ elim (Option-cases (public_key_of_string key)) [
        | inl e ↦ ground arith
        | inr (k, parsed) ↦
            elim (Option-cases (
              sign_draft srv.challenge_key (
                challenge_draft f srv k
                  (f.hex_encode (f.hmac_sign srv.hmac_key (payload time key info.identities)))))) [
                    | inl e ↦ ground arith
                    | inr (cert, signed) ↦ record {
                      peer = peer;
                      info = info;
                      ssh_pubkey = k;
                      cert = cert;
                      presented = presented;
                      read = read;
                      parsed = parsed;
                      signed = signed;
                      printed = ground arith;
                      stamped = ground arith;
                      flagged = ground arith;
                    }
                  ]
      ]
    ]
  ]

  -- A challenge says whether it is to be signed.
  pub challenge_flag :
      (srv : RusticaServer f) (conn : Connection) (certs : List Bytes) (key : Text) (time : ℕ)
      (r : ChallengeResponse)
      → conn.peer_certs ≡ some certs
      → (challenge f srv conn key (some time)).0 ≡ ok r
      → r.no_signature_required ≡ not srv.require_rustica_proof
  challenge_flag srv conn certs key time r c h =
      let i = challenge_issues srv conn certs key time r c h in i.flagged

  -- A certificate that carries the tag of an issued challenge is accepted within five seconds.
  module _ (srv : RusticaServer f) (conn : Connection) (certs : List Bytes) (key : Text)
      (time later : ℕ) (r : ChallengeResponse) (c : conn.peer_certs ≡ some certs)
      (h : (challenge f srv conn key (some time)).0 ≡ ok r) (back : Text) (parsed : Certificate)
      (returned : f.certificate_of_string back ≡ some parsed) (small : length back ≤ 1024)
      (not_before : time ≤ later) (in_window : later ≤ time + 5) (in_u64 : later ≤ u64_max) where
    carried_Accepted :
        (i : Issued srv certs key time r) (v : Validated f)
        → f.key_id parsed
          ≡ f.hex_encode (f.hmac_sign srv.hmac_key (payload time key i.info.identities))
        → v.identities ≡ i.info.identities
        → v.ssh_pubkey ≡ i.ssh_pubkey
        → v.refresh ≡ refresh_settings srv.client_authority i.info.expiry_timestamp later
        → SignedBy f srv parsed v.ssh_pubkey srv.require_rustica_proof
        → Accepted f srv certs (record (answer key r) { challenge = back }) (some later) v
    carried_Accepted i v carries same_ids same_key same_refresh who = record {
      peer = i.peer;
      info = i.info;
      request_time = time;
      time = later;
      parsed = parsed;
      tag = f.hmac_sign srv.hmac_key (payload time key i.info.identities);
      presented = i.presented;
      read = i.read;
      same_identities = same_ids;
      requested_at = rw i.stamped (parse-print_u64 time (omega arith));
      checked_at = refl;
      fresh = omega (arith, sub64-of_le later time (omega arith) not_before);
      small = small;
      returned = returned;
      decoded = rw carries (b.decode-encode _);
      authentic = b.verify-sign _ _;
      same_key = rw same_key i.parsed;
      signed = who;
      renewal = same_refresh;
    }

    -- What the certificate of a challenge says, once it was printed and read back.
    Issued-key_id :
        (i : Issued srv certs key time r)
        → f.key_id i.cert
          ≡ f.hex_encode (f.hmac_sign srv.hmac_key (payload time key i.info.identities))
    unfolding challenge_draft
    Issued-key_id i = b.key_id-sign _ _ _ i.signed

    read_back :
        (i : Issued srv certs key time r) → f.certificate_of_string r.challenge ≡ some i.cert
    read_back i = rw i.printed (b.parse-print _ _ i.cert i.signed)

    abbrev accepted_as : Issued srv certs key time r → PublicKey → Validated f
    accepted_as i own = record {
      ssh_pubkey = own;
      identities = i.info.identities;
      refresh = refresh_settings srv.client_authority i.info.expiry_timestamp later;
    }

    -- Under the stated behaviour of the crates, where the server requires a proof, a certificate
    -- that carries the key id of the issued challenge, certified for and signed by the client's own
    -- key, is accepted within five seconds and yields that key.
    pub resigned_accepted :
        srv.require_rustica_proof ≡ true
        → (issued : Certificate) → f.certificate_of_string r.challenge ≡ some issued
        → f.key_id parsed ≡ f.key_id issued
        → f.fingerprint (f.certified_key parsed) ≡ f.fingerprint (f.signature_key parsed)
        → (own : PublicKey) → public_key_of_string key ≡ some own
        → f.fingerprint (f.certified_key parsed) ≡ f.fingerprint own
        → (v : Validated f) × (validate_request f srv certs
              (record (answer key r) { challenge = back })
              (some later)
            ≡ pure v)
          × (v.ssh_pubkey ≡ own)
    resigned_accepted proof issued sent same_id resigned own is_own proved =
        let i = challenge_issues srv conn certs key time r c h in
        let same : issued ≡ i.cert = cc (read_back i) in
        let keys : own ≡ i.ssh_pubkey = cc (i.parsed) in
        (
          accepted_as i own,
          validate_request_complete f srv certs _ (some later) (accepted_as i own) (
              carried_Accepted i (accepted_as i own) (same_id ∙ ap f.key_id same ∙ Issued-key_id i)
                refl keys refl (rw proof (resigned, proved))),
          refl,
        )

  -- Under the stated behaviour of the crates, a server that requires no proof accepts its own
  -- challenge, of at most 1024 bytes and sent back unchanged over a connection with the same
  -- certificates, within five seconds, and yields the key that asked.
  pub answer_accepted :
      (srv : RusticaServer f) (conn : Connection) (certs : List Bytes) (key : Text) (time later : ℕ)
      (r : ChallengeResponse)
      → conn.peer_certs ≡ some certs
      → (challenge f srv conn key (some time)).0 ≡ ok r
      → srv.require_rustica_proof ≡ false
      → length r.challenge ≤ 1024
      → time ≤ later
      → later ≤ time + 5
      → later ≤ u64_max
      → (v : Validated f) × (validate_request f srv certs (answer key r) (some later) ≡ pure v)
        × (public_key_of_string key ≡ some v.ssh_pubkey)
  unfolding challenge_draft
  answer_accepted srv conn certs key time later r c h no_proof small after window fits =
      let i = challenge_issues srv conn certs key time r c h in
      let read : f.certificate_of_string r.challenge ≡ some i.cert =
        rw i.printed (b.parse-print _ _ i.cert i.signed) in
      let v : Validated f = record {
        ssh_pubkey = i.ssh_pubkey;
        identities = i.info.identities;
        refresh = refresh_settings srv.client_authority i.info.expiry_timestamp later;
      } in
      (
        v,
        validate_request_complete f srv certs (answer key r) (some later) v (
            carried_Accepted srv conn certs key time later r c h r.challenge i.cert read small after
              window fits i v (b.key_id-sign _ _ _ i.signed) refl refl refl
              (rw no_proof (ap f.fingerprint (b.signature_key-sign _ _ _ i.signed)))),
        i.parsed,
      )
