-- ===== src/Agent/Clients/Accepted.antt =====
-- The agent and the server together: the challenge that the agent completes is accepted.
use rustica.Common.{ℕ, ◌+◌, ◌≤◌, ◌≡◌, ap, ◌∙◌, Bool, true, false, some, List, length, arith}
use rustica.Common.{Bool-cases, Option-cases, inl, inr, if◌then◌else◌}
use rustica.Common.Text.{Text, eq, eq_iff}
use rustica.Common.Words.{u64_max}
use rustica.Common.Run.{ok, err, ok_or, ok_or-eq-ok, guard-eq-ok, ok-injective}
use rustica.Keys.{Bytes}
use rustica.Foreign.{Foreign, Behaves}
use rustica.Logs
use rustica.Server
use rustica.Server.{Connection, Challenge}
use rustica.Server.Validate.{Validated, validate_request}
use rustica.Server.Challenges.{ChallengeResponse, challenge}
use rustica.Server.Challenges.RoundTrip.{answer_accepted, resigned_accepted, challenge_flag}
use rustica.Agent.{
  AgentCrates, Signatory, yubikey, direct, RusticaServer, pure, lift, notify, after,
}
use rustica.Agent.Clients.{
  signing_error, server_challenge_not_for_client_key, answered, RusticaClient, Network,
  get_rustica_client, public_key_of, resign, sign_challenge, challenge_of,
  complete_rustica_challenge,
}

-- Documented behaviour of sshcerts: a key that was printed is read back; assigning the signature key
-- and signing change no other field that the server reads; both ways of signing fail unless the
-- signature is valid under the signature key of the certificate, so that what they return is read back.
pub record AgentBehaves {f : Foreign} (crates : AgentCrates f) : Type 0 where
  pub parse-print_key :
      (k : f.PublicKey) → f.public_key_of_string (f.public_key_to_string k) ≡ some k
  pub signature_key-with :
      (k : f.PublicKey) (c : f.Certificate) → f.signature_key (crates.with_signature_key k c) ≡ k
  pub certified_key-with :
      (k : f.PublicKey) (c : f.Certificate)
      → f.certified_key (crates.with_signature_key k c) ≡ f.certified_key c
  pub key_id-with :
      (k : f.PublicKey) (c : f.Certificate) → f.key_id (crates.with_signature_key k c) ≡ f.key_id c
  pub fields-sign :
      (sk : f.PrivateKey) (c d : f.Certificate)
      → crates.sign_certificate sk c ≡ some d
      → (f.key_id d ≡ f.key_id c)
        × (f.certified_key d ≡ f.certified_key c)
        × (f.signature_key d ≡ f.signature_key c)
  pub fields-add_signature :
      (signature : Bytes) (c d : f.Certificate)
      → crates.add_signature signature c ≡ some d
      → (f.key_id d ≡ f.key_id c)
        × (f.certified_key d ≡ f.certified_key c)
        × (f.signature_key d ≡ f.signature_key c)
  pub parse-print-sign :
      (sk : f.PrivateKey) (c d : f.Certificate)
      → crates.sign_certificate sk c ≡ some d
      → f.certificate_of_string (f.certificate_to_string d) ≡ some d
  pub parse-print-add_signature :
      (signature : Bytes) (c d : f.Certificate)
      → crates.add_signature signature c ≡ some d
      → f.certificate_of_string (f.certificate_to_string d) ≡ some d

module _ (f : Foreign) (b : Behaves f) (crates : AgentCrates f) (a : AgentBehaves crates) where
  open f use {
    PublicKey, Certificate, certificate_of_string, certificate_to_string, certified_key,
    signature_key, key_id, fingerprint,
  }

  fields-resign :
      (signatory : Signatory crates) (c d : Certificate)
      → resign crates signatory c ≡ some d
      → (key_id d ≡ key_id c)
        × (certified_key d ≡ certified_key c)
        × (signature_key d ≡ signature_key c)
  unfolding resign
  fields-resign (direct sk) c d h = a.fields-sign sk c d h
  fields-resign (yubikey signer) c d h =
      elim (Option-cases (signer.yk.ssh_cert_signer (crates.tbs_certificate c) signer.slot)) [
        | inl e ↦ cc (rw e at h)
        | inr (signature, e) ↦ a.fields-add_signature signature c d (rw e at h)
      ]

  parse-print-resign :
      (signatory : Signatory crates) (c d : Certificate)
      → resign crates signatory c ≡ some d
      → certificate_of_string (certificate_to_string d) ≡ some d
  unfolding resign
  parse-print-resign (direct sk) c d h = a.parse-print-sign sk c d h
  parse-print-resign (yubikey signer) c d h =
      elim (Option-cases (signer.yk.ssh_cert_signer (crates.tbs_certificate c) signer.slot)) [
        | inl e ↦ cc (rw e at h)
        | inr (signature, e) ↦ a.parse-print-add_signature signature c d (rw e at h)
      ]

  -- A certificate that the client has signed is for its own key.
  record IsResigned (key : PublicKey) (issued back : Text) : Type 0 where
    parsed : Certificate
    resigned : Certificate
    read : certificate_of_string issued ≡ some parsed
    read_back : certificate_of_string back ≡ some resigned
    same_id : key_id resigned ≡ key_id parsed
    own_signature : certified_key resigned ≡ signature_key resigned
    own_key : fingerprint (certified_key resigned) ≡ fingerprint key

  sign_challenge-IsResigned :
      (signatory : Signatory crates) (notifies : Bool) (key : PublicKey) (issued back : Text)
      → (sign_challenge crates signatory notifies key issued).0 ≡ ok back
      → IsResigned key issued back
  unfolding sign_challenge
  sign_challenge-IsResigned signatory notifies key issued back h =
      after (lift (ok_or signing_error (certificate_of_string issued))) _ h λ parsed e1 h1.
        after
          (lift (
            if eq
              (fingerprint
                (certified_key (crates.with_signature_key (certified_key parsed) parsed)))
              (fingerprint key)
            then ok tt
            else err server_challenge_not_for_client_key))
          _ h1
          λ _ e2 h2. after (notify notifies) _ h2 λ _ e3 h3.
            after
              (lift (
                ok_or signing_error (
                  resign crates signatory
                    (crates.with_signature_key (certified_key parsed) parsed))))
              _ h3
              λ resigned e4 h4.
                let (same_id, same_key, same_signer) =
                  fields-resign signatory _ resigned (ok_or-eq-ok _ _ e4) in
                record {
                  parsed = parsed;
                  resigned = resigned;
                  read = ok_or-eq-ok _ _ e1;
                  read_back =
                      rw (← ok-injective h4)
                        (parse-print-resign signatory _ resigned (ok_or-eq-ok _ _ e4));
                  same_id = same_id ∙ a.key_id-with _ parsed;
                  own_signature = cc (
                    same_key,
                    same_signer,
                    a.certified_key-with (certified_key parsed) parsed,
                    a.signature_key-with (certified_key parsed) parsed,
                  );
                  own_key = ground (
                    arith,
                    same_key,
                    a.certified_key-with (certified_key parsed) parsed,
                    guard-eq-ok _ _ e2,
                    eq_iff
                        (fingerprint
                          (certified_key (crates.with_signature_key (certified_key parsed) parsed)))
                        (fingerprint key),
                  );
                }

  module _ (net : Network) (server : RusticaServer) (signatory : Signatory crates) (notifies : Bool)
      (srv : Server.RusticaServer f) (conn : Connection) (certs : List Bytes) (key : PublicKey)
      (time later : ℕ) (r : ChallengeResponse) (client : RusticaClient) (ch : Challenge)
      (c : conn.peer_certs ≡ some certs)
      (h : (challenge f srv conn (f.public_key_to_string key) (some time)).0 ≡ ok r)
      (not_before : time ≤ later) (in_window : later ≤ time + 5) (in_u64 : later ≤ u64_max) where
    abbrev IsValid : Challenge → Type 0
    IsValid ch =
        (v : Validated f) × (validate_request f srv certs ch (some later) ≡ Logs.pure v)
        × (v.ssh_pubkey ≡ key)

    unsigned_accepted :
        srv.require_rustica_proof ≡ false
        → length r.challenge ≤ 1024
        → IsValid (challenge_of crates (f.public_key_to_string key) r r.challenge)
    unsigned_accepted no_proof small =
        let (v, accepted, same) =
          answer_accepted f b srv conn certs (f.public_key_to_string key) time later r c h no_proof
            small not_before in_window in_u64 in
        (v, accepted, cc (same, a.parse-print_key key))

    signed_accepted :
        (back : Text)
        → srv.require_rustica_proof ≡ true
        → length back ≤ 1024
        → IsResigned key r.challenge back
        → IsValid (challenge_of crates (f.public_key_to_string key) r back)
    signed_accepted back proof small i =
        resigned_accepted f b srv conn certs (f.public_key_to_string key) time later r c h back
          i.resigned i.read_back small not_before in_window in_u64 proof i.parsed i.read i.same_id
          (ap fingerprint i.own_signature) key (a.parse-print_key key) i.own_key

    answer_IsValid :
        (back : Text)
        → (if r.no_signature_required
            then pure r.challenge
            else sign_challenge crates signatory notifies key r.challenge).0
          ≡ ok back
        → length back ≤ 1024
        → IsValid (challenge_of crates (f.public_key_to_string key) r back)
    answer_IsValid back e small =
        let flag = challenge_flag f b srv conn certs (f.public_key_to_string key) time r c h in
        elim (Bool-cases srv.require_rustica_proof) [
          | inl proof ↦ signed_accepted back proof small (
              sign_challenge-IsResigned signatory notifies key r.challenge back
                (rw (flag, proof) at e))
          | inr no_proof ↦
              let same : r.challenge ≡ back = ok-injective (rw (flag, no_proof) at e) in
              rw (← same) (unsigned_accepted no_proof (rw (← same) at small))
        ]

    -- Under the stated behaviour of the crates, if the server hands out a challenge for the key of
    -- a signatory over a connection with client certificates, the agent is connected and is given
    -- this challenge, and complete_rustica_challenge succeeds with an answer of at most 1024 bytes,
    -- then validate_request of the server accepts the answer over the same client certificates
    -- within five seconds, for the key of the signatory; this holds for a Yubikey and for a key in
    -- memory, and whether or not the server requires a proof.
    pub complete_rustica_challenge_accepted :
        (other : RusticaClient)
        → public_key_of crates signatory ≡ ok key
        → get_rustica_client net server ≡ ok client
        → client.challenge (f.public_key_to_string key) ≡ answered r
        → (complete_rustica_challenge crates net server signatory notifies).0 ≡ ok (other, ch)
        → length ch.challenge ≤ 1024
        → (v : Validated f) × (validate_request f srv certs ch (some later) ≡ Logs.pure v)
          × (v.ssh_pubkey ≡ key)
    unfolding complete_rustica_challenge
    complete_rustica_challenge_accepted other is_key connected sent done small =
        let done' = rw (is_key, connected, sent) at done in
        after
          (if r.no_signature_required
            then pure r.challenge
            else sign_challenge crates signatory notifies key r.challenge)
          _ done'
          λ back e made.
            let same : challenge_of crates (f.public_key_to_string key) r back ≡ ch =
              ap (λ (x : RusticaClient × Challenge). x.1) (ok-injective made) in
            rw (← same) (answer_IsValid back e (rw (← same) at small))
