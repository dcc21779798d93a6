-- ===== src/Server/Certificates/Drafted.antt =====
-- What the handler `certificate` asks of the authorizer, and what it puts into a certificate.
use rustica.Common.{ℕ, ◌≡◌, ◌≢◌, ◌≤◌, refl, true, false, Option, none, some, [], ◌∷◌, ◌++◌, arith}
use rustica.Common.{Bool-cases, Option-cases, inl, inr, if◌then◌else◌}
use rustica.Common.Text.{Text, text, is_empty, eq}
use rustica.Common.Words.{u64_max}
use rustica.Common.Maps.{lookup, insert}
use rustica.Foreign.{Foreign, CertType, user, host, Draft}
use rustica.Auth.{SshAuthorization, SshAuthorizationRequestProperties}
use rustica.Server.{RusticaServer, SocketAddr}
use rustica.Server.Validate.{Validated}
use rustica.Server.Certificates.{
  CertificateRequest, secs_or_max, cert_type_of, times_ok, critical_options, authority_of,
  properties, draft_of,
}

-- The number of a type in a request.
abbrev pub IsType : ℕ → CertType → Type 0
IsType n user = n ≡ 1
IsType n host = n ≡ 2

-- The validity does not end before it starts, and is not over at a reading of the clock.
pub record IsTimely (req : CertificateRequest) (now : Option ℕ) : Type 0 where
  pub ordered : req.valid_after ≤ req.valid_before
  pub not_over : (t : ℕ) → now ≡ some t → t ≤ req.valid_before
  -- a clock that cannot be read counts as the last second
  pub unread : now ≡ none → u64_max ≤ req.valid_before

pub times_ok-IsTimely :
    (req : CertificateRequest) (now : Option ℕ)
    → times_ok req (secs_or_max now) ≡ true
    → IsTimely req now
unfolding times_ok
times_ok-IsTimely req now h = record {
  ordered = ground arith;
  not_over = λ t e. ground (arith, e);
  unread = λ e. ground (arith, e);
}

pub cert_type_of-IsType :
    (n : ℕ) (cert_type : CertType) → cert_type_of n ≡ some cert_type → IsType n cert_type
unfolding cert_type_of
cert_type_of-IsType n user h = ground arith
cert_type_of-IsType n host h = ground arith

module _ (f : Foreign) where
  open f use {PublicKey, fingerprint}

  -- The authorizer is asked for the proved key and the identities of the client, and for what the
  -- request wants, of the default authority where the request names none.
  pub record IsAsked (srv : RusticaServer f) (req : CertificateRequest) (remote : SocketAddr)
      (v : Validated f) (cert_type : CertType) (asked : SshAuthorizationRequestProperties)
      : Type 0 where
    pub proved_key : asked.fingerprint ≡ fingerprint v.ssh_pubkey
    pub same_identities : asked.mtls_identities ≡ v.identities
    pub same_ip : asked.requester_ip ≡ remote.shown
    pub same_principals : asked.principals ≡ req.principals
    pub same_servers : asked.servers ≡ req.servers
    pub same_after : asked.valid_after ≡ req.valid_after
    pub same_before : asked.valid_before ≡ req.valid_before
    pub same_type : asked.cert_type ≡ cert_type
    pub default_authority : req.key_id ≡ [] → asked.authority ≡ srv.signer.default_authority
    pub named_authority : req.key_id ≢ [] → asked.authority ≡ req.key_id

  -- The certificate is for the proved key and says what was granted.
  pub record IsDraft (v : Validated f) (cert_type : CertType) (ca_cert : PublicKey)
      (a : SshAuthorization) (remote : SocketAddr) (draft : Draft PublicKey) : Type 0 where
    pub proved_key : draft.key ≡ v.ssh_pubkey
    pub same_type : draft.cert_type ≡ cert_type
    pub same_ca_key : draft.ca_key ≡ ca_cert
    pub same_serial : draft.serial ≡ a.serial
    pub named : draft.key_id ≡ text "Rustica-JITC-for-" ++ fingerprint v.ssh_pubkey
    pub same_principals : draft.principals ≡ a.principals
    pub same_after : draft.valid_after ≡ a.valid_after
    pub same_before : draft.valid_before ≡ a.valid_before
    pub same_extensions : draft.extensions ≡ a.extensions
    pub forced_command :
        (cmd : Text)
        → a.force_command ≡ some cmd
        → lookup (text "force-command") draft.critical_options ≡ some cmd
    pub forced_source :
        a.force_source_ip ≡ true
        → lookup (text "source-address") draft.critical_options ≡ some remote.ip
    pub unforced : a.force_command ≡ none → a.force_source_ip ≡ false → draft.critical_options ≡ []

  pub properties-IsAsked :
      (srv : RusticaServer f) (req : CertificateRequest) (remote : SocketAddr) (v : Validated f)
      (cert_type : CertType)
      → IsAsked srv req remote v cert_type (properties f srv req remote v cert_type)
  unfolding properties authority_of
  properties-IsAsked srv req remote v cert_type = record {
    proved_key = refl;
    same_identities = refl;
    same_ip = refl;
    same_principals = refl;
    same_servers = refl;
    same_after = refl;
    same_before = refl;
    same_type = refl;
    default_authority = λ e. rw e refl;
    named_authority = λ p. authority_lem srv.signer.default_authority req.key_id p;
  }
    where
      authority_lem :
          (other key_id : Text) → key_id ≢ [] → (if is_empty key_id then other else key_id) ≡ key_id
      authority_lem other [] p = absurd (p refl)
      authority_lem other (c ∷ key_id) p = refl

  forced_command_lem :
      (a : SshAuthorization) (remote : SocketAddr) (cmd : Text)
      → a.force_command ≡ some cmd
      → lookup (text "force-command") (critical_options a remote) ≡ some cmd
  unfolding critical_options lookup insert eq
  forced_command_lem a remote cmd e = elim (Bool-cases a.force_source_ip) [
    | inl s ↦ rw (critical_options, e, s) refl
    | inr s ↦ rw (critical_options, e, s) refl
  ]

  forced_source_lem :
      (a : SshAuthorization) (remote : SocketAddr)
      → a.force_source_ip ≡ true
      → lookup (text "source-address") (critical_options a remote) ≡ some remote.ip
  unfolding critical_options lookup insert eq
  forced_source_lem a remote s = elim (Option-cases a.force_command) [
    | inl e ↦ rw (critical_options, s, e) refl
    | inr (cmd, e) ↦ rw (critical_options, s, e) refl
  ]

  unforced_lem :
      (a : SshAuthorization) (remote : SocketAddr)
      → a.force_command ≡ none
      → a.force_source_ip ≡ false
      → critical_options a remote ≡ []
  unfolding critical_options
  unforced_lem a remote e s = rw (critical_options, e, s) refl

  pub draft_of-IsDraft :
      (v : Validated f) (cert_type : CertType) (ca_cert : PublicKey) (a : SshAuthorization)
      (remote : SocketAddr)
      → IsDraft v cert_type ca_cert a remote (draft_of f v cert_type ca_cert a remote)
  unfolding draft_of
  draft_of-IsDraft v cert_type ca_cert a remote = record {
    proved_key = refl;
    same_type = refl;
    same_ca_key = refl;
    same_serial = refl;
    named = refl;
    same_principals = refl;
    same_after = refl;
    same_before = refl;
    same_extensions = refl;
    forced_command = λ cmd e. forced_command_lem a remote cmd e;
    forced_source = λ s. forced_source_lem a remote s;
    unforced = λ e s. unforced_lem a remote e s;
  }
