-- ===== src/Server/Certificates/Issued.antt =====
-- What stands behind a certificate that the server hands out.
use rustica.Common.{
  ℕ, ◌≡◌, ◌≢◌, refl, sym, ◌∙◌, ap, Option, none, some, List, [], arith, if◌then◌else◌,
}
use rustica.Common.{Option-cases, inl, inr}
use rustica.Common.Text.{Text}
use rustica.Common.Run.{
  Run, ok, err, panic, ok_or, ok_or-eq-ok, guard-eq-ok, ok-injective, >>=-eq-ok,
}
use rustica.Errors.{RusticaServerError, AuthorizationError, bad_request, bad_cert_options}
use rustica.Logs.{Logged, lift, after}
use rustica.Keys.{Bytes}
use rustica.Foreign.{Foreign, CertType, Draft}
use rustica.Common.Maps.{lookup}
use rustica.Auth.{SshAuthorization, Authorizer}
use rustica.Auth.Database.{Database, local}
use rustica.Auth.Database.Grants.{Granted, authorize_ssh_cert-Granted}
use rustica.Signing
use rustica.Signing.{SigningError}
use rustica.Server.{RusticaServer, denied, SocketAddr, Connection, Challenge}
use rustica.Server.Validate.{Validated, validate_request}
use rustica.Server.Validate.Accepted.{Accepted, validate_request_sound}
use rustica.Server.Certificates.Drafted.{
  IsType, IsTimely, times_ok-IsTimely, cert_type_of-IsType, IsAsked, IsDraft, properties-IsAsked,
  draft_of-IsDraft,
}
use rustica.Server.Certificates.{
  CertificateRequest, CertificateResponse, create_response, Refusal, respond, status, responding,
  authorized, signer_key, settle, secs_or_max, cert_type_of, times_ok, authority_of, properties,
  draft_of, signed_text, renew, issue, certificate,
}

responding-eq-ok :
    {A : Type 0} (m : Logged RusticaServerError A) {a : A} → (responding m).0 ≡ ok a → m.0 ≡ ok a
responding-eq-ok (ok a, l) h = ap ok (ok-injective h)
responding-eq-ok (err e, l) h = cc
responding-eq-ok (panic, l) h = cc

authorized-eq-ok :
    {A : Type 0} (m : Run AuthorizationError A) {a : A} → authorized m ≡ ok a → m ≡ ok a
authorized-eq-ok (ok a) h = ap ok (ok-injective h)
authorized-eq-ok (err e) h = cc
authorized-eq-ok panic h = cc

signer_key-eq-ok : {A : Type 0} (m : Run SigningError A) {a : A} → signer_key m ≡ ok a → m ≡ ok a
signer_key-eq-ok (ok a) h = ap ok (ok-injective h)
signer_key-eq-ok (err e) h = cc
signer_key-eq-ok panic h = cc

module _ (f : Foreign) where
  open f use {PublicKey, Certificate, builder_takes, certificate_of_string, certificate_to_string}

  signed_text-eq-ok :
      (m : Run SigningError Certificate) {t : Text}
      → (signed_text f m).0 ≡ ok t
      → (c : Certificate) × (m ≡ ok c)
        × (t ≡ certificate_to_string c)
        × (certificate_of_string t ≢ none)
  unfolding signed_text
  signed_text-eq-ok (ok c) h =
      elim (Option-cases (certificate_of_string (certificate_to_string c))) [
        | inl e ↦ ground arith
        | inr (c', e) ↦ (c, refl, ground arith, ground arith)
      ]
  signed_text-eq-ok (err e) h = cc
  signed_text-eq-ok panic h = cc

  -- An authority that has a key of this type, and one that signs.
  abbrev pub HasKey : RusticaServer f → Text → CertType → PublicKey → Type 0
  HasKey srv authority cert_type key =
      (signer : Signing.Signer f) × (lookup authority srv.signer.authorities ≡ some signer)
      × (signer.get_signer_public_key cert_type ≡ some key)

  abbrev pub Signs : RusticaServer f → Text → Draft PublicKey → Certificate → Type 0
  Signs srv authority draft cert =
      (signer : Signing.Signer f) × (lookup authority srv.signer.authorities ≡ some signer)
      × (signer.sign draft ≡ ok cert)

  get_signer_public_key-HasKey :
      (srv : RusticaServer f) (authority : Text) (cert_type : CertType) {key : PublicKey}
      → Signing.get_signer_public_key f srv.signer authority cert_type ≡ ok key
      → HasKey srv authority cert_type key
  unfolding Signing.get_signer_public_key
  get_signer_public_key-HasKey srv authority cert_type h =
      let (signer, found, k) = >>=-eq-ok (Signing.signer_of f srv.signer authority) _ h in
      (signer, ok_or-eq-ok _ _ found, ok_or-eq-ok _ _ k)

  sign-Signs :
      (srv : RusticaServer f) (authority : Text) (draft : Draft PublicKey) {cert : Certificate}
      → Signing.sign f srv.signer authority draft ≡ ok cert
      → Signs srv authority draft cert
  unfolding Signing.sign
  sign-Signs srv authority draft h =
      let (signer, found, k) = >>=-eq-ok (Signing.signer_of f srv.signer authority) _ h in
      (signer, ok_or-eq-ok _ _ found, k)

  -- The facts behind a certificate: a request that was let through, a validity that is not over, a
  -- grant of the authorizer, and the signature of the granted authority on what was granted.
  pub record IsIssued {S : Type 0} (srv : RusticaServer f) (auth : Authorizer S) (conn : Connection)
      (req : CertificateRequest) (now now' : Option ℕ) (s : S) (r : CertificateResponse)
      : Type 0 where
    pub remote : SocketAddr
    pub challenge : Challenge
    pub peer : List Bytes
    pub v : Validated f
    pub cert_type : CertType
    pub ca_cert : PublicKey
    pub a : SshAuthorization
    pub cert : Certificate
    pub connected : conn.remote_addr ≡ some remote
    pub challenged : req.challenge ≡ some challenge
    pub presented : conn.peer_certs ≡ some peer
    pub accepted : Accepted f srv peer challenge now v
    pub timely : IsTimely req now'
    pub typed : IsType req.cert_type cert_type
    pub asked : IsAsked f srv req remote v cert_type (properties f srv req remote v cert_type)
    pub has_key : HasKey srv (properties f srv req remote v cert_type).authority cert_type ca_cert
    pub granted : auth.authorize_ssh_cert (properties f srv req remote v cert_type) s ≡ ok a
    pub drafted : IsDraft f v cert_type ca_cert a remote (draft_of f v cert_type ca_cert a remote)
    pub signed : Signs srv a.authority (draft_of f v cert_type ca_cert a remote) cert
    pub printed : r.certificate ≡ certificate_to_string cert
    pub readable : certificate_of_string r.certificate ≢ none

  module _ {S : Type 0} (srv : RusticaServer f) (auth : Authorizer S) (conn : Connection)
      (req : CertificateRequest) (now now' : Option ℕ) (s : S) (r : CertificateResponse) where
    issue-IsIssued :
        (issue f srv auth conn req now now' s).0 ≡ ok r → IsIssued srv auth conn req now now' s r
    unfolding issue properties
    issue-IsIssued h = after (lift (ok_or (status denied) conn.remote_addr)) _ h λ remote e1 h1.
        after (lift (ok_or (respond bad_request) req.challenge)) _ h1 λ challenge e2 h2.
          after (lift (ok_or (respond bad_request) conn.peer_certs)) _ h2 λ peer e3 h3.
            after (responding (validate_request f srv peer challenge now)) _ h3 λ v e4 h4.
              after
                (lift (
                  if times_ok req (secs_or_max now')
                  then ok tt
                  else err (respond bad_cert_options)))
                _ h4
                λ _ e5 h5.
                  after (lift (ok_or (respond bad_cert_options) (cert_type_of req.cert_type))) _ h5
                    λ cert_type e6 h6.
                      after
                        (lift (
                          signer_key (
                            Signing.get_signer_public_key f srv.signer (authority_of f srv req)
                              cert_type)))
                        _ h6
                        λ ca_cert e7 h7.
                          after
                            (lift (
                              authorized (
                                auth.authorize_ssh_cert (properties f srv req remote v cert_type)
                                  s)))
                            _ h7
                            λ a e8 h8.
                              after
                                (lift (
                                  if builder_takes v.ssh_pubkey cert_type ca_cert
                                  then ok tt
                                  else err (status denied)))
                                _ h8
                                λ _ e9 h9.
                                  after
                                    (signed_text f (
                                      Signing.sign f srv.signer a.authority
                                        (draft_of f v cert_type ca_cert a remote)))
                                    _ h9
                                    λ serialized e10 h10.
                                      after
                                        (lift (
                                          renew f v.refresh
                                            (Signing.get_client_certificate_authority f srv.signer
                                              srv.client_authority.authority)
                                            v.identities))
                                        _ h10
                                        λ renewed e11 h11.
                                          let (cert, signed, printed, readable) =
                                            signed_text-eq-ok _ e10 in
                                          let same : serialized ≡ r.certificate =
                                            ap (λ (x : CertificateResponse). x.certificate)
                                              (ok-injective h11) in
                                          record {
                                            remote = remote;
                                            challenge = challenge;
                                            peer = peer;
                                            v = v;
                                            cert_type = cert_type;
                                            ca_cert = ca_cert;
                                            a = a;
                                            cert = cert;
                                            connected = ok_or-eq-ok _ _ e1;
                                            challenged = ok_or-eq-ok _ _ e2;
                                            presented = ok_or-eq-ok _ _ e3;
                                            accepted =
                                                validate_request_sound f srv peer challenge now v
                                                  (responding-eq-ok _ e4);
                                            timely =
                                                times_ok-IsTimely req now' (guard-eq-ok _ _ e5);
                                            typed =
                                                cert_type_of-IsType req.cert_type cert_type
                                                  (ok_or-eq-ok _ _ e6);
                                            asked = properties-IsAsked f srv req remote v cert_type;
                                            has_key =
                                                get_signer_public_key-HasKey srv
                                                  (authority_of f srv req) cert_type
                                                  (signer_key-eq-ok _ e7);
                                            granted = authorized-eq-ok _ e8;
                                            drafted =
                                                draft_of-IsDraft f v cert_type ca_cert a remote;
                                            signed = sign-Signs srv a.authority _ signed;
                                            printed = sym same ∙ printed;
                                            readable = rw (← same) readable;
                                          }

    settle-eq-ok :
        (m : Logged Refusal CertificateResponse)
        → (settle m).0 ≡ ok r
        → r.certificate ≢ []
        → m.0 ≡ ok r
    unfolding create_response
    settle-eq-ok (ok x, l) h p = ap ok (ok-injective h)
    settle-eq-ok (err (respond e), l) h p =
        absurd (p (sym (ap (λ (x : CertificateResponse). x.certificate) (ok-injective h))))
    settle-eq-ok (err (status x), l) h p = cc
    settle-eq-ok (panic, l) h p = cc

    -- A reply of the handler certificate that holds a certificate has all of IsIssued behind it: an
    -- accepted challenge; a validity that does not end before it starts and is not over at the
    -- clock; the type that the request names; an authority that has a key of this type; the
    -- authorizer's grant, asked for the proved key, the identities of the client and the wishes of
    -- the request, of the default authority where it names none; and the signature of the granted
    -- authority on a draft for the proved key with the granted fields, which reads as a
    -- certificate.
    pub certificate-IsIssued :
        (certificate f srv auth conn req now now' s).0 ≡ ok r
        → r.certificate ≢ []
        → IsIssued srv auth conn req now now' s r
    unfolding certificate
    certificate-IsIssued h p =
        issue-IsIssued (settle-eq-ok (issue f srv auth conn req now now' s) h p)

  -- Over the local database a reply with a certificate rests on a permission row for the
  -- fingerprint and the requested authority, the granted authority is the requested one, and the
  -- start of the validity is the requested one.
  pub certificate-local :
      (hex : Bytes → Text) (refusal : Text) (clock : ℕ) (srv : RusticaServer f) (conn : Connection)
      (req : CertificateRequest) (now now' : Option ℕ) (db : Database) (r : CertificateResponse)
      → (certificate f srv (local hex refusal (some clock)) conn req now now' db).0 ≡ ok r
      → r.certificate ≢ []
      → (i : IsIssued srv (local hex refusal (some clock)) conn req now now' db r) × Granted clock
          (properties f srv req i.remote i.v i.cert_type)
          db
          i.a
        × (i.a.authority ≡ authority_of f srv req)
        × (i.a.valid_after ≡ req.valid_after)
  unfolding properties
  certificate-local hex refusal clock srv conn req now now' db r h p =
      let i =
        certificate-IsIssued srv (local hex refusal (some clock)) conn req now now' db r h p in
      let g =
        authorize_ssh_cert-Granted clock (properties f srv req i.remote i.v i.cert_type) db i.a
          i.granted in
      (i, g, g.authority, g.from)
