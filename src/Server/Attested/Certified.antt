-- ===== src/Server/Attested/Certified.antt =====
-- What stands behind an attested X509 certificate.
use rustica.Common.{◌≡◌, ap, some, List, [], ◌∷◌}
use rustica.Common.Text.{Text, text, eq_iff, eq, commas}
use rustica.Common.Run.{Run, ok, err, panic, ok_or, ok_or-eq-ok, ok-injective}
use rustica.Errors.{AuthorizationError}
use rustica.Logs.{lift, check, ok_or_warn, after, ok_or_warn-eq-ok, check-eq-ok}
use rustica.Keys.{Bytes, Key}
use rustica.Foreign.{Foreign}
use rustica.Attestation.{verify_piv_certificate_chain}
use rustica.Attestation.Limits.{Attests, verify_piv_certificate_chain-Attests}
use rustica.Auth.{X509Authorization, Authorizer}
use rustica.Signing
use rustica.Server.{
  RusticaServer, Status, denied, permission_denied, SocketAddr, Connection, MtlsCertificateInfo,
}
use rustica.Server.Peer.{extract_certificate_information}
use rustica.Server.Attested.{
  AttestedX509CertificateRequest, AttestedX509CertificateResponse, or_status, only_peer,
  x509_authorized, csr_params, x509_properties, no_authority, unsigned, unreadable, invalid_csr,
  mismatch, attested_x509_certificate,
}

only_peer-eq-ok :
    (remote : Text) (certs : List Bytes) {peer : Bytes}
    → (only_peer remote certs).0 ≡ ok peer
    → certs ≡ peer ∷ []
unfolding only_peer
only_peer-eq-ok remote [] h = cc
only_peer-eq-ok remote (c ∷ []) h = ap (λ x. x ∷ []) (ok-injective h)
only_peer-eq-ok remote (c ∷ d ∷ cs) h = cc

or_status-eq-ok :
    {E A : Type 0} (s : Status) (r : Run E A) {a : A} → or_status s r ≡ ok a → r ≡ ok a
or_status-eq-ok s (ok a) h = ap ok (ok-injective h)
or_status-eq-ok s (err e) h = cc
or_status-eq-ok s panic h = cc

x509_authorized-eq-ok :
    {A : Type 0} (from : Text) (r : Run AuthorizationError A) {a : A}
    → (x509_authorized from r).0 ≡ ok a
    → r ≡ ok a
unfolding x509_authorized
x509_authorized-eq-ok from (ok a) h = ap ok (ok-injective h)
x509_authorized-eq-ok from (err e) h = cc
x509_authorized-eq-ok from panic h = cc

module _ (f : Foreign) where
  open f use {
    X509, Csr, CaCertificate, parse_x509_certificate, subject_pki, csr_from_der,
    serialize_der_with_signer,
  }

  -- The facts behind a certificate: one client certificate, a verified attestation of the key, a
  -- grant for it, and a certificate of the granted authority for the attested key itself.
  pub record IsCertified {S : Type 0} (srv : RusticaServer f) (auth : Authorizer S)
      (conn : Connection) (req : AttestedX509CertificateRequest) (s : S)
      (r : AttestedX509CertificateResponse) : Type 0 where
    pub remote : SocketAddr
    pub peer : Bytes
    pub info : MtlsCertificateInfo
    pub key : Key
    pub a : X509Authorization
    pub csr : Csr
    pub ca : CaCertificate
    pub new_certificate : X509
    pub leaf : X509
    pub connected : conn.remote_addr ≡ some remote
    pub presented : conn.peer_certs ≡ some (peer ∷ [])
    pub read : extract_certificate_information f peer ≡ ok info
    pub attested : Attests f req.attestation req.attestation_intermediate key
    pub granted :
        auth.authorize_attested_x509_cert (x509_properties f srv req remote info key) s ≡ ok a
    pub requested : csr_from_der req.csr ≡ some csr
    pub has_ca :
        Signing.get_attested_x509_certificate_authority f srv.signer a.authority ≡ ok (some ca)
    pub signed : serialize_der_with_signer csr (csr_params a) ca ≡ some r.certificate
    pub readable : parse_x509_certificate r.certificate ≡ some new_certificate
    pub attesting : parse_x509_certificate req.attestation ≡ some leaf
    pub same_key : subject_pki new_certificate ≡ subject_pki leaf

  module _ {S : Type 0} (srv : RusticaServer f) (auth : Authorizer S) (conn : Connection)
      (req : AttestedX509CertificateRequest) (s : S) (r : AttestedX509CertificateResponse) where
    -- If the handler attested_x509_certificate hands out a certificate, then all of IsCertified
    -- holds: one client certificate was presented, the PIV chain attests the key, the authorizer
    -- granted it, the granted authority signed the certificate, and the public key of the
    -- certificate equals that of the attestation.
    pub attested_x509_certificate-IsCertified :
        (attested_x509_certificate f srv auth conn req s).0 ≡ ok r
        → IsCertified srv auth conn req s r
    unfolding attested_x509_certificate
    attested_x509_certificate-IsCertified h =
        after (lift (ok_or denied conn.remote_addr)) _ h λ remote e1 h1.
          after (lift (ok_or denied conn.peer_certs)) _ h1 λ certs e2 h2.
            after (only_peer remote.shown certs) _ h2 λ peer e3 h3.
              after (lift (or_status denied (extract_certificate_information f peer))) _ h3
                λ info e4 h4.
                  after
                    (lift (
                      or_status (permission_denied (text "Invalid attestation chain")) (
                        verify_piv_certificate_chain f req.attestation
                          req.attestation_intermediate)))
                    _ h4
                    λ key e5 h5.
                      after
                        (x509_authorized (commas info.identities) (
                          auth.authorize_attested_x509_cert
                            (x509_properties f srv req remote info key) s))
                        _ h5
                        λ a e6 h6.
                          after
                            (ok_or_warn denied (invalid_csr f (commas info.identities) req.csr)
                              (csr_from_der req.csr))
                            _ h6
                            λ csr e7 h7.
                              after
                                (lift (
                                  or_status (permission_denied (text "message")) (
                                    Signing.get_attested_x509_certificate_authority f srv.signer
                                      a.authority)))
                                _ h7
                                λ maybe_ca e8 h8.
                                  after (ok_or_warn denied (no_authority f a) maybe_ca) _ h8
                                    λ ca e9 h9.
                                      after
                                        (ok_or_warn denied (unsigned f a)
                                          (serialize_der_with_signer csr (csr_params a) ca))
                                        _ h9
                                        λ cert e10 h10.
                                          after
                                            (ok_or_warn denied
                                              (unreadable f (text "new certificate")
                                                (commas info.identities) cert)
                                              (parse_x509_certificate cert))
                                            _ h10
                                            λ new_certificate e11 h11.
                                              after
                                                (ok_or_warn denied
                                                  (unreadable f (text "provided attestation")
                                                    (commas info.identities) req.attestation)
                                                  (parse_x509_certificate req.attestation))
                                                _ h11
                                                λ leaf e12 h12.
                                                  after
                                                    (check
                                                      (eq (subject_pki new_certificate)
                                                        (subject_pki leaf))
                                                      denied (mismatch f (commas info.identities)))
                                                    _ h12
                                                    λ _ e13 h13.
                                                      let printed : cert ≡ r.certificate =
                                                        ap
                                                          (λ (x : AttestedX509CertificateResponse).
                                                            x.certificate)
                                                          (ok-injective h13) in
                                                      let (to_eq, _) =
                                                        eq_iff (subject_pki new_certificate)
                                                          (subject_pki leaf) in
                                                      record {
                                                        remote = remote;
                                                        peer = peer;
                                                        info = info;
                                                        key = key;
                                                        a = a;
                                                        csr = csr;
                                                        ca = ca;
                                                        new_certificate = new_certificate;
                                                        leaf = leaf;
                                                        connected = ok_or-eq-ok _ _ e1;
                                                        presented = cc (
                                                          ok_or-eq-ok _ _ e2,
                                                          only_peer-eq-ok _ _ e3,
                                                        );
                                                        read = or_status-eq-ok _ _ e4;
                                                        attested =
                                                            verify_piv_certificate_chain-Attests f _
                                                            _ key (or_status-eq-ok _ _ e5);
                                                        granted = x509_authorized-eq-ok _ _ e6;
                                                        requested = ok_or_warn-eq-ok _ _ _ e7;
                                                        has_ca = cc (
                                                          or_status-eq-ok _ _ e8,
                                                          ok_or_warn-eq-ok _ _ _ e9,
                                                        );
                                                        signed =
                                                            cc
                                                            (ok_or_warn-eq-ok _ _ _ e10, printed);
                                                        readable =
                                                            cc
                                                            (ok_or_warn-eq-ok _ _ _ e11, printed);
                                                        attesting = ok_or_warn-eq-ok _ _ _ e12;
                                                        same_key = to_eq (check-eq-ok _ _ _ e13);
                                                      }
