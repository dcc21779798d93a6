-- ===== src/Agent/Fetch/Renewed.antt =====
-- The certificate that the agent fetches, and what becomes of the configuration.
use rustica.Common.{
  ℕ, ◌≡◌, refl, ap, sym, ◌∙◌, Bool, Option, none, some, List, [], ◌∷◌, ◌++◌, inl, inr,
}
use rustica.Common.Run.{Run, ok, err}
use rustica.Foreign.{Foreign}
use rustica.Agent.{AgentCrates, Signatory, RusticaServer}
use rustica.Agent.Clients.{Network, RusticaCert, MtlsCredentials, CertificateConfig}
use rustica.Agent.Config.{
  RusticaAgentLibraryError, no_servers_returned_certificate, server_returned_invalid_certificate,
  Toml, with_servers,
}
use rustica.Agent.Fetch.{Settings, fetch_new_certificate, take_certificate}
use rustica.Agent.Fetch.Outcome.{
  skip, renewed, refresh, Refused, Stops, Stops-cases, fetched, fetched-Refused, fetched-answered,
  take_certificate-stored,
}

module _ {f : Foreign} (crates : AgentCrates f) (toml : Toml) (net : Network)
    (signatory : Signatory crates) (options : CertificateConfig) (notifies : Bool) where
  open f use {Certificate, certificate_of_string, certificate_error}

  -- A server of the list gave the certificate, those before it refused, and of the configuration the
  -- credentials of this server alone are new.
  pub record IsFetched (now : ℕ → Option ℕ) (servers : List RusticaServer) (s s' : Settings)
      (parsed : Certificate) : Type 0 where
    pub before : List RusticaServer
    pub server : RusticaServer
    pub rest : List RusticaServer
    pub cert : RusticaCert
    pub credentials : Option MtlsCredentials
    pub split : servers ≡ before ++ server ∷ rest
    pub refused : Refused crates toml net signatory options notifies now before
    pub answered :
        refresh crates toml net signatory options notifies server (skip before now 0)
        ≡ ok (cert, credentials)
    pub read : certificate_of_string cert.cert ≡ some parsed
    pub stored :
        s'.configuration
        ≡ with_servers (before ++ renewed credentials server ∷ rest) s.configuration

  abbrev Fetched : Type 0
  Fetched = Run RusticaAgentLibraryError Certificate × Settings

  IsFetched-of_stop :
      (now : ℕ → Option ℕ) (before : List RusticaServer) (server : RusticaServer)
      (rest : List RusticaServer) (s s' : Settings) (parsed : Certificate) (cert : RusticaCert)
      (credentials : Option MtlsCredentials)
      → s.configuration.configuration.servers ≡ before ++ server ∷ rest
      → Refused crates toml net signatory options notifies now before
      → refresh crates toml net signatory options notifies server (skip before now 0)
        ≡ ok (cert, credentials)
      → take_certificate crates toml net signatory options notifies before server rest
          (cert, credentials)
          s
        ≡ (ok parsed, s')
      → IsFetched now s.configuration.configuration.servers s s' parsed
  IsFetched-of_stop now before server rest s s' parsed cert credentials split refused answers
        taken =
      let (read, stored) =
        take_certificate-stored crates toml net signatory options notifies parsed before server rest
          cert credentials s split (ap (λ (x : Fetched). x.0) taken) in
      record {
        before = before;
        server = server;
        rest = rest;
        cert = cert;
        credentials = credentials;
        split = split;
        refused = refused;
        answered = answers;
        read = read;
        stored = sym (ap (λ (x : Fetched). x.1.configuration) taken) ∙ stored;
      }

  result_of_fetched :
      (now : ℕ → Option ℕ) (s : Settings)
      → fetched crates toml net signatory options notifies now []
          s.configuration.configuration.servers s
        ≡ (
          (fetch_new_certificate crates toml net signatory options notifies now s).0.0,
          (fetch_new_certificate crates toml net signatory options notifies now s).1,
        )
  unfolding fetch_new_certificate
  result_of_fetched now s = refl

  -- If fetch_new_certificate returns a certificate, then a server of the configuration sent it,
  -- every server before this one had refused, and the configuration afterwards is the one before
  -- with new credentials, if they came, for this server alone.
  pub fetch_new_certificate-IsFetched :
      (now : ℕ → Option ℕ) (s : Settings) (parsed : Certificate)
      → (fetch_new_certificate crates toml net signatory options notifies now s).0.0 ≡ ok parsed
      → IsFetched now s.configuration.configuration.servers s
          (fetch_new_certificate crates toml net signatory options notifies now s).1
          parsed
  unfolding Stops
  fetch_new_certificate-IsFetched now s parsed h =
      let done = result_of_fetched now s in
      let result = λ (x : Fetched). x.0 in
      elim (Stops-cases crates toml net signatory options notifies now
        s.configuration.configuration.servers) [
          | inl refused ↦ cc (
            h,
            ap result (
                sym done
                ∙ fetched-Refused crates toml net signatory options notifies now [] _ s refused),
          )
          | inr (before, server, rest, split, refused, inl ((cert, credentials), answers)) ↦
              let e =
                fetched-answered crates toml net signatory options notifies now before server rest _
                  s split refused in
              IsFetched-of_stop now before server rest s _ parsed cert credentials split refused
                answers (sym (rw answers at e) ∙ (done ∙ rw h refl))
          | inr (before, server, rest, split, refused, inr panics) ↦
              let e =
                fetched-answered crates toml net signatory options notifies now before server rest _
                  s split refused in
              cc (h, ap result (sym done ∙ rw panics at e))
        ]

  fetch_new_certificate-Refused :
      (now : ℕ → Option ℕ) (s : Settings)
      → Refused crates toml net signatory options notifies now s.configuration.configuration.servers
      → ((fetch_new_certificate crates toml net signatory options notifies now s).0.0
          ≡ err no_servers_returned_certificate)
        × ((fetch_new_certificate crates toml net signatory options notifies now s).1 ≡ s)
  fetch_new_certificate-Refused now s refused =
      let e =
        sym (result_of_fetched now s)
        ∙ fetched-Refused crates toml net signatory options notifies now [] _ s refused in
      (ap (λ (x : Fetched). x.0) e, ap (λ (x : Fetched). x.1) e)

  -- If every server before one refuses, and this one answers with a text that is no certificate,
  -- then fetch_new_certificate ends with the error of an invalid certificate and changes nothing,
  -- whatever servers follow.
  pub fetch_new_certificate-invalid :
      (now : ℕ → Option ℕ) (before : List RusticaServer) (server : RusticaServer)
      (rest : List RusticaServer) (s : Settings) (cert : RusticaCert)
      (credentials : Option MtlsCredentials)
      → s.configuration.configuration.servers ≡ before ++ server ∷ rest
      → Refused crates toml net signatory options notifies now before
      → refresh crates toml net signatory options notifies server (skip before now 0)
        ≡ ok (cert, credentials)
      → certificate_of_string cert.cert ≡ none
      → ((fetch_new_certificate crates toml net signatory options notifies now s).0.0
          ≡ err (server_returned_invalid_certificate (certificate_error cert.cert)))
        × ((fetch_new_certificate crates toml net signatory options notifies now s).1 ≡ s)
  unfolding take_certificate
  fetch_new_certificate-invalid now before server rest s cert credentials split refused answers
        unread =
      let e =
        fetched-answered crates toml net signatory options notifies now before server rest _ s split
          refused in
      let invalid = sym (result_of_fetched now s) ∙ rw (answers, unread, take_certificate) at e in
      (ap (λ (x : Fetched). x.0) invalid, ap (λ (x : Fetched). x.1) invalid)
