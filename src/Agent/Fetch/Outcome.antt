-- ===== src/Agent/Fetch/Outcome.antt =====
-- How the loop of fetch_new_certificate goes through the servers.
use mathlib.Core.List.{append_assoc, append-nil}
use rustica.Common.{
  ℕ, suc, ◌≡◌, refl, ap, ◌∙◌, Bool, Option, none, some, List, [], ◌∷◌, ◌++◌, inl, inr, ◌⊎◌,
  Option-cases,
}
use rustica.Common.Run.{Run, ok, err, panic, Run-cases, ok-injective}
use rustica.Foreign.{Foreign}
use rustica.Agent.{AgentCrates, Signatory, RusticaServer, Notified}
use rustica.Agent.Clients.{
  RefreshError, Network, RusticaCert, MtlsCredentials, CertificateConfig, refresh_certificate_async,
}
use rustica.Agent.Config.{
  RusticaAgentLibraryError, no_servers_returned_certificate, Toml, with_servers, write,
}
use rustica.Agent.Fetch.{
  renewed_server, Settings, Fetched, store_credentials, take_certificate, answer_or_next,
  fetch_from,
}

-- The readings of the clock that are left after the calls of these servers.
abbrev pub skip : List RusticaServer → (ℕ → Option ℕ) → ℕ → Option ℕ
skip [] now = now
skip (_ ∷ servers) now = skip servers (λ n. now (suc n))

-- The server after an answer with these credentials, if any.
abbrev pub renewed : Option MtlsCredentials → RusticaServer → RusticaServer
renewed none server = server
renewed (some credentials) server = renewed_server credentials server

abbrev pub Answered : Type 0
Answered = RusticaCert × Option MtlsCredentials

module _ {f : Foreign} (crates : AgentCrates f) (toml : Toml) (net : Network)
    (signatory : Signatory crates) (options : CertificateConfig) (notifies : Bool) where
  open f use {Certificate, certificate_of_string, certificate_error}

  abbrev pub refresh : RusticaServer → Option ℕ → Run RefreshError Answered
  refresh server now =
      (refresh_certificate_async crates net server signatory options notifies now).0

  -- Each of the servers refuses, at its reading of the clock.
  abbrev pub Refused : (ℕ → Option ℕ) → List RusticaServer → Type 0
  Refused now [] = Unit
  Refused now (server ∷ rest) =
      ((e : RefreshError) × (refresh server (now 0) ≡ err e)) × Refused (λ n. now (suc n)) rest

  abbrev pub fetched :
      (ℕ → Option ℕ)
      → List RusticaServer
      → List RusticaServer
      → Settings
      → Run RusticaAgentLibraryError Certificate × Settings
  fetched now before servers s =
      let ((result, times), s') =
        fetch_from crates toml net signatory options notifies now before servers s in
      (result, s')

  abbrev pub outcome :
      List RusticaServer
      → RusticaServer
      → List RusticaServer
      → Settings
      → Run RefreshError Answered
      → Run RusticaAgentLibraryError Certificate × Settings
      → Run RusticaAgentLibraryError Certificate × Settings
  outcome before server rest s (ok answer) next =
      take_certificate crates toml net signatory options notifies before server rest answer s
  outcome before server rest s (err e) next = next
  outcome before server rest s panic next = (panic, s)

  answer_or_next_lem :
      (before : List RusticaServer) (server : RusticaServer) (rest : List RusticaServer)
      (s : Settings) (call : Notified RefreshError Answered)
      (next : Fetched crates toml net signatory options notifies)
      → (let ((result, times), s') =
            answer_or_next crates toml net signatory options notifies
              (λ answer.
                take_certificate crates toml net signatory options notifies before server rest
                  answer s)
              s
              call
              next in
          (result, s'))
        ≡ outcome before server rest s call.0 (next.0.0, next.1)
  answer_or_next_lem before server rest s (ok a, times) next = refl
  answer_or_next_lem before server rest s (err e, times) next = refl
  answer_or_next_lem before server rest s (panic, times) next = refl

  fetched-cons :
      (now : ℕ → Option ℕ) (before : List RusticaServer) (server : RusticaServer)
      (rest : List RusticaServer) (s : Settings)
      → fetched now before (server ∷ rest) s
        ≡ outcome before server rest s
            (refresh server (now 0))
            (fetched (λ n. now (suc n)) (before ++ server ∷ []) rest s)
  unfolding fetch_from
  fetched-cons now before server rest s =
      answer_or_next_lem before server rest s
        (refresh_certificate_async crates net server signatory options notifies (now 0))
        (fetch_from crates toml net signatory options notifies (λ n. now (suc n))
          (before ++ server ∷ []) rest s)

  -- Where every server of the list refuses, that is the error, and the settings stay.
  pub fetched-Refused :
      (now : ℕ → Option ℕ) (before servers : List RusticaServer) (s : Settings)
      → Refused now servers
      → fetched now before servers s ≡ (err no_servers_returned_certificate, s)
  unfolding fetch_from
  fetched-Refused now before [] s refused = refl
  fetched-Refused now before (server ∷ rest) s ((e, refuses), refused) =
      rw (fetched-cons now before server rest s, refuses)
        (fetched-Refused (λ n. now (suc n)) (before ++ server ∷ []) rest s refused)

  fetched-past :
      (now : ℕ → Option ℕ) (done before more : List RusticaServer) (s : Settings)
      → Refused now before
      → fetched now done (before ++ more) s ≡ fetched (skip before now) (done ++ before) more s
  fetched-past now done [] more s refused = rw (append-nil done) refl
  fetched-past now done (server ∷ before) more s ((e, refuses), refused) =
      rw
        (
          fetched-cons now done server (before ++ more) s,
          refuses,
          ← append_assoc done (server ∷ []) before,
        )
        (fetched-past (λ n. now (suc n)) (done ++ server ∷ []) before more s refused)

  -- Servers that refuse, and one after them that answers.
  pub fetched-answered :
      (now : ℕ → Option ℕ) (before : List RusticaServer) (server : RusticaServer)
      (rest servers : List RusticaServer) (s : Settings)
      → servers ≡ before ++ server ∷ rest
      → Refused now before
      → fetched now [] servers s
        ≡ outcome before server rest s
            (refresh server (skip before now 0))
            (fetched (λ n. skip before now (suc n)) (before ++ server ∷ []) rest s)
  fetched-answered now before server rest servers s split refused =
      ap (λ l. fetched now [] l s) split
      ∙ (fetched-past now [] before (server ∷ rest) s refused
          ∙ fetched-cons (skip before now) before server rest s)

  unfoldable pub Stops : (ℕ → Option ℕ) → List RusticaServer → Type 0
  Stops now servers =
      (before : List RusticaServer) × (server : RusticaServer) × (rest : List RusticaServer)
      × (servers ≡ before ++ server ∷ rest)
      × Refused now before
      × (((a : Answered) × (refresh server (skip before now 0) ≡ ok a))
          ⊎ (refresh server (skip before now 0) ≡ panic))

  pub Stops-cases :
      (now : ℕ → Option ℕ) (servers : List RusticaServer) → Refused now servers ⊎ Stops now servers
  unfolding Stops
  Stops-cases now [] = inl tt
  Stops-cases now (server ∷ rest) = elim (Run-cases (refresh server (now 0))) [
    | inl (a, answers) ↦ inr ([], server, rest, refl, tt, inl (a, answers))
    | inr (inl panics) ↦ inr ([], server, rest, refl, tt, inr panics)
    | inr (inr (e, refuses)) ↦ elim (Stops-cases (λ n. now (suc n)) rest) [
      | inl refused ↦ inl ((e, refuses), refused)
      | inr (before, found, more, split, refused, stops) ↦
          inr (
            server ∷ before,
            found,
            more,
            ap (λ l. server ∷ l) split,
            ((e, refuses), refused),
            stops,
          )
    ]
  ]

  store_credentials-with_servers :
      (parsed c : Certificate) (before : List RusticaServer) (server : RusticaServer)
      (rest : List RusticaServer) (credentials : Option MtlsCredentials) (s : Settings)
      → s.configuration.configuration.servers ≡ before ++ server ∷ rest
      → (store_credentials crates toml net signatory options notifies c before server rest
          credentials s).0
        ≡ ok parsed
      → (c ≡ parsed)
        × ((store_credentials crates toml net signatory options notifies c before server rest
              credentials s).1.configuration
            ≡ with_servers (before ++ renewed credentials server ∷ rest) s.configuration)
  unfolding store_credentials
  store_credentials-with_servers parsed c before server rest none s split h =
      (ok-injective h, rw (← split) refl)
  store_credentials-with_servers parsed c before server rest (some credentials) s split h =
      elim (Run-cases
        (write toml
          (with_servers (before ++ renewed_server credentials server ∷ rest) s.configuration)
          s.files).0) [
            | inl (x, e) ↦ (ok-injective (rw e at h), refl)
            | inr (inl e) ↦ cc (rw e at h)
            | inr (inr (x, e)) ↦ (ok-injective (rw e at h), refl)
          ]

  pub take_certificate-stored :
      (parsed : Certificate) (before : List RusticaServer) (server : RusticaServer)
      (rest : List RusticaServer) (cert : RusticaCert) (credentials : Option MtlsCredentials)
      (s : Settings)
      → s.configuration.configuration.servers ≡ before ++ server ∷ rest
      → (take_certificate crates toml net signatory options notifies before server rest
          (cert, credentials)
          s).0
        ≡ ok parsed
      → (certificate_of_string cert.cert ≡ some parsed)
        × ((take_certificate crates toml net signatory options notifies before server rest
              (cert, credentials)
              s).1.configuration
            ≡ with_servers (before ++ renewed credentials server ∷ rest) s.configuration)
  unfolding take_certificate
  take_certificate-stored parsed before server rest cert credentials s split h =
      elim (Option-cases (certificate_of_string cert.cert)) [
        | inl e ↦ cc (rw (e, take_certificate) at h)
        | inr (c, e) ↦
            let (same, stored) =
              store_credentials-with_servers parsed c before server rest credentials s split
                (rw (e, take_certificate) at h) in
            (e ∙ ap some same, rw (e, take_certificate) stored)
      ]
