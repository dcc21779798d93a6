-- ===== src/Agent/Fetch/First.antt =====
-- The loops ask one server after the other, up to the first one that answers.
use rustica.Common.{◌≡◌, refl, ap, ◌↔◌, Option, List, [], ◌∷◌, ◌++◌, All, inl, inr}
use rustica.Common.Text.{Text}
use rustica.Common.Run.{Run, ok, err, panic, Run-cases}
use rustica.Keys.{Bytes}
use rustica.Foreign.{Foreign}
use rustica.Agent.{AgentCrates, Signatory, RusticaServer, Notified}
use rustica.Agent.Clients.{RefreshError, Network, PivAttestation, register_key_async}
use rustica.Agent.Config.{RusticaAgentLibraryError, no_servers_could_register_key}
use rustica.Agent.Fetch.{
  or_next, try_servers, register_key, get_allowed_signers, get_allowed_signers_async,
}

module _ {A : Type 0} (call : RusticaServer → Notified RefreshError A) where
  abbrev pub Refuses : RusticaServer → Type 0
  Refuses server = (e : RefreshError) × ((call server).0 ≡ err e)

  -- A server answers with `a`, and all before it refuse.
  abbrev pub FirstAnswer : List RusticaServer → A → Type 0
  FirstAnswer servers a =
      (before : List RusticaServer) × (server : RusticaServer) × (rest : List RusticaServer)
      × (servers ≡ before ++ server ∷ rest)
      × All Refuses before
      × ((call server).0 ≡ ok a)

  abbrev result_or : {E : Type 0} → Run RefreshError A → Run E A → Run E A
  result_or (ok a) rest = ok a
  result_or (err e) rest = rest
  result_or panic rest = panic

  or_next_lem :
      {E : Type 0} (first : Notified RefreshError A) (rest : Notified E A)
      → (or_next first rest).0 ≡ result_or first.0 rest.0
  or_next_lem (ok b, times) rest = refl
  or_next_lem (err e, times) rest = refl
  or_next_lem (panic, times) rest = refl

  module _ (e : RusticaAgentLibraryError) where
    try_servers-cons :
        (server : RusticaServer) (rest : List RusticaServer)
        → (try_servers call e (server ∷ rest)).0
          ≡ result_or (call server).0 (try_servers call e rest).0
    unfolding try_servers
    try_servers-cons server rest = or_next_lem (call server) (try_servers call e rest)

    try_servers-FirstAnswer :
        (servers : List RusticaServer) {a : A}
        → (try_servers call e servers).0 ≡ ok a
        → FirstAnswer servers a
    unfolding try_servers
    try_servers-FirstAnswer [] h = cc
    try_servers-FirstAnswer (server ∷ rest) {a} h = elim (Run-cases (call server).0) [
      | inl (b, answers) ↦ (
        [],
        server,
        rest,
        refl,
        tt,
        cc (rw (try_servers-cons server rest, answers) at h, answers),
      )
      | inr (inl panics) ↦ cc (rw (try_servers-cons server rest, panics) at h)
      | inr (inr (x, refuses)) ↦
          let (before, found, more, split, refused, answers) =
            try_servers-FirstAnswer rest {a = a}
              (rw (try_servers-cons server rest, refuses) at h) in
          (
            server ∷ before,
            found,
            more,
            ap (λ s. server ∷ s) split,
            ((x, refuses), refused),
            answers,
          )
    ]

    try_servers-past :
        (before more : List RusticaServer)
        → All Refuses before
        → (try_servers call e (before ++ more)).0 ≡ (try_servers call e more).0
    try_servers-past [] more refused = refl
    try_servers-past (server ∷ before) more ((x, refuses), refused) =
        rw (try_servers-cons server (before ++ more), refuses)
          (try_servers-past before more refused)

    try_servers-of_FirstAnswer :
        (servers : List RusticaServer) {a : A}
        → FirstAnswer servers a
        → (try_servers call e servers).0 ≡ ok a
    try_servers-of_FirstAnswer servers (before, server, rest, split, refused, answers) =
        rw
          (
            split,
            try_servers-past before (server ∷ rest) refused,
            try_servers-cons server rest,
            answers,
          )
          refl

    try_servers_iff :
        (servers : List RusticaServer) (a : A)
        → ((try_servers call e servers).0 ≡ ok a) ↔ FirstAnswer servers a
    try_servers_iff servers a =
        (try_servers-FirstAnswer servers, try_servers-of_FirstAnswer servers)

module _ {f : Foreign} (crates : AgentCrates f) where
  -- register_key of the agent succeeds exactly if some server of the list accepts the registration
  -- and every server before it refuses.
  pub register_key_iff :
      (net : Network) (signatory : Signatory crates) (attestation : PivAttestation crates)
      (servers : List RusticaServer)
      → ((register_key crates net signatory attestation servers).0 ≡ ok tt)
        ↔ FirstAnswer
            (λ server. register_key_async crates net server signatory attestation)
            servers
            tt
  unfolding register_key
  register_key_iff net signatory attestation servers =
      try_servers_iff (λ server. register_key_async crates net server signatory attestation)
        no_servers_could_register_key servers tt

-- get_allowed_signers answers with a list exactly when some server answers with it and every server
-- before that one fails.
get_allowed_signers_iff :
    (decoder : Bytes → Option (Option Text)) (net : Network) (servers : List RusticaServer)
    (list : Text)
    → ((get_allowed_signers decoder net servers).0 ≡ ok list)
      ↔ FirstAnswer (get_allowed_signers_async decoder net) servers list
unfolding get_allowed_signers
get_allowed_signers_iff decoder net servers list =
    try_servers_iff (get_allowed_signers_async decoder net) _ servers list
