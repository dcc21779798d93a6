-- ===== src/Agent/Handler/Cached.antt =====
-- The certificate that the agent keeps, and when it asks for a new one.
use rustica.Common.{ℕ, ◌≡◌, ◌<◌, ◌⊎◌, refl, ap, ◌∙◌, Bool, true, false, none, some, inl, inr}
use rustica.Common.{Bool-cases, Option-cases, ltb, ltb_iff, arith}
use rustica.Common.Words.{add64}
use rustica.Common.Run.{ok, err, panic, ok-injective}
use rustica.Keys.{Bytes}
use rustica.Foreign.{Foreign}
use rustica.Agent.{AgentCrates, Notified}
use rustica.Agent.Session.{handle_client}
use rustica.Agent.Session.Preserved.{Keeps, handle_client-keeps}
use rustica.Agent.Config.{RusticaAgentLibraryError, Toml}
use rustica.Agent.Fetch.{Settings, fetch_new_certificate}
use rustica.Agent.Fetch.Renewed.{IsFetched, fetch_new_certificate-IsFetched}
use rustica.Agent.Handler.{
  Handler, HandlerState, Surroundings, cached, refreshed, cached_or_fetch, get_certificate,
  add_identity, identities, sign_request, handler,
}

module _ {f : Foreign} (crates : AgentCrates f) where
  open f use {Certificate}

  -- A cached certificate goes stale at the end of its validity.
  abbrev pub IsStamped : HandlerState crates → Type 0
  IsStamped s = (cert : Certificate) → s.cert ≡ some cert → s.stale_at ≡ crates.valid_before cert

  cached-eq-some :
      (t : ℕ) (s : HandlerState crates) {cert : Certificate}
      → cached crates t s ≡ some cert
      → (s.cert ≡ some cert) × (add64 t 5 < s.stale_at)
  unfolding cached
  cached-eq-some t s {cert} h = elim (Option-cases s.cert) [
    | inl e ↦ cc (rw (e, cached) at h)
    | inr (c, e) ↦ elim (Bool-cases (ltb (add64 t 5) s.stale_at)) [
      | inl fresh ↦ (e ∙ rw (e, cached, fresh) at h, (ltb_iff (add64 t 5) s.stale_at).0 fresh)
      | inr stale ↦ cc (rw (e, cached, stale) at h)
    ]
  ]

  cached-of_fresh :
      (t : ℕ) (s : HandlerState crates) {cert : Certificate}
      → s.cert ≡ some cert
      → add64 t 5 < s.stale_at
      → cached crates t s ≡ some cert
  unfolding cached
  cached-of_fresh t s e fresh = rw (e, cached, (ltb_iff (add64 t 5) s.stale_at).1 fresh) refl

  module _ (toml : Toml) (h : Handler crates) (around : ℕ → Surroundings crates) where
    refreshed-IsStamped :
        (s : HandlerState crates) (r : Notified RusticaAgentLibraryError Certificate × Settings)
        → IsStamped s
        → IsStamped (refreshed crates toml h around s r).1
    refreshed-IsStamped s ((ok cert, times), settings) stamped = λ c e. ground (arith, e)
    refreshed-IsStamped s ((err e, times), settings) stamped = stamped
    refreshed-IsStamped s ((panic, times), settings) stamped = stamped

    get_certificate-IsStamped :
        (fetch : Bool) (a : Surroundings crates) (s : HandlerState crates)
        → IsStamped s
        → IsStamped (get_certificate crates toml h around fetch a s).1
    unfolding get_certificate
    get_certificate-IsStamped fetch a s stamped = elim (Option-cases a.timestamp) [
      | inl e ↦ rw (e, get_certificate) stamped
      | inr (t, e) ↦ elim (Bool-cases fetch) [
        | inr no_fetch ↦ rw (e, get_certificate, no_fetch) stamped
        | inl fetches ↦ elim (Option-cases (cached crates t s)) [
          | inr (cert, hit) ↦ rw (e, get_certificate, fetches, hit) stamped
          | inl miss ↦ rw (e, get_certificate, fetches, miss) (refreshed-IsStamped s _ stamped)
        ]
      ]
    ]

    handler_Keeps : Keeps crates.private_key_of_bytes (handler crates toml h around) IsStamped
    unfolding add_identity identities sign_request
    handler_Keeps = record {
      keeps_add = λ key s stamped. stamped;
      keeps_identities = λ s stamped. get_certificate-IsStamped true (around s.calls) s stamped;
      keeps_sign = λ blob message flags s stamped. stamped;
    }

    -- That a cached certificate goes stale at the end of its validity holds after every
    -- conversation with a client, whatever bytes it sends, if it held before.
    pub handle_client-IsStamped :
        (stream : Bytes) (s : HandlerState crates)
        → IsStamped s
        → IsStamped
            (handle_client crates.private_key_of_bytes
              (handler crates toml h around)
              stream
              s).state
    handle_client-IsStamped stream s stamped =
        handle_client-keeps crates.private_key_of_bytes (handler crates toml h around) IsStamped
          handler_Keeps stream s stamped

    -- The certificate of the cache, with more than five seconds left.
    abbrev pub FromCache :
        Surroundings crates → HandlerState crates → HandlerState crates → Certificate → Type 0
    FromCache a s s' cert =
        (s' ≡ s)
        × ((s.cert ≡ some cert)
            × ((t : ℕ) × (a.timestamp ≡ some t) × (add64 t 5 < crates.valid_before cert)))

    -- A new certificate, which is now the cached one.
    abbrev pub FromServer :
        Surroundings crates → HandlerState crates → HandlerState crates → Certificate → Type 0
    FromServer a s s' cert =
        (s'.cert ≡ some cert)
        × IsFetched crates toml a.net h.signatory h.certificate_options h.notifies a.request_times
            s.settings.configuration.configuration.servers s.settings s'.settings cert

    refreshed-FromServer :
        (a : Surroundings crates) (s : HandlerState crates)
        (r : Notified RusticaAgentLibraryError Certificate × Settings) (cert : Certificate)
        → (refreshed crates toml h around s r).0 ≡ ok (some cert)
        → (r.0.0 ≡ ok cert)
          × ((refreshed crates toml h around s r).1.cert ≡ some cert)
          × ((refreshed crates toml h around s r).1.settings ≡ r.1)
    refreshed-FromServer a s ((ok c, times), settings) cert e =
        (ground (arith, ok-injective e), ok-injective e, refl)
    refreshed-FromServer a s ((err x, times), settings) cert e = cc
    refreshed-FromServer a s ((panic, times), settings) cert e = cc

    missed :
        (a : Surroundings crates) (s : HandlerState crates) (cert : Certificate)
        → (cached_or_fetch crates toml h around a s none).0 ≡ ok (some cert)
        → FromServer a s (cached_or_fetch crates toml h around a s none).1 cert
    missed a s cert e =
        let (fetched, now_cached, kept) =
          refreshed-FromServer a s
            (fetch_new_certificate crates toml a.net h.signatory h.certificate_options h.notifies
              a.request_times s.settings)
            cert e in
        (
          now_cached,
          rw kept (
              fetch_new_certificate-IsFetched crates toml a.net h.signatory h.certificate_options
                h.notifies a.request_times s.settings cert fetched),
        )

    -- In a state where a cached certificate goes stale at the end of its validity, a certificate
    -- that get_certificate returns is either the cached one, with more than five seconds of its
    -- validity left (in the wrap-around addition of u64) and the state unchanged, or, only if a
    -- fetch was asked for, a new one that is now cached and came from the first server that did not
    -- refuse.
    pub get_certificate_sound :
        (fetch : Bool) (a : Surroundings crates) (s : HandlerState crates) (cert : Certificate)
        → IsStamped s
        → (get_certificate crates toml h around fetch a s).0 ≡ ok (some cert)
        → FromCache a s (get_certificate crates toml h around fetch a s).1 cert
          ⊎ ((fetch ≡ true)
              × FromServer a s (get_certificate crates toml h around fetch a s).1 cert)
    unfolding get_certificate
    get_certificate_sound fetch a s cert stamped done = elim (Option-cases a.timestamp) [
      | inl e ↦ cc (rw (e, get_certificate) at done)
      | inr (t, e) ↦
          let from_cache : (cached crates t s ≡ some cert)
              → (s.cert ≡ some cert)
                × ((u : ℕ) × (a.timestamp ≡ some u) × (add64 u 5 < crates.valid_before cert)) =
            λ hit.
              let (held, fresh) = cached-eq-some t s hit in
              (held, (t, e, rw (stamped cert held) at fresh)) in
          elim (Bool-cases fetch) [
            | inr no_fetch ↦
                let hit = ok-injective (rw (e, get_certificate, no_fetch) at done) in
                inl (rw (e, get_certificate, no_fetch) refl, from_cache hit)
            | inl fetches ↦ elim (Option-cases (cached crates t s)) [
              | inr (c, hit) ↦
                  let same = ok-injective (rw (e, get_certificate, fetches, hit) at done) in
                  inl (rw (e, get_certificate, fetches, hit) refl, from_cache (hit ∙ same))
              | inl miss ↦ inr (
                fetches,
                rw (e, get_certificate, fetches, miss)
                    (missed a s cert (rw (e, get_certificate, fetches, miss) at done)),
              )
            ]
          ]
    ]

    get_certificate-hit :
        (fetch : Bool) (a : Surroundings crates) (s : HandlerState crates) (cert : Certificate)
        (t : ℕ)
        → a.timestamp ≡ some t
        → cached crates t s ≡ some cert
        → get_certificate crates toml h around fetch a s ≡ (ok (some cert), s)
    unfolding get_certificate
    get_certificate-hit true a s cert t time hit = rw (time, get_certificate, hit) refl
    get_certificate-hit false a s cert t time hit = rw (time, get_certificate, hit) refl

    -- In a state where a cached certificate goes stale at the end of its validity, if
    -- get_certificate has returned a certificate, then its next call, at a time with more than five
    -- seconds of the validity left, returns the same one and changes nothing.
    pub get_certificate-again :
        (fetch again : Bool) (a later : Surroundings crates) (s : HandlerState crates)
        (cert : Certificate) (t : ℕ)
        → IsStamped s
        → (get_certificate crates toml h around fetch a s).0 ≡ ok (some cert)
        → later.timestamp ≡ some t
        → add64 t 5 < crates.valid_before cert
        → get_certificate crates toml h around again later
            (get_certificate crates toml h around fetch a s).1
          ≡ (ok (some cert), (get_certificate crates toml h around fetch a s).1)
    get_certificate-again fetch again a later s cert t stamped done time fresh =
        let s' = (get_certificate crates toml h around fetch a s).1 in
        let held : s'.cert ≡ some cert = elim (get_certificate_sound fetch a s cert stamped done) [
          | inl (same, (held, _)) ↦ ap (λ (x : HandlerState crates). x.cert) same ∙ held
          | inr (_, (held, _)) ↦ held
        ] in
        let stamp = get_certificate-IsStamped fetch a s stamped cert held in
        get_certificate-hit again later s' cert t time (cached-of_fresh t s' held (rw stamp fresh))
