-- ===== src/Server/AllowedSigners/Refines.antt =====
-- The handler `allowed_signers` against its contract: the server remembers at most one list of signers,
-- with the time of the request that fetched it.
use rustica.Common.{
  ℕ, ◌+◌, ◌<◌, ◌≤◌, ◌≡◌, ◌≢◌, refl, ap, sym, ◌∙◌, Bool, true, false, Option, none, some, List, [],
  ◌∷◌, arith, first,
}
use rustica.Common.{Bool-cases, Option-cases, inl, inr}
use rustica.Common.Text.{Text, commas}
use rustica.Common.Run.{Run, ok, err, panic, Run-cases, ok-injective}
use rustica.Keys.{Bytes}
use rustica.Auth.{AllowedSigner, Authorizer}
use rustica.Foreign.{Foreign}
use rustica.Logs.{Logged}
use rustica.Server.{Status, resource_exhausted, SocketAddr, Connection, MtlsCertificateInfo}
use rustica.Server.Peer.{extract_certificate_information}
use rustica.Server.AllowedSigners.{
  AllowedSignersCache, AllowedSignersConfiguration, LruCache, is_rate_limited, read_cache, is_valid,
  fetch, from_answer, allowed_signers_file, write_cache, caller, answer_at, serve, allowed_signers,
}
use rustica.Server.AllowedSigners.Cache.{Gives, empty_cache}

-- The list that is remembered, and the time of the request that fetched it.
abbrev pub Memory : Type 0
Memory = Option (ℕ × List AllowedSigner)

-- A connection whose client can be identified.
pub record IsCaller (f : Foreign) (conn : Connection) (identities : Text) : Type 0 where
  pub remote : SocketAddr
  pub certs : List Bytes
  pub cert : Bytes
  pub info : MtlsCertificateInfo
  pub connected : conn.remote_addr ≡ some remote
  pub presented : conn.peer_certs ≡ some certs
  pub one : first certs ≡ some cert
  pub read : extract_certificate_information f cert ≡ ok info
  pub named : identities ≡ commas info.identities

module _ {S : Type 0} (auth : Authorizer S) (config : AllowedSignersConfiguration)
    (compress : Text → Option Bytes) where
  -- Nothing is remembered that is valid at this time.
  abbrev pub Forgotten : ℕ → Memory → Type 0
  Forgotten t none = Unit
  Forgotten t (some (u, _)) = u + config.cache_validity_length < t

  abbrev pub Represents : AllowedSignersCache → Memory → Type 0
  Represents cache none = cache ≡ empty_cache
  Represents cache (some (u, signers)) =
      (compress (allowed_signers_file signers) ≡ some cache.compressed_allowed_signers)
      × (cache.expiry_timestamp ≡ u + config.cache_validity_length)

  -- What a request at a time may reply, remember and call, given whether its client is limited, the
  -- memory before it and the state of the authorizer.
  pub data Serves (t : ℕ) (s : S) (limited : Bool) (m : Memory) (reply : Run Status Bytes)
      (m' : Memory) (calls : List (ℕ × S)) : Type 0 where
    refused :
        limited ≡ true
        → reply ≡ err (resource_exhausted [])
        → m' ≡ m
        → calls ≡ []
        → Serves t s limited m reply m' calls
    remembered :
        (u : ℕ) (signers : List AllowedSigner) (data' : Bytes)
        → limited ≡ false
        → m ≡ some (u, signers)
        → t ≤ u + config.cache_validity_length
        → compress (allowed_signers_file signers) ≡ some data'
        → reply ≡ ok data'
        → m' ≡ m
        → calls ≡ []
        → Serves t s limited m reply m' calls
    fetched :
        (signers : List AllowedSigner) (data' : Bytes)
        → limited ≡ false
        → Forgotten t m
        → auth.get_allowed_signers s ≡ ok signers
        → compress (allowed_signers_file signers) ≡ some data'
        → reply ≡ ok data'
        → m' ≡ some (t, signers)
        → calls ≡ (t, s) ∷ []
        → Serves t s limited m reply m' calls
    failed :
        limited ≡ false
        → Forgotten t m
        → ((data' : Bytes) → ¬ (Gives auth config compress s data'))
        → ((data' : Bytes) → reply ≢ ok data')
        → m' ≡ m
        → calls ≡ (t, s) ∷ []
        → Serves t s limited m reply m' calls

  -- A reply within the contract, with a cache that represents the memory after it.
  abbrev pub Refined :
      ℕ → S → Bool → Memory → Run Status Bytes → AllowedSignersCache → List (ℕ × S) → Type 0
  Refined t s limited m reply cache calls =
      (m' : Memory) × (Serves t s limited m reply m' calls) × (Represents cache m')

  hit-Refined :
      (t : ℕ) (s : S) (cache : AllowedSignersCache) (m : Memory)
      → 0 < t
      → Represents cache m
      → is_valid t cache ≡ true
      → Refined t s false m (ok cache.compressed_allowed_signers) cache []
  hit-Refined t s cache none later e valid =
      absurd (ground (arith, ap (λ (c : AllowedSignersCache). c.expiry_timestamp) e))
  hit-Refined t s cache (some (u, signers)) later (made, expires) valid = (
    some (u, signers),
    remembered u signers cache.compressed_allowed_signers refl refl (ground arith) made refl refl
        refl,
    (made, expires),
  )

  Forgotten-of_stale :
      (t : ℕ) (cache : AllowedSignersCache) (m : Memory)
      → Represents cache m
      → is_valid t cache ≡ false
      → Forgotten t m
  Forgotten-of_stale t cache none e stale = tt
  Forgotten-of_stale t cache (some (u, signers)) (made, expires) stale = ground arith

  fails-Refined :
      (t : ℕ) (s : S) (cache : AllowedSignersCache) (m : Memory) (reply : Run Status Bytes)
      → Represents cache m
      → is_valid t cache ≡ false
      → ((data' : Bytes) → ¬ (Gives auth config compress s data'))
      → ((data' : Bytes) → reply ≢ ok data')
      → Refined t s false m reply cache ((t, s) ∷ [])
  fails-Refined t s cache m reply r stale fails no_reply =
      (m, failed refl (Forgotten-of_stale t cache m r stale) fails no_reply refl refl, r)

  write-Refined :
      (t : ℕ) (s : S) (cache : AllowedSignersCache) (m : Memory)
      → Represents cache m
      → is_valid t cache ≡ false
      → Refined t s false m
          (write_cache auth config compress t cache s).0
          (write_cache auth config compress t cache s).1
          (write_cache auth config compress t cache s).2
  unfolding write_cache fetch
  write-Refined t s cache m r stale = elim (Run-cases (auth.get_allowed_signers s)) [
    | inl (signers, e) ↦ elim (Option-cases (compress (allowed_signers_file signers))) [
      | inl c ↦
          rw (stale, write_cache, e, fetch, from_answer, c)
            (fails-Refined t s cache m _ r stale
              (λ reply (other, given, compressed). let same = ok-injective (sym e ∙ given) in cc)
              (λ reply h. cc))
      | inr (reply, c) ↦
          rw (stale, write_cache, e, fetch, from_answer, c)
            (
              some (t, signers),
              fetched signers reply refl (Forgotten-of_stale t cache m r stale) e c refl refl refl,
              (c, refl),
            )
    ]
    | inr (inl e) ↦
        rw (stale, write_cache, e, fetch)
          (fails-Refined t s cache m _ r stale (λ reply (other, given, compressed). cc)
            (λ reply h. cc))
    | inr (inr (x, e)) ↦
        rw (stale, write_cache, e, fetch)
          (fails-Refined t s cache m _ r stale (λ reply (other, given, compressed). cc)
            (λ reply h. cc))
  ]

  module _ (f : Foreign) {L : Type 0} (lru : LruCache L) where
    caller_lem :
        (conn : Connection) (identities : Text) (t : ℕ)
        → IsCaller f conn identities
        → (caller auth config compress f lru conn (some t)).0 ≡ ok (identities, t)
    unfolding caller
    caller_lem conn identities t c =
        rw (c.connected, caller, c.presented, c.one, c.read, c.named) refl

    answer-Refined :
        (t : ℕ) (s : S) (limited : Bool) (l : L) (cache : AllowedSignersCache) (m : Memory)
        → 0 < t
        → Represents cache m
        → Refined t s limited m
            (answer_at auth config compress f lru t (limited, l) cache s).0
            (answer_at auth config compress f lru t (limited, l) cache s).2
            (answer_at auth config compress f lru t (limited, l) cache s).3
    unfolding read_cache
    answer-Refined t s true l cache m later r = (m, refused refl refl refl refl, r)
    answer-Refined t s false l cache m later r = elim (Bool-cases (is_valid t cache)) [
      | inl valid ↦ rw (answer_at, read_cache, valid) (hit-Refined t s cache m later r valid)
      | inr stale ↦ rw (answer_at, read_cache, stale) (write-Refined t s cache m r stale)
    ]

    serve-Refined :
        (who : Logged Status (Text × ℕ)) (identities : Text) (t : ℕ) (l : L) (s : S)
        (cache : AllowedSignersCache) (m : Memory)
        → 0 < t
        → who.0 ≡ ok (identities, t)
        → Represents cache m
        → Refined t s
            (is_rate_limited lru config identities t l).0
            m
            (serve auth config compress f lru who l cache s).0.0
            (serve auth config compress f lru who l cache s).2
            (serve auth config compress f lru who l cache s).3
    serve-Refined (err e, events) identities t l s cache m later is r = cc
    serve-Refined (panic, events) identities t l s cache m later is r = cc
    serve-Refined (ok (own, now), events) identities t l s cache m later is r =
        let same_name = ap (λ (x : Text × ℕ). x.0) (ok-injective is) in
        let same_time = ap (λ (x : Text × ℕ). x.1) (ok-injective is) in
        rw (same_name, same_time)
          (answer-Refined t s (is_rate_limited lru config identities t l).0
            (is_rate_limited lru config identities t l).1 cache m later r)

    -- For an identified client, at a time after zero and with a cache that represents what the
    -- server remembers, a call of the handler allowed_signers is within the contract Serves, and
    -- the cache after it represents the memory after it: a limited client is refused with no call
    -- of the authorizer; a list remembered for no longer than the validity is, compressed, the
    -- reply, with no call; and else the authorizer is called once, and its list, compressed, is the
    -- reply and is remembered with the time of the request, or, if that fails, no list is the reply
    -- and the memory stays.
    pub allowed_signers-Refined :
        (conn : Connection) (identities : Text) (t : ℕ) (l : L) (s : S)
        (cache : AllowedSignersCache) (m : Memory)
        → 0 < t
        → IsCaller f conn identities
        → Represents cache m
        → Refined t s
            (is_rate_limited lru config identities t l).0
            m
            (allowed_signers auth config compress f lru conn (some t) l cache s).0.0
            (allowed_signers auth config compress f lru conn (some t) l cache s).2
            (allowed_signers auth config compress f lru conn (some t) l cache s).3
    unfolding allowed_signers
    allowed_signers-Refined conn identities t l s cache m later c r =
        serve-Refined (caller auth config compress f lru conn (some t)) identities t l s cache m
          later (caller_lem conn identities t c) r
