-- ===== src/Server/AllowedSigners/Cache.antt =====
-- The cache of `allowed_signers` under any interleaving of requests: each looks under the read lock, and
-- one that found nothing waits for the write lock and looks again.
use rustica.Common.{
  ℕ, ◌+◌, ◌<◌, ◌≤◌, ◌≡◌, refl, ap, sym, ◌∙◌, ◌⊎◌, false, Option, none, some, List, [], ◌∷◌, ◌++◌,
  arith, All,
}
use rustica.Common.{Bool-cases, Option-cases, inl, inr}
use rustica.Common.Text.{Text}
use rustica.Common.Run.{ok, Run-cases, ok-injective}
use rustica.Keys.{Bytes}
use rustica.Auth.{AllowedSigner, Authorizer}
use rustica.Server.AllowedSigners.{
  AllowedSignersCache, AllowedSignersConfiguration, is_valid, read_cache, fetch, write_cache,
  allowed_signers_file, from_answer,
}

All-weaken :
    {A : Type 0} (P Q : A → Type 0) → ((a : A) → P a → Q a) → (l : List A) → All P l → All Q l
All-weaken P Q f [] h = tt
All-weaken P Q f (a ∷ l) (p, h) = (f a p, All-weaken P Q f l h)

abbrev pub empty_cache : AllowedSignersCache
empty_cache = record { compressed_allowed_signers = []; expiry_timestamp = 0 }

module _ {S : Type 0} (auth : Authorizer S) (config : AllowedSignersConfiguration)
    (compress : Text → Option Bytes) where
  -- The cache, the times of the requests that wait for the write lock, and every call of the
  -- authorizer, the last one first: the time of its request, and the state that it met.
  pub record Requests : Type 0 where
    pub cache : AllowedSignersCache
    pub waiting : List ℕ
    pub calls : List (ℕ × S)

  -- A step of one of the requests. The clock and the authorizer may change between steps.
  pub data Step (r : Requests) : Requests → Type 0 where
    hit : (t : ℕ) (reply : Bytes) → read_cache t r.cache ≡ some reply → Step r r
    miss : (t : ℕ) → read_cache t r.cache ≡ none → Step r (record r { waiting = t ∷ r.waiting })
    write :
        (t : ℕ) (s : S) (before after : List ℕ)
        → r.waiting ≡ before ++ t ∷ after
        → Step r (record {
          cache = (write_cache auth config compress t r.cache s).1;
          waiting = before ++ after;
          calls = (write_cache auth config compress t r.cache s).2 ++ r.calls;
        })

  pub data Steps (r : Requests) : Requests → Type 0 where
    none_yet : Steps r r
    then_step : (m n : Requests) → Steps r m → Step m n → Steps r n

  -- From this state of the authorizer a list is fetched, of which the compression makes these bytes.
  abbrev pub Gives : S → Bytes → Type 0
  Gives s reply =
      (signers : List AllowedSigner) × (auth.get_allowed_signers s ≡ ok signers)
      × (compress (allowed_signers_file signers) ≡ some reply)

  -- A call that has given a list lies more than the validity before this time.
  abbrev pub Over : ℕ → ℕ × S → Type 0
  Over t call = (reply : Bytes) → Gives call.1 reply → call.0 + config.cache_validity_length < t

  -- Each call of the authorizer is of a request later than the validity after every call before it
  -- that has given a list.
  abbrev pub Spaced : List (ℕ × S) → Type 0
  Spaced [] = Unit
  Spaced ((t, s) ∷ calls) = All (Over t) calls × Spaced calls

  abbrev pub started : Requests
  started = record { cache = empty_cache; waiting = []; calls = [] }

  -- One of the calls has made the cache.
  pub record MadeBy (cache : AllowedSignersCache) (calls : List (ℕ × S)) : Type 0 where
    pub time : ℕ
    pub state : S
    pub before : List (ℕ × S)
    pub after : List (ℕ × S)
    pub called : calls ≡ before ++ (time, state) ∷ after
    pub gives : Gives state cache.compressed_allowed_signers
    pub expires : cache.expiry_timestamp ≡ time + config.cache_validity_length

  -- What a call gave is over when the cache is.
  abbrev Outlived : AllowedSignersCache → ℕ × S → Type 0
  Outlived cache call =
      (reply : Bytes)
      → Gives call.1 reply
      → call.0 + config.cache_validity_length ≤ cache.expiry_timestamp

  record Kept (cache : AllowedSignersCache) (calls : List (ℕ × S)) : Type 0 where
    made : (cache ≡ empty_cache) ⊎ MadeBy cache calls
    outlived : All (Outlived cache) calls
    spaced : Spaced calls

  MadeBy-later :
      (call : ℕ × S) (cache : AllowedSignersCache) (calls : List (ℕ × S))
      → (cache ≡ empty_cache) ⊎ MadeBy cache calls
      → (cache ≡ empty_cache) ⊎ MadeBy cache (call ∷ calls)
  MadeBy-later call cache calls (inl e) = inl e
  MadeBy-later call cache calls (inr m) = inr (record {
    time = m.time;
    state = m.state;
    before = call ∷ m.before;
    after = m.after;
    called = ap (λ l. call ∷ l) m.called;
    gives = m.gives;
    expires = m.expires;
  })

  module _ (t : ℕ) (s : S) (cache : AllowedSignersCache) (calls : List (ℕ × S))
      (k : Kept cache calls) (stale : is_valid t cache ≡ false) where
    passed : cache.expiry_timestamp < t
    passed = ground arith

    All-Over : All (Over t) calls
    All-Over =
        All-weaken (Outlived cache) (Over t)
          (λ call outlived reply gives. omega (arith, outlived reply gives, passed)) calls
          k.outlived

    stored-Kept :
        (signers : List AllowedSigner) (reply : Bytes)
        → auth.get_allowed_signers s ≡ ok signers
        → compress (allowed_signers_file signers) ≡ some reply
        → Kept
            (record {
              compressed_allowed_signers = reply;
              expiry_timestamp = t + config.cache_validity_length;
            })
            ((t, s) ∷ calls)
    stored-Kept signers reply fetched compressed = record {
      made = inr (record {
        time = t;
        state = s;
        before = [];
        after = calls;
        called = refl;
        gives = (signers, fetched, compressed);
        expires = refl;
      });
      outlived = (
        λ reply' gives. omega arith,
        All-weaken (Over t)
            (Outlived (record {
              compressed_allowed_signers = reply;
              expiry_timestamp = t + config.cache_validity_length;
            }))
            (λ call over reply' gives. omega (arith, over reply' gives)) calls All-Over,
      );
      spaced = (All-Over, k.spaced);
    }

    failed-Kept : ((reply : Bytes) → ¬ (Gives s reply)) → Kept cache ((t, s) ∷ calls)
    failed-Kept fails = record {
      made = MadeBy-later (t, s) cache calls k.made;
      outlived = (λ reply gives. absurd (fails reply gives), k.outlived);
      spaced = (All-Over, k.spaced);
    }

  write-Kept :
      (t : ℕ) (s : S) (cache : AllowedSignersCache) (calls : List (ℕ × S))
      → Kept cache calls
      → Kept
          (write_cache auth config compress t cache s).1
          ((write_cache auth config compress t cache s).2 ++ calls)
  unfolding write_cache fetch
  write-Kept t s cache calls k = elim (Bool-cases (is_valid t cache)) [
    | inl valid ↦ rw (valid, write_cache) k
    | inr stale ↦ elim (Run-cases (auth.get_allowed_signers s)) [
      | inl (signers, e) ↦ elim (Option-cases (compress (allowed_signers_file signers))) [
        | inl c ↦
            rw (stale, write_cache, e, fetch, from_answer, c)
              (failed-Kept t s cache calls k stale λ reply (other, fetched, compressed).
                let same = ok-injective (sym e ∙ fetched) in cc)
        | inr (reply, c) ↦
            rw (stale, write_cache, e, fetch, from_answer, c)
              (stored-Kept t s cache calls k stale signers reply e c)
      ]
      | inr (inl e) ↦
          rw (stale, write_cache, e, fetch)
            (failed-Kept t s cache calls k stale λ reply (other, fetched, compressed). cc)
      | inr (inr (x, e)) ↦
          rw (stale, write_cache, e, fetch)
            (failed-Kept t s cache calls k stale λ reply (other, fetched, compressed). cc)
    ]
  ]

  Step-Kept : {r n : Requests} → Step r n → Kept r.cache r.calls → Kept n.cache n.calls
  Step-Kept (hit t reply e) k = k
  Step-Kept (miss t e) k = k
  Step-Kept {r} (write t s before after e) k = write-Kept t s r.cache r.calls k

  Steps-Kept : {n : Requests} → Steps started n → Kept n.cache n.calls
  Steps-Kept none_yet = record { made = inl refl; outlived = tt; spaced = tt }
  Steps-Kept (then_step m n before step) = Step-Kept step (Steps-Kept before)

  -- After any interleaving of requests from the start of the server, each request that called the
  -- authorizer, whether or not its call gave a list, came, by the reading of the clock that it made
  -- at its start, more than the validity of the cache after every request whose earlier call gave a
  -- list that was compressed. Calls that failed may be repeated at once.
  pub fetches-Spaced : (n : Requests) → Steps started n → Spaced n.calls
  fetches-Spaced n steps = let k = Steps-Kept steps in k.spaced

  made_by_call :
      (t : ℕ) (cache : AllowedSignersCache) (calls : List (ℕ × S)) (reply : Bytes)
      → 0 < t
      → read_cache t cache ≡ some reply
      → (cache ≡ empty_cache) ⊎ MadeBy cache calls
      → (m : MadeBy cache calls) × (cache.compressed_allowed_signers ≡ reply)
        × (t ≤ m.time + config.cache_validity_length)
  unfolding read_cache
  made_by_call t cache calls reply later h (inl e) =
      absurd (ground (arith, ap (λ (c : AllowedSignersCache). c.expiry_timestamp) e))
  made_by_call t cache calls reply later h (inr m) =
      let expires = m.expires in (m, ground arith, ground arith)

  -- After any interleaving of requests from the start of the server, a reply read from the cache at
  -- a later time than zero is the list that one of the calls made of the authorizer has given,
  -- compressed, and the request of this call came no longer ago than the cache is valid.
  pub read_cache-fetched :
      (n : Requests) (t : ℕ) (reply : Bytes)
      → Steps started n
      → 0 < t
      → read_cache t n.cache ≡ some reply
      → (m : MadeBy n.cache n.calls) × (n.cache.compressed_allowed_signers ≡ reply)
        × (t ≤ m.time + config.cache_validity_length)
  read_cache-fetched n t reply steps later h =
      let k = Steps-Kept steps in made_by_call t n.cache n.calls reply later h k.made
