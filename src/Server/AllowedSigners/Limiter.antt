-- ===== src/Server/AllowedSigners/Limiter.antt =====
-- The rate limiter of `allowed_signers`, under what the crate lru documents of `LruCache::push`.
use rustica.Common.{ℕ, ◌+◌, ◌<◌, ◌≡◌, ◌≢◌, ◌↔◌, ◌⊎◌, inl, inr, true, Option, none, some, arith}
use rustica.Common.{Option-cases, ltb_iff}
use rustica.Common.Text.{Text, eq_iff, eq_refl}
use rustica.Server.AllowedSigners.{LruCache, AllowedSignersConfiguration, is_rate_limited}

-- `push` puts out the previous entry of the key, or for a new key nothing or the oldest entry.
pub record IsLru {L : Type 0} (lru : LruCache L) : Type 0 where
  pub peek : Text → L → Option ℕ
  pub peek-push : (key : Text) (t : ℕ) (l : L) → peek key (lru.push key t l).1 ≡ some t
  pub push-known :
      (key : Text) (t old : ℕ) (l : L)
      → peek key l ≡ some old
      → (lru.push key t l).0 ≡ some (key, old)
  pub push-new :
      (key : Text) (t : ℕ) (l : L)
      → peek key l ≡ none
      → ((lru.push key t l).0 ≡ none)
        ⊎ ((other : Text) × (old : ℕ) × (other ≢ key) × ((lru.push key t l).0 ≡ some (other, old)))

module _ {L : Type 0} (lru : LruCache L) (is_lru : IsLru lru)
    (config : AllowedSignersConfiguration) where
  -- Under the documented behaviour of the LRU cache, a client is limited exactly if the limiter
  -- holds a time for its identities that is still to come.
  is_rate_limited_iff :
      (identities : Text) (current_time : ℕ) (l : L)
      → ((is_rate_limited lru config identities current_time l).0 ≡ true)
        ↔ ((until : ℕ) × (is_lru.peek identities l ≡ some until) × (current_time < until))
  unfolding is_rate_limited
  is_rate_limited_iff identities current_time l =
      let next = current_time + config.rate_limit_cooldown in
      elim (Option-cases (is_lru.peek identities l)) [
        | inr (old, held) ↦
            let out = is_lru.push-known identities next old l held in
            let (to, from) = ltb_iff current_time old in
            (
              λ h. (old, held, to (rw (out, eq_refl identities) at h)),
              λ (until, same, early).
                  let e : until ≡ old = cc (held, same) in
                  rw (out, eq_refl identities) (from (omega (arith, e, early))),
            )
        | inl new ↦ elim (is_lru.push-new identities next l new) [
          | inl out ↦ (λ h. absurd (cc (rw out at h)), λ (until, same, early). cc)
          | inr (other, old, differs, out) ↦ (
            λ h. absurd (differs (ground (arith, eq_iff other identities))),
            λ (until, same, early). cc,
          )
        ]
      ]

  -- Under the documented behaviour of the LRU cache, the next call of the limiter for the same
  -- identities, made less than the cooldown after one that itself may have been limited, is
  -- limited.
  pub is_rate_limited-again :
      (identities : Text) (first second : ℕ) (l : L)
      → second < first + config.rate_limit_cooldown
      → (is_rate_limited lru config identities second
          (is_rate_limited lru config identities first l).1).0
        ≡ true
  unfolding is_rate_limited
  is_rate_limited-again identities first second l early =
      let (_, from) =
        is_rate_limited_iff identities second (is_rate_limited lru config identities first l).1 in
      from (first + config.rate_limit_cooldown, is_lru.peek-push identities _ l, early)
