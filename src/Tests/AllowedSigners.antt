-- ===== src/Tests/AllowedSigners.antt =====
-- The list of the registered keys, asked for twice.
use rustica.Common.{
  ℕ, ◌+◌, ◌≤◌, ◌≡◌, ◌≢◌, ◌⊎◌, refl, true, Option, none, some, [], ◌∷◌, arith, inl, inr,
}
use rustica.Common.{if◌then◌else◌}
use rustica.Common.Text.{Text, text, eq, eq_refl, eq_iff, join}
use rustica.Common.Run.{ok, err}
use rustica.Keys.{Bytes}
use rustica.Auth.Database.{Database, local, get_allowed_signers, registered_key}
use rustica.Server.{resource_exhausted}
use rustica.Server.Peer.{extract_certificate_information}
use rustica.Server.AllowedSigners.{
  LruCache, AllowedSignersConfiguration, AllowedSignersCache, is_rate_limited, allowed_signers_file,
  read_cache, fetch, write_cache, caller, allowed_signers,
}
use rustica.Server.AllowedSigners.Limiter.{IsLru, is_rate_limited-again}
use rustica.Server.AllowedSigners.Cache.{
  Requests, miss, write, Steps, none_yet, then_step, Spaced, started, MadeBy, empty_cache,
  fetches-Spaced, read_cache-fetched,
}
use rustica.Server.AllowedSigners.Refines.{IsCaller, Refined, allowed_signers-Refined}
use rustica.Tests.Toy.{toy}
use rustica.Tests.Server.{conn, db}

run : Unit {0}
unfolding eq join get_allowed_signers registered_key extract_certificate_information is_rate_limited
    allowed_signers_file read_cache fetch write_cache caller allowed_signers
run = tt

-- A cache of one entry.
abbrev One : Type 0
One = Option (Text × ℕ)

abbrev one : LruCache One
one = record { push = λ key t l. (l, some (key, t)) }

abbrev peek_one : Text → One → Option ℕ
peek_one key none = none
peek_one key (some (name, t)) = if eq name key then some t else none

peek_one-known : (key : Text) (old : ℕ) (l : One) → peek_one key l ≡ some old → l ≡ some (key, old)
peek_one-known key old none h = cc
peek_one-known key old (some (name, t)) h = ground (arith, eq_iff name key)

one-IsLru : IsLru one
one-IsLru = record {
  peek = peek_one;
  peek-push = λ key t l. rw (eq_refl key) refl;
  push-known = λ key t old l h. peek_one-known key old l h;
  push-new = λ key t l h.
      elim l
          as (λ l.
            peek_one key l ≡ none
            → (l ≡ none) ⊎ ((other : Text) × (old : ℕ) × (other ≢ key) × (l ≡ some (other, old)))) [
              | none ↦ λ h. inl refl
              | some (name, old) ↦
                  λ h. inr (name, old, (λ same. ground (arith, eq_iff name key)), refl)
            ]
        h;
}

abbrev config : AllowedSignersConfiguration
config = record { cache_validity_length = 100; rate_limit_cooldown = 10 }

is_rate_limited-again_example :
    (is_rate_limited one config
      (text "ann")
      1009
      (is_rate_limited one config (text "ann") 1000 none).1).0
    ≡ true
is_rate_limited-again_example =
    is_rate_limited-again one one-IsLru config (text "ann") 1000 1009 none (omega arith)

abbrev compress : Text → Option Bytes
compress t = some t

abbrev hex : Bytes → Text
hex b = b

abbrev registered : Database
registered = record db {
  registered_keys =
      registered_key hex (record {
        fingerprint = text "a";
        pubkey = text "ssh-a";
        mtls_identities = text "ann" ∷ [];
        requester_ip = [];
        attestation = none;
      })
      ∷ [];
}

abbrev filled : AllowedSignersCache
filled = record { compressed_allowed_signers = text "ann ssh-a"; expiry_timestamp = 1100 }

-- The first call fetches the list; the second one comes too soon.
allowed_signers_tests :
    (allowed_signers
        (local hex [] none)
        config
        compress
        toy
        one
        conn
        (some 1000)
        none
        (record { compressed_allowed_signers = []; expiry_timestamp = 0 })
        registered
      ≡ ((ok (text "ann ssh-a"), []), some (text "ann", 1010), filled, (1000, registered) ∷ []))
    × ((allowed_signers
          (local hex [] none)
          config
          compress
          toy
          one
          conn
          (some 1009)
          (some (text "ann", 1010))
          filled
          registered).0.0
        ≡ err (resource_exhausted []))
unfolding run
allowed_signers_tests = (refl, refl)

abbrev after_miss : Requests (local hex [] none) config compress
after_miss = record (started (local hex [] none) config compress) { waiting = 1000 ∷ [] }

abbrev after_write : Requests (local hex [] none) config compress
after_write = record {
  cache = (write_cache (local hex [] none) config compress 1000 after_miss.cache registered).1;
  waiting = [];
  calls = (1000, registered) ∷ [];
}

steps :
    Steps
      (local hex [] none)
      config
      compress
      (started (local hex [] none) config compress)
      after_write
unfolding run
steps =
    then_step after_miss after_write
      (then_step (started (local hex [] none) config compress) after_miss none_yet (miss 1000 refl))
      (write 1000 registered [] [] refl)

fetches-Spaced_example : Spaced (local hex [] none) config compress after_write.calls
fetches-Spaced_example = fetches-Spaced (local hex [] none) config compress after_write steps

still_valid : read_cache 1100 after_write.cache ≡ some (text "ann ssh-a")
unfolding run
still_valid = refl

read_cache-fetched_example :
    (m : MadeBy (local hex [] none) config compress after_write.cache after_write.calls)
    × (after_write.cache.compressed_allowed_signers ≡ text "ann ssh-a")
    × (1100 ≤ m.time + 100)
read_cache-fetched_example =
    read_cache-fetched (local hex [] none) config compress after_write 1100 (text "ann ssh-a") steps
      (omega arith) still_valid

ann : IsCaller toy conn (text "ann")
unfolding run
ann = record {
  remote = _;
  certs = _;
  cert = _;
  info = _;
  connected = refl;
  presented = refl;
  one = refl;
  read = refl;
  named = refl;
}

allowed_signers-Refined_example :
    Refined
      (local hex [] none)
      config
      compress
      1000
      registered
      (is_rate_limited one config (text "ann") 1000 none).0
      none
      (allowed_signers
        (local hex [] none)
        config
        compress
        toy
        one
        conn
        (some 1000)
        none
        empty_cache
        registered).0.0
      (allowed_signers
        (local hex [] none)
        config
        compress
        toy
        one
        conn
        (some 1000)
        none
        empty_cache
        registered).2
      (allowed_signers
        (local hex [] none)
        config
        compress
        toy
        one
        conn
        (some 1000)
        none
        empty_cache
        registered).3
allowed_signers-Refined_example =
    allowed_signers-Refined (local hex [] none) config compress toy one conn (text "ann") 1000 none
      registered empty_cache none (omega arith) ann refl
