-- ===== src/Server/AllowedSigners.antt =====
-- rustica/src/server.rs: the handler `allowed_signers`, which hands out the registered keys, compressed.
-- Replies are cached for a while, and a client is turned away that asked shortly before. A time is a
-- `Duration`, in nanoseconds. The `LruCache` of the crate lru and the compression by zstd are parameters.
pub mod Limiter
pub mod Cache
pub mod Refines
use rustica.Common.{ℕ, ◌+◌, Bool, true, false, Option, none, some, List, [], ◌∷◌, ◌++◌, map}
use rustica.Common.{first, leb, ltb, if◌then◌else◌}
use rustica.Common.Text.{Text, text, eq, commas, join}
use rustica.Common.Run.{Run, ok, err, panic, ok_or}
use rustica.Errors.{RusticaServerError, AuthorizationError, debug}
use rustica.Logs.{Logged, rustica_error, ◌>>=◌, ◌>>◌, pure, lift, fail}
use rustica.Keys.{Bytes}
use rustica.Foreign.{Foreign}
use rustica.Auth.{AllowedSigner, Authorizer}
use rustica.Server.{Status, denied, cancelled, resource_exhausted, Connection, MtlsCertificateInfo}
use rustica.Server.Peer.{extract_certificate_information}

pub record AllowedSignersCache : Type 0 where
  pub compressed_allowed_signers : Bytes
  pub expiry_timestamp : ℕ

-- `lru_rate_limiter_size` is the capacity of the rate limiter.
pub record AllowedSignersConfiguration : Type 0 where
  pub cache_validity_length : ℕ
  pub rate_limit_cooldown : ℕ

-- `LruCache::push`: what it put out, and the cache after it
pub record LruCache (L : Type 0) : Type 0 where
  pub push : Text → ℕ → L → Option (Text × ℕ) × L

-- Whether the entry that was put out says that the client has to wait.
abbrev pub has_to_wait : Text → ℕ → Option (Text × ℕ) → Bool
has_to_wait identities current_time none = false
has_to_wait identities current_time (some (name, until)) =
    if eq name identities then ltb current_time until else false

unfoldable pub is_rate_limited :
    {L : Type 0} → LruCache L → AllowedSignersConfiguration → Text → ℕ → L → Bool × L
is_rate_limited lru config identities current_time l =
    let (removed_entry, l') = lru.push identities (current_time + config.rate_limit_cooldown) l in
    (has_to_wait identities current_time removed_entry, l')

-- format!("{} {}", identity, pubkey)
abbrev signer_line : AllowedSigner → Text
signer_line s = s.identity ++ text " " ++ s.pubkey

-- the content of an allowed signers file
unfoldable pub allowed_signers_file : List AllowedSigner → Text
allowed_signers_file signers = join (10 ∷ []) (map signer_line signers)

abbrev pub is_valid : ℕ → AllowedSignersCache → Bool
is_valid current_time cache = leb current_time cache.expiry_timestamp

-- Under the read lock.
unfoldable pub read_cache : ℕ → AllowedSignersCache → Option Bytes
read_cache current_time cache =
    if is_valid current_time cache then some cache.compressed_allowed_signers else none

-- compress: zstd at its default level, `none` for an error of any of its three calls
module _ {S : Type 0} (auth : Authorizer S) (config : AllowedSignersConfiguration)
    (compress : Text → Option Bytes) where
  abbrev from_answer :
      ℕ → Run AuthorizationError (List AllowedSigner) → Run Status AllowedSignersCache
  from_answer current_time (err e) = err denied
  from_answer current_time panic = panic
  from_answer current_time (ok signers) = elim (compress (allowed_signers_file signers)) [
    | none ↦ err denied
    | some data' ↦ ok (record {
      compressed_allowed_signers = data';
      expiry_timestamp = current_time + config.cache_validity_length;
    })
  ]

  -- The list fetched anew.
  unfoldable pub fetch : ℕ → S → Run Status AllowedSignersCache
  fetch current_time s = from_answer current_time (auth.get_allowed_signers s)

  -- The reply, the cache, and the calls of the authorizer: the time of the request and the state that
  -- the call met, also of a call that failed.
  abbrev stored :
      ℕ × S
      → AllowedSignersCache
      → Run Status AllowedSignersCache
      → Run Status Bytes × AllowedSignersCache × List (ℕ × S)
  stored call cache (ok new) = (ok new.compressed_allowed_signers, new, call ∷ [])
  stored call cache (err e) = (err e, cache, call ∷ [])
  stored call cache panic = (panic, cache, call ∷ [])

  -- Under the write lock: another request may have filled the cache in the meantime.
  unfoldable pub write_cache :
      ℕ → AllowedSignersCache → S → Run Status Bytes × AllowedSignersCache × List (ℕ × S)
  write_cache current_time cache s =
      if is_valid current_time cache
      then (ok cache.compressed_allowed_signers, cache, [])
      else stored (current_time, s) cache (fetch current_time s)

  module _ (f : Foreign) {L : Type 0} (lru : LruCache L) where
    abbrev read_identities :
        Run RusticaServerError MtlsCertificateInfo → Logged Status MtlsCertificateInfo
    read_identities (ok info) = pure info
    read_identities (err e) =
        fail (cancelled []) (rustica_error (text "Could not validate request: " ++ debug e))
    read_identities panic = (panic, [])

    -- Who asks, and when.
    unfoldable pub caller : Connection → Option ℕ → Logged Status (Text × ℕ)
    caller conn now = do
      _remote_addr ← lift (ok_or denied conn.remote_addr)
      peer ← lift (ok_or denied conn.peer_certs)
      cert ← lift (ok_or denied (first peer))
      info ← read_identities (extract_certificate_information f cert)
      current_time ← lift (ok_or denied now)
      pure (commas info.identities, current_time)

    -- The whole call, where no other request comes between its two locks.
    abbrev pub answer_at :
        ℕ
        → Bool × L
        → AllowedSignersCache
        → S
        → Run Status Bytes × L × AllowedSignersCache × List (ℕ × S)
    answer_at current_time (true, l) cache s = (err (resource_exhausted []), l, cache, [])
    answer_at current_time (false, l) cache s = elim (read_cache current_time cache) [
      | some reply ↦ (ok reply, l, cache, [])
      | none ↦
          let (reply, cache', calls) = write_cache current_time cache s in (reply, l, cache', calls)
    ]

    abbrev pub serve :
        Logged Status (Text × ℕ)
        → L
        → AllowedSignersCache
        → S
        → Logged Status Bytes × L × AllowedSignersCache × List (ℕ × S)
    serve (err e, events) l cache s = ((err e, events), l, cache, [])
    serve (panic, events) l cache s = ((panic, events), l, cache, [])
    serve (ok (identities, current_time), events) l cache s =
        let limited = is_rate_limited lru config identities current_time l in
        let (reply, l', cache', calls) = answer_at current_time limited cache s in
        ((reply, events), l', cache', calls)

    unfoldable pub allowed_signers :
        Connection
        → Option ℕ
        → L
        → AllowedSignersCache
        → S
        → Logged Status Bytes × L × AllowedSignersCache × List (ℕ × S)
    allowed_signers conn now l cache s = serve (caller conn now) l cache s
