-- ===== src/Agent/Protocol/Writing.antt =====
-- What the agent answers is read back by a client.

use rustica.Common.{ℕ, zero, suc, ◌%◌, ◌^◌, ◌≤◌, ◌<◌, ◌≡◌, refl, List, [], ◌∷◌, ◌++◌}
use rustica.Common.{length, length-append, arith, ◌==◌, if◌then◌else◌}
use rustica.Common.Run.{Run, ok, ◌>>=◌}
use rustica.Keys.{Bytes}
use rustica.Agent.{AgentError}
use rustica.Agent.Protocol.{
  read_u8, read_u32, read_message, write_u32, write_message, Identity, Response, success, failure,
  identities_answer, sign_response, write_identities, response_body, write_response,
}
use rustica.Agent.Protocol.Reading.{
  read_u32-write_u32, read_message-write_message, read_message-write_message_last,
  length-write_message,
}

-- A client's reading of an answer.
pub read_identities : ℕ → Bytes → Run AgentError (List Identity × Bytes)
read_identities zero s = ok ([], s)
read_identities (suc n) s = do
  (blob, s') ← read_message s
  (comment, s'') ← read_message s'
  (ids, rest) ← read_identities n s''
  ok (record { key_blob = blob; key_comment = comment } ∷ ids, rest)

pub read_answer : ℕ → Bytes → Run AgentError (Response × Bytes)
unfolding read_identities
read_answer kind s =
    if kind == 6
    then ok (success, s)
    else if kind == 12
    then (do
      (n, s') ← read_u32 s
      (ids, rest) ← read_identities n s'
      ok (identities_answer ids, rest))
    else if kind == 14
    then (do (signature, rest) ← read_message s; ok (sign_response signature, rest))
    else ok (failure, s)

pub read_response : Bytes → Run AgentError (Response × Bytes)
unfolding read_answer
read_response stream = do
  (raw, rest) ← read_message stream
  (kind, buf) ← read_u8 raw
  (answer, _) ← read_answer kind buf
  ok (answer, rest)

length-write_identities : (ids : List Identity) → length ids ≤ length (write_identities ids)
unfolding write_identities
length-write_identities [] = omega arith
length-write_identities (i ∷ ids) = omega (
  arith,
  length-write_identities ids,
  length-append (write_message i.key_blob) (write_message i.key_comment ++ write_identities ids),
  length-append (write_message i.key_comment) (write_identities ids),
  length-write_message i.key_blob,
)

read_identities-write_identities :
    (ids : List Identity)
    → length (write_identities ids) < 2 ^ 32
    → read_identities (length ids) (write_identities ids) ≡ ok (ids, [])
unfolding write_identities read_identities
read_identities-write_identities [] h = refl
read_identities-write_identities (i ∷ ids) h =
    let rest = write_message i.key_comment ++ write_identities ids in
    let l = length-append (write_message i.key_blob) rest in
    let k = length-append (write_message i.key_comment) (write_identities ids) in
    let m = length-write_message i.key_blob in
    let n = length-write_message i.key_comment in
    rw
      (
        read_message-write_message i.key_blob rest (omega (arith, l, k, m, n)),
        read_message-write_message i.key_comment (write_identities ids) (omega (arith, l, k, m, n)),
        read_identities-write_identities ids (omega (arith, l, k, m, n)),
      )
      refl

-- An answer of the agent whose body fits 32 bits is read back by a reader of the protocol, and what
-- follows it in the stream is left.
pub read_response-write_response :
    (r : Response) (more : Bytes)
    → length (response_body r) < 2 ^ 32
    → read_response (write_response r ++ more) ≡ ok (r, more)
unfolding read_response write_response response_body read_u8 read_answer
read_response-write_response success more h =
    rw (read_message-write_message (6 ∷ []) more (omega arith)) refl
read_response-write_response failure more h =
    rw (read_message-write_message (5 ∷ []) more (omega arith)) refl
read_response-write_response (identities_answer ids) more h =
    let k = length-write_identities ids in
    let l = length-append (write_u32 (length ids % 2 ^ 32)) (write_identities ids) in
    let n : length ids % 2 ^ 32 ≡ length ids = omega (arith, k, l) in
    rw
      (
        read_message-write_message _ more h,
        read_u32-write_u32 (length ids % 2 ^ 32) (write_identities ids) (omega arith),
        n,
        read_identities-write_identities ids (omega (arith, l)),
      )
      refl
read_response-write_response (sign_response s) more h =
    rw
      (
        read_message-write_message _ more h,
        read_message-write_message_last s (omega (arith, length-write_message s)),
      )
      refl
