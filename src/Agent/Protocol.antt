-- ===== src/Agent/Protocol.antt =====
-- rustica-agent/src/sshagent/protocol.rs: the messages of ssh-agent. A stream is the list of the bytes
-- that the peer sends until it closes; a read past the end is an I/O error.
pub mod Reading
pub mod Writing
use rustica.Common.{ℕ, zero, suc, ◌+◌, ◌*◌, ◌/◌, ◌%◌, ◌^◌, List, [], ◌∷◌, ◌++◌, length}
use rustica.Common.{◌==◌, Option, none, some, if◌then◌else◌}
use rustica.Common.Text.{Text}
use rustica.Common.Run.{Run, ok, err, panic, ◌>>=◌}
use rustica.Keys.{Bytes}
use rustica.Agent.{AgentError, io_error}

pub data MessageRequest : Type 0 where
  identities sign add_identity remove_identity remove_all_identities : MessageRequest
  add_id_constrained add_smartcard_key remove_smartcard_key lock unlock : MessageRequest
  add_smartcard_key_constrained extension unknown : MessageRequest

unfoldable pub from_u8 : ℕ → MessageRequest
from_u8 value =
    if value == 11
    then identities
    else if value == 13
    then sign
    else if value == 17
    then add_identity
    else if value == 18
    then remove_identity
    else if value == 19
    then remove_all_identities
    else if value == 25
    then add_id_constrained
    else if value == 20
    then add_smartcard_key
    else if value == 21
    then remove_smartcard_key
    else if value == 22
    then lock
    else if value == 23
    then unlock
    else if value == 26
    then add_smartcard_key_constrained
    else if value == 27
    then extension
    else unknown

unfoldable pub read_u8 : Bytes → Run AgentError (ℕ × Bytes)
read_u8 [] = err io_error
read_u8 (b ∷ rest) = ok (b, rest)

-- big endian
unfoldable pub read_u32 : Bytes → Run AgentError (ℕ × Bytes)
read_u32 (a ∷ b ∷ c ∷ d ∷ rest) = ok (((a * 256 + b) * 256 + c) * 256 + d, rest)
read_u32 [] = err io_error
read_u32 (_ ∷ []) = err io_error
read_u32 (_ ∷ _ ∷ []) = err io_error
read_u32 (_ ∷ _ ∷ _ ∷ []) = err io_error

-- One more byte at the head of what was read.
abbrev pub with_head : ℕ → Run AgentError (Bytes × Bytes) → Run AgentError (Bytes × Bytes)
with_head b (ok (read, rest)) = ok (b ∷ read, rest)
with_head b (err e) = err e
with_head b panic = panic

unfoldable pub read_exact : ℕ → Bytes → Run AgentError (Bytes × Bytes)
read_exact zero stream = ok ([], stream)
read_exact (suc n) [] = err io_error
read_exact (suc n) (b ∷ stream) = with_head b (read_exact n stream)

unfoldable pub read_message : Bytes → Run AgentError (Bytes × Bytes)
read_message stream = read_u32 stream >>= λ (len, rest). read_exact len rest

unfoldable pub write_u32 : ℕ → Bytes
write_u32 n = n / 2 ^ 24 % 256 ∷ n / 2 ^ 16 % 256 ∷ n / 2 ^ 8 % 256 ∷ n % 256 ∷ []

-- `string.len() as u32` keeps the low bits.
unfoldable pub write_message : Bytes → Bytes
write_message string = write_u32 (length string % 2 ^ 32) ++ string

pub record Identity : Type 0 where
  pub key_blob : Bytes
  pub key_comment : Text

pub data Response : Type 0 where
  success failure : Response
  identities_answer : List Identity → Response
  sign_response : Bytes → Response

unfoldable pub write_identities : List Identity → Bytes
write_identities [] = []
write_identities (i ∷ rest) =
    write_message i.key_blob ++ (write_message i.key_comment ++ write_identities rest)

-- What is written before the length is put in front.
unfoldable pub response_body : Response → Bytes
response_body success = 6 ∷ []
response_body failure = 5 ∷ []
response_body (identities_answer ids) =
    12 ∷ (write_u32 (length ids % 2 ^ 32) ++ write_identities ids)
response_body (sign_response signature) = 14 ∷ write_message signature

unfoldable pub write_response : Response → Bytes
write_response r = write_message (response_body r)

-- private_key_of_bytes: `sshcerts::PrivateKey::from_bytes`
module _ {PrivateKey : Type 0} (private_key_of_bytes : Bytes → Option PrivateKey) where
  pub data Request : Type 0 where
    list_identities : Request
    sign_data : Bytes → Bytes → ℕ → Request
    add_key : PrivateKey → Request
    unknown_request : Request

  abbrev add_or_unknown : Option PrivateKey → Request
  add_or_unknown (some private_key) = add_key private_key
  add_or_unknown none = unknown_request

  -- the `match` on the type of the message, over the rest of the message
  unfoldable pub read_body : MessageRequest → Bytes → Run AgentError Request
  read_body identities buf = ok list_identities
  read_body sign buf = do
    (pubkey_blob, buf') ← read_message buf
    (data', buf'') ← read_message buf'
    (flags, _) ← read_u32 buf''
    ok (sign_data pubkey_blob data' flags)
  read_body add_identity buf = ok (add_or_unknown (private_key_of_bytes buf))
  read_body _ buf = ok unknown_request

  -- `Request::read`: the request, and the stream after it
  unfoldable pub read_request : Bytes → Run AgentError (Request × Bytes)
  read_request stream = do
    (raw_msg, rest) ← read_message stream
    (msg, buf) ← read_u8 raw_msg
    request ← read_body (from_u8 msg) buf
    ok (request, rest)
