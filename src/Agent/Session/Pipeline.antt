-- ===== src/Agent/Session/Pipeline.antt =====
-- A client that sends its requests one after the other gets the answers in their order.

use rustica.Common.{ℕ, zero, suc, ◌+◌, ◌<◌, ◌≡◌, refl, Option, List, [], ◌∷◌, ◌++◌, length, arith}
use rustica.Common.{All}
use rustica.Common.Run.{ok}
use rustica.Keys.{Bytes}
use rustica.Agent.{io_error}
use rustica.Agent.Protocol.{Request, read_request, read_message, read_u32}
use rustica.Agent.Protocol.Reading.{
  ClientRequest, encode_request, Sendable, meaning, read_request-encode_request,
  read_request-length,
}
use rustica.Agent.Session.{
  SshAgentHandler, handle_request, closed, Conversation, ending, reply, round, serve, handle_client,
}
use rustica.Agent.Session.Ends.{reply-same}

abbrev pub encode_requests : List ClientRequest → Bytes
encode_requests [] = []
encode_requests (r ∷ rs) = encode_request r ++ encode_requests rs

module _ {PrivateKey : Type 0} (private_key_of_bytes : Bytes → Option PrivateKey) {S : Type 0}
    (h : SshAgentHandler private_key_of_bytes S) where
  -- The handler run on one request after the other; the client closes after the last one.
  unfoldable pub run_requests : List ClientRequest → S → Conversation private_key_of_bytes S
  run_requests [] s = ending private_key_of_bytes h s (closed io_error)
  run_requests (r ∷ rs) s =
      reply private_key_of_bytes h (run_requests rs)
        (handle_request private_key_of_bytes h (meaning private_key_of_bytes r) s)

  round_on :
      (next : Bytes → S → Conversation private_key_of_bytes S)
      (rest : S → Conversation private_key_of_bytes S) (r : Request private_key_of_bytes) (s : S)
      (stream more : Bytes)
      → read_request private_key_of_bytes stream ≡ ok (r, more)
      → ((s : S) → next more s ≡ rest s)
      → round private_key_of_bytes h next (read_request private_key_of_bytes stream) s
        ≡ reply private_key_of_bytes h rest (handle_request private_key_of_bytes h r s)
  round_on next rest r s stream more read same = rw read (
      reply-same private_key_of_bytes h (next more) rest (handle_request private_key_of_bytes h r s)
        same)

  serve-encode_requests :
      (rs : List ClientRequest) (s : S) (fuel : ℕ)
      → All Sendable rs
      → length (encode_requests rs) < fuel
      → serve private_key_of_bytes h fuel (encode_requests rs) s ≡ run_requests rs s
  unfolding serve run_requests read_request read_message read_u32
  serve-encode_requests rs s zero sendable fits = absurd (omega arith)
  serve-encode_requests [] s (suc fuel) sendable fits = refl
  serve-encode_requests (r ∷ rs) s (suc fuel) (sendable, others) fits =
      let read = read_request-encode_request private_key_of_bytes r (encode_requests rs) sendable in
      let shorter = read_request-length private_key_of_bytes _ _ _ read in
      round_on (serve private_key_of_bytes h fuel) (run_requests rs)
        (meaning private_key_of_bytes r) s _ _ read
        (λ s'. serve-encode_requests rs s' fuel others (omega (arith, shorter)))

  -- If a client sends the encodings of a list of requests whose lengths and flags fit 32 bits and
  -- closes, then the conversation has the answers, the state and the end of the handler run on the
  -- one request after the other.
  pub handle_client-encode_requests :
      (rs : List ClientRequest) (s : S)
      → All Sendable rs
      → handle_client private_key_of_bytes h (encode_requests rs) s ≡ run_requests rs s
  unfolding handle_client
  handle_client-encode_requests rs s sendable =
      serve-encode_requests rs s (length (encode_requests rs) + 1) sendable (omega arith)
