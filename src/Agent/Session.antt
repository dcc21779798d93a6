-- ===== src/Agent/Session.antt =====
-- rustica-agent/src/sshagent/agent.rs and handler.rs: the conversation with one client. A peer that
-- stops reading is left out: writing an answer succeeds.
pub mod Ends
pub mod Pipeline
pub mod Preserved
use rustica.Common.{ℕ, zero, suc, ◌+◌, Option, List, [], ◌∷◌, ◌++◌, length}
use rustica.Common.Run.{Run, ok, err, panic}
use rustica.Keys.{Bytes}
use rustica.Agent.{AgentError}
use rustica.Agent.Protocol.{
  Request, list_identities, sign_data, add_key, unknown_request, read_request, Response, failure,
  write_response,
}

module _ {PrivateKey : Type 0} (private_key_of_bytes : Bytes → Option PrivateKey) where
  -- the trait `SshAgentHandler`, over a state `S`
  pub record SshAgentHandler (S : Type 0) : Type 0 where
    pub add_identity : PrivateKey → S → Run AgentError Response × S
    pub identities : S → Run AgentError Response × S
    pub sign_request : Bytes → Bytes → ℕ → S → Run AgentError Response × S

  unfoldable pub handle_request :
      {S : Type 0}
      → SshAgentHandler S
      → Request private_key_of_bytes
      → S
      → Run AgentError Response × S
  handle_request h list_identities s = h.identities s
  handle_request h (sign_data pubkey_blob data' flags) s = h.sign_request pubkey_blob data' flags s
  handle_request h (add_key private_key) s = h.add_identity private_key s
  handle_request h unknown_request s = (ok failure, s)

  -- How a conversation ends; `out_of_fuel` is no end of the program.
  pub data End : Type 0 where
    closed : AgentError → End
    panicked : End
    out_of_fuel : End

  -- What was sent to the client, the state after it, and how it ended.
  pub record Conversation (S : Type 0) : Type 0 where
    pub sent : Bytes
    pub state : S
    pub ended : End

  module _ {S : Type 0} (h : SshAgentHandler S) where
    abbrev pub ending : S → End → Conversation S
    ending s e = record { sent = []; state = s; ended = e }

    abbrev pub after_answer : Bytes → Conversation S → Conversation S
    after_answer answer rest = record rest { sent = answer ++ rest.sent }

    -- What follows the handler's result.
    abbrev pub reply : (S → Conversation S) → Run AgentError Response × S → Conversation S
    reply next (ok response, s) = after_answer (write_response response) (next s)
    reply next (err e, s) = ending s (closed e)
    reply next (panic, s) = ending s panicked

    -- One round of the loop, given the rounds after it.
    abbrev pub round :
        (Bytes → S → Conversation S)
        → Run AgentError (Request private_key_of_bytes × Bytes)
        → S
        → Conversation S
    round next (ok (request, rest)) s = reply (next rest) (handle_request h request s)
    round next (err e) s = ending s (closed e)
    round next panic s = ending s panicked

    unfoldable pub serve : ℕ → Bytes → S → Conversation S
    serve zero stream s = ending s out_of_fuel
    serve (suc fuel) stream s = round (serve fuel) (read_request private_key_of_bytes stream) s

    unfoldable pub handle_client : Bytes → S → Conversation S
    handle_client stream s = serve (length stream + 1) stream s
