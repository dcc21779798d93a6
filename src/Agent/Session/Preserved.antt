-- ===== src/Agent/Session/Preserved.antt =====
-- What every handler keeps, a conversation keeps, whatever the client sends.
use rustica.Common.{ℕ, zero, suc, ◌+◌, Option, length, inl, inr}
use rustica.Common.Run.{Run, ok, err, panic, Run-cases}
use rustica.Keys.{Bytes}
use rustica.Agent.{AgentError}
use rustica.Agent.Protocol.{
  Request, list_identities, sign_data, add_key, unknown_request, Response, read_request,
}
use rustica.Agent.Session.{
  SshAgentHandler, handle_request, Conversation, reply, serve, handle_client,
}

module _ {PrivateKey : Type 0} (private_key_of_bytes : Bytes → Option PrivateKey) {S : Type 0}
    (h : SshAgentHandler private_key_of_bytes S) (P : S → Type 0) where
  -- Each method of the handler keeps the property.
  pub record Keeps : Type 0 where
    pub keeps_add : (key : PrivateKey) (s : S) → P s → P (h.add_identity key s).1
    pub keeps_identities : (s : S) → P s → P (h.identities s).1
    pub keeps_sign :
        (blob message : Bytes) (flags : ℕ) (s : S) → P s → P (h.sign_request blob message flags s).1

  module _ (k : Keeps) where
    handle_request-keeps :
        (r : Request private_key_of_bytes) (s : S)
        → P s
        → P (handle_request private_key_of_bytes h r s).1
    unfolding handle_request
    handle_request-keeps list_identities s p = k.keeps_identities s p
    handle_request-keeps (sign_data blob message flags) s p = k.keeps_sign blob message flags s p
    handle_request-keeps (add_key key) s p = k.keeps_add key s p
    handle_request-keeps unknown_request s p = p

    reply-keeps :
        (next : S → Conversation private_key_of_bytes S) (r : Run AgentError Response × S)
        → ((s : S) → P s → P (next s).state)
        → P r.1
        → P (reply private_key_of_bytes h next r).state
    reply-keeps next (ok response, s) keeps p = keeps s p
    reply-keeps next (err e, s) keeps p = p
    reply-keeps next (panic, s) keeps p = p

    serve-keeps :
        (fuel : ℕ) (stream : Bytes) (s : S)
        → P s
        → P (serve private_key_of_bytes h fuel stream s).state
    unfolding serve
    serve-keeps zero stream s p = p
    serve-keeps (suc fuel) stream s p =
        elim (Run-cases (read_request private_key_of_bytes stream)) [
          | inr (inl e) ↦ rw e p
          | inr (inr (x, e)) ↦ rw e p
          | inl ((request, rest), e) ↦ rw e (
              reply-keeps (serve private_key_of_bytes h fuel rest)
                (handle_request private_key_of_bytes h request s) (serve-keeps fuel rest)
                (handle_request-keeps request s p))
        ]

    pub handle_client-keeps :
        (stream : Bytes) (s : S) → P s → P (handle_client private_key_of_bytes h stream s).state
    unfolding handle_client
    handle_client-keeps stream s p = serve-keeps (length stream + 1) stream s p
