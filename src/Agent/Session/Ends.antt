-- ===== src/Agent/Session/Ends.antt =====
-- The loop of a conversation ends.
use rustica.Common.{ℕ, zero, suc, ◌+◌, ◌<◌, ◌≡◌, ◌≢◌, refl, Option, length, arith, inl, inr}
use rustica.Common.Run.{Run, ok, err, panic, Run-cases}
use rustica.Keys.{Bytes}
use rustica.Agent.{AgentError}
use rustica.Agent.Protocol.{Response, read_request}
use rustica.Agent.Protocol.Reading.{read_request-length}
use rustica.Agent.Session.{
  SshAgentHandler, handle_request, out_of_fuel, Conversation, reply, serve, handle_client,
}

module _ {PrivateKey : Type 0} (private_key_of_bytes : Bytes → Option PrivateKey) {S : Type 0}
    (h : SshAgentHandler private_key_of_bytes S) where
  reply_ends :
      (next : S → Conversation private_key_of_bytes S) (r : Run AgentError Response × S)
      → ((s : S) → (next s).ended ≢ out_of_fuel)
      → (reply private_key_of_bytes h next r).ended ≢ out_of_fuel
  reply_ends next (ok response, s) rest_ends = rest_ends s
  reply_ends next (err e, s) rest_ends = λ o. cc
  reply_ends next (panic, s) rest_ends = λ o. cc

  serve_ends :
      (fuel : ℕ) (stream : Bytes) (s : S)
      → length stream < fuel
      → (serve private_key_of_bytes h fuel stream s).ended ≢ out_of_fuel
  unfolding serve
  serve_ends zero stream s fits = absurd (omega arith)
  serve_ends (suc fuel) stream s fits =
      elim (Run-cases (read_request private_key_of_bytes stream)) [
        | inr (inl e) ↦ rw e (λ o. cc)
        | inr (inr (x, e)) ↦ rw e (λ o. cc)
        | inl ((request, rest), e) ↦ rw e (
            reply_ends _ (handle_request private_key_of_bytes h request s) (λ s'.
              serve_ends fuel rest s'
                (omega (arith, read_request-length private_key_of_bytes stream request rest e))))
      ]

  -- The conversation with a client that sends finitely many bytes ends before the fuel, one more
  -- than the bytes, does.
  pub handle_client_ends :
      (stream : Bytes) (s : S) → (handle_client private_key_of_bytes h stream s).ended ≢ out_of_fuel
  unfolding handle_client
  handle_client_ends stream s = serve_ends (length stream + 1) stream s (omega arith)

  pub reply-same :
      (next next' : S → Conversation private_key_of_bytes S) (r : Run AgentError Response × S)
      → ((s : S) → next s ≡ next' s)
      → reply private_key_of_bytes h next r ≡ reply private_key_of_bytes h next' r
  reply-same next next' (ok response, s) same = rw (same s) refl
  reply-same next next' (err e, s) same = refl
  reply-same next next' (panic, s) same = refl
