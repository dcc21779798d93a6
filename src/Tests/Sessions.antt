-- ===== src/Tests/Sessions.antt =====
-- Conversations with the agent, over a handler that counts its calls.
use mathlib.Core.Logic.{◌≢◌}
use rustica.Common.{ℕ, suc, ◌≡◌, refl, Option, some, List, [], ◌∷◌, ◌++◌, arith}
use rustica.Common.Text.{Text, text}
use rustica.Common.Run.{ok}
use rustica.Keys.{Bytes}
use rustica.Agent.{io_error}
use rustica.Agent.Protocol.{
  success, identities_answer, sign_response, sign_data, read_request, write_response, response_body,
  write_identities, write_message, write_u32, read_u8, read_u32, read_exact, read_message, from_u8,
  read_body,
}
use rustica.Agent.Protocol.Reading.{
  ClientRequest, ask_identities, ask_sign, ask_add, ask_other, encode_request,
  read_request-encode_request,
}
use rustica.Agent.Protocol.Writing.{read_response, read_response-write_response}
use rustica.Agent.Session.{
  SshAgentHandler, handle_request, closed, out_of_fuel, serve, handle_client,
}
use rustica.Agent.Session.Ends.{handle_client_ends}
use rustica.Agent.Session.Pipeline.{encode_requests, run_requests, handle_client-encode_requests}

run : Unit {0}
unfolding read_request read_u8 read_u32 read_exact read_message from_u8 read_body write_u32
    write_message write_identities response_body write_response handle_request serve handle_client
    run_requests
run = tt

abbrev private_key_of_bytes : Bytes → Option Text
private_key_of_bytes b = some b

-- It signs with the key itself, and lists one key.
abbrev counting : SshAgentHandler private_key_of_bytes ℕ
counting = record {
  add_identity = λ key n. (ok success, suc n);
  identities =
      λ n. (ok (identities_answer (record { key_blob = text "k"; key_comment = [] } ∷ [])), suc n);
  sign_request = λ blob data' flags n. (ok (sign_response (blob ++ data')), suc n);
}

abbrev requests : List ClientRequest
requests =
    ask_add (text "s") ∷ ask_other 27 [] ∷ ask_sign (text "k") (text "m") 2 ∷ ask_identities ∷ []

abbrev answers : Bytes
answers =
    (0 ∷ 0 ∷ 0 ∷ 1 ∷ 6 ∷ [])
    ++ ((0 ∷ 0 ∷ 0 ∷ 1 ∷ 5 ∷ [])
        ++ ((0 ∷ 0 ∷ 0 ∷ 7 ∷ 14 ∷ 0 ∷ 0 ∷ 0 ∷ 2 ∷ text "km")
            ++ (0 ∷ 0 ∷ 0 ∷ 14 ∷ 12 ∷ 0 ∷ 0 ∷ 0 ∷ 1 ∷ 0 ∷ 0 ∷ 0 ∷ 1 ∷ b'k' ∷ 0 ∷ 0 ∷ 0 ∷ 0 ∷ [])))

conversation_test :
    handle_client private_key_of_bytes counting (encode_requests requests) 0
    ≡ record { sent = answers; state = 3; ended = closed io_error }
unfolding run
conversation_test = refl

-- A length with no bytes behind it ends the conversation.
short_test :
    handle_client private_key_of_bytes counting (0 ∷ 0 ∷ 0 ∷ 9 ∷ 11 ∷ []) 0
    ≡ record { sent = []; state = 0; ended = closed io_error }
unfolding run
short_test = refl

handle_client-encode_requests_example :
    handle_client private_key_of_bytes counting (encode_requests requests) 0
    ≡ run_requests private_key_of_bytes counting requests 0
unfolding run
handle_client-encode_requests_example =
    handle_client-encode_requests private_key_of_bytes counting requests 0 (
      omega arith,
      (
        (omega arith, omega arith, omega arith, omega arith),
        ((omega arith, omega arith), (tt, tt)),
      ),
    )

handle_client_ends_example :
    (handle_client private_key_of_bytes counting (0 ∷ 0 ∷ 0 ∷ 9 ∷ 11 ∷ []) 0).ended ≢ out_of_fuel
handle_client_ends_example =
    handle_client_ends private_key_of_bytes counting (0 ∷ 0 ∷ 0 ∷ 9 ∷ 11 ∷ []) 0

read_request-encode_request_example :
    read_request private_key_of_bytes
      (encode_request (ask_sign (text "k") (text "m") 2) ++ text "next")
    ≡ ok (sign_data (text "k") (text "m") 2, text "next")
unfolding run
read_request-encode_request_example =
    read_request-encode_request private_key_of_bytes (ask_sign (text "k") (text "m") 2)
      (text "next") (omega arith, omega arith)

read_response-write_response_example :
    read_response (write_response (sign_response (text "sig")) ++ text "next")
    ≡ ok (sign_response (text "sig"), text "next")
unfolding run
read_response-write_response_example =
    read_response-write_response (sign_response (text "sig")) (text "next") (omega arith)
