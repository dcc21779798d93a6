-- ===== src/Tests/Handlers.antt =====
-- The agent's own answers to ssh: the cached certificate, and signatures.
use rustica.Common.{
  ℕ, ◌+◌, ◌≡◌, ◌⊎◌, refl, ap, Bool, true, false, Option, none, some, [], ◌∷◌, arith,
}
use rustica.Common.Text.{text, eq, is_empty}
use rustica.Common.Lists.{select}
use rustica.Common.Maps.{lookup, insert}
use rustica.Common.Decimal.{print_u64}
use rustica.Common.Run.{Run, ok, err}
use rustica.Keys.{Bytes}
use rustica.Agent.{details, direct}
use rustica.Agent.Protocol.{
  identities_answer, sign_response, write_response, response_body, write_message, write_u32,
  write_identities, read_request, read_message, read_u8, read_u32, read_exact, read_body, from_u8,
}
use rustica.Agent.Protocol.Reading.{ask_sign, ask_identities}
use rustica.Agent.Session.{handle_client, serve, handle_request}
use rustica.Agent.Session.Pipeline.{encode_requests}
use rustica.Agent.Clients.{
  complete_rustica_challenge, get_rustica_client, public_key_of, resign, sign_challenge,
  certificate_request, credentials_of, refresh_certificate_async,
}
use rustica.Agent.Config.{RusticaAgentLibraryError, write}
use rustica.Agent.Fetch.{
  renewed_server, store_credentials, take_certificate, fetch_from, fetch_new_certificate,
}
use rustica.Agent.Handler.{
  Handler, HandlerState, Surroundings, cached, get_certificate, add_identity, identities,
  sign_with_piv, sign_with_signatory, sign_as, sign_request, key_of_blob, handler,
}
use rustica.Agent.Handler.Cached.{
  IsStamped, FromCache, FromServer, handle_client-IsStamped, get_certificate_sound,
  get_certificate-again,
}
use rustica.Agent.Handler.Signs.{IsSigned, sign_request-IsSigned}
use rustica.Tests.Toy.{ToyCertificate, print}
use rustica.Tests.Devices.{crates, device, options, network}
use rustica.Tests.Clients.{settings, toml, response, issued, now, servers, after_fetch}

run : Unit {0}
unfolding eq is_empty select lookup insert print_u64 get_rustica_client public_key_of resign
    sign_challenge complete_rustica_challenge certificate_request credentials_of
    refresh_certificate_async write renewed_server store_credentials take_certificate fetch_from
    fetch_new_certificate cached get_certificate add_identity identities sign_with_piv
    sign_with_signatory sign_as sign_request key_of_blob write_response response_body write_message
    write_u32 write_identities read_request read_message read_u8 read_u32 read_exact read_body
    from_u8 handle_client serve handle_request
run = tt

abbrev agent : Handler crates
agent = record {
  pubkey = text "key";
  signatory = direct (text "key");
  certificate_options = options;
  piv_identities =
      (
        text "piv",
        record {
          serial = 7;
          slot = 130;
          public_key = text "piv";
          pin = some (text "1");
          subject = [];
        },
      )
      ∷ [];
  notifies = true;
  certificate_priority = true;
}

abbrev pub around : ℕ → Surroundings crates
around n = record {
  net = network response (print issued);
  timestamp = some (1000 + n);
  request_times = now;
  open_yubikey = λ serial. some device;
}

abbrev start : HandlerState crates
start = record {
  settings = settings servers;
  cert = none;
  stale_at = 0;
  identities = [];
  notified = 0;
  calls = 0;
}

abbrev fetched : HandlerState crates
fetched = record start { settings = after_fetch; cert = some issued; stale_at = 2000; notified = 1 }

abbrev Result : Type 0
Result = Run RusticaAgentLibraryError (Option ToyCertificate) × HandlerState crates

get_test :
    get_certificate crates toml agent around true (around 0) start ≡ (ok (some issued), fetched)
unfolding run
get_test = refl

start-IsStamped : IsStamped crates start
start-IsStamped = λ cert e. cc

get_certificate_sound_example :
    FromCache crates toml agent around
      (around 0)
      start
      (get_certificate crates toml agent around true (around 0) start).1
      issued
    ⊎ ((◌≡◌ {A = Bool} true true)
        × FromServer crates toml agent around
            (around 0)
            start
            (get_certificate crates toml agent around true (around 0) start).1
            issued)
get_certificate_sound_example =
    get_certificate_sound crates toml agent around true (around 0) start issued start-IsStamped
      (ap (λ (x : Result). x.0) get_test)

-- At the time 1994 the certificate, valid up to 2000, is still used.
get_certificate-again_example :
    get_certificate crates toml agent around false
      (around 994)
      (get_certificate crates toml agent around true (around 0) start).1
    ≡ (ok (some issued), (get_certificate crates toml agent around true (around 0) start).1)
get_certificate-again_example =
    get_certificate-again crates toml agent around true false (around 0) (around 994) start issued
      1994 start-IsStamped (ap (λ (x : Result). x.0) get_test) refl (omega arith)

stale_test : (get_certificate crates toml agent around false (around 995) fetched).0 ≡ ok none
unfolding run
stale_test = refl

-- The key and its certificate, after a key that was added and that of a Yubikey.
identities_test :
    (identities crates toml agent around
      (add_identity crates toml agent around (text "s") start).1).0
    ≡ ok (
        identities_answer (
          record { key_blob = text "s"; key_comment = text "added" }
          ∷ record { key_blob = text "piv"; key_comment = text "Yubikey Serial: 7 Slot: slot" }
          ∷ record { key_blob = print issued; key_comment = [] }
          ∷ record { key_blob = text "key"; key_comment = [] }
          ∷ []))
unfolding run
identities_test = refl

handle_client-IsStamped_example :
    IsStamped crates
      (handle_client crates.private_key_of_bytes
        (handler crates toml agent around)
        (encode_requests (ask_identities ∷ ask_sign (text "key") (text "m") 0 ∷ []))
        start).state
handle_client-IsStamped_example =
    handle_client-IsStamped crates toml agent around
      (encode_requests (ask_identities ∷ ask_sign (text "key") (text "m") 0 ∷ [])) start
      start-IsStamped

piv_test :
    (sign_request crates toml agent around (text "piv") (text "m") 0 start).0
    ≡ ok (sign_response (130 ∷ text "m"))
unfolding run
piv_test = refl

other_key_test :
    (sign_request crates toml agent around (text "other") (text "m") 0 start).0
    ≡ err (details (text "No such key"))
unfolding run
other_key_test = refl

sign_request-IsSigned_example :
    (signature : Bytes) × (sign_response (130 ∷ text "m") ≡ sign_response signature)
    × IsSigned crates toml agent around (around 0) start (text "piv") (text "m") signature
sign_request-IsSigned_example =
    sign_request-IsSigned crates toml agent around (text "piv") (text "m") 0 start
      (sign_response (130 ∷ text "m")) piv_test

named_test : key_of_blob crates toml agent around (text "s") ≡ some (text "s")
unfolding run
named_test = refl
