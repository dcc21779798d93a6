-- ===== src/Tests/Logging.antt =====
-- Events and heartbeats on their way to the loggers.
use rustica.Common.{◌≡◌, ◌≢◌, refl, true, none, some, List, [], ◌∷◌}
use rustica.Common.Text.{text, join}
use rustica.Common.Decimal.{print_u64}
use rustica.Common.Run.{ok, err}
use rustica.Logs.{info, warning, key_registered, rustica_warning}
use rustica.Logs.Sinks.{stdout_lines, influx_points, splunk_post, webhook_post}
use rustica.Logs.Thread.{
  Startup, logging_loop, Output, line, webhook_request, LoggingConfiguration, Formats, Received,
  event, timeout, disconnected, gone_away, panicked, deliver, start_logging_thread,
}
use rustica.Logs.Thread.Delivered.{lines_of, logs_of, printed_of, start_logging_thread-lines}

run : Unit {0}
unfolding join print_u64 stdout_lines influx_points splunk_post webhook_post deliver
    start_logging_thread logging_loop
run = tt

-- Splunk's JSON fails, the webhook's is a mark.
abbrev formats : Formats
formats = record { debug = λ m. []; splunk_json = λ w. err []; webhook_json = λ w. ok (text "{}") }

abbrev config : LoggingConfiguration
config = record {
  identifier = none;
  heartbeat_interval = none;
  stdout = true;
  influx = some (text "d");
  splunk = some (record { token = text "t"; url = text "s" });
  webhook = some (record { url = text "w"; auth_header = none });
}

abbrev received : List Received
received =
    event (rustica_warning (text "late")) (some 1)
    ∷ timeout (some 301)
    ∷ event
        (key_registered
          (record { fingerprint = text "f"; mtls_identities = text "a" ∷ text "b" ∷ [] }))
        (some 302)
    ∷ disconnected
    ∷ event (rustica_warning (text "lost")) (some 303)
    ∷ []

abbrev made : Startup
made = record { runtime = true; splunk_client = true; webhook_client = true }

abbrev posted : Output
posted = webhook_request (record {
  url = text "w";
  headers =
      (text "Content-Type", text "application/x-www-form-urlencoded")
      ∷ (text "Content-Length", text "2")
      ∷ [];
  body = text "{}";
})

thread_test : start_logging_thread formats config made received ≡ (
  line warning (text "late")
      ∷ posted
      ∷ posted
      ∷ line info (text "Key registered: [f] Identified by: [a, b]")
      ∷ posted
      ∷ [],
  gone_away,
)
unfolding run
thread_test = refl

start_logging_thread-lines_example :
    ((start_logging_thread formats config made received).1 ≢ panicked)
    × (lines_of (start_logging_thread formats config made received).0
        ≡ printed_of formats (logs_of received))
start_logging_thread-lines_example =
    start_logging_thread-lines formats config (λ w h. cc) (λ w h. cc) made received refl (λ h. refl)
      (λ h. refl) refl ((λ h. cc), ((λ h. cc), ((λ h. cc), tt)))
