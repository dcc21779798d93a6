-- ===== src/Logs/Thread.antt =====
-- rustica/src/logging/mod.rs: the thread that takes the events of the server to the loggers. All
-- loggers are compiled in; what is printed at the start and on a failure is left out.
pub mod Delivered
use rustica.Common.{ℕ, Bool, true, false, ◌&&◌, Option, none, some, List, [], ◌∷◌, ◌++◌}
use rustica.Common.{if◌then◌else◌}
use rustica.Common.Text.{Text}
use rustica.Common.Maps.{Map}
use rustica.Common.Run.{Run, ok, err, panic}
use rustica.Logs.{Severity, Log, heartbeat}
use rustica.Logs.Sinks.{
  WrappedLog, LoggingError, Post, Point, stdout_lines, influx_points, SplunkLogger, splunk_post,
  WebhookLogger, webhook_post,
}

-- What the loggers are handed on, in its order.
pub data Output : Type 0 where
  line : Severity → Text → Output
  point : Point → Output
  splunk_request webhook_request : Post → Output

pub record LoggingConfiguration : Type 0 where
  pub identifier : Option Text
  pub heartbeat_interval : Option ℕ
  pub stdout : Bool
  -- the dataset
  pub influx : Option Text
  pub splunk : Option SplunkLogger
  pub webhook : Option WebhookLogger

-- What the crates make of a log: `{:?}` of a map and the JSON of the two loggers that send it.
pub record Formats : Type 0 where
  pub debug : Map Text → Text
  pub splunk_json : WrappedLog → Run Text Text
  pub webhook_json : WrappedLog → Run Text Text

-- `recv_timeout`: an event or a time without one, each with the reading of the clock that the loggers
-- make, or the end of the channel
pub data Received : Type 0 where
  event : Log → Option ℕ → Received
  timeout : Option ℕ → Received
  disconnected : Received

-- Whether the runtime of tokio and the HTTP clients of the loggers could be made.
pub record Startup : Type 0 where
  pub runtime : Bool
  pub splunk_client : Bool
  pub webhook_client : Bool

pub data ThreadEnd : Type 0 where
  gone_away waiting panicked : ThreadEnd

-- seconds
unfoldable pub interval : LoggingConfiguration → ℕ
interval config = elim config.heartbeat_interval [ none ↦ 300 | some secs ↦ secs ]

-- An error is only printed.
abbrev pub sent_by :
    {A : Type 0} → (A → List Output) → Run LoggingError A → Run (Unit {0}) (List Output)
sent_by outputs (ok a) = ok (outputs a)
sent_by outputs (err e) = ok []
sent_by outputs panic = panic

abbrev pub lines_out : List (Severity × Text) → List Output
lines_out [] = []
lines_out ((severity, message) ∷ rest) = line severity message ∷ lines_out rest

abbrev pub points_out : List Point → List Output
points_out [] = []
points_out (p ∷ rest) = point p ∷ points_out rest

-- One output after the other, up to a panic.
abbrev pub joined : Run (Unit {0}) (List Output) → List Output × Bool → List Output × Bool
joined (ok out) (more, panics) = (out ++ more, panics)
joined (err _) (more, panics) = (more, panics)
joined panic rest = ([], true)

abbrev pub followed_by : List Output × Bool → List Output × ThreadEnd → List Output × ThreadEnd
followed_by (out, true) rest = (out, panicked)
followed_by (out, false) (more, end) = (out ++ more, end)

-- A logger that is not configured makes no client.
abbrev needed : {A : Type 0} → Option A → Bool → Bool
needed none made = true
needed (some _) made = made

module _ (formats : Formats) (config : LoggingConfiguration) where
  abbrev pub wrapped : Log → WrappedLog
  wrapped log = record {
    log = log;
    identifier = elim config.identifier [ none ↦ [] | some identifier ↦ identifier ];
  }

  abbrev pub to_stdout : WrappedLog → Run (Unit {0}) (List Output)
  to_stdout w = elim config.stdout [
    | true ↦ ok (lines_out (stdout_lines formats.debug w.log))
    | false ↦ ok []
  ]

  abbrev pub to_influx : Option ℕ → WrappedLog → Run (Unit {0}) (List Output)
  to_influx now w = elim config.influx [
    | none ↦ ok []
    | some dataset ↦ sent_by points_out (influx_points dataset now w.log)
  ]

  abbrev pub to_splunk : WrappedLog → Run (Unit {0}) (List Output)
  to_splunk w = elim config.splunk [
    | none ↦ ok []
    | some logger ↦ sent_by (λ p. splunk_request p ∷ []) (splunk_post formats.splunk_json logger w)
  ]

  abbrev pub to_webhook : WrappedLog → Run (Unit {0}) (List Output)
  to_webhook w = elim config.webhook [
    | none ↦ ok []
    | some logger ↦
        sent_by (λ p. webhook_request p ∷ []) (webhook_post formats.webhook_json logger w)
  ]

  -- One round of the loop: the outputs, and whether a logger panicked.
  unfoldable pub deliver : Log → Option ℕ → List Output × Bool
  deliver log now = joined (to_stdout (wrapped log)) (
      joined (to_influx now (wrapped log))
        (joined (to_splunk (wrapped log)) (joined (to_webhook (wrapped log)) ([], false))))

  -- The main loop.
  unfoldable pub logging_loop : List Received → List Output × ThreadEnd
  logging_loop [] = ([], waiting)
  logging_loop (disconnected ∷ rest) = ([], gone_away)
  logging_loop (event log now ∷ rest) = followed_by (deliver log now) (logging_loop rest)
  logging_loop (timeout now ∷ rest) = followed_by (deliver heartbeat now) (logging_loop rest)

  -- Without a runtime or a client that a logger needs the thread panics before it takes an event.
  unfoldable pub start_logging_thread : Startup → List Received → List Output × ThreadEnd
  start_logging_thread startup received =
      if startup.runtime
        && (needed config.splunk startup.splunk_client
            && needed config.webhook startup.webhook_client)
      then logging_loop received
      else ([], panicked)
