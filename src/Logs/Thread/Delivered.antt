-- ===== src/Logs/Thread/Delivered.antt =====
-- Every event reaches the standard output, whatever becomes of the other loggers.
use mathlib.Core.List.{append-nil}
use rustica.Common.{
  ℕ, ◌≡◌, ◌≢◌, refl, ap, ◌∙◌, Bool, true, false, Option, none, some, List, [], ◌∷◌, ◌++◌,
  Option-cases, inl, inr,
}
use rustica.Common.Text.{Text}
use rustica.Common.Run.{Run, ok, err, panic, ◌>>=◌}
use rustica.Logs.{
  Severity, Log, certificate_issued, x509_certificate_issued, key_registered,
  key_registration_failure, internal_message, heartbeat,
}
use rustica.Logs.Sinks.{
  WrappedLog, LoggingError, Post, Point, stdout_lines, influx_points, splunk_post, webhook_post,
  serialized,
}
use rustica.Logs.Thread.{
  Output, line, point, splunk_request, webhook_request, LoggingConfiguration, Formats, Received,
  event, timeout, disconnected, ThreadEnd, panicked, sent_by, lines_out, points_out, joined,
  wrapped, to_influx, to_splunk, to_webhook, deliver, followed_by, Startup, needed, logging_loop,
  start_logging_thread,
}

abbrev pub lines_of : List Output → List (Severity × Text)
lines_of [] = []
lines_of (line severity message ∷ rest) = (severity, message) ∷ lines_of rest
lines_of (point _ ∷ rest) = lines_of rest
lines_of (splunk_request _ ∷ rest) = lines_of rest
lines_of (webhook_request _ ∷ rest) = lines_of rest

-- The events that the thread receives before the channel ends, with its heartbeats.
abbrev pub logs_of : List Received → List Log
logs_of [] = []
logs_of (event log now ∷ rest) = log ∷ logs_of rest
logs_of (timeout now ∷ rest) = heartbeat ∷ logs_of rest
logs_of (disconnected ∷ rest) = []

-- The clock is never before 1970.
abbrev pub Timed : List Received → Type 0
Timed [] = Unit
Timed (event log now ∷ rest) = (now ≢ none) × Timed rest
Timed (timeout now ∷ rest) = (now ≢ none) × Timed rest
Timed (disconnected ∷ rest) = Unit

-- What the standard output shows of the events.
abbrev pub printed_of : Formats → List Log → List (Severity × Text)
printed_of formats [] = []
printed_of formats (log ∷ rest) = stdout_lines formats.debug log ++ printed_of formats rest

lines_of-append : (a b : List Output) → lines_of (a ++ b) ≡ lines_of a ++ lines_of b
lines_of-append [] b = refl
lines_of-append (line s m ∷ a) b = ap (λ l. (s, m) ∷ l) (lines_of-append a b)
lines_of-append (point _ ∷ a) b = lines_of-append a b
lines_of-append (splunk_request _ ∷ a) b = lines_of-append a b
lines_of-append (webhook_request _ ∷ a) b = lines_of-append a b

lines_of-lines_out : (l : List (Severity × Text)) → lines_of (lines_out l) ≡ l
lines_of-lines_out [] = refl
lines_of-lines_out ((s, m) ∷ l) = ap (λ k. (s, m) ∷ k) (lines_of-lines_out l)

lines_of-points_out : (ps : List Point) → lines_of (points_out ps) ≡ []
lines_of-points_out [] = refl
lines_of-points_out (p ∷ ps) = lines_of-points_out ps

-- A logger that prints no line, and does not panic.
abbrev Quiet : Run (Unit {0}) (List Output) → Type 0
Quiet (ok out) = lines_of out ≡ []
Quiet (err _) = Unit
Quiet panic = ⊥

joined-Quiet :
    (r : Run (Unit {0}) (List Output)) (rest : List Output × Bool)
    → Quiet r
    → ((joined r rest).1 ≡ rest.1) × (lines_of (joined r rest).0 ≡ lines_of rest.0)
joined-Quiet (ok out) (more, panics) quiet = (refl, lines_of-append out more ∙ rw quiet refl)
joined-Quiet (err _) (more, panics) quiet = (refl, refl)
joined-Quiet panic rest quiet = absurd quiet

sent_by-Quiet :
    {A : Type 0} (outputs : A → List Output) (r : Run LoggingError A)
    → ((a : A) → lines_of (outputs a) ≡ [])
    → r ≢ panic
    → Quiet (sent_by outputs r)
sent_by-Quiet outputs (ok a) none_printed steady = none_printed a
sent_by-Quiet outputs (err e) none_printed steady = refl
sent_by-Quiet outputs panic none_printed steady = steady refl

influx_points-ne-panic :
    (dataset : Text) (now : Option ℕ) (log : Log)
    → now ≢ none
    → influx_points dataset now log ≢ panic
unfolding influx_points
influx_points-ne-panic dataset none (certificate_issued ci) timed = absurd (timed refl)
influx_points-ne-panic dataset (some t) (certificate_issued ci) timed = λ h. cc
influx_points-ne-panic dataset now (key_registered _) timed = λ h. cc
influx_points-ne-panic dataset now (key_registration_failure _) timed = λ h. cc
influx_points-ne-panic dataset now (internal_message _) timed = λ h. cc
influx_points-ne-panic dataset now heartbeat timed = λ h. cc
influx_points-ne-panic dataset now (x509_certificate_issued _) timed = λ h. cc

serialized_lem :
    (json : Run Text Text) (next : Text → Run LoggingError Post)
    → json ≢ panic
    → ((s : Text) → next s ≢ panic)
    → (serialized json >>= next) ≢ panic
serialized_lem (ok s) next steady after = after s
serialized_lem (err e) next steady after = λ h. cc
serialized_lem panic next steady after = absurd (steady refl)

needed_lem :
    {A : Type 0} (logger : Option A) (made : Bool)
    → (logger ≢ none → made ≡ true)
    → needed logger made ≡ true
needed_lem none made h = refl
needed_lem (some a) made h = h (λ e. cc)

module _ (formats : Formats) (config : LoggingConfiguration)
    (splunk_steady : (w : WrappedLog) → formats.splunk_json w ≢ panic)
    (webhook_steady : (w : WrappedLog) → formats.webhook_json w ≢ panic) where
  to_influx-Quiet :
      (now : Option ℕ) (w : WrappedLog) → now ≢ none → Quiet (to_influx formats config now w)
  to_influx-Quiet now w timed = elim (Option-cases config.influx) [
    | inl e ↦ rw e refl
    | inr (dataset, e) ↦ rw e (
        sent_by-Quiet points_out (influx_points dataset now w.log) lines_of-points_out
          (influx_points-ne-panic dataset now w.log timed))
  ]

  to_splunk-Quiet : (w : WrappedLog) → Quiet (to_splunk formats config w)
  unfolding splunk_post
  to_splunk-Quiet w = elim (Option-cases config.splunk) [
    | inl e ↦ rw e refl
    | inr (logger, e) ↦ rw e (
        sent_by-Quiet (λ p. splunk_request p ∷ []) (splunk_post formats.splunk_json logger w)
          (λ p. refl) (serialized_lem (formats.splunk_json w) _ (splunk_steady w) (λ s h. cc)))
  ]

  to_webhook-Quiet : (w : WrappedLog) → Quiet (to_webhook formats config w)
  unfolding webhook_post
  to_webhook-Quiet w = elim (Option-cases config.webhook) [
    | inl e ↦ rw e refl
    | inr (logger, e) ↦ rw e (
        sent_by-Quiet (λ p. webhook_request p ∷ []) (webhook_post formats.webhook_json logger w)
          (λ p. refl) (serialized_lem (formats.webhook_json w) _ (webhook_steady w) (λ s h. cc)))
  ]

  deliver-lines :
      (log : Log) (now : Option ℕ)
      → config.stdout ≡ true
      → now ≢ none
      → ((deliver formats config log now).1 ≡ false)
        × (lines_of (deliver formats config log now).0 ≡ stdout_lines formats.debug log)
  unfolding deliver
  deliver-lines log now on timed =
      let w = wrapped formats config log in
      let rest2 = joined (to_webhook formats config w) ([], false) in
      let rest1 = joined (to_splunk formats config w) rest2 in
      let rest0 = joined (to_influx formats config now w) rest1 in
      let (a, b) = joined-Quiet (to_webhook formats config w) ([], false) (to_webhook-Quiet w) in
      let (c, d) = joined-Quiet (to_splunk formats config w) rest2 (to_splunk-Quiet w) in
      let (p, q) =
        joined-Quiet (to_influx formats config now w) rest1 (to_influx-Quiet now w timed) in
      let printed = lines_out (stdout_lines formats.debug log) in
      rw on (
        p ∙ (c ∙ a),
        lines_of-append printed rest0.0
            ∙ rw (lines_of-lines_out (stdout_lines formats.debug log), q, d, b)
                (append-nil (stdout_lines formats.debug log)),
      )

  followed_by_lem :
      (round : List Output × Bool) (rest : List Output × ThreadEnd) (l : List (Severity × Text))
      → round.1 ≡ false
      → lines_of round.0 ≡ l
      → ((followed_by round rest).1 ≡ rest.1)
        × (lines_of (followed_by round rest).0 ≡ l ++ lines_of rest.0)
  followed_by_lem (out, true) rest l h k = cc
  followed_by_lem (out, false) (more, end) l h k = (refl, lines_of-append out more ∙ rw k refl)

  logging_loop-lines :
      (received : List Received)
      → config.stdout ≡ true
      → Timed received
      → ((logging_loop formats config received).1 ≢ panicked)
        × (lines_of (logging_loop formats config received).0
            ≡ printed_of formats (logs_of received))
  unfolding logging_loop
  logging_loop-lines [] on timed = (λ h. cc, refl)
  logging_loop-lines (disconnected ∷ rest) on timed = (λ h. cc, refl)
  logging_loop-lines (event log now ∷ rest) on (time, timed) =
      let (steady, lines) = logging_loop-lines rest on timed in
      let (whole, now_printed) = deliver-lines log now on time in
      let (same, all) =
        followed_by_lem (deliver formats config log now) (logging_loop formats config rest) _ whole
          now_printed in
      (rw same steady, rw (all, lines) refl)
  logging_loop-lines (timeout now ∷ rest) on (time, timed) =
      let (steady, lines) = logging_loop-lines rest on timed in
      let (whole, now_printed) = deliver-lines heartbeat now on time in
      let (same, all) =
        followed_by_lem (deliver formats config heartbeat now) (logging_loop formats config rest) _
          whole now_printed in
      (rw same steady, rw (all, lines) refl)

  -- Where the runtime and the clients of the configured loggers can be made, the standard output is
  -- configured, the JSON of the other loggers does not panic and the clock is never before 1970,
  -- the logging thread does not panic, and it prints the lines of every event received before the
  -- channel ends, in their order, whatever errors the other loggers have.
  pub start_logging_thread-lines :
      (startup : Startup) (received : List Received)
      → startup.runtime ≡ true
      → (config.splunk ≢ none → startup.splunk_client ≡ true)
      → (config.webhook ≢ none → startup.webhook_client ≡ true)
      → config.stdout ≡ true
      → Timed received
      → ((start_logging_thread formats config startup received).1 ≢ panicked)
        × (lines_of (start_logging_thread formats config startup received).0
            ≡ printed_of formats (logs_of received))
  unfolding start_logging_thread
  start_logging_thread-lines startup received runs splunk_made webhook_made on timed =
      rw
        (
          runs,
          needed_lem config.splunk startup.splunk_client splunk_made,
          needed_lem config.webhook startup.webhook_client webhook_made,
        )
        (logging_loop-lines received on timed)
