-- ===== src/Logs/Sinks.antt =====
-- rustica/src/logging/stdout.rs, influx.rs, splunk.rs and webhook.rs: what each logger makes of an event.
-- That the request is sent afterwards, by a task of its own, is left out.
use rustica.Common.{ℕ, suc, Option, none, some, List, [], ◌∷◌, ◌++◌, length}
use rustica.Common.Text.{Text, text, join, commas}
use rustica.Common.Words.{ℤ, pos, negsuc}
use rustica.Common.Maps.{Map}
use rustica.Common.Decimal.{print_u64}
use rustica.Common.Run.{Run, ok, err, panic, unwrap, ◌>>=◌}
use rustica.Logs.{
  Severity, info, Log, certificate_issued, x509_certificate_issued, key_registered,
  key_registration_failure, internal_message, heartbeat, CertificateIssued, X509CertificateIssued,
}

pub record WrappedLog : Type 0 where
  pub log : Log
  pub identifier : Text

pub data LoggingError : Type 0 where
  serialization_error communication_error : Text → LoggingError

-- `reqwest`: a request of the method POST
pub record Post : Type 0 where
  pub url : Text
  pub headers : List (Text × Text)
  pub body : Text

-- `influxdb`: a point with the seconds of its timestamp, its tags and its fields
pub record Point : Type 0 where
  pub dataset : Text
  pub timestamp : ℕ
  pub tags : List (Text × Text)
  pub fields : List (Text × Text)

-- the error of serde_json as one of the logger
abbrev pub serialized : Run Text Text → Run LoggingError Text
serialized (ok json) = ok json
serialized (err e) = err (serialization_error e)
serialized panic = panic

abbrev show_i64 : ℤ → Text
show_i64 (pos n) = print_u64 n
show_i64 (negsuc n) = b'-' ∷ print_u64 (suc n)

-- `[{}]`
abbrev bracketed : Text → Text → Text
bracketed label value = label ++ (text ": [" ++ (value ++ text "]"))

abbrev issued_line : (Map Text → Text) → CertificateIssued → Text
issued_line debug ci = join (text " ") (
    (text "[" ++ (ci.certificate_type ++ text "]"))
    ∷ bracketed (text "Certificate issued for") ci.fingerprint
    ∷ bracketed (text "Authority") ci.authority
    ∷ bracketed (text "Identified by") (join (text ", ") ci.mtls_identities)
    ∷ bracketed (text "Principals granted") (join (text ", ") ci.principals)
    ∷ bracketed (text "Extensions") (debug ci.extensions)
    ∷ bracketed (text "CriticalOptions") (debug ci.critical_options)
    ∷ bracketed (text "Valid After") (print_u64 ci.valid_after)
    ∷ bracketed (text "Valid Before") (print_u64 ci.valid_before)
    ∷ bracketed (text "Serial Number") (print_u64 ci.serial)
    ∷ [])

abbrev x509_line : (Map Text → Text) → X509CertificateIssued → Text
x509_line debug x509 = join (text " ") (
    text "X509 Certificate issued."
    ∷ bracketed (text "Authority") x509.authority
    ∷ bracketed (text "Identified by") (join (text ", ") x509.mtls_identities)
    ∷ bracketed (text "Extensions") (debug x509.extensions)
    ∷ bracketed (text "Valid After") (print_u64 x509.valid_after)
    ∷ bracketed (text "Valid Before") (print_u64 x509.valid_before)
    ∷ bracketed (text "Serial") (show_i64 x509.serial)
    ∷ [])

-- debug: `{:?}` of a `HashMap`; the lines of env_logger, each at its level
unfoldable pub stdout_lines : (Map Text → Text) → Log → List (Severity × Text)
stdout_lines debug (certificate_issued ci) = (info, issued_line debug ci) ∷ []
stdout_lines debug (key_registered kr) =
    (
      info,
      bracketed (text "Key registered") kr.fingerprint
          ++ (text " " ++ bracketed (text "Identified by") (join (text ", ") kr.mtls_identities)),
    )
    ∷ []
stdout_lines debug (key_registration_failure krf) =
    (
      info,
      bracketed (text "Failed to register key") krf.key_info.fingerprint
          ++ (text " "
              ++ bracketed (text "Identified by") (join (text ", ") krf.key_info.mtls_identities)),
    )
    ∷ []
stdout_lines debug (internal_message im) = (im.severity, im.message) ∷ []
stdout_lines debug heartbeat = []
stdout_lines debug (x509_certificate_issued x509) = (info, x509_line debug x509) ∷ []

-- A clock before 1970 panics.
unfoldable pub influx_points : Text → Option ℕ → Log → Run LoggingError (List Point)
influx_points dataset now (certificate_issued ci) = unwrap now >>= λ timestamp. ok (
    record {
      dataset = dataset;
      timestamp = timestamp;
      tags =
          (text "fingerprint", ci.fingerprint)
          ∷ (text "mtls_identities", commas ci.mtls_identities)
          ∷ (text "serial", print_u64 ci.serial)
          ∷ [];
      fields = (text "principals", commas ci.principals) ∷ [];
    }
    ∷ [])
influx_points dataset now (key_registered _) = ok []
influx_points dataset now (key_registration_failure _) = ok []
influx_points dataset now (internal_message _) = ok []
influx_points dataset now heartbeat = ok []
influx_points dataset now (x509_certificate_issued _) = ok []

pub record SplunkLogger : Type 0 where
  pub token : Text
  pub url : Text

-- json: `serde_json::to_string` of the log as the event of a wrapper
unfoldable pub splunk_post :
    (WrappedLog → Run Text Text) → SplunkLogger → WrappedLog → Run LoggingError Post
splunk_post json logger log = serialized (json log) >>= λ data'. ok (record {
  url = logger.url;
  headers =
      (text "Authorization", text "Splunk " ++ logger.token)
      ∷ (text "Content-Type", text "application/x-www-form-urlencoded")
      ∷ (text "Content-Length", print_u64 (length data'))
      ∷ [];
  body = data';
})

pub record WebhookLogger : Type 0 where
  pub url : Text
  pub auth_header : Option Text

abbrev authorization : Option Text → List (Text × Text)
authorization none = []
authorization (some auth) = (text "Authorization", auth) ∷ []

unfoldable pub webhook_post :
    (WrappedLog → Run Text Text) → WebhookLogger → WrappedLog → Run LoggingError Post
webhook_post json logger log = serialized (json log) >>= λ data'. ok (record {
  url = logger.url;
  headers =
      (text "Content-Type", text "application/x-www-form-urlencoded")
      ∷ (text "Content-Length", print_u64 (length data'))
      ∷ authorization logger.auth_header;
  body = data';
})
