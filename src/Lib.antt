-- ===== src/Lib.antt =====
-- Rustica: a certificate authority that issues short-lived SSH certificates, and X509 certificates to
-- clients with attested keys. A client connects over mTLS, asks for a challenge, and sends it back with
-- the request that it backs; the server validates it, asks its authorizer what the key may have, and has
-- a signer make the certificate.
--
-- Parts (paths from the root of the repository):
-- - Keys: rustica/src/key.rs. Errors: rustica/src/error.rs and the errors of rustica/src/auth/mod.rs.
-- - Logs: the events of rustica/src/logging/mod.rs; `Logged` is a call with the events it sends.
--   Logs.Sinks: what the loggers stdout.rs, influx.rs, splunk.rs and webhook.rs of rustica/src/logging
--   make of an event; Logs.Thread: the logging thread, its start and its loop, over what its channel gives.
-- - Foreign: the crates sshcerts, ring, hex, base64, x509_parser and rcgen. They are the parameter
--   `Foreign`, a record of types and functions; `Behaves` names the documented behaviour that theorems
--   on accepted challenges use, and Tests/Toy.antt gives one instance of both. The LRU cache, the
--   compression and the author service are parameters of the modules that use them.
-- - Auth: rustica/src/auth/mod.rs; an `Authorizer S` has its methods over a state `S` of the backend.
--   Auth.Database: rustica/src/auth/database.rs, the tables as lists of rows. Auth.External:
--   rustica/src/auth/external.rs, the messages of the author service (proto/author.proto).
--   Auth.Mechanism: the choice of one of the two from the configuration, and the dispatch to it.
-- - Signing: rustica/src/signing/mod.rs, the dispatch by authority (`SigningMechanism`);
--   Signing.Setup: `convert_to_signing_mechanism`; Signing.File: rustica/src/signing/file.rs;
--   Signing.Yubikey and Signing.Kms: yubikey.rs and amazon_kms.rs of the same directory, over parameters
--   for the device and the service.
-- - Attestation: rustica/src/verification.rs.
-- - Server: rustica/src/server.rs. Server.Peer: `extract_certificate_information`; Server.Validate:
--   `validate_request`; Server.Challenges, Server.Certificates, Server.Registrations, Server.Attested,
--   Server.AllowedSigners: the handlers `challenge`, `certificate`, `register_key` with
--   `register_u2f_key`, `attested_x509_certificate`, and `allowed_signers`. A handler takes the state of
--   the server, the connection, the message, the readings of the clock in their order and the state of
--   the authorizer, and returns its reply or status with the events sent. The two locks of
--   `allowed_signers` are steps of a relation on the cache, the requests that wait and the calls of the
--   authorizer that they have made.
--   Server.Configure: `configure` of rustica/src/config/mod.rs, the checks before the server starts.
-- - Agent: rustica-agent/src. Agent.Protocol: sshagent/protocol.rs, over the bytes of a stream;
--   Agent.Session: sshagent/agent.rs and sshagent/handler.rs, the loop of a connection over any handler;
--   Agent.Clients: rustica/mod.rs, error.rs, cert.rs and key.rs, the calls of a server over a parameter
--   `Network` for the connection; Agent.Config: config/mod.rs, over a parameter `Toml` and the files by
--   their paths; Agent.Fetch: the loops of lib.rs over the servers, with rustica/x509.rs and
--   rustica/allowed_signer.rs; Agent.Handler: lib.rs, the state of the agent and its answers; Agent.Slots:
--   lib.rs, the slots of Yubikeys and their keys; Agent.Command: rustica-agent-cli/src/config/mod.rs, and
--   Agent.Command.Single: singlemode.rs and immediatemode.rs beside it. `AgentCrates` and `Yubikey` are
--   what the agent takes from sshcerts and the yubikey crate, `AgentBehaves` their documented behaviour
--   that the theorem on completed challenges uses.
-- - Common: tests, lists, maps, texts as lists of bytes, results with panics (`Run`), decimal numbers.
-- - Tests: concrete runs over the stand-ins.
--
-- Conventions: a reading of the clock is `Option ℕ`, `none` for a clock before 1970. A `u64` is a
-- natural number with its wrap-around written out, as in a release build (`add64`, `sub64`, `as_u64`).
-- Decimal printing runs on twenty digits, enough for every u64. The loop of a connection runs on fuel,
-- one more than the bytes of the stream: a request takes five of them at least. Nothing else has fuel.
--
-- Not modelled: the sending of log requests, the listener of the agent, its bindings for other languages,
-- its modes other than single and immediate, and its window; debug output; panics on a date outside the
-- years of the crate time, on a sum of durations that overflows, and on a query of the database that
-- fails.
pub mod Common
pub mod Keys
pub mod Errors
pub mod Logs
pub mod Foreign
pub mod Auth
pub mod Signing
pub mod Attestation
pub mod Server
pub mod Agent
pub mod Tests
