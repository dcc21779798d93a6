-- ===== src/Agent/Fetch.antt =====
-- rustica-agent/src/lib.rs, the loops over the servers of the configuration, with the calls of
-- rustica-agent/src/rustica/x509.rs and allowed_signer.rs. Debug output is left out.
pub mod First
pub mod Outcome
pub mod Renewed
use rustica.Common.{ℕ, suc, ◌+◌, ◌≡◌, Bool, true, false, Option, none, some, List, [], ◌∷◌, ◌++◌}
use rustica.Common.{◌==◌, if◌then◌else◌, length}
use rustica.Common.Lists.{select}
use rustica.Common.Tests.{ltb}
use rustica.Common.Text.{Text, text, is_empty}
use rustica.Common.Run.{Run, ok, err, panic, ok_or, unwrap}
use rustica.Keys.{Bytes}
use rustica.Foreign.{Foreign}
use rustica.Server.Attested.{AttestedX509CertificateRequest}
use rustica.Agent.{
  AgentCrates, YubikeySigner, Signatory, yubikey, direct, RusticaServer, Notified, ◌>>=◌, ◌>>◌,
  pure, lift,
}
use rustica.Agent.Clients.{
  RefreshError, unsupported_mode, configuration_error, rustica_server_error, bad_allowed_signers,
  unknown_error, inner, RusticaClient, Network, get_rustica_client, RusticaCert, MtlsCredentials,
  CertificateConfig, refresh_certificate_async, PivAttestation, U2fAttestation, register_key_async,
  register_u2f_key_async,
}
use rustica.Agent.Config.{
  RusticaAgentLibraryError, no_servers_returned_certificate, server_returned_invalid_certificate,
  no_servers_could_register_key, no_servers_returned_allowed_signers, Toml, UpdatableConfiguration,
  FileSystem, with_servers, write,
}

-- `for server in servers { match call(server) { Ok(a) => return Ok(a), Err(_) => … } } Err(e)`, with
-- the notifications of every call
abbrev pub or_next {ℓ κ μ} :
    {E : Type ℓ} {E' : Type κ} {A : Type μ} → Notified E A → Notified E' A → Notified E' A
or_next (ok a, times) rest = (ok a, times)
or_next (err e, times) rest = let (result, more) = rest in (result, times + more)
or_next (panic, times) rest = (panic, times)

unfoldable pub try_servers :
    {A : Type 0}
    → (RusticaServer → Notified RefreshError A)
    → RusticaAgentLibraryError
    → List RusticaServer
    → Notified RusticaAgentLibraryError A
try_servers call e [] = lift (err e)
try_servers call e (server ∷ rest) = or_next (call server) (try_servers call e rest)

-- decoder: zstd; `none` where its decoder cannot be made, and what it reads from there to the end
unfoldable pub get_allowed_signers_async :
    (Bytes → Option (Option Text)) → Network → RusticaServer → Notified RefreshError Text
get_allowed_signers_async decoder net server = do
  client ← lift (get_rustica_client net server)
  compressed ← lift (inner client.allowed_signers)
  decoded ← lift (ok_or unknown_error (decoder compressed))
  lift (ok_or bad_allowed_signers decoded)

unfoldable pub get_allowed_signers :
    (Bytes → Option (Option Text))
    → Network
    → List RusticaServer
    → Notified RusticaAgentLibraryError Text
get_allowed_signers decoder net servers =
    try_servers (get_allowed_signers_async decoder net) no_servers_returned_allowed_signers servers

-- `s.replace("\r", "")`
abbrev pub without_cr : Text → Text
without_cr s = select (λ c. if c == 13 then false else true) s

abbrev or_same : Text → Text → Text
or_same new old = if is_empty new then old else without_cr new

-- The credentials that are not empty take the place of the server's.
unfoldable pub renewed_server : MtlsCredentials → RusticaServer → RusticaServer
renewed_server credentials server = record server {
  mtls_cert = or_same credentials.certificate server.mtls_cert;
  mtls_key = or_same credentials.key server.mtls_key;
}

-- The configuration that the loop holds, and the files that it writes to.
pub record Settings : Type 0 where
  pub configuration : UpdatableConfiguration
  pub files : FileSystem

module _ {f : Foreign} (crates : AgentCrates f) where
  open f use {Certificate, certificate_of_string, certificate_error}

  unfoldable pub refresh_attested_x509_certificate_async :
      Network → RusticaServer → Signatory crates → Notified RefreshError Bytes
  refresh_attested_x509_certificate_async net server (direct privkey) = lift (err unsupported_mode)
  refresh_attested_x509_certificate_async net server (yubikey signer) = do
    csr ← lift (
        ok_or
          (configuration_error (
            text "Could not generate CSR for slot "
            ++ (crates.show_slot signer.slot ++ text ". Is it provisioned?")))
          (signer.yk.generate_csr signer.slot))
    lift (unwrap signer.yk.reconnect)
    attestation ← lift (
        ok_or
          (configuration_error (
            text "Could not generate attestation for slot "
            ++ (crates.show_slot signer.slot
                ++ (text ". Is it attestable (not imported)? Error "
                    ++ signer.yk.attestation_error))))
          (signer.yk.fetch_attestation signer.slot))
    lift (unwrap signer.yk.reconnect)
    attestation_intermediate ← lift (
        ok_or
          (configuration_error
            (text "Could not fetch attestation intermediate. Have you manually removed it?"))
          signer.yk.fetch_intermediate)
    client ← lift (get_rustica_client net server)
    response ← lift (
        inner (
          client.attested_x509_certificate (record {
            csr = csr;
            key_id = [];
            attestation = attestation;
            attestation_intermediate = attestation_intermediate;
          })))
    lift (
        if response.error_code == 0
        then ok response.certificate
        else err (rustica_server_error response.error_code response.error))

  unfoldable pub fetch_new_attested_x509_certificate :
      Network → Signatory crates → List RusticaServer → Notified RusticaAgentLibraryError Bytes
  fetch_new_attested_x509_certificate net signatory servers =
      try_servers (λ server. refresh_attested_x509_certificate_async net server signatory)
        no_servers_returned_certificate servers

  unfoldable pub register_u2f_key :
      Network
      → Signatory crates
      → Text
      → U2fAttestation crates
      → List RusticaServer
      → Notified RusticaAgentLibraryError (Unit {0})
  register_u2f_key net signatory app_name attestation servers =
      try_servers
        (λ server. register_u2f_key_async crates net server signatory app_name attestation)
        no_servers_could_register_key servers

  unfoldable pub register_key :
      Network
      → Signatory crates
      → PivAttestation crates
      → List RusticaServer
      → Notified RusticaAgentLibraryError (Unit {0})
  register_key net signatory attestation servers =
      try_servers (λ server. register_key_async crates net server signatory attestation)
        no_servers_could_register_key servers

  module _ (toml : Toml) (net : Network) (signatory : Signatory crates)
      (options : CertificateConfig) (notifies : Bool) where
    abbrev pub Fetched : Type 0
    Fetched = Notified RusticaAgentLibraryError Certificate × Settings

    -- What the write of the configuration comes to: an error is only printed, and a panic unwinds.
    abbrev pub after_write :
        Certificate → Run (Unit {0}) (Unit {0}) → Run RusticaAgentLibraryError Certificate
    after_write parsed (ok _) = ok parsed
    after_write parsed (err _) = ok parsed
    after_write parsed panic = panic

    -- before, server and rest: the servers of the configuration in their order
    unfoldable pub store_credentials :
        Certificate
        → List RusticaServer
        → RusticaServer
        → List RusticaServer
        → Option MtlsCredentials
        → Settings
        → Run RusticaAgentLibraryError Certificate × Settings
    store_credentials parsed before server rest none s = (ok parsed, s)
    store_credentials parsed before server rest (some credentials) s =
        let conf =
          with_servers (before ++ renewed_server credentials server ∷ rest) s.configuration in
        let (result, files) = write toml conf s.files in
        (after_write parsed result, record { configuration = conf; files = files })

    unfoldable pub take_certificate :
        List RusticaServer
        → RusticaServer
        → List RusticaServer
        → RusticaCert × Option MtlsCredentials
        → Settings
        → Run RusticaAgentLibraryError Certificate × Settings
    take_certificate before server rest (cert, credentials) s =
        elim (certificate_of_string cert.cert) [
          | none ↦ (err (server_returned_invalid_certificate (certificate_error cert.cert)), s)
          | some parsed ↦ store_credentials parsed before server rest credentials s
        ]

    abbrev pub answer_or_next :
        (RusticaCert × Option MtlsCredentials → Run RusticaAgentLibraryError Certificate × Settings)
        → Settings
        → Notified RefreshError (RusticaCert × Option MtlsCredentials)
        → Fetched
        → Fetched
    answer_or_next take s (ok answer, times) next =
        let (result, s') = take answer in ((result, times), s')
    answer_or_next take s (err e, times) next =
        let ((result, more), s') = next in ((result, times + more), s')
    answer_or_next take s (panic, times) next = ((panic, times), s)

    -- now: the readings of the clock, one for each server that is called
    unfoldable pub fetch_from :
        (ℕ → Option ℕ) → List RusticaServer → List RusticaServer → Settings → Fetched
    fetch_from now before [] s = (lift (err no_servers_returned_certificate), s)
    fetch_from now before (server ∷ rest) s =
        answer_or_next (λ answer. take_certificate before server rest answer s) s
          (refresh_certificate_async crates net server signatory options notifies (now 0))
          (fetch_from (λ n. now (suc n)) (before ++ server ∷ []) rest s)

    unfoldable pub fetch_new_certificate : (ℕ → Option ℕ) → Settings → Fetched
    fetch_new_certificate now s = fetch_from now [] s.configuration.configuration.servers s
