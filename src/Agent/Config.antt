-- ===== src/Agent/Config.antt =====
-- rustica-agent/src/config/mod.rs and the errors of rustica-agent/src/lib.rs: the configuration of the
-- agent, read from a file and written back when a server hands out new credentials.
pub mod Stored
use rustica.Common.{ℕ, ◌++◌, ◌==◌, if◌then◌else◌, Bool, Option, none, some, List, [], ◌∷◌}
use rustica.Common.Text.{Text, text}
use rustica.Common.Maps.{Map, lookup, insert}
use rustica.Common.Decimal.{print_u64}
use rustica.Common.Run.{Run, ok, err, panic, ◌>>=◌}
use rustica.Agent.{RusticaServer}

-- The error of sshcerts is its text.
pub data RusticaAgentLibraryError : Type 0 where
  could_not_open_yubikey : ℕ → RusticaAgentLibraryError
  could_not_enumerate_yubikeys : Text → RusticaAgentLibraryError
  no_servers_returned_certificate no_servers_could_register_key : RusticaAgentLibraryError
  no_servers_returned_allowed_signers : RusticaAgentLibraryError
  server_returned_invalid_certificate : Text → RusticaAgentLibraryError
  could_not_read_configuration_file : Text → RusticaAgentLibraryError
  bad_configuration : Text → RusticaAgentLibraryError
  unknown_configuration_version : ℕ → RusticaAgentLibraryError

-- `Display`
abbrev show : RusticaAgentLibraryError → Text
show (could_not_open_yubikey sn) = text "Could not open Yubikey with serial: " ++ print_u64 sn
show (could_not_enumerate_yubikeys e) = text "Could not enumerate Yubikeys: " ++ e
show no_servers_returned_certificate =
    text "All servers failed to return a certificate when requested"
show (server_returned_invalid_certificate e) =
    text "The requested server returned an invalid SSH certificate: " ++ e
show no_servers_could_register_key = text "All servers failed to register the requested key"
show (could_not_read_configuration_file e) = text "Could not read configuration file: " ++ e
show (bad_configuration e) = text "The configuration could not be parsed: " ++ e
show (unknown_configuration_version e) = text "Cannot use configuration version: " ++ print_u64 e
show no_servers_returned_allowed_signers =
    text "All servers failed to return allowed signers when requested"

pub record Options : Type 0 where
  pub principals : Option (List Text)
  pub hosts : Option (List Text)
  pub kind : Option Text
  pub duration : Option ℕ
  pub authority : Option Text

pub record Config : Type 0 where
  pub version : ℕ
  pub servers : List RusticaServer
  pub slot : Option Text
  pub key : Option Text
  pub options : Option Options
  pub socket : Option Text

pub record ConfigV1 : Type 0 where
  pub server : Text
  pub ca_pem : Text
  pub mtls_cert : Text
  pub mtls_key : Text
  pub slot : Option Text
  pub key : Option Text
  pub options : Option Options
  pub socket : Option Text

-- The crate toml at the types of this module: `from_str` with the text of its error, and `to_string`.
pub record Toml : Type 0 where
  pub version_of : Text → Option ℕ
  pub v1_of : Text → Run Text ConfigV1
  pub v2_of : Text → Run Text Config
  pub to_string : Config → Option Text

pub record UpdatableConfiguration : Type 0 where
  pub path : Text
  pub configuration : Config

-- What becomes of a write of a text to a path.
pub data Writing : Type 0 where
  whole unopened : Writing
  cut_off : Text → Writing

-- The files by their paths; an error of the file system is its text.
pub record FileSystem : Type 0 where
  pub files : Map Text
  pub writing : Text → Text → Writing
  pub read_error : Text → Text

-- A failed read of the text is a bad configuration.
abbrev or_bad : {A : Type 0} → Run Text A → Run RusticaAgentLibraryError A
or_bad (ok t) = ok t
or_bad (err e) = err (bad_configuration e)
or_bad panic = panic

abbrev of_v1 : ConfigV1 → Config
of_v1 v1 = record {
  version = 2;
  servers =
      record {
        address = v1.server;
        ca_pem = v1.ca_pem;
        mtls_cert = v1.mtls_cert;
        mtls_key = v1.mtls_key;
      }
      ∷ [];
  slot = v1.slot;
  key = v1.key;
  options = v1.options;
  socket = v1.socket;
}

-- `std::fs::write`: a file that cannot be opened stays as it is; one that is opened is cut to nothing
-- first, so that a write that fails later leaves what was written until then.
abbrev write_file : Text → Text → FileSystem → Run (Unit {0}) (Unit {0}) × FileSystem
write_file path contents fs = elim (fs.writing path contents) [
  | whole ↦ (ok tt, record fs { files = insert path contents fs.files })
  | unopened ↦ (err tt, fs)
  | cut_off part ↦ (err tt, record fs { files = insert path part fs.files })
]

abbrev pub with_servers : List RusticaServer → UpdatableConfiguration → UpdatableConfiguration
with_servers servers conf = record conf {
  configuration = record conf.configuration { servers = servers };
}

module _ (toml : Toml) where
  unfoldable pub parse_v1_config : Text → Run RusticaAgentLibraryError Config
  parse_v1_config config = or_bad (toml.v1_of config) >>= λ v1. ok (of_v1 v1)

  unfoldable pub parse_v2_config : Text → Run RusticaAgentLibraryError Config
  parse_v2_config config = or_bad (toml.v2_of config)

  unfoldable pub parse_config : Text → Run RusticaAgentLibraryError Config
  parse_config config = elim (toml.version_of config) [
    | none ↦ parse_v1_config config
    | some x ↦ if x == 2 then parse_v2_config config else err (unknown_configuration_version x)
  ]

  unfoldable pub parse_config_path : Text → FileSystem → Run RusticaAgentLibraryError Config
  parse_config_path path fs = elim (lookup path fs.files) [
    | none ↦ err (could_not_read_configuration_file (fs.read_error path))
    | some config ↦ parse_config config
  ]

  -- `UpdatableConfiguration::new`
  unfoldable pub open_configuration :
      Text → FileSystem → Run RusticaAgentLibraryError UpdatableConfiguration
  open_configuration path fs = parse_config_path path fs >>= λ configuration.
      ok (record { path = path; configuration = configuration })

  unfoldable pub write :
      UpdatableConfiguration → FileSystem → Run (Unit {0}) (Unit {0}) × FileSystem
  write conf fs = elim (toml.to_string conf.configuration) [
    | none ↦ (panic, fs)
    | some contents ↦ write_file conf.path contents fs
  ]

  unfoldable pub update_servers :
      List RusticaServer
      → UpdatableConfiguration
      → FileSystem
      → Run (Unit {0}) (Unit {0}) × UpdatableConfiguration × FileSystem
  update_servers servers conf fs =
      let (result, fs') = write (with_servers servers conf) fs in
      (result, with_servers servers conf, fs')
