-- ===== src/Agent/Command.antt =====
-- rustica-agent-cli/src/config/mod.rs: what the command line of the agent asks for. The parser of the
-- command line is clap; what each mode does with its own arguments is left out.
pub mod Single
use rustica.Common.{◌++◌, Option, none, some, List, [], ◌∷◌, if◌then◌else◌}
use rustica.Common.Text.{Text, text, eq}
use rustica.Common.Split.{split_commas}
use rustica.Common.Decimal.{parse_u64}
use rustica.Common.Run.{Run, ok, err, panic, unwrap, ok_or, ◌>>=◌}
use rustica.Foreign.{Foreign, user}
use rustica.Agent.{AgentCrates, Yubikey, Signatory, yubikey, direct}
use rustica.Agent.Clients.{CertificateConfig}
use rustica.Agent.Config.{
  RusticaAgentLibraryError, Config, Toml, FileSystem, UpdatableConfiguration, open_configuration,
}
use rustica.Agent.Slots.{slot_parser, certificate_config_of, unwrap_or}

-- The error of the mode `multi` is its text.
pub data ConfigurationError : Type 0 where
  bad_configuration : RusticaAgentLibraryError → ConfigurationError
  bad_slot cannot_attest_file_based_key cannot_provision_file missing_ssh_key : ConfigurationError
  parsing_error yubikey_management_key_invalid yubikey_no_keypair_found : ConfigurationError
  invalid_fido_key_name no_mode unable_to_determine_key : ConfigurationError
  cannot_read_file multi_mode_error yubikey_error : Text → ConfigurationError

-- The options of a subcommand, as they were given.
pub record Arguments : Type 0 where
  pub config : Text
  pub principals : Option Text
  pub kind : Option Text
  pub duration : Option Text
  pub authority : Option Text
  pub socket : Option Text

pub data Mode : Type 0 where
  immediate multi fido_setup provision_piv register single list_piv_keys : Mode
  list_fido_devices git_config refresh_attested_x509 allowed_signers : Mode

-- The names that clap is given.
abbrev pub subcommands : List Text
subcommands =
    text "immediate"
    ∷ text "multi"
    ∷ text "fido-setup"
    ∷ text "provision-piv"
    ∷ text "register"
    ∷ text "single"
    ∷ text "list-piv-keys"
    ∷ text "list-fido-devices"
    ∷ text "git-config"
    ∷ text "refresh-attested-x509"
    ∷ text "allowed-signers"
    ∷ []

-- The subcommand that was given, under the names that the code looks for.
unfoldable pub mode_of : Text → Run ConfigurationError Mode
mode_of name =
    if eq name (text "immediate")
    then ok immediate
    else if eq name (text "multi")
    then ok multi
    else if eq name (text "fido-setup")
    then ok fido_setup
    else if eq name (text "provision-piv")
    then ok provision_piv
    else if eq name (text "register")
    then ok register
    else if eq name (text "single")
    then ok single
    else if eq name (text "list-piv-keys")
    then ok list_piv_keys
    else if eq name (text "list-fido-devices")
    then ok list_fido_devices
    else if eq name (text "git-config")
    then ok git_config
    else if eq name (text "refresh-attested-x509")
    then ok refresh_attested_x509
    else if eq name (text "allowed_signers")
    then ok allowed_signers
    else err no_mode

-- default_socket: a name in the temporary directory, with the number of the process
unfoldable pub parse_socket_path_from_args : Text → Arguments → Config → Text
parse_socket_path_from_args default_socket matches config =
    unwrap_or (unwrap_or default_socket config.socket) matches.socket

unfoldable pub parse_config_from_args :
    Toml → FileSystem → Arguments → Run ConfigurationError UpdatableConfiguration
parse_config_from_args toml fs matches = elim (open_configuration toml matches.config fs) [
  | ok conf ↦ ok conf
  | err e ↦ err (bad_configuration e)
  | panic ↦ panic
]

module _ {f : Foreign} (crates : AgentCrates f) where
  open f use {PrivateKey}

  -- `Yubikey::new()`, and the private keys of a path, with the text of an error, and of a text
  pub record KeySources : Type 0 where
    pub connected : Option (Yubikey crates)
    pub private_key_from_path : Text → Run Text PrivateKey
    pub private_key_from_string : Text → Option PrivateKey

  abbrev at_slot :
      KeySources → Run Text (Option crates.SlotId) → Run ConfigurationError (Signatory crates)
  at_slot keys (ok (some s)) =
      unwrap keys.connected >>= λ yk. ok (yubikey (record { slot = s; yk = yk }))
  at_slot keys (ok none) = err bad_slot
  at_slot keys (err _) = panic
  at_slot keys panic = panic

  abbrev from_path : Text → Run Text PrivateKey → Run ConfigurationError (Signatory crates)
  from_path file (ok p) = ok (direct p)
  from_path file (err e) = err (cannot_read_file (e ++ (text ": " ++ file)))
  from_path file panic = panic

  unfoldable pub get_signatory :
      KeySources
      → Option Text
      → Option Text
      → Option Text
      → Option Text
      → Run ConfigurationError (Signatory crates)
  get_signatory keys (some slot) config_slot file config_key =
      at_slot keys (slot_parser crates slot)
  get_signatory keys none config_slot (some file) config_key =
      from_path file (keys.private_key_from_path file)
  get_signatory keys none (some slot) none config_key = at_slot keys (slot_parser crates slot)
  get_signatory keys none none none (some key_string) =
      ok_or parsing_error (keys.private_key_from_string key_string) >>= λ p. ok (direct p)
  get_signatory keys none none none none = err missing_ssh_key

  abbrev split_or : List Text → Option Text → List Text
  split_or old none = old
  split_or old (some principals) = split_commas principals

  -- An option of the command line takes the place of that of the configuration.
  unfoldable pub parse_certificate_config_from_args : Arguments → Config → CertificateConfig
  parse_certificate_config_from_args matches config =
      let options = certificate_config_of crates config.options in
      record options {
        principals = split_or options.principals matches.principals;
        cert_type = elim matches.kind [
          | none ↦ options.cert_type
          | some kind ↦ unwrap_or user (crates.cert_type_of kind)
        ];
        duration = elim matches.duration [
          | none ↦ options.duration
          | some duration ↦ unwrap_or 10 (parse_u64 duration)
        ];
        authority = unwrap_or options.authority matches.authority;
      }
