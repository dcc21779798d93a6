-- ===== src/Agent/Command/Single.antt =====
-- rustica-agent-cli/src/config/singlemode.rs and immediatemode.rs: the agent of one key, and a request at
-- once. The path of a FIDO device, which only its private key keeps, is left out.
pub mod Started
use rustica.Common.{ℕ, Bool, true, Option, none, some, List, []}
use rustica.Common.Text.{Text}
use rustica.Common.Run.{Run, ok, err, ok_or, ◌>>=◌}
use rustica.Foreign.{Foreign}
use rustica.Agent.{AgentCrates, Signatory, yubikey, direct}
use rustica.Agent.Clients.{CertificateConfig}
use rustica.Agent.Config.{Toml, FileSystem, UpdatableConfiguration}
use rustica.Agent.Fetch.{Settings}
use rustica.Agent.Handler.{Handler, HandlerState}
use rustica.Agent.Command.{
  ConfigurationError, yubikey_no_keypair_found, Arguments, parse_config_from_args,
  parse_certificate_config_from_args, parse_socket_path_from_args, KeySources, get_signatory,
}

-- The options of the two modes beside those that all share.
pub record SingleArguments : Type 0 where
  pub shared : Arguments
  pub slot : Option Text
  pub file : Option Text
  pub certificate_priority : Bool
  pub out : Option Text

module _ {f : Foreign} (crates : AgentCrates f) where
  open f use {PublicKey, pubkey}

  pub record RunConfig : Type 0 where
    pub socket_path : Text
    pub pubkey : PublicKey
    pub handler : Handler crates
    pub state : HandlerState crates

  pub record ImmediateConfig : Type 0 where
    pub updatable_configuration : UpdatableConfiguration
    pub certificate_options : CertificateConfig
    pub signatory : Signatory crates
    pub out : Option Text

  unfoldable pub key_of_signatory : Signatory crates → Run ConfigurationError PublicKey
  key_of_signatory (yubikey signer) =
      ok_or yubikey_no_keypair_found (signer.yk.ssh_cert_fetch_pubkey signer.slot)
  key_of_signatory (direct privkey) = ok (pubkey privkey)

  module _ (toml : Toml) (keys : KeySources crates) (default_socket : Text) where
    unfoldable pub configure_singlemode :
        FileSystem → SingleArguments → Run ConfigurationError RunConfig
    configure_singlemode fs matches = do
      conf ← parse_config_from_args toml fs matches.shared
      signatory ←
          get_signatory crates keys matches.slot conf.configuration.slot matches.file
            conf.configuration.key
      key ← key_of_signatory signatory
      ok (record {
        socket_path = parse_socket_path_from_args default_socket matches.shared conf.configuration;
        pubkey = key;
        handler = record {
          pubkey = key;
          signatory = signatory;
          certificate_options =
              parse_certificate_config_from_args crates matches.shared conf.configuration;
          piv_identities = [];
          notifies = true;
          certificate_priority = matches.certificate_priority;
        };
        state = record {
          settings = record { configuration = conf; files = fs };
          cert = none;
          stale_at = 0;
          identities = [];
          notified = 0;
          calls = 0;
        };
      })

    unfoldable pub configure_immediate :
        FileSystem → SingleArguments → Run ConfigurationError ImmediateConfig
    configure_immediate fs matches = do
      conf ← parse_config_from_args toml fs matches.shared
      signatory ←
          get_signatory crates keys matches.slot conf.configuration.slot matches.file
            conf.configuration.key
      ok (record {
        updatable_configuration = conf;
        certificate_options =
            parse_certificate_config_from_args crates matches.shared conf.configuration;
        signatory = signatory;
        out = matches.out;
      })
