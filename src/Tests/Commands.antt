-- ===== src/Tests/Commands.antt =====
-- The command line of the agent.
use rustica.Common.{[], ◌∷◌, ◌≡◌, refl, none, some}
use rustica.Common.Text.{text, eq}
use rustica.Common.Split.{strip_prefix}
use rustica.Common.Run.{ok, err}
use rustica.Agent.{yubikey, direct}
use rustica.Agent.Slots.{numbered, hexadecimal, slot_parser}
use rustica.Agent.Command.{no_mode, missing_ssh_key, git_config, mode_of, KeySources, get_signatory}
use rustica.Agent.Command.{
  parse_config_from_args, parse_socket_path_from_args, parse_certificate_config_from_args,
}
use rustica.Agent.Command.Single.{
  SingleArguments, RunConfig, key_of_signatory, configure_singlemode,
}
use rustica.Agent.Command.Single.Started.{IsKeyOf, configure_singlemode-IsStamped}
use rustica.Agent.Config.{
  whole, FileSystem, open_configuration, parse_config_path, parse_config, parse_v2_config,
}
use rustica.Agent.Protocol.Reading.{ask_identities}
use rustica.Agent.Session.{handle_client}
use rustica.Agent.Session.Pipeline.{encode_requests}
use rustica.Agent.Handler.{handler}
use rustica.Agent.Handler.Cached.{IsStamped}
use rustica.Agent.Slots.{certificate_config_of}
use rustica.Common.{true}
use rustica.Common.Maps.{lookup}
use rustica.Foreign.{user}
use rustica.Tests.Clients.{toml, config}
use rustica.Tests.Handlers.{around}
use rustica.Tests.Devices.{crates, device}
use rustica.Common.Decimal.{parse_u8, parse_u64}

run : Unit {0}
unfolding eq strip_prefix parse_u8 parse_u64 numbered hexadecimal slot_parser mode_of get_signatory
    lookup open_configuration parse_config_path parse_config parse_v2_config parse_config_from_args
    parse_socket_path_from_args certificate_config_of parse_certificate_config_from_args
    key_of_signatory configure_singlemode
run = tt

-- The subcommand for the allowed signers is looked for under another name than it has.
modes_tests :
    (mode_of (text "git-config") ≡ ok git_config) × (mode_of (text "allowed-signers") ≡ err no_mode)
unfolding run
modes_tests = (refl, refl)

abbrev keys : KeySources crates
keys = record {
  connected = some device;
  private_key_from_path = λ path. ok path;
  private_key_from_string = λ s. some s;
}

-- A slot on the command line goes before a file on the command line.
signatory_tests :
    (get_signatory crates keys (some (text "R1")) none (some (text "file")) none
      ≡ ok (yubikey (record { slot = 130; yk = device })))
    × (get_signatory crates keys none (some (text "R1")) (some (text "file")) none
        ≡ ok (direct (text "file")))
    × (get_signatory crates keys none none none none ≡ err missing_ssh_key)
unfolding run
signatory_tests = (refl, refl, refl)

abbrev files : FileSystem
files = record {
  files = (text "conf", text "start") ∷ [];
  writing = λ path contents. whole;
  read_error = λ path. text "no file";
}

abbrev arguments : SingleArguments
arguments = record {
  shared = record {
    config = text "conf";
    principals = none;
    kind = none;
    duration = some (text "60");
    authority = none;
    socket = none;
  };
  slot = none;
  file = some (text "key");
  certificate_priority = true;
  out = none;
}

abbrev started : RunConfig crates
started = record {
  socket_path = text "/tmp/rustica.1";
  pubkey = text "key";
  handler = record {
    pubkey = text "key";
    signatory = direct (text "key");
    certificate_options = record {
      principals = [];
      hosts = [];
      cert_type = user;
      duration = 60;
      authority = [];
    };
    piv_identities = [];
    notifies = true;
    certificate_priority = true;
  };
  state = record {
    settings = record {
      configuration = record { path = text "conf"; configuration = config [] };
      files = files;
    };
    cert = none;
    stale_at = 0;
    identities = [];
    notified = 0;
    calls = 0;
  };
}

single_test :
    configure_singlemode crates toml keys (text "/tmp/rustica.1") files arguments ≡ ok started
unfolding run
single_test = refl

configure_singlemode-IsStamped_example :
    IsKeyOf crates (direct (text "key")) (text "key")
    × IsStamped crates
        (handle_client crates.private_key_of_bytes
          (handler crates toml started.handler around)
          (encode_requests (ask_identities ∷ []))
          started.state).state
configure_singlemode-IsStamped_example =
    configure_singlemode-IsStamped crates toml keys (text "/tmp/rustica.1") files arguments started
      around (encode_requests (ask_identities ∷ [])) single_test
