-- ===== src/Tests/Configs.antt =====
-- A configuration is written and read back, with a stand-in for toml that prints a configuration of
-- one server without credentials as its address, and no other one.
use rustica.Common.{ℕ, zero, suc, ◌≡◌, refl, ap, Option, none, some, List, [], ◌∷◌}
use rustica.Common.Text.{Text, text, eq}
use rustica.Common.Maps.{lookup, insert}
use rustica.Common.Run.{ok, err, ok-injective}
use rustica.Agent.{RusticaServer}
use rustica.Agent.Config.{
  whole, Options, Config, Toml, UpdatableConfiguration, FileSystem, bad_configuration,
  unknown_configuration_version, could_not_read_configuration_file, parse_v1_config,
  parse_v2_config, parse_config, parse_config_path, open_configuration, write, update_servers,
}
use rustica.Agent.Config.Stored.{TomlBehaves, update_servers-open_configuration}

run : Unit {0}
unfolding eq lookup insert write parse_v1_config parse_v2_config parse_config parse_config_path
    open_configuration update_servers
run = tt

abbrev server : Text → RusticaServer
server address = record { address = address; ca_pem = []; mtls_cert = []; mtls_key = [] }

abbrev config : Text → Config
config address = record {
  version = 2;
  servers = server address ∷ [];
  slot = none;
  key = none;
  options = none;
  socket = none;
}

abbrev print_server : RusticaServer → Text → Text → Text → Option Text
print_server s [] [] [] = some s.address
print_server s [] [] (_ ∷ _) = none
print_server s [] (_ ∷ _) key = none
print_server s (_ ∷ _) cert key = none

abbrev print_servers : List RusticaServer → Option Text
print_servers [] = none
print_servers (s ∷ []) = print_server s s.ca_pem s.mtls_cert s.mtls_key
print_servers (s ∷ t ∷ rest) = none

abbrev print_rest :
    List RusticaServer → Option Text → Option Text → Option Options → Option Text → Option Text
print_rest servers none none none none = print_servers servers
print_rest servers none none none (some _) = none
print_rest servers none none (some _) socket = none
print_rest servers none (some _) options socket = none
print_rest servers (some _) key options socket = none

abbrev print : ℕ → Config → Option Text
print zero c = none
print (suc zero) c = none
print (suc (suc zero)) c = print_rest c.servers c.slot c.key c.options c.socket
print (suc (suc (suc n))) c = none

print_server_lem :
    (address ca cert key s : Text)
    → print_server
        (record { address = address; ca_pem = ca; mtls_cert = cert; mtls_key = key })
        ca
        cert
        key
      ≡ some s
    → server s ≡ record { address = address; ca_pem = ca; mtls_cert = cert; mtls_key = key }
print_server_lem address [] [] [] s h = cc
print_server_lem address [] [] (_ ∷ _) s h = cc
print_server_lem address [] (_ ∷ _) key s h = cc
print_server_lem address (_ ∷ _) cert key s h = cc

print_servers_lem :
    (servers : List RusticaServer) (s : Text)
    → print_servers servers ≡ some s
    → server s ∷ [] ≡ servers
print_servers_lem [] s h = cc
print_servers_lem (x ∷ []) s h = cc (print_server_lem x.address x.ca_pem x.mtls_cert x.mtls_key s h)
print_servers_lem (x ∷ y ∷ rest) s h = cc

print_rest_lem :
    (servers : List RusticaServer) (slot key : Option Text) (options : Option Options)
    (socket : Option Text) (s : Text)
    → print_rest servers slot key options socket ≡ some s
    → config s ≡ record {
      version = 2;
      servers = servers;
      slot = slot;
      key = key;
      options = options;
      socket = socket;
    }
print_rest_lem servers none none none none s h =
    ap (λ l. record (config s) { servers = l }) (print_servers_lem servers s h)
print_rest_lem servers none none none (some _) s h = cc
print_rest_lem servers none none (some _) socket s h = cc
print_rest_lem servers none (some _) options socket s h = cc
print_rest_lem servers (some _) key options socket s h = cc

print_lem :
    (version : ℕ) (c : Config) (s : Text)
    → print version c ≡ some s
    → config s ≡ record c { version = version }
print_lem zero c s h = cc
print_lem (suc zero) c s h = cc
print_lem (suc (suc zero)) c s h = print_rest_lem c.servers c.slot c.key c.options c.socket s h
print_lem (suc (suc (suc n))) c s h = cc

abbrev toml : Toml
toml = record {
  version_of = λ s. some 2;
  v1_of = λ s. err (text "old");
  v2_of = λ s. ok (config s);
  to_string = λ c. print c.version c;
}

version_lem :
    (s : Text) (c : Config) (n : ℕ)
    → toml.v2_of s ≡ ok c
    → toml.version_of s ≡ some n
    → c.version ≡ n
version_lem s c n h k = cc (ap (λ (x : Config). x.version) (ok-injective h))

toml-TomlBehaves : TomlBehaves toml
toml-TomlBehaves = record {
  parse-print = λ c s h. ap ok (print_lem c.version c s h);
  version-print = λ c s h. ap (λ (x : Config). some x.version) (print_lem c.version c s h);
  version_agrees = λ s c n h k. version_lem s c n h k;
}

abbrev files : Text → FileSystem
files contents = record {
  files = (text "conf", contents) ∷ [];
  writing = λ path contents. whole;
  read_error = λ path. text "no file";
}

abbrev at_address : Text → UpdatableConfiguration
at_address address = record { path = text "conf"; configuration = config address }

open_test : open_configuration toml (text "conf") (files (text "a")) ≡ ok (at_address (text "a"))
unfolding run
open_test = refl

missing_test :
    open_configuration toml (text "other") (files (text "a"))
    ≡ err (could_not_read_configuration_file (text "no file"))
unfolding run
missing_test = refl

stored_test :
    update_servers toml (server (text "b") ∷ []) (at_address (text "a")) (files (text "a"))
    ≡ (ok tt, at_address (text "b"), files (text "b"))
unfolding run
stored_test = refl

update_servers-open_configuration_example :
    (open_configuration toml (text "conf") (files (text "b")) ≡ ok (at_address (text "b")))
    × (server (text "b") ∷ [] ≡ server (text "b") ∷ [])
update_servers-open_configuration_example =
    update_servers-open_configuration toml toml-TomlBehaves (text "conf") (files (text "a"))
      (files (text "b")) (at_address (text "a")) (at_address (text "b")) (server (text "b") ∷ [])
      open_test stored_test

-- A file without a version is read in the first format, and an unknown version is refused.
abbrev old_toml : Option ℕ → Toml
old_toml version = record toml { version_of = λ s. version }

versions_tests :
    (parse_config (old_toml none) [] ≡ err (bad_configuration (text "old")))
    × (parse_config (old_toml (some 3)) [] ≡ err (unknown_configuration_version 3))
unfolding run
versions_tests = (refl, refl)
