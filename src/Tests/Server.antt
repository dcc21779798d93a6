-- ===== src/Tests/Server.antt =====
-- A server over the stand-ins, with one authority and a local database of one key.
use rustica.Common.{Bool, true, false, some, [], ◌∷◌}
use rustica.Common.Text.{text}
use rustica.Common.Words.{pos}
use rustica.Auth.Database.{Database}
use rustica.Signing.{SigningMechanism}
use rustica.Signing.File.{FileSigner, signer}
use rustica.Server.{RusticaServer, Connection}
use rustica.Tests.Toy.{toy}

abbrev pub file_signer : FileSigner toy
file_signer = record {
  ssh_keys = some (record { user_key = text "U"; host_key = text "H" });
  x509_certificate = some (text "X");
  client_certificate_authority = some (text "C");
}

abbrev pub mechanism : SigningMechanism toy
mechanism = record {
  default_authority = text "main";
  authorities = (text "main", signer toy file_signer) ∷ [];
}

abbrev pub server : Bool → Bool → RusticaServer toy
server proof chain = record {
  hmac_key = text "k";
  challenge_key = text "S";
  signer = mechanism;
  require_rustica_proof = proof;
  require_attestation_chain = chain;
  client_authority = record {
    authority = text "main";
    validity_length = 86400;
    expiration_renewal_period = 3600;
  };
}

abbrev pub conn : Connection
conn = record {
  remote_addr = some (record { shown = text "10.0.0.1:22"; ip = text "10.0.0.1" });
  peer_certs = some (text "ann" ∷ []);
}

abbrev pub db : Database
db = record {
  principals =
      record { fingerprint = text "key"; principal = text "root"; authority = text "main" } ∷ [];
  hosts = [];
  extensions = [];
  permissions =
      record {
        fingerprint = text "key";
        host_unrestricted = false;
        principal_unrestricted = false;
        can_create_host_certs = false;
        can_create_user_certs = true;
        max_creation_time = pos 10;
        authority = text "main";
      }
      ∷ [];
  registered_keys = [];
  x509_authorizations =
      record {
        owner = text "ann";
        hsm_serial = text "7";
        require_touch = true;
        authority = text "main";
      }
      ∷ [];
}
