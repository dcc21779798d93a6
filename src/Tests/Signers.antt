-- ===== src/Tests/Signers.antt =====
-- Two signers of distinct keys, and refused ones.
use rustica.Common.{◌≡◌, refl, none, some, List, [], ◌∷◌}
use rustica.Common.Text.{Text, text, eq}
use rustica.Common.Maps.{lookup, insert}
use rustica.Common.Run.{Run, ok, err}
use rustica.Foreign.{CertType, host}
use rustica.Signing.{
  SigningError, Signer, SigningMechanism, identical_user_and_host_key, duplicated_key,
}
use rustica.Signing.File
use rustica.Signing.File.{FileSigner, signer}
use rustica.Signing.Setup.{
  check_roles, remember, hash_of, convert_from, convert_to_signing_mechanism,
}
use rustica.Signing.Setup.Distinct.{convert_to_signing_mechanism-distinct}
use rustica.Tests.Toy.{toy}

run : Unit {0}
unfolding eq lookup insert File.signer check_roles remember hash_of convert_from
    convert_to_signing_mechanism
run = tt

abbrev keys : Text → Text → Signer toy
keys u h = signer toy (record {
  ssh_keys = some (record { user_key = u; host_key = h });
  x509_certificate = none;
  client_certificate_authority = none;
})

abbrev configurations : List (Text × Run SigningError (Signer toy))
configurations =
    (text "main", ok (keys (text "u") (text "h")))
    ∷ (text "spare", ok (keys (text "v") (text "g")))
    ∷ []

abbrev mechanism : SigningMechanism toy
mechanism = record {
  default_authority = text "main";
  authorities =
      insert (text "spare") (keys (text "v") (text "g"))
        (insert (text "main") (keys (text "u") (text "h")) []);
}

setup_test : convert_to_signing_mechanism toy (text "main") configurations ≡ ok mechanism
unfolding run
setup_test = refl

-- The two roles of a signer with one key, and two signers that share one.
refused_tests :
    (convert_to_signing_mechanism toy
        (text "main")
        ((text "main", ok (keys (text "u") (text "u"))) ∷ [])
      ≡ err (identical_user_and_host_key (text "main")))
    × (convert_to_signing_mechanism toy (text "main") (
          (text "main", ok (keys (text "u") (text "h")))
          ∷ (text "spare", ok (keys (text "g") (text "u")))
          ∷ [])
        ≡ err (duplicated_key (text "spare") (text "main")))
unfolding run
refused_tests = (refl, refl)

at_spare : lookup (text "spare") mechanism.authorities ≡ some (keys (text "v") (text "g"))
unfolding run
at_spare = refl

has_host : hash_of toy (keys (text "v") (text "g")) host ≡ some (text "g")
unfolding run
has_host = refl

convert_to_signing_mechanism-distinct_example :
    (text "spare" ≡ text "spare") × (◌≡◌ {A = CertType} host host)
convert_to_signing_mechanism-distinct_example =
    convert_to_signing_mechanism-distinct toy (text "main") configurations mechanism (text "spare")
      (text "spare") (keys (text "v") (text "g")) (keys (text "v") (text "g")) host host (text "g")
      setup_test at_spare at_spare has_host has_host
