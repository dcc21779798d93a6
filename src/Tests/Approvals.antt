-- ===== src/Tests/Approvals.antt =====
-- An approval of the author service, and one that lacks a key.
use rustica.Common.{◌≡◌, refl, false, none, some, [], ◌∷◌, arith}
use rustica.Common.Text.{Text, text, eq, join}
use rustica.Common.Decimal.{print_u64, parse_u64}
use rustica.Common.Maps.{Map, lookup, insert, collect}
use rustica.Common.Split.{split_commas, strip_prefix}
use rustica.Common.Run.{ok, panic}
use rustica.Auth.External.{approved, extensions_of, hosts_of}
use rustica.Auth.External.Approvals.{approved_round_trip}
use rustica.Auth.External.X509.{validity, x509_approved}
use rustica.Common.Words.{negsuc}
use rustica.Common.Decimal.{parse_i64}
use rustica.Auth.{SshAuthorization, X509Authorization}

run : Unit {0}
unfolding eq join print_u64 parse_u64 lookup insert collect split_commas strip_prefix approved
    extensions_of hosts_of parse_i64 validity x509_approved
run = tt

abbrev approval : Map Text
approval =
    (text "serial", text "7")
    ∷ (text "valid_before", text "2000")
    ∷ (text "valid_after", text "1000")
    ∷ (text "principals", text "root,admin")
    ∷ (text "extension.permit-pty", [])
    ∷ (text "authority", text "main")
    ∷ []

abbrev granted : SshAuthorization
granted = record {
  serial = 7;
  valid_before = 2000;
  valid_after = 1000;
  principals = text "root" ∷ text "admin" ∷ [];
  hosts = none;
  extensions = (text "permit-pty", []) ∷ [];
  force_command = none;
  force_source_ip = false;
  authority = text "main";
}

approved_test : approved approval ≡ ok granted
unfolding run
approved_test = refl

-- The order of the keys decides: the serial is looked up first.
panic_test : approved ((text "authority", text "main") ∷ []) ≡ panic
unfolding run
panic_test = refl

fields :
    (lookup (text "serial") approval ≡ some (print_u64 7))
    × (lookup (text "valid_before") approval ≡ some (print_u64 2000))
    × (lookup (text "valid_after") approval ≡ some (print_u64 1000))
    × (lookup (text "principals") approval
        ≡ some (join (text ",") (text "root" ∷ text "admin" ∷ [])))
    × (lookup (text "authority") approval ≡ some (text "main"))
unfolding run
fields = (refl, refl, refl, refl, refl)

approved_round_trip_example :
    approved approval
    ≡ ok (record {
      serial = 7;
      valid_before = 2000;
      valid_after = 1000;
      principals = text "root" ∷ text "admin" ∷ [];
      hosts = hosts_of approval;
      extensions = extensions_of approval;
      force_command = lookup (text "force_command") approval;
      force_source_ip = false;
      authority = text "main";
    })
unfolding lookup eq
approved_round_trip_example =
    approved_round_trip approval 7 2000 1000 (text "root") (text "admin" ∷ []) (text "main")
      (omega arith) (omega arith) (omega arith)
      (
        (omega arith, (omega arith, (omega arith, (omega arith, tt)))),
        ((omega arith, (omega arith, (omega arith, (omega arith, (omega arith, tt))))), tt),
      )
      fields.0 fields.1 fields.2 fields.3 fields.4

abbrev x509_answer : Map Text
x509_answer = (text "authority", text "main") ∷ (text "serial", text "-3") ∷ []

abbrev x509_granted : X509Authorization
x509_granted = record {
  authority = text "main";
  issuer = text "Rustica";
  common_name = text "ann";
  sans = text "ann" ∷ [];
  extensions = [];
  serial = negsuc 2;
  valid_before = 44200;
  valid_after = 1000;
}

x509_test : x509_approved (λ k v. none) (some 1000) (text "ann" ∷ []) x509_answer ≡ ok x509_granted
unfolding run
x509_test = refl
