-- ===== src/Auth/External/Approvals.antt =====
-- How an approval of the author service is read.
use rustica.Common.{ℕ, ◌≤◌, ◌≡◌, ◌≢◌, refl, some, List, ◌∷◌}
use rustica.Common.{All, Option-cases, inl, inr}
use rustica.Common.Text.{Text, text, commas}
use rustica.Common.Words.{u64_max}
use rustica.Common.Decimal.{print_u64, parse_u64, parse-print_u64}
use rustica.Common.Maps.{Map, lookup, contains_key}
use rustica.Common.Split.{Commaless, split_commas-commas}
use rustica.Common.Run.{ok, panic}
use rustica.Auth.External.{approved, extensions_of, hosts_of}

-- If an approval has its three numbers as decimal texts of u64 values, its principals as a
-- non-empty list without commas joined by commas, and an authority, then it is read as a grant of
-- these values.
pub approved_round_trip :
    (approval : Map Text) (serial valid_before valid_after : ℕ) (principal : Text)
    (principals : List Text) (authority : Text)
    → serial ≤ u64_max
    → valid_before ≤ u64_max
    → valid_after ≤ u64_max
    → All Commaless (principal ∷ principals)
    → lookup (text "serial") approval ≡ some (print_u64 serial)
    → lookup (text "valid_before") approval ≡ some (print_u64 valid_before)
    → lookup (text "valid_after") approval ≡ some (print_u64 valid_after)
    → lookup (text "principals") approval ≡ some (commas (principal ∷ principals))
    → lookup (text "authority") approval ≡ some authority
    → approved approval
      ≡ ok (record {
        serial = serial;
        valid_before = valid_before;
        valid_after = valid_after;
        principals = principal ∷ principals;
        hosts = hosts_of approval;
        extensions = extensions_of approval;
        force_command = lookup (text "force_command") approval;
        force_source_ip = contains_key (text "force_source_ip") approval;
        authority = authority;
      })
unfolding approved
approved_round_trip approval serial vb va p ps authority s_fits vb_fits va_fits plain e1 e2 e3 e4
      e5 =
    rw
      (
        e1,
        parse-print_u64 serial s_fits,
        e2,
        parse-print_u64 vb vb_fits,
        e3,
        parse-print_u64 va va_fits,
        e4,
        split_commas-commas p ps plain,
        e5,
      )
      refl

-- Reading an approval that has the keys serial, valid_before, valid_after, principals and
-- authority, whatever their values, does not panic.
approved-no_panic :
    (approval : Map Text) {serial valid_before valid_after principals authority : Text}
    → lookup (text "serial") approval ≡ some serial
    → lookup (text "valid_before") approval ≡ some valid_before
    → lookup (text "valid_after") approval ≡ some valid_after
    → lookup (text "principals") approval ≡ some principals
    → lookup (text "authority") approval ≡ some authority
    → approved approval ≢ panic
unfolding approved
approved-no_panic approval {serial} {valid_before} {valid_after} e1 e2 e3 e4 e5 h =
    elim (Option-cases (parse_u64 serial)) [
      | inl p ↦ cc (rw (e1, p) at h)
      | inr (s, p) ↦ elim (Option-cases (parse_u64 valid_before)) [
        | inl q ↦ cc (rw (e1, p, e2, q) at h)
        | inr (vb, q) ↦ elim (Option-cases (parse_u64 valid_after)) [
          | inl r ↦ cc (rw (e1, p, e2, q, e3, r) at h)
          | inr (va, r) ↦ cc (rw (e1, p, e2, q, e3, r, e4, e5) at h)
        ]
      ]
    ]
