-- ===== src/Tests/Slots.antt =====
-- The slots of a Yubikey by their names, and the keys of two Yubikeys.
use rustica.Common.{ℕ, ◌≡◌, refl, ◌==◌, if◌then◌else◌, Option, none, some, [], ◌∷◌, arith}
use rustica.Common.Text.{Text, text, eq}
use rustica.Common.Maps.{lookup, insert}
use rustica.Common.Split.{strip_prefix}
use rustica.Common.Decimal.{print_u64, parse_u8}
use rustica.Common.Run.{ok}
use rustica.Agent.{Yubikey}
use rustica.Agent.Handler.{YubikeyPivKeyDescriptor}
use rustica.Agent.Slots.{
  numbered, hexadecimal, slot_parser, list_yubikey_serials, pin_of, add_slots, add_serials,
  get_all_piv_keys,
}
use rustica.Agent.Slots.Named.{slot_parser-print_u64}
use rustica.Agent.Slots.Listed.{IsPresent, get_all_piv_keys-IsPresent}
use rustica.Tests.Devices.{crates, device}

run : Unit {0}
unfolding eq lookup insert strip_prefix print_u64 parse_u8 numbered hexadecimal slot_parser
    list_yubikey_serials pin_of add_slots add_serials get_all_piv_keys
run = tt

slot_parser-print_u64_example : slot_parser crates (b'R' ∷ print_u64 20) ≡ ok (some 149)
slot_parser-print_u64_example = slot_parser-print_u64 crates 20 (omega arith)

slots_tests :
    (slot_parser crates (text "R21") ≡ ok none)
    × (slot_parser crates (text "R+3") ≡ ok (some 132))
    × (slot_parser crates (text "0x82") ≡ ok (some 56))
    × (slot_parser crates (text "9a") ≡ ok none)
unfolding run
slots_tests = (refl, refl, refl, refl)

-- It has one key, in the first of the retired slots.
abbrev with_key : Yubikey crates
with_key = record device {
  ssh_cert_fetch_pubkey = λ slot. if slot == 130 then some (text "piv") else none;
}

abbrev open_yubikey : ℕ → Option (Yubikey crates)
open_yubikey serial = some with_key

abbrev env : Text → Option Text
env name = some name

abbrev descriptor : YubikeyPivKeyDescriptor crates
descriptor = record {
  serial = 7;
  slot = 130;
  public_key = text "piv";
  pin = some (text "YK_PIN_7");
  subject = [];
}

listed_test :
    get_all_piv_keys crates env open_yubikey (ok (none ∷ some 7 ∷ []))
    ≡ ok ((text "piv", descriptor) ∷ [])
unfolding run
listed_test = refl

found_test : lookup (text "piv") ((text "piv", descriptor) ∷ []) ≡ some descriptor
unfolding run
found_test = refl

get_all_piv_keys-IsPresent_example : IsPresent crates env open_yubikey (text "piv") descriptor
get_all_piv_keys-IsPresent_example =
    get_all_piv_keys-IsPresent crates env open_yubikey (ok (none ∷ some 7 ∷ []))
      ((text "piv", descriptor) ∷ []) (text "piv") descriptor listed_test found_test
