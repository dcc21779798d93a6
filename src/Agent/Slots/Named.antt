-- ===== src/Agent/Slots/Named.antt =====
-- The slots R0 to R99 by their names.
use rustica.Common.{ℕ, ◌+◌, ◌≤◌, ◌≡◌, refl, none, some, ◌∷◌, leb, if◌then◌else◌, length, arith}
use rustica.Common.Text.{Text}
use rustica.Common.Split.{strip_prefix}
use rustica.Common.Decimal.{print_u64, parse-print_u8, print_u64-length}
use rustica.Common.Run.{ok}
use rustica.Foreign.{Foreign}
use rustica.Agent.{AgentCrates}
use rustica.Agent.Slots.{numbered, slot_at, slot_parser}

module _ {f : Foreign} (crates : AgentCrates f) where
  numbered_lem :
      (digits : Text)
      → 1 ≤ length digits
      → length digits ≤ 2
      → numbered (b'R' ∷ digits) ≡ some digits
  unfolding numbered strip_prefix
  numbered_lem digits h k = ground arith

  -- For a number up to 99, the slot parser reads R and the number as the slot whose identifier is
  -- the number plus 0x81 if the number is at most 20, where it panics if there is no such slot, and
  -- as no slot otherwise.
  pub slot_parser-print_u64 :
      (n : ℕ)
      → n ≤ 99
      → slot_parser crates (b'R' ∷ print_u64 n)
        ≡ (if leb n 20 then slot_at crates (0x81 + n) else ok none)
  unfolding slot_parser
  slot_parser-print_u64 n h =
      let (low, high) = print_u64-length n h in
      rw (numbered_lem (print_u64 n) low high, slot_parser, parse-print_u8 n (omega arith)) refl
