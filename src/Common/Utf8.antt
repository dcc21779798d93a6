-- ===== src/Common/Utf8.antt =====
-- `String::from_utf8` of Rust: which bytes are a text.
use Prim.Native.Nat.{ℕ, zero, suc}
use mathlib.Core.Bool.{Bool, false, ◌&&◌}
use mathlib.Core.Option.{Option, none, some}
use mathlib.Core.List.{List, [], ◌∷◌}
use rustica.Common.Tests.{leb, ltb, ◌==◌, if◌then◌else◌}
use rustica.Common.Text.{Text}

abbrev within : ℕ → ℕ → ℕ → Bool
within lo hi b = leb lo b && leb b hi

-- The second byte after a lead of three or four bytes has a range of its own.
second : ℕ → ℕ → Bool
second lead b =
    if lead == 0xE0
    then within 0xA0 0xBF b
    else if lead == 0xED
    then within 0x80 0x9F b
    else if lead == 0xF0
    then within 0x90 0xBF b
    else if lead == 0xF4
    then within 0x80 0x8F b
    else within 0x80 0xBF b

-- How many bytes follow a lead byte.
trailing : ℕ → Option ℕ
trailing b =
    if ltb b 0x80
    then some 0
    else if within 0xC2 0xDF b
    then some 1
    else if within 0xE0 0xEF b
    then some 2
    else if within 0xF0 0xF4 b
    then some 3
    else none

-- The bytes still due, the lead if none of them was read yet, and the rest.
scan : ℕ → Option ℕ → List ℕ → Bool
unfolding second trailing
scan due lead [] = due == 0
scan zero lead (b ∷ rest) = elim (trailing b) [ none ↦ false | some n ↦ scan n (some b) rest ]
scan (suc due) (some lead) (b ∷ rest) = second lead b && scan due none rest
scan (suc due) none (b ∷ rest) = within 0x80 0xBF b && scan due none rest

unfoldable pub from_utf8 : List ℕ → Option Text
unfolding scan
from_utf8 bytes = if scan 0 none bytes then some bytes else none
