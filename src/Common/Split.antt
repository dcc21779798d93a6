-- ===== src/Common/Split.antt =====
-- `s.split(',')` of Rust, and `strip_prefix`.
use Prim.Native.Nat.{ℕ}
use mathlib.Core.Path.{◌≡◌, refl, ap, ◌∙◌}
use mathlib.Core.Logic.{◌≢◌}
use mathlib.Core.Option.{Option, none, some}
use mathlib.Core.List.{List, [], ◌∷◌, ◌++◌}
use native.Mathlib.Omega.{arith}
use rustica.Common.Tests.{◌==◌, if◌then◌else◌}
use rustica.Common.Lists.{All}
use rustica.Common.Text.{Text, join, commas}

-- One more byte at the head of the first part.
abbrev onto_first : ℕ → List Text → List Text
onto_first c [] = (c ∷ []) ∷ []
onto_first c (part ∷ parts) = (c ∷ part) ∷ parts

unfoldable pub split_commas : Text → List Text
split_commas [] = [] ∷ []
split_commas (c ∷ s) =
    let parts = split_commas s in if c == b',' then [] ∷ parts else onto_first c parts

-- No byte is a comma.
abbrev pub Commaless : Text → Type 0
Commaless = All (λ c. c ≢ b',')

unfoldable pub strip_prefix : Text → Text → Option Text
strip_prefix [] s = some s
strip_prefix (c ∷ prefix) [] = none
strip_prefix (c ∷ prefix) (d ∷ s) =
    let rest = strip_prefix prefix s in if c == d then rest else none

split_commas-one : (part : Text) → Commaless part → split_commas part ≡ part ∷ []
unfolding split_commas
split_commas-one [] h = refl
split_commas-one (c ∷ part) (other, h) = ground (arith, split_commas-one part h)

split_commas-append :
    (part s : Text) → Commaless part → split_commas (part ++ b',' ∷ s) ≡ part ∷ split_commas s
unfolding split_commas
split_commas-append [] s h = refl
split_commas-append (c ∷ part) s (other, h) = ground (arith, split_commas-append part s h)

-- What was joined is split into its parts, if there is a part and none has a comma.
pub split_commas-commas :
    (part : Text) (parts : List Text)
    → All Commaless (part ∷ parts)
    → split_commas (commas (part ∷ parts)) ≡ part ∷ parts
unfolding join
split_commas-commas part [] (h, _) = split_commas-one part h
split_commas-commas part (next ∷ parts) (h, rest) =
    split_commas-append part (commas (next ∷ parts)) h
    ∙ ap (λ x. part ∷ x) (split_commas-commas next parts rest)
