-- ===== src/Common/Text.antt =====
-- Rust strings as their UTF-8 bytes, with the formatting that the program uses.
use Prim.Native.Nat.{ℕ}
use Prim.Native.Char.{code}
use Prim.Native.String.{String}
use mathlib.Core.Path.{◌≡◌, refl}
use mathlib.Core.Logic.{◌↔◌}
use mathlib.Core.Bool.{Bool, true, false, ◌&&◌}
use mathlib.Core.List.{List, [], ◌∷◌, ◌++◌}
use native.Mathlib.Omega.{arith}
use rustica.Common.Tests.{◌==◌}

abbrev pub Text : Type 0
Text = List ℕ

-- A literal of the source; all of them are ASCII.
abbrev pub text : String → Text
text String.[] = []
text (String.◌∷◌ c s) = code c ∷ text s

abbrev pub is_empty : Text → Bool
is_empty [] = true
is_empty (_ ∷ _) = false

unfoldable pub eq : Text → Text → Bool
eq [] [] = true
eq [] (_ ∷ _) = false
eq (_ ∷ _) [] = false
eq (x ∷ xs) (y ∷ ys) = x == y && eq xs ys

eq_sound : (s t : Text) → eq s t ≡ true → s ≡ t
unfolding eq
eq_sound [] [] h = refl
eq_sound [] (y ∷ ys) h = cc
eq_sound (x ∷ xs) [] h = cc
eq_sound (x ∷ xs) (y ∷ ys) h = ground (arith, eq_sound xs ys)

pub eq_refl : (s : Text) → eq s s ≡ true
unfolding eq
eq_refl [] = refl
eq_refl (x ∷ xs) = ground (arith, eq_refl xs)

pub eq_iff : (s t : Text) → (eq s t ≡ true) ↔ (s ≡ t)
eq_iff s t = (eq_sound s t, λ h. rw h (eq_refl t))

-- `parts.join(sep)`
unfoldable pub join : Text → List Text → Text
join sep [] = []
join sep (x ∷ []) = x
join sep (x ∷ y ∷ rest) = x ++ (sep ++ join sep (y ∷ rest))

-- `identities.join(",")`
abbrev pub commas : List Text → Text
commas = join (b',' ∷ [])
