-- ===== src/Common/Maps.antt =====
-- `HashMap<String, V>` as an association list; nothing depends on its order.
use mathlib.Core.Path.{◌≡◌, refl}
use mathlib.Core.Bool.{Bool, true, false}
use mathlib.Core.Option.{Option, none, some}
use mathlib.Core.List.{List, [], ◌∷◌}
use native.Mathlib.Omega.{arith}
use rustica.Common.Tests.{if◌then◌else◌}
use rustica.Common.Text.{Text, eq, eq_iff}

abbrev pub Map {ℓ} : Type ℓ → Type ℓ
Map V = List (Text × V)

module _ {ℓ} {V : Type ℓ} where
  unfoldable pub lookup : Text → Map V → Option V
  lookup key [] = none
  lookup key ((name, value) ∷ rest) = if eq name key then some value else lookup key rest

  unfoldable pub insert : Text → V → Map V → Map V
  insert key new [] = (key, new) ∷ []
  insert key new ((name, value) ∷ rest) =
      if eq name key then (key, new) ∷ rest else (name, value) ∷ insert key new rest

  abbrev pub contains_key : Text → Map V → Bool
  contains_key key entries = elim (lookup key entries) [ none ↦ false | some _ ↦ true ]

  -- `pairs.into_iter().collect()`: a later pair takes the place of an earlier one
  unfoldable pub collect : List (Text × V) → Map V → Map V
  collect [] entries = entries
  collect ((key, value) ∷ pairs) entries = collect pairs (insert key value entries)

  -- What is found after an insertion: the new value under its key, and what was found elsewhere.
  pub lookup-insert :
      (new wanted : Text) (value : V) (entries : Map V)
      → lookup wanted (insert new value entries)
        ≡ (if eq new wanted then some value else lookup wanted entries)
  unfolding lookup insert
  lookup-insert new wanted value [] = refl
  lookup-insert new wanted value ((name, other) ∷ rest) =
      let unchanged = lookup-insert new wanted value rest in
      ground (arith, unchanged, eq_iff new wanted, eq_iff name new, eq_iff name wanted)
