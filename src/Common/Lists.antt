-- ===== src/Common/Lists.antt =====
-- Lists over the native numbers, and predicates on their elements.
use Prim.Native.Nat.{ℕ, zero, suc, ◌+◌}
use mathlib.Core.Path.{◌≡◌, refl, sym}
use mathlib.Core.Logic.{inl, inr, ◌↔◌}
use mathlib.Core.Bool.{Bool, true, false}
use mathlib.Core.Option.{Option, none, some}
use mathlib.Core.List.{List, [], ◌∷◌, ◌++◌, Memᴰ}
use native.Mathlib.Omega.{arith}
use rustica.Common.Tests.{if◌then◌else◌, Bool-cases}

module _ {ℓ κ} {A : Type ℓ} (P : A → Type κ) where
  abbrev pub All : List A → Type κ
  All [] = Unit
  All (x ∷ xs) = P x × All xs

module _ {ℓ} {A : Type ℓ} where
  abbrev pub length : List A → ℕ
  length [] = 0
  length (x ∷ xs) = suc (length xs)

  abbrev pub get_elem? : List A → ℕ → Option A
  get_elem? [] i = none
  get_elem? (x ∷ xs) zero = some x
  get_elem? (x ∷ xs) (suc i) = get_elem? xs i

  abbrev pub first : List A → Option A
  first [] = none
  first (x ∷ xs) = some x

  -- `iter().filter(p)`
  unfoldable pub select : (A → Bool) → List A → List A
  select p [] = []
  select p (x ∷ xs) = if p x then x ∷ select p xs else select p xs

  -- The first element that is selected is one of the list, and passes the test.
  pub first-select :
      (p : A → Bool) (xs : List A) {x : A} → first (select p xs) ≡ some x → Memᴰ x xs × (p x ≡ true)
  unfolding select
  first-select p [] h = cc
  first-select p (y ∷ ys) {x} h = elim (Bool-cases (p y)) [
    | inl yes_y ↦ let e : y ≡ x = ground arith in (Memᴰ.head (sym e), rw (← e) yes_y)
    | inr no_y ↦
        let (there, passes) = first-select p ys {x = x} (ground arith) in (Memᴰ.tail there, passes)
  ]

  -- Nothing is selected exactly if nothing passes.
  pub select-eq-nil_iff :
      (p : A → Bool) (xs : List A) → (first (select p xs) ≡ none) ↔ All (λ x. p x ≡ false) xs
  unfolding select
  select-eq-nil_iff p [] = (λ h. tt, λ h. refl)
  select-eq-nil_iff p (y ∷ ys) =
      let (to, from) = select-eq-nil_iff p ys in
      (λ h. (ground arith, to (ground arith)), λ (h, k). rw h (from k))

  pub length-append : (xs ys : List A) → length (xs ++ ys) ≡ length xs + length ys
  length-append [] ys = omega arith
  length-append (x ∷ xs) ys = omega (arith, length-append xs ys)
