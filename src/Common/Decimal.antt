-- ===== src/Common/Decimal.antt =====
-- `n.to_string()` and `s.parse::<u64>()`, `s.parse::<i64>()` of Rust.
use Prim.Native.Nat.{ℕ, zero, suc, ◌+◌, ◌-◌, ◌*◌, ◌/◌, ◌%◌, ◌<◌, ◌≤◌}
use mathlib.Core.Path.{◌≡◌, refl, ◌∙◌}
use mathlib.Core.Logic.{◌≢◌}
use mathlib.Core.Bool.{Bool, ◌&&◌}
use mathlib.Core.Option.{Option, none, some}
use mathlib.Core.List.{[], ◌∷◌, ◌++◌}
use native.Mathlib.Omega.{arith}
use rustica.Common.Tests.{◌==◌, leb, ltb, if◌then◌else◌, Bool-cases}
use rustica.Common.Text.{Text}
use rustica.Common.Lists.{All, length}
use rustica.Common.Words.{u64_max, ℤ, pos, negsuc}
use mathlib.Core.Logic.{inl, inr}

abbrev pow10 : ℕ → ℕ
pow10 zero = 1
pow10 (suc k) = 10 * pow10 k

is_digit : ℕ → Bool
is_digit c = leb b'0' c && leb c b'9'

-- The digits of a number below 10 ^ fuel, the first one first.
digits : ℕ → ℕ → Text
digits zero n = []
digits (suc fuel) n =
    let more = digits fuel (n / 10) ++ (b'0' + n % 10) ∷ [] in
    if ltb n 10 then (b'0' + n) ∷ [] else more

-- Twenty digits hold every u64.
unfoldable pub print_u64 : ℕ → Text
unfolding digits
print_u64 n = digits 20 n

-- An overflow at any digit is an error.
parse_from : ℕ → ℕ → Text → Option ℕ
parse_from limit acc [] = some acc
parse_from limit acc (c ∷ s) =
    let next = acc * 10 + (c - b'0') in
    if is_digit c && leb next limit then parse_from limit next s else none

unfoldable pub parse_digits : ℕ → Text → Option ℕ
unfolding parse_from is_digit
parse_digits limit [] = none
parse_digits limit (c ∷ s) = parse_from limit 0 (c ∷ s)

-- One leading plus is taken.
unfoldable pub parse_u64 : Text → Option ℕ
unfolding parse_digits
parse_u64 [] = none
parse_u64 (c ∷ s) = if c == b'+' then parse_digits u64_max s else parse_digits u64_max (c ∷ s)

-- `s.parse::<u8>()`
unfoldable pub parse_u8 : Text → Option ℕ
unfolding parse_digits
parse_u8 [] = none
parse_u8 (c ∷ s) = if c == b'+' then parse_digits 255 s else parse_digits 255 (c ∷ s)

abbrev positive : Option ℕ → Option ℤ
positive none = none
positive (some n) = some (pos n)

abbrev negative : Option ℕ → Option ℤ
negative none = none
negative (some zero) = some (pos 0)
negative (some (suc n)) = some (negsuc n)

-- One leading sign is taken; the least value is one further from zero than the greatest.
unfoldable pub parse_i64 : Text → Option ℤ
unfolding parse_digits
parse_i64 [] = none
parse_i64 (c ∷ s) =
    if c == b'+'
    then positive (parse_digits 0x7FFFFFFFFFFFFFFF s)
    else if c == b'-'
    then negative (parse_digits 0x8000000000000000 s)
    else positive (parse_digits 0x7FFFFFFFFFFFFFFF (c ∷ s))

abbrev continue_from : ℕ → Option ℕ → Text → Option ℕ
continue_from limit none s = none
continue_from limit (some a) s = parse_from limit a s

parse_from-append :
    (limit acc : ℕ) (s t : Text)
    → parse_from limit acc (s ++ t) ≡ continue_from limit (parse_from limit acc s) t
unfolding parse_from
parse_from-append limit acc [] t = refl
parse_from-append limit acc (c ∷ s) t =
    ground (arith, parse_from-append limit (acc * 10 + (c - b'0')) s t)

parse_from-one :
    (limit a d : ℕ)
    → d < 10
    → a * 10 + d ≤ limit
    → parse_from limit a ((b'0' + d) ∷ []) ≡ some (a * 10 + d)
unfolding parse_from is_digit
parse_from-one limit a d h k = ground arith

parse_from-digits :
    (limit fuel n : ℕ) → n < pow10 fuel → n ≤ limit → parse_from limit 0 (digits fuel n) ≡ some n
unfolding digits parse_from
parse_from-digits limit zero n h k = ground arith
parse_from-digits limit (suc fuel) n h k = elim (Bool-cases (ltb n 10)) [
  | inl small ↦ rw small (ground (arith, parse_from-one limit 0 n (ground arith) (ground arith)))
  | inr large ↦ rw large (
      ground (
        arith,
        parse_from-append limit 0 (digits fuel (n / 10)) ((b'0' + n % 10) ∷ []),
        parse_from-digits limit fuel (n / 10) (ground arith) (ground arith),
        parse_from-one limit (n / 10) (n % 10) (omega arith) (omega arith),
      ))
]

-- A list of digits that is not empty; no digit is a plus or a dash.
abbrev pub Digits : Text → Type 0
Digits s = All (λ c. (b'0' ≤ c) × (c ≤ b'9')) s

Digits-append : (s : Text) (d : ℕ) → Digits s → d < 10 → Digits (s ++ (b'0' + d) ∷ [])
Digits-append [] d h k = ((omega arith, omega arith), tt)
Digits-append (c ∷ s) d (p, h) k = (p, Digits-append s d h k)

Digits-digits : (fuel n : ℕ) → Digits (digits fuel n)
unfolding digits
Digits-digits zero n = tt
Digits-digits (suc fuel) n = elim (Bool-cases (ltb n 10)) [
  | inl small ↦ rw small ((omega arith, ground arith), tt)
  | inr large ↦ rw large (Digits-append _ (n % 10) (Digits-digits fuel (n / 10)) (omega arith))
]

pub Digits-print_u64 : (n : ℕ) → Digits (print_u64 n)
unfolding print_u64
Digits-print_u64 n = Digits-digits 20 n

concat-ne-nil : (s : Text) (d : ℕ) → s ++ d ∷ [] ≢ []
concat-ne-nil [] d h = cc
concat-ne-nil (c ∷ s) d h = cc

digits-ne-nil : (fuel n : ℕ) → digits (suc fuel) n ≢ []
unfolding digits
digits-ne-nil fuel n h = elim (Bool-cases (ltb n 10)) [
  | inl small ↦ ground arith
  | inr large ↦ concat-ne-nil _ _ (rw large at h)
]

parse_u64-Digits : (s : Text) → Digits s → s ≢ [] → parse_u64 s ≡ parse_from u64_max 0 s
unfolding parse_u64 parse_digits
parse_u64-Digits [] h p = absurd (p refl)
parse_u64-Digits (c ∷ s) h p = ground arith

-- Every u64 is read back from its decimal text.
pub parse-print_u64 : (n : ℕ) → n ≤ u64_max → parse_u64 (print_u64 n) ≡ some n
unfolding print_u64
parse-print_u64 n h =
    parse_u64-Digits (digits 20 n) (Digits-digits 20 n) (digits-ne-nil 19 n)
    ∙ parse_from-digits u64_max 20 n (omega arith) h

parse_u8-Digits : (s : Text) → Digits s → s ≢ [] → parse_u8 s ≡ parse_from 255 0 s
unfolding parse_u8 parse_digits
parse_u8-Digits [] h p = absurd (p refl)
parse_u8-Digits (c ∷ s) h p = ground arith

-- Every u8 is read back from its decimal text.
pub parse-print_u8 : (n : ℕ) → n ≤ 255 → parse_u8 (print_u64 n) ≡ some n
unfolding print_u64
parse-print_u8 n h =
    parse_u8-Digits (digits 20 n) (Digits-digits 20 n) (digits-ne-nil 19 n)
    ∙ parse_from-digits 255 20 n (omega arith) h

parse_from-le :
    (limit acc : ℕ) (s : Text) {n : ℕ} → acc ≤ limit → parse_from limit acc s ≡ some n → n ≤ limit
unfolding parse_from
parse_from-le limit acc [] h e = ground arith
parse_from-le limit acc (c ∷ s) {n} h e =
    ground (arith, parse_from-le limit (acc * 10 + (c - b'0')) s {n = n})

parse_digits-le : (limit : ℕ) (s : Text) {n : ℕ} → parse_digits limit s ≡ some n → n ≤ limit
unfolding parse_digits
parse_digits-le limit [] e = cc
parse_digits-le limit (c ∷ s) e = parse_from-le limit 0 (c ∷ s) (omega arith) e

-- What is read fits a u64.
parse_u64-le : (s : Text) {n : ℕ} → parse_u64 s ≡ some n → n ≤ u64_max
unfolding parse_u64
parse_u64-le [] e = cc
parse_u64-le (c ∷ s) e = elim (Bool-cases (c == b'+')) [
  | inl plus ↦ parse_digits-le u64_max s (rw plus at e)
  | inr other ↦ parse_digits-le u64_max (c ∷ s) (rw other at e)
]

-- The length of the text of a number below a hundred.
pub print_u64-length : (n : ℕ) → n ≤ 99 → (1 ≤ length (print_u64 n)) × (length (print_u64 n) ≤ 2)
unfolding print_u64 digits
print_u64-length n h = elim (Bool-cases (ltb n 10)) [
  | inl small ↦ ground arith
  | inr large ↦ ground arith
]
