-- ===== src/Common/Run.antt =====
-- What a Rust call comes back with: a value, an error, or a panic that unwinds through the caller.
-- `unwrap`, `expect` and an index into a map that lacks the key are the panics.
use mathlib.Core.Path.{◌≡◌, refl, ap}
use mathlib.Core.Logic.{◌⊎◌, inl, inr}
use mathlib.Core.Bool.{Bool, true, false}
use mathlib.Core.Option.{Option, none, some}
use rustica.Common.Tests.{if◌then◌else◌}

pub data Run {ℓ κ} (E : Type ℓ) (A : Type κ) : Type (ℓ ⊔ κ) where
  ok : A → Run E A
  err : E → Run E A
  panic : Run E A

infixl 5 ◌>>=◌
abbrev pub ◌>>=◌ {ℓ κ μ} :
    {E : Type ℓ} {A : Type κ} {B : Type μ} → Run E A → (A → Run E B) → Run E B
panic >>= next = panic
err e >>= next = err e
ok a >>= next = next a

infixl 5 ◌>>◌
abbrev pub ◌>>◌ {ℓ κ} : {E : Type ℓ} {B : Type κ} → Run E (Unit {0}) → Run E B → Run E B
first >> next = first >>= λ _. next

-- `option.ok_or(e)?`, and `result.map_err(|_| e)?` where the error is dropped
abbrev pub ok_or {ℓ κ} : {E : Type ℓ} {A : Type κ} → E → Option A → Run E A
ok_or e none = err e
ok_or e (some a) = ok a

-- `map[key]`, `option.unwrap()`
abbrev pub unwrap {ℓ κ} : {E : Type ℓ} {A : Type κ} → Option A → Run E A
unwrap none = panic
unwrap (some a) = ok a

abbrev value_or {ℓ κ} : {E : Type ℓ} {A : Type κ} → A → Run E A → A
value_or d (ok a) = a
value_or d (err e) = d
value_or d panic = d

pub ok-injective {ℓ κ} :
    {E : Type ℓ} {A : Type κ} {a b : A} → ◌≡◌ {A = Run E A} (ok a) (ok b) → a ≡ b
ok-injective {a} h = ap (value_or a) h

-- Inversion of a successful bind.
pub >>=-eq-ok {ℓ κ μ} :
    {E : Type ℓ} {A : Type κ} {B : Type μ} (call : Run E A) (next : A → Run E B) {b : B}
    → (call >>= next) ≡ ok b
    → (a : A) × (call ≡ ok a) × (next a ≡ ok b)
>>=-eq-ok panic next h = cc
>>=-eq-ok (err e) next h = cc
>>=-eq-ok (ok a) next h = (a, refl, h)

-- To split on a computed result and keep the equation.
pub Run-cases {ℓ κ} :
    {E : Type ℓ} {A : Type κ} (r : Run E A)
    → ((a : A) × (r ≡ ok a)) ⊎ ((r ≡ panic) ⊎ ((e : E) × (r ≡ err e)))
Run-cases (ok a) = inl (a, refl)
Run-cases (err e) = inr (inr (e, refl))
Run-cases panic = inr (inl refl)

-- Inversion of `ok_or`.
pub ok_or-eq-ok {ℓ κ} :
    {E : Type ℓ} {A : Type κ} (e : E) (o : Option A) {a : A} → ok_or e o ≡ ok a → o ≡ some a
ok_or-eq-ok e none h = cc
ok_or-eq-ok e (some a) h = ap some (ok-injective h)

-- Inversion of `if b { … } else { return Err(e) }`.
pub guard-eq-ok {ℓ} :
    {E : Type ℓ} (b : Bool) (e : E) {u : Unit {0}}
    → ◌≡◌ {A = Run E (Unit {0})} (if b then ok tt else err e) (ok u)
    → b ≡ true
guard-eq-ok true e h = refl
guard-eq-ok false e h = cc
