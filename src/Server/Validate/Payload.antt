-- ===== src/Server/Validate/Payload.antt =====
-- What a tag binds: the text under the HMAC determines the time, and the key and the identities as
-- far as the dash between them can be found.
use rustica.Common.{ℕ, ◌≤◌, ◌≡◌, ◌≢◌, refl, ap, sym, List, [], ◌∷◌, ◌++◌, arith, All}
use rustica.Common.Text.{Text, commas}
use rustica.Common.Words.{u64_max}
use rustica.Common.Decimal.{Digits, Digits-print_u64, print_u64, parse_u64, parse-print_u64}
use rustica.Server.Validate.{payload}

-- No byte is a dash.
abbrev pub Dashless : Text → Type 0
Dashless s = All (λ c. c ≢ b'-') s

Digits-Dashless : (s : Text) → Digits s → Dashless s
Digits-Dashless [] h = tt
Digits-Dashless (c ∷ s) (p, h) = (omega arith, Digits-Dashless s h)

abbrev rest : Text → Text
rest [] = []
rest (c ∷ s) = s

abbrev head_or_dash : Text → ℕ
head_or_dash [] = b'-'
head_or_dash (c ∷ s) = c

-- The first dash splits a text in one way.
split_first :
    (s t x y : Text) → Dashless s → Dashless t → s ++ b'-' ∷ x ≡ t ++ b'-' ∷ y → (s ≡ t) × (x ≡ y)
split_first [] [] x y h k e = (refl, ap rest e)
split_first [] (d ∷ t) x y h (p, k) e = absurd (p (sym (ap head_or_dash e)))
split_first (c ∷ s) [] x y (p, h) k e = absurd (p (ap head_or_dash e))
split_first (c ∷ s) (d ∷ t) x y (p, h) (q, k) e =
    let (same, more) = split_first s t x y h k (ap rest e) in
    let head : c ≡ d = ap head_or_dash e in (cc (head, same), more)

not_Dashless : (s y : Text) → Dashless (s ++ b'-' ∷ y) → ⊥
not_Dashless [] y (p, _) = p refl
not_Dashless (c ∷ s) y (_, h) = not_Dashless s y h

-- So does the last one.
split_last :
    (s t x y : Text) → Dashless x → Dashless y → s ++ b'-' ∷ x ≡ t ++ b'-' ∷ y → (s ≡ t) × (x ≡ y)
split_last [] [] x y h k e = (refl, ap rest e)
split_last [] (d ∷ t) x y h k e = absurd (not_Dashless t y (rw (← ap rest e) h))
split_last (c ∷ s) [] x y h k e = absurd (not_Dashless s x (rw (ap rest e) k))
split_last (c ∷ s) (d ∷ t) x y h k e =
    let (same, more) = split_last s t x y h k (ap rest e) in
    let head : c ≡ d = ap head_or_dash e in (cc (head, same), more)

print_u64-injective : (t u : ℕ) → t ≤ u64_max → u ≤ u64_max → print_u64 t ≡ print_u64 u → t ≡ u
print_u64-injective t u h k e =
    ground (arith, parse-print_u64 t h, parse-print_u64 u k, ap parse_u64 e)

-- For times that fit a u64, two equal texts under the HMAC have the same time, and agree on the
-- rest, key and identities taken together.
payload_time :
    (t u : ℕ) (key key' : Text) (ids ids' : List Text)
    → t ≤ u64_max
    → u ≤ u64_max
    → payload t key ids ≡ payload u key' ids'
    → (t ≡ u) × (key ++ b'-' ∷ commas ids ≡ key' ++ b'-' ∷ commas ids')
unfolding payload
payload_time t u key key' ids ids' h k e =
    let (times, more) =
      split_first (print_u64 t) (print_u64 u) _ _ (Digits-Dashless _ (Digits-print_u64 t))
        (Digits-Dashless _ (Digits-print_u64 u)) e in
    (print_u64-injective t u h k times, more)

-- For times that fit a u64 and joined identities without a dash, two equal texts under the HMAC
-- have the same time, the same key and the same joined identities.
pub payload-injective :
    (t u : ℕ) (key key' : Text) (ids ids' : List Text)
    → t ≤ u64_max
    → u ≤ u64_max
    → Dashless (commas ids)
    → Dashless (commas ids')
    → payload t key ids ≡ payload u key' ids'
    → (t ≡ u) × (key ≡ key') × (commas ids ≡ commas ids')
payload-injective t u key key' ids ids' h k d d' e =
    let (times, more) = payload_time t u key key' ids ids' h k e in
    let (keys, names) = split_last key key' _ _ d d' more in (times, keys, names)
