-- ===== src/Auth/External/Ends.antt =====
-- What an X509 authorization of the author service takes from its answer.
use rustica.Common.{ℕ, ◌*◌, ◌≡◌, inl, inr, refl, Option, none, some, List, first, arith}
use rustica.Common.{Option-cases}
use rustica.Common.Text.{Text, text}
use rustica.Common.Words.{add64}
use rustica.Common.Decimal.{parse_u64}
use rustica.Common.Maps.{Map, lookup}
use rustica.Common.Run.{ok, >>=-eq-ok, ok-injective}
use rustica.Foreign.{CustomExtension}
use rustica.Auth.{X509Authorization}
use rustica.Auth.External.X509.{both, validity, serial_of, x509_approved}

-- Where the ends of a validity come from.
pub data Ends (now : Option ℕ) (before after : Option Text) : ℕ → ℕ → Type 0 where
  given :
      (b a : Text) (vb va : ℕ)
      → before ≡ some b
      → after ≡ some a
      → parse_u64 b ≡ some vb
      → parse_u64 a ≡ some va
      → Ends now before after vb va
  twelve_hours :
      (t : ℕ)
      → before ≡ none
      → after ≡ none
      → now ≡ some t
      → Ends now before after (add64 t (3600 * 12)) t

both-eq-ok :
    (b a : Option ℕ) {ends : ℕ × ℕ} → both b a ≡ ok ends → (b ≡ some ends.0) × (a ≡ some ends.1)
both-eq-ok (some b) (some a) h = ground arith
both-eq-ok (some b) none h = cc
both-eq-ok none a h = cc

validity-Ends :
    (now : Option ℕ) (before after : Option Text) {ends : ℕ × ℕ}
    → validity now before after ≡ ok ends
    → Ends now before after ends.0 ends.1
unfolding validity
validity-Ends now (some b) (some a) {ends} h =
    let (is_b, is_a) = both-eq-ok (parse_u64 b) (parse_u64 a) h in
    given b a ends.0 ends.1 refl refl is_b is_a
validity-Ends (some t) none none h = rw (← ok-injective h) (twelve_hours t refl refl refl)
validity-Ends none none none h = cc
validity-Ends now (some b) none h = cc
validity-Ends now none (some a) h = cc

-- If an answer of the author service is read as an X509 authorization, then its common name is the
-- first identity, its authority is that of the answer, and the ends of its validity are both
-- numbers of the answer or, where the answer gives neither, now and twelve hours from now (added in
-- u64).
x509_approved-Ends :
    (oid_extension : Text → Text → Option CustomExtension) (now : Option ℕ) (identities : List Text)
    (response : Map Text) (a : X509Authorization)
    → x509_approved oid_extension now identities response ≡ ok a
    → Ends now
        (lookup (text "valid_before") response)
        (lookup (text "valid_after") response)
        a.valid_before
        a.valid_after
      × (first identities ≡ some a.common_name)
      × (lookup (text "authority") response ≡ some a.authority)
unfolding x509_approved
x509_approved-Ends oid_extension now identities response a h =
    elim (Option-cases (first identities)) [
      | inl e ↦ cc (rw e at h)
      | inr (user, e) ↦ elim (Option-cases (lookup (text "authority") response)) [
        | inl k ↦ ground (arith, e, k)
        | inr (authority, k) ↦
            let (ends, is_valid, h1) =
              >>=-eq-ok
                (validity now (lookup (text "valid_before") response)
                  (lookup (text "valid_after") response))
                _ (rw e at h) in
            let (serial, is_serial, h2) =
              >>=-eq-ok (serial_of (lookup (text "serial") response)) _ h1 in
            let made = ok-injective (rw k at h2) in
            let v = validity-Ends now _ _ is_valid in rw (← made) (v, e, k)
      ]
    ]
