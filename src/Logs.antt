-- ===== src/Logs.antt =====
-- rustica/src/logging/mod.rs: the events that the server sends to the logging thread, and calls
-- that send events on their way.
pub mod Sinks
pub mod Thread
use Prim.Native.Nat.{ℕ}
use rustica.Common.{◌≡◌, refl, ap, Bool, true, false, Option, none, some, List, [], ◌∷◌, ◌++◌}
use rustica.Common.Text.{Text}
use rustica.Common.Words.{ℤ}
use rustica.Common.Maps.{Map}
use rustica.Common.Run.{Run, ok, err, panic, ok-injective}

pub data Severity : Type 0 where
  info warning error : Severity

pub record CertificateIssued : Type 0 where
  pub fingerprint : Text
  pub signed_by : Text
  pub serial : ℕ
  pub authority : Text
  pub certificate_type : Text
  pub mtls_identities : List Text
  pub principals : List Text
  pub extensions : Map Text
  pub critical_options : Map Text
  pub valid_after : ℕ
  pub valid_before : ℕ
  pub new_access_certificate_issued : Bool

pub record X509CertificateIssued : Type 0 where
  pub authority : Text
  pub mtls_identities : List Text
  pub serial : ℤ
  pub extensions : Map Text
  pub valid_after : ℕ
  pub valid_before : ℕ

pub record KeyInfo : Type 0 where
  pub fingerprint : Text
  pub mtls_identities : List Text

pub record KeyRegistrationFailure : Type 0 where
  pub key_info : KeyInfo
  pub message : Text

pub record InternalMessage : Type 0 where
  pub severity : Severity
  pub message : Text

pub data Log : Type 0 where
  certificate_issued : CertificateIssued → Log
  x509_certificate_issued : X509CertificateIssued → Log
  key_registered : KeyInfo → Log
  key_registration_failure : KeyRegistrationFailure → Log
  internal_message : InternalMessage → Log
  heartbeat : Log

-- the macros `rustica_warning!` and `rustica_error!` of rustica/src/server.rs
abbrev pub rustica_warning : Text → Log
rustica_warning m = internal_message (record { severity = warning; message = m })

abbrev pub rustica_error : Text → Log
rustica_error m = internal_message (record { severity = error; message = m })

-- A call with the events that it has sent, the first one first.
abbrev pub Logged {ℓ κ} : Type ℓ → Type κ → Type (ℓ ⊔ κ)
Logged E A = Run E A × List Log

abbrev sent {ℓ κ} : {E : Type ℓ} {A : Type κ} → List Log → Logged E A → Logged E A
sent l m = (m.0, l ++ m.1)

infixl 5 ◌>>=◌ ◌>>◌
abbrev pub ◌>>=◌ {ℓ κ μ} :
    {E : Type ℓ} {A : Type κ} {B : Type μ} → Logged E A → (A → Logged E B) → Logged E B
(ok a, l) >>= f = sent l (f a)
(err e, l) >>= f = (err e, l)
(panic, l) >>= f = (panic, l)

abbrev pub ◌>>◌ {ℓ κ} : {E : Type ℓ} {B : Type κ} → Logged E (Unit {0}) → Logged E B → Logged E B
m >> n = m >>= λ _. n

abbrev pub pure {ℓ κ} : {E : Type ℓ} {A : Type κ} → A → Logged E A
pure a = (ok a, [])

abbrev pub lift {ℓ κ} : {E : Type ℓ} {A : Type κ} → Run E A → Logged E A
lift r = (r, [])

abbrev pub fail {ℓ κ} : {E : Type ℓ} {A : Type κ} → E → Log → Logged E A
fail e event = (err e, event ∷ [])

-- `let _ = log_sender.send(event);`
abbrev pub send {ℓ} : {E : Type ℓ} → Log → Logged E (Unit {0})
send event = (ok tt, event ∷ [])

-- `if !passed { rustica_warning!(…); return Err(e); }`
abbrev pub check {ℓ} : {E : Type ℓ} → Bool → E → Log → Logged E (Unit {0})
check true e event = (ok tt, [])
check false e event = (err e, event ∷ [])

-- `option.map_err(|_| { rustica_warning!(…); e })?`
abbrev pub ok_or_warn {ℓ κ} : {E : Type ℓ} {A : Type κ} → E → Log → Option A → Logged E A
ok_or_warn e event none = (err e, event ∷ [])
ok_or_warn e event (some a) = (ok a, [])

-- A bind that succeeded: what follows from its first part and the rest, both having succeeded.
pub after {ℓ κ μ ν} :
    {E : Type ℓ} {A : Type κ} {B : Type μ} {Goal : Type ν} (call : Logged E A)
    (next : A → Logged E B) {b : B}
    → (call >>= next).0 ≡ ok b
    → ((a : A) → call.0 ≡ ok a → (next a).0 ≡ ok b → Goal)
    → Goal
after (ok a, l) next h goal = goal a refl h
after (err e, l) next h goal = cc
after (panic, l) next h goal = cc

-- Inversion of a check that was passed.
pub check-eq-ok {ℓ} :
    {E : Type ℓ} (b : Bool) (e : E) (event : Log) → (check b e event).0 ≡ ok tt → b ≡ true
check-eq-ok true e event h = refl
check-eq-ok false e event h = cc

-- Inversion of `ok_or_warn`.
pub ok_or_warn-eq-ok {ℓ κ} :
    {E : Type ℓ} {A : Type κ} (e : E) (event : Log) (o : Option A) {a : A}
    → (ok_or_warn e event o).0 ≡ ok a
    → o ≡ some a
ok_or_warn-eq-ok e event none h = cc
ok_or_warn-eq-ok e event (some a) h = ap some (ok-injective h)
