-- ===== src/Keys.antt =====
-- rustica/src/key.rs: keys, their attestations, and the policies of a Yubikey slot.
use Prim.Native.Nat.{ℕ}
use rustica.Common.{Bool, true, false, Option, none, some, ◌==◌, if◌then◌else◌}
use rustica.Common.Text.{Text, text}
use rustica.Common.Words.{ℤ}

-- `Vec<u8>`
abbrev pub Bytes : Type 0
Bytes = Text

pub data TouchPolicy : Type 0 where
  never always cached : TouchPolicy

pub data PinPolicy : Type 0 where
  never once always : PinPolicy

-- `TryFrom<u8>`
unfoldable pub touch_policy_of : ℕ → Option TouchPolicy
touch_policy_of v =
    if v == 1
    then some TouchPolicy.never
    else if v == 2
    then some TouchPolicy.always
    else if v == 3
    then some cached
    else none

unfoldable pub pin_policy_of : ℕ → Option PinPolicy
pin_policy_of v =
    if v == 1
    then some PinPolicy.never
    else if v == 2
    then some once
    else if v == 3
    then some PinPolicy.always
    else none

-- the derived `PartialEq`, against `TouchPolicy::Never`
abbrev pub is_never : TouchPolicy → Bool
is_never TouchPolicy.never = true
is_never TouchPolicy.always = false
is_never cached = false

-- `Display`
abbrev pub show_touch : TouchPolicy → Text
show_touch TouchPolicy.never = text "Never"
show_touch TouchPolicy.always = text "Always"
show_touch cached = text "Cached"

abbrev pub show_pin : PinPolicy → Text
show_pin PinPolicy.never = text "Never"
show_pin once = text "Once"
show_pin PinPolicy.always = text "Always"

pub record PivAttestation : Type 0 where
  pub pin_policy : PinPolicy
  pub touch_policy : TouchPolicy
  pub serial : ℕ
  pub firmware : Text
  pub certificate : Bytes
  pub intermediate : Bytes

pub record U2fAttestation : Type 0 where
  pub aaguid : Text
  pub firmware : Text
  pub auth_data : Bytes
  pub auth_data_signature : Bytes
  pub intermediate : Bytes
  pub challenge : Bytes
  pub application : Bytes
  pub alg : ℤ

pub data KeyAttestation : Type 0 where
  piv : PivAttestation → KeyAttestation
  u2f : U2fAttestation → KeyAttestation

pub record Key : Type 0 where
  pub fingerprint : Text
  pub attestation : Option KeyAttestation
