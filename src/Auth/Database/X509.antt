-- ===== src/Auth/Database/X509.antt =====
-- What an X509 grant of the local database rests on.
use mathlib.Core.List.{Memᴰ}
use rustica.Common.{ℕ, ◌+◌, ◌≤◌, ◌≡◌, ◌≢◌, true, false, ◌&&◌, some, arith}
use rustica.Common.{first, first-select, Option-cases, Bool-cases, ◌⊎◌, inl, inr}
use rustica.Common.Text.{Text, eq, eq_iff}
use rustica.Common.Words.{u64_max}
use rustica.Common.Decimal.{print_u64}
use rustica.Common.Run.{ok, Run-cases}
use rustica.Keys.{TouchPolicy, PivAttestation, piv, is_never}
use rustica.Auth.{X509Authorization, X509AuthorizationRequestProperties}
use rustica.Auth.Database.{X509Grant, Database, piv_of, grant_rows, authorize_attested_x509_cert}

-- The attestation, the identity and the row that a grant rests on.
pub record X509Granted (now : ℕ) (req : X509AuthorizationRequestProperties) (db : Database)
    (a : X509Authorization) : Type 0 where
  pub att : PivAttestation
  pub user : Text
  pub row : X509Grant
  pub attested : req.key.attestation ≡ some (piv att)
  pub identified : first req.mtls_identities ≡ some user
  pub listed : Memᴰ row db.x509_authorizations
  pub same_owner : row.owner ≡ user
  pub same_authority : row.authority ≡ req.authority
  pub same_serial : row.hsm_serial ≡ print_u64 att.serial
  pub touch : (row.require_touch ≡ false) ⊎ (att.touch_policy ≢ TouchPolicy.never)
  pub named : a.common_name ≡ user
  pub from : a.valid_after ≡ now
  pub until : a.valid_before ≡ now + 43200
  pub authority : a.authority ≡ req.authority

piv_of-cases :
    (req : X509AuthorizationRequestProperties) (att : PivAttestation)
    → piv_of req.key.attestation ≡ ok att
    → req.key.attestation ≡ some (piv att)
piv_of-cases req att h = ground arith

is_never-eq : (t : TouchPolicy) → is_never t ≡ false → t ≢ TouchPolicy.never
is_never-eq t h e = ground arith

grant_row_sound :
    (row : X509Grant) (owner authority serial : Text)
    → (eq row.owner owner && (eq row.authority authority && eq row.hsm_serial serial)) ≡ true
    → (row.owner ≡ owner) × (row.authority ≡ authority) × (row.hsm_serial ≡ serial)
grant_row_sound row owner authority serial h = (
  ground (arith, eq_iff row.owner owner),
  ground (arith, eq_iff row.authority authority),
  ground (arith, eq_iff row.hsm_serial serial),
)

-- If the local database grants an X509 certificate at a time to which twelve hours can be added in
-- a u64, then the key has a PIV attestation, a row names its serial number with the first identity
-- and the authority, the key is touched if the row requires it, and the grant names the identity
-- and lasts twelve hours from now.
pub authorize_attested_x509_cert-X509Granted :
    (now : ℕ) (req : X509AuthorizationRequestProperties) (db : Database) (a : X509Authorization)
    → now + 43200 ≤ u64_max
    → authorize_attested_x509_cert (some now) req db ≡ ok a
    → X509Granted now req db a
unfolding authorize_attested_x509_cert
authorize_attested_x509_cert-X509Granted now req db a fits h =
    elim (Run-cases (piv_of req.key.attestation)) [
      | inr e ↦ ground arith
      | inl (att, attested) ↦ elim (Option-cases (first req.mtls_identities)) [
        | inl e ↦ ground arith
        | inr (user, identified) ↦
            elim (Option-cases (first (grant_rows user req.authority (print_u64 att.serial) db))) [
              | inl e ↦ ground arith
              | inr (row, e) ↦
                  let (listed, passes) = first-select _ db.x509_authorizations e in
                  let (owner, authority, serial) =
                    grant_row_sound row user req.authority (print_u64 att.serial) passes in
                  record {
                    att = att;
                    user = user;
                    row = row;
                    attested = piv_of-cases req att attested;
                    identified = identified;
                    listed = listed;
                    same_owner = owner;
                    same_authority = authority;
                    same_serial = serial;
                    touch = elim (Bool-cases row.require_touch) [
                      | inl t ↦ inr (is_never-eq att.touch_policy (ground arith))
                      | inr t ↦ inl t
                    ];
                    named = ground arith;
                    from = ground arith;
                    until = ground arith;
                    authority = ground arith;
                  }
            ]
      ]
    ]
