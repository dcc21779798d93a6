-- ===== src/Auth/Database/Grants.antt =====
-- What a grant of the local database rests on.
use mathlib.Core.List.{Memᴰ}
use rustica.Common.{ℕ, ◌≡◌, ◌↔◌, true, false, Option, some, map, arith, if◌then◌else◌}
use rustica.Common.{All, first, first-select, select-eq-nil_iff, Option-cases, inl, inr}
use rustica.Common.Text.{Text, eq_iff}
use rustica.Common.Words.{add64, as_u64}
use rustica.Common.Run.{ok, err}
use rustica.Errors.{AuthorizationError}
use rustica.Auth.{SshAuthorization, SshAuthorizationRequestProperties}
use rustica.Auth.Database.{
  FingerprintPermission, Database, for_key, permission_rows, principal_rows, may_create,
  authorize_ssh_cert,
}

-- The row that a grant rests on, and what the grant takes from it.
pub record Granted (now : ℕ) (req : SshAuthorizationRequestProperties) (db : Database)
    (a : SshAuthorization) : Type 0 where
  pub row : FingerprintPermission
  pub listed : Memᴰ row db.permissions
  pub same_key : row.fingerprint ≡ req.fingerprint
  pub same_authority : row.authority ≡ req.authority
  pub allowed : may_create req.cert_type row ≡ true
  pub until : a.valid_before ≡ add64 now (as_u64 row.max_creation_time)
  pub from : a.valid_after ≡ req.valid_after
  pub authority : a.authority ≡ req.authority
  pub principals : a.principals ≡ (
      if row.principal_unrestricted
      then req.principals
      else map (λ r. r.principal) (principal_rows req db))

for_key_sound :
    (req : SshAuthorizationRequestProperties) (fp authority : Text)
    → for_key req fp authority ≡ true
    → (fp ≡ req.fingerprint) × (authority ≡ req.authority)
for_key_sound req fp authority h =
    (ground (arith, eq_iff fp req.fingerprint), ground (arith, eq_iff authority req.authority))

pub authorize_ssh_cert-Granted :
    (now : ℕ) (req : SshAuthorizationRequestProperties) (db : Database) (a : SshAuthorization)
    → authorize_ssh_cert (some now) req db ≡ ok a
    → Granted now req db a
unfolding authorize_ssh_cert
authorize_ssh_cert-Granted now req db a h = elim (Option-cases (first (permission_rows req db))) [
  | inl e ↦ ground arith
  | inr (row, e) ↦
      let (listed, passes) =
        first-select (λ r. for_key req r.fingerprint r.authority) db.permissions e in
      let (same_key, same_authority) = for_key_sound req row.fingerprint row.authority passes in
      record {
        row = row;
        listed = listed;
        same_key = same_key;
        same_authority = same_authority;
        allowed = ground arith;
        until = ground arith;
        from = ground arith;
        authority = ground arith;
        principals = ground arith;
      }
]

-- The local database answers "not authorized" exactly if no permission row has the fingerprint and
-- the authority of the request.
pub not_authorized_iff :
    (now : Option ℕ) (req : SshAuthorizationRequestProperties) (db : Database)
    → (authorize_ssh_cert now req db ≡ err AuthorizationError.not_authorized)
      ↔ All (λ r. for_key req r.fingerprint r.authority ≡ false) db.permissions
unfolding authorize_ssh_cert
not_authorized_iff now req db =
    let (to, from) =
      select-eq-nil_iff (λ r. for_key req r.fingerprint r.authority) db.permissions in
    (λ h. to (ground arith), λ k. let e = from k in rw e)
