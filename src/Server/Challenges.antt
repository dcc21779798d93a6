-- ===== src/Server/Challenges.antt =====
-- rustica/src/server.rs: the handler `challenge`.
pub mod RoundTrip
use rustica.Common.{ℕ, Bool, not, Option, [], ◌++◌, first, if◌then◌else◌, leb, length}
use rustica.Common.Text.{Text, text, commas}
use rustica.Common.Decimal.{print_u64}
use rustica.Common.Run.{Run, ok, err, panic, ok_or, unwrap}
use rustica.Errors.{RusticaServerError}
use rustica.Logs.{Logged, rustica_warning, ◌>>=◌, ◌>>◌, pure, lift, check}
use rustica.Foreign.{Foreign, Draft, host}
use rustica.Server.{RusticaServer, Status, denied, Connection}
use rustica.Server.Peer.{extract_certificate_information}
use rustica.Server.Validate.{payload}

pub record ChallengeResponse : Type 0 where
  pub time : Text
  pub challenge : Text
  pub no_signature_required : Bool

-- an error that becomes `Status::permission_denied("")`
abbrev pub or_denied : {A : Type 0} → Run RusticaServerError A → Run Status A
or_denied (ok a) = ok a
or_denied (err e) = err denied
or_denied panic = panic

module _ (f : Foreign) where
  open f use {
    PublicKey, public_key_of_string, pubkey, certificate_to_string, builder_takes, sign_draft,
    hmac_sign, hex_encode,
  }

  -- The certificate that carries the tag in its key id.
  unfoldable pub challenge_draft : RusticaServer f → PublicKey → Text → Draft PublicKey
  challenge_draft srv ssh_pubkey tag = record {
    key = ssh_pubkey;
    cert_type = host;
    ca_key = pubkey srv.challenge_key;
    serial = 0xFEFEFEFEFEFEFEFE;
    key_id = tag;
    principals = [];
    valid_after = 0;
    valid_before = 0;
    critical_options = [];
    extensions = [];
  }

  unfoldable pub challenge :
      RusticaServer f → Connection → Text → Option ℕ → Logged Status ChallengeResponse
  challenge srv conn key now = do
    _remote_addr ← lift (ok_or denied conn.remote_addr)
    certs ← lift (ok_or denied conn.peer_certs)
    peer ← lift (ok_or denied (first certs))
    info ← lift (or_denied (extract_certificate_information f peer))
    let from = commas info.identities
    check (leb (length key) 1024) denied (
        rustica_warning (
          text "The pubkey size is too large ("
          ++ print_u64 (length key)
          ++ text " chars) for a challenge request from ["
          ++ from
          ++ text "]"))
    ssh_pubkey ← lift (ok_or denied (public_key_of_string key))
    time ← lift (unwrap now)
    let tag = hmac_sign srv.hmac_key (payload time key info.identities)
    let draft = challenge_draft srv ssh_pubkey (hex_encode tag)
    cert ← lift (
        if builder_takes ssh_pubkey host (pubkey srv.challenge_key)
        then ok_or denied (sign_draft srv.challenge_key draft)
        else err denied)
    pure (record {
      time = print_u64 time;
      challenge = certificate_to_string cert;
      no_signature_required = not srv.require_rustica_proof;
    })
