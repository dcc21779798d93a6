-- ===== src/Server/Peer.antt =====
-- rustica/src/server.rs: what the server reads from the client's mTLS certificate.
use rustica.Common.{ℕ, List, [], ◌∷◌, ◌++◌}
use rustica.Common.{if◌then◌else◌}
use rustica.Common.Text.{Text, eq}
use rustica.Common.Run.{Run, ok, ◌>>=◌, ok_or}
use rustica.Errors.{RusticaServerError, not_authorized}
use rustica.Keys.{Bytes}
use rustica.Foreign.{Foreign}
use rustica.Server.{MtlsCertificateInfo}

-- 2.5.4.3
abbrev common_name_oid : List ℕ
common_name_oid = 2 ∷ 5 ∷ 4 ∷ 3 ∷ []

module _ (f : Foreign) where
  open f use {Attribute, attr_type, attr_str, parse_x509_certificate, not_after, subject_rdns}

  -- the loop over the attributes of one name, which pushes onto `identities`
  read_attributes : List Text → List Attribute → Run RusticaServerError (List Text)
  read_attributes found [] = ok found
  read_attributes found (attr ∷ rest) =
      if eq (attr_type attr) common_name_oid
      then (ok_or not_authorized (attr_str attr) >>= λ s. read_attributes (found ++ s ∷ []) rest)
      else read_attributes found rest

  read_rdns : List Text → List (List Attribute) → Run RusticaServerError (List Text)
  read_rdns found [] = ok found
  read_rdns found (rdn ∷ rest) = read_attributes found rdn >>= λ found'. read_rdns found' rest

  unfoldable pub extract_certificate_information :
      Bytes → Run RusticaServerError MtlsCertificateInfo
  unfolding read_rdns read_attributes
  extract_certificate_information peer = do
    cert ← ok_or not_authorized (parse_x509_certificate peer)
    identities ← read_rdns [] (subject_rdns cert)
    ok (record { identities = identities; expiry_timestamp = not_after cert })
