-- ===== src/Auth/Database/Registry.antt =====
-- What a registration leaves in the local database.
use rustica.Common.{ℕ, ◌≡◌, refl, ap, ◌∙◌, Option, none, some, List, [], ◌∷◌, ◌++◌, map, arith}
use rustica.Common.{Option-cases, inl, inr}
use rustica.Common.Text.{Text, commas}
use rustica.Common.Decimal.{print_u64}
use rustica.Common.Run.{ok, ok-injective}
use rustica.Keys.{Bytes, KeyAttestation, piv, u2f, show_touch, show_pin}
use rustica.Auth.{
  SshAuthorizationRequestProperties, X509AuthorizationRequestProperties,
  RegisterKeyRequestProperties, AllowedSigner,
}
use rustica.Auth.Database.{
  RegisteredKey, Database, insert_row, attested, blank, registered_key, register_key,
  get_allowed_signers, authorize_ssh_cert, authorize_attested_x509_cert,
}

module _ (hex : Bytes → Text) where
  -- The row keeps what was attested of the key.
  abbrev pub Attested : RegisteredKey → Option KeyAttestation → Type 0
  Attested row none = (row.hsm_serial ≡ none) × (row.attestation_intermediate ≡ none)
  Attested row (some (piv a)) =
      (row.hsm_serial ≡ some (print_u64 a.serial))
      × (row.firmware ≡ some a.firmware)
      × (row.touch_policy ≡ some (show_touch a.touch_policy))
      × (row.pin_policy ≡ some (show_pin a.pin_policy))
      × (row.attestation_certificate ≡ some (hex a.certificate))
      × (row.attestation_intermediate ≡ some (hex a.intermediate))
      × (row.auth_data ≡ none)
  Attested row (some (u2f a)) =
      (row.hsm_serial ≡ none)
      × (row.firmware ≡ some a.firmware)
      × (row.attestation_intermediate ≡ some (hex a.intermediate))
      × (row.auth_data ≡ some (hex a.auth_data))
      × (row.auth_data_signature ≡ some (hex a.auth_data_signature))
      × (row.aaguid ≡ some (hex a.aaguid))
      × (row.challenge ≡ some (hex a.challenge))
      × (row.alg ≡ some a.alg)
      × (row.application ≡ some (hex a.application))

  -- One row more, of the key of the request; the key is listed last among the allowed signers, for the
  -- identities of the client; and nothing that the database grants has changed.
  pub record Registered (req : RegisterKeyRequestProperties) (db : Database)
      (signers : List AllowedSigner) (db' : Database) : Type 0 where
    pub row : RegisteredKey
    pub added : db'.registered_keys ≡ db.registered_keys ++ row ∷ []
    pub own_key : row.fingerprint ≡ req.fingerprint
    pub own_attestation : Attested row req.attestation
    pub listed :
        get_allowed_signers db'
        ≡ ok (signers ++ record { identity = commas req.mtls_identities; pubkey = req.pubkey } ∷ [])
    pub same_grants :
        (now : Option ℕ) (asked : SshAuthorizationRequestProperties)
        → authorize_ssh_cert now asked db' ≡ authorize_ssh_cert now asked db
    pub same_x509_grants :
        (now : Option ℕ) (asked : X509AuthorizationRequestProperties)
        → authorize_attested_x509_cert now asked db' ≡ authorize_attested_x509_cert now asked db

  attested-Attested :
      (req : RegisterKeyRequestProperties) (a : Option KeyAttestation)
      → (Attested (attested hex (blank hex req) a) a)
        × ((attested hex (blank hex req) a).fingerprint ≡ req.fingerprint)
        × ((attested hex (blank hex req) a).owner ≡ commas req.mtls_identities)
        × ((attested hex (blank hex req) a).pubkey ≡ req.pubkey)
  unfolding attested
  attested-Attested req none = ((refl, refl), refl, refl, refl)
  attested-Attested req (some (piv a)) =
      ((refl, refl, refl, refl, refl, refl, refl), refl, refl, refl)
  attested-Attested req (some (u2f a)) =
      ((refl, refl, refl, refl, refl, refl, refl, refl, refl), refl, refl, refl)

  insert_row-eq-some :
      (row : RegisteredKey) (rows rows' : List RegisteredKey)
      → insert_row row rows ≡ some rows'
      → rows' ≡ rows ++ row ∷ []
  unfolding insert_row
  insert_row-eq-some row rows rows' h = ground arith

  map-concat :
      {A B : Type 0} (f : A → B) (xs : List A) (x : A) → map f (xs ++ x ∷ []) ≡ map f xs ++ f x ∷ []
  map-concat f [] x = refl
  map-concat f (y ∷ xs) x = ap (λ l. f y ∷ l) (map-concat f xs x)

  get_allowed_signers-concat :
      (db : Database) (row : RegisteredKey) (signers : List AllowedSigner) (identity pubkey : Text)
      → row.owner ≡ identity
      → row.pubkey ≡ pubkey
      → get_allowed_signers db ≡ ok signers
      → get_allowed_signers (record db { registered_keys = db.registered_keys ++ row ∷ [] })
        ≡ ok (signers ++ record { identity = identity; pubkey = pubkey } ∷ [])
  unfolding get_allowed_signers
  get_allowed_signers-concat db row signers identity pubkey same_owner same_pubkey h =
      rw (← same_owner, ← same_pubkey)
        (ap ok (
          map-concat (λ (r : RegisteredKey). record { identity = r.owner; pubkey = r.pubkey })
            db.registered_keys row
          ∙ ap (λ l. l ++ record { identity = row.owner; pubkey = row.pubkey } ∷ [])
              (ok-injective h)))

  -- If register_key of the local database succeeds, then one row is added, with the fingerprint of
  -- the request and every fact of its attestation; get_allowed_signers lists what it listed before
  -- and then the key of the request for the joined identities of the client; and every answer of
  -- authorize_ssh_cert and of authorize_attested_x509_cert stays the same.
  pub register_key-Registered :
      (refusal : Text) (req : RegisterKeyRequestProperties) (db : Database)
      (signers : List AllowedSigner)
      → get_allowed_signers db ≡ ok signers
      → (register_key hex refusal req db).0 ≡ ok tt
      → Registered req db signers (register_key hex refusal req db).1
  unfolding register_key registered_key authorize_ssh_cert authorize_attested_x509_cert
  register_key-Registered refusal req db signers before h =
      let row = attested hex (blank hex req) req.attestation in
      let (facts, same_key, same_owner, same_pubkey) = attested-Attested req req.attestation in
      elim (Option-cases (insert_row row db.registered_keys)) [
        | inl e ↦ cc (rw (register_key, registered_key, e) at h)
        | inr (rows, e) ↦
            rw (register_key, registered_key, e, insert_row-eq-some row db.registered_keys rows e)
              (record {
                row = row;
                added = refl;
                own_key = same_key;
                own_attestation = facts;
                listed =
                    get_allowed_signers-concat db row signers _ _ same_owner same_pubkey before;
                same_grants = λ now asked. refl;
                same_x509_grants = λ now asked. refl;
              })
      ]
