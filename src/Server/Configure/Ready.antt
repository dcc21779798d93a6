-- ===== src/Server/Configure/Ready.antt =====
-- What holds of a server that starts.
use rustica.Common.{
  ℕ, ◌≡◌, refl, ap, ◌∙◌, ◌==◌, Option, none, some, inl, inr, Option-cases, ltb, if◌then◌else◌,
  arith,
}
use rustica.Common.Text.{Text}
use rustica.Common.Maps.{lookup}
use rustica.Common.Run.{Run, ok, err, panic, ok_or, unwrap, ok_or-eq-ok, >>=-eq-ok, ok-injective}
use rustica.Keys.{Bytes}
use rustica.Foreign.{Foreign, CertType, user}
use rustica.Auth.Mechanism.{
  AuthorizationConfiguration, AuthorizationMechanism, local, external, mechanism_of,
}
use rustica.Signing.{
  SigningError, Signer, SigningMechanism, get_signer_public_key, get_client_certificate_authority,
  signer_of,
}
use rustica.Signing.Setup.{convert_to_signing_mechanism, hash_of}
use rustica.Signing.Setup.Distinct.{convert_to_signing_mechanism-distinct}
use rustica.Server.Configure.{
  ConfigurationError, file_error, parsing_error, validate_only, invalid_listen_address,
  authorizer_error, or_signing, Configuration, RusticaSettings, Invocation, has_ssh_keys, client_ca,
  configure,
}

-- One backend is configured, and it is this one.
abbrev pub IsOnly : AuthorizationConfiguration → AuthorizationMechanism → Type 0
IsOnly c (local database) = (c.database ≡ some database) × (c.external ≡ none)
IsOnly c (external server) = (c.database ≡ none) × (c.external ≡ some server)

only_lem :
    (c : AuthorizationConfiguration) (m n : AuthorizationMechanism)
    → IsOnly c m
    → ◌≡◌ {A = Option AuthorizationMechanism} (some m) (some n)
    → IsOnly c n
only_lem c m n only h = let same : m ≡ n = cc h in rw (← same) only

mechanism_of-IsOnly :
    (c : AuthorizationConfiguration) (m : AuthorizationMechanism)
    → mechanism_of c ≡ some m
    → IsOnly c m
unfolding mechanism_of
mechanism_of-IsOnly c m h = elim (Option-cases c.database) [
  | inl a ↦ elim (Option-cases c.external) [
    | inl b ↦ cc (rw (a, b, mechanism_of) at h)
    | inr (server, b) ↦ only_lem c (external server) m (a, b) (rw (a, mechanism_of, b) at h)
  ]
  | inr (database, a) ↦ elim (Option-cases c.external) [
    | inl b ↦ only_lem c (local database) m (a, b) (rw (a, mechanism_of, b) at h)
    | inr (server, b) ↦ cc (rw (a, mechanism_of, b) at h)
  ]
]

or_signing-eq-ok : {A : Type 0} (r : Run SigningError A) {a : A} → or_signing r ≡ ok a → r ≡ ok a
or_signing-eq-ok (ok a) h = ap ok (ok-injective h)
or_signing-eq-ok (err e) h = cc
or_signing-eq-ok panic h = cc

module _ (f : Foreign) (Logging : Type 0) where
  open f use {PublicKey, CaCertificate, serialize_pem}

  pub record IsReady (i : Invocation f Logging) (s : RusticaSettings f Logging) : Type 0 where
    pub file : Bytes
    pub config : Configuration f Logging
    -- the configuration is what toml reads from the file
    pub read : i.file ≡ some file
    pub parsed : i.toml file ≡ some config
    pub listens : i.parse_address config.listen_address ≡ some s.address
    pub same_client_authority : s.server.client_authority ≡ config.client_authority
    pub not_validating : i.validate ≡ 0
    pub one_authorizer : IsOnly config.authorization s.authorizer
    -- the default authority signs certificates of users
    pub default_signer : Signer f
    pub default_key : PublicKey
    pub default_found :
        lookup s.server.signer.default_authority s.server.signer.authorities ≡ some default_signer
    pub default_signs : default_signer.get_signer_public_key user ≡ some default_key
    -- the authority of the clients is one of the authorities, and its certificate is the one served
    pub client_signer : Signer f
    pub client_authority : CaCertificate
    pub client_found :
        lookup s.server.client_authority.authority s.server.signer.authorities ≡ some client_signer
    pub client_signs : client_signer.get_client_certificate_authority ≡ some client_authority
    pub client_served : serialize_pem client_authority ≡ some s.client_ca_cert
    -- no two roles share a key
    pub no_shared_key :
        (a b : Text) (x y : Signer f) (k l : CertType) (hash : Text)
        → lookup a s.server.signer.authorities ≡ some x
        → lookup b s.server.signer.authorities ≡ some y
        → hash_of f x k ≡ some hash
        → hash_of f y l ≡ some hash
        → (a ≡ b) × (k ≡ l)

  has_ssh_keys_sound :
      (m : SigningMechanism f)
      → has_ssh_keys f Logging m ≡ ok tt
      → (s : Signer f) × (key : PublicKey) × (lookup m.default_authority m.authorities ≡ some s)
        × (s.get_signer_public_key user ≡ some key)
  unfolding has_ssh_keys get_signer_public_key
  has_ssh_keys_sound m h = elim (Option-cases (lookup m.default_authority m.authorities)) [
    | inl e ↦ cc (rw (has_ssh_keys, get_signer_public_key, e) at h)
    | inr (s, e) ↦ elim (Option-cases (s.get_signer_public_key user)) [
      | inl p ↦ cc (rw (has_ssh_keys, get_signer_public_key, e, p) at h)
      | inr (key, p) ↦ (s, key, e, p)
    ]
  ]

  client_ca_sound :
      (m : SigningMechanism f) (authority pem_error : Text) {pem : Text}
      → client_ca f Logging m authority pem_error ≡ ok pem
      → (s : Signer f) × (ca : CaCertificate) × (lookup authority m.authorities ≡ some s)
        × (s.get_client_certificate_authority ≡ some ca)
        × (serialize_pem ca ≡ some pem)
  unfolding client_ca get_client_certificate_authority
  client_ca_sound m authority pem_error h =
      let (found, at, h1) =
        >>=-eq-ok (or_signing (get_client_certificate_authority f m authority)) _ h in
      let (ca, is_some, h2) = >>=-eq-ok (ok_or _ found) _ h1 in
      let (s, signer, is_found) =
        >>=-eq-ok (signer_of f m authority) _
          (or_signing-eq-ok (get_client_certificate_authority f m authority) at) in
      (
        s,
        ca,
        ok_or-eq-ok _ _ signer,
        ok-injective is_found ∙ ok_or-eq-ok _ _ is_some,
        ok_or-eq-ok _ _ h2,
      )

  zero_of_passed :
      (n : ℕ) {u v : Unit {0}}
      → ◌≡◌ {A = Run ConfigurationError (Unit {0})}
          (if n == 1 then err validate_only else ok tt)
          (ok u)
      → ◌≡◌ {A = Run ConfigurationError (Unit {0})}
          (if ltb 1 n then err validate_only else ok tt)
          (ok v)
      → n ≡ 0
  zero_of_passed n h k = ground arith

  -- If configure returns the settings of a server, then validation was not asked for; toml reads
  -- the file as a configuration in which exactly one authorizer is configured, which is the one in
  -- the settings, and whose address and client authority are those of the settings; the default
  -- authority has an SSH key for users; the authority of the client certificates is configured with
  -- a certificate whose PEM is the one served; and no two roles of the authorities share a key.
  pub configure-IsReady :
      (i : Invocation f Logging) (s : RusticaSettings f Logging)
      → configure f Logging i ≡ ok s
      → IsReady i s
  unfolding configure convert_to_signing_mechanism
  configure-IsReady i s h =
      let (file, file_read, h1) = >>=-eq-ok (ok_or file_error i.file) _ h in
      let (config, parsed, h2) = >>=-eq-ok (ok_or parsing_error (i.toml file)) _ h1 in
      let (_, once, h3) = >>=-eq-ok (if i.validate == 1 then err validate_only else ok tt) _ h2 in
      let (address, listens, h4) =
        >>=-eq-ok (ok_or invalid_listen_address (i.parse_address config.listen_address)) _ h3 in
      let (authorizer, one, h5) =
        >>=-eq-ok (ok_or authorizer_error (mechanism_of config.authorization)) _ h4 in
      let (m, made, h6) =
        >>=-eq-ok
          (or_signing (
            convert_to_signing_mechanism f config.signing.default_authority
              config.signing.authorities))
          _ h5 in
      let (_, keys, h7) = >>=-eq-ok (has_ssh_keys f Logging m) _ h6 in
      let (_, _, h8) = >>=-eq-ok (unwrap i.generated_hmac_key) _ h7 in
      let (_, _, h9) = >>=-eq-ok (unwrap i.generated_challenge_key) _ h8 in
      let (pem, ca, h10) =
        >>=-eq-ok (client_ca f Logging m config.client_authority.authority i.pem_error) _ h9 in
      let (_, more, h11) =
        >>=-eq-ok (if ltb 1 i.validate then err validate_only else ok tt) _ h10 in
      let e = ok-injective h11 in
      let (default_signer, key, at_default, signs) = has_ssh_keys_sound m keys in
      let (client_signer, authority, at_client, has, served) =
        client_ca_sound m config.client_authority.authority i.pem_error ca in
      rw (← e) (record {
        file = file;
        config = config;
        read = ok_or-eq-ok _ _ file_read;
        parsed = ok_or-eq-ok _ _ parsed;
        listens = ok_or-eq-ok _ _ listens;
        same_client_authority = refl;
        not_validating = zero_of_passed i.validate once more;
        one_authorizer = mechanism_of-IsOnly config.authorization authorizer (ok_or-eq-ok _ _ one);
        default_signer = default_signer;
        default_key = key;
        default_found = at_default;
        default_signs = signs;
        client_signer = client_signer;
        client_authority = authority;
        client_found = at_client;
        client_signs = has;
        client_served = served;
        no_shared_key = λ a b x y k l hash at_a at_b has_a has_b.
            convert_to_signing_mechanism-distinct f config.signing.default_authority
              config.signing.authorities m a b x y k l hash
              (or_signing-eq-ok
                (convert_to_signing_mechanism f config.signing.default_authority
                  config.signing.authorities)
                made)
              at_a at_b has_a has_b;
      })
