-- ===== src/Tests/Toy.antt =====
-- Stand-ins for the foreign crates, simple enough to compute with: a key is its own text and its own
-- fingerprint, a tag is the key and the message, and a certificate prints as its parts with lengths.
use rustica.Common.{ℕ, zero, suc, ◌≡◌, refl, true, Option, none, some, [], ◌∷◌, ◌++◌, length}
use rustica.Common.Text.{Text, text, eq, eq_refl}
use rustica.Common.Words.{pos}
use rustica.Foreign.{Foreign, Behaves, user, host}

pub record ToyCertificate : Type 0 where
  pub key_id : Text
  pub key : Text
  pub signature_key : Text

abbrev pub print : ToyCertificate → Text
print c = length c.key_id ∷ (c.key_id ++ length c.key ∷ (c.key ++ c.signature_key))

abbrev take_part : ℕ → Text → Text → Option (Text × Text)
take_part zero part rest = some (part, rest)
take_part (suc n) part [] = none
take_part (suc n) part (c ∷ rest) = take_part n (part ++ c ∷ []) rest

abbrev parse_key : Text → Option (Text × Text)
parse_key [] = none
parse_key (n ∷ rest) = take_part n [] rest

abbrev finish : Text → Option (Text × Text) → Option ToyCertificate
finish key_id none = none
finish key_id (some (key, signature_key)) =
    some (record { key_id = key_id; key = key; signature_key = signature_key })

abbrev parse_rest : Option (Text × Text) → Option ToyCertificate
parse_rest none = none
parse_rest (some (key_id, rest)) = finish key_id (parse_key rest)

abbrev pub parse : Text → Option ToyCertificate
parse s = parse_rest (parse_key s)

append_assoc : (a b c : Text) → (a ++ b) ++ c ≡ a ++ (b ++ c)
append_assoc [] b c = refl
append_assoc (x ∷ a) b c = cc (append_assoc a b c)

append-nil : (a : Text) → a ++ [] ≡ a
append-nil [] = refl
append-nil (x ∷ a) = cc (append-nil a)

take_part-length :
    (part a rest : Text) → take_part (length a) part (a ++ rest) ≡ some (part ++ a, rest)
take_part-length part [] rest = cc (append-nil part)
take_part-length part (c ∷ a) rest =
    cc (take_part-length (part ++ c ∷ []) a rest, append_assoc part (c ∷ []) a)

pub parse-print : (c : ToyCertificate) → parse (print c) ≡ some c
parse-print c =
    rw (take_part-length [] c.key_id (length c.key ∷ (c.key ++ c.signature_key)))
      (rw (take_part-length [] c.key c.signature_key) refl)

abbrev pub toy : Foreign
toy = record {
  PublicKey = Text;
  PrivateKey = Text;
  Certificate = ToyCertificate;
  public_key_of_string = λ s. some s;
  public_key_to_string = λ k. k;
  fingerprint = λ k. k;
  pubkey = λ k. k;
  certificate_of_string = parse;
  certificate_to_string = print;
  key_id = λ c. c.key_id;
  certified_key = λ c. c.key;
  signature_key = λ c. c.signature_key;
  show_cert_type = elim [ user ↦ text "user certificate" | host ↦ text "host certificate" ];
  builder_takes = λ k t ca. true;
  sign_draft = λ sk d. some (record { key_id = d.key_id; key = d.key; signature_key = sk });
  verify_certificate_chain = λ client intermediate. some (record {
    public_key = client;
    pin_policy = 2;
    touch_policy = 1;
    serial = 7;
    firmware = text "5.4";
  });
  AuthData = Text;
  verify_auth_data = λ a s c alg i. some (record { auth_data = a; firmware = none });
  ssh_public_key = λ a app. some a;
  aaguid = λ a. a;
  certificate_error = λ s. s;
  sha256 = λ b. b;
  HmacKey = Text;
  hmac_sign = λ k m. k ++ m;
  hmac_verify = λ k m t. eq (k ++ m) t;
  hex_encode = λ b. b;
  hex_decode = λ t. some t;
  base64_decode = λ t. some t;
  X509 = Text;
  Attribute = Text;
  parse_x509_certificate = λ b. some b;
  not_after = λ x. pos 4000000000;
  subject_rdns = λ x. (x ∷ []) ∷ [];
  attr_type = λ a. 2 ∷ 5 ∷ 4 ∷ 3 ∷ [];
  attr_str = λ a. some a;
  subject_pki = λ x. x;
  x509_error = λ x. x;
  CaCertificate = Text;
  from_params = λ p. some p.common_name;
  serialize_private_key_pem = λ c. c;
  serialize_pem = λ c. some c;
  serialize_pem_with_signer = λ c ca. some c;
  KeyPair = Text;
  key_pair_from_der = λ b. some b;
  ca_from_params = λ name alg kp. some name;
  Csr = Text;
  csr_from_der = λ b. some b;
  csr_error = λ b. b;
  serialize_der_with_signer = λ c p ca. some c;
}

pub toy-Behaves : Behaves toy
toy-Behaves = record {
  verify-sign = λ k m. eq_refl (k ++ m);
  decode-encode = λ b. refl;
  parse-print = λ sk d c h. parse-print c;
  key_id-sign = λ sk d c h. cc;
  signature_key-sign = λ sk d c h. cc;
}
