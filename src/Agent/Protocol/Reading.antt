-- ===== src/Agent/Protocol/Reading.antt =====
-- What a client sends is read as it was meant, and each request takes bytes from the stream.
use mathlib.Core.List.{append_assoc, append-nil}
use mathlib.Core.Path.{subst}
use rustica.Common.{
  ℕ, zero, suc, ◌+◌, ◌%◌, ◌^◌, ◌≤◌, ◌<◌, ◌≡◌, ◌≢◌, refl, ap, Option, [], ◌∷◌, ◌++◌,
}
use rustica.Common.{length, length-append, arith, inl, inr}
use rustica.Common.Run.{ok, >>=-eq-ok, Run-cases, ok-injective}
use rustica.Keys.{Bytes}
use rustica.Agent.Protocol.{
  sign, from_u8, read_u8, read_u32, read_exact, with_head, read_message, write_u32, write_message,
  Request, list_identities, sign_data, unknown_request, add_or_unknown, read_body, read_request,
}

pub read_u32-write_u32 :
    (n : ℕ) (rest : Bytes) → n < 2 ^ 32 → read_u32 (write_u32 n ++ rest) ≡ ok (n, rest)
unfolding read_u32 write_u32
read_u32-write_u32 n rest h = ap (λ (k : ℕ). ok (k, rest)) (omega arith)

read_u32-write_u32_last : (n : ℕ) → n < 2 ^ 32 → read_u32 (write_u32 n) ≡ ok (n, [])
unfolding write_u32
read_u32-write_u32_last n h = read_u32-write_u32 n [] h

read_exact-append : (s rest : Bytes) → read_exact (length s) (s ++ rest) ≡ ok (s, rest)
unfolding read_exact
read_exact-append [] rest = refl
read_exact-append (b ∷ s) rest = ap (with_head b) (read_exact-append s rest)

pub read_message-write_message :
    (s rest : Bytes) → length s < 2 ^ 32 → read_message (write_message s ++ rest) ≡ ok (s, rest)
unfolding read_message write_message
read_message-write_message s rest h =
    let regroup = append_assoc (write_u32 (length s % 2 ^ 32)) s rest in
    let small : length s % 2 ^ 32 ≡ length s = omega arith in
    rw (regroup, read_u32-write_u32 (length s % 2 ^ 32) (s ++ rest) (omega arith), small)
      (read_exact-append s rest)

pub read_message-write_message_last :
    (s : Bytes) → length s < 2 ^ 32 → read_message (write_message s) ≡ ok (s, [])
read_message-write_message_last s h =
    subst (λ t. read_message t ≡ ok (s, [])) (append-nil (write_message s))
      (read_message-write_message s [] h)

pub length-write_message : (s : Bytes) → length (write_message s) ≡ 4 + length s
unfolding write_message write_u32
length-write_message s = omega arith

-- The requests that a client makes: the keys, a signature, a key to be added as its encoding, and
-- messages of the types that the agent does not know or does not serve.
pub data ClientRequest : Type 0 where
  ask_identities : ClientRequest
  ask_sign : Bytes → Bytes → ℕ → ClientRequest
  ask_add : Bytes → ClientRequest
  ask_other : ℕ → Bytes → ClientRequest

abbrev pub body : ClientRequest → Bytes
body ask_identities = 11 ∷ []
body (ask_sign blob data' flags) =
    13 ∷ (write_message blob ++ (write_message data' ++ write_u32 flags))
body (ask_add key) = 17 ∷ key
body (ask_other kind rest) = kind ∷ rest

abbrev pub encode_request : ClientRequest → Bytes
encode_request r = write_message (body r)

-- The length and the flags fit their 32 bits, and an other message is of another type.
abbrev pub Sendable : ClientRequest → Type 0
Sendable (ask_sign blob data' flags) =
    (length (body (ask_sign blob data' flags)) < 2 ^ 32) × (flags < 2 ^ 32)
Sendable (ask_other kind rest) =
    (length (kind ∷ rest) < 2 ^ 32) × (kind ≢ 11) × (kind ≢ 13) × (kind ≢ 17)
Sendable ask_identities = Unit
Sendable (ask_add key) = length (17 ∷ key) < 2 ^ 32

module _ {PrivateKey : Type 0} (private_key_of_bytes : Bytes → Option PrivateKey) where
  abbrev pub meaning : ClientRequest → Request private_key_of_bytes
  meaning ask_identities = list_identities
  meaning (ask_sign blob data' flags) = sign_data blob data' flags
  meaning (ask_add key) = add_or_unknown private_key_of_bytes (private_key_of_bytes key)
  meaning (ask_other kind rest) = unknown_request

  read_body-sign :
      (blob data' : Bytes) (flags : ℕ)
      → length (body (ask_sign blob data' flags)) < 2 ^ 32
      → flags < 2 ^ 32
      → read_body private_key_of_bytes sign
          (write_message blob ++ (write_message data' ++ write_u32 flags))
        ≡ ok (sign_data blob data' flags)
  unfolding read_body
  read_body-sign blob data' flags small h =
      let l = length-append (write_message blob) (write_message data' ++ write_u32 flags) in
      let k = length-append (write_message data') (write_u32 flags) in
      let m = length-write_message blob in
      let n = length-write_message data' in
      rw
        (
          read_message-write_message blob (write_message data' ++ write_u32 flags)
              (omega (arith, l, k, m, n)),
          read_message-write_message data' (write_u32 flags) (omega (arith, l, k, m, n)),
          read_u32-write_u32_last flags h,
        )
        refl

  read_body-body :
      (kind : ℕ) (rest : Bytes) {r : Request private_key_of_bytes}
      → read_body private_key_of_bytes (from_u8 kind) rest ≡ ok r
      → (more : Bytes) → length (kind ∷ rest) < 2 ^ 32
      → read_request private_key_of_bytes (write_message (kind ∷ rest) ++ more) ≡ ok (r, more)
  unfolding read_request read_u8
  read_body-body kind rest h more small =
      rw (read_message-write_message (kind ∷ rest) more small, h) refl

  other_type :
      (kind : ℕ) (rest : Bytes)
      → kind ≢ 11
      → kind ≢ 13
      → kind ≢ 17
      → read_body private_key_of_bytes (from_u8 kind) rest ≡ ok unknown_request
  unfolding read_body from_u8
  other_type kind rest a b c = ground arith

  -- A request whose lengths and flags fit 32 bits, encoded as a client sends it, is read back as
  -- what it means, and what follows it in the stream is left: a key that is not read, and a message
  -- of another type than the three that the agent serves, as unknown.
  pub read_request-encode_request :
      (r : ClientRequest) (more : Bytes)
      → Sendable r
      → read_request private_key_of_bytes (encode_request r ++ more) ≡ ok (meaning r, more)
  unfolding read_body from_u8
  read_request-encode_request ask_identities more fits =
      read_body-body 11 [] refl more (omega arith)
  read_request-encode_request (ask_sign blob data' flags) more (small, h) =
      read_body-body 13 _ (read_body-sign blob data' flags small h) more small
  read_request-encode_request (ask_add key) more small = read_body-body 17 key refl more small
  read_request-encode_request (ask_other kind rest) more (small, a, b, c) =
      read_body-body kind rest (other_type kind rest a b c) more small

read_exact-length :
    (n : ℕ) (s : Bytes) {read rest : Bytes}
    → read_exact n s ≡ ok (read, rest)
    → (length read ≡ n) × (length s ≡ n + length rest)
unfolding read_exact
read_exact-length zero s h = ground arith
read_exact-length (suc n) [] h = cc
read_exact-length (suc n) (b ∷ s) {read} {rest} h = elim (Run-cases (read_exact n s)) [
  | inl ((a, r), e) ↦ let (p, q) = read_exact-length n s e in ground (arith, p, q)
  | inr (inl e) ↦ ground (arith, e)
  | inr (inr (x, e)) ↦ ground (arith, e)
]

read_u32-length :
    (s : Bytes) {n : ℕ} {rest : Bytes} → read_u32 s ≡ ok (n, rest) → length s ≡ 4 + length rest
unfolding read_u32
read_u32-length (a ∷ b ∷ c ∷ d ∷ s) h = ground arith
read_u32-length [] h = cc
read_u32-length (a ∷ []) h = cc
read_u32-length (a ∷ b ∷ []) h = cc
read_u32-length (a ∷ b ∷ c ∷ []) h = cc

read_message-length :
    (s : Bytes) {read rest : Bytes}
    → read_message s ≡ ok (read, rest)
    → length s ≡ 4 + (length read + length rest)
unfolding read_message
read_message-length s h =
    let ((n, s'), e, k) = >>=-eq-ok (read_u32 s) _ h in
    let (p, q) = read_exact-length n s' k in omega (arith, read_u32-length s e, p, q)

module _ {PrivateKey : Type 0} (private_key_of_bytes : Bytes → Option PrivateKey) where
  -- A request takes the four bytes of its length and the one of its type at least.
  pub read_request-length :
      (stream : Bytes) (r : Request private_key_of_bytes) (rest : Bytes)
      → read_request private_key_of_bytes stream ≡ ok (r, rest)
      → 5 + length rest ≤ length stream
  unfolding read_request read_u8
  read_request-length stream r rest h = elim (Run-cases (read_message stream)) [
    | inr (inl e) ↦ cc (rw e at h)
    | inr (inr (x, e)) ↦ cc (rw e at h)
    | inl (([], rest'), e) ↦ cc (rw e at h)
    | inl ((kind ∷ buf, rest'), e) ↦
        let (request, _, k) =
          >>=-eq-ok (read_body private_key_of_bytes (from_u8 kind) buf) _ (rw e at h) in
        let same : rest' ≡ rest = ground (arith, ok-injective k) in
        omega (arith, read_message-length stream e, ap length same)
  ]
