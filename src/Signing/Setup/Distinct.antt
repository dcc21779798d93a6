-- ===== src/Signing/Setup/Distinct.antt =====
-- No two keys of a mechanism that was set up have the same fingerprint.
use rustica.Common.{◌≡◌, ◌≢◌, refl, ap, Option, none, some, List, [], ◌∷◌, arith, inl, inr, ◌⊎◌}
use mathlib.Core.Path.{subst}
use rustica.Common.Text.{Text, eq_iff}
use rustica.Common.Maps.{Map, lookup, insert, lookup-insert}
use rustica.Common.Run.{Run, ok, >>=-eq-ok, ok-injective}
use rustica.Foreign.{Foreign, CertType, user, host}
use rustica.Signing.{SigningError, Signer, SigningMechanism}
use rustica.Signing.Setup.{
  check_roles, remember, hash_of, convert_from, convert_to_signing_mechanism,
}

remember-keeps :
    (name : Text) (o : Option Text) (seen : Map Text) {seen' : Map Text} (hash : Text) {n : Text}
    → remember name o seen ≡ ok seen'
    → lookup hash seen ≡ some n
    → lookup hash seen' ≡ some n
unfolding remember
remember-keeps name none seen hash h k = ground arith
remember-keeps name (some new) seen hash h k =
    ground (arith, lookup-insert new hash name seen, eq_iff new hash)

remember-adds :
    (name : Text) (o : Option Text) (seen : Map Text) {seen' : Map Text} (hash : Text)
    → o ≡ some hash
    → remember name o seen ≡ ok seen'
    → lookup hash seen' ≡ some name
unfolding remember
remember-adds name none seen hash e h = cc
remember-adds name (some new) seen hash e h =
    ground (arith, lookup-insert new hash name seen, eq_iff new hash)

check_roles_sound :
    (name : Text) (u h : Option Text) (hash : Text)
    → check_roles name u h ≡ ok tt
    → u ≡ some hash
    → h ≢ some hash
unfolding check_roles
check_roles_sound name none h hash c e k = cc
check_roles_sound name (some u) none hash c e k = cc
check_roles_sound name (some u) (some h) hash c e k = ground (arith, eq_iff u h)

module _ (f : Foreign) where
  -- Every fingerprint of a signer was seen under its name, and the two of one signer differ.
  record Inv (built : Map (Signer f)) (seen : Map Text) : Type 0 where
    known :
        (name : Text) (s : Signer f) (role : CertType) (hash : Text)
        → lookup name built ≡ some s
        → hash_of f s role ≡ some hash
        → lookup hash seen ≡ some name
    roles :
        (name : Text) (s : Signer f) (hash : Text)
        → lookup name built ≡ some s
        → hash_of f s user ≡ some hash
        → hash_of f s host ≢ some hash

  -- An entry of the extended map is the new one or an old one.
  insert-cases :
      (name n : Text) (s t : Signer f) (built : Map (Signer f))
      → lookup n (insert name s built) ≡ some t
      → ((name ≡ n) × (s ≡ t)) ⊎ (lookup n built ≡ some t)
  insert-cases name n s t built at = ground (arith, lookup-insert name n s built, eq_iff name n)

  module _ {built : Map (Signer f)} {seen seen' seen'' : Map Text} (name : Text) (s : Signer f)
      (inv : Inv built seen)
      (checked : check_roles name (hash_of f s user) (hash_of f s host) ≡ ok tt)
      (first : remember name (hash_of f s user) seen ≡ ok seen')
      (second : remember name (hash_of f s host) seen' ≡ ok seen'') where
    new_known :
        (role : CertType) (hash : Text)
        → hash_of f s role ≡ some hash
        → lookup hash seen'' ≡ some name
    new_known user hash has =
        remember-keeps name (hash_of f s host) seen' hash second
          (remember-adds name (hash_of f s user) seen hash has first)
    new_known host hash has = remember-adds name (hash_of f s host) seen' hash has second

    -- What one round of the loop has checked keeps the invariant.
    round-Inv : Inv (insert name s built) seen''
    round-Inv = record {
      known = λ n t role hash at has. elim (insert-cases name n s t built at) [
        | inl (e, p) ↦ rw (← e) (new_known role hash (rw p has))
        | inr old ↦ remember-keeps name (hash_of f s host) seen' hash second (
            remember-keeps name (hash_of f s user) seen hash first
              (inv.known n t role hash old has))
      ];
      roles = λ n t hash at u h. elim (insert-cases name n s t built at) [
        | inl (e, p) ↦
            check_roles_sound name (hash_of f s user) (hash_of f s host) hash checked (rw p u)
              (rw p h)
        | inr old ↦ inv.roles n t hash old u h
      ];
    }

  convert_from-Inv :
      (built : Map (Signer f)) (seen : Map Text)
      (configurations : List (Text × Run SigningError (Signer f))) {result : Map (Signer f)}
      → Inv built seen
      → convert_from f built seen configurations ≡ ok result
      → (seen' : Map Text) × Inv result seen'
  unfolding convert_from
  convert_from-Inv built seen [] inv h = (seen, subst (λ b. Inv b seen) (ok-injective h) inv)
  convert_from-Inv built seen ((name, into_signer) ∷ rest) inv h =
      let (s, made, h1) = >>=-eq-ok into_signer _ h in
      let (_, checked, h2) =
        >>=-eq-ok (check_roles name (hash_of f s user) (hash_of f s host)) _ h1 in
      let (seen', first, h3) = >>=-eq-ok (remember name (hash_of f s user) seen) _ h2 in
      let (seen'', second, h4) = >>=-eq-ok (remember name (hash_of f s host) seen') _ h3 in
      convert_from-Inv (insert name s built) seen'' rest (round-Inv name s inv checked first second)
        h4

  Inv-nil : Inv [] []
  unfolding lookup
  Inv-nil = record { known = λ n s role hash at has. cc; roles = λ n s hash at u h. cc }

  same_role :
      (built : Map (Signer f)) (seen : Map Text)
      → Inv built seen
      → (a : Text) (s : Signer f) (k l : CertType) (hash : Text) → lookup a built ≡ some s
      → hash_of f s k ≡ some hash
      → hash_of f s l ≡ some hash
      → k ≡ l
  same_role built seen inv a s user user hash at p q = refl
  same_role built seen inv a s user host hash at p q = absurd (inv.roles a s hash at p q)
  same_role built seen inv a s host user hash at p q = absurd (inv.roles a s hash at q p)
  same_role built seen inv a s host host hash at p q = refl

  distinct :
      (built : Map (Signer f)) (seen : Map Text)
      → Inv built seen
      → (a b : Text) (s t : Signer f) (k l : CertType) (hash : Text) → lookup a built ≡ some s
      → lookup b built ≡ some t
      → hash_of f s k ≡ some hash
      → hash_of f t l ≡ some hash
      → (a ≡ b) × (k ≡ l)
  distinct built seen inv a b s t k l hash at_a at_b has_a has_b =
      let same : a ≡ b = cc (inv.known a s k hash at_a has_a, inv.known b t l hash at_b has_b) in
      let one : s ≡ t = cc (same, at_a, at_b) in
      (same, same_role built seen inv a s k l hash at_a has_a (rw one has_b))

  -- In a mechanism that was set up, two roles of signers whose keys have one fingerprint are the
  -- same role of the same authority.
  pub convert_to_signing_mechanism-distinct :
      (default_authority : Text) (configurations : List (Text × Run SigningError (Signer f)))
      (m : SigningMechanism f) (a b : Text) (s t : Signer f) (k l : CertType) (hash : Text)
      → convert_to_signing_mechanism f default_authority configurations ≡ ok m
      → lookup a m.authorities ≡ some s
      → lookup b m.authorities ≡ some t
      → hash_of f s k ≡ some hash
      → hash_of f t l ≡ some hash
      → (a ≡ b) × (k ≡ l)
  unfolding convert_to_signing_mechanism
  convert_to_signing_mechanism-distinct d configurations m a b s t k l hash h at_a at_b has_a
        has_b =
      let (built, made, rest) = >>=-eq-ok (convert_from f [] [] configurations) _ h in
      let (seen, inv) = convert_from-Inv [] [] configurations Inv-nil made in
      let e : built ≡ m.authorities =
        ap (λ (x : SigningMechanism f). x.authorities) (ok-injective rest) in
      distinct built seen inv a b s t k l hash (rw e at_a) (rw e at_b) has_a has_b
