-- ===== src/Agent/Command/Single/Started.antt =====
-- The agent of one key, from its start through its conversations.
use rustica.Common.{ℕ, ◌≡◌, refl, none, some}
use rustica.Common.Text.{Text}
use rustica.Common.Run.{ok, >>=-eq-ok, ok_or-eq-ok, ok-injective}
use rustica.Keys.{Bytes}
use rustica.Foreign.{Foreign}
use rustica.Agent.{AgentCrates, Signatory, yubikey, direct}
use rustica.Agent.Config.{Toml, FileSystem}
use rustica.Agent.Session.{handle_client}
use rustica.Agent.Handler.{Surroundings, handler}
use rustica.Agent.Handler.Cached.{IsStamped, handle_client-IsStamped}
use rustica.Agent.Command.{
  yubikey_no_keypair_found, KeySources, get_signatory, parse_config_from_args,
}
use rustica.Agent.Command.Single.{
  SingleArguments, RunConfig, key_of_signatory, configure_singlemode,
}

module _ {f : Foreign} (crates : AgentCrates f) where
  open f use {PublicKey, pubkey}

  -- The signatory is the one of this key.
  abbrev pub IsKeyOf : Signatory crates → PublicKey → Type 0
  IsKeyOf (yubikey signer) key = signer.yk.ssh_cert_fetch_pubkey signer.slot ≡ some key
  IsKeyOf (direct privkey) key = pubkey privkey ≡ key

  key_of_signatory-IsKeyOf :
      (signatory : Signatory crates) (key : PublicKey)
      → key_of_signatory crates signatory ≡ ok key
      → IsKeyOf signatory key
  unfolding key_of_signatory
  key_of_signatory-IsKeyOf (yubikey signer) key h =
      ok_or-eq-ok yubikey_no_keypair_found (signer.yk.ssh_cert_fetch_pubkey signer.slot) h
  key_of_signatory-IsKeyOf (direct privkey) key h = ok-injective h

  module _ (toml : Toml) (keys : KeySources crates) (default_socket : Text) where
    started :
        (fs : FileSystem) (matches : SingleArguments) (c : RunConfig crates)
        → configure_singlemode crates toml keys default_socket fs matches ≡ ok c
        → IsKeyOf c.handler.signatory c.handler.pubkey × (c.state.cert ≡ none)
    unfolding configure_singlemode
    started fs matches c h =
        let (conf, _, h1) = >>=-eq-ok (parse_config_from_args toml fs matches.shared) _ h in
        let (signatory, _, h2) =
          >>=-eq-ok
            (get_signatory crates keys matches.slot conf.configuration.slot matches.file
              conf.configuration.key)
            _ h1 in
        let (key, read, h3) = >>=-eq-ok (key_of_signatory crates signatory) _ h2 in
        rw (← ok-injective h3) (key_of_signatory-IsKeyOf signatory key read, refl)

    -- If configure_singlemode succeeds, then the key that the agent lists as its own is the key of
    -- its signatory, and after any conversation from the start a cached certificate goes stale at
    -- the end of its validity.
    pub configure_singlemode-IsStamped :
        (fs : FileSystem) (matches : SingleArguments) (c : RunConfig crates)
        (around : ℕ → Surroundings crates) (stream : Bytes)
        → configure_singlemode crates toml keys default_socket fs matches ≡ ok c
        → IsKeyOf c.handler.signatory c.handler.pubkey
          × IsStamped crates
              (handle_client crates.private_key_of_bytes
                (handler crates toml c.handler around)
                stream
                c.state).state
    configure_singlemode-IsStamped fs matches c around stream h =
        let (own, fresh) = started fs matches c h in
        (
          own,
          handle_client-IsStamped crates toml c.handler around stream c.state
              (λ cert e. cc (fresh, e)),
        )
