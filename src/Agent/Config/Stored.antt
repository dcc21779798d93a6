-- ===== src/Agent/Config/Stored.antt =====
-- A configuration that was written is read back, whatever servers it has then.
use rustica.Common.{
  ℕ, ◌≡◌, ◌⊎◌, refl, ap, some, List, Option-cases, inl, inr, Bool-cases, arith, ◌==◌,
}
use rustica.Common.Text.{Text, eq_refl}
use rustica.Common.Maps.{lookup, lookup-insert}
use rustica.Common.Run.{Run, ok, err, panic, ok-injective, >>=-eq-ok}
use rustica.Agent.{RusticaServer}
use rustica.Agent.Config.{
  Config, Toml, Writing, whole, unopened, cut_off, write_file, UpdatableConfiguration, FileSystem,
  parse_v1_config, parse_v2_config, parse_config, parse_config_path, open_configuration, write,
  with_servers, or_bad, update_servers,
}

-- Documented behaviour of toml: what was printed is read back, and the two readings of one text agree
-- on the field that both have.
pub record TomlBehaves (toml : Toml) : Type 0 where
  pub parse-print : (c : Config) (s : Text) → toml.to_string c ≡ some s → toml.v2_of s ≡ ok c
  pub version-print :
      (c : Config) (s : Text) → toml.to_string c ≡ some s → toml.version_of s ≡ some c.version
  pub version_agrees :
      (s : Text) (c : Config) (n : ℕ)
      → toml.v2_of s ≡ ok c
      → toml.version_of s ≡ some n
      → c.version ≡ n

Writing-cases :
    (w : Writing) → (w ≡ whole) ⊎ ((w ≡ unopened) ⊎ ((part : Text) × (w ≡ cut_off part)))
Writing-cases whole = inl refl
Writing-cases unopened = inr (inl refl)
Writing-cases (cut_off part) = inr (inr (part, refl))

or_bad-eq-ok : {A : Type 0} (r : Run Text A) {a : A} → or_bad r ≡ ok a → r ≡ ok a
or_bad-eq-ok (ok t) h = ap ok (ok-injective h)
or_bad-eq-ok (err e) h = cc
or_bad-eq-ok panic h = cc

module _ (toml : Toml) (t : TomlBehaves toml) where
  -- Every configuration that is read has version 2.
  parse_config-version : (s : Text) {c : Config} → parse_config toml s ≡ ok c → c.version ≡ 2
  unfolding parse_config parse_v1_config parse_v2_config
  parse_config-version s {c} h = elim (Option-cases (toml.version_of s)) [
    | inl e ↦
        let (v1, _, k) = >>=-eq-ok (or_bad (toml.v1_of s)) _ (rw (e, parse_config) at h) in
        let same = ap (λ (x : Config). x.version) (ok-injective k) in cc same
    | inr (n, e) ↦ elim (Bool-cases (n == 2)) [
      | inl two ↦
          let read : toml.v2_of s ≡ ok c =
            or_bad-eq-ok (toml.v2_of s) (rw (e, parse_config, two) at h) in
          ground (arith, t.version_agrees s c n read e)
      | inr other ↦ cc (rw (e, parse_config, other) at h)
    ]
  ]

  open_configuration-version :
      (path : Text) (fs : FileSystem) {conf : UpdatableConfiguration}
      → open_configuration toml path fs ≡ ok conf
      → (conf.path ≡ path) × (conf.configuration.version ≡ 2)
  unfolding open_configuration parse_config_path
  open_configuration-version path fs h =
      let (c, read, k) = >>=-eq-ok (parse_config_path toml path fs) _ h in
      let e = ok-injective k in
      elim (Option-cases (lookup path fs.files)) [
        | inl missing ↦ cc (rw (missing, parse_config_path) at read)
        | inr (s, found) ↦
            let two = parse_config-version s (rw (found, parse_config_path) at read) in
            (
              cc (ap (λ (x : UpdatableConfiguration). x.path) e),
              cc (two, ap (λ (x : UpdatableConfiguration). x.configuration) e),
            )
      ]

  write-eq-ok :
      (conf : UpdatableConfiguration) (fs : FileSystem)
      → (write toml conf fs).0 ≡ ok tt
      → (s : Text) × (toml.to_string conf.configuration ≡ some s)
        × (lookup conf.path (write toml conf fs).1.files ≡ some s)
  unfolding write
  write-eq-ok conf fs h = elim (Option-cases (toml.to_string conf.configuration)) [
    | inl e ↦ cc (rw (e, write) at h)
    | inr (s, e) ↦ elim (Writing-cases (fs.writing conf.path s)) [
      | inr (inl u) ↦ cc (rw (e, write, write_file, u) at h)
      | inr (inr (part, c)) ↦ cc (rw (e, write, write_file, c) at h)
      | inl w ↦ (
        s,
        e,
        rw (e, write, write_file, w)
            (rw (lookup-insert conf.path conf.path s fs.files, eq_refl conf.path) refl),
      )
    ]
  ]

  open_configuration-of_found :
      (path : Text) (fs : FileSystem) (s : Text) (c : Config)
      → lookup path fs.files ≡ some s
      → toml.version_of s ≡ some 2
      → toml.v2_of s ≡ ok c
      → open_configuration toml path fs ≡ ok (record { path = path; configuration = c })
  unfolding open_configuration parse_config_path parse_config parse_v2_config
  open_configuration-of_found path fs s c found version read =
      rw (found, parse_config_path, version, parse_config, read) refl

  -- Under the stated behaviour of toml, if a configuration that was read from a file is written
  -- with other servers and the write succeeds, then the file is read as the new configuration, with
  -- these servers.
  pub update_servers-open_configuration :
      (path : Text) (fs fs' : FileSystem) (conf conf' : UpdatableConfiguration)
      (servers : List RusticaServer)
      → open_configuration toml path fs ≡ ok conf
      → update_servers toml servers conf fs ≡ (ok tt, conf', fs')
      → (open_configuration toml path fs' ≡ ok conf') × (conf'.configuration.servers ≡ servers)
  unfolding update_servers
  update_servers-open_configuration path fs fs' conf conf' servers read stored =
      let (same_path, two) = open_configuration-version path fs read in
      let done : (write toml (with_servers servers conf) fs).0 ≡ ok tt =
        ap (λ (x : Run (Unit {0}) (Unit {0}) × UpdatableConfiguration × FileSystem). x.0) stored in
      let same_conf : with_servers servers conf ≡ conf' =
        ap (λ (x : Run (Unit {0}) (Unit {0}) × UpdatableConfiguration × FileSystem). x.1) stored in
      let same_fs : (write toml (with_servers servers conf) fs).1 ≡ fs' =
        ap (λ (x : Run (Unit {0}) (Unit {0}) × UpdatableConfiguration × FileSystem). x.2) stored in
      let (s, printed, found) = write-eq-ok (with_servers servers conf) fs done in
      let version = t.version-print (with_servers servers conf).configuration s printed in
      let reread =
        open_configuration-of_found conf.path (write toml (with_servers servers conf) fs).1 s _
          found (rw two at version)
          (t.parse-print (with_servers servers conf).configuration s printed) in
      rw (← same_conf, ← same_fs, ← same_path) (reread, refl)
