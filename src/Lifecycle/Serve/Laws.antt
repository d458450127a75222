-- ===== src/Lifecycle/Serve/Laws.antt =====
-- What the bootstrap of `Serve.Run` leaves to the server that is run.
use fedbox.Prelude.{
  ◌≡◌, refl, ap, ◌∙◌, ◌⊎◌, inl, inr, Bool, true, false, Option, none, some, [], Text, ◌==◌, text_eq,
  if◌then◌else◌,
}
use fedbox.Fault.{Fault}
use fedbox.Vocab.{Vocab, Iri}
use fedbox.Config.Options.{Options, Environ, System}
use fedbox.Config.Pid.{Files}
use fedbox.Keys.{Crypto, MetadataStore, KeyPair, key_type_ed25519, key_type_rsa}
use fedbox.Control.Backing.{Backing, store_of}
use fedbox.Control.Addition.{Adding}
use fedbox.Control.Service.{Founding}
use fedbox.Control.Bootstrap.{Founders, Boot, booted, boot_failed, boot_panic, bootstrap}
use fedbox.Control.Bootstrap.Laws.{Opens, Settled, bootstrap-Settled}
use fedbox.Control.Credentials.{exit_of, get_pw_and_key, serve_bootstrap}
use fedbox.Lifecycle.New.{Ctl, new, server_made}
use fedbox.Lifecycle.Serve.{
  Surroundings, backend_with, assembly_with, Made, Served, runs, unable, panics, base_of,
  bootstrapped_server, with_server, serve,
}

module _ (C : Crypto) (V : Vocab) (M : MetadataStore V) (B : Backing V M)
    (A : Adding V (store_of V M B)) (F : Founding V) (W : Founders V M) (sys : System)
    (getenv : Environ) (R : Surroundings C V M) where
  -- The credentials of a server's bootstrap
  abbrev credentials : Options → Files → Text × Option (KeyPair C) × Files
  credentials o files =
      get_pw_and_key C V M B A F W sys o
        (if o.mastodon_compatible then key_type_rsa else key_type_ed25519) files

  abbrev boot_of : Made C V M B A F W sys getenv R → Files → Boot C V M B A F W sys
  boot_of srv files =
      let (pw, pair, left) = credentials srv.app.conf files in
      bootstrap C V M B A F W sys srv.app.conf (base_of C V M B A F W sys getenv R srv) pair
        (some pw) srv.app.storage

  -- The server has the service of its base URL and an open storage, or the bootstrap has failed and
  -- the storage is closed; a panic needs that there is no pair of keys. The modes are those of the
  -- server before.
  unfoldable pub ServedAfter :
      Made C V M B A F W sys getenv R → Files → Served C V M B A F W sys getenv R → Type 0
  ServedAfter before files (runs srv left) =
      (srv.app.maintenance_mode ≡ before.app.maintenance_mode)
      × (((B.is_open srv.app.storage ≡ true)
            × (srv.service ≡ some (W.self before.app.conf.base_url)))
          ⊎ ((B.is_open srv.app.storage ≡ false)
              × ((e : Fault) × ((boot_of before files).2 ≡ boot_failed e))))
  ServedAfter before files (unable e) = ⊥
  ServedAfter before files panics = (credentials before.app.conf files).1 ≡ none

  serve_bootstrap-boot_of :
      (equal : Iri → Text → Bool) (srv : Made C V M B A F W sys getenv R) (files : Files)
      → equal (A.id (base_of C V M B A F W sys getenv R srv).service) srv.app.conf.base_url ≡ false
      → serve_bootstrap C V M B A F W sys equal true srv.app.conf
          (base_of C V M B A F W sys getenv R srv)
          files
          srv.app.storage
        ≡ (
          (boot_of srv files).0,
          (boot_of srv files).1,
          (credentials srv.app.conf files).2,
          exit_of C V M B A F W sys (boot_of srv files).2,
        )
  unfolding serve_bootstrap
  serve_bootstrap-boot_of equal srv files other = rw (other, serve_bootstrap) refl

  serve-boot_of :
      (equal : Iri → Text → Bool)
      (ctl : Ctl
        (backend_with C V M B A F W sys getenv R)
        (assembly_with C V M B A F W sys getenv R)
        sys
        getenv)
      (exist : Text → Bool) (files : Files) (srv : Made C V M B A F W sys getenv R)
      → new
          (backend_with C V M B A F W sys getenv R)
          (assembly_with C V M B A F W sys getenv R)
          sys
          getenv
          (some ctl)
          exist
        ≡ server_made srv
      → equal (A.id (base_of C V M B A F W sys getenv R srv).service) srv.app.conf.base_url ≡ false
      → serve C V M B A F W sys getenv R equal true (some ctl) exist files
        ≡ bootstrapped_server C V M B A F W sys getenv R srv (
          (boot_of srv files).0,
          (boot_of srv files).1,
          (credentials srv.app.conf files).2,
          exit_of C V M B A F W sys (boot_of srv files).2,
        )
  unfolding serve with_server
  serve-boot_of equal ctl exist files srv is other =
      ap (with_server C V M B A F W sys getenv R equal true files) is
      ∙ ap (bootstrapped_server C V M B A F W sys getenv R srv)
          (serve_bootstrap-boot_of equal srv files other)

  module _ (O : Opens V M B W) where
    booted-ServedAfter :
        (srv : Made C V M B A F W sys getenv R) (files left : Files) (pair : Option (KeyPair C))
        (boot : Boot C V M B A F W sys)
        → (credentials srv.app.conf files).1 ≡ pair
        → boot_of srv files ≡ boot
        → Settled C V M B A F W sys O srv.app.conf pair boot
        → ServedAfter srv files (
            bootstrapped_server C V M B A F W sys getenv R srv
              (boot.0, boot.1, left, exit_of C V M B A F W sys boot.2))
    unfolding ServedAfter bootstrapped_server exit_of Settled
    booted-ServedAfter srv files left pair (ctl, s, boot_failed e) paired is closed =
        (refl, inr (closed, (e, ap (λ b. b.2) is)))
    booted-ServedAfter srv files left none (ctl, s, booted) paired is h = absurd h
    booted-ServedAfter srv files left (some pair) (ctl, s, booted) paired is (opened, own, key) =
        (refl, inl (opened, ap some own))
    booted-ServedAfter srv files left none (ctl, s, boot_panic) paired is h = paired
    booted-ServedAfter srv files left (some pair) (ctl, s, boot_panic) paired is h = absurd h

    -- If the storage opens and closes as is documented, and New has made a server whose service has
    -- another id than its base URL, which is not empty, then Serve with its flag for the bootstrap
    -- runs this server in the same maintenance mode, either with an open storage and the service of
    -- the base URL, or, where Bootstrap has failed, with a closed storage; or it panics, and then no
    -- pair of keys was found or generated.
    pub serve-ServedAfter :
        (equal : Iri → Text → Bool)
        (ctl : Ctl
          (backend_with C V M B A F W sys getenv R)
          (assembly_with C V M B A F W sys getenv R)
          sys
          getenv)
        (exist : Text → Bool) (files : Files) (srv : Made C V M B A F W sys getenv R)
        → new
            (backend_with C V M B A F W sys getenv R)
            (assembly_with C V M B A F W sys getenv R)
            sys
            getenv
            (some ctl)
            exist
          ≡ server_made srv
        → equal (A.id (base_of C V M B A F W sys getenv R srv).service) srv.app.conf.base_url
          ≡ false
        → (srv.app.conf.base_url == []) ≡ false
        → ServedAfter srv files (serve C V M B A F W sys getenv R equal true (some ctl) exist files)
    serve-ServedAfter equal ctl exist files srv is other url =
        let (pw, pair, left) = credentials srv.app.conf files in
        rw (serve-boot_of equal ctl exist files srv is other) (
          booted-ServedAfter srv files left pair (boot_of srv files) refl refl (
            bootstrap-Settled C V M B A F W sys O srv.app.conf
              (base_of C V M B A F W sys getenv R srv) pair (some pw) srv.app.storage url))
