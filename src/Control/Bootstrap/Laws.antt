-- ===== src/Control/Bootstrap/Laws.antt =====
-- Whether the storage is open when `Bootstrap` is done.
use fedbox.Prelude.{
  ◌≡◌, refl, ◌∙◌, Bool, true, false, Option, none, some, List, [], Text, ◌==◌, text_eq, arith,
}
use fedbox.Fault.{Fault, Result, ok, err}
use fedbox.Vocab.{Vocab}
use fedbox.Config.Options.{Options, System}
use fedbox.Config.Storage.{InitFn, storage_init_fns, base_storage_path}
use fedbox.Config.Storage.Laws.{base_storage_path_keeps, storage_init_fns_keeps}
use fedbox.Keys.{Crypto, MetadataStore, KeyPair}
use fedbox.Control.Backing.{Backing, store_of}
use fedbox.Control.Addition.{Adding}
use fedbox.Control.Service.{Founding, Base, create_service}
use fedbox.Control.Bootstrap.{
  Founders, booted, boot_failed, boot_panic, Run, closed_after, create_opened, fresh, made,
  with_storage, bootstrapped, with_init_fns, with_path, bootstrap_service, Boot, reopened,
  after_bootstrap, bootstrap, reset, close_run, after_reset, opened_reset, reset_cmd,
}

-- What is documented of opening and closing: what neither opens nor closes the storage leaves a
-- closed one closed, and so does an open that fails.
pub record Opens (V : Vocab) (M : MetadataStore V) (B : Backing V M) (W : Founders V M)
    : Type 0 where
  pub close-is_open : (s : M.State) → B.is_open (B.close_storage s) ≡ false
  pub open-is_open : (s s' : M.State) → B.open_storage s ≡ (s', none) → B.is_open s' ≡ true
  pub open-fails :
      (s s' : M.State) (e : Fault)
      → B.is_open s ≡ false
      → B.open_storage s ≡ (s', some e)
      → B.is_open s' ≡ false
  pub mkdir-is_open :
      (s : M.State) (path : Text) → B.is_open (W.directories.mkdir_all s path).0 ≡ B.is_open s
  pub bootstrap-is_open :
      (s : M.State) (fns : List InitFn) → B.is_open (W.bootstrap_storage s fns).0 ≡ B.is_open s
  pub new-is_open :
      (s : M.State) (fns : List InitFn) → B.is_open (W.new_storage s fns).0 ≡ B.is_open s

module _ (C : Crypto) (V : Vocab) (M : MetadataStore V) (B : Backing V M)
    (A : Adding V (store_of V M B)) (F : Founding V) (W : Founders V M) (sys : System)
    (O : Opens V M B W) where
  abbrev Closed : M.State → Type 0
  Closed s = B.is_open s ≡ false

  closed_after-Closed : (r : Run C V M B A F W sys) → Closed (closed_after C V M B A F W sys r).1
  unfolding closed_after
  closed_after-Closed (ctl, s, e) = O.close-is_open s

  create_opened-Closed :
      (o : Options) (ctl : Base C V M B A F) (self : V.Item) (pair : Option (KeyPair C))
      (pw : Option Text) (s : M.State) (p : M.State × Option Fault)
      → Closed s
      → B.open_storage s ≡ p
      → Closed (create_opened C V M B A F W sys o ctl self pair pw p).1
  unfolding create_opened
  create_opened-Closed o ctl self pair pw s (s', some e) c is = O.open-fails s s' e c is
  create_opened-Closed o ctl self pair pw s (s', none) c is =
      closed_after-Closed (create_service C V M B A F o.base_url ctl self pair pw s')

  fresh-Closed :
      (ctl : Base C V M B A F) (p : M.State × Option Fault)
      → Closed p.0
      → Closed (fresh C V M B A F W sys ctl p).1
  unfolding fresh
  fresh-Closed ctl (s, none) c = c
  fresh-Closed ctl (s, some e) c = c

  made-Closed :
      (there : Bool) (fns : List InitFn) (ctl : Base C V M B A F) (s : M.State)
      → Closed s
      → Closed (made C V M B A F W sys there fns ctl s).1
  unfolding made
  made-Closed true fns ctl s c = c
  made-Closed false fns ctl s c = fresh-Closed ctl (W.new_storage s fns) (O.new-is_open s fns ∙ c)

  with_storage-Closed :
      (o : Options) (self : V.Item) (pair : Option (KeyPair C)) (pw : Option Text)
      (r : Run C V M B A F W sys)
      → Closed r.1
      → Closed (with_storage C V M B A F W sys o self pair pw r).1
  unfolding with_storage
  with_storage-Closed o self pair pw (ctl, s, some e) c = c
  with_storage-Closed o self pair pw (ctl, s, none) c =
      create_opened-Closed o ctl self pair pw s (B.open_storage s) c refl

  bootstrapped-Closed :
      (o : Options) (ctl : Base C V M B A F) (self : V.Item) (pair : Option (KeyPair C))
      (pw : Option Text) (fns : List InitFn) (p : M.State × Option Fault)
      → Closed p.0
      → Closed (bootstrapped C V M B A F W sys o ctl self pair pw fns p).1
  unfolding bootstrapped
  bootstrapped-Closed o ctl self pair pw fns (s, some e) c = c
  bootstrapped-Closed o ctl self pair pw fns (s, none) c =
      with_storage-Closed o self pair pw (made C V M B A F W sys ctl.has_storage fns ctl s)
        (made-Closed ctl.has_storage fns ctl s c)

  with_init_fns-Closed :
      (o : Options) (ctl : Base C V M B A F) (self : V.Item) (pair : Option (KeyPair C))
      (pw : Option Text) (p : M.State × Result (List InitFn))
      → Closed p.0
      → Closed (with_init_fns C V M B A F W sys o ctl self pair pw p).1
  unfolding with_init_fns
  with_init_fns-Closed o ctl self pair pw (s, err e) c = c
  with_init_fns-Closed o ctl self pair pw (s, ok fns) c =
      bootstrapped-Closed o ctl self pair pw fns (W.bootstrap_storage s fns)
        (O.bootstrap-is_open s fns ∙ c)

  with_path-Closed :
      (o : Options) (ctl : Base C V M B A F) (self : V.Item) (pair : Option (KeyPair C))
      (pw : Option Text) (p : M.State × Result Text)
      → Closed p.0
      → Closed (with_path C V M B A F W sys o ctl self pair pw p).1
  unfolding with_path
  with_path-Closed o ctl self pair pw (s, err e) c = c
  with_path-Closed o ctl self pair pw (s, ok path) c =
      with_init_fns-Closed o ctl self pair pw (storage_init_fns W.directories sys true o s)
        (storage_init_fns_keeps W.directories sys B.is_open O.mkdir-is_open true o s ∙ c)

  -- `bootstrap` never leaves a storage open that was closed before.
  bootstrap_service-Closed :
      (o : Options) (ctl : Base C V M B A F) (self : V.Item) (pair : Option (KeyPair C))
      (pw : Option Text) (s : M.State)
      → Closed s
      → Closed (bootstrap_service C V M B A F W sys o ctl self pair pw s).1
  unfolding bootstrap_service
  bootstrap_service-Closed o ctl self pair pw s c =
      with_path-Closed o ctl self pair pw (base_storage_path W.directories sys o s)
        (base_storage_path_keeps W.directories sys B.is_open O.mkdir-is_open o s ∙ c)

  -- The outcome of `Bootstrap`: with a base URL either the storage is closed and there is an error,
  -- or it is open and the service is the one of the base URL; then the key is the one of the pair,
  -- and a missing pair is a panic.
  unfoldable pub Settled : Options → Option (KeyPair C) → Boot C V M B A F W sys → Type 0
  Settled o pair (ctl, s, boot_failed e) = Closed s
  Settled o none (ctl, s, booted) = ⊥
  Settled o (some pair) (ctl, s, booted) =
      (B.is_open s ≡ true) × (ctl.service ≡ W.self o.base_url) × (ctl.private_key ≡ pair.private)
  Settled o none (ctl, s, boot_panic) = (B.is_open s ≡ true) × (ctl.service ≡ W.self o.base_url)
  Settled o (some pair) (ctl, s, boot_panic) = ⊥

  reopened-Settled :
      (o : Options) (ctl : Base C V M B A F) (pair : Option (KeyPair C)) (s : M.State)
      (p : M.State × Option Fault)
      → Closed s
      → B.open_storage s ≡ p
      → Settled o pair (reopened C V M B A F W sys ctl (W.self o.base_url) pair p)
  unfolding reopened Settled
  reopened-Settled o ctl pair s (s', some e) c is = O.open-fails s s' e c is
  reopened-Settled o ctl none s (s', none) c is = (O.open-is_open s s' is, refl)
  reopened-Settled o ctl (some pair) s (s', none) c is = (O.open-is_open s s' is, refl, refl)

  after_bootstrap-Settled :
      (o : Options) (pair : Option (KeyPair C)) (r : Run C V M B A F W sys)
      → Closed r.1
      → Settled o pair (after_bootstrap C V M B A F W sys (W.self o.base_url) pair r)
  unfolding after_bootstrap Settled
  after_bootstrap-Settled o pair (ctl, s, some e) c = c
  after_bootstrap-Settled o pair (ctl, s, none) c =
      reopened-Settled o ctl pair s (B.open_storage s) c refl

  -- If the storage opens and closes as is documented, then `Bootstrap` with a base URL leaves the
  -- storage open, with the service of the base URL and the key of the pair set, when it returns
  -- without an error, and closed when it returns an error; and it panics exactly when there is no
  -- pair of keys where it would return without an error, the storage being open.
  pub bootstrap-Settled :
      (o : Options) (ctl : Base C V M B A F) (pair : Option (KeyPair C)) (pw : Option Text)
      (s : M.State)
      → (o.base_url == []) ≡ false
      → Settled o pair (bootstrap C V M B A F W sys o ctl pair pw s)
  unfolding bootstrap
  bootstrap-Settled o ctl pair pw s url = rw url (
      after_bootstrap-Settled o pair
        (bootstrap_service C V M B A F W sys o ctl (W.self o.base_url) pair pw (B.close_storage s))
        (bootstrap_service-Closed o ctl (W.self o.base_url) pair pw (B.close_storage s)
          (O.close-is_open s)))

  opened_reset-Closed :
      (o : Options) (ctl : Base C V M B A F) (p : M.State × Option Fault)
      → p.1 ≡ none
      → Closed (opened_reset C V M B A F W sys o ctl p).1
  unfolding opened_reset close_run
  opened_reset-Closed o ctl (s, some e) fine = ground arith
  opened_reset-Closed o ctl (s, none) fine =
      O.close-is_open (after_reset C V M B A F W sys o ctl (reset C V M B A F W sys o s)).1

  -- `ResetCmd` leaves a storage closed that it could open, also where the reset fails.
  pub reset_cmd-Closed :
      (o : Options) (ctl : Base C V M B A F) (s : M.State)
      → (B.open_storage s).1 ≡ none
      → B.is_open (reset_cmd C V M B A F W sys o ctl s).1 ≡ false
  unfolding reset_cmd
  reset_cmd-Closed o ctl s opens = opened_reset-Closed o ctl (B.open_storage s) opens
