-- ===== src/Lifecycle/New/Laws.antt =====
-- What `New` leaves behind, and the life of a server that it has made.
use fedbox.Prelude.{
  ◌≡◌, refl, ap, ◌∙◌, ◌≢◌, ◌⊎◌, ◌↔◌, Bool, true, false, Option, none, some, List, [], ◌∷◌, ◌++◌,
  Text, arith, text_beq_iff, Option-cases, inl, inr,
}
use fedbox.Fault.{Fault}
use fedbox.Env.{is_dev}
use fedbox.Config.Options.{Options, Environ, System}
use fedbox.Config.Load.{ConfigFiles}
use fedbox.Start.Http.{Setter, init_http_server, init_http_server_iff}
use fedbox.Lifecycle.{Backend, Signal, sighup, sigusr1, sigusr2, sent_all, handle_signals}
use fedbox.Lifecycle.Invariant.{IsStorage}
use fedbox.Lifecycle.Modes.{Modes, modes_of, promised, promised_all, handle_signals_refines}
use fedbox.Lifecycle.New.{
  Assembly, Ctl, Server, Outcome, server_made, no_server, MuxSetter, new, muxed, with_http,
  with_opened, loaded_service, graceful, ssh_setters, http_server,
}

-- The modes of a server that nothing has happened to
abbrev pub fresh_modes : Options → Modes
fresh_modes conf = record {
  maintenance = false;
  shutting_down = false;
  debug = is_dev conf.env;
  serving = true;
}

promised_all_stays :
    (signals : List Signal) (m : Modes)
    → m.shutting_down ≡ true
    → (promised_all signals m).shutting_down ≡ true
unfolding promised_all promised
promised_all_stays [] m h = h
promised_all_stays (sighup ∷ signals) m h = promised_all_stays signals m h
promised_all_stays (s ∷ signals) m h = promised_all_stays signals (promised s m) (ground arith)

-- A server shuts down exactly when something is sent to the channel `exit`.
promised_all_sent :
    (B : Backend) (signals : List Signal) (m : Modes)
    → m.shutting_down ≡ false
    → ((promised_all signals m).shutting_down ≡ false) ↔ (sent_all B signals ≡ [])
unfolding promised_all promised sent_all
promised_all_sent B [] m h = ground arith
promised_all_sent B (sighup ∷ signals) m h = promised_all_sent B signals m h
promised_all_sent B (sigusr1 ∷ signals) m h = promised_all_sent B signals (promised sigusr1 m) h
promised_all_sent B (sigusr2 ∷ signals) m h = promised_all_sent B signals (promised sigusr2 m) h
promised_all_sent B (s ∷ signals) m h =
    ground (arith, promised_all_stays signals (promised s m) refl)

module _ (B : Backend) (A : Assembly B) (sys : System) (getenv : Environ)
    (config : ConfigFiles) where
  -- A server that is made is fresh; what is left of a storage is open.
  pub Opened : Options → Outcome B A sys getenv → Type 0
  Opened conf (server_made srv) = modes_of B sys getenv config srv.app ≡ fresh_modes conf
  Opened conf (no_server (some s) files e) = B.is_open s ≡ true
  Opened conf (no_server none files e) = ⊥

  muxed-Opened :
      (conf conf' : Options) (s : B.Storage) (files : Text → Bool)
      (service : Option A.Actor × Option A.Key) (servers : List MuxSetter)
      → B.is_open s ≡ true
      → Opened conf (muxed B A sys getenv conf conf' s files service servers)
  unfolding muxed Opened
  muxed-Opened conf conf' s files (actor, key) servers is = elim (Option-cases (A.mux servers)) [
    | inl fine ↦ rw (fine, muxed) (ap (λ b. record (fresh_modes conf) { serving = b }) is)
    | inr (e, bad) ↦ rw (bad, muxed) is
  ]

  with_http-Opened :
      (conf : Options) (s : B.Storage) (service : Option A.Actor × Option A.Key)
      (http : Options × (Text → Bool) × Option (List Setter))
      → B.is_open s ≡ true
      → Opened conf (with_http B A sys getenv conf s service http)
  unfolding with_http Opened
  with_http-Opened conf s service (conf', files, none) is = is
  with_http-Opened conf s service (conf', files, some fns) is =
      elim (Option-cases (A.new_http_server fns)) [
        | inl fine ↦ rw (fine, with_http) (muxed-Opened conf conf' s files service _ is)
        | inr (e, bad) ↦ rw (bad, with_http) is
      ]

  with_opened-Opened :
      (ctl : Ctl B A sys getenv) (files : Text → Bool) (p : B.Storage × Option Fault)
      → p.1 ≡ none
      → B.is_open p.0 ≡ true
      → Opened ctl.conf (with_opened B A sys getenv ctl files p)
  unfolding with_opened
  with_opened-Opened ctl files (s, some e) fine is = ground arith
  with_opened-Opened ctl files (s, none) fine is = with_http-Opened ctl.conf s _ _ is

  -- With a storage that opens as is documented, and that opens, `New` makes a server out of
  -- maintenance mode, with an open storage and the debug mode of the environment, or it returns an
  -- error and leaves the storage open.
  pub new-Opened :
      (L : IsStorage B) (ctl : Ctl B A sys getenv) (s : B.Storage) (files : Text → Bool)
      → ctl.storage ≡ some s
      → (B.open_storage s).1 ≡ none
      → Opened ctl.conf (new B A sys getenv (some ctl) files)
  unfolding new
  new-Opened L ctl s files has opens =
      rw (has, new) (with_opened-Opened ctl files (B.open_storage s) opens (L.is_open-open s opens))

  new-fresh_modes :
      (L : IsStorage B) (opens : (s : B.Storage) → (B.open_storage s).1 ≡ none)
      (ctl : Ctl B A sys getenv) (files : Text → Bool) (srv : Server B A sys getenv)
      → new B A sys getenv (some ctl) files ≡ server_made srv
      → modes_of B sys getenv config srv.app ≡ fresh_modes ctl.conf
  unfolding new Opened
  new-fresh_modes L opens ctl files srv is = elim (Option-cases ctl.storage) [
    | inl nil ↦ ground arith
    | inr (s, has) ↦ rw is at (new-Opened L ctl s files has (opens s))
  ]

  -- With a storage that opens and closes as is documented, and where opening it never fails: whatever
  -- signals a server that `New` has made handles, its modes are those that the signals promise one
  -- after the other, from those of a fresh server, and it shuts down exactly when something is sent
  -- to the channel that ends `Run`.
  pub new_runs :
      (L : IsStorage B) (opens : (s : B.Storage) → (B.open_storage s).1 ≡ none)
      (ctl : Ctl B A sys getenv) (files : Text → Bool) (srv : Server B A sys getenv)
      (signals : List Signal)
      → new B A sys getenv (some ctl) files ≡ server_made srv
      → let app = handle_signals B sys getenv config signals srv.app in
        (modes_of B sys getenv config app ≡ promised_all signals (fresh_modes ctl.conf))
        × ((app.shutting_down ≡ false) ↔ (sent_all B signals ≡ []))
  new_runs L opens ctl files srv signals is =
      let start = new-fresh_modes L opens ctl files srv is in
      let after =
        handle_signals_refines B sys getenv config L opens signals srv.app
        ∙ ap (promised_all signals) start in
      (
        after,
        rw (ap (λ m. m.shutting_down) after)
            (promised_all_sent B signals (fresh_modes ctl.conf) refl),
      )

  abbrev pub is_made : Outcome B A sys getenv → Bool
  is_made (server_made srv) = true
  is_made (no_server s files e) = false

  module _ (http : (fns : List Setter) → A.new_http_server fns ≡ none)
      (muxed : (fns : List MuxSetter) → A.mux fns ≡ none) where
    with_http-made :
        (conf : Options) (s : B.Storage) (service : Option A.Actor × Option A.Key)
        (r : Options × (Text → Bool) × Option (List Setter))
        → (is_made (with_http B A sys getenv conf s service r) ≡ true) ↔ (r.2 ≢ none)
    unfolding with_http muxed
    with_http-made conf s service (conf', files, none) = ground arith
    with_http-made conf s service (conf', files, some fns) = ground (
      arith,
      http fns,
      muxed (
          graceful B A sys getenv conf
          ++ (http_server fns ∷ ssh_setters B A sys getenv conf' service.1)),
    )

    with_opened-made :
        (ctl : Ctl B A sys getenv) (files : Text → Bool) (p : B.Storage × Option Fault)
        → (is_made (with_opened B A sys getenv ctl files p) ≡ true)
          ↔ ((p.1 ≡ none) × ((ctl.conf.socket_path ≢ []) ⊎ (ctl.conf.http_port ≢ 0)))
    unfolding with_opened
    with_opened-made ctl files (s, some e) = ground arith
    with_opened-made ctl files (s, none) =
        let found = init_http_server sys getenv A.dir_exists ctl.conf files in
        ground (
          arith,
          with_http-made ctl.conf s
              (loaded_service B A sys getenv ctl.conf ctl.service ctl.private_key s) found,
          (init_http_server_iff sys getenv A.dir_exists ctl.conf files).0,
          text_beq_iff ctl.conf.socket_path [],
        )

    -- Where the HTTP server and the servers together can be set up, `New` makes a server from a
    -- storage exactly when the storage opens and a socket or a port is configured; errors of the
    -- service and of the SSH server do not matter.
    pub new_iff :
        (ctl : Ctl B A sys getenv) (s : B.Storage) (files : Text → Bool)
        → ctl.storage ≡ some s
        → (is_made (new B A sys getenv (some ctl) files) ≡ true) ↔ (
            ((B.open_storage s).1 ≡ none)
            × ((ctl.conf.socket_path ≢ []) ⊎ (ctl.conf.http_port ≢ 0)))
    unfolding new
    new_iff ctl s files has = rw (has, new) (with_opened-made ctl files (B.open_storage s))
