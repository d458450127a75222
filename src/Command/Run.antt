-- ===== src/Command/Run.antt =====
-- `Run` of run.go: a command that uses the storage is run between two signals to the server.
use fedbox.Prelude.{
  ◌≡◌, refl, ap, ◌∙◌, inl, inr, Bool, true, false, not, Option, none, some, [], ◌∷◌, Text, codes,
  ◌==◌, text_eq, contains, arith, Bool-cases, Option-cases, if◌then◌else◌,
}
use fedbox.Fault.{Fault}
use fedbox.Config.Options.{Environ, System}
use fedbox.Config.Load.{ConfigFiles}
use fedbox.Lifecycle.{Backend, App, sigusr1, handle_signal}

-- The commands that send signals of their own or are the server
signals_itself : Text → Bool
signals_itself cmd =
    contains (codes "maintenance" ∷ codes "stop" ∷ codes "reload" ∷ codes "run" ∷ []) cmd

not-not : (b : Bool) → not (not b) ≡ b
not-not true = refl
not-not false = refl

module _ (B : Backend) (sys : System) (getenv : Environ) (files : ConfigFiles) where
  -- A command acts on the running server only by what it does to the server's state.
  abbrev Action : Type 0
  Action = App B → App B × Option Fault

  -- `pauseFn`; if the process is not reached, the signal has no effect.
  unfoldable pub toggle : Bool → App B → App B
  toggle reached app = if reached then handle_signal B sys getenv files sigusr1 app else app

  -- The storage is opened and the service loaded, except for the bootstrap.
  prepared : Text → Option Fault → Option Fault → Action → Action
  prepared cmd opened loaded action app =
      if cmd == codes "storage bootstrap" then action app else elim opened [
        | some e ↦ (app, some e)
        | none ↦ elim loaded [ some e ↦ (app, some e) | none ↦ action app ]
      ]

  unfoldable pub run : Bool → Text → Option Fault → Option Fault → Action → Action
  unfolding signals_itself prepared toggle
  run reached cmd opened loaded action app =
      if signals_itself cmd
      then action app
      else let (app', e) = prepared cmd opened loaded action (toggle reached app) in
        (toggle reached app', e)

  -- The command leaves the maintenance mode as it finds it.
  abbrev KeepsMode : Action → Type 0
  KeepsMode action = (app : App B) → (action app).0.maintenance_mode ≡ app.maintenance_mode

  toggle_mode :
      (reached : Bool) (app : App B)
      → (toggle reached app).maintenance_mode
        ≡ (if reached then not app.maintenance_mode else app.maintenance_mode)
  unfolding toggle handle_signal
  toggle_mode reached app = ground arith

  prepared_mode :
      (cmd : Text) (opened loaded : Option Fault) (action : Action)
      → KeepsMode action
      → KeepsMode (prepared cmd opened loaded action)
  unfolding prepared
  prepared_mode cmd opened loaded action keeps app = ground (arith, keeps app)

  toggle_again :
      (before after : App B)
      → after.maintenance_mode ≡ (toggle true before).maintenance_mode
      → (toggle true after).maintenance_mode ≡ before.maintenance_mode
  toggle_again before after same =
      toggle_mode true after
      ∙ ap not (same ∙ toggle_mode true before)
      ∙ not-not before.maintenance_mode

  -- How a command that is run between the signals ends, for the server it finds
  pub data Outcome (cmd : Text) (opened loaded : Option Fault) (action : Action) (found : App B)
      : Option Fault → Type 0 where
    bootstrapped :
        cmd == codes "storage bootstrap" ≡ true
        → Outcome cmd opened loaded action found (action found).1
    ran :
        cmd == codes "storage bootstrap" ≡ false
        → opened ≡ none
        → loaded ≡ none
        → Outcome cmd opened loaded action found (action found).1
    not_opened :
        (e : Fault)
        → cmd == codes "storage bootstrap" ≡ false
        → opened ≡ some e
        → Outcome cmd opened loaded action found (some e)
    not_loaded :
        (e : Fault)
        → cmd == codes "storage bootstrap" ≡ false
        → opened ≡ none
        → loaded ≡ some e
        → Outcome cmd opened loaded action found (some e)

  prepared-Outcome :
      (cmd : Text) (opened loaded : Option Fault) (action : Action) (found : App B)
      → Outcome cmd opened loaded action found (prepared cmd opened loaded action found).1
  unfolding prepared
  prepared-Outcome cmd opened loaded action found =
      elim (Bool-cases (cmd == codes "storage bootstrap")) [
        | inl boot ↦ rw (boot, prepared) (bootstrapped boot)
        | inr other ↦ elim (Option-cases opened) [
          | inr (e, closed) ↦ rw (other, closed, prepared) (not_opened e other refl)
          | inl open_now ↦ elim (Option-cases loaded) [
            | inr (e, lost) ↦ rw (other, open_now, lost, prepared) (not_loaded e other refl refl)
            | inl there ↦ rw (other, open_now, there, prepared) (ran other refl refl)
          ]
        ]
      ]

  -- A command other than maintenance, stop, reload and run, which does not change the maintenance
  -- mode itself, is run on a server that it reaches after a SIGUSR1, which puts the server in the
  -- other mode: it gives the error of opening the storage or else of loading the service, except for
  -- the bootstrap, which does neither, and otherwise what the command gives there. In every case
  -- the server is left in the old mode.
  pub run_mode :
      (cmd : Text) (opened loaded : Option Fault) (action : Action) (app : App B)
      → contains (codes "maintenance" ∷ codes "stop" ∷ codes "reload" ∷ codes "run" ∷ []) cmd
        ≡ false
      → KeepsMode action
      → ((handle_signal B sys getenv files sigusr1 app).maintenance_mode ≡ not app.maintenance_mode)
        × Outcome cmd opened loaded action
            (handle_signal B sys getenv files sigusr1 app)
            (run true cmd opened loaded action app).1
        × ((run true cmd opened loaded action app).0.maintenance_mode ≡ app.maintenance_mode)
  unfolding run signals_itself toggle
  run_mode cmd opened loaded action app other keeps =
      let found = handle_signal B sys getenv files sigusr1 app in
      (
        toggle_mode true app,
        rw (other, run) (prepared-Outcome cmd opened loaded action found),
        rw (other, run) (toggle_again app _ (prepared_mode cmd opened loaded action keeps found)),
      )
