-- ===== src/Client/App.antt =====
-- The methods of the app that make requests: client/wails/app.go. A method that succeeds in a
-- change is followed by a snapshot in the background, which is a step of its own.
use lara_nux.Base.{ℕ}
use lara_nux.Text.{Text}
use lara_nux.Effect.Fault.{Result}
use lara_nux.Client.Bridge
use lara_nux.Client.Bridge.{Client, Envelope, Reply}
use lara_nux.Client.Shell.{ShellState, DashboardSnapshot, request, load_dashboard}

module _ {σ : Type 0} (clock : σ → ℕ) (client : Client σ) where
  abbrev get_shell_state : σ × ShellState → ShellState
  get_shell_state (w, s) = s

  -- The three requests of `LoadDashboard`, each with the decoder of its contract type.
  abbrev dashboard :
      {H S R : Type 0}
      → (Text → Result (Envelope H))
      → (Text → Result (Envelope S))
      → (Text → Result (Envelope R))
      → σ × ShellState
      → Reply (DashboardSnapshot H S R) × (σ × ShellState)
  dashboard health sites runtimes =
      load_dashboard clock (Bridge.health health client) (Bridge.list_sites sites client)
        (Bridge.runtime_catalog runtimes client)

  module _ {T : Type 0} (decode : Text → Result (Envelope T)) where
    abbrev list_sites : σ × ShellState → Reply T × (σ × ShellState)
    list_sites = request clock (Bridge.list_sites decode client)

    abbrev get_site : (Text → Text) → Text → σ × ShellState → Reply T × (σ × ShellState)
    get_site escape id = request clock (Bridge.get_site decode client escape id)

    abbrev register_site : Result Text → σ × ShellState → Reply T × (σ × ShellState)
    register_site body = request clock (Bridge.register_site decode client body)

    abbrev update_site : Result Text → σ × ShellState → Reply T × (σ × ShellState)
    update_site body = request clock (Bridge.update_site decode client body)

    abbrev get_health : σ × ShellState → Reply T × (σ × ShellState)
    get_health = request clock (Bridge.health decode client)

    abbrev get_runtime_catalog : σ × ShellState → Reply T × (σ × ShellState)
    get_runtime_catalog = request clock (Bridge.runtime_catalog decode client)

    abbrev set_default_runtime : Result Text → σ × ShellState → Reply T × (σ × ShellState)
    set_default_runtime body = request clock (Bridge.set_default_runtime decode client body)

    abbrev switch_site_runtime : Result Text → σ × ShellState → Reply T × (σ × ShellState)
    switch_site_runtime body = request clock (Bridge.switch_site_runtime decode client body)

    abbrev service_action : Result Text → σ × ShellState → Reply T × (σ × ShellState)
    service_action body = request clock (Bridge.service_action decode client body)
