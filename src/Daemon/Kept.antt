-- ===== src/Daemon/Kept.antt =====
-- A host that leaves a view of the world alone, and the runtime registry and the service manager
-- over it: what daemon/cmd/lara-nuxd/main.go builds the services of.
use lara_nux.Base.{ℕ, ◌≡◌, arith}
use lara_nux.Text.{Text, Unicode, trim_space}
use lara_nux.Effect.Action.{Outcome}
use lara_nux.Effect.Atomic.{Keeps, keeps_rules}
use lara_nux.Runtimes.Registry as Runtimes
use lara_nux.Runtimes.Registry.{PhpRegistryState, RuntimeRegistrationInput}
use lara_nux.Resolver.Stub.{ResolverStubSpec}
use lara_nux.Services.Keeps.{ResolverKeeps, WebKeeps, PhpKeeps, ServicesKeep, RuntimesKeep}
use lara_nux.Control.Systemd.{ServiceAction}
use lara_nux.Control.Manager.{HostServices, controller, succeeding, action, status_of}
use lara_nux.Daemon.Wiring.{Host, php_registry}

-- A method that returns a value beside its error.
abbrev pub OutcomeKeeps : {σ C A : Type 0} → (σ → C) → Outcome σ A → Type 0
OutcomeKeeps {σ} view m = (w : σ) → view (m w).1 ≡ view w

-- The state file of the runtimes and the managers of the host leave a view of the world alone.
pub record HostKeeps {σ C : Type 0} (view : σ → C) (h : Host σ) : Type 0 where
  pub load : Keeps view h.runtimes_file.load
  pub save : (s : PhpRegistryState) → Keeps view (h.runtimes_file.save s)
  pub run : (path : Text) → Keeps view (h.run path)
  pub service_action :
      (name : Text) (requested : ServiceAction)
      → OutcomeKeeps view (h.services.action name requested)
  pub service_status : (name : Text) → OutcomeKeeps view (h.services.status name)
  pub resolver : ResolverKeeps view h.resolver
  pub resolver_status : (spec : ResolverStubSpec) → OutcomeKeeps view (h.resolver_status spec)
  pub web : WebKeeps view h.web
  pub php : PhpKeeps view h.php
  pub refresh : Keeps view h.packages.refresh_runtime_inventory
  pub check_available : (port : ℕ) → Keeps view (h.check_available port)

-- The runtime registry and the service manager of the daemon over such a host.
module _ {σ C : Type 0} {view : σ → C} (h : Host σ) (k : HostKeeps view h) ⦃u : Unicode⦄ where
  load-Keeps : Keeps view h.runtimes_file.load
  load-Keeps = k.load

  save-Keeps : (s : PhpRegistryState) → Keeps view (h.runtimes_file.save s)
  save-Keeps = k.save

  run-Keeps : (path : Text) → Keeps view (h.run path)
  run-Keeps = k.run

  ruleset runtime_rules = (keeps_rules, load-Keeps, save-Keeps, run-Keeps)

  pub runtime_list-Keeps : Keeps view (Runtimes.list h.os h.runtimes_file)
  unfolding Runtimes.list
  runtime_list-Keeps = search runtime_rules depth 30

  pub runtime_get-Keeps : (version : Text) → Keeps view (Runtimes.get h.os h.runtimes_file version)
  unfolding Runtimes.get
  runtime_get-Keeps version = search runtime_rules depth 30

  pub runtime_default-Keeps : Keeps view (Runtimes.default_runtime h.os h.runtimes_file)
  unfolding Runtimes.default_runtime
  runtime_default-Keeps = search runtime_rules depth 30

  pub runtime_set-Keeps :
      (version : Text) → Keeps view (Runtimes.set_default h.os h.runtimes_file version)
  unfolding Runtimes.set_default
  runtime_set-Keeps version = search runtime_rules depth 30

  pub runtime_register-Keeps :
      (input : RuntimeRegistrationInput)
      → Keeps view (Runtimes.register h.os h.runtimes_file h.run input)
  unfolding Runtimes.register
  runtime_register-Keeps input = search runtime_rules depth 30

  pub runtimes-RuntimesKeep : RuntimesKeep view (php_registry h)
  runtimes-RuntimesKeep = record { get = runtime_get-Keeps; default = runtime_default-Keeps }

  pub action-OutcomeKeeps :
      (name : Text) (requested : ServiceAction) (w : σ)
      → view (action h.services name requested w).1 ≡ view w
  unfolding action
  action-OutcomeKeeps name requested w =
      ground (arith, k.service_action (trim_space name) requested w)

  pub status-OutcomeKeeps : (name : Text) (w : σ) → view (status_of h.services name w).1 ≡ view w
  unfolding status_of
  status-OutcomeKeeps name w = ground (arith, k.service_status (trim_space name) w)

  pub services-ServicesKeep : ServicesKeep view (controller h.services)
  unfolding succeeding lara_nux.Control.Manager.start_service
      lara_nux.Control.Manager.restart_service
  services-ServicesKeep = record {
    start = λ name. record { at = action-OutcomeKeeps name lara_nux.Control.Systemd.start };
    restart = λ name. record { at = action-OutcomeKeeps name lara_nux.Control.Systemd.restart };
  }
