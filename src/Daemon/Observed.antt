-- ===== src/Daemon/Observed.antt =====
-- The health report, the runtime catalog and the onboarding over a host that leaves a view of the
-- world alone: the services of daemon/internal/app as daemon/cmd/lara-nuxd/main.go builds them.
use lara_nux.Base.{ℕ, Bool, true, false, List, [], ◌∷◌, some, refl, arith, if◌then◌else◌}
use lara_nux.Text.{Text, Unicode, is_blank}
use lara_nux.Effect.Action.{◌>>=◌, pure, try}
use lara_nux.Effect.Atomic.{Keeps, Keeps-bind, Keeps-try, Keeps-reads}
use lara_nux.Sites.Record.{SiteRecord}
use lara_nux.Sites.Registry as Sites
use lara_nux.Runtimes.Registry.{PhpRuntimeRecord}
use lara_nux.Services.Interfaces.{ServiceStatus, if_present}
use lara_nux.Services.Keeps.{Keeps-when}
use lara_nux.Health.Service.{
  observe_each, with_error, port_health, site_readiness, readiness_each, report_behind, report,
  resolver_health,
}
use lara_nux.Onboarding.Catalog.{list_registered, default_runtime, set_default, inventory}
use lara_nux.Onboarding.Service.{
  RuntimeRegistrationRequest, register, register_manually, register_from_package_inventory,
  refreshed_inventory, materialize_if, observe_if,
}
use lara_nux.Daemon.Wiring.{Host, health_service, runtime_onboarding}
use lara_nux.Daemon.Kept.{
  HostKeeps, runtime_list-Keeps, runtime_get-Keeps, runtime_default-Keeps, runtime_set-Keeps,
  runtime_register-Keeps, status-OutcomeKeeps,
}

module _ {σ C : Type 0} {view : σ → C} (h : Host σ) (k : HostKeeps view h) ⦃u : Unicode⦄
    (listed : Keeps view (Sites.list h.os h.sites_file)) where
  observe_each-Keeps : (names : List Text) → Keeps view (observe_each (health_service h) names)
  unfolding observe_each
  observe_each-Keeps [] = record { at = λ w. refl }
  observe_each-Keeps (name ∷ names) = record {
    at = λ w.
        let w' = (lara_nux.Control.Manager.status_of h.services name w).1 in
        let rest = observe_each-Keeps names in
        let found = (lara_nux.Control.Manager.status_of h.services name w).0 in
        let more : Keeps view (
            observe_each (health_service h) names >>= λ rest.
            pure ((name, with_error found) ∷ rest)) =
          Keeps-bind _ _ rest (λ _. record { at = λ w. refl }) in
        ground (arith, rest.at w, more.at w', status-OutcomeKeeps h k name w);
  }

  port_health-Keeps :
      (port : ℕ) (caddy : ServiceStatus) → Keeps view (port_health (health_service h) port caddy)
  unfolding port_health ◌>>=◌ try
  port_health-Keeps port caddy = record { at = λ w. ground (arith, (k.check_available port).at w) }

  readiness_each-Keeps :
      (sites : List SiteRecord) (caddy : ServiceStatus) (statuses : Text → ServiceStatus) (now : ℕ)
      → Keeps view (readiness_each (health_service h) sites caddy statuses now)
  unfolding readiness_each site_readiness
  readiness_each-Keeps [] caddy statuses now = record { at = λ w. refl }
  readiness_each-Keeps (site ∷ sites) caddy statuses now =
      Keeps-bind _ _
        (Keeps-bind _ _ (Keeps-reads _) (λ path.
          Keeps-bind _ _ (Keeps-try _ (runtime_get-Keeps h k site.php_version))
            (λ runtime. record { at = λ w. refl })))
        (λ readiness.
          Keeps-bind _ _ (readiness_each-Keeps sites caddy statuses now)
            (λ rest. record { at = λ w. refl }))

  resolver_health-Keeps : Keeps view (resolver_health (health_service h))
  unfolding resolver_health
  resolver_health-Keeps = record { at = λ w. k.resolver_status _ w }

  pub report-Keeps : Keeps view (report (health_service h) h.visit)
  unfolding report report_behind
  report-Keeps = Keeps-bind _ _ (Keeps-reads _) (λ generated_at.
      Keeps-bind _ _ (Keeps-reads _) (λ socket. Keeps-bind _ _ listed (λ sites.
        Keeps-bind _ _ (runtime_list-Keeps h k) (λ runtimes.
          Keeps-bind _ _ resolver_health-Keeps (λ resolver.
            Keeps-bind _ _ (observe_each-Keeps _) (λ statuses.
              Keeps-bind _ _ (port_health-Keeps 80 _) (λ http.
                Keeps-bind _ _ (port_health-Keeps 443 _) (λ https.
                  Keeps-bind _ _ (readiness_each-Keeps sites _ _ generated_at)
                    (λ readiness. record { at = λ w. refl })))))))))

module _ {σ C : Type 0} {view : σ → C} (h : Host σ) (k : HostKeeps view h) ⦃u : Unicode⦄ where
  pub catalog_default-Keeps : Keeps view (default_runtime h.os h.runtimes_file)
  unfolding default_runtime
  catalog_default-Keeps =
      Keeps-bind _ _ (Keeps-try _ (runtime_default-Keeps h k)) (λ _. record { at = λ w. refl })

  pub catalog_list-Keeps : Keeps view (list_registered h.os h.runtimes_file)
  unfolding list_registered
  catalog_list-Keeps = runtime_list-Keeps h k

  pub catalog_set-Keeps : (version : Text) → Keeps view (set_default h.os h.runtimes_file version)
  unfolding set_default
  catalog_set-Keeps version = runtime_set-Keeps h k version

  pub inventory-Keeps : Keeps view (inventory h.os h.runtimes_file (some h.packages))
  unfolding inventory
  inventory-Keeps = Keeps-bind _ _ catalog_list-Keeps (λ registered.
      Keeps-bind _ _ catalog_default-Keeps
        (λ default. Keeps-bind _ _ k.refresh (λ _. record { at = λ w. refl })))

  materialize_if-Keeps :
      (runtime : PhpRuntimeRecord)
      → Keeps view (materialize_if (runtime_onboarding h) h.os h.runtimes_file h.run runtime)
  unfolding materialize_if if_present
  materialize_if-Keeps runtime =
      Keeps-bind _ _ (k.php.materialize _) (λ _. record { at = λ w. refl })

  observe_if-Keeps :
      (service : Text)
      → Keeps view (observe_if (runtime_onboarding h) h.os h.runtimes_file h.run service)
  unfolding observe_if if_present lara_nux.Control.Manager.succeeding
  observe_if-Keeps service = Keeps-when _ _ (
      Keeps-bind _ _ (record { at = status-OutcomeKeeps h k service })
        (λ _. record { at = λ w. refl }))

  pub onboarding-Keeps :
      (request : RuntimeRegistrationRequest)
      → Keeps view (register (runtime_onboarding h) h.os h.runtimes_file h.run request)
  unfolding register register_manually register_from_package_inventory refreshed_inventory
  onboarding-Keeps request = by_key (is_blank request.package_key)
    where
      by_key :
          (b : Bool)
          → Keeps view (
              if b
              then register_manually (runtime_onboarding h) h.os h.runtimes_file h.run request
              else register_from_package_inventory
                  (runtime_onboarding h)
                  h.os
                  h.runtimes_file
                  h.run
                  request)
      by_key true = Keeps-bind _ _ (runtime_register-Keeps h k _) (λ stored.
          Keeps-bind _ _ (materialize_if-Keeps stored) (λ materialization.
            Keeps-bind _ _ (observe_if-Keeps stored.fpm_service) (λ _. record { at = λ w. refl })))
      by_key false = Keeps-bind _ _ k.refresh (λ inventory.
          Keeps-bind _ _ (Keeps-reads _) (λ runtime.
            Keeps-bind _ _ (runtime_register-Keeps h k _) (λ stored.
              Keeps-bind _ _ (materialize_if-Keeps stored)
                (λ materialization. record { at = λ w. refl }))))
