-- ===== src/Health/Service.antt =====
-- `HealthService`: daemon/internal/app/health_service.go.
use lara_nux.Base.{
  ℕ, Bool, true, false, ◌&&◌, ◌||◌, not, List, [], ◌∷◌, ◌++◌, Option, none, some, is_empty, is_some,
  ltb, ◌==◌, any, all, length, if◌then◌else◌,
}
use lara_nux.Text.{Text, Unicode, codes, lit, text_eq, is_blank, decimal}
use lara_nux.Effect.Fault.{Error, Result, ok, err, is, access_denied, not_permitted}
use lara_nux.Effect.Action.{Action, Outcome, ◌>>=◌, pure, gets, try}
use lara_nux.World.{Os}
use lara_nux.Sites.Record.{SiteRecord}
use lara_nux.Sites.Registry.Paths.{validate_laravel_path}
use lara_nux.Runtimes.Version.{php_fpm_service_name, first_non_empty_string}
use lara_nux.Resolver.Stub.{ResolverStubSpec, ResolverStatus}
use lara_nux.Services.Interfaces.{ServiceStatus, SiteStore, RuntimeResolver}
use lara_nux.Control.Systemd.{zero_status, is_unknown}
use lara_nux.Health.Checks.{
  HealthCheck, SiteReadiness, SocketAvailability, HealthReport, is_active, inspect_socket,
  privilege_summary, runtime_inventory_summary, readiness_of,
}

-- `os` stands for the queries of `FileSocketInspector` and `ValidateLaravelPath`.
pub record HealthService (σ : Type 0) : Type 0 where
  pub os : Os σ
  pub sites : SiteStore σ
  pub runtimes : RuntimeResolver σ
  pub service_status : Text → Outcome σ ServiceStatus
  pub inspect_resolver : Option (ResolverStubSpec → Outcome σ ResolverStatus)
  pub socket_path : Text
  pub check_available : ℕ → Action σ (Unit {0})
  pub euid : ℕ
  pub clock : σ → ℕ

-- The keys of the map `serviceNames`.
unfoldable pub service_names : ⦃u : Unicode⦄ → List Text → List SiteRecord → List Text
unfolding any text_eq php_fpm_service_name
service_names names [] = names
service_names names (site ∷ sites) =
    let name = php_fpm_service_name site.php_version in
    let kept = service_names names sites in
    let more = service_names (name ∷ names) sites in if any (text_eq name) names then kept else more

-- The names that the loop passes over.
unfoldable pub is_skipped : Text → Bool
unfolding is_blank text_eq
is_skipped name = is_blank name || text_eq name (codes "php-fpm")

-- A status with the error that came with it: an unknown state shows it.
unfoldable pub with_error : ServiceStatus × Option Error → ServiceStatus
with_error (status, none) = status
with_error (status, some e) =
    if is_unknown status.state then record status { summary = e.message } else status

-- `serviceStatuses[name]`, with the zero value for a name that is not there.
unfoldable pub status_at : List (Text × ServiceStatus) → Text → ServiceStatus
unfolding text_eq
status_at [] name = zero_status
status_at ((key, status) ∷ statuses) name =
    let rest = status_at statuses name in if text_eq key name then status else rest

unfoldable pub observed : List (Text × ServiceStatus) → List ServiceStatus
observed [] = []
observed ((key, status) ∷ statuses) = status ∷ observed statuses

resolver_check : ResolverStatus → Option Error → HealthCheck
unfolding first_non_empty_string text_eq
resolver_check status error = record {
  name = codes "resolver-test-routing";
  capability = codes "local-dns-routing";
  passed =
      not (is_some error)
      && (is_empty status.conflicts
          && (status.managed || text_eq status.owner (codes "available")));
  summary = status.summary;
  remediation = first_non_empty_string (
      status.remediation
      ∷ codes "Resolve the conflicting systemd-resolved ownership before managing .test domains."
      ∷ []);
}

-- The inspected resolver: its status under the error that came with it, and the check.
resolver_part : ResolverStatus × Option Error → ResolverStatus × HealthCheck
unfolding resolver_check
resolver_part (status, none) = (status, resolver_check status none)
resolver_part (status, some e) =
    let shown = record status { summary = e.message } in (shown, resolver_check shown (some e))

unfoldable pub host_checks : SocketAvailability → ℕ → ℕ → List HealthCheck
unfolding privilege_summary runtime_inventory_summary
host_checks socket euid count =
    record {
      name = codes "daemon-socket";
      capability = codes "daemon";
      passed = socket.available;
      summary = socket.summary;
      remediation =
          lit "Start the daemon systemd unit and restore the managed Unix socket path/permissions.";
    }
    ∷ record {
      name = codes "privileges";
      capability = codes "daemon";
      passed = euid == 0;
      summary = privilege_summary euid;
      remediation =
          lit
            "Run the daemon as a privileged system service so it can own the Unix socket, ports, and system units.";
    }
    ∷ record {
      name = codes "php-runtime-inventory";
      capability = codes "php-runtime-management";
      passed = ltb 0 count;
      summary = runtime_inventory_summary count;
      remediation = lit "Register at least one supported PHP runtime before activating sites.";
    }
    ∷ []

-- What `portHealth` says of a port, as the check that `Report` makes of it.
port_check : ℕ → Bool → Text → Text → HealthCheck
unfolding decimal
port_check port passed summary remediation = record {
  name = codes "port-" ++ decimal port;
  capability = codes "service-orchestration";
  passed = passed;
  summary = summary;
  remediation = remediation;
}

tried_port : ℕ → Result (Unit {0}) → HealthCheck
unfolding port_check is decimal
tried_port port (ok _) =
    port_check port true
      (lit "Port " ++ (decimal port ++ lit " is available for Lara Nux to claim.")) []
tried_port port (err e) =
    if is access_denied e || is not_permitted e
    then port_check port false
        (lit "Port "
          ++ (decimal port ++ lit " requires elevated privileges before Lara Nux can claim it."))
        (lit "Run the daemon as root through the managed systemd unit before checking readiness.")
    else port_check port false
        (lit "Port " ++ (decimal port ++ (lit " is unavailable: " ++ e.message)))
        (lit "Stop the conflicting service or free the port before starting the local environment.")

owned_port : ℕ → HealthCheck
unfolding port_check decimal
owned_port port =
    port_check port true
      (lit "Port " ++ (decimal port ++ lit " is owned by the managed caddy service.")) []

-- What `Report` makes of all that was found out.
unfoldable pub report_of :
    ℕ
    → SocketAvailability
    → Option (ResolverStatus × HealthCheck)
    → List HealthCheck
    → List ServiceStatus
    → List SiteReadiness
    → HealthReport
unfolding all
report_of generated_at socket resolver checks services sites =
    let listed : List HealthCheck = elim resolver [
      | none ↦ checks
      | some (_, check) ↦ check ∷ checks
    ] in
    record {
      is_ready = all (λ site. site.is_ready) sites && all (λ check. check.passed) listed;
      generated_at = generated_at;
      socket = socket;
      resolver = elim resolver [ none ↦ none | some (status, _) ↦ some status ];
      checks = listed;
      services = services;
      sites = sites;
    }

module _ {σ : Type 0} (s : HealthService σ) ⦃u : Unicode⦄ where
  unfoldable pub resolver_health : Action σ (Option (ResolverStatus × HealthCheck))
  unfolding resolver_part
  resolver_health w = elim s.inspect_resolver [
    | none ↦ (ok none, w)
    | some inspect ↦
        let (found, w') =
          inspect (record { domain = codes "test"; address = codes "127.0.0.1" }) w in
        (ok (some (resolver_part found)), w')
  ]

  -- The loop over the service names.
  unfoldable pub observe_each : List Text → Action σ (List (Text × ServiceStatus))
  unfolding is_skipped with_error
  observe_each [] w = (ok [], w)
  observe_each (name ∷ names) w =
      let (found, w') = s.service_status name w in
      let skipping = observe_each names w in
      let observing = (observe_each names >>= λ rest. pure ((name, with_error found) ∷ rest)) w' in
      if is_skipped name then skipping else observing

  -- `portHealth`
  unfoldable pub port_health : ℕ → ServiceStatus → Action σ HealthCheck
  unfolding owned_port tried_port
  port_health port caddy =
      if is_active caddy.state
      then pure (owned_port port)
      else (try (s.check_available port) >>= λ r. pure (tried_port port r))

  -- `siteReadiness`
  unfoldable pub site_readiness :
      SiteRecord → ServiceStatus → (Text → ServiceStatus) → ℕ → Action σ SiteReadiness
  site_readiness site caddy statuses checked_at = do
    path ← gets (λ w. validate_laravel_path s.os w site.root_path)
    runtime ← try (s.runtimes.get site.php_version)
    pure (readiness_of site path runtime caddy statuses checked_at)

  unfoldable pub readiness_each :
      List SiteRecord → ServiceStatus → (Text → ServiceStatus) → ℕ → Action σ (List SiteReadiness)
  readiness_each [] caddy statuses checked_at = pure []
  readiness_each (site ∷ sites) caddy statuses checked_at = do
    readiness ← site_readiness site caddy statuses checked_at
    rest ← readiness_each sites caddy statuses checked_at
    pure (readiness ∷ rest)

  -- The part of `Report` behind the statuses of the services.
  unfoldable pub report_behind :
      ℕ
      → SocketAvailability
      → Option (ResolverStatus × HealthCheck)
      → List SiteRecord
      → ℕ
      → (Text → ServiceStatus)
      → List ServiceStatus
      → Action σ HealthReport
  unfolding host_checks
  report_behind generated_at socket resolver sites runtime_count statuses services = do
    let caddy = statuses (codes "caddy")
    http ← port_health 80 caddy
    https ← port_health 443 caddy
    readiness ← readiness_each sites caddy statuses generated_at
    pure (
        report_of generated_at socket resolver
          (host_checks socket s.euid runtime_count ++ (http ∷ https ∷ [])) services readiness)

  -- `Report`. `visit` is the order in which Go's `range` goes over the keys of the map.
  unfoldable pub report : (List Text → List Text) → Action σ HealthReport
  report visit = do
    generated_at ← gets s.clock
    socket ← gets (inspect_socket s.os s.socket_path)
    sites ← s.sites.list
    runtimes ← s.runtimes.list
    resolver ← resolver_health
    statuses ← observe_each (visit (service_names (codes "caddy" ∷ []) sites))
    report_behind generated_at socket resolver sites (length runtimes) (status_at statuses)
        (observed statuses)
