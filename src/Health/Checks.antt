-- ===== src/Health/Checks.antt =====
-- The types of the health report and the checks that need no call: daemon/internal/app/health_service.go.
use lara_nux.Base.{
  ℕ, Bool, true, false, ◌||◌, List, [], ◌∷◌, ◌++◌, Option, is_empty, ltb, ◌==◌, if◌then◌else◌,
}
use lara_nux.Text.{Text, Unicode, codes, lit, text_eq, is_blank, trim_space, decimal}
use lara_nux.Effect.Fault.{Result, ok, err, is_ok}
use lara_nux.World.{Os, FileInfo}
use lara_nux.Sites.Record.{SiteRecord, SiteStatus, ready, degraded, conflict}
use lara_nux.Runtimes.Version.{php_fpm_service_name}
use lara_nux.Runtimes.Registry.{PhpRuntimeRecord}
use lara_nux.Resolver.Stub.{ResolverStatus}
use lara_nux.Services.Interfaces.{
  ServiceState, ServiceStatus, active, inactive, failed, unknown, unset,
}

pub record HealthCheck : Type 0 where
  pub name : Text
  pub capability : Text
  pub passed : Bool
  pub summary : Text
  pub remediation : Text

pub record SiteReadiness : Type 0 where
  pub site : SiteRecord
  pub is_ready : Bool
  pub summary : Text
  pub checks : List HealthCheck
  pub php_service : ServiceStatus
  pub checked_at : ℕ

pub record SocketAvailability : Type 0 where
  pub path : Text
  pub available : Bool
  pub summary : Text

pub record HealthReport : Type 0 where
  pub is_ready : Bool
  pub generated_at : ℕ
  pub socket : SocketAvailability
  pub resolver : Option ResolverStatus
  pub checks : List HealthCheck
  pub services : List ServiceStatus
  pub sites : List SiteReadiness

abbrev pub is_active : ServiceState → Bool
is_active active = true
is_active inactive = false
is_active failed = false
is_active unknown = false
is_active unset = false

state_name : ServiceState → Text
state_name active = codes "active"
state_name inactive = codes "inactive"
state_name failed = codes "failed"
state_name unknown = codes "unknown"
state_name unset = []

-- `FileSocketInspector.Inspect`
socket_of : Text → Result FileInfo → SocketAvailability
socket_of path (err e) = record {
  path = path;
  available = false;
  summary = lit "Daemon socket is unavailable: " ++ e.message;
}
socket_of path (ok info) = record {
  path = path;
  available = info.is_socket;
  summary =
      if info.is_socket
      then lit "Daemon socket is available at " ++ (path ++ lit ".")
      else lit "Configured socket path " ++ (path ++ lit " is not a Unix socket.");
}

unfoldable pub inspect_socket : {σ : Type 0} → Os σ → Text → σ → SocketAvailability
unfolding trim_space socket_of
inspect_socket os path w =
    let trimmed = trim_space path in
    if is_empty trimmed
    then record {
      path = trimmed;
      available = false;
      summary = lit "Daemon socket path is not configured.";
    }
    else socket_of trimmed (os.stat trimmed w)

unfoldable pub privilege_summary : ℕ → Text
privilege_summary euid =
    if euid == 0
    then lit "Daemon has the privileges required for managed services and ports."
    else lit "Daemon is missing root privileges required for orchestration."

unfoldable pub runtime_inventory_summary : ℕ → Text
unfolding decimal
runtime_inventory_summary count =
    if ltb 0 count
    then decimal count ++ lit " PHP runtime(s) registered for site assignment."
    else lit "No supported PHP runtimes have been registered yet."

unfoldable pub site_path_summary : Result (Unit {0}) → Text → Text
site_path_summary (ok _) root_path = lit "Laravel project path is valid: " ++ root_path
site_path_summary (err e) root_path = e.message

unfoldable pub runtime_summary : Result PhpRuntimeRecord → Text → Text
runtime_summary (ok _) version = lit "PHP " ++ (version ++ lit " is registered for site switching.")
runtime_summary (err e) version = e.message

unfoldable pub service_health_summary : Text → ServiceStatus → Text
unfolding is_blank state_name
service_health_summary service status =
    if is_blank service
    then lit "Service name is not configured."
    else if is_empty status.service
    then lit "Service " ++ (service ++ lit " has not been observed yet.")
    else lit "Service "
      ++ (status.service
          ++ (lit " is "
              ++ (state_name status.state ++ (lit " (" ++ (status.summary ++ lit ").")))))

-- What `siteReadiness` makes of the checks: the first one that did not pass decides.
pub record Verdict : Type 0 where
  pub all_passed : Bool
  pub status : SiteStatus
  pub summary : Text

failed_status : Text → SiteStatus
unfolding text_eq
failed_status name =
    if text_eq name (codes "laravel-project") || text_eq name (codes "php-runtime")
    then conflict
    else degraded

unfoldable pub verdict : List HealthCheck → Verdict
unfolding failed_status
verdict [] = record {
  all_passed = true;
  status = ready;
  summary = lit "Site is ready to serve local traffic.";
}
verdict (check ∷ checks) =
    let rest = verdict checks in
    if check.passed
    then rest
    else record { all_passed = false; status = failed_status check.name; summary = check.summary }

-- The checks of a site, from what was found out about it.
unfoldable pub site_checks :
    SiteRecord
    → Result (Unit {0})
    → Result PhpRuntimeRecord
    → ServiceStatus
    → ServiceStatus
    → List HealthCheck
unfolding site_path_summary runtime_summary service_health_summary
site_checks site path runtime caddy php_service =
    record {
      name = codes "laravel-project";
      capability = codes "local-site-serving";
      passed = is_ok path;
      summary = site_path_summary path site.root_path;
      remediation =
          lit
            "Point the site at a Laravel project root containing artisan, composer.json, and public/index.php.";
    }
    ∷ record {
      name = codes "php-runtime";
      capability = codes "php-runtime-management";
      passed = is_ok runtime;
      summary = runtime_summary runtime site.php_version;
      remediation = lit "Register the requested PHP runtime and retry the site activation.";
    }
    ∷ record {
      name = codes "caddy-service";
      capability = codes "service-orchestration";
      passed = is_active caddy.state;
      summary = service_health_summary (codes "caddy") caddy;
      remediation = lit "Start or restart the caddy service through /rpc/services.action.";
    }
    ∷ record {
      name = codes "php-fpm-service";
      capability = codes "service-orchestration";
      passed = is_active php_service.state;
      summary = service_health_summary php_service.service php_service;
      remediation = lit "Start or restart the PHP-FPM service for the selected runtime.";
    }
    ∷ []

-- The service that a site's PHP runs under: that of the registered runtime, or the usual one of
-- its version.
unfoldable pub php_service_name : ⦃u : Unicode⦄ → SiteRecord → Result PhpRuntimeRecord → Text
unfolding php_fpm_service_name
php_service_name site (ok runtime) = runtime.fpm_service
php_service_name site (err _) = php_fpm_service_name site.php_version

unfoldable pub readiness_of :
    ⦃u : Unicode⦄
    → SiteRecord
    → Result (Unit {0})
    → Result PhpRuntimeRecord
    → ServiceStatus
    → (Text → ServiceStatus)
    → ℕ
    → SiteReadiness
unfolding verdict site_checks php_service_name
readiness_of site path runtime caddy status_at checked_at =
    let php_service = status_at (php_service_name site runtime) in
    let checks = site_checks site path runtime caddy php_service in
    let found = verdict checks in
    record {
      site = record site {
        status = found.status;
        status_message = found.summary;
        last_checked_at = checked_at;
      };
      is_ready = found.all_passed;
      summary = found.summary;
      checks = checks;
      php_service = php_service;
      checked_at = checked_at;
    }
