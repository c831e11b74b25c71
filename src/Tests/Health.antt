-- ===== src/Tests/Health.antt =====
-- The health report at concrete inputs.
use lara_nux.Base.{ℕ, true, false, List, [], ◌∷◌, Option, none, some, ◌≡◌, refl, All, Member}
use lara_nux.Text.{Text, Unicode, codes, text_eq, has_suffix}
use lara_nux.Effect.Fault.{Error, ok, value_or}
use lara_nux.Effect.Action.{Action, Outcome, pure}
use lara_nux.World.{Os}
use lara_nux.Services.Interfaces.{ServiceStatus, RuntimeResolver, active, registry_store}
use lara_nux.Sites.Record.{SiteRegistryState}
use lara_nux.Health.Checks.{HealthReport, SiteReadiness}
use lara_nux.Health.Service.{HealthService, report}
use lara_nux.Health.Ready.{report_ready, IsServing}
use lara_nux.Tests.Worlds.{ascii_only, memory_os, memory_file, ending}
use lara_nux.Tests.Services.{one_site}
use lara_nux.Tests.Runtimes.{php_82}

-- Paths that end in `.sock` are sockets.
abbrev with_socket : Os SiteRegistryState
with_socket = record memory_os {
  stat = λ path w. ok (record (ending path) { is_socket = has_suffix (codes ".sock") path });
}

abbrev running : Text → ServiceStatus × Option Error
running name =
    (record { service = name; state = active; summary = codes "active"; updated_at = 5 }, none)

abbrev only_82 : RuntimeResolver SiteRegistryState
only_82 = record {
  get = λ version. pure php_82;
  default_runtime = pure php_82;
  list = pure (php_82 ∷ []);
}

abbrev health : HealthService SiteRegistryState
health = record {
  os = with_socket;
  sites = registry_store with_socket memory_file;
  runtimes = only_82;
  service_status = λ name w. (running name, w);
  inspect_resolver = none;
  socket_path = codes "/run/lara-nux/lara-nux.sock";
  check_available = λ port. pure tt;
  euid = 0;
  clock = λ w. 7;
}

abbrev in_order : List Text → List Text
in_order names = names

abbrev no_report : HealthReport
no_report = record {
  is_ready = false;
  generated_at = 0;
  socket = record { path = []; available = false; summary = [] };
  resolver = none;
  checks = [];
  services = [];
  sites = [];
}

unfoldable healthy : HealthReport
healthy = value_or no_report (report health in_order one_site).0

reported : (report health in_order one_site).0 ≡ ok healthy
unfolding report healthy lara_nux.Effect.Action.◌>>=◌ lara_nux.Sites.Registry.list
    lara_nux.Effect.Action.check lara_nux.Health.Service.resolver_health
    lara_nux.Health.Service.observe_each lara_nux.Health.Service.service_names
    lara_nux.Health.Service.report_behind lara_nux.Health.Service.port_health
    lara_nux.Health.Service.status_at lara_nux.Health.Service.readiness_each
    lara_nux.Health.Service.site_readiness lara_nux.Effect.Action.try
reported = refl

healthy_ready : healthy.is_ready ≡ true
unfolding report healthy lara_nux.Effect.Action.◌>>=◌ lara_nux.Sites.Registry.list
    lara_nux.Effect.Action.check lara_nux.Health.Service.resolver_health
    lara_nux.Health.Service.observe_each lara_nux.Health.Service.service_names
    lara_nux.Health.Service.report_behind lara_nux.Health.Service.port_health
    lara_nux.Health.Service.status_at lara_nux.Health.Service.readiness_each
    lara_nux.Health.Service.site_readiness lara_nux.Effect.Action.try
    lara_nux.Health.Service.report_of lara_nux.Health.Checks.readiness_of
    lara_nux.Sites.Registry.Paths.validate_laravel_path ending lara_nux.Text.join_path
    lara_nux.Base.all lara_nux.Base.sort lara_nux.Health.Checks.inspect_socket
    lara_nux.Health.Checks.php_service_name lara_nux.Health.Service.host_checks
    lara_nux.Health.Service.observed lara_nux.Health.Service.with_error text_eq has_suffix
    lara_nux.Text.trim_space
healthy_ready = refl

report_ready_example :
    (healthy.socket.available ≡ true)
    × ((health.euid ≡ 0)
        × All (λ x. IsServing x × Member x.php_service healthy.services) healthy.sites)
report_ready_example = report_ready health in_order one_site healthy reported healthy_ready
