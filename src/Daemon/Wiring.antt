-- ===== src/Daemon/Wiring.antt =====
-- The services that `main` builds, and what they give the router: daemon/cmd/lara-nuxd/main.go.
use lara_nux.Base.{ℕ, List, Option, some}
use lara_nux.Text.{Text, Unicode, codes, trim_space}
use lara_nux.Effect.Fault.{Error}
use lara_nux.Effect.Action.{Action, Outcome}
use lara_nux.World.{Os, StateFile}
use lara_nux.Sites.Record.{SiteRegistryState}
use lara_nux.Sites.Registry as Sites
use lara_nux.Runtimes.Registry as Runtimes
use lara_nux.Runtimes.Registry.{PhpRegistryState}
use lara_nux.Resolver.Stub.{ResolverStubSpec, ResolverStatus}
use lara_nux.Services.Interfaces.{
  RuntimeResolver, ResolverProvisioner, WebActivator, PhpRuntimeMaterializer, registry_store,
}
use lara_nux.Services.Activation.{SiteActivationService, activate}
use lara_nux.Services.Management.{SiteManagementService, update}
use lara_nux.Services.Switch.{PhpManager, switch_site_runtime}
use lara_nux.Control.Manager.{HostServices, controller, status_of}
use lara_nux.Control.Manager as Control
use lara_nux.Health.Service.{HealthService, report}
use lara_nux.Onboarding.Service.{RuntimeOnboardingService}
use lara_nux.Onboarding.Service as Onboarding
use lara_nux.Onboarding.Catalog.{PackageManager}
use lara_nux.Onboarding.Catalog
use lara_nux.Api.Requests.{RouterDependencies}

-- What `main` builds the services of: the state files, and the managers of the host over the same
-- world. `run` executes a PHP binary, `visit` is the order in which Go goes over a map.
pub record Host (σ : Type 0) : Type 0 where
  pub os : Os σ
  pub sites_file : StateFile σ SiteRegistryState
  pub runtimes_file : StateFile σ PhpRegistryState
  pub run : Text → Action σ (Text × Option Error)
  pub services : HostServices σ
  pub resolver : ResolverProvisioner σ
  pub resolver_status : ResolverStubSpec → Outcome σ ResolverStatus
  pub web : WebActivator σ
  pub php : PhpRuntimeMaterializer σ
  pub packages : PackageManager σ
  pub check_available : ℕ → Action σ (Unit {0})
  pub euid : ℕ
  pub socket_path : Text
  pub visit : List Text → List Text

module _ {σ : Type 0} (h : Host σ) ⦃u : Unicode⦄ where
  abbrev pub php_registry : RuntimeResolver σ
  php_registry = record {
    get = Runtimes.get h.os h.runtimes_file;
    default_runtime = Runtimes.default_runtime h.os h.runtimes_file;
    list = Runtimes.list h.os h.runtimes_file;
  }

  abbrev pub php_manager : PhpManager σ
  php_manager = record {
    sites = registry_store h.os h.sites_file;
    runtimes = php_registry;
    services = controller h.services;
    host_php = some h.php;
    web = some h.web;
  }

  -- `NewSiteActivationService`
  abbrev pub site_activation : SiteActivationService σ
  site_activation = record {
    sites = registry_store h.os h.sites_file;
    runtimes = php_registry;
    resolver = some h.resolver;
    web = some h.web;
    php = some h.php;
    services = some (controller h.services);
    clock = h.os.now;
    stub_spec = record { domain = codes "test"; address = codes "127.0.0.1" };
  }

  abbrev pub site_management : SiteManagementService σ
  site_management = record {
    os = h.os;
    sites = registry_store h.os h.sites_file;
    runtimes = php_registry;
    web = some h.web;
    host_php = some h.php;
    services = some (controller h.services);
    clock = h.os.now;
  }

  abbrev pub runtime_onboarding : RuntimeOnboardingService σ
  runtime_onboarding = record {
    packages = some h.packages.refresh_runtime_inventory;
    material = some h.php;
    services = some (controller h.services);
  }

  -- `NewHealthService`
  abbrev pub health_service : HealthService σ
  health_service = record {
    os = h.os;
    sites = registry_store h.os h.sites_file;
    runtimes = php_registry;
    service_status = status_of h.services;
    inspect_resolver = some h.resolver_status;
    socket_path = trim_space h.socket_path;
    check_available = h.check_available;
    euid = h.euid;
    clock = h.os.now;
  }

  -- `SiteManagementService.Get` trims the id.
  abbrev pub dependencies : RouterDependencies σ
  dependencies = record {
    health_report = report health_service h.visit;
    list_sites = Sites.list h.os h.sites_file;
    get_site = λ id. Sites.get h.os h.sites_file (trim_space id);
    activate_site = activate site_activation;
    update_site = update site_management;
    list_registered = Catalog.list_registered h.os h.runtimes_file;
    default_runtime = Catalog.default_runtime h.os h.runtimes_file;
    set_default = Catalog.set_default h.os h.runtimes_file;
    inventory = Catalog.inventory h.os h.runtimes_file (some h.packages);
    onboard_runtime = Onboarding.register runtime_onboarding h.os h.runtimes_file h.run;
    switch_site_runtime = switch_site_runtime php_manager;
    service_action = Control.action h.services;
  }
