-- ===== src/Api/Requests.antt =====
-- The requests of the RPC endpoints and what the router calls: daemon/internal/api.
use lara_nux.Base.{List, Option, if◌then◌else◌}
use lara_nux.Text.{Text, codes, text_eq}
use lara_nux.Effect.Fault.{Result}
use lara_nux.Effect.Action.{Action, Outcome}
use lara_nux.Sites.Record.{SiteRecord, SiteRegistrationInput}
use lara_nux.Runtimes.Registry.{PhpRuntimeRecord}
use lara_nux.Services.Interfaces.{ServiceStatus}
use lara_nux.Services.Activation.{ActivationResult}
use lara_nux.Services.Management.{SiteUpdateInput}
use lara_nux.Control.Systemd.{ServiceAction, start, stop, restart, status, other}
use lara_nux.Onboarding.Service.{RuntimeRegistrationRequest, RuntimeRegistrationResult}
use lara_nux.Onboarding.Catalog.{RuntimeCatalog}
use lara_nux.Health.Checks.{HealthReport}

pub record RegisterSiteRequest : Type 0 where
  pub root_path : Text
  pub domain : Text
  pub php_version : Text

pub record UpdateSiteRequest : Type 0 where
  pub site_id : Text
  pub root_path : Option Text
  pub domain : Option Text
  pub php_version : Option Text

pub record SwitchPhpRequest : Type 0 where
  pub site_id : Text
  pub php_version : Text

pub record RegisterPhpRequest : Type 0 where
  pub version : Text
  pub binary_path : Text
  pub fpm_service : Text
  pub source : Text
  pub package_key : Text

pub record SetDefaultPhpRequest : Type 0 where
  pub version : Text

pub record ServiceActionRequest : Type 0 where
  pub service : Text
  pub action : Text

-- An HTTP request: its method, the path of its URL, the value of `siteId` in its query, its body.
pub record Request : Type 0 where
  pub method : Text
  pub path : Text
  pub site_id : Text
  pub body : Text

-- `decodeJSON` on the request types.
pub record Decoders : Type 0 where
  pub register_site : Text → Result RegisterSiteRequest
  pub update_site : Text → Result UpdateSiteRequest
  pub switch_php : Text → Result SwitchPhpRequest
  pub register_php : Text → Result RegisterPhpRequest
  pub set_default_php : Text → Result SetDefaultPhpRequest
  pub service_action : Text → Result ServiceActionRequest

-- `RouterDependencies`: the methods of the services that the handlers call.
pub record RouterDependencies (σ : Type 0) : Type 0 where
  pub health_report : Action σ HealthReport
  pub list_sites : Action σ (List SiteRecord)
  pub get_site : Text → Action σ SiteRecord
  pub activate_site : SiteRegistrationInput → Action σ ActivationResult
  pub update_site : SiteUpdateInput → Action σ SiteRecord
  pub list_registered : Action σ (List PhpRuntimeRecord)
  pub default_runtime : Action σ (Option PhpRuntimeRecord)
  pub set_default : Text → Action σ PhpRuntimeRecord
  pub inventory : Action σ RuntimeCatalog
  pub onboard_runtime : RuntimeRegistrationRequest → Action σ RuntimeRegistrationResult
  pub switch_site_runtime : Text → Text → Action σ SiteRecord
  pub service_action : Text → ServiceAction → Outcome σ ServiceStatus

-- What a response carries.
pub data Payload : Type 0 where
  report : HealthReport → Payload
  sites : List SiteRecord → Payload
  site : SiteRecord → Payload
  activation : ActivationResult → Payload
  runtimes : List PhpRuntimeRecord → Payload
  runtime : Option PhpRuntimeRecord → Payload
  catalog : RuntimeCatalog → Payload
  registration : RuntimeRegistrationResult → Payload
  service : ServiceStatus → Payload

-- `app.ServiceAction(request.Action)`
unfoldable pub service_action_of : Text → ServiceAction
unfolding text_eq
service_action_of name =
    if text_eq name (codes "start")
    then start
    else if text_eq name (codes "stop")
    then stop
    else if text_eq name (codes "restart")
    then restart
    else if text_eq name (codes "status")
    then status
    else other name

unfoldable pub registration_input : RegisterSiteRequest → SiteRegistrationInput
registration_input request = record {
  root_path = request.root_path;
  domain = request.domain;
  php_version = request.php_version;
}

unfoldable pub update_input : UpdateSiteRequest → SiteUpdateInput
update_input request = record {
  site_id = request.site_id;
  root_path = request.root_path;
  domain = request.domain;
  php_version = request.php_version;
}

unfoldable pub onboarding_request : RegisterPhpRequest → RuntimeRegistrationRequest
onboarding_request request = record {
  version = request.version;
  binary_path = request.binary_path;
  fpm_service = request.fpm_service;
  source = request.source;
  package_key = request.package_key;
}
