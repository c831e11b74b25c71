-- ===== src/Onboarding/Service.antt =====
-- `RuntimeOnboardingService`: daemon/internal/app/runtime_onboarding.go.
use lara_nux.Base.{
  Bool, true, false, not, List, [], ◌∷◌, ◌++◌, Option, none, some, is_empty, find, if◌then◌else◌,
}
use lara_nux.Text.{Text, Unicode, codes, lit, text_eq, is_blank, trim_space, to_lower}
use lara_nux.Effect.Fault.{Error, Result, ok, err, sentinel, plain, runtime_not_found}
use lara_nux.Effect.Action.{Action, ◌>>=◌, ◌>>◌, pure, raise, lift, when}
use lara_nux.World.{Os, StateFile}
use lara_nux.Runtimes.Version.{normalize_php_version, first_non_empty_string}
use lara_nux.Runtimes.Registry
use lara_nux.Runtimes.Registry.{PhpRuntimeRecord, RuntimeRegistrationInput, PhpRegistryState}
use lara_nux.Fpm.Runtime.{PhpRuntime, PhpMaterialization}
use lara_nux.Services.Interfaces.{PhpRuntimeMaterializer, ServiceController, if_present}
use lara_nux.Services.Hosting.{runtime_to_host}

pub record RuntimeRegistrationRequest : Type 0 where
  pub version : Text
  pub binary_path : Text
  pub fpm_service : Text
  pub source : Text
  pub package_key : Text

pub record RuntimeRegistrationResult : Type 0 where
  pub runtime : PhpRuntimeRecord
  pub materialization : Option PhpMaterialization
  pub installed_from : Text
  pub refreshed : Bool

-- `packages` is `RefreshRuntimeInventory` of the package manager.
pub record RuntimeOnboardingService (σ : Type 0) : Type 0 where
  pub packages : Option (Action σ (List PhpRuntime))
  pub material : Option (PhpRuntimeMaterializer σ)
  pub services : Option (ServiceController σ)

module _ ⦃u : Unicode⦄ where
  -- `packageRuntimeKey`
  unfoldable pub package_runtime_key : Text → Text
  unfolding normalize_php_version
  package_runtime_key version =
      let normalized = normalize_php_version version in
      if is_empty normalized then [] else codes "php-" ++ normalized

  unfoldable pub requested_key : RuntimeRegistrationRequest → Text
  unfolding to_lower trim_space
  requested_key request = to_lower (trim_space request.package_key)

  -- The runtime that the loop over the inventory does not pass over.
  unfoldable pub is_offered : Text → Text → PhpRuntime → Bool
  unfolding text_eq normalize_php_version package_runtime_key
  is_offered target key runtime =
      if is_empty target
      then text_eq (package_runtime_key runtime.version) key
      else text_eq (normalize_php_version runtime.version) target

  not_offered : Text → Text → Error
  not_offered target key =
      if is_empty target
      then sentinel runtime_not_found (
          lit "php runtime not found: package inventory "
          ++ (key ++ lit " does not expose a supported runtime"))
      else sentinel runtime_not_found (
          lit "php runtime not found: runtime "
          ++ (target ++ (lit " is not available from package inventory " ++ key)))

  unfoldable pub offered : Text → Text → List PhpRuntime → Result PhpRuntime
  unfolding find is_offered not_offered
  offered target key inventory = elim (find (is_offered target key) inventory) [
    | none ↦ err (not_offered target key)
    | some runtime ↦ ok runtime
  ]

  unfoldable pub input_from : RuntimeRegistrationRequest → PhpRuntime → RuntimeRegistrationInput
  unfolding first_non_empty_string requested_key
  input_from request runtime = record {
    version = runtime.version;
    binary_path = runtime.binary_path;
    fpm_service = runtime.service_name;
    source = first_non_empty_string (request.source ∷ requested_key request ∷ []);
  }

  unfoldable pub manual_input : RuntimeRegistrationRequest → RuntimeRegistrationInput
  unfolding first_non_empty_string
  manual_input request = record {
    version = request.version;
    binary_path = request.binary_path;
    fpm_service = request.fpm_service;
    source = first_non_empty_string (request.source ∷ codes "manual" ∷ []);
  }

unfoldable pub refreshed_inventory :
    {σ : Type 0} → Option (Action σ (List PhpRuntime)) → Action σ (List PhpRuntime)
refreshed_inventory none = raise (plain (lit "runtime package onboarding is not configured"))
refreshed_inventory (some refresh) = refresh

module _ {σ : Type 0} (s : RuntimeOnboardingService σ) (os : Os σ)
    (file : StateFile σ PhpRegistryState) (run : Text → Action σ (Text × Option Error))
    ⦃u : Unicode⦄ where
  -- `if s.material != nil { … MaterializeRuntime … }`
  unfoldable pub materialize_if : PhpRuntimeRecord → Action σ (Option PhpMaterialization)
  materialize_if runtime =
      if_present s.material none
        (λ m. m.materialize_runtime (runtime_to_host runtime) >>= λ done. pure (some done))

  -- `registerFromPackageInventory`
  unfoldable pub register_from_package_inventory :
      RuntimeRegistrationRequest → Action σ RuntimeRegistrationResult
  register_from_package_inventory request = do
    inventory ← refreshed_inventory s.packages
    runtime ←
        lift (offered (normalize_php_version request.version) (requested_key request) inventory)
    stored ← Registry.register os file run (input_from request runtime)
    materialization ← materialize_if stored
    pure (record {
      runtime = stored;
      materialization = materialization;
      installed_from = requested_key request;
      refreshed = true;
    })

  -- The status of the new runtime's service is asked for if the runtime was materialized.
  unfoldable pub observe_if : Text → Action σ (Unit {0})
  unfolding is_blank
  observe_if service = if_present s.material tt (λ _.
      if_present s.services tt
        (λ services. when (not (is_blank service)) (services.status service >>= λ _. pure tt)))

  unfoldable pub register_manually : RuntimeRegistrationRequest → Action σ RuntimeRegistrationResult
  register_manually request = do
    stored ← Registry.register os file run (manual_input request)
    materialization ← materialize_if stored
    observe_if stored.fpm_service
    pure (record {
      runtime = stored;
      materialization = materialization;
      installed_from = [];
      refreshed = false;
    })

  -- `Register`
  unfoldable pub register : RuntimeRegistrationRequest → Action σ RuntimeRegistrationResult
  unfolding is_blank
  register request =
      if is_blank request.package_key
      then register_manually request
      else register_from_package_inventory request
