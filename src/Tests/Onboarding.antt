-- ===== src/Tests/Onboarding.antt =====
-- The onboarding of runtimes at concrete inputs.
use lara_nux.Base.{true, List, [], ◌∷◌, none, some, ◌≡◌, refl}
use lara_nux.Text.{codes}
use lara_nux.Effect.Fault.{ok}
use lara_nux.Effect.Action.{Action, pure}
use lara_nux.Runtimes.Version.{is_supported}
use lara_nux.Runtimes.Registry.{PhpRuntimeRecord, PhpRegistryState, with_runtime}
use lara_nux.Fpm.Runtime.{PhpRuntime}
use lara_nux.Onboarding.Service.{
  RuntimeOnboardingService, RuntimeRegistrationRequest, RuntimeRegistrationResult, register,
}
use lara_nux.Onboarding.Registered.{OnboardingKeeps, onboarding_registers, fits}
use lara_nux.Tests.Worlds.{
  ascii_only, memory_os, memory_file, memory_laws, says_83, says-Keeps, ending,
}
use lara_nux.Tests.Runtimes.{php_83}

abbrev empty_registry : PhpRegistryState
empty_registry = record { default_version = []; runtimes = [] }

abbrev installed_83 : PhpRuntime
installed_83 = record {
  version = codes "8.3";
  binary_path = codes "/usr/bin/php8.3";
  fpm_binary_path = codes "/usr/sbin/php-fpm8.3";
  service_name = codes "php8.3-fpm";
  socket_path = codes "/run/php/lara-nux-php8.3-fpm.sock";
}

abbrev inventory : Action PhpRegistryState (List PhpRuntime)
inventory = pure (installed_83 ∷ [])

abbrev onboarding : RuntimeOnboardingService PhpRegistryState
onboarding = record { packages = some inventory; material = none; services = none }

onboarding-Keeps : OnboardingKeeps (memory_laws {S = PhpRegistryState}).content onboarding
onboarding-Keeps = record { packages = record { at = λ w. refl }; material = tt; services = tt }

abbrev by_key : RuntimeRegistrationRequest
by_key = record {
  version = [];
  binary_path = [];
  fpm_service = [];
  source = [];
  package_key = codes " PHP-8.3 ";
}

abbrev by_key_result : RuntimeRegistrationResult
by_key_result = record {
  runtime = record php_83 { source = codes "php-8.3" };
  materialization = none;
  installed_from = codes "php-8.3";
  refreshed = true;
}

key_registered :
    (register onboarding memory_os memory_file says_83 by_key empty_registry).0 ≡ ok by_key_result
unfolding register lara_nux.Onboarding.Service.register_from_package_inventory
    lara_nux.Effect.Action.◌>>=◌ lara_nux.Onboarding.Service.refreshed_inventory
    lara_nux.Onboarding.Service.offered lara_nux.Onboarding.Service.requested_key
    lara_nux.Runtimes.Registry.register lara_nux.Effect.Action.check
    lara_nux.Runtimes.Registry.Paths.normalize_executable_path
    lara_nux.Onboarding.Service.input_from ending is_supported
    lara_nux.Onboarding.Service.materialize_if lara_nux.Services.Interfaces.if_present
key_registered = refl

onboarding_registers_example :
    ((memory_laws {S = PhpRegistryState}).content
        (register onboarding memory_os memory_file says_83 by_key empty_registry).1
      ≡ some (with_runtime by_key_result.runtime empty_registry))
    × (is_supported by_key_result.runtime.version ≡ true)
    × (fits by_key by_key_result.runtime.version ≡ true)
onboarding_registers_example =
    onboarding_registers onboarding memory_os memory_file says_83 memory_laws says-Keeps
      onboarding-Keeps empty_registry by_key empty_registry by_key_result refl key_registered
