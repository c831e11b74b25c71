-- ===== src/Onboarding/Catalog.antt =====
-- `RuntimeCatalogService`: daemon/internal/app/runtime_catalog.go.
use lara_nux.Base.{List, [], Option, none, some, if◌then◌else◌}
use lara_nux.Text.{Text, Unicode}
use lara_nux.Effect.Fault.{Result, ok, err, is, runtime_not_found}
use lara_nux.Effect.Action.{Action, ◌>>=◌, pure, lift, try}
use lara_nux.World.{Os, StateFile}
use lara_nux.Runtimes.Registry
use lara_nux.Runtimes.Registry.{PhpRuntimeRecord, PhpRegistryState}
use lara_nux.Fpm.Runtime.{PhpRuntime}
use lara_nux.Packages.Catalog.{SupportedPackage}

pub record RuntimeCatalog : Type 0 where
  pub registered : List PhpRuntimeRecord
  pub default_runtime : Option PhpRuntimeRecord
  pub supported_packages : List SupportedPackage
  pub detected_runtimes : List PhpRuntime

-- `host.PackageManager`, as far as the catalog calls it.
pub record PackageManager (σ : Type 0) : Type 0 where
  pub supported_packages : List SupportedPackage
  pub refresh_runtime_inventory : Action σ (List PhpRuntime)

-- A default runtime that is not found is none.
found_or_none : Result PhpRuntimeRecord → Result (Option PhpRuntimeRecord)
unfolding is
found_or_none (ok runtime) = ok (some runtime)
found_or_none (err e) = if is runtime_not_found e then ok none else err e

module _ {σ : Type 0} (os : Os σ) (file : StateFile σ PhpRegistryState) ⦃u : Unicode⦄ where
  -- `DefaultRuntime`
  unfoldable pub default_runtime : Action σ (Option PhpRuntimeRecord)
  unfolding found_or_none
  default_runtime = do found ← try (Registry.default_runtime os file); lift (found_or_none found)

  -- `ListRegistered`
  unfoldable pub list_registered : Action σ (List PhpRuntimeRecord)
  list_registered = Registry.list os file

  -- `SetDefault`
  unfoldable pub set_default : Text → Action σ PhpRuntimeRecord
  set_default version = Registry.set_default os file version

  with_packages : RuntimeCatalog → Option (PackageManager σ) → Action σ RuntimeCatalog
  with_packages catalog none = pure catalog
  with_packages catalog (some packages) = do
    detected ← packages.refresh_runtime_inventory
    pure (record catalog {
      supported_packages = packages.supported_packages;
      detected_runtimes = detected;
    })

  -- `Inventory`
  unfoldable pub inventory : Option (PackageManager σ) → Action σ RuntimeCatalog
  unfolding with_packages
  inventory packages = do
    registered ← list_registered
    default ← default_runtime
    with_packages
        (record {
          registered = registered;
          default_runtime = default;
          supported_packages = [];
          detected_runtimes = [];
        })
        packages
