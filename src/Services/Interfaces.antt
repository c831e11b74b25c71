-- ===== src/Services/Interfaces.antt =====
-- The interfaces of daemon/internal/app/orchestration.go, over a world, and the registries that
-- stand behind two of them. A nil component is `none`.
use lara_nux.Base.{ℕ, List, Option, none, some}
use lara_nux.Text.{Text, Unicode}
use lara_nux.Effect.Action.{Action, pure}
use lara_nux.World.{Os, StateFile}
use lara_nux.Sites.Record.{SiteRecord, SiteRegistrationInput, SiteRegistryState}
use lara_nux.Sites.Registry
use lara_nux.Runtimes.Registry.{PhpRuntimeRecord}
use lara_nux.Resolver.Stub.{ResolverStubSpec, ResolverStatus}
use lara_nux.Caddy.Render.{WebSite, WebActivationResult}
use lara_nux.Fpm.Runtime.{PhpRuntime, PhpMaterialization, PhpSwitchRequest}

-- `unset` is the zero value, the empty string.
pub data ServiceState : Type 0 where
  active inactive failed unknown unset : ServiceState

pub record ServiceStatus : Type 0 where
  pub service : Text
  pub state : ServiceState
  pub summary : Text
  pub updated_at : ℕ

pub record RuntimeResolver (σ : Type 0) : Type 0 where
  pub get : Text → Action σ PhpRuntimeRecord
  pub default_runtime : Action σ PhpRuntimeRecord
  pub list : Action σ (List PhpRuntimeRecord)

pub record SiteStore (σ : Type 0) : Type 0 where
  pub register : SiteRegistrationInput → Action σ SiteRecord
  pub get : Text → Action σ SiteRecord
  pub update : SiteRecord → Action σ SiteRecord
  pub delete : Text → Action σ (Unit {0})
  pub list : Action σ (List SiteRecord)

pub record ResolverProvisioner (σ : Type 0) : Type 0 where
  pub inspect : ResolverStubSpec → Action σ ResolverStatus
  pub ensure_test_stub : ResolverStubSpec → Action σ ResolverStatus
  pub remove_managed_stub : Action σ (Unit {0})

pub record WebActivator (σ : Type 0) : Type 0 where
  pub activate_site : WebSite → Action σ WebActivationResult
  pub remove_site : Text → Action σ (Unit {0})
  pub validate : Action σ (Unit {0})

pub record PhpRuntimeMaterializer (σ : Type 0) : Type 0 where
  pub materialize_runtime : PhpRuntime → Action σ PhpMaterialization
  pub switch_runtime : PhpSwitchRequest → Action σ PhpMaterialization

pub record ServiceController (σ : Type 0) : Type 0 where
  pub start : Text → Action σ ServiceStatus
  pub restart : Text → Action σ ServiceStatus
  pub status : Text → Action σ ServiceStatus

-- `SiteRegistry` is the `SiteStore` of the daemon.
abbrev pub registry_store :
    {σ : Type 0} → Os σ → StateFile σ SiteRegistryState → ⦃u : Unicode⦄ → SiteStore σ
registry_store os file = record {
  register = Registry.register os file;
  get = Registry.get os file;
  update = Registry.update os file;
  delete = Registry.delete os file;
  list = Registry.list os file;
}

module _ {σ : Type 0} where
  -- `if x != nil { a, err = f(x) }`, with the zero value otherwise.
  unfoldable pub if_present : {X A : Type 0} → Option X → A → (X → Action σ A) → Action σ A
  if_present none zero f = pure zero
  if_present (some x) zero f = f x
