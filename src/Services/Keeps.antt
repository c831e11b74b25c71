-- ===== src/Services/Keeps.antt =====
-- Components of the services that leave an observation of the world, such as the stored sites, as
-- it is, and rules for what is built of them.
use lara_nux.Base.{Bool, true, false, List, [], ◌∷◌, Option, none, some, refl, arith}
use lara_nux.Text.{Text}
use lara_nux.Effect.Fault.{Error}
use lara_nux.Effect.Action.{Action, on_failure, map_error, when}
use lara_nux.Effect.Atomic.{Keeps, Atomic, Keeps-bind}
use lara_nux.Resolver.Stub.{ResolverStubSpec}
use lara_nux.Caddy.Render.{WebSite}
use lara_nux.Fpm.Runtime.{PhpRuntime, PhpSwitchRequest}
use lara_nux.Services.Interfaces.{
  RuntimeResolver, ResolverProvisioner, WebActivator, PhpRuntimeMaterializer, ServiceController,
  if_present,
}
use lara_nux.Services.Hosting.{start_each, distinct_names, ensure_services, resolve_runtime}

pub Keeps-when :
    {σ C : Type 0} {view : σ → C} (b : Bool) (m : Action σ (Unit {0}))
    → Keeps view m
    → Keeps view (when b m)
unfolding when
Keeps-when true m k = k
Keeps-when false m k = record { at = λ w. refl }

-- A predicate of a component, if there is one.
abbrev pub Present : {X : Type 0} → (X → Type 0) → Option X → Type 0
Present P none = Unit
Present P (some x) = P x

pub Keeps-present :
    {σ C X A : Type 0} {view : σ → C} (P : X → Type 0) (x : Option X) (zero : A)
    (f : X → Action σ A)
    → Present P x
    → ((y : X) → P y → Keeps view (f y))
    → Keeps view (if_present x zero f)
unfolding if_present
Keeps-present P none zero f p k = record { at = λ w. refl }
Keeps-present P (some y) zero f p k = k y p

-- Components that do not touch what is looked at.
module _ {σ C : Type 0} (view : σ → C) where
  pub record ResolverKeeps (r : ResolverProvisioner σ) : Type 0 where
    pub ensure : (spec : ResolverStubSpec) → Keeps view (r.ensure_test_stub spec)
    pub remove : Keeps view r.remove_managed_stub

  pub record WebKeeps (web : WebActivator σ) : Type 0 where
    pub activate : (site : WebSite) → Keeps view (web.activate_site site)
    pub remove : (id : Text) → Keeps view (web.remove_site id)

  pub record PhpKeeps (php : PhpRuntimeMaterializer σ) : Type 0 where
    pub materialize : (runtime : PhpRuntime) → Keeps view (php.materialize_runtime runtime)
    pub switch : (request : PhpSwitchRequest) → Keeps view (php.switch_runtime request)

  pub record ServicesKeep (services : ServiceController σ) : Type 0 where
    pub start : (name : Text) → Keeps view (services.start name)
    pub restart : (name : Text) → Keeps view (services.restart name)

  pub record RuntimesKeep (runtimes : RuntimeResolver σ) : Type 0 where
    pub get : (version : Text) → Keeps view (runtimes.get version)
    pub default : Keeps view runtimes.default_runtime

pub start_each-Keeps :
    {σ C : Type 0} {view : σ → C} (services : ServiceController σ) (names : List Text)
    → ServicesKeep view services
    → Keeps view (start_each services names)
unfolding start_each
start_each-Keeps services [] k = record { at = λ w. refl }
start_each-Keeps services (name ∷ names) k = Keeps-bind _ _ (k.start name) (λ status.
    Keeps-bind _ _ (start_each-Keeps services names k) (λ statuses. record { at = λ w. refl }))

pub ensure_services-Keeps :
    {σ C : Type 0} {view : σ → C} (services : ServiceController σ) (names : List Text)
    → ServicesKeep view services
    → Keeps view (ensure_services services names)
unfolding ensure_services
ensure_services-Keeps services names k = start_each-Keeps services (distinct_names [] names) k

pub resolve_runtime-Keeps :
    {σ C : Type 0} {view : σ → C} (runtimes : RuntimeResolver σ) (version : Text)
    → RuntimesKeep view runtimes
    → Keeps view (resolve_runtime runtimes version)
unfolding resolve_runtime
resolve_runtime-Keeps runtimes version k = record {
  at = λ w. ground (arith, k.default.at w, (k.get version).at w);
}

module _ {σ C A : Type 0} {view : σ → C} where
  pub Keeps-guarded :
      (undo : Action σ (Unit {0})) (m : Action σ A)
      → Keeps view undo
      → Keeps view m
      → Keeps view (on_failure undo m)
  unfolding on_failure
  Keeps-guarded undo m ku k = record { at = λ w. ground (arith, ku.at (m w).1, k.at w) }

  pub Atomic-guarded :
      (undo : Action σ (Unit {0})) (m : Action σ A)
      → Keeps view undo
      → Atomic view m
      → Atomic view (on_failure undo m)
  unfolding on_failure
  Atomic-guarded undo m ku k = record { at = λ w h. ground (arith, ku.at (m w).1, k.at w) }

  pub Atomic-map_error :
      (f : Error → Error) (m : Action σ A) → Atomic view m → Atomic view (map_error f m)
  unfolding map_error
  Atomic-map_error f m k = record { at = λ w h. ground (arith, k.at w) }
