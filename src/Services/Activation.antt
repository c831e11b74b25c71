-- ===== src/Services/Activation.antt =====
-- `SiteActivationService.Activate`: daemon/internal/app/orchestration.go.
pub mod Undone
pub mod Unique
use lara_nux.Base.{
  ℕ, Bool, true, false, not, List, [], ◌∷◌, ◌++◌, Option, none, some, any, is_some, if◌then◌else◌,
}
use lara_nux.Text.{Text, Unicode, codes, lit, text_eq}
use lara_nux.Effect.Fault.{Error, Result, ok, err}
use lara_nux.Effect.Action.{Action, ◌>>=◌, ◌>>◌, pure, gets, try, ignore, on_failure, when}
use lara_nux.Sites.Record.{SiteRecord, SiteRegistrationInput, ready}
use lara_nux.Runtimes.Registry.{PhpRuntimeRecord}
use lara_nux.Resolver.Stub.{ResolverStubSpec, ResolverStatus}
use lara_nux.Caddy.Render.{WebActivationResult}
use lara_nux.Fpm.Runtime.{PhpMaterialization}
use lara_nux.Services.Interfaces.{
  RuntimeResolver, SiteStore, ResolverProvisioner, WebActivator, PhpRuntimeMaterializer,
  ServiceController, ServiceStatus, if_present,
}
use lara_nux.Services.Hosting.{runtime_to_host, site_to_web_site, ensure_services, resolve_runtime}

pub record ActivationResult : Type 0 where
  pub site : SiteRecord
  pub resolver : ResolverStatus
  pub runtime : PhpRuntimeRecord
  pub materialization : PhpMaterialization
  pub web : WebActivationResult
  pub services : List ServiceStatus
  pub activated_at : ℕ

pub record SiteActivationService (σ : Type 0) : Type 0 where
  pub sites : SiteStore σ
  pub runtimes : RuntimeResolver σ
  pub resolver : Option (ResolverProvisioner σ)
  pub web : Option (WebActivator σ)
  pub php : Option (PhpRuntimeMaterializer σ)
  pub services : Option (ServiceController σ)
  pub clock : σ → ℕ
  pub stub_spec : ResolverStubSpec

-- The zero values of the results that a missing component leaves.
abbrev no_resolver : ResolverStatus
no_resolver = record {
  managed = false;
  stub_path = [];
  domain = [];
  address = [];
  owner = [];
  conflicts = [];
  summary = [];
  remediation = [];
}

abbrev no_materialization : PhpMaterialization
no_materialization = record {
  version = [];
  service_name = [];
  socket_path = [];
  pool_config_path = [];
  override_path = [];
  active = false;
}

abbrev no_web : WebActivationResult
no_web = record {
  config_path = [];
  validated = false;
  reloaded = false;
  http_url = [];
  https_url = [];
}

abbrev pub result_of :
    ResolverStatus
    → PhpRuntimeRecord
    → PhpMaterialization
    → List ServiceStatus
    → WebActivationResult
    → SiteRecord
    → ℕ
    → ActivationResult
result_of resolver runtime materialization services web site activated_at = record {
  site = site;
  resolver = resolver;
  runtime = runtime;
  materialization = materialization;
  web = web;
  services = services;
  activated_at = activated_at;
}

module _ {σ : Type 0} (s : SiteActivationService σ) ⦃u : Unicode⦄ where
  -- `hasOtherSites`
  unfoldable pub has_other_sites : Text → Action σ Bool
  unfolding ◌>>=◌ any text_eq
  has_other_sites exclude_id = do
    sites ← s.sites.list
    pure (any (λ site. not (text_eq site.id exclude_id)) sites)

  -- The resolver's stub goes with the last site; without an answer it stays.
  unfoldable pub remove_stub_unless : ResolverProvisioner σ → Result Bool → Action σ (Unit {0})
  unfolding ignore
  remove_stub_unless resolver (ok false) = ignore resolver.remove_managed_stub
  remove_stub_unless resolver (ok true) = pure tt
  remove_stub_unless resolver (err e) = pure tt

  -- The deferred function, for the flags `committedResolver` and `committedWeb`.
  unfoldable pub undo : SiteRecord → Bool → Bool → Action σ (Unit {0})
  unfolding ◌>>=◌ when if_present ignore try has_other_sites remove_stub_unless
  undo site committed_resolver committed_web = do
    ignore (when committed_web (if_present s.web tt (λ web. web.remove_site site.id)))
    ignore (
        when committed_resolver (
          if_present s.resolver tt
            (λ resolver. try (has_other_sites site.id) >>= remove_stub_unless resolver)))
    ignore (s.sites.delete site.id)

  -- The record that an activation stores in the end.
  unfoldable pub activated : SiteRecord → PhpRuntimeRecord → ℕ → SiteRecord
  activated site runtime now = record site {
    status = ready;
    status_message =
        lit "Site activated at https://"
        ++ (site.domain ++ (lit " with PHP " ++ (runtime.version ++ lit ".")));
    last_checked_at = now;
  }

  -- What follows the registration.
  unfoldable pub provision : PhpRuntimeRecord → SiteRecord → Action σ ActivationResult
  unfolding ◌>>=◌ on_failure undo if_present runtime_to_host site_to_web_site ensure_services
      activated
  provision runtime site = do
    resolver ←
        on_failure (undo site false false)
          (if_present s.resolver no_resolver (λ resolver. resolver.ensure_test_stub s.stub_spec))
    let with_resolver = is_some s.resolver
    materialization ← on_failure (undo site with_resolver false) (
        if_present s.php no_materialization
          (λ php. php.materialize_runtime (runtime_to_host runtime)))
    services ← on_failure (undo site with_resolver false) (
        if_present s.services []
          (λ services. ensure_services services (codes "caddy" ∷ runtime.fpm_service ∷ [])))
    web ← on_failure (undo site with_resolver false) (
        if_present s.web no_web
          (λ web. web.activate_site (site_to_web_site site materialization.socket_path)))
    now ← gets s.clock
    updated ←
        on_failure (undo site with_resolver (is_some s.web))
          (s.sites.update (activated site runtime now))
    activated_at ← gets s.clock
    pure (result_of resolver runtime materialization services web updated activated_at)

  -- `Activate`
  unfoldable pub activate : SiteRegistrationInput → Action σ ActivationResult
  unfolding ◌>>=◌ resolve_runtime provision
  activate input = do
    runtime ← resolve_runtime s.runtimes input.php_version
    site ← s.sites.register (record input { php_version = runtime.version })
    provision runtime site
