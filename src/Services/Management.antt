-- ===== src/Services/Management.antt =====
-- `SiteManagementService`: daemon/internal/app/site_management.go.
pub mod Others
pub mod Keyed
pub mod Unique
pub mod Failure
use lara_nux.Base.{
  ℕ, Bool, ◌&&◌, not, List, [], ◌∷◌, ◌++◌, Option, none, some, is_empty, if◌then◌else◌,
}
use lara_nux.Text.{Text, Unicode, codes, lit, text_eq, trim_space, is_blank, equal_fold}
use lara_nux.Effect.Fault.{Result, ok, err, wrap, sentinel, duplicate_site_name, duplicate_domain}
use lara_nux.Effect.Action.{
  Action, ◌>>=◌, ◌>>◌, pure, lift, gets, try, ignore, map_error, on_failure, when,
}
use lara_nux.World.{Os, reads}
use lara_nux.Sites.Record.{SiteRecord, ready}
use lara_nux.Sites.Domain.{normalize_domain}
use lara_nux.Sites.Name.{derive_site_name}
use lara_nux.Sites.Registry.Paths.{normalize_root_path, validate_laravel_path}
use lara_nux.Runtimes.Version.{normalize_php_version, php_fpm_service_name, php_socket_path}
use lara_nux.Runtimes.Registry.{PhpRuntimeRecord}
use lara_nux.Services.Interfaces.{
  RuntimeResolver, SiteStore, WebActivator, PhpRuntimeMaterializer, ServiceController, if_present,
}
use lara_nux.Services.Hosting.{
  runtime_to_host, version_to_host, site_to_web_site, ensure_services, resolve_runtime,
}

pub record SiteUpdateInput : Type 0 where
  pub site_id : Text
  pub root_path : Option Text
  pub domain : Option Text
  pub php_version : Option Text

-- The queries of the operating system stand behind `normalizeRootPath` and `ValidateLaravelPath`.
pub record SiteManagementService (σ : Type 0) : Type 0 where
  pub os : Os σ
  pub sites : SiteStore σ
  pub runtimes : RuntimeResolver σ
  pub web : Option (WebActivator σ)
  pub host_php : Option (PhpRuntimeMaterializer σ)
  pub services : Option (ServiceController σ)
  pub clock : σ → ℕ

-- The loop of `prepareUpdatedSite` over the stored sites, which passes over the site itself.
unfoldable pub check_others :
    ⦃u : Unicode⦄ → Text → Text → Text → List SiteRecord → Result (Unit {0})
check_others id name domain [] = ok tt
check_others ⦃u⦄ id name domain (site ∷ sites) =
    let rest = check_others id name domain sites in
    if text_eq site.id id
    then rest
    else if equal_fold site.name name
    then err (
        sentinel duplicate_site_name
          (lit "duplicate site name: site name " ++ (u.quote name ++ lit " is already registered")))
    else if equal_fold site.domain domain
    then err (
        sentinel duplicate_domain (
          lit "duplicate site domain: domain " ++ (u.quote domain ++ lit " is already registered")))
    else rest

module _ {σ : Type 0} (s : SiteManagementService σ) ⦃u : Unicode⦄ where
  unfoldable pub updated_root : SiteRecord → Option Text → Action σ Text
  unfolding ◌>>=◌ normalize_root_path validate_laravel_path
  updated_root current none = pure current.root_path
  updated_root current (some given) = do
    root_path ← reads (λ w. normalize_root_path s.os w given)
    reads (λ w. validate_laravel_path s.os w root_path)
    pure root_path

  abbrev updated_name : SiteRecord → Option Text → Text → Text
  updated_name current none root_path = current.name
  updated_name current (some given) root_path = derive_site_name root_path

  abbrev updated_domain : SiteRecord → Option Text → Text → Result Text
  updated_domain current none name = ok current.domain
  updated_domain current (some given) name = normalize_domain given name

  abbrev updated_version : SiteRecord → Option Text → Text
  updated_version current none = current.php_version
  updated_version current (some given) = if is_blank given then current.php_version else given

  -- `prepareUpdatedSite`
  unfoldable pub prepare_updated_site :
      SiteRecord → SiteUpdateInput → Action σ (SiteRecord × PhpRuntimeRecord)
  unfolding ◌>>=◌ updated_root derive_site_name normalize_domain resolve_runtime check_others
      is_blank
  prepare_updated_site current input = do
    root_path ← updated_root current input.root_path
    let name = updated_name current input.root_path root_path
    domain ← lift (updated_domain current input.domain name)
    target ← resolve_runtime s.runtimes (updated_version current input.php_version)
    existing ← s.sites.list
    lift (check_others current.id name domain existing)
    pure (
      record current {
        name = name;
        root_path = root_path;
        domain = domain;
        php_version = target.version;
      },
      target,
    )

  about_runtime : Text → PhpRuntimeRecord → SiteRecord → Text
  about_runtime verb target site =
      verb
      ++ (lit " php runtime " ++ (target.version ++ (lit " for site " ++ (site.id ++ lit ": "))))

  unfoldable pub change_host :
      Option (PhpRuntimeMaterializer σ)
      → Option (ServiceController σ)
      → SiteRecord
      → PhpRuntimeRecord
      → Action σ (Unit {0})
  unfolding ◌>>=◌ map_error version_to_host runtime_to_host normalize_php_version about_runtime
  change_host (some php) services current target =
      map_error (wrap (about_runtime (lit "switch") target current)) (
        php.switch_runtime (record {
          site_id = current.id;
          previous = version_to_host (normalize_php_version current.php_version);
          target = runtime_to_host target;
        }))
      >> pure tt
  change_host none none current target = pure tt
  change_host none (some services) current target =
      map_error (wrap (about_runtime (lit "activate") target current))
        (services.restart target.fpm_service)
      >> pure tt

  -- `applyRuntimeChange`
  unfoldable pub apply_runtime_change : SiteRecord → PhpRuntimeRecord → Action σ (Unit {0})
  unfolding change_host normalize_php_version text_eq
  apply_runtime_change current target =
      if text_eq (normalize_php_version current.php_version) target.version
      then pure tt
      else change_host s.host_php s.services current target

  -- The runtime that is switched back to, if it is not registered any more.
  unfoldable pub known_or_derived : Text → Result PhpRuntimeRecord → PhpRuntimeRecord
  unfolding php_fpm_service_name
  known_or_derived version (ok runtime) = runtime
  known_or_derived version (err e) = record {
    version = version;
    binary_path = [];
    fpm_service = php_fpm_service_name version;
    source = [];
    registered_at = 0;
  }

  unfoldable pub change_back :
      Option (PhpRuntimeMaterializer σ)
      → Option (ServiceController σ)
      → SiteRecord
      → PhpRuntimeRecord
      → PhpRuntimeRecord
      → Action σ (Unit {0})
  unfolding ◌>>=◌ runtime_to_host
  change_back (some php) services previous runtime failed_target =
      php.switch_runtime (record {
        site_id = previous.id;
        previous = runtime_to_host failed_target;
        target = runtime_to_host runtime;
      })
      >> pure tt
  change_back none none previous runtime failed_target = pure tt
  change_back none (some services) previous runtime failed_target =
      services.restart runtime.fpm_service >> pure tt

  -- `rollbackRuntime`
  unfoldable pub rollback_runtime : SiteRecord → PhpRuntimeRecord → Action σ (Unit {0})
  unfolding ◌>>=◌ try change_back known_or_derived normalize_php_version
  rollback_runtime previous failed_target =
      let version = normalize_php_version previous.php_version in
      if is_empty version then pure tt else (do
        answer ← try (s.runtimes.get version)
        change_back s.host_php s.services previous (known_or_derived version answer) failed_target)

  -- The undo of an update before and behind the activation of the site.
  unfoldable pub undo_runtime : SiteRecord → PhpRuntimeRecord → Bool → Action σ (Unit {0})
  unfolding when ignore rollback_runtime
  undo_runtime current target php_changed =
      ignore (when php_changed (rollback_runtime current target))

  unfoldable pub undo_update : SiteRecord → PhpRuntimeRecord → Bool → Action σ (Unit {0})
  unfolding ◌>>=◌ ignore if_present undo_runtime site_to_web_site php_socket_path
  undo_update current target php_changed = do
    ignore (
        if_present s.web tt (λ web.
          web.activate_site (site_to_web_site current (php_socket_path current.php_version))
          >>= λ _. pure tt))
    undo_runtime current target php_changed

  abbrev stamped : SiteRecord → Text → ℕ → SiteRecord
  stamped next message now = record next {
    status = ready;
    status_message = message;
    last_checked_at = now;
  }

  -- The update of a site whose root, domain or runtime changes.
  unfoldable pub reconfigure :
      SiteRecord → SiteRecord → PhpRuntimeRecord → Bool → Action σ SiteRecord
  unfolding ◌>>=◌ map_error on_failure if_present apply_runtime_change ensure_services undo_runtime
      undo_update site_to_web_site php_socket_path
  reconfigure current next target php_changed = do
    apply_runtime_change current target
    on_failure (undo_runtime current target php_changed) (
        if_present s.services []
          (λ services. ensure_services services (codes "caddy" ∷ target.fpm_service ∷ [])))
    on_failure (undo_runtime current target php_changed) (
        if_present s.web tt (λ web.
          web.activate_site (site_to_web_site next (php_socket_path target.version)) >>= λ _.
          pure tt))
    now ← gets s.clock
    on_failure (undo_update current target php_changed) (
        map_error (wrap (lit "persist site update " ++ (current.id ++ lit ": "))) (
          s.sites.update (
            stamped next
              (lit "Site updated and ready at https://"
                ++ (next.domain ++ (lit " with PHP " ++ (target.version ++ lit "."))))
              now)))

  unfoldable pub apply_update : SiteRecord → SiteRecord × PhpRuntimeRecord → Action σ SiteRecord
  unfolding ◌>>=◌ reconfigure text_eq normalize_php_version
  apply_update current (next, target) =
      let php_same = text_eq (normalize_php_version current.php_version) target.version in
      let unchanged =
        text_eq current.root_path next.root_path
        && (text_eq current.domain next.domain && php_same) in
      if unchanged
      then (gets s.clock >>= λ now.
          s.sites.update
            (stamped next (lit "Site metadata updated for " ++ (next.domain ++ lit ".")) now))
      else reconfigure current next target (not php_same)

  -- `Update`
  unfoldable pub update : SiteUpdateInput → Action σ SiteRecord
  unfolding ◌>>=◌ trim_space prepare_updated_site apply_update
  update input = do
    current ← s.sites.get (trim_space input.site_id)
    prepared ← prepare_updated_site current input
    apply_update current prepared
