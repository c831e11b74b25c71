-- ===== src/Services/Switch.antt =====
-- `PHPManager`: daemon/internal/app/php_manager.go.
pub mod Stored
pub mod Unique
use lara_nux.Base.{
  ℕ, Bool, true, false, List, [], ◌∷◌, ◌++◌, Option, none, some, is_empty, if◌then◌else◌,
}
use lara_nux.Text.{Text, Unicode, codes, lit, text_eq}
use lara_nux.Effect.Fault.{Error, Result, ok, err, wrap}
use lara_nux.Effect.Action.{Action, ◌>>=◌, ◌>>◌, pure, try, ignore, map_error, on_failure, when}
use lara_nux.Sites.Record.{SiteRecord, ready}
use lara_nux.Runtimes.Version.{php_fpm_service_name, php_socket_path, first_non_empty_string}
use lara_nux.Runtimes.Registry.{PhpRuntimeRecord}
use lara_nux.Fpm.Runtime.{PhpMaterialization}
use lara_nux.Services.Interfaces.{
  RuntimeResolver, SiteStore, WebActivator, PhpRuntimeMaterializer, ServiceController, if_present,
}
use lara_nux.Services.Hosting.{runtime_to_host, version_to_host, site_to_web_site}

-- The daemon always has a controller of services; PHP and the web server may be missing.
pub record PhpManager (σ : Type 0) : Type 0 where
  pub sites : SiteStore σ
  pub runtimes : RuntimeResolver σ
  pub services : ServiceController σ
  pub host_php : Option (PhpRuntimeMaterializer σ)
  pub web : Option (WebActivator σ)

module _ {σ : Type 0} (m : PhpManager σ) ⦃u : Unicode⦄ where
  -- `ActiveRuntime`
  unfoldable pub active_runtime : Text → Action σ PhpRuntimeRecord
  unfolding ◌>>=◌
  active_runtime site_id = do
    site ← m.sites.get site_id
    if is_empty site.php_version
        then m.runtimes.default_runtime
        else m.runtimes.get site.php_version

  abbrev about_switch : Text → PhpRuntimeRecord → SiteRecord → Text
  about_switch verb target site =
      verb
      ++ (lit " php runtime " ++ (target.version ++ (lit " for site " ++ (site.id ++ lit ": "))))

  -- The host's runtime is switched, or its service started again; the socket that follows from it.
  unfoldable pub switch_host :
      Option (PhpRuntimeMaterializer σ) → SiteRecord → PhpRuntimeRecord → Action σ Text
  unfolding ◌>>=◌ map_error version_to_host runtime_to_host php_socket_path
  switch_host (some php) site target = do
    materialization ← map_error (wrap (about_switch (lit "switch") target site)) (
        php.switch_runtime (record {
          site_id = site.id;
          previous = version_to_host site.php_version;
          target = runtime_to_host target;
        }))
    pure materialization.socket_path
  switch_host none site target = do
    map_error (wrap (about_switch (lit "activate") target site))
        (m.services.restart target.fpm_service)
    pure (php_socket_path target.version)

  -- The switch back after the web server has refused the site.
  unfoldable pub switch_back : SiteRecord → PhpRuntimeRecord → Action σ (Unit {0})
  unfolding ◌>>=◌ when if_present ignore version_to_host runtime_to_host
  switch_back site target = when (if is_empty site.php_version then false else true) (
      if_present m.host_php tt (λ php. ignore (
        php.switch_runtime (record {
          site_id = site.id;
          previous = runtime_to_host target;
          target = version_to_host site.php_version;
        }))))

  unfoldable pub restart_previous : SiteRecord → Result PhpRuntimeRecord → Action σ (Unit {0})
  unfolding ignore php_fpm_service_name
  restart_previous site (ok runtime) = ignore (m.services.restart runtime.fpm_service)
  restart_previous site (err e) =
      ignore (m.services.restart (php_fpm_service_name site.php_version))

  -- What is undone after the record could not be stored.
  unfoldable pub unpersisted : SiteRecord → Action σ (Unit {0})
  unfolding ◌>>=◌ when if_present ignore try restart_previous site_to_web_site php_socket_path
  unpersisted site = do
    if_present m.web tt (λ web.
        ignore (web.activate_site (site_to_web_site site (php_socket_path site.php_version))))
    when (if is_empty site.php_version then false else true)
        (try (m.runtimes.get site.php_version) >>= restart_previous site)

  unfoldable pub switched : SiteRecord → PhpRuntimeRecord → SiteRecord
  switched site target = record site {
    php_version = target.version;
    status = ready;
    status_message = lit "Site switched to PHP " ++ (target.version ++ lit ".");
  }

  -- What follows the checks: the host, the web server, the record.
  unfoldable pub perform_switch : SiteRecord → PhpRuntimeRecord → Action σ SiteRecord
  unfolding ◌>>=◌ map_error on_failure ignore if_present switch_host switch_back unpersisted
      switched site_to_web_site first_non_empty_string php_socket_path
  perform_switch site target = do
    socket_path ← switch_host m.host_php site target
    on_failure (switch_back site target) (
        map_error
          (wrap (lit "update web activation for site " ++ (site.id ++ lit " after php switch: ")))
          (if_present m.web tt (λ web.
            web.activate_site (
              site_to_web_site (switched site target)
                (first_non_empty_string (socket_path ∷ php_socket_path target.version ∷ [])))
            >>= λ _. pure tt)))
    on_failure (unpersisted site) (
        map_error (wrap (lit "persist php runtime switch for site " ++ (site.id ++ lit ": ")))
          (m.sites.update (switched site target)))

  -- `SwitchSiteRuntime`
  unfoldable pub switch_site_runtime : Text → Text → Action σ SiteRecord
  unfolding ◌>>=◌ text_eq perform_switch
  switch_site_runtime site_id version = do
    site ← m.sites.get site_id
    target ← m.runtimes.get version
    if text_eq site.php_version target.version then pure site else perform_switch site target
