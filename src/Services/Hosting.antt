-- ===== src/Services/Hosting.antt =====
-- What the services make of sites and runtimes for the host: the helpers of
-- daemon/internal/app/orchestration.go and daemon/internal/app/site_management.go.
use lara_nux.Base.{◌||◌, List, [], ◌∷◌, any, is_empty, if◌then◌else◌}
use lara_nux.Text.{Text, Unicode, codes, text_eq, is_blank, trim_space, join_path}
use lara_nux.Effect.Action.{Action, ◌>>=◌, pure}
use lara_nux.Sites.Record.{SiteRecord}
use lara_nux.Runtimes.Version.{first_non_empty_string, php_socket_path, php_fpm_service_name}
use lara_nux.Runtimes.Registry.{PhpRuntimeRecord}
use lara_nux.Caddy.Render.{WebSite}
use lara_nux.Fpm.Runtime.{PhpRuntime}
use lara_nux.Services.Interfaces.{ServiceController, ServiceStatus, RuntimeResolver}

-- `sitePublicDir`
unfoldable pub site_public_dir : Text → Text
unfolding is_blank join_path
site_public_dir root_path =
    if is_blank root_path then [] else join_path (root_path ∷ codes "public" ∷ [])

module _ ⦃u : Unicode⦄ where
  -- `runtimeToHost`
  unfoldable pub runtime_to_host : PhpRuntimeRecord → PhpRuntime
  unfolding php_socket_path
  runtime_to_host runtime = record {
    version = runtime.version;
    binary_path = runtime.binary_path;
    fpm_binary_path = [];
    service_name = runtime.fpm_service;
    socket_path = php_socket_path runtime.version;
  }

  -- The host's runtime of a version, as far as the version alone tells it.
  unfoldable pub version_to_host : Text → PhpRuntime
  unfolding php_socket_path php_fpm_service_name
  version_to_host version = record {
    version = version;
    binary_path = [];
    fpm_binary_path = [];
    service_name = php_fpm_service_name version;
    socket_path = php_socket_path version;
  }

  -- `siteToWebSite`
  unfoldable pub site_to_web_site : SiteRecord → Text → WebSite
  unfolding site_public_dir first_non_empty_string php_socket_path
  site_to_web_site site socket_path = record {
    id = site.id;
    domain = site.domain;
    root_path = site.root_path;
    public_dir = site_public_dir site.root_path;
    php_socket_path = first_non_empty_string (socket_path ∷ php_socket_path site.php_version ∷ []);
  }

-- The names that the loop starts: trimmed, without blanks, each once.
unfoldable pub distinct_names : List Text → List Text → List Text
unfolding trim_space any text_eq
distinct_names seen [] = []
distinct_names seen (name ∷ names) =
    let trimmed = trim_space name in
    let skipped = distinct_names seen names in
    let taken = distinct_names (trimmed ∷ seen) names in
    if is_empty trimmed || any (text_eq trimmed) seen then skipped else trimmed ∷ taken

module _ {σ : Type 0} where
  unfoldable pub start_each : ServiceController σ → List Text → Action σ (List ServiceStatus)
  unfolding ◌>>=◌
  start_each services [] = pure []
  start_each services (name ∷ names) = do
    status ← services.start name
    statuses ← start_each services names
    pure (status ∷ statuses)

  -- `ensureServices`, and `startManagedServices` without the statuses.
  unfoldable pub ensure_services : ServiceController σ → List Text → Action σ (List ServiceStatus)
  unfolding start_each distinct_names
  ensure_services services names = start_each services (distinct_names [] names)

  -- `resolveRuntime`
  unfoldable pub resolve_runtime : RuntimeResolver σ → Text → Action σ PhpRuntimeRecord
  unfolding is_blank
  resolve_runtime runtimes version =
      if is_blank version then runtimes.default_runtime else runtimes.get version
