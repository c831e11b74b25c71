-- ===== src/Caddy/Manager/Activate.antt =====
-- `ActivateSite` of daemon/internal/host/ubuntu/caddy/manager.go, in the two parts that its
-- rollbacks distinguish: the root configuration, and the site's own.
use lara_nux.Base.{Bool, true, [], ◌∷◌, ◌++◌, Option}
use lara_nux.Text.{Text, Unicode, lit, join_path, dir_name}
use lara_nux.Effect.Fault.{wrap, sentinel, activation_validation}
use lara_nux.Effect.Action.{Action, ◌>>=◌, ◌>>◌, pure, map_error, ignore, on_failure, when}
use lara_nux.World.{reads}
use lara_nux.Machine.Calls.{Machine, Environment}
use lara_nux.Machine.Atomically.{read_if_exists, write_with_mode, restore_file, ensure_dir_mode}
use lara_nux.Caddy.Render.{
  WebSite, WebActivationResult, normalize_site, render_site_config, site_filename,
}
use lara_nux.Caddy.Import.{ensure_managed_root_import}
use lara_nux.Caddy.Manager.Commands.{Manager, validate, reload}

module _ (env : Environment) (manager : Manager) where
  -- `restoreFile` with the mode that Caddy's files have.
  unfoldable pub restore : Text → Option Text → Action Machine (Unit {0})
  restore path previous = ignore (restore_file env (write_with_mode env) path previous)

  -- `if rootChanged { _ = restoreFile(…) }`
  unfoldable pub restore_root : Option Text → Bool → Action Machine (Unit {0})
  restore_root previous changed = when changed (restore manager.root_config_path previous)

  unfoldable pub undo_site : Text → Option Text → Option Text → Bool → Action Machine (Unit {0})
  undo_site config_path previous root_previous root_changed = do
    restore config_path previous
    restore_root root_previous root_changed

  -- The site's configuration is written, validated and loaded, or everything is put back.
  unfoldable pub install_site :
      ⦃u : Unicode⦄ → WebSite → Option Text → Bool → Action Machine WebActivationResult
  install_site site root_previous root_changed = do
    let config_path = join_path (manager.sites_dir ∷ site_filename site ∷ [])
    let undo_root = restore_root root_previous root_changed
    previous ← on_failure undo_root (
        map_error (wrap (lit "read existing caddy site config: ")) (read_if_exists env config_path))
    on_failure undo_root (
        map_error (wrap (lit "create caddy sites parent directory: "))
          (ensure_dir_mode env (dir_name manager.sites_dir)))
    on_failure undo_root (
        map_error (wrap (lit "create caddy site directory: "))
          (ensure_dir_mode env manager.sites_dir))
    on_failure undo_root (
        map_error (wrap (lit "write caddy site config: "))
          (write_with_mode env config_path (render_site_config site)))
    let undo = undo_site config_path previous root_previous root_changed
    on_failure undo (
        map_error
          (λ e. sentinel activation_validation (lit "activation validation failed: " ++ e.message))
          (validate env manager))
    on_failure (undo >> (ignore (validate env manager) >> ignore (reload env manager))) (
        map_error (wrap (lit "reload caddy after activating " ++ (site.domain ++ lit ": ")))
          (reload env manager))
    pure (record {
      config_path = config_path;
      validated = true;
      reloaded = true;
      http_url = lit "http://" ++ site.domain;
      https_url = lit "https://" ++ site.domain;
    })

  -- The root configuration imports the managed sites, before a site is installed.
  unfoldable pub import_root : Option Text → Action Machine Bool
  import_root root_previous = do
    let (root_next, changed) = ensure_managed_root_import root_previous
    when changed do
      map_error (wrap (lit "create caddy root config directory: "))
          (ensure_dir_mode env (dir_name manager.root_config_path))
      map_error (wrap (lit "write caddy root config: "))
          (write_with_mode env manager.root_config_path root_next)
    pure changed

  unfoldable pub activate_site : ⦃u : Unicode⦄ → WebSite → Action Machine WebActivationResult
  activate_site site = do
    site' ← reads (λ m. normalize_site (λ path. env.stat m.files m.trace path) site)
    root_previous ←
        map_error (wrap (lit "read caddy root config: "))
          (read_if_exists env manager.root_config_path)
    root_changed ← import_root root_previous
    install_site site' root_previous root_changed
