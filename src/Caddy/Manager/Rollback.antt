-- ===== src/Caddy/Manager/Rollback.antt =====
-- An activation that fails leaves the files of the host as they were.
use lara_nux.Base.{Bool, true, false, [], ◌∷◌, Option, none, some, ◌≡◌, refl, arith, if◌then◌else◌}
use lara_nux.Text.{Text, Unicode, text_eq, text_eq_iff, join_path, dir_name}
use lara_nux.Effect.Fault.{Result, ok, err, is_ok}
use lara_nux.Effect.Action.{◌>>=◌, map_error, ignore, on_failure, when}
use lara_nux.Machine.Calls.{Machine, Environment}
use lara_nux.Machine.Atomically.{
  temp, read_if_exists, write_with_mode, restore_file, ensure_dir_mode,
}
use lara_nux.Machine.Atomically.View.{
  view, Writable, view-read_if_exists, read_if_exists-view, view-ensure_dir_mode,
  view-write_with_mode, view-restore_with_mode,
}
use lara_nux.Caddy.Render.{WebSite, normalize_site, render_site_config, site_filename}
use lara_nux.Caddy.Import.{ensure_managed_root_import}
use lara_nux.Caddy.Manager.Commands.{Manager, validate, reload, view-validate, view-reload}
use lara_nux.Caddy.Manager.Activate.{
  activate_site, import_root, install_site, undo_site, restore_root, restore,
}

abbrev pub payload_of : Result (Option Text) → Option Text
payload_of (ok payload) = payload
payload_of (err e) = none

-- The path of a site's configuration.
abbrev pub config_of : ⦃u : Unicode⦄ → Manager → WebSite → Text
config_of manager site = join_path (manager.sites_dir ∷ site_filename site ∷ [])

module _ (env : Environment) (works : Writable env) (manager : Manager) (q : Text) where
  module _ (root_apart : text_eq (temp manager.root_config_path) q ≡ false) where
    pub view-restore_root :
        (previous : Option Text) (changed : Bool) (m : Machine)
        → view q (restore_root env manager previous changed m).1 ≡ (
            if changed
            then (if text_eq manager.root_config_path q then previous else view q m)
            else view q m)
    unfolding restore_root restore ignore when
    view-restore_root previous true m =
        view-restore_with_mode env works q manager.root_config_path root_apart previous m
    view-restore_root previous false m = refl

    module _ (config_path : Text) (config_apart : text_eq (temp config_path) q ≡ false) where
      view-undo_site :
          (previous root_previous : Option Text) (changed : Bool) (m : Machine)
          → view q (undo_site env manager config_path previous root_previous changed m).1 ≡ (
              if changed
              then (if text_eq manager.root_config_path q
                  then root_previous
                  else if text_eq config_path q
                  then previous
                  else view q m)
              else if text_eq config_path q
              then previous
              else view q m)
      unfolding undo_site ◌>>=◌ restore ignore
      view-undo_site previous root_previous changed m =
          let m' = (restore_file env (write_with_mode env) config_path previous m).1 in
          ground (
            arith,
            view-restore_with_mode env works q config_path config_apart previous m,
            view-restore_root root_previous changed m',
          )

    import_root_failed :
        (m : Machine) (root_previous : Option Text)
        → is_ok (import_root env manager root_previous m).0 ≡ false
        → view q (import_root env manager root_previous m).1 ≡ view q m
    unfolding import_root ◌>>=◌ map_error when
    import_root_failed m root_previous h =
        let m1 = (ensure_dir_mode env (dir_name manager.root_config_path) m).1 in
        let next = (ensure_managed_root_import root_previous).0 in
        ground (
          arith,
          view-ensure_dir_mode env q (dir_name manager.root_config_path) m,
          view-write_with_mode env works q manager.root_config_path root_apart next m1,
        )

    import_root_done :
        (m : Machine) (root_previous : Option Text) (changed : Bool)
        → (import_root env manager root_previous m).0 ≡ ok changed
        → view q (import_root env manager root_previous m).1 ≡ (
            if changed
            then (if text_eq manager.root_config_path q
                then some (ensure_managed_root_import root_previous).0
                else view q m)
            else view q m)
    unfolding import_root ◌>>=◌ map_error when
    import_root_done m root_previous changed h =
        let m1 = (ensure_dir_mode env (dir_name manager.root_config_path) m).1 in
        let next = (ensure_managed_root_import root_previous).0 in
        ground (
          arith,
          view-ensure_dir_mode env q (dir_name manager.root_config_path) m,
          view-write_with_mode env works q manager.root_config_path root_apart next m1,
        )

    module _ ⦃u : Unicode⦄ (site : WebSite) where
      -- What failed behind the root configuration: it is put back too.
      install_site_failed :
          (root_previous : Option Text) (changed : Bool) (m : Machine)
          → text_eq (temp (config_of manager site)) q ≡ false
          → is_ok (install_site env manager site root_previous changed m).0 ≡ false
          → view q (install_site env manager site root_previous changed m).1 ≡ (
              if changed
              then (if text_eq manager.root_config_path q then root_previous else view q m)
              else view q m)
      unfolding install_site ◌>>=◌ on_failure map_error ignore
      install_site_failed root_previous changed m apart h =
          let path = config_of manager site in
          let m1 = (read_if_exists env path m).1 in
          let previous = payload_of (read_if_exists env path m).0 in
          let m2 = (ensure_dir_mode env (dir_name manager.sites_dir) m1).1 in
          let m3 = (ensure_dir_mode env manager.sites_dir m2).1 in
          let m4 = (write_with_mode env path (render_site_config site) m3).1 in
          let m5 = (validate env manager m4).1 in
          let m6 = (reload env manager m5).1 in
          let undone = (undo_site env manager path previous root_previous changed m6).1 in
          let again = (validate env manager undone).1 in
          ground (
            arith,
            view-read_if_exists env q path m,
            read_if_exists-view env path m previous,
            view-ensure_dir_mode env q (dir_name manager.sites_dir) m1,
            view-ensure_dir_mode env q manager.sites_dir m2,
            view-write_with_mode env works q path apart (render_site_config site) m3,
            view-validate env manager q m4,
            view-reload env manager q m5,
            view-restore_root root_previous changed m1,
            view-restore_root root_previous changed m2,
            view-restore_root root_previous changed m3,
            view-undo_site path apart previous root_previous changed m5,
            view-undo_site path apart previous root_previous changed m6,
            view-validate env manager q undone,
            view-reload env manager q again,
            text_eq_iff path q,
          )

abbrev pub changed_of : Result Bool → Bool
changed_of (ok changed) = changed
changed_of (err e) = false

abbrev pub site_of : WebSite → Result WebSite → WebSite
site_of site (ok site') = site'
site_of site (err e) = site

module _ (env : Environment) (works : Writable env) (manager : Manager) ⦃u : Unicode⦄ where
  -- Where the file system takes every write, rename, removal and change of mode, an ActivateSite
  -- that fails, at whatever step, leaves the file at every path as it was, except at the
  -- temporary paths of the root configuration and of the site configuration.
  pub activation_rolled_back :
      (site : WebSite) (m : Machine) (q : Text)
      → is_ok (activate_site env manager site m).0 ≡ false
      → text_eq (temp manager.root_config_path) q ≡ false
      → ((site' : WebSite)
          → normalize_site (λ path. env.stat m.files m.trace path) site ≡ ok site'
          → text_eq (temp (config_of manager site')) q ≡ false)
      → view q (activate_site env manager site m).1 ≡ view q m
  unfolding activate_site ◌>>=◌ map_error
  activation_rolled_back site m q h root_apart apart =
      let normalized = normalize_site (λ path. env.stat m.files m.trace path) site in
      let site' = site_of site normalized in
      let root = manager.root_config_path in
      let m1 = (read_if_exists env root m).1 in
      let previous = payload_of (read_if_exists env root m).0 in
      let imported = import_root env manager previous m1 in
      let changed = changed_of imported.0 in
      ground (
        arith,
        apart site',
        view-read_if_exists env q root m,
        read_if_exists-view env root m previous,
        import_root_failed env works manager q root_apart m1 previous,
        import_root_done env works manager q root_apart m1 previous changed,
        install_site_failed env works manager q root_apart site' previous changed imported.1,
        text_eq_iff root q,
      )
