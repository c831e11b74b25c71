-- ===== src/Caddy/Manager/Success.antt =====
-- What an activation that succeeds has done: whatever calls the host may refuse, Caddy has accepted
-- and loaded the files that are in place.
use lara_nux.Base.{
  Bool, true, false, List, ◌∷◌, Option, none, some, ◌≡◌, refl, arith, if◌then◌else◌,
}
use lara_nux.Text.{Text, Unicode, codes, text_eq, text_eq_refl, dir_name, contains}
use lara_nux.Effect.Fault.{ok}
use lara_nux.Effect.Action.{◌>>=◌, map_error, ignore, on_failure, when}
use lara_nux.Machine.Files.{text_eq-append}
use lara_nux.Machine.Calls.{Call, Machine, Environment, run}
use lara_nux.Machine.Atomically.{temp, read_if_exists, write_with_mode, ensure_dir_mode}
use lara_nux.Machine.Atomically.View.{
  view, view-read_if_exists, read_if_exists-view, view-ensure_dir_mode, written-view,
}
use lara_nux.Caddy.Render.{WebSite, WebActivationResult, normalize_site, render_site_config}
use lara_nux.Caddy.Import.{ensure_managed_root_import, managed_import_line}
use lara_nux.Caddy.Import.Managed.{ensure-imports}
use lara_nux.Caddy.Manager.Commands.{
  Manager, validate, reload, validate_command, reload_command, view-validate, view-reload,
}
use lara_nux.Caddy.Manager.Activate.{activate_site, import_root, install_site}
use lara_nux.Caddy.Manager.Rollback.{config_of, payload_of, changed_of, site_of}

-- A temporary file is never the file itself.
temp_apart : (path : Text) → text_eq (temp path) path ≡ false
temp_apart path = text_eq-append path (codes ".tmp") (unfold text_eq in refl)

module _ (env : Environment) (manager : Manager) where
  -- The last two calls are the validation and the reload, both answered without an error on the
  -- files as they are now.
  pub record IsAccepted (m : Machine) : Type 0 where
    pub earlier : List Call
    pub ended :
        m.trace ≡ run (reload_command env manager) ∷ run (validate_command env manager) ∷ earlier
    pub valid : (env.answer m.files earlier (validate_command env manager)).1 ≡ none
    pub loaded :
        (env.answer m.files
          (run (validate_command env manager) ∷ earlier)
          (reload_command env manager)).1
        ≡ none

  validate_sound :
      (m : Machine)
      → (validate env manager m).0 ≡ ok tt
      → ((validate env manager m).1
          ≡ record m { trace = run (validate_command env manager) ∷ m.trace })
        × ((env.answer m.files m.trace (validate_command env manager)).1 ≡ none)
  unfolding validate
  validate_sound m h = (refl, ground arith)

  reload_sound :
      (m : Machine)
      → (reload env manager m).0 ≡ ok tt
      → ((reload env manager m).1 ≡ record m { trace = run (reload_command env manager) ∷ m.trace })
        × ((env.answer m.files m.trace (reload_command env manager)).1 ≡ none)
  unfolding reload
  reload_sound m h = (refl, ground arith)

  accepted :
      (m : Machine)
      → (validate env manager m).0 ≡ ok tt
      → (reload env manager (validate env manager m).1).0 ≡ ok tt
      → IsAccepted (reload env manager (validate env manager m).1).1
  accepted m v r =
      let m' = (validate env manager m).1 in
      let (after, valid) = validate_sound m v in
      let (after', loaded) = reload_sound m' r in
      record {
        earlier = m.trace;
        ended = ground (arith, after, after');
        valid = ground (arith, after, after', valid);
        loaded = ground (arith, after, after', loaded);
      }

  module _ ⦃u : Unicode⦄ where
    -- An installation that succeeds ends in this machine, its parts having succeeded.
    install_site-parts :
        (site : WebSite) (root_previous : Option Text) (changed : Bool) (m : Machine)
        (result : WebActivationResult)
        → (install_site env manager site root_previous changed m).0 ≡ ok result
        → (m3 : Machine) × ((q : Text) → view q m3 ≡ view q m)
          × ((write_with_mode env (config_of manager site) (render_site_config site) m3).0 ≡ ok tt)
          × IsAccepted (install_site env manager site root_previous changed m).1
          × ((q : Text)
              → view q (install_site env manager site root_previous changed m).1
                ≡ view q
                    (write_with_mode env (config_of manager site) (render_site_config site) m3).1)
    unfolding install_site ◌>>=◌ on_failure map_error ignore
    install_site-parts site root_previous changed m result h =
        let path = config_of manager site in
        let m1 = (read_if_exists env path m).1 in
        let m2 = (ensure_dir_mode env (dir_name manager.sites_dir) m1).1 in
        let m3 = (ensure_dir_mode env manager.sites_dir m2).1 in
        let m4 = (write_with_mode env path (render_site_config site) m3).1 in
        let m5 = (validate env manager m4).1 in
        let valid : (validate env manager m4).0 ≡ ok tt = ground arith in
        let loaded : (reload env manager m5).0 ≡ ok tt = ground arith in
        let same : (install_site env manager site root_previous changed m).1
            ≡ (reload env manager m5).1 =
          ground arith in
        (
          m3,
          λ q. ground (
            arith,
            view-read_if_exists env q path m,
            view-ensure_dir_mode env q (dir_name manager.sites_dir) m1,
            view-ensure_dir_mode env q manager.sites_dir m2,
          ),
          ground arith,
          rw same (accepted m4 valid loaded),
          λ q.
              rw same
                (ground (arith, view-validate env manager q m4, view-reload env manager q m5)),
        )

    -- The root configuration behind its import, at any path that its temporary file is not at.
    import_root-view :
        (q : Text) (m : Machine) (root_previous : Option Text) (changed : Bool)
        → (import_root env manager root_previous m).0 ≡ ok changed
        → text_eq (temp manager.root_config_path) q ≡ false
        → (changed ≡ (ensure_managed_root_import root_previous).1)
          × (view q (import_root env manager root_previous m).1 ≡ (
              if changed
              then (if text_eq manager.root_config_path q
                  then some (ensure_managed_root_import root_previous).0
                  else view q m)
              else view q m))
    unfolding import_root ◌>>=◌ map_error when
    import_root-view q m root_previous changed h apart =
        let m1 = (ensure_dir_mode env (dir_name manager.root_config_path) m).1 in
        let next = (ensure_managed_root_import root_previous).0 in
        ground (
          arith,
          view-ensure_dir_mode env q (dir_name manager.root_config_path) m,
          written-view env q manager.root_config_path next m1,
        )

    -- A root configuration that is left as it is has the import already.
    unchanged_imports :
        (previous : Option Text)
        → (ensure_managed_root_import previous).1 ≡ false
        → previous ≡ some (ensure_managed_root_import previous).0
    unfolding ensure_managed_root_import
    unchanged_imports none h = cc
    unchanged_imports (some content) h = ground arith

    -- An ActivateSite that succeeds, where the paths of the two configurations differ from each
    -- other and from the temporary file, has normalized the site, left its rendered
    -- configuration at its path and a root configuration that imports the sites, and the last
    -- two calls were the validation and the reload of Caddy, both answered without an error on
    -- the files as they are now.
    pub activation-IsAccepted :
        (site : WebSite) (m : Machine) (result : WebActivationResult)
        → (activate_site env manager site m).0 ≡ ok result
        → ((site' : WebSite)
            → normalize_site (λ path. env.stat m.files m.trace path) site ≡ ok site'
            → (text_eq (temp (config_of manager site')) manager.root_config_path ≡ false)
              × (text_eq (config_of manager site') manager.root_config_path ≡ false))
        → (site' : WebSite) × (normalize_site (λ path. env.stat m.files m.trace path) site
            ≡ ok site')
          × (view (config_of manager site') (activate_site env manager site m).1
              ≡ some (render_site_config site'))
          × ((root : Text) × (view manager.root_config_path (activate_site env manager site m).1
                ≡ some root)
              × (contains managed_import_line root ≡ true))
          × IsAccepted (activate_site env manager site m).1
    unfolding activate_site ◌>>=◌ map_error
    activation-IsAccepted site m result h apart =
        let normalized = normalize_site (λ path. env.stat m.files m.trace path) site in
        let site' = site_of site normalized in
        let root = manager.root_config_path in
        let m1 = (read_if_exists env root m).1 in
        let previous = payload_of (read_if_exists env root m).0 in
        let imported = import_root env manager previous m1 in
        let changed = changed_of imported.0 in
        let next = (ensure_managed_root_import previous).0 in
        let normal : normalized ≡ ok site' = ground arith in
        let installed : (install_site env manager site' previous changed imported.1).0 ≡ ok result =
          ground arith in
        let same : (activate_site env manager site m).1
            ≡ (install_site env manager site' previous changed imported.1).1 =
          ground arith in
        let (temp_root, config_root) = apart site' normal in
        let path = config_of manager site' in
        let (m3, before, put, accepts, final) =
          install_site-parts site' previous changed imported.1 result installed in
        let temp_root_apart = temp_apart root in
        let root_kept : view root (activate_site env manager site m).1 ≡ some next = ground (
          arith,
          same,
          final root,
          written-view env root path (render_site_config site') m3,
          before root,
          import_root-view root m1 previous changed,
          temp_root_apart,
          unchanged_imports previous,
          view-read_if_exists env root root m,
          read_if_exists-view env root m previous,
          text_eq_refl root,
        ) in
        (
          site',
          normal,
          ground (
            arith,
            same,
            final path,
            written-view env path path (render_site_config site') m3,
            temp_apart path,
            text_eq_refl path,
          ),
          (next, root_kept, (ensure-imports previous).0),
          rw same accepts,
        )
