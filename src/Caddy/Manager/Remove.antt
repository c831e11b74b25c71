-- ===== src/Caddy/Manager/Remove.antt =====
-- `RemoveSite` of daemon/internal/host/ubuntu/caddy/manager.go, and what its failures leave.
use lara_nux.Base.{
  Bool, true, false, [], ◌∷◌, ◌++◌, Option, none, some, ◌≡◌, refl, arith, if◌then◌else◌, is_empty,
}
use lara_nux.Text.{Text, Unicode, codes, lit, text_eq, text_eq_iff, trim_space, join_path, contains}
use lara_nux.Effect.Fault.{Error, ok, is_ok, wrap, sentinel, require, managed_asset_conflict}
use lara_nux.Effect.Action.{Action, ◌>>=◌, ◌>>◌, pure, lift, gets, map_error, ignore, on_failure}
use lara_nux.Machine.Calls.{Machine, Environment, glob}
use lara_nux.Machine.Atomically.{
  temp, read_if_exists, remove_if_exists, write_with_mode, restore_file,
}
use lara_nux.Machine.Atomically.View.{
  view, Writable, view-read_if_exists, read_if_exists-view, view-write_with_mode,
  view-restore_with_mode, view-remove_if_exists, restore_with_mode_ok, remove_if_exists_ok,
}
use lara_nux.Caddy.Tokens.{sanitize_token}
use lara_nux.Caddy.Import.{remove_managed_root_import}
use lara_nux.Caddy.Manager.Commands.{Manager, validate, reload, view-validate, view-reload}
use lara_nux.Caddy.Manager.Activate.{restore_root}
use lara_nux.Caddy.Manager.Rollback.{view-restore_root, payload_of, changed_of}

abbrev pub managed_marker : Text
managed_marker = lit "# Managed by Lara Nux"

abbrev not_owned : Text → Error
not_owned path =
    sentinel managed_asset_conflict (
      lit "managed asset conflict: caddy site config " ++ (path ++ lit " is not owned by Lara Nux"))

module _ (env : Environment) (manager : Manager) where
  -- The configuration is written again.
  unfoldable pub put_back : Text → Text → Action Machine (Unit {0})
  put_back path payload = ignore (write_with_mode env path payload)

  -- With no managed site left, the root configuration loses the import.
  unfoldable pub drop_import : Text → Text → Option Text → Action Machine Bool
  drop_import path payload root_previous m =
      let (root_next, changed) = remove_managed_root_import root_previous in
      if changed
      then (on_failure (put_back path payload) (
              map_error (wrap (lit "remove managed caddy root import: "))
                (restore_file env (write_with_mode env) manager.root_config_path root_next))
            >> pure true)
          m
      else (ok false, m)

  unfoldable pub undo_removal : Text → Text → Option Text → Bool → Action Machine (Unit {0})
  undo_removal path payload root_previous root_changed = do
    put_back path payload
    restore_root env manager root_previous root_changed

  unfoldable pub remove_owned : Text → Text → Text → Option Text → Action Machine (Unit {0})
  remove_owned site_id path payload root_previous = do
    lift (require (contains managed_marker payload) (not_owned path))
    map_error (wrap (lit "remove caddy site config: ")) (remove_if_exists env path)
    remaining ← gets (glob env manager.sites_dir (codes ".caddy"))
    root_changed ← if is_empty remaining then drop_import path payload root_previous else pure false
    let undo = undo_removal path payload root_previous root_changed
    on_failure undo (
        map_error (wrap (lit "validate caddy after removing " ++ (site_id ++ lit ": ")))
          (validate env manager))
    on_failure (undo >> (ignore (validate env manager) >> ignore (reload env manager))) (
        map_error (wrap (lit "reload caddy after removing " ++ (site_id ++ lit ": ")))
          (reload env manager))

  -- The removal of the configuration that was found.
  unfoldable pub remove_found : Text → Text → Option Text → Option Text → Action Machine (Unit {0})
  remove_found site_id path root_previous none = pure tt
  remove_found site_id path root_previous (some payload) =
      remove_owned site_id path payload root_previous

  abbrev pub removed_config : ⦃u : Unicode⦄ → Text → Text
  removed_config site_id =
      join_path (manager.sites_dir ∷ (sanitize_token (trim_space site_id) ++ codes ".caddy") ∷ [])

  unfoldable pub remove_site : ⦃u : Unicode⦄ → Text → Action Machine (Unit {0})
  remove_site site_id m =
      if is_empty (trim_space site_id)
      then (ok tt, m)
      else (do
        root_previous ←
            map_error (wrap (lit "read caddy root config: "))
              (read_if_exists env manager.root_config_path)
        found ← read_if_exists env (removed_config site_id)
        remove_found site_id (removed_config site_id) root_previous found)
          m

module _ (env : Environment) (works : Writable env) (manager : Manager) (q : Text)
    (root_apart : text_eq (temp manager.root_config_path) q ≡ false) where
  view-undo_removal :
      (path payload : Text) (root_previous : Option Text) (changed : Bool) (m : Machine)
      → text_eq (temp path) q ≡ false
      → view q (undo_removal env manager path payload root_previous changed m).1 ≡ (
          if changed
          then (if text_eq manager.root_config_path q
              then root_previous
              else if text_eq path q
              then some payload
              else view q m)
          else if text_eq path q
          then some payload
          else view q m)
  unfolding undo_removal put_back ◌>>=◌ ignore
  view-undo_removal path payload root_previous changed m apart =
      let m' = (write_with_mode env path payload m).1 in
      ground (
        arith,
        view-write_with_mode env works q path apart payload m,
        view-restore_root env works manager q root_apart root_previous changed m',
      )

  view-drop_import :
      (path payload : Text) (root_previous : Option Text) (m : Machine)
      → text_eq (temp path) q ≡ false
      → view q (drop_import env manager path payload root_previous m).1 ≡ (
          if is_ok (drop_import env manager path payload root_previous m).0
          then (if changed_of (drop_import env manager path payload root_previous m).0
              then (if text_eq manager.root_config_path q
                  then (remove_managed_root_import root_previous).0
                  else view q m)
              else view q m)
          else if text_eq path q
          then some payload
          else view q m)
  unfolding drop_import put_back ◌>>=◌ on_failure map_error ignore
  view-drop_import path payload root_previous m apart =
      let next = (remove_managed_root_import root_previous).0 in
      let m' = (restore_file env (write_with_mode env) manager.root_config_path next m).1 in
      ground (
        arith,
        view-restore_with_mode env works q manager.root_config_path root_apart next m,
        restore_with_mode_ok env works q manager.root_config_path root_apart next m,
        view-write_with_mode env works q path apart payload m',
      )

  remove_owned_failed :
      (site_id path payload : Text) (root_previous : Option Text) (m : Machine)
      → text_eq (temp path) q ≡ false
      → view path m ≡ some payload
      → view manager.root_config_path m ≡ root_previous
      → is_ok (remove_owned env manager site_id path payload root_previous m).0 ≡ false
      → view q (remove_owned env manager site_id path payload root_previous m).1 ≡ view q m
  unfolding remove_owned ◌>>=◌ on_failure map_error ignore
  remove_owned_failed site_id path payload root_previous m apart found root h =
      let m1 = (remove_if_exists env path m).1 in
      let dropped = drop_import env manager path payload root_previous m1 in
      let changed = changed_of dropped.0 in
      let m2 = (validate env manager dropped.1).1 in
      let m3 = (reload env manager m2).1 in
      let u3 = (undo_removal env manager path payload root_previous changed m3).1 in
      let v3 = (validate env manager u3).1 in
      let kept = (validate env manager m1).1 in
      let kept3 = (reload env manager kept).1 in
      let w3 = (undo_removal env manager path payload root_previous false kept3).1 in
      let x3 = (validate env manager w3).1 in
      ground (
        arith,
        view-remove_if_exists env works q path apart m,
        remove_if_exists_ok env works q path apart m,
        view-drop_import path payload root_previous m1 apart,
        view-validate env manager q dropped.1,
        view-reload env manager q m2,
        view-undo_removal path payload root_previous changed m2 apart,
        view-undo_removal path payload root_previous changed m3 apart,
        view-validate env manager q u3,
        view-reload env manager q v3,
        view-validate env manager q m1,
        view-reload env manager q kept,
        view-undo_removal path payload root_previous false kept apart,
        view-undo_removal path payload root_previous false kept3 apart,
        view-validate env manager q w3,
        view-reload env manager q x3,
        text_eq_iff path q,
        text_eq_iff manager.root_config_path q,
      )

module _ (env : Environment) (works : Writable env) (manager : Manager) (q : Text)
    (root_apart : text_eq (temp manager.root_config_path) q ≡ false) where
  remove_found_failed :
      (site_id path : Text) (root_previous payload : Option Text) (m : Machine)
      → text_eq (temp path) q ≡ false
      → view path m ≡ payload
      → view manager.root_config_path m ≡ root_previous
      → is_ok (remove_found env manager site_id path root_previous payload m).0 ≡ false
      → view q (remove_found env manager site_id path root_previous payload m).1 ≡ view q m
  unfolding remove_found
  remove_found_failed site_id path root_previous none m apart found root h = refl
  remove_found_failed site_id path root_previous (some payload) m apart found root h =
      remove_owned_failed env works manager q root_apart site_id path payload root_previous m apart
        found root h

module _ (env : Environment) (works : Writable env) (manager : Manager) ⦃u : Unicode⦄ where
  -- Where the file system takes every write, rename, removal and change of mode, a RemoveSite
  -- that fails leaves the file at every path as it was, except at the two temporary paths.
  pub removal_rolled_back :
      (site_id : Text) (m : Machine) (q : Text)
      → is_ok (remove_site env manager site_id m).0 ≡ false
      → text_eq (temp manager.root_config_path) q ≡ false
      → text_eq (temp (removed_config env manager site_id)) q ≡ false
      → view q (remove_site env manager site_id m).1 ≡ view q m
  unfolding remove_site ◌>>=◌ map_error
  removal_rolled_back site_id m q h root_apart apart =
      let root = manager.root_config_path in
      let path = removed_config env manager site_id in
      let m1 = (read_if_exists env root m).1 in
      let previous = payload_of (read_if_exists env root m).0 in
      let m2 = (read_if_exists env path m1).1 in
      let payload = payload_of (read_if_exists env path m1).0 in
      ground (
        arith,
        view-read_if_exists env q root m,
        read_if_exists-view env root m previous,
        view-read_if_exists env root path m1,
        read_if_exists-view env path m1 payload,
        view-read_if_exists env q path m1,
        remove_found_failed env works manager q root_apart site_id path previous payload m2,
        view-read_if_exists env root root m,
        view-read_if_exists env path path m1,
      )
