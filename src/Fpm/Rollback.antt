-- ===== src/Fpm/Rollback.antt =====
-- What `MaterializeRuntime` leaves on the host where the file system takes every write:
-- daemon/internal/host/ubuntu/php/manager.go.
use lara_nux.Base.{false, Option, none, some, ◌≡◌, arith, if◌then◌else◌, not}
use lara_nux.Text.{Text, Unicode, lit, text_eq, text_eq_iff, dir_name}
use lara_nux.Effect.Fault.{ok, is_ok, wrap, value_or, rejects, runtime_switch_rollback}
use lara_nux.Effect.Action.{Action, ◌>>=◌, map_error, on_failure, ignore, when}
use lara_nux.Machine.Calls.{Machine, Environment, mkdir_all, run_command}
use lara_nux.Machine.Atomically.{temp, read_if_exists, write_atomically}
use lara_nux.Machine.Atomically.View.{
  view, Writable, view-read_if_exists, read_if_exists-view, view-write_atomically,
  view-restore_atomically,
}
use lara_nux.Fpm.Runtime.{
  PhpRuntime, PhpMaterialization, PhpSwitchRequest, Manager, normalize_runtime, render_pool_config,
  override_config,
}
use lara_nux.Fpm.Manager.{
  validate_runtime, daemon_reload, restart_service, put_back, roll_back, write_files, start,
  install, pool_backed_up, backed_up, materialize_runtime, switch_runtime,
}

module _ (env : Environment) (q : Text) where
  view-validate_runtime :
      (runtime : PhpRuntime) (m : Machine) → view q (validate_runtime env runtime m).1 ≡ view q m
  unfolding validate_runtime
  view-validate_runtime runtime m = ground arith

  view-daemon_reload : (m : Machine) → view q (daemon_reload env m).1 ≡ view q m
  unfolding daemon_reload
  view-daemon_reload m = ground arith

  view-restart_service :
      (name : Text) (m : Machine) → view q (restart_service env name m).1 ≡ view q m
  unfolding restart_service
  view-restart_service name m = ground arith

  view-mkdir_all : (path : Text) (m : Machine) → view q (mkdir_all env path m).1 ≡ view q m
  unfolding mkdir_all
  view-mkdir_all path m = ground arith

  -- A step that changes no file, with what undoes the files if it fails.
  guarded :
      {A : Type 0} (back : Option Text → Option Text) (undo : Action Machine (Unit {0}))
      (act : Action Machine A)
      → ((m : Machine) → view q (undo m).1 ≡ back (view q m))
      → (m : Machine) → view q (act m).1 ≡ view q m
      → view q (on_failure undo act m).1
        ≡ (if is_ok (on_failure undo act m).0 then view q m else back (view q m))
  unfolding on_failure
  guarded back undo act undoes m keeps = ground (arith, undoes (act m).1, keeps)

module _ (q : Text) where
  -- The file at the path, once both files are written, or both put back.
  pub written : PhpRuntime → PhpMaterialization → Option Text → Option Text
  written runtime target was =
      if text_eq target.override_path q
      then some override_config
      else if text_eq target.pool_config_path q
      then some (render_pool_config runtime)
      else was

  rolled : PhpMaterialization → Option Text → Option Text → Option Text → Option Text
  rolled target pool override was =
      if text_eq target.override_path q
      then override
      else if text_eq target.pool_config_path q
      then pool
      else was

module _ (env : Environment) (works : Writable env) (q : Text) where
  view-put_back :
      (path : Text) (previous : Option Text) (m : Machine)
      → text_eq (temp path) q ≡ false
      → view q (put_back env path previous m).1 ≡ (if text_eq path q then previous else view q m)
  unfolding put_back ignore
  view-put_back path previous m apart = view-restore_atomically env works q path apart previous m

  rolled-written :
      (runtime : PhpRuntime) (target : PhpMaterialization) (m : Machine)
      → rolled q target
          (view target.pool_config_path m)
          (view target.override_path m)
          (written q runtime target (view q m))
        ≡ view q m
  unfolding written rolled
  rolled-written runtime target m =
      ground (arith, text_eq_iff target.pool_config_path q, text_eq_iff target.override_path q)

  module _ (runtime : PhpRuntime) (target : PhpMaterialization)
      (pool_apart : text_eq (temp target.pool_config_path) q ≡ false)
      (override_apart : text_eq (temp target.override_path) q ≡ false) where
    view-roll_back :
        (pool override : Option Text) (m : Machine)
        → view q (roll_back env runtime target pool override m).1
          ≡ rolled q target pool override (view q m)
    unfolding rolled roll_back ◌>>=◌ ignore
    view-roll_back pool override m =
        let m1 = (put_back env target.pool_config_path pool m).1 in
        let m2 = (put_back env target.override_path override m1).1 in
        let m3 = (daemon_reload env m2).1 in
        ground (
          arith,
          view-put_back target.pool_config_path pool m pool_apart,
          view-put_back target.override_path override m1 override_apart,
          view-daemon_reload env q m2,
          view-restart_service env q runtime.service_name m3,
        )

    view-write_files :
        (manager : Manager) (pool : Option Text) (m : Machine)
        → view q (write_files env manager runtime target pool m).1 ≡ (
            if is_ok (write_files env manager runtime target pool m).0
            then written q runtime target (view q m)
            else view q m)
    unfolding written write_files ◌>>=◌ map_error on_failure
    view-write_files manager pool m =
        let pool_path = target.pool_config_path in
        let override_path = target.override_path in
        let m1 = (mkdir_all env (dir_name pool_path) m).1 in
        let m2 = (mkdir_all env (dir_name override_path) m1).1 in
        let m3 = (mkdir_all env manager.socket_dir m2).1 in
        let m4 = (write_atomically env pool_path (render_pool_config runtime) m3).1 in
        ground (
          arith,
          view-mkdir_all env q (dir_name pool_path) m,
          view-mkdir_all env q (dir_name override_path) m1,
          view-mkdir_all env q manager.socket_dir m2,
          view-write_atomically env works q pool_path pool_apart (render_pool_config runtime) m3,
          view-write_atomically env works q override_path override_apart override_config m4,
        )

    view-start :
        (pool override : Option Text) (m : Machine)
        → view q (start env runtime target pool override m).1 ≡ (
            if is_ok (start env runtime target pool override m).0
            then view q m
            else rolled q target pool override (view q m))
    unfolding start ◌>>=◌
    view-start pool override m =
        let undo = roll_back env runtime target pool override in
        let back = rolled q target pool override in
        let reloading =
          map_error (wrap (lit "reload systemd before php-fpm validation: ")) (daemon_reload env) in
        let m6 = (on_failure undo reloading m).1 in
        let m7 = (on_failure undo (validate_runtime env runtime) m6).1 in
        ground (
          arith,
          guarded env q back undo reloading (view-roll_back pool override) m
              (view-daemon_reload env q m),
          guarded env q back undo (validate_runtime env runtime) (view-roll_back pool override) m6
              (view-validate_runtime env q runtime m6),
          guarded env q back undo (restart_service env runtime.service_name)
              (view-roll_back pool override) m7
              (view-restart_service env q runtime.service_name m7),
        )

    view-install :
        (manager : Manager) (pool override : Option Text) (m : Machine)
        → view target.pool_config_path m ≡ pool
        → view target.override_path m ≡ override
        → view q (install env manager runtime target pool override m).1 ≡ (
            if is_ok (install env manager runtime target pool override m).0
            then written q runtime target (view q m)
            else view q m)
    unfolding install ◌>>=◌
    view-install manager pool override m was_pool was_override =
        let m' = (write_files env manager runtime target pool m).1 in
        ground (
          arith,
          view-write_files manager pool m,
          view-start pool override m',
          rolled-written runtime target m,
        )

    view-pool_backed_up :
        (manager : Manager) (pool : Option Text) (m : Machine)
        → view target.pool_config_path m ≡ pool
        → view q (pool_backed_up env manager runtime target pool m).1 ≡ (
            if is_ok (pool_backed_up env manager runtime target pool m).0
            then written q runtime target (view q m)
            else view q m)
    unfolding pool_backed_up ◌>>=◌ map_error
    view-pool_backed_up manager pool m was_pool =
        let path = target.override_path in
        let m' = (read_if_exists env path m).1 in
        let override = value_or none (read_if_exists env path m).0 in
        ground (
          arith,
          view-read_if_exists env q path m,
          view-read_if_exists env path path m,
          view-read_if_exists env target.pool_config_path path m,
          read_if_exists-view env path m override,
          view-install manager pool override m',
        )

    view-backed_up :
        (manager : Manager) (m : Machine)
        → view q (backed_up env manager (runtime, target) m).1 ≡ (
            if is_ok (backed_up env manager (runtime, target) m).0
            then written q runtime target (view q m)
            else view q m)
    unfolding backed_up ◌>>=◌ map_error
    view-backed_up manager m =
        let path = target.pool_config_path in
        let m' = (read_if_exists env path m).1 in
        let pool = value_or none (read_if_exists env path m).0 in
        ground (
          arith,
          view-read_if_exists env q path m,
          view-read_if_exists env path path m,
          read_if_exists-view env path m pool,
          view-pool_backed_up manager pool m',
        )

  module _ ⦃u : Unicode⦄ (manager : Manager) where
    -- Where the file system takes every write, rename, removal and change of mode,
    -- MaterializeRuntime either succeeds and leaves the rendered pool configuration and the
    -- override at their paths and every other file as it was, or fails and leaves every file as
    -- it was, the two temporary paths aside.
    pub materialized_or_rolled_back :
        (runtime runtime' : PhpRuntime) (target : PhpMaterialization) (m : Machine)
        → normalize_runtime manager runtime ≡ ok (runtime', target)
        → text_eq (temp target.pool_config_path) q ≡ false
        → text_eq (temp target.override_path) q ≡ false
        → view q (materialize_runtime env manager runtime m).1 ≡ (
            if is_ok (materialize_runtime env manager runtime m).0
            then written q runtime' target (view q m)
            else view q m)
    unfolding materialize_runtime ◌>>=◌
    materialized_or_rolled_back runtime runtime' target m h pool_apart override_apart =
        ground (arith, view-backed_up runtime' target pool_apart override_apart manager m, h)

    -- SwitchRuntime leaves the files as MaterializeRuntime on its target does, and exactly its
    -- failures are ErrRuntimeSwitchRollback.
    switch_materializes :
        (request : PhpSwitchRequest) (m : Machine)
        → (view q (switch_runtime env manager request m).1
            ≡ view q (materialize_runtime env manager request.target m).1)
          × (rejects runtime_switch_rollback (switch_runtime env manager request m).0
              ≡ not (is_ok (switch_runtime env manager request m).0))
    unfolding switch_runtime map_error on_failure when ignore run_command rejects
    switch_materializes request m = ground arith
