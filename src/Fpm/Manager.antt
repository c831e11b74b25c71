-- ===== src/Fpm/Manager.antt =====
-- The methods of `Manager` in daemon/internal/host/ubuntu/php/manager.go.
use lara_nux.Base.{true, false, List, [], ◌∷◌, ◌++◌, Option, none, some, is_empty, if◌then◌else◌}
use lara_nux.Text.{Text, Unicode, lit, trim_space, dir_name}
use lara_nux.Effect.Fault.{sentinel, wrap, require, managed_asset_conflict, runtime_switch_rollback}
use lara_nux.Effect.Action.{Action, ◌>>=◌, ◌>>◌, pure, lift, map_error, ignore, on_failure, when}
use lara_nux.Machine.Calls.{Machine, Environment, mkdir_all, run_command}
use lara_nux.Machine.Atomically.{read_if_exists, remove_if_exists, write_atomically, restore_file}
use lara_nux.Resolver.Manager.{failed_command}
use lara_nux.Fpm.Runtime.{
  PhpRuntime, PhpMaterialization, PhpSwitchRequest, Manager, normalize_runtime, render_pool_config,
  override_config, is_managed_php_asset,
}

abbrev systemctl : List Text → List Text
systemctl args = lit "systemctl" ∷ args

module _ (env : Environment) where
  unfoldable pub validate_runtime : PhpRuntime → Action Machine (Unit {0})
  unfolding ◌>>=◌ run_command
  validate_runtime runtime = do
    answer ← run_command env (runtime.fpm_binary_path ∷ lit "-t" ∷ [])
    lift (failed_command (lit "validate php-fpm runtime " ++ (runtime.version ++ lit ": ")) answer)

  unfoldable pub daemon_reload : Action Machine (Unit {0})
  unfolding ◌>>=◌ run_command
  daemon_reload = do
    answer ← run_command env (systemctl (lit "daemon-reload" ∷ []))
    lift (failed_command (lit "systemd daemon-reload failed: ") answer)

  unfoldable pub restart_service : Text → Action Machine (Unit {0})
  unfolding ◌>>=◌ run_command
  restart_service service_name = do
    answer ← run_command env (systemctl (lit "restart" ∷ service_name ∷ []))
    lift (failed_command (lit "restart php-fpm service " ++ (service_name ++ lit ": ")) answer)

  unfoldable pub put_back : Text → Option Text → Action Machine (Unit {0})
  unfolding ignore restore_file write_atomically
  put_back path previous = ignore (restore_file env (write_atomically env) path previous)

  -- The closure `rollback` of `MaterializeRuntime`.
  unfoldable pub roll_back :
      PhpRuntime → PhpMaterialization → Option Text → Option Text → Action Machine (Unit {0})
  unfolding ◌>>=◌ put_back ignore daemon_reload restart_service
  roll_back runtime target pool override = do
    put_back target.pool_config_path pool
    put_back target.override_path override
    ignore daemon_reload
    ignore (restart_service runtime.service_name)

  -- The directories and the two files.
  unfoldable pub write_files :
      Manager → PhpRuntime → PhpMaterialization → Option Text → Action Machine (Unit {0})
  unfolding ◌>>=◌ map_error on_failure mkdir_all write_atomically put_back render_pool_config
      dir_name
  write_files manager runtime target pool = do
    map_error (wrap (lit "create php pool directory: "))
        (mkdir_all env (dir_name target.pool_config_path))
    map_error (wrap (lit "create systemd override directory: "))
        (mkdir_all env (dir_name target.override_path))
    map_error (wrap (lit "create php socket directory: ")) (mkdir_all env manager.socket_dir)
    map_error (wrap (lit "write php-fpm pool config: "))
        (write_atomically env target.pool_config_path (render_pool_config runtime))
    on_failure (put_back target.pool_config_path pool) (
        map_error (wrap (lit "write php-fpm override config: "))
          (write_atomically env target.override_path override_config))

  -- systemd takes the files up.
  unfoldable pub start :
      PhpRuntime
      → PhpMaterialization
      → Option Text
      → Option Text
      → Action Machine PhpMaterialization
  unfolding ◌>>=◌ map_error on_failure roll_back daemon_reload validate_runtime restart_service
  start runtime target pool override = do
    on_failure (roll_back runtime target pool override)
        (map_error (wrap (lit "reload systemd before php-fpm validation: ")) daemon_reload)
    on_failure (roll_back runtime target pool override) (validate_runtime runtime)
    on_failure (roll_back runtime target pool override) (restart_service runtime.service_name)
    pure (record target { active = true })

  -- What follows the reads of the two backups.
  unfoldable pub install :
      Manager
      → PhpRuntime
      → PhpMaterialization
      → Option Text
      → Option Text
      → Action Machine PhpMaterialization
  unfolding ◌>>=◌ write_files start
  install manager runtime target pool override =
      write_files manager runtime target pool >> start runtime target pool override

  -- What follows the read of the pool's backup.
  unfoldable pub pool_backed_up :
      Manager → PhpRuntime → PhpMaterialization → Option Text → Action Machine PhpMaterialization
  unfolding ◌>>=◌ map_error read_if_exists install
  pool_backed_up manager runtime target pool = do
    override ←
        map_error (wrap (lit "read php-fpm override backup: "))
          (read_if_exists env target.override_path)
    install manager runtime target pool override

  unfoldable pub backed_up :
      Manager → PhpRuntime × PhpMaterialization → Action Machine PhpMaterialization
  unfolding ◌>>=◌ map_error read_if_exists pool_backed_up
  backed_up manager (runtime, target) = do
    pool ←
        map_error (wrap (lit "read php-fpm pool backup: "))
          (read_if_exists env target.pool_config_path)
    pool_backed_up manager runtime target pool

  remove_found : Text → Option Text → Action Machine (Unit {0})
  unfolding ◌>>=◌ map_error remove_if_exists is_managed_php_asset
  remove_found path none = pure tt
  remove_found path (some payload) = do
    lift (
        require (is_managed_php_asset payload) (
          sentinel managed_asset_conflict (
            lit "managed asset conflict: php-fpm asset "
            ++ (path ++ lit " is not owned by Lara Nux"))))
    map_error (wrap (lit "remove managed php-fpm asset " ++ (path ++ lit ": ")))
        (remove_if_exists env path)

  unfoldable pub remove_managed_file : Text → Action Machine (Unit {0})
  unfolding ◌>>=◌ read_if_exists remove_found
  remove_managed_file path = read_if_exists env path >>= remove_found path

  module _ ⦃u : Unicode⦄ (manager : Manager) where
    unfoldable pub materialize_runtime : PhpRuntime → Action Machine PhpMaterialization
    unfolding ◌>>=◌ backed_up normalize_runtime
    materialize_runtime runtime = lift (normalize_runtime manager runtime) >>= backed_up manager

    -- `SwitchRuntime`: the previous service is started again if the target cannot be materialized.
    unfoldable pub switch_runtime : PhpSwitchRequest → Action Machine PhpMaterialization
    unfolding on_failure map_error ignore when materialize_runtime run_command trim_space
    switch_runtime request =
        map_error
          (λ e.
            sentinel runtime_switch_rollback (lit "php runtime switch rolled back: " ++ e.message))
          (on_failure
            (when (if is_empty (trim_space request.previous.service_name) then false else true) (
              ignore
                (run_command env (systemctl (lit "restart" ∷ request.previous.service_name ∷ [])))))
            (materialize_runtime request.target))

    unfoldable pub remove_runtime : PhpRuntime → Action Machine (Unit {0})
    unfolding ◌>>=◌ normalize_runtime remove_managed_file daemon_reload restart_service
    remove_runtime runtime = do
      (_, target) ← lift (normalize_runtime manager runtime)
      remove_managed_file target.pool_config_path
      remove_managed_file target.override_path
      daemon_reload
      restart_service target.service_name
