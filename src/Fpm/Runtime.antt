-- ===== src/Fpm/Runtime.antt =====
-- `normalizeRuntime` and the rendered files of daemon/internal/host/ubuntu/php/manager.go, and the
-- PHP types of daemon/internal/host/manager.go.
use lara_nux.Base.{Bool, false, ◌||◌, [], ◌∷◌, ◌++◌, is_empty, if◌then◌else◌}
use lara_nux.Text.{
  Text, Unicode, codes, lit, trim_space, trim_prefix, to_lower, contains, join_path,
}
use lara_nux.Effect.Fault.{Result, ok, err, sentinel, activation_validation}

pub record PhpRuntime : Type 0 where
  pub version : Text
  pub binary_path : Text
  pub fpm_binary_path : Text
  pub service_name : Text
  pub socket_path : Text

pub record PhpMaterialization : Type 0 where
  pub version : Text
  pub service_name : Text
  pub socket_path : Text
  pub pool_config_path : Text
  pub override_path : Text
  pub active : Bool

pub record PhpSwitchRequest : Type 0 where
  pub site_id : Text
  pub previous : PhpRuntime
  pub target : PhpRuntime

pub record Manager : Type 0 where
  pub php_root_dir : Text
  pub systemd_dir : Text
  pub socket_dir : Text

abbrev pub or_default : Text → Text → Text
or_default fallback s = if is_empty s then fallback else s

abbrev pub managed_pool_marker : Text
managed_pool_marker = codes "; Managed by Lara Nux"

abbrev pub managed_override_marker : Text
managed_override_marker = codes "# Managed by Lara Nux"

module _ (manager : Manager) ⦃u : Unicode⦄ where
  unfoldable pub complete_runtime : PhpRuntime → Text → PhpRuntime
  unfolding trim_space join_path
  complete_runtime runtime version = record runtime {
    version = version;
    service_name =
        or_default (codes "php" ++ (version ++ codes "-fpm")) (trim_space runtime.service_name);
    fpm_binary_path =
        or_default (join_path (codes "/usr/sbin" ∷ (codes "php-fpm" ++ version) ∷ []))
          (trim_space runtime.fpm_binary_path);
    socket_path =
        or_default
          (join_path
            (manager.socket_dir ∷ (codes "lara-nux-php" ++ (version ++ codes "-fpm.sock")) ∷ []))
          (trim_space runtime.socket_path);
  }

  unfoldable pub materialization_of : PhpRuntime → PhpMaterialization
  unfolding join_path
  materialization_of runtime = record {
    version = runtime.version;
    service_name = runtime.service_name;
    socket_path = runtime.socket_path;
    pool_config_path = join_path (
        manager.php_root_dir
        ∷ runtime.version
        ∷ codes "fpm"
        ∷ codes "pool.d"
        ∷ codes "lara-nux.conf"
        ∷ []);
    override_path =
        join_path
          (manager.systemd_dir ∷ (runtime.service_name ++ codes ".d") ∷ codes "lara-nux.conf" ∷ []);
    active = false;
  }

  unfoldable pub normalize_runtime : PhpRuntime → Result (PhpRuntime × PhpMaterialization)
  unfolding complete_runtime materialization_of to_lower trim_space trim_prefix
  normalize_runtime runtime =
      let version = trim_prefix (codes "php") (trim_space (to_lower runtime.version)) in
      if is_empty version
      then err (
          sentinel activation_validation
            (lit "activation validation failed: php version is required"))
      else ok
          (complete_runtime runtime version, materialization_of (complete_runtime runtime version))

unfoldable pub render_pool_config : PhpRuntime → Text
render_pool_config runtime =
    managed_pool_marker
    ++ (codes "\n[lara-nux]\nuser = www-data\ngroup = www-data\nlisten = "
        ++ (runtime.socket_path
            ++ codes
                "\nlisten.owner = caddy\nlisten.group = caddy\npm = dynamic\npm.max_children = 10\npm.start_servers = 2\npm.min_spare_servers = 1\npm.max_spare_servers = 4\nchdir = /\n"))

abbrev pub override_config : Text
override_config =
    managed_override_marker
    ++ codes "\n[Service]\nRuntimeDirectory=php\nRuntimeDirectoryMode=0755\n"

-- `isManagedPHPAsset`
unfoldable pub is_managed_php_asset : Text → Bool
unfolding contains
is_managed_php_asset content =
    contains managed_pool_marker content || contains managed_override_marker content
