-- ===== src/Bootstrap/Paths.antt =====
-- `AppPaths`, `LoadPathsFromEnv` and `envOrDefault` of daemon/internal/app/bootstrap_service.go.
use lara_nux.Base.{[], ◌∷◌, is_empty, if◌then◌else◌}
use lara_nux.Text.{Text, codes, trim_space, join_path}

pub record AppPaths : Type 0 where
  pub config_dir : Text
  pub state_dir : Text
  pub runtime_dir : Text
  pub socket_path : Text
  pub managed_assets_path : Text

-- `get_env` is `os.Getenv`, which is empty for a variable that is not set.
module _ (get_env : Text → Text) where
  unfoldable pub env_or_default : Text → Text → Text
  unfolding trim_space
  env_or_default key fallback =
      let value = trim_space (get_env key) in if is_empty value then fallback else value

  abbrev config_dir : Text
  config_dir = env_or_default (codes "LARA_NUXT_CONFIG_DIR") (codes "/etc/lara-nux")

  abbrev state_dir : Text
  state_dir = env_or_default (codes "LARA_NUXT_STATE_DIR") (codes "/var/lib/lara-nux")

  abbrev runtime_dir : Text
  runtime_dir = env_or_default (codes "LARA_NUXT_RUNTIME_DIR") (codes "/run/lara-nux")

  unfoldable pub load_paths_from_env : AppPaths
  unfolding env_or_default join_path
  load_paths_from_env = record {
    config_dir = config_dir;
    state_dir = state_dir;
    runtime_dir = runtime_dir;
    socket_path =
        env_or_default (codes "LARA_NUXT_SOCKET_PATH")
          (join_path (runtime_dir ∷ codes "lara-nux.sock" ∷ []));
    managed_assets_path =
        env_or_default (codes "LARA_NUXT_MANAGED_ASSETS_PATH")
          (join_path (state_dir ∷ codes "managed-assets.json" ∷ []));
  }
