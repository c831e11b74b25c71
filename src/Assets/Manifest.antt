-- ===== src/Assets/Manifest.antt =====
-- The manifest of managed assets and its operations: daemon/internal/app/managed_assets.go. The
-- strings of `ManagedAssetKind` and `RollbackAction` are taken from their constants alone.
use lara_nux.Base.{ℕ, Bool, true, false, List, [], ◌∷◌, filter, not, if◌then◌else◌}
use lara_nux.Text.{Text, codes, text_eq}
use lara_nux.Bootstrap.Paths.{AppPaths}

pub data ManagedAssetKind : Type 0 where
  directory socket service_unit resolver web_config state_file : ManagedAssetKind

pub data RollbackAction : Type 0 where
  remove restore_previous leave : RollbackAction

pub record ManagedAsset : Type 0 where
  pub id : Text
  pub kind : ManagedAssetKind
  pub path : Text
  pub owner : Text
  pub group : Text
  pub mode : Text
  pub rollback_action : RollbackAction
  pub notes : Text

pub record ManagedAssetManifest : Type 0 where
  pub format : Text
  pub target_os : Text
  pub generated_at : ℕ
  pub assets : List ManagedAsset

abbrev runtime_dir_asset : AppPaths → ManagedAsset
runtime_dir_asset paths = record {
  id = codes "runtime-dir";
  kind = directory;
  path = paths.runtime_dir;
  owner = codes "root";
  group = codes "lara-nux";
  mode = codes "0750";
  rollback_action = remove;
  notes = codes "Transient runtime directory for the daemon socket and runtime files.";
}

abbrev daemon_socket_asset : AppPaths → ManagedAsset
daemon_socket_asset paths = record {
  id = codes "daemon-socket";
  kind = socket;
  path = paths.socket_path;
  owner = codes "root";
  group = codes "lara-nux";
  mode = codes "0660";
  rollback_action = remove;
  notes = codes "Unix socket boundary consumed by the Wails/Nuxt desktop client.";
}

abbrev state_dir_asset : AppPaths → ManagedAsset
state_dir_asset paths = record {
  id = codes "state-dir";
  kind = directory;
  path = paths.state_dir;
  owner = codes "root";
  group = codes "lara-nux";
  mode = codes "0750";
  rollback_action = remove;
  notes = codes "Daemon state storage used for install metadata and rollback bookkeeping.";
}

abbrev manifest_asset : AppPaths → ManagedAsset
manifest_asset paths = record {
  id = codes "managed-assets-manifest";
  kind = state_file;
  path = paths.managed_assets_path;
  owner = codes "root";
  group = codes "lara-nux";
  mode = codes "0640";
  rollback_action = remove;
  notes = codes "Manifest consumed during uninstall or failed-install rollback.";
}

abbrev resolved_stub_asset : ManagedAsset
resolved_stub_asset = record {
  id = codes "resolved-test-stub";
  kind = resolver;
  path = codes "/etc/systemd/resolved.conf.d/lara-nux-test.conf";
  owner = codes "root";
  group = codes "root";
  mode = codes "0644";
  rollback_action = restore_previous;
  notes = codes "Managed resolver stub for .test routing without overwriting unrelated DNS assets.";
}

abbrev caddy_sites_asset : ManagedAsset
caddy_sites_asset = record {
  id = codes "caddy-sites-dir";
  kind = web_config;
  path = codes "/etc/caddy/sites.d/lara-nux";
  owner = codes "root";
  group = codes "root";
  mode = codes "0755";
  rollback_action = restore_previous;
  notes = codes "Namespace reserved for per-site Caddy definitions managed by the daemon.";
}

abbrev daemon_service_asset : ManagedAsset
daemon_service_asset = record {
  id = codes "daemon-service";
  kind = service_unit;
  path = codes "/lib/systemd/system/lara-nuxd.service";
  owner = codes "root";
  group = codes "root";
  mode = codes "0644";
  rollback_action = remove;
  notes =
      codes
        "Packaged systemd unit for the privileged daemon; local overrides belong under /etc/systemd/system.";
}

-- `DefaultUbuntuManagedAssets`, at the time `now`.
unfoldable pub default_ubuntu_managed_assets : AppPaths → ℕ → ManagedAssetManifest
default_ubuntu_managed_assets paths now = record {
  format = codes "lara-nux.managed-assets/v1";
  target_os = codes "ubuntu";
  generated_at = now;
  assets =
      runtime_dir_asset paths
      ∷ daemon_socket_asset paths
      ∷ state_dir_asset paths
      ∷ manifest_asset paths
      ∷ resolved_stub_asset
      ∷ caddy_sites_asset
      ∷ daemon_service_asset
      ∷ [];
}

-- The loop of `Track`.
unfoldable pub put_asset : ManagedAsset → List ManagedAsset → List ManagedAsset
put_asset asset [] = asset ∷ []
put_asset asset (a ∷ assets) =
    let rest = put_asset asset assets in if text_eq a.id asset.id then asset ∷ assets else a ∷ rest

unfoldable pub track : ManagedAsset → ManagedAssetManifest → ManagedAssetManifest
unfolding put_asset
track asset m = record m { assets = put_asset asset m.assets }

unfoldable pub remove_asset : Text → ManagedAssetManifest → ManagedAssetManifest
unfolding filter text_eq
remove_asset id m = record m { assets = filter (λ a. not (text_eq a.id id)) m.assets }

abbrev pub is_target : ManagedAsset → Bool
is_target a = elim a.rollback_action [ remove ↦ true | restore_previous ↦ true | leave ↦ false ]

unfoldable pub rollback_targets : ManagedAssetManifest → List ManagedAsset
unfolding filter
rollback_targets m = filter is_target m.assets
