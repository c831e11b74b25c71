-- ===== src/Tests/Assets.antt =====
-- The manifest of managed assets at concrete inputs.
use lara_nux.Base.{List, [], ◌∷◌, ◌≡◌, refl, if◌then◌else◌}
use lara_nux.Text.{Text, codes, text_eq}
use lara_nux.Effect.Fault.{Result, ok, err, is_ok, plain}
use lara_nux.Machine.Calls.{Machine}
use lara_nux.Machine.Files.{lookup}
use lara_nux.Bootstrap.Paths.{AppPaths, load_paths_from_env}
use lara_nux.Assets.Manifest.{
  ManagedAsset, ManagedAssetManifest, default_ubuntu_managed_assets, leave, rollback_targets, track,
}
use lara_nux.Assets.Tracked.{
  Change, tracked, removed, changed, replay, asset_of, HasDistinctIds, changed_refines,
}
use lara_nux.Assets.Stored.{save, load_managed_asset_manifest, load-save_manifest}
use lara_nux.Tests.Worlds.{willing}

-- No variable is set.
abbrev pub default_paths : AppPaths
default_paths = record {
  config_dir = codes "/etc/lara-nux";
  state_dir = codes "/var/lib/lara-nux";
  runtime_dir = codes "/run/lara-nux";
  socket_path = codes "/run/lara-nux/lara-nux.sock";
  managed_assets_path = codes "/var/lib/lara-nux/managed-assets.json";
}

paths_without_variables : load_paths_from_env (λ key. []) ≡ default_paths
unfolding load_paths_from_env
paths_without_variables = refl

abbrev kept_log : ManagedAsset
kept_log = record {
  id = codes "log";
  kind = lara_nux.Assets.Manifest.state_file;
  path = codes "/var/log/lara-nux.log";
  owner = codes "root";
  group = codes "root";
  mode = codes "0640";
  rollback_action = leave;
  notes = [];
}

-- Every asset of the default manifest is rolled back, and one that is left in place is not.
default_targets :
    rollback_targets (default_ubuntu_managed_assets default_paths 5)
    ≡ (default_ubuntu_managed_assets default_paths 5).assets
unfolding rollback_targets default_ubuntu_managed_assets
default_targets = refl

log_left :
    rollback_targets (track kept_log (default_ubuntu_managed_assets default_paths 5))
    ≡ (default_ubuntu_managed_assets default_paths 5).assets
unfolding rollback_targets default_ubuntu_managed_assets track text_eq
log_left = refl

abbrev changes : List Change
changes = tracked kept_log ∷ removed (codes "state-dir") ∷ []

manifest-HasDistinctIds : HasDistinctIds (default_ubuntu_managed_assets default_paths 5)
unfolding default_ubuntu_managed_assets text_eq
manifest-HasDistinctIds = (
  (refl, (refl, (refl, (refl, (refl, (refl, tt)))))),
  (
    (refl, (refl, (refl, (refl, (refl, tt))))),
    (
      (refl, (refl, (refl, (refl, tt)))),
      ((refl, (refl, (refl, tt))), ((refl, (refl, tt)), ((refl, tt), (tt, tt)))),
    ),
  ),
)

changed_refines_example :
    HasDistinctIds (changed changes (default_ubuntu_managed_assets default_paths 5))
    × (asset_of (changed changes (default_ubuntu_managed_assets default_paths 5)) (codes "log")
        ≡ replay changes (asset_of (default_ubuntu_managed_assets default_paths 5)) (codes "log"))
changed_refines_example =
    changed_refines changes (default_ubuntu_managed_assets default_paths 5) (codes "log")
      manifest-HasDistinctIds

abbrev empty_host : Machine
empty_host = record { files = []; trace = [] }

-- One manifest, written as a word.
abbrev pub word_of : ManagedAssetManifest → Text
word_of m = codes "default"

abbrev pub manifest_of : Text → Result ManagedAssetManifest
manifest_of payload =
    if text_eq payload (codes "default")
    then ok (default_ubuntu_managed_assets default_paths 5)
    else err (plain (codes "invalid character"))

word_read :
    manifest_of (word_of (default_ubuntu_managed_assets default_paths 5))
    ≡ ok (default_ubuntu_managed_assets default_paths 5)
unfolding text_eq
word_read = refl

load-save_manifest_example :
    (if is_ok
        (save willing word_of manifest_of
          (codes "/m")
          (default_ubuntu_managed_assets default_paths 5)
          empty_host).0
      then (load_managed_asset_manifest willing word_of manifest_of
          (codes "/m")
          (save willing word_of manifest_of
            (codes "/m")
            (default_ubuntu_managed_assets default_paths 5)
            empty_host).1).0
        ≡ ok (default_ubuntu_managed_assets default_paths 5)
      else lookup
          (codes "/m")
          (save willing word_of manifest_of
            (codes "/m")
            (default_ubuntu_managed_assets default_paths 5)
            empty_host).1.files
        ≡ lookup (codes "/m") empty_host.files)
load-save_manifest_example =
    load-save_manifest willing word_of manifest_of (codes "/m")
      (default_ubuntu_managed_assets default_paths 5) empty_host refl word_read
