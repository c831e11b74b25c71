-- ===== src/Daemon/Startup.antt =====
-- What `main` does to the host before it serves: daemon/cmd/lara-nuxd/main.go.
use lara_nux.Base.{false, ◌&&◌, some, is_some, ◌≡◌, arith, if◌then◌else◌}
use lara_nux.Text.{Text, text_eq, text_eq_refl}
use lara_nux.Effect.Fault.{Result, is_ok}
use lara_nux.Effect.Action.{Action, ◌>>=◌, ◌>>◌, pure, map_error}
use lara_nux.Control.Manager.{succeeding}
use lara_nux.Machine.Files.{lookup, put, without, lookup-put, lookup-without}
use lara_nux.Machine.Calls.{Machine, Environment, read_file, write_file, rename_file, mkdir_all}
use lara_nux.Assets.Manifest.{ManagedAssetManifest, default_ubuntu_managed_assets}
use lara_nux.Assets.Stored.{save, temp_path}
use lara_nux.Bootstrap.Report.{BootstrapReport}
use lara_nux.Bootstrap.Release.{read_os_release}
use lara_nux.Bootstrap.Preflight.{
  BootstrapService, preflight, prepare_filesystem, prepared, checked, judged, unreadable,
  behind_release, first_report,
}

module _ (s : BootstrapService) (env : Environment) (encode : ManagedAssetManifest → Text)
    (decode : Text → Result ManagedAssetManifest) where
  -- The preflight, the directories and the manifest. Where `main` logs and exits, the start fails.
  unfoldable pub start_up : Action Machine BootstrapReport
  start_up = do
    report ← succeeding (preflight s env)
    prepare_filesystem s env
    save env encode decode s.paths.managed_assets_path report.manifest
    pure report

  abbrev pub temp : Text
  temp = temp_path env encode decode s.paths.managed_assets_path

  -- The file at a path other than the temporary one, behind a Save.
  lookup-save :
      (m : ManagedAssetManifest) (q : Text) (w : Machine)
      → text_eq temp q ≡ false
      → lookup q (save env encode decode s.paths.managed_assets_path m w).1.files ≡ (
          if is_ok (save env encode decode s.paths.managed_assets_path m w).0
            && text_eq s.paths.managed_assets_path q
          then some (encode m)
          else lookup q w.files)
  unfolding save ◌>>=◌ map_error mkdir_all write_file rename_file
  lookup-save m q w apart =
      let path = s.paths.managed_assets_path in
      ground (
        arith,
        text_eq_refl temp,
        lookup-without temp q w.files,
        lookup-put temp (encode m) q w.files,
        lookup-without temp q (put temp (encode m) w.files),
        lookup-put path (encode m) q (without temp (put temp (encode m) w.files)),
      )

  preflight-files : (m : Machine) → (preflight s env m).1.files ≡ m.files
  unfolding preflight read_os_release read_file ◌>>=◌
  preflight-files m = ground arith

  preflight-manifest :
      (m : Machine)
      → (preflight s env m).0.0.manifest ≡ default_ubuntu_managed_assets s.paths (env.now m.trace)
  unfolding preflight behind_release judged checked unreadable first_report
  preflight-manifest m = ground arith

  prepare-files : (m : Machine) → (prepare_filesystem s env m).1.files ≡ m.files
  unfolding prepare_filesystem prepared ◌>>=◌ map_error mkdir_all
  prepare-files m = ground arith

  -- What the daemon does to its host before it opens the socket: it starts up only if Preflight
  -- returned no error, and the file at every path but the temporary one of the manifest is as it
  -- was, except that behind a start that succeeds the path of the manifest holds the manifest of
  -- the default assets.
  pub start_up_all_or_nothing :
      (m : Machine) (q : Text)
      → text_eq temp q ≡ false
      → ((is_ok (start_up m).0 && is_some (preflight s env m).0.1) ≡ false)
        × (lookup q (start_up m).1.files ≡ (
            if is_ok (start_up m).0 && text_eq s.paths.managed_assets_path q
            then some (encode (default_ubuntu_managed_assets s.paths (env.now m.trace)))
            else lookup q m.files))
  unfolding start_up ◌>>=◌ succeeding
  start_up_all_or_nothing m q apart =
      let m₁ = (preflight s env m).1 in
      let m₂ = (prepare_filesystem s env m₁).1 in
      let report = (preflight s env m).0.0 in
      ground (
        arith,
        preflight-files m,
        preflight-manifest m,
        prepare-files m₁,
        lookup-save report.manifest q m₂ apart,
      )
