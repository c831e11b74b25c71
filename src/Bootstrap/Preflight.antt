-- ===== src/Bootstrap/Preflight.antt =====
-- `BootstrapService`: daemon/internal/app/bootstrap_service.go.
use lara_nux.Base.{
  ℕ, Bool, false, ◌&&◌, ◌||◌, not, List, [], ◌∷◌, ◌++◌, Option, none, some, ◌≡◌, arith, any,
  is_some, ltb, ◌==◌, length, if◌then◌else◌,
}
use lara_nux.Text.{Text, codes, lit, text_eq}
use lara_nux.Effect.Fault.{Error, Result, ok, err, is_ok, wrap, plain}
use lara_nux.Effect.Action.{Action, Outcome, ◌>>◌, pure, map_error}
use lara_nux.Machine.Calls.{Machine, Environment, mkdir_all}
use lara_nux.Assets.Manifest.{default_ubuntu_managed_assets, rollback_targets}
use lara_nux.Bootstrap.Paths.{AppPaths}
use lara_nux.Bootstrap.Release.{UbuntuRelease, read_os_release, supported_ubuntu_release}
use lara_nux.Bootstrap.Report.{BootstrapReport, add_check, has_failures, report_error, error_or}

pub record BootstrapService : Type 0 where
  pub paths : AppPaths
  pub os_release_path : Text
  pub look_path : Text → Result Text
  pub euid : ℕ
  pub group_exists : Text → Bool

abbrev no_release : UbuntuRelease
no_release = record { id = []; version_id = []; version_codename = []; pretty_name = [] }

-- `fmt.Errorf("bootstrap preflight failed: %w", err)`
preflight_failed : Option Error → Error
preflight_failed none = plain (lit "bootstrap preflight failed: %!w(<nil>)")
preflight_failed (some e) = wrap (lit "bootstrap preflight failed: ") e

module _ (s : BootstrapService) where
  unfoldable pub first_report : ℕ → BootstrapReport
  unfolding default_ubuntu_managed_assets
  first_report now = record {
    host = no_release;
    paths = s.paths;
    checks = [];
    manifest = default_ubuntu_managed_assets s.paths now;
  }

  unfoldable pub unreadable : Error → BootstrapReport → BootstrapReport × Option Error
  unfolding add_check error_or preflight_failed
  unreadable e report =
      let report' =
        add_check (codes "os-release") false (lit "Unable to read Ubuntu release metadata.")
          (lit "Ensure /etc/os-release exists and the daemon runs on a supported Ubuntu host.")
          report in
      (report', some (preflight_failed (some (error_or e report'))))

  dependency_check : Text → BootstrapReport → BootstrapReport
  unfolding add_check
  dependency_check dependency =
      add_check (codes "dependency-" ++ dependency) (is_ok (s.look_path dependency))
        (lit "Required host dependency " ++ (dependency ++ lit " is available."))
        (lit "Install or restore the Ubuntu system package that provides "
          ++ (dependency ++ lit " before bootstrapping Lara Nux."))

  unfoldable pub checked : UbuntuRelease → BootstrapReport → BootstrapReport
  unfolding add_check dependency_check supported_ubuntu_release rollback_targets text_eq
  checked release report =
      let found = record report { host = release } in
      let ubuntu =
        add_check (codes "ubuntu-host") (text_eq release.id (codes "ubuntu"))
          (lit "Detected host " ++ (release.id ++ (lit " " ++ (release.version_id ++ lit "."))))
          (lit "Run Lara Nux only on supported Ubuntu LTS releases.") found in
      let version =
        add_check (codes "ubuntu-release") (supported_ubuntu_release release.version_id)
          (lit "Ubuntu release " ++ (release.version_id ++ lit " is within the supported matrix."))
          (lit "Use Ubuntu 22.04 or 24.04 for v1 support.") ubuntu in
      let privileges =
        add_check (codes "privileges") (s.euid == 0)
          (lit "Daemon has the privileges required for system bootstrap.")
          (lit
            "Install and run the daemon through a privileged systemd unit or elevated installer helper.")
          version in
      let group =
        add_check (codes "daemon-group") (s.group_exists (codes "lara-nux"))
          (lit "The lara-nux operator group exists for socket access control.")
          (lit
            "Create the lara-nux system group before starting the daemon so client access can be mediated through Unix socket permissions.")
          privileges in
      let dependencies =
        dependency_check (codes "resolvectl") (dependency_check (codes "systemctl") group) in
      add_check (codes "rollback-manifest") (ltb 0 (length (rollback_targets report.manifest)))
        (lit "Managed rollback assets are declared for daemon-owned host changes.")
        (lit "Keep the managed-asset manifest populated before shipping installer mutations.")
        dependencies

  unfoldable pub judged : BootstrapReport → BootstrapReport × Option Error
  unfolding has_failures report_error preflight_failed
  judged report =
      (report, if has_failures report then some (preflight_failed (report_error report)) else none)

  module _ (env : Environment) where
    unfoldable pub behind_release :
        BootstrapReport → Result UbuntuRelease → BootstrapReport × Option Error
    unfolding judged checked unreadable
    behind_release report (ok release) = judged (checked release report)
    behind_release report (err e) = unreadable e report

    unfoldable pub preflight : Outcome Machine BootstrapReport
    unfolding first_report behind_release read_os_release
    preflight m =
        let report = first_report (env.now m.trace) in
        let (release, m') = read_os_release env s.os_release_path m in
        elim (env.done m.trace) [
          | none ↦ (behind_release report release, m')
          | some e ↦ ((report, some e), m)
        ]

    unfoldable pub prepared : List Text → Action Machine (Unit {0})
    prepared [] = pure tt
    prepared (dir ∷ dirs) = do
      map_error (wrap (lit "create bootstrap directory " ++ (dir ++ lit ": "))) (mkdir_all env dir)
      prepared dirs

    unfoldable pub prepare_filesystem : Action Machine (Unit {0})
    unfolding prepared
    prepare_filesystem =
        prepared (s.paths.config_dir ∷ s.paths.state_dir ∷ s.paths.runtime_dir ∷ [])

    -- What a host needs.
    abbrev pub is_fit : UbuntuRelease → Bool
    is_fit release =
        text_eq release.id (codes "ubuntu")
        && ((text_eq release.version_id (codes "22.04")
              || text_eq release.version_id (codes "24.04"))
            && ((s.euid == 0)
                && (s.group_exists (codes "lara-nux")
                    && (is_ok (s.look_path (codes "systemctl"))
                        && is_ok (s.look_path (codes "resolvectl"))))))

    checked-has_failures :
        (release : UbuntuRelease) (now : ℕ)
        → has_failures (checked release (first_report now)) ≡ not (is_fit release)
    unfolding has_failures checked first_report any supported_ubuntu_release
    checked-has_failures release now = ground arith

    abbrev pub fits : Result UbuntuRelease → Bool
    fits (ok release) = is_fit release
    fits (err e) = false

    -- Preflight returns no error exactly if the context is not done, the release file can be
    -- read, and it names Ubuntu 22.04 or 24.04, the daemon runs as root, the group lara-nux
    -- exists and systemctl and resolvectl are found.
    pub preflight_passes :
        (m : Machine)
        → is_some (preflight m).0.1
          ≡ not
              (not (is_some (env.done m.trace)) && fits (read_os_release env s.os_release_path m).0)
    unfolding preflight
    preflight_passes m = ground arith
