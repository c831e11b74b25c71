-- ===== src/Bootstrap/Report.antt =====
-- `BootstrapReport` and its methods: daemon/internal/app/bootstrap_service.go.
use lara_nux.Base.{
  Bool, not, List, [], ◌∷◌, ◌++◌, Option, none, some, ◌≡◌, refl, arith, any, is_some, is_empty,
  if◌then◌else◌,
}
use lara_nux.Text.{Text, codes, lit, join}
use lara_nux.Effect.Fault.{Error, plain}
use lara_nux.Bootstrap.Paths.{AppPaths}
use lara_nux.Bootstrap.Release.{UbuntuRelease}
use lara_nux.Assets.Manifest.{ManagedAssetManifest}

pub record PreflightCheck : Type 0 where
  pub name : Text
  pub passed : Bool
  pub summary : Text
  pub remediation : Text

pub record BootstrapReport : Type 0 where
  pub host : UbuntuRelease
  pub paths : AppPaths
  pub checks : List PreflightCheck
  pub manifest : ManagedAssetManifest

abbrev pub failed : PreflightCheck → Bool
failed check = not check.passed

unfoldable pub preflight_check : Text → Bool → Text → Text → PreflightCheck
preflight_check name passed success_summary remediation = record {
  name = name;
  passed = passed;
  summary = if passed then success_summary else remediation;
  remediation = remediation;
}

-- `addCheck`
unfoldable pub add_check : Text → Bool → Text → Text → BootstrapReport → BootstrapReport
unfolding preflight_check
add_check name passed success_summary remediation r = record r {
  checks = r.checks ++ (preflight_check name passed success_summary remediation ∷ []);
}

-- `HasFailures`
unfoldable pub has_failures : BootstrapReport → Bool
unfolding any
has_failures r = any failed r.checks

-- The lines of `Error` for the checks that failed.
unfoldable pub failures : List PreflightCheck → List Text
failures [] = []
failures (check ∷ checks) =
    let rest = failures checks in
    if check.passed then rest else (check.name ++ (lit ": " ++ check.summary)) ∷ rest

joined_error : List Text → Option Error
unfolding join
joined_error [] = none
joined_error (line ∷ lines) = some (plain (join (codes "; ") (line ∷ lines)))

-- `Error`
unfoldable pub report_error : BootstrapReport → Option Error
unfolding joined_error failures
report_error r = joined_error (failures r.checks)

-- `ErrorOr`
unfoldable pub error_or : Error → BootstrapReport → Error
unfolding report_error
error_or fallback r = elim (report_error r) [ none ↦ fallback | some e ↦ e ]

failures-any : (checks : List PreflightCheck) → is_empty (failures checks) ≡ not (any failed checks)
unfolding failures any
failures-any [] = refl
failures-any (check ∷ checks) = ground (arith, failures-any checks)

-- `Error` is nil exactly if `HasFailures` is false.
pub report_error-has_failures : (r : BootstrapReport) → is_some (report_error r) ≡ has_failures r
unfolding report_error has_failures
report_error-has_failures r = ground (arith, failures-any r.checks)
