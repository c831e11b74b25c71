-- ===== src/Control/Manager.antt =====
-- `ServiceManager`: daemon/internal/app/service_manager.go, over the host's service manager.
use lara_nux.Base.{◌++◌, Option, none, some, is_empty, if◌then◌else◌}
use lara_nux.Text.{Text, lit, trim_space}
use lara_nux.Effect.Fault.{Error, Result, ok, err, sentinel, invalid_service_action}
use lara_nux.Effect.Action.{Action, Outcome}
use lara_nux.Services.Interfaces.{ServiceStatus, ServiceController}
use lara_nux.Control.Systemd.{ServiceAction, start, stop, restart, status, other, zero_status}

-- `host.ServiceManager`, as far as the service manager of the daemon calls it.
pub record HostServices (σ : Type 0) : Type 0 where
  pub action : Text → ServiceAction → Outcome σ ServiceStatus
  pub status : Text → Outcome σ ServiceStatus

-- A value beside an error is dropped.
abbrev result_of : {A : Type 0} → A × Option Error → Result A
result_of (a, none) = ok a
result_of (a, some e) = err e

unfoldable pub succeeding : {σ A : Type 0} → Outcome σ A → Action σ A
succeeding m w = let (r, w') = m w in (result_of r, w')

module _ {σ : Type 0} (manager : HostServices σ) where
  invalid : Text → Outcome σ ServiceStatus
  invalid detail w = (
    (
      zero_status,
      some (sentinel invalid_service_action (lit "invalid service action: " ++ detail)),
    ),
    w,
  )

  known_action : Text → ServiceAction → Outcome σ ServiceStatus
  unfolding invalid
  known_action service status = manager.action service status
  known_action service start = manager.action service start
  known_action service stop = manager.action service stop
  known_action service restart = manager.action service restart
  known_action service (other name) = invalid name

  unfoldable pub action : Text → ServiceAction → Outcome σ ServiceStatus
  unfolding trim_space known_action invalid
  action service requested =
      let trimmed = trim_space service in
      if is_empty trimmed
      then invalid (lit "service name is required")
      else known_action trimmed requested

  unfoldable pub start_service : Text → Outcome σ ServiceStatus
  unfolding action
  start_service service = action service start

  unfoldable pub stop_service : Text → Outcome σ ServiceStatus
  unfolding action
  stop_service service = action service stop

  unfoldable pub restart_service : Text → Outcome σ ServiceStatus
  unfolding action
  restart_service service = action service restart

  unfoldable pub status_of : Text → Outcome σ ServiceStatus
  unfolding trim_space invalid
  status_of service =
      let trimmed = trim_space service in
      if is_empty trimmed then invalid (lit "service name is required") else manager.status trimmed

  -- The `ServiceController` that the services of the daemon take.
  abbrev pub controller : ServiceController σ
  controller = record {
    start = λ service. succeeding (start_service service);
    restart = λ service. succeeding (restart_service service);
    status = λ service. succeeding (status_of service);
  }
