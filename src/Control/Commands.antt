-- ===== src/Control/Commands.antt =====
-- The commands that an action of the service manager runs, and when it succeeds:
-- daemon/internal/app/service_manager.go over daemon/internal/host/ubuntu/systemd/manager.go.
use lara_nux.Base.{
  ℕ, Bool, true, false, ◌&&◌, not, List, [], ◌∷◌, ◌++◌, Option, none, some, ◌≡◌, refl, arith, any,
  is_empty, is_some, if◌then◌else◌,
}
use lara_nux.Text.{Text, codes, text_eq, trim_space}
use lara_nux.Effect.Fault.{Error}
use lara_nux.Machine.Calls.{Machine, Environment, Call, run}
use lara_nux.Control.Systemd.{
  ServiceAction, start, stop, restart, status, other, host_action, service_status, command_service,
  run_runner, answered_status, inspect_error,
}
use lara_nux.Control.Manager
use lara_nux.Control.Manager.{HostServices}

module _ (env : Environment) where
  -- The daemon's manager stands on the host's.
  abbrev pub host_services : HostServices Machine
  host_services = record { action = host_action env; status = service_status env }

  abbrev is_active_call : Text → Call
  is_active_call service = run (codes "systemctl" ∷ codes "is-active" ∷ service ∷ [])

  abbrev verb : ServiceAction → Option Text
  verb start = some (codes "start")
  verb stop = some (codes "stop")
  verb restart = some (codes "restart")
  verb status = none
  verb (other name) = none

  abbrev is_known : ServiceAction → Bool
  is_known start = true
  is_known stop = true
  is_known restart = true
  is_known status = true
  is_known (other name) = false

  -- The calls of an action on a service, the last one first.
  abbrev pub calls_of : Text → ServiceAction → List Call
  calls_of service action =
      if is_empty service
      then []
      else if is_known action
      then (is_active_call service ∷ elim (verb action) [
        | none ↦ []
        | some word ↦ run (codes "systemctl" ∷ word ∷ service ∷ []) ∷ []
      ])
      else []

  -- An action of the service manager runs no command for a blank name or an unknown action;
  -- otherwise it runs systemctl is-active on the trimmed name, behind systemctl with its verb if
  -- it has one. It changes no file.
  pub action_calls :
      (service : Text) (action : ServiceAction) (m : Machine)
      → (Manager.action host_services service action m).1
        ≡ record m { trace = calls_of (trim_space service) action ++ m.trace }
  unfolding Manager.action host_action command_service service_status run_runner
  action_calls service start m = ground arith
  action_calls service stop m = ground arith
  action_calls service restart m = ground arith
  action_calls service status m = ground arith
  action_calls service (other name) m = ground arith

-- The words of `systemctl is-active` that name a state.
abbrev pub states : List Text
states =
    codes "active"
    ∷ codes "activating"
    ∷ codes "inactive"
    ∷ codes "deactivating"
    ∷ codes "failed"
    ∷ []

-- An answer tells a state, or comes without an error.
unfoldable pub tells : Text × Option Error → Bool
unfolding any text_eq trim_space
tells (output, none) = true
tells (output, some e) = any (text_eq (trim_space output)) states

module _ (env : Environment) where
  abbrev is_active_on : Text → Machine → Bool
  is_active_on service m =
      tells (env.answer m.files m.trace (codes "systemctl" ∷ codes "is-active" ∷ service ∷ []))

  unfoldable pub accepted_command : Text → Text → Machine → Bool
  unfolding tells
  accepted_command service word m =
      let command = codes "systemctl" ∷ word ∷ service ∷ [] in
      not (is_some (env.answer m.files m.trace command).1)
      && is_active_on service (record m { trace = run command ∷ m.trace })

  -- What an action asks of the host's answers.
  unfoldable pub accepted : Text → ServiceAction → Machine → Bool
  unfolding tells accepted_command
  accepted service start m = accepted_command service (codes "start") m
  accepted service stop m = accepted_command service (codes "stop") m
  accepted service restart m = accepted_command service (codes "restart") m
  accepted service status m = is_active_on service m
  accepted service (other name) m = false

  answered_status-tells :
      (service : Text) (answer : Text × Option Error) (now : ℕ)
      → is_some (answered_status env service answer now).1 ≡ not (tells answer)
  unfolding answered_status inspect_error tells
  answered_status-tells service (output, none) now = refl
  answered_status-tells service (output, some e) now = ground arith

  command-accepted :
      (service word : Text) (m : Machine)
      → is_some (command_service env service word m).0.1 ≡ not (accepted_command service word m)
  unfolding command_service service_status run_runner accepted_command
  command-accepted service word m =
      let command = codes "systemctl" ∷ word ∷ service ∷ [] in
      let m' : Machine = record m { trace = run command ∷ m.trace } in
      let query = codes "systemctl" ∷ codes "is-active" ∷ service ∷ [] in
      ground (
        arith,
        answered_status-tells service (env.answer m'.files m'.trace query)
            (env.now (run query ∷ m'.trace)),
      )

  status-accepted :
      (service : Text) (m : Machine)
      → is_some (service_status env service m).0.1 ≡ not (is_active_on service m)
  unfolding service_status run_runner
  status-accepted service m =
      let query = codes "systemctl" ∷ codes "is-active" ∷ service ∷ [] in
      answered_status-tells service (env.answer m.files m.trace query)
        (env.now (run query ∷ m.trace))

  -- An action of the service manager succeeds exactly if the service name is not blank, the
  -- action is known, systemctl with its verb, if it has one, is answered without an error, and
  -- so is systemctl is-active behind it, unless its answer names a state.
  pub action_succeeds :
      (service : Text) (action : ServiceAction) (m : Machine)
      → is_some (Manager.action (host_services env) service action m).0.1
        ≡ not (not (is_empty (trim_space service)) && accepted (trim_space service) action m)
  unfolding Manager.action host_action accepted
  action_succeeds service start m =
      ground (arith, command-accepted (trim_space service) (codes "start") m)
  action_succeeds service stop m =
      ground (arith, command-accepted (trim_space service) (codes "stop") m)
  action_succeeds service restart m =
      ground (arith, command-accepted (trim_space service) (codes "restart") m)
  action_succeeds service status m = ground (arith, status-accepted (trim_space service) m)
  action_succeeds service (other name) m = ground arith
