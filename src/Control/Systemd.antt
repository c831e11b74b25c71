-- ===== src/Control/Systemd.antt =====
-- The host's service manager: daemon/internal/host/ubuntu/systemd/manager.go. A method returns a
-- status beside its error, if it has one.
use lara_nux.Base.{
  ℕ, Bool, true, false, List, [], ◌∷◌, ◌++◌, Option, none, some, is_empty, if◌then◌else◌,
}
use lara_nux.Text.{Text, codes, lit, text_eq, trim_space}
use lara_nux.Effect.Fault.{Error, plain, wrap}
use lara_nux.Effect.Action.{Outcome}
use lara_nux.Machine.Calls.{Machine, Environment, run}
use lara_nux.Services.Interfaces.{
  ServiceState, ServiceStatus, active, inactive, failed, unknown, unset,
}

-- The actions that the host's manager knows, and every other string.
pub data ServiceAction : Type 0 where
  start stop restart status : ServiceAction
  other : Text → ServiceAction

-- `ServiceStatus{}`
abbrev pub zero_status : ServiceStatus
zero_status = record { service = []; state = unset; summary = []; updated_at = 0 }

unfoldable pub service_summary : Text → Option Error → Text
service_summary output none = output
service_summary output (some e) = if is_empty output then e.message else output

abbrev no_output : Option Error → Text
no_output none = lit "service state unknown"
no_output (some e) = e.message

unfoldable pub parse_service_state : Text → Option Error → ServiceState × Text
unfolding trim_space text_eq service_summary
parse_service_state output error =
    let trimmed = trim_space output in
    let summary = service_summary trimmed error in
    if text_eq trimmed (codes "active")
    then (active, summary)
    else if text_eq trimmed (codes "activating")
    then (active, summary)
    else if text_eq trimmed (codes "inactive")
    then (inactive, summary)
    else if text_eq trimmed (codes "deactivating")
    then (inactive, summary)
    else if text_eq trimmed (codes "failed")
    then (failed, summary)
    else if is_empty trimmed
    then (unknown, no_output error)
    else (unknown, summary)

abbrev pub is_unknown : ServiceState → Bool
is_unknown state = elim state [
  | active ↦ false
  | inactive ↦ false
  | failed ↦ false
  | unknown ↦ true
  | unset ↦ false
]

-- The error of `Status`: that of the command, if its answer tells no state.
unfoldable pub inspect_error : Text → ServiceState → Option Error → Option Error
inspect_error service state none = none
inspect_error service state (some e) =
    if is_unknown state
    then some (wrap (lit "inspect service " ++ (service ++ lit ": ")) e)
    else none

module _ (env : Environment) where
  -- `m.runner.Run`: the output, the error, and the machine behind the command.
  unfoldable pub run_runner : List Text → Machine → (Text × Option Error) × Machine
  run_runner command m =
      (env.answer m.files m.trace command, record m { trace = run command ∷ m.trace })

  unfoldable pub answered_status : Text → Text × Option Error → ℕ → ServiceStatus × Option Error
  unfolding parse_service_state inspect_error
  answered_status service (output, error) now =
      let (state, summary) = parse_service_state output error in
      (
        record { service = service; state = state; summary = summary; updated_at = now },
        inspect_error service state error,
      )

  unfoldable pub service_status : Text → Outcome Machine ServiceStatus
  unfolding run_runner answered_status
  service_status service m =
      let (answer, m') = run_runner (codes "systemctl" ∷ codes "is-active" ∷ service ∷ []) m in
      (answered_status service answer (env.now m'.trace), m')

  -- What `Action` returns for a command that failed: the status that it inspects, under the
  -- output of the command, and the command's error.
  refused_action :
      Text → Text → Text → Error → ServiceStatus × Option Error → ServiceStatus × Option Error
  unfolding trim_space
  refused_action service name output e (observed, _) =
      let shown = if is_empty (trim_space output) then e.message else output in
      (
        record observed { summary = trim_space shown },
        some (wrap (name ++ (lit " " ++ (service ++ lit ": "))) e),
      )

  -- `systemctl start`, `stop` or `restart`.
  unfoldable pub command_service : Text → Text → Outcome Machine ServiceStatus
  unfolding run_runner service_status refused_action
  command_service service name m =
      let ((output, error), m') = run_runner (codes "systemctl" ∷ name ∷ service ∷ []) m in
      let (observed, m'') = service_status service m' in
      elim error [
        | none ↦ (observed, m'')
        | some e ↦ (refused_action service name output e observed, m'')
      ]

  unsupported : Text → Outcome Machine ServiceStatus
  unsupported name m = ((zero_status, some (plain (lit "unsupported service action: " ++ name))), m)

  unfoldable pub host_action : Text → ServiceAction → Outcome Machine ServiceStatus
  unfolding service_status command_service unsupported
  host_action service status = service_status service
  host_action service start = command_service service (codes "start")
  host_action service stop = command_service service (codes "stop")
  host_action service restart = command_service service (codes "restart")
  host_action service (other name) = unsupported name
