-- ===== src/Tests/Control.antt =====
-- Services, packages and the bootstrap of a host at concrete inputs.
use lara_nux.Base.{find, true, false, ◌&&◌, not, [], ◌∷◌, ◌++◌, none, ◌≡◌, refl, is_some, is_empty}
use lara_nux.Text.{text_eq, to_lower, trim_space, Text, codes, trim_space}
use lara_nux.Effect.Fault.{ok, is_ok}
use lara_nux.Machine.Calls.{Machine, Environment, Call, run}
use lara_nux.Services.Interfaces.{active}
use lara_nux.Control.Systemd.{ServiceAction, restart, stop, other, parse_service_state}
use lara_nux.Control.Manager
use lara_nux.Control.Commands.{action_calls, action_succeeds, host_services, calls_of, accepted}
use lara_nux.Packages.Catalog.{PackageRequest, find_supported, supported_catalog}
use lara_nux.Packages.Manager.{acquire}
use lara_nux.Packages.Installed.{acquire_succeeds, is_acquired}
use lara_nux.Bootstrap.Release.{parse_os_release, read_os_release}
use lara_nux.Bootstrap.Preflight.{BootstrapService, preflight, preflight_passes, fits}
use lara_nux.Tests.Worlds.{ascii_only, willing, unwilling}
use lara_nux.Tests.Assets.{default_paths}

abbrev host : Machine
host = record { files = []; trace = [] }

restart_calls :
    (Manager.action (host_services willing) (codes " caddy ") restart host).1.trace
    ≡ run (codes "systemctl" ∷ codes "is-active" ∷ codes "caddy" ∷ [])
      ∷ run (codes "systemctl" ∷ codes "restart" ∷ codes "caddy" ∷ [])
      ∷ []
unfolding Manager.action lara_nux.Control.Systemd.host_action
restart_calls = refl

state_words : parse_service_state (codes "activating\n") none ≡ (active, codes "activating")
unfolding parse_service_state
state_words = refl

action_calls_example :
    (Manager.action (host_services willing) (codes " caddy ") restart host).1
    ≡ record host { trace = calls_of willing (trim_space (codes " caddy ")) restart ++ host.trace }
action_calls_example = action_calls willing (codes " caddy ") restart host

-- A host that refuses to stop a service.
stop_refused :
    is_some
      (Manager.action (host_services (unwilling (codes "stop"))) (codes "caddy") stop host).0.1
    ≡ true
unfolding Manager.action lara_nux.Control.Systemd.host_action
stop_refused = refl

action_succeeds_example :
    is_some
      (Manager.action (host_services (unwilling (codes "stop"))) (codes "caddy") stop host).0.1
    ≡ not (
        not (is_empty (trim_space (codes "caddy")))
        && accepted (unwilling (codes "stop")) (trim_space (codes "caddy")) stop host)
action_succeeds_example = action_succeeds (unwilling (codes "stop")) (codes "caddy") stop host

-- A host on which every package is installed.
abbrev stocked : Environment
stocked = record willing {
  answer = λ files t command. (codes "install ok installed|2.8.4\n", none);
}

abbrev caddy_request : PackageRequest
caddy_request = record { key = codes " Caddy" }

caddy_acquired : is_ok (acquire stocked caddy_request host).0 ≡ true
unfolding acquire lara_nux.Effect.Action.◌>>=◌ find_supported lara_nux.Machine.Calls.run_command
    lara_nux.Packages.Manager.verify lara_nux.Packages.Manager.inspect_each
    lara_nux.Packages.Manager.inspect_package
caddy_acquired = refl

-- On a host that answers otherwise the bundle does not verify.
caddy_unverified : is_ok (acquire willing caddy_request host).0 ≡ false
unfolding acquire lara_nux.Effect.Action.◌>>=◌ find_supported lara_nux.Machine.Calls.run_command
    lara_nux.Packages.Manager.verify lara_nux.Packages.Manager.inspect_each
    lara_nux.Packages.Manager.inspect_package
caddy_unverified = refl

acquire_succeeds_example :
    is_ok (acquire stocked caddy_request host).0
    ≡ is_acquired stocked
        (find (λ p. text_eq p.key (to_lower (trim_space caddy_request.key))) supported_catalog)
        host
acquire_succeeds_example = acquire_succeeds stocked caddy_request host

abbrev noble : Text
noble =
    codes
      "# comment\nNAME=\"Ubuntu\"\nID=debian\nID=ubuntu\nVERSION_ID=\"24.04\"\nPRETTY_NAME=\"Ubuntu 24.04 LTS\"\n"

-- The last value of a key counts, without its quotes.
noble_release : parse_os_release noble ≡ record {
  id = codes "ubuntu";
  version_id = codes "24.04";
  version_codename = [];
  pretty_name = codes "Ubuntu 24.04 LTS";
}
unfolding parse_os_release
noble_release = refl

abbrev pub bootstrap : BootstrapService
bootstrap = record {
  paths = default_paths;
  os_release_path = codes "/etc/os-release";
  look_path = λ name. ok (codes "/usr/bin/" ++ name);
  euid = 0;
  group_exists = λ name. true;
}

abbrev pub noble_host : Machine
noble_host = record { files = (codes "/etc/os-release", noble) ∷ []; trace = [] }

noble_passes : is_some (preflight bootstrap willing noble_host).0.1 ≡ false
unfolding preflight
noble_passes = refl

preflight_passes_example :
    is_some (preflight bootstrap willing noble_host).0.1
    ≡ not (
        not (is_some (willing.done noble_host.trace))
        && fits bootstrap willing (read_os_release willing bootstrap.os_release_path noble_host).0)
preflight_passes_example = preflight_passes bootstrap willing noble_host
