-- ===== src/Lib.antt =====
-- Lara Nux, a daemon that sets up Laravel development sites on an Ubuntu host.
--
-- The program. The registries of daemon/internal/app hold the sites and the PHP runtimes, each in
-- a JSON state file. The managers of daemon/internal/host/ubuntu change the host: Caddy's site
-- configurations and the import of them in its root configuration, a drop-in of systemd-resolved
-- for the domain .test, and the pool and the systemd override of a PHP-FPM service. A manager
-- writes files, has the service accept and load them by commands, and puts the files back if it
-- does not. The services of daemon/internal/app call registries and managers in turn, and the
-- handlers of daemon/internal/api call the services. Before it serves, the daemon checks its
-- host, writes a manifest of what it owns there and opens its socket, to which the desktop client
-- sends its requests.
--
-- The files.
--   Base, Text       lists, tests and the functions of `strings` and `path/filepath`
--   Effect           errors with their sentinels, results, and actions on a world
--   World            what the services take from the operating system, and a file with a state
--   Machine          a host: its files, its trace of calls, and the calls on it
--   Machine/Store    daemon/internal/app/state_store.go
--   Machine/Atomically  the file helpers that the three managers share
--   Sites            daemon/internal/app/site_registry.go
--   Runtimes         daemon/internal/app/php_registry.go
--   Caddy            daemon/internal/host/ubuntu/caddy/manager.go
--   Resolver         daemon/internal/host/ubuntu/resolved/manager.go
--   Fpm              daemon/internal/host/ubuntu/php/manager.go
--   Services         daemon/internal/app/orchestration.go, php_manager.go and site_management.go,
--                    over interfaces of the registries and managers (Services/Interfaces)
--   Assets           daemon/internal/app/managed_assets.go
--   Bootstrap        daemon/internal/app/bootstrap_service.go
--   Control          daemon/internal/app/service_manager.go and
--                    daemon/internal/host/ubuntu/systemd/manager.go
--   Health           daemon/internal/app/health_service.go
--   Packages         daemon/internal/host/ubuntu/packages/manager.go
--   Onboarding       daemon/internal/app/runtime_onboarding.go and runtime_catalog.go
--   Api              daemon/internal/api
--   Daemon           daemon/cmd/lara-nuxd/main.go: the start, the socket, and the services that it
--                    builds over a host (Daemon/Wiring)
--   Client           client/wails/bridge/daemon_client.go and client/wails/app.go
--   Tests            runs at concrete inputs
--
-- The correspondence. A method that has effects is an action: a function of the world that
-- returns a result and the world behind it. Each definition names its Go function in a comment,
-- and keeps the order of its calls. A text is a list of code points. `fmt.Errorf` with `%w` keeps
-- the sentinels of the wrapped error, with `%v` it drops them. A nil slice of bytes with
-- `existed` false is `none`. A time is a number of nanoseconds.
--
-- What is not under the repository's source is a parameter. `Environment` decides which calls of
-- the host fail, what a failed write leaves in the file, and what a command answers; it sees the
-- files and every call made before. Its one law is that a file that is there is not reported as
-- missing. `Writable` is the assumption, where a theorem makes it, that writes, renames, removals
-- and changes of mode do not fail, while reads, new directories and commands may. `Codec` is
-- encoding/json on one state, which decodes what it encodes. `HostKeeps` says that the managers
-- of the host and the file of the runtimes do not touch what is looked at, such as the file of
-- the sites. `Unicode` gives the lower case and the case folding of code points from 128 on, and
-- `strconv.Quote`.
--
-- A method whose caller uses the value beside its error is an `Outcome`, which returns both. The
-- order in which Go goes over a map is an argument of the method, `visit`.
--
-- Every loop is a recursion on the list that it runs over, so that no fuel is used.
--
-- Not modelled: mutexes (a method is one step), the modes and owners of files, directories (a
-- file's path is enough to write it), `filepath.Glob` with a malformed pattern, the defaults of
-- the constructors, the redirects of ServeMux, the signals and the logger of `main`, the client's
-- window, tray and events, and the contract types and the packaging. A contract type of the
-- client is any type with a decoder of its envelope.
pub mod Base
pub mod Text
pub mod Effect
pub mod Sites
pub mod World
pub mod Runtimes
pub mod Machine
pub mod Caddy
pub mod Resolver
pub mod Fpm
pub mod Services
pub mod Bootstrap
pub mod Assets
pub mod Control
pub mod Health
pub mod Packages
pub mod Onboarding
pub mod Api
pub mod Daemon
pub mod Client
pub mod Tests
