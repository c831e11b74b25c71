-- ===== src/Tests/Daemon.antt =====
-- The start of the daemon at concrete inputs.
use lara_nux.Base.{Bool, true, false, ◌&&◌, some, ◌≡◌, refl, is_some, if◌then◌else◌}
use lara_nux.Text.{codes, text_eq}
use lara_nux.Effect.Fault.{ok, err, is_ok, plain, sentinel, not_exist}
use lara_nux.Effect.Action.{Action, pure, raise}
use lara_nux.Machine.Files.{lookup}
use lara_nux.Machine.Calls.{Machine}
use lara_nux.Assets.Manifest.{default_ubuntu_managed_assets}
use lara_nux.Bootstrap.Preflight.{preflight}
use lara_nux.Daemon.Startup.{start_up, start_up_all_or_nothing}
use lara_nux.Daemon.Socket.{SocketCalls, SocketLaws, bind_unix_socket, bind_releases}
use lara_nux.Tests.Worlds.{willing}
use lara_nux.Tests.Assets.{word_of, manifest_of}
use lara_nux.Tests.Control.{bootstrap, noble_host}

started : is_ok (start_up bootstrap willing word_of manifest_of noble_host).0 ≡ true
unfolding start_up lara_nux.Effect.Action.◌>>=◌ lara_nux.Control.Manager.succeeding preflight
    lara_nux.Bootstrap.Preflight.prepare_filesystem lara_nux.Effect.Action.map_error
    lara_nux.Machine.Calls.mkdir_all lara_nux.Assets.Stored.save
started = refl

start_up_all_or_nothing_example :
    ((is_ok (start_up bootstrap willing word_of manifest_of noble_host).0
        && is_some (preflight bootstrap willing noble_host).0.1)
      ≡ false)
    × (lookup
          (codes "/etc/os-release")
          (start_up bootstrap willing word_of manifest_of noble_host).1.files
        ≡ (if is_ok (start_up bootstrap willing word_of manifest_of noble_host).0
              && text_eq bootstrap.paths.managed_assets_path (codes "/etc/os-release")
            then some (
                word_of
                  (default_ubuntu_managed_assets bootstrap.paths (willing.now noble_host.trace)))
            else lookup (codes "/etc/os-release") noble_host.files))
start_up_all_or_nothing_example =
    start_up_all_or_nothing bootstrap willing word_of manifest_of noble_host
      (codes "/etc/os-release") (unfold text_eq in refl)

-- The world is whether the listener is open; the group of the socket is missing.
abbrev no_group : SocketCalls Bool
no_group = record {
  mkdir_all = λ path. pure tt;
  lstat = λ path w. err (sentinel not_exist (codes "no such file"));
  remove = λ path. pure tt;
  listen = λ path w. (ok tt, true);
  close = λ w. (ok tt, false);
  chmod = λ path. pure tt;
  lookup_group = λ name w. err (plain (codes "unknown group"));
  parse_number = λ text. ok 0;
  chown = λ path uid gid. pure tt;
  euid = 0;
}

abbrev no_group-SocketLaws : SocketLaws no_group
no_group-SocketLaws = record {
  is_open = λ w. w;
  mkdir_all-kept = λ path w. refl;
  remove-kept = λ path w. refl;
  chmod-kept = λ path w. refl;
  chown-kept = λ path uid gid w. refl;
  listen-opens = λ path w. refl;
  close-closes = λ w. refl;
}

-- The listener has been opened and closed.
not_bound : is_ok (bind_unix_socket no_group (codes "/run/lara-nux.sock") false).0 ≡ false
unfolding bind_unix_socket lara_nux.Effect.Action.◌>>=◌ lara_nux.Effect.Action.map_error
    lara_nux.Daemon.Socket.make_room lara_nux.Effect.Action.on_failure
    lara_nux.Daemon.Socket.set_access
not_bound = refl

bind_releases_example :
    no_group-SocketLaws.is_open (bind_unix_socket no_group (codes "/run/lara-nux.sock") false).1
    ≡ is_ok (bind_unix_socket no_group (codes "/run/lara-nux.sock") false).0
bind_releases_example =
    bind_releases no_group no_group-SocketLaws (codes "/run/lara-nux.sock") false refl
