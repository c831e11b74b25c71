-- ===== src/Tests/Hosts.antt =====
-- The managers of the host, and the registry of runtimes, at concrete inputs.
use lara_nux.Base.{true, false, [], ◌∷◌, none, some, ◌≡◌, ◌&&◌, refl, if◌then◌else◌}
use lara_nux.Text.{Text, Unicode, codes, lit, text_eq, contains}
use lara_nux.Effect.Fault.{ok, is_ok}
use lara_nux.Effect.Action.{◌>>=◌, check, try}
use lara_nux.Machine.Files.{lookup}
use lara_nux.Machine.Calls.{Machine, Environment}
use lara_nux.Machine.Atomically.{temp}
use lara_nux.Machine.Atomically.View.{view}
use lara_nux.Caddy.Render.{WebSite, WebActivationResult, normalize_site, render_site_config}
use lara_nux.Caddy.Manager.Activate.{activate_site}
use lara_nux.Caddy.Manager.Remove.{remove_site, removed_config, removal_rolled_back}
use lara_nux.Caddy.Manager.Rollback.{config_of, activation_rolled_back}
use lara_nux.Caddy.Manager.Commands
use lara_nux.Caddy.Manager.Success.{IsAccepted, activation-IsAccepted}
use lara_nux.Caddy.Import.{managed_import_line, ensure_managed_root_import}
use lara_nux.Caddy.Import.Managed.{ensure-imports}
use lara_nux.Resolver
use lara_nux.Resolver.Manager.{inspect, ensure_test_stub, remove_managed_stub}
use lara_nux.Resolver.Stub.{ResolverStubSpec, normalize_spec, render_stub, is_managed_content}
use lara_nux.Resolver.Ownership.{foreign_stub_kept}
use lara_nux.Resolver.Rollback.{
  is_loaded, reloaded, stub_written, stub_all_or_nothing, stub_removal_all_or_nothing,
}
use lara_nux.Fpm
use lara_nux.Fpm.Runtime.{PhpRuntime, PhpMaterialization, PhpSwitchRequest, normalize_runtime}
use lara_nux.Fpm.Manager.{materialize_runtime}
use lara_nux.Fpm.Rollback.{written, materialized_or_rolled_back}
use lara_nux.Tests.Worlds.{ascii_only, host-Writable, refuses_word, willing, unwilling}

abbrev caddy : Commands.Manager
caddy = record {
  sites_dir = codes "/etc/caddy/sites";
  root_config_path = codes "/etc/caddy/Caddyfile";
}

abbrev shop : WebSite
shop = record {
  id = codes "site-1";
  domain = codes "Shop.test";
  root_path = codes "/srv/shop";
  public_dir = [];
  php_socket_path = codes "/run/php/83.sock";
}

abbrev shop_normal : WebSite
shop_normal = record {
  id = codes "site-1";
  domain = codes "shop.test";
  root_path = codes "/srv/shop";
  public_dir = codes "/srv/shop/public";
  php_socket_path = codes "/run/php/83.sock";
}

-- A host with another root configuration and an earlier one of the site.
abbrev host : Machine
host = record {
  files =
      (codes "/etc/caddy/Caddyfile", codes "localhost\n")
      ∷ (codes "/etc/caddy/sites/site-1.caddy", codes "# Managed by Lara Nux\nold\n")
      ∷ [];
  trace = [];
}

abbrev reload_fails : Environment
reload_fails = unwilling (codes "reload")

abbrev validate_fails : Environment
validate_fails = unwilling (codes "validate")

shop_is_normal :
    normalize_site (λ path. reload_fails.stat host.files host.trace path) shop ≡ ok shop_normal
unfolding normalize_site
shop_is_normal = refl

shop_apart : text_eq (temp (config_of caddy shop_normal)) (codes "/etc/caddy/Caddyfile") ≡ false
unfolding text_eq lara_nux.Text.join_path lara_nux.Caddy.Render.site_filename
shop_apart = refl

shop_config_apart : text_eq (config_of caddy shop_normal) (codes "/etc/caddy/Caddyfile") ≡ false
unfolding text_eq lara_nux.Text.join_path lara_nux.Caddy.Render.site_filename
shop_config_apart = refl

shop_normalized :
    (site' : WebSite)
    → normalize_site (λ path. reload_fails.stat host.files host.trace path) shop ≡ ok site'
    → text_eq (temp (config_of caddy site')) (codes "/etc/caddy/Caddyfile") ≡ false
shop_normalized site' h =
    let same : site' ≡ shop_normal = cc (h, shop_is_normal) in rw same shop_apart

shop_not_reloaded : is_ok (activate_site reload_fails caddy shop host).0 ≡ false
unfolding activate_site ◌>>=◌ normalize_site lara_nux.Effect.Action.map_error
    lara_nux.Machine.Atomically.read_if_exists lara_nux.Caddy.Manager.Activate.import_root
    lara_nux.Effect.Action.when lara_nux.Caddy.Import.ensure_managed_root_import lit
    lara_nux.Machine.Atomically.ensure_dir_mode lara_nux.Machine.Atomically.write_with_mode
    lara_nux.Caddy.Manager.Activate.install_site lara_nux.Caddy.Render.site_filename
    Commands.validate Commands.reload
shop_not_reloaded = refl

activation_rolled_back_example :
    view (codes "/etc/caddy/Caddyfile") (activate_site reload_fails caddy shop host).1
    ≡ view (codes "/etc/caddy/Caddyfile") host
activation_rolled_back_example =
    activation_rolled_back reload_fails (host-Writable (refuses_word (codes "reload"))) caddy shop
      host (codes "/etc/caddy/Caddyfile") shop_not_reloaded (unfold text_eq in refl) shop_normalized

abbrev shop_activated_result : WebActivationResult
shop_activated_result = record {
  config_path = codes "/etc/caddy/sites/site-1.caddy";
  validated = true;
  reloaded = true;
  http_url = codes "http://shop.test";
  https_url = codes "https://shop.test";
}

shop_activated : (activate_site willing caddy shop host).0 ≡ ok shop_activated_result
unfolding activate_site ◌>>=◌ normalize_site lara_nux.Effect.Action.map_error
    lara_nux.Machine.Atomically.read_if_exists lara_nux.Caddy.Manager.Activate.import_root
    lara_nux.Effect.Action.when ensure_managed_root_import lit
    lara_nux.Machine.Atomically.ensure_dir_mode lara_nux.Machine.Atomically.write_with_mode
    lara_nux.Caddy.Manager.Activate.install_site lara_nux.Caddy.Render.site_filename
    Commands.validate Commands.reload
shop_activated = refl

shop_paths_apart :
    (site' : WebSite)
    → normalize_site (λ path. willing.stat host.files host.trace path) shop ≡ ok site'
    → (text_eq (temp (config_of caddy site')) caddy.root_config_path ≡ false)
      × (text_eq (config_of caddy site') caddy.root_config_path ≡ false)
shop_paths_apart site' h =
    let same : site' ≡ shop_normal = cc (h, shop_is_normal) in
    rw same (shop_apart, shop_config_apart)

activation-IsAccepted_example :
    (site' : WebSite) × (normalize_site (λ path. willing.stat host.files host.trace path) shop
      ≡ ok site')
    × (view (config_of caddy site') (activate_site willing caddy shop host).1
        ≡ some (render_site_config site'))
    × ((root : Text) × (view caddy.root_config_path (activate_site willing caddy shop host).1
          ≡ some root)
        × (contains managed_import_line root ≡ true))
    × IsAccepted willing caddy (activate_site willing caddy shop host).1
activation-IsAccepted_example =
    activation-IsAccepted willing caddy shop host shop_activated_result shop_activated
      shop_paths_apart

temp_of_removed :
    text_eq
      (temp (removed_config validate_fails caddy (codes "site-1")))
      (codes "/etc/caddy/sites/site-1.caddy")
    ≡ false
unfolding text_eq lara_nux.Text.join_path lara_nux.Caddy.Tokens.sanitize_token
temp_of_removed = refl

site_not_removed : is_ok (remove_site validate_fails caddy (codes "site-1") host).0 ≡ false
unfolding remove_site lara_nux.Text.trim_space ◌>>=◌ lara_nux.Effect.Action.map_error
    lara_nux.Machine.Atomically.read_if_exists text_eq lara_nux.Text.join_path
    lara_nux.Caddy.Tokens.sanitize_token lara_nux.Caddy.Manager.Remove.remove_found
    lara_nux.Caddy.Manager.Remove.remove_owned lit lara_nux.Machine.Atomically.remove_if_exists
    lara_nux.Machine.Calls.glob lara_nux.Caddy.Manager.Remove.drop_import
    lara_nux.Caddy.Import.remove_managed_root_import lara_nux.Effect.Action.on_failure
    Commands.validate
site_not_removed = refl

removal_rolled_back_example :
    view
      (codes "/etc/caddy/sites/site-1.caddy")
      (remove_site validate_fails caddy (codes "site-1") host).1
    ≡ view (codes "/etc/caddy/sites/site-1.caddy") host
removal_rolled_back_example =
    removal_rolled_back validate_fails (host-Writable (refuses_word (codes "validate"))) caddy
      (codes "site-1") host (codes "/etc/caddy/sites/site-1.caddy") site_not_removed
      (unfold text_eq in refl) temp_of_removed

abbrev resolved : Resolver.Manager.Manager
resolved = record {
  main_config_path = codes "/etc/resolved.conf";
  drop_in_dir = codes "/etc/resolved.conf.d";
  stub_path = codes "/etc/resolved.conf.d/lara-nux-test.conf";
}

abbrev spec : ResolverStubSpec
spec = record { domain = codes ".Test"; address = [] }

abbrev foreign_host : Machine
foreign_host = record {
  files = (codes "/etc/resolved.conf.d/lara-nux-test.conf", codes "[Resolve]\n") ∷ [];
  trace = [];
}

stub_is_there : lookup resolved.stub_path foreign_host.files ≡ some (codes "[Resolve]\n")
unfolding lookup text_eq
stub_is_there = refl

stub_is_foreign : is_managed_content (codes "[Resolve]\n") ≡ false
unfolding is_managed_content
stub_is_foreign = refl

stub_apart : text_eq (temp resolved.stub_path) resolved.stub_path ≡ false
unfolding text_eq
stub_apart = refl

foreign_stub_kept_example :
    (is_ok (ensure_test_stub willing resolved spec foreign_host).0 ≡ false)
    × ((ensure_test_stub willing resolved spec foreign_host).1.files ≡ foreign_host.files)
    × (is_ok (remove_managed_stub willing resolved foreign_host).0 ≡ false)
    × ((remove_managed_stub willing resolved foreign_host).1.files ≡ foreign_host.files)
foreign_stub_kept_example =
    foreign_stub_kept willing resolved spec (codes "[Resolve]\n") foreign_host stub_is_there
      stub_is_foreign

-- The resolver is restarted, its caches are not flushed, and the stub is taken back.
stub_all_or_nothing_example :
    (view resolved.stub_path
        (ensure_test_stub (unwilling (codes "flush-caches")) resolved spec host).1
      ≡ (if is_loaded (unwilling (codes "flush-caches")) resolved (normalize_spec spec) host
            && text_eq resolved.stub_path resolved.stub_path
          then some (render_stub (normalize_spec spec))
          else view resolved.stub_path host))
    × (is_ok (ensure_test_stub (unwilling (codes "flush-caches")) resolved spec host).0 ≡ (
        is_loaded (unwilling (codes "flush-caches")) resolved (normalize_spec spec) host
        && is_ok
            (inspect (unwilling (codes "flush-caches")) resolved (normalize_spec spec) (
              reloaded (
                stub_written
                  (unwilling (codes "flush-caches"))
                  resolved
                  (normalize_spec spec)
                  host))).0))
stub_all_or_nothing_example =
    stub_all_or_nothing (unwilling (codes "flush-caches"))
      (host-Writable (refuses_word (codes "flush-caches"))) resolved resolved.stub_path stub_apart
      spec host

stub_removal_all_or_nothing_example :
    view resolved.stub_path (remove_managed_stub willing resolved foreign_host).1 ≡ (
      if is_ok (remove_managed_stub willing resolved foreign_host).0
      then (if text_eq resolved.stub_path resolved.stub_path
          then none
          else view resolved.stub_path foreign_host)
      else view resolved.stub_path foreign_host)
stub_removal_all_or_nothing_example =
    stub_removal_all_or_nothing willing (host-Writable (λ command. none)) resolved
      resolved.stub_path stub_apart foreign_host

abbrev fpm : Fpm.Runtime.Manager
fpm = record {
  php_root_dir = codes "/etc/php";
  systemd_dir = codes "/etc/systemd";
  socket_dir = codes "/run/php";
}

abbrev php_83 : PhpRuntime
php_83 = record {
  version = codes "PHP8.3";
  binary_path = [];
  fpm_binary_path = [];
  service_name = [];
  socket_path = [];
}

abbrev php_83_normal : PhpRuntime
php_83_normal = record {
  version = codes "8.3";
  binary_path = [];
  fpm_binary_path = codes "/usr/sbin/php-fpm8.3";
  service_name = codes "php8.3-fpm";
  socket_path = codes "/run/php/lara-nux-php8.3-fpm.sock";
}

abbrev target_83 : PhpMaterialization
target_83 = record {
  version = codes "8.3";
  service_name = codes "php8.3-fpm";
  socket_path = codes "/run/php/lara-nux-php8.3-fpm.sock";
  pool_config_path = codes "/etc/php/8.3/fpm/pool.d/lara-nux.conf";
  override_path = codes "/etc/systemd/php8.3-fpm.d/lara-nux.conf";
  active = false;
}

pool_apart : text_eq (temp target_83.pool_config_path) target_83.pool_config_path ≡ false
unfolding text_eq
pool_apart = refl

override_apart : text_eq (temp target_83.override_path) target_83.pool_config_path ≡ false
unfolding text_eq
override_apart = refl

php_83_normalized : normalize_runtime fpm php_83 ≡ ok (php_83_normal, target_83)
unfolding normalize_runtime
php_83_normalized = refl

materialized_or_rolled_back_example :
    view target_83.pool_config_path (materialize_runtime (unwilling (codes "-t")) fpm php_83 host).1
    ≡ (if is_ok (materialize_runtime (unwilling (codes "-t")) fpm php_83 host).0
        then written target_83.pool_config_path php_83_normal target_83
            (view target_83.pool_config_path host)
        else view target_83.pool_config_path host)
materialized_or_rolled_back_example =
    materialized_or_rolled_back (unwilling (codes "-t")) (host-Writable (refuses_word (codes "-t")))
      target_83.pool_config_path fpm php_83 php_83_normal target_83 host php_83_normalized
      pool_apart override_apart

abbrev to_83 : PhpSwitchRequest
to_83 = record { site_id = codes "site-1"; previous = php_83_normal; target = php_83 }

ensure-imports_example :
    (contains managed_import_line (ensure_managed_root_import (some (codes "localhost\n"))).0
      ≡ true)
    × (ensure_managed_root_import (some (ensure_managed_root_import (some (codes "localhost\n"))).0)
        ≡ ((ensure_managed_root_import (some (codes "localhost\n"))).0, false))
ensure-imports_example = ensure-imports (some (codes "localhost\n"))
