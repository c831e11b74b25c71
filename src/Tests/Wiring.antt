-- ===== src/Tests/Wiring.antt =====
-- The daemon over a host in memory, at a registration that the web server refuses.
use lara_nux.Base.{true, false, some, List, [], ◌∷◌, none, ◌≡◌, refl}
use lara_nux.Text.{Text, codes}
use lara_nux.Effect.Fault.{ok, plain}
use lara_nux.Effect.Action.{pure, raise}
use lara_nux.Sites.Record.{SiteRecord, SiteRegistryState}
use lara_nux.Runtimes.Registry.{PhpRegistryState}
use lara_nux.Services.Interfaces.{ResolverProvisioner, PhpRuntimeMaterializer, WebActivator}
use lara_nux.Services.Keeps.{WebKeeps}
use lara_nux.Services.Management.Others.{IsKeyed}
use lara_nux.Sites.Registry.Unique.{IsUnique}
use lara_nux.Api.Requests.{Request, Decoders}
use lara_nux.Api.Router.{serve}
use lara_nux.Api.Outcomes.{is_error}
use lara_nux.Daemon.Wiring.{Host, dependencies}
use lara_nux.Daemon.Kept.{HostKeeps}
use lara_nux.Daemon.Failing.{serve_failure}
use lara_nux.Daemon.Unique.{serve-IsUnique}
use lara_nux.Tests.Worlds.{ascii_only, memory_os, memory_file, memory_laws, says_83, ending}
use lara_nux.Tests.Services.{
  php_83, refusing, refusing-Keeps, started, blog, one_site, deletes_stored, drawn_fresh,
}
use lara_nux.Tests.Api.{no_body}

abbrev Memory : Type 0
Memory = SiteRegistryState

abbrev no_provisioner : ResolverProvisioner Memory
no_provisioner = record {
  inspect = λ spec. raise (plain (codes "no resolver"));
  ensure_test_stub = λ spec. pure (record {
    managed = true;
    stub_path = [];
    domain = codes "test";
    address = codes "127.0.0.1";
    owner = [];
    conflicts = [];
    summary = [];
    remediation = [];
  });
  remove_managed_stub = pure tt;
}

abbrev materialized : PhpRuntimeMaterializer Memory
materialized = record {
  materialize_runtime = λ runtime. pure (record {
    version = runtime.version;
    service_name = runtime.service_name;
    socket_path = runtime.socket_path;
    pool_config_path = [];
    override_path = [];
    active = true;
  });
  switch_runtime = λ request. raise (plain (codes "no switch"));
}

abbrev only_php_83 : PhpRegistryState
only_php_83 = record { default_version = codes "8.3"; runtimes = php_83 ∷ [] }

abbrev host : WebActivator Memory → Host Memory
host web = record {
  os = memory_os;
  sites_file = memory_file;
  runtimes_file = record { load = pure only_php_83; save = λ s. pure tt };
  run = says_83;
  services = record {
    action = λ name requested w. ((started, none), w);
    status = λ name w. ((started, none), w);
  };
  resolver = no_provisioner;
  resolver_status = λ spec w. (
    (
      record {
        managed = true;
        stub_path = [];
        domain = codes "test";
        address = codes "127.0.0.1";
        owner = [];
        conflicts = [];
        summary = [];
        remediation = [];
      },
      none,
    ),
    w,
  );
  web = web;
  php = materialized;
  packages = record { supported_packages = []; refresh_runtime_inventory = pure [] };
  check_available = λ port. pure tt;
  euid = 0;
  socket_path = codes "/run/lara-nux.sock";
  visit = λ names. names;
}

host-HostKeeps :
    (web : WebActivator Memory)
    → WebKeeps (memory_laws {S = Memory}).content web
    → HostKeeps (memory_laws {S = Memory}).content (host web)
host-HostKeeps web k = record {
  load = record { at = λ w. refl };
  save = λ s. record { at = λ w. refl };
  run = λ path. record { at = λ w. refl };
  service_action = λ name requested w. refl;
  service_status = λ name w. refl;
  resolver = record {
    ensure = λ spec. record { at = λ w. refl };
    remove = record { at = λ w. refl };
  };
  resolver_status = λ spec w. refl;
  web = k;
  php = record {
    materialize = λ runtime. record { at = λ w. refl };
    switch = λ request. record { at = λ w. refl };
  };
  refresh = record { at = λ w. refl };
  check_available = λ port. record { at = λ w. refl };
}

abbrev shop_body : Decoders
shop_body = record no_body {
  register_site =
      λ body. ok (record { root_path = codes "/srv/shop"; domain = []; php_version = [] });
}

abbrev shop_request : Request
shop_request = record {
  method = codes "POST";
  path = codes "/rpc/sites.register";
  site_id = [];
  body = codes "{}";
}

shop_refused :
    is_error (serve shop_body (dependencies (host refusing)) shop_request one_site).0 ≡ true
unfolding serve lara_nux.Services.Activation.activate lara_nux.Runtimes.Registry.default_runtime
    lara_nux.Effect.Action.check lara_nux.Sites.Registry.register
    lara_nux.Sites.Registry.Paths.normalize_root_path
    lara_nux.Sites.Registry.Paths.validate_laravel_path ending
    lara_nux.Sites.Domain.normalize_domain lara_nux.Sites.Name.derive_site_name
    lara_nux.Text.trim_suffix lara_nux.Sites.Domain.match_label
    lara_nux.Sites.Registry.check_duplicates lara_nux.Text.equal_fold
    lara_nux.Control.Manager.start_service
shop_refused = refl

serve_failure_example :
    (memory_laws {S = Memory}).content
      (serve shop_body (dependencies (host refusing)) shop_request one_site).1
    ≡ (memory_laws {S = Memory}).content one_site
serve_failure_example =
    serve_failure (host refusing) memory_laws (host-HostKeeps refusing refusing-Keeps) shop_body
      shop_request one_site (blog ∷ []) deletes_stored refl drawn_fresh shop_refused

-- A web server that takes every site.
abbrev accepting : WebActivator Memory
accepting = record {
  activate_site = λ site. pure (record {
    config_path = [];
    validated = true;
    reloaded = true;
    http_url = [];
    https_url = [];
  });
  remove_site = λ id. pure tt;
  validate = pure tt;
}

accepting-Keeps : WebKeeps (memory_laws {S = Memory}).content accepting
accepting-Keeps = record {
  activate = λ site. record { at = λ w. refl };
  remove = λ id. record { at = λ w. refl };
}

shop_accepted :
    is_error (serve shop_body (dependencies (host accepting)) shop_request one_site).0 ≡ false
unfolding serve lara_nux.Services.Activation.activate lara_nux.Runtimes.Registry.default_runtime
    lara_nux.Effect.Action.check lara_nux.Sites.Registry.register
    lara_nux.Sites.Registry.Paths.normalize_root_path
    lara_nux.Sites.Registry.Paths.validate_laravel_path ending
    lara_nux.Sites.Domain.normalize_domain lara_nux.Sites.Name.derive_site_name
    lara_nux.Text.trim_suffix lara_nux.Sites.Domain.match_label
    lara_nux.Sites.Registry.check_duplicates lara_nux.Text.equal_fold
    lara_nux.Control.Manager.start_service lara_nux.Sites.Registry.update
shop_accepted = refl

serve-IsUnique_example :
    (sites : List SiteRecord) × ((memory_laws {S = Memory}).content
        (serve shop_body (dependencies (host accepting)) shop_request one_site).1
      ≡ some (record { sites = sites }))
    × IsKeyed sites
    × IsUnique sites
serve-IsUnique_example =
    serve-IsUnique (host accepting) memory_laws (host-HostKeeps accepting accepting-Keeps) shop_body
      shop_request one_site (blog ∷ []) deletes_stored refl drawn_fresh (tt, tt) (tt, tt)
