-- ===== src/Tests/Services.antt =====
-- The services over a registry in memory, at concrete inputs.
use lara_nux.Base.{List, true, is_some, false, [], ◌∷◌, none, some, ◌≡◌, refl, arith}
use lara_nux.Text.{Text, Unicode, codes, lit, text_eq}
use lara_nux.Effect.Fault.{ok, is_ok, plain}
use lara_nux.Effect.Action.{Action, ◌>>=◌, check, try, raise, pure}
use lara_nux.Sites.Record.{SiteRecord, SiteRegistrationInput, SiteRegistryState, ready}
use lara_nux.Sites.Name.{new_record_id}
use lara_nux.Sites.Registry
use lara_nux.Sites.Registry.{remove_first}
use lara_nux.Sites.Registry.Unique.{LacksId, IsUnique}
use lara_nux.Runtimes.Registry.{PhpRuntimeRecord}
use lara_nux.Services.Interfaces.{
  RuntimeResolver, WebActivator, ServiceController, ServiceStatus, active, registry_store,
}
use lara_nux.Services.Keeps.{RuntimesKeep, WebKeeps, ServicesKeep}
use lara_nux.Services.Activation.{SiteActivationService, activate}
use lara_nux.Services.Activation.Undone
use lara_nux.Services.Activation.Undone.{activation_undone}
use lara_nux.Services.Switch.{PhpManager, switch_site_runtime}
use lara_nux.Services.Switch.Stored
use lara_nux.Services.Switch.Stored.{switch_failure}
use lara_nux.Services.Management.{SiteManagementService, SiteUpdateInput, update}
use lara_nux.Services.Management.Unique
use lara_nux.Services.Management.Unique.{update-IsUnique}
use lara_nux.Services.Management.Others.{IsKeyed}
use lara_nux.Services.Management.Failure.{update_failure}
use lara_nux.Tests.Worlds.{ascii_only, memory_os, memory_file, memory_laws, ending}

abbrev pub Memory : Type 0
Memory = SiteRegistryState

abbrev pub php_83 : PhpRuntimeRecord
php_83 = record {
  version = codes "8.3";
  binary_path = codes "/usr/bin/php8.3";
  fpm_service = codes "php8.3-fpm";
  source = [];
  registered_at = 1;
}

abbrev only_83 : RuntimeResolver Memory
only_83 = record {
  get = λ version. pure php_83;
  default_runtime = pure php_83;
  list = pure (php_83 ∷ []);
}

-- A web server that refuses every site.
abbrev pub refusing : WebActivator Memory
refusing = record {
  activate_site = λ site. raise (plain (codes "refused"));
  remove_site = λ id. pure tt;
  validate = pure tt;
}

abbrev pub started : ServiceStatus
started = record { service = codes "php8.3-fpm"; state = active; summary = []; updated_at = 1 }

abbrev starting : ServiceController Memory
starting = record {
  start = λ name. pure started;
  restart = λ name. pure started;
  status = λ name. pure started;
}

abbrev service : SiteActivationService Memory
service = record {
  sites = registry_store memory_os memory_file;
  runtimes = only_83;
  resolver = none;
  web = some refusing;
  php = none;
  services = some starting;
  clock = λ w. 7;
  stub_spec = record { domain = codes "test"; address = codes "127.0.0.1" };
}

abbrev pub blog : SiteRecord
blog = record {
  id = codes "b";
  name = codes "blog";
  root_path = codes "/srv/blog";
  domain = codes "blog.test";
  php_version = codes "8.2";
  tls = codes "auto";
  status = ready;
  status_message = [];
  created_at = 1;
  updated_at = 1;
  last_checked_at = 1;
}

abbrev pub one_site : Memory
one_site = record { sites = blog ∷ [] }

abbrev shop_input : SiteRegistrationInput
shop_input = record { root_path = codes "/srv/shop"; domain = []; php_version = [] }

only_83-Keeps : RuntimesKeep (memory_laws {S = Memory}).content only_83
only_83-Keeps = record {
  get = λ version. record { at = λ w. refl };
  default = record { at = λ w. refl };
}

pub refusing-Keeps : WebKeeps (memory_laws {S = Memory}).content refusing
refusing-Keeps = record {
  activate = λ site. record { at = λ w. refl };
  remove = λ id. record { at = λ w. refl };
}

starting-Keeps : ServicesKeep (memory_laws {S = Memory}).content starting
starting-Keeps = record {
  start = λ name. record { at = λ w. refl };
  restart = λ name. record { at = λ w. refl };
}

others : Undone.OthersKeep (memory_laws {S = Memory}).content service
others = record {
  runtimes = only_83-Keeps;
  resolver = tt;
  web = refusing-Keeps;
  php = tt;
  services = starting-Keeps;
}

pub deletes_stored :
    (id : Text) (w : Memory) (sites : List SiteRecord)
    → (memory_laws {S = Memory}).content w ≡ some (record { sites = sites })
    → is_some (remove_first id sites) ≡ true
    → is_ok (Registry.delete memory_os memory_file id w).0 ≡ true
unfolding Registry.delete ◌>>=◌ check
deletes_stored id w sites e h = let same : w.sites ≡ sites = cc in ground (arith, same)

-- The id that is drawn is that of no stored site.
drawn_id :
    (input : SiteRegistrationInput) (w : Memory) (site : SiteRecord)
    → (Registry.register memory_os memory_file input w).0 ≡ ok site
    → site.id ≡ new_record_id (ok (1 ∷ 255 ∷ [])) 5
unfolding Registry.register ◌>>=◌ check try
drawn_id input w site h = ground arith

id_fresh : text_eq (codes "b") (new_record_id (ok (1 ∷ 255 ∷ [])) 5) ≡ false
unfolding text_eq new_record_id
id_fresh = refl

pub drawn_fresh :
    (input : SiteRegistrationInput) (w : Memory) (site : SiteRecord)
    → (Registry.register memory_os memory_file input w).0 ≡ ok site
    → LacksId site.id (blog ∷ [])
drawn_fresh input w site h = (rw (drawn_id input w site h) id_fresh, tt)

shop_refused : is_ok (activate service shop_input one_site).0 ≡ false
unfolding activate Registry.register lara_nux.Effect.Action.check
    lara_nux.Sites.Registry.Paths.normalize_root_path
    lara_nux.Sites.Registry.Paths.validate_laravel_path ending
    lara_nux.Sites.Domain.normalize_domain lara_nux.Sites.Name.derive_site_name
    lara_nux.Text.trim_suffix lara_nux.Sites.Domain.match_label Registry.check_duplicates
    lara_nux.Text.equal_fold
shop_refused = refl

activation_undone_example :
    (memory_laws {S = Memory}).content (activate service shop_input one_site).1
    ≡ (memory_laws {S = Memory}).content one_site
activation_undone_example =
    activation_undone memory_os memory_file memory_laws service others deletes_stored shop_input
      one_site (blog ∷ []) refl drawn_fresh shop_refused

abbrev manager : PhpManager Memory
manager = record {
  sites = registry_store memory_os memory_file;
  runtimes = only_83;
  services = starting;
  host_php = none;
  web = some refusing;
}

switch_others : Stored.OthersKeep (memory_laws {S = Memory}).content manager
switch_others = record {
  runtimes = only_83-Keeps;
  services = starting-Keeps;
  host_php = tt;
  web = refusing-Keeps;
}

blog_not_switched : is_ok (switch_site_runtime manager (codes "b") (codes "8.3") one_site).0 ≡ false
unfolding switch_site_runtime Registry.get lara_nux.Effect.Action.check
blog_not_switched = refl

switch_failure_example :
    (memory_laws {S = Memory}).content
      (switch_site_runtime manager (codes "b") (codes "8.3") one_site).1
    ≡ (memory_laws {S = Memory}).content one_site
switch_failure_example =
    switch_failure memory_os memory_file memory_laws manager switch_others (codes "b") (codes "8.3")
      one_site blog_not_switched

abbrev management : SiteManagementService Memory
management = record {
  os = memory_os;
  sites = registry_store memory_os memory_file;
  runtimes = only_83;
  web = none;
  host_php = none;
  services = some starting;
  clock = λ w. 7;
}

management_others : Unique.OthersKeep (memory_laws {S = Memory}).content management
management_others = record {
  runtimes = only_83-Keeps;
  services = starting-Keeps;
  host_php = tt;
  web = tt;
}

abbrev to_news : SiteUpdateInput
to_news = record {
  site_id = codes " b ";
  root_path = none;
  domain = some (codes "News.test");
  php_version = none;
}

abbrev news : SiteRecord
news = record blog {
  domain = codes "news.test";
  php_version = codes "8.3";
  status_message = codes "Site updated and ready at https://news.test with PHP 8.3.";
  updated_at = 5;
  last_checked_at = 7;
}

blog_moved : (update management to_news one_site).0 ≡ ok news
unfolding update Registry.get check lara_nux.Text.has_suffix lara_nux.Text.trim_suffix
    lara_nux.Sites.Domain.match_label Registry.list Registry.update lit
blog_moved = refl

update-IsUnique_example :
    (sites' : List SiteRecord) × ((memory_laws {S = Memory}).content
        (update management to_news one_site).1
      ≡ some (record { sites = sites' }))
    × IsKeyed sites'
    × IsUnique sites'
update-IsUnique_example =
    update-IsUnique memory_os memory_file memory_laws management management_others (blog ∷ [])
      (tt, tt) (tt, tt) to_news one_site news refl blog_moved

-- The same service with a web server that refuses the site.
abbrev refused_management : SiteManagementService Memory
refused_management = record management { web = some refusing }

refused_others : Unique.OthersKeep (memory_laws {S = Memory}).content refused_management
refused_others = record {
  runtimes = only_83-Keeps;
  services = starting-Keeps;
  host_php = tt;
  web = refusing-Keeps;
}

blog_not_moved : is_ok (update refused_management to_news one_site).0 ≡ false
unfolding update Registry.get check lara_nux.Text.has_suffix lara_nux.Text.trim_suffix
    lara_nux.Sites.Domain.match_label Registry.list
blog_not_moved = refl

update_failure_example :
    (memory_laws {S = Memory}).content (update refused_management to_news one_site).1
    ≡ (memory_laws {S = Memory}).content one_site
update_failure_example =
    update_failure memory_os memory_file memory_laws refused_management refused_others to_news
      one_site blog_not_moved
