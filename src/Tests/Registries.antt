-- ===== src/Tests/Registries.antt =====
-- The registries of sites and runtimes at concrete inputs.
use lara_nux.Base.{
  false, List, [], ◌∷◌, ◌++◌, some, ◌≡◌, refl, if◌then◌else◌, find, AllPairs, ◌↔◌, is_empty,
}
use mathlib.Core.List.{Perm, Permᴰ}
use lara_nux.Text.{
  Text, Unicode, codes, lit, text_eq, is_blank, equal_fold, text_lt, to_lower, trim_space,
}
use lara_nux.Effect.Fault.{ok, is_ok}
use lara_nux.Effect.Action.{◌>>=◌, check, try}
use lara_nux.Sites.Record.{SiteRecord, SiteRegistrationInput, SiteRegistryState, ready}
use lara_nux.Sites.Domain.{normalize_domain, dot_test, match_label}
use lara_nux.Sites.Domain.Sound.{IsDomain, normalize_domain_iff, normalize_domain_idem}
use lara_nux.Sites.Name.{derive_site_name}
use lara_nux.Sites.Name.Label.{default_domain}
use lara_nux.Sites.Registry.{
  check_duplicates, register, list, update, delete, with_id, by_domain, remove_first, Change,
  register_site, apply,
}
use lara_nux.Sites.Registry.Unique.{IsUnique}
use lara_nux.Sites.Registry.Register.{register-IsUnique}
use lara_nux.Sites.Registry.Registered.{IsRegistered, register-IsRegistered}
use lara_nux.Sites.Registry.Atomic.{registry_failure}
use lara_nux.Sites.Registry.Methods.{update_get, list-IsSorted, list_canonical}
use lara_nux.Tests.Worlds.{
  ascii_only, memory_os, memory_file, memory_laws, full_file, full_laws, ending,
}

abbrev new_site : Text → Text → Text → Text → SiteRecord
new_site id name root domain = record {
  id = id;
  name = name;
  root_path = root;
  domain = domain;
  php_version = codes "8.3";
  tls = codes "auto";
  status = ready;
  status_message = lit "Site registered and ready for orchestration.";
  created_at = 5;
  updated_at = 5;
  last_checked_at = 5;
}

abbrev blog : SiteRecord
blog = new_site (codes "b") (codes "blog") (codes "/srv/Blog") (codes "blog.test")

abbrev shop : SiteRecord
shop = new_site (codes "site-01ff") (codes "my-shop") (codes "/srv/My Shop") (codes "my-shop.test")

abbrev shop_input : SiteRegistrationInput
shop_input = record {
  root_path = codes " /srv/My Shop ";
  domain = [];
  php_version = codes "PHP8.3";
}

abbrev one_site : SiteRegistryState
one_site = record { sites = blog ∷ [] }

abbrev two_sites : SiteRegistryState
two_sites = record { sites = shop ∷ blog ∷ [] }

shop_registered : (register memory_os memory_file shop_input one_site).0 ≡ ok shop
unfolding register ◌>>=◌ check try ending lara_nux.Sites.Registry.Paths.normalize_root_path
    lara_nux.Text.trim_space lara_nux.Sites.Registry.Paths.validate_laravel_path
    lara_nux.Text.join_path normalize_domain derive_site_name lara_nux.Text.trim_suffix
    lara_nux.Sites.Domain.match_label lara_nux.Sites.Registry.check_duplicates
    lara_nux.Text.equal_fold lara_nux.Runtimes.Version.normalize_php_version lit
shop_registered = refl

register-IsRegistered_example :
    IsRegistered memory_os memory_file memory_laws shop_input one_site
      (register memory_os memory_file shop_input one_site).1
      shop
register-IsRegistered_example =
    register-IsRegistered memory_os memory_file memory_laws shop_input one_site shop shop_registered

register-IsUnique_example :
    ((memory_laws {S = SiteRegistryState}).content
        (register memory_os memory_file shop_input one_site).1
      ≡ some (record { sites = blog ∷ shop ∷ [] }))
    × IsUnique (blog ∷ shop ∷ [])
    × IsDomain shop.domain
register-IsUnique_example =
    register-IsUnique memory_os memory_file memory_laws shop_input one_site shop (blog ∷ []) refl
      (tt, tt) shop_registered

shop_refused : is_ok (apply memory_os full_file (register_site shop_input) one_site).0 ≡ false
unfolding apply register ◌>>=◌ check try ending lara_nux.Sites.Registry.Paths.normalize_root_path
    lara_nux.Text.trim_space lara_nux.Sites.Registry.Paths.validate_laravel_path
    lara_nux.Text.join_path normalize_domain derive_site_name lara_nux.Text.trim_suffix
    lara_nux.Sites.Domain.match_label lara_nux.Sites.Registry.check_duplicates
    lara_nux.Text.equal_fold
shop_refused = refl

-- The save fails.
registry_failure_example :
    (full_laws {S = SiteRegistryState}).content
      (apply memory_os full_file (register_site shop_input) one_site).1
    ≡ some one_site
registry_failure_example =
    registry_failure memory_os full_file full_laws (register_site shop_input) one_site shop_refused

-- An update with other times, which are not stored.
abbrev blog_moved : SiteRecord
blog_moved = record blog { domain = codes "news.test"; created_at = 90; updated_at = 91 }

abbrev blog_stamped : SiteRecord
blog_stamped = record blog_moved { created_at = blog.created_at; updated_at = 5 }

blog_updated : (update memory_os memory_file blog_moved two_sites).0 ≡ ok blog_stamped
unfolding update ◌>>=◌ check text_eq
blog_updated = refl

update_get_example :
    (old : SiteRecord) × (sites' : List SiteRecord) × (find
        (with_id blog_moved.id)
        (shop ∷ blog ∷ [])
      ≡ some old)
    × (blog_stamped ≡ record blog_moved { created_at = old.created_at; updated_at = 5 })
    × ((memory_laws {S = SiteRegistryState}).content
          (update memory_os memory_file blog_moved two_sites).1
        ≡ some (record { sites = sites' }))
    × ((id : Text)
        → find (with_id id) sites' ≡ (
            if text_eq blog_moved.id id
            then some blog_stamped
            else find (with_id id) (shop ∷ blog ∷ [])))
update_get_example =
    update_get memory_os memory_file memory_laws blog_moved two_sites (shop ∷ blog ∷ [])
      blog_stamped refl blog_updated

blog_deleted : (delete memory_os memory_file (codes "b") two_sites).0 ≡ ok tt
unfolding delete ◌>>=◌ check text_eq
blog_deleted = refl

both_listed : (list memory_os memory_file two_sites).0 ≡ ok (blog ∷ shop ∷ [])
unfolding list ◌>>=◌ check
both_listed = refl

list-IsSorted_example :
    AllPairs (λ a b. text_lt b.domain a.domain ≡ false) (blog ∷ shop ∷ [])
    × Perm (blog ∷ shop ∷ []) (shop ∷ blog ∷ [])
list-IsSorted_example =
    list-IsSorted memory_os memory_file memory_laws two_sites (shop ∷ blog ∷ []) (blog ∷ shop ∷ [])
      refl both_listed

-- The same sites, stored the other way round.
abbrev sites_two : SiteRegistryState
sites_two = record { sites = blog ∷ shop ∷ [] }

both_listed_again : (list memory_os memory_file sites_two).0 ≡ ok (blog ∷ shop ∷ [])
unfolding list ◌>>=◌ check
both_listed_again = refl

domains_apart : text_eq shop.domain blog.domain ≡ false
unfolding text_eq
domains_apart = refl

list_canonical_example : blog ∷ shop ∷ [] ≡ blog ∷ shop ∷ []
list_canonical_example =
    list_canonical memory_os memory_file memory_laws two_sites sites_two (shop ∷ blog ∷ [])
      (blog ∷ shop ∷ []) (blog ∷ shop ∷ []) (blog ∷ shop ∷ []) refl refl (Permᴰ.swap refl refl)
      ((domains_apart, tt), (tt, tt)) both_listed both_listed_again

abbrev docs_domain : Text
docs_domain = codes "docs.my-shop.test"

docs_accepted : normalize_domain (codes " Docs.My-Shop.test ") (codes "shop") ≡ ok docs_domain
unfolding normalize_domain lara_nux.Text.has_suffix lara_nux.Text.trim_suffix lara_nux.Text.split
    lara_nux.Sites.Domain.match_label
docs_accepted = refl

normalize_domain_iff_example :
    (normalize_domain (codes " Docs.My-Shop.test ") (codes "shop") ≡ ok docs_domain) ↔ (
      (docs_domain ≡ (
        if is_empty (to_lower (trim_space (codes " Docs.My-Shop.test ")))
        then codes "shop" ++ codes ".test"
        else to_lower (trim_space (codes " Docs.My-Shop.test "))))
      × IsDomain docs_domain)
normalize_domain_iff_example =
    normalize_domain_iff (codes " Docs.My-Shop.test ") (codes "shop") docs_domain

normalize_domain_idem_example : normalize_domain docs_domain (codes "other") ≡ ok docs_domain
normalize_domain_idem_example =
    normalize_domain_idem (codes " Docs.My-Shop.test ") (codes "shop") docs_domain (codes "other")
      docs_accepted

default_domain_example :
    normalize_domain (codes " ") (derive_site_name (codes "/srv/My Shop"))
    ≡ ok (derive_site_name (codes "/srv/My Shop") ++ dot_test)
default_domain_example = default_domain (codes " ") (codes "/srv/My Shop") (unfold is_blank in refl)
