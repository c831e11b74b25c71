-- ===== src/Daemon/Failing.antt =====
-- Requests to the daemon that are answered with an error: the router of daemon/internal/api over
-- the services that daemon/cmd/lara-nuxd/main.go builds.
use lara_nux.Base.{true, false, refl, List, some, ◌≡◌, is_some}
use lara_nux.Text.{Text, Unicode, trim_space}
use lara_nux.Effect.Fault.{ok, is_ok}
use lara_nux.World.{StateLaws}
use lara_nux.Sites.Record.{SiteRegistrationInput, SiteRecord}
use lara_nux.Sites.Registry as Sites
use lara_nux.Sites.Registry.{remove_first}
use lara_nux.Sites.Registry.Unique.{LacksId}
use lara_nux.Sites.Registry.Atomic.{get-Keeps, list-Keeps}
use lara_nux.Services.Activation.Undone
use lara_nux.Services.Activation.Undone.{activation_undone}
use lara_nux.Services.Switch.Stored
use lara_nux.Services.Switch.Stored.{switch_failure}
use lara_nux.Services.Management.Unique
use lara_nux.Services.Management.Failure.{update_failure}
use lara_nux.Control.Manager.{succeeding}
use lara_nux.Api.Requests.{Request, Decoders}
use lara_nux.Api.Router.{serve}
use lara_nux.Api.Outcomes.{is_error, serve-HandlerMeets}
use lara_nux.Daemon.Wiring.{Host, dependencies, site_activation, site_management, php_manager}
use lara_nux.Daemon.Kept.{
  HostKeeps, runtimes-RuntimesKeep, services-ServicesKeep, action-OutcomeKeeps,
}
use lara_nux.Daemon.Observed.{
  report-Keeps, catalog_list-Keeps, catalog_default-Keeps, catalog_set-Keeps, inventory-Keeps,
  onboarding-Keeps,
}

module _ {σ : Type 0} (h : Host σ) (laws : StateLaws h.os h.sites_file) ⦃u : Unicode⦄
    (k : HostKeeps laws.content h) where
  open laws use {content}

  pub activation_others : Undone.OthersKeep content (site_activation h)
  activation_others = record {
    runtimes = runtimes-RuntimesKeep h k;
    resolver = k.resolver;
    web = k.web;
    php = k.php;
    services = services-ServicesKeep h k;
  }

  pub switch_others : Stored.OthersKeep content (php_manager h)
  switch_others = record {
    runtimes = runtimes-RuntimesKeep h k;
    services = services-ServicesKeep h k;
    host_php = k.php;
    web = k.web;
  }

  pub management_others : Unique.OthersKeep content (site_management h)
  management_others = record {
    runtimes = runtimes-RuntimesKeep h k;
    services = services-ServicesKeep h k;
    host_php = k.php;
    web = k.web;
  }

  -- A request that the daemon answers with an error, at whatever endpoint and step, leaves the
  -- stored sites as they were. The host and the file of the runtimes do not touch the file of
  -- the sites, a stored site can be deleted, and a drawn id is that of no stored site.
  pub serve_failure :
      (json : Decoders) (r : Request) (w : σ) (stored : List SiteRecord)
      → ((id : Text) (w' : σ) (sites : List SiteRecord)
          → content w' ≡ some (record { sites = sites })
          → is_some (remove_first id sites) ≡ true
          → is_ok (Sites.delete h.os h.sites_file id w').0 ≡ true)
      → content w ≡ some (record { sites = stored })
      → ((input : SiteRegistrationInput) (w' : σ) (site : SiteRecord)
          → (Sites.register h.os h.sites_file input w').0 ≡ ok site
          → LacksId site.id stored)
      → is_error (serve json (dependencies h) r w).0 ≡ true
      → content (serve json (dependencies h) r w).1 ≡ content w
  unfolding succeeding
  serve_failure json r w stored deletes e fresh failed =
      serve-HandlerMeets content w (λ b c. b ≡ false → c ≡ content w) (λ _. refl) json
        (dependencies h)
        (record {
          health_report = λ _. (report-Keeps h k (list-Keeps h.os h.sites_file laws)).at w;
          list_sites = λ _. (list-Keeps h.os h.sites_file laws).at w;
          get_site = λ id _. (get-Keeps h.os h.sites_file laws (trim_space id)).at w;
          activate_site = λ input.
              activation_undone h.os h.sites_file laws (site_activation h) activation_others deletes
                input w stored e fresh;
          update_site = λ input.
              update_failure h.os h.sites_file laws (site_management h) management_others input w;
          list_registered = λ _. (catalog_list-Keeps h k).at w;
          default_runtime = λ _. (catalog_default-Keeps h k).at w;
          set_default = λ version _. (catalog_set-Keeps h k version).at w;
          inventory = λ _. (inventory-Keeps h k).at w;
          onboard_runtime = λ request _. (onboarding-Keeps h k request).at w;
          switch_site_runtime = λ id version.
              switch_failure h.os h.sites_file laws (php_manager h) switch_others id version w;
          service_action = λ name requested _. action-OutcomeKeeps h k name requested w;
        })
        r (rw failed refl)
