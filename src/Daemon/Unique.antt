-- ===== src/Daemon/Unique.antt =====
-- What a request to the daemon leaves stored, whether it is answered with an error or not: the
-- router of daemon/internal/api over the services that daemon/cmd/lara-nuxd/main.go builds.
use lara_nux.Base.{true, false, List, some, ◌≡◌, refl, is_some, sym, subst}
use lara_nux.Text.{Text, Unicode, trim_space}
use lara_nux.Effect.Fault.{Result, ok, err, is_ok}
use lara_nux.Effect.Action.{Action}
use lara_nux.Effect.Atomic.{Keeps}
use lara_nux.World.{StateLaws}
use lara_nux.Sites.Record.{SiteRegistrationInput, SiteRecord}
use lara_nux.Sites.Registry as Sites
use lara_nux.Sites.Registry.{remove_first}
use lara_nux.Sites.Registry.Unique.{LacksId, IsUnique}
use lara_nux.Sites.Registry.Atomic.{get-Keeps, list-Keeps}
use lara_nux.Services.Retained.{StoresUnique}
use lara_nux.Services.Activation.Undone.{activation_undone}
use lara_nux.Services.Activation.Unique.{activate_yields}
use lara_nux.Services.Switch.Stored.{switch_failure}
use lara_nux.Services.Switch.Unique.{switch_yields}
use lara_nux.Services.Management.Others.{IsKeyed}
use lara_nux.Services.Management.Unique.{update-IsUnique}
use lara_nux.Services.Management.Failure.{update_failure}
use lara_nux.Control.Manager.{succeeding}
use lara_nux.Api.Requests.{Request, Decoders}
use lara_nux.Api.Router.{serve}
use lara_nux.Api.Outcomes.{serve-HandlerMeets}
use lara_nux.Daemon.Wiring.{Host, dependencies, site_activation, site_management, php_manager}
use lara_nux.Daemon.Kept.{HostKeeps, action-OutcomeKeeps}
use lara_nux.Daemon.Observed.{
  report-Keeps, catalog_list-Keeps, catalog_default-Keeps, catalog_set-Keeps, inventory-Keeps,
  onboarding-Keeps,
}
use lara_nux.Daemon.Failing.{activation_others, switch_others, management_others}

-- A property that a success brings about, and that a failure leaves.
settled :
    {A C : Type 0} (P : C → Type 0) (r : Result A) (c c' : C)
    → P c
    → (is_ok r ≡ false → c' ≡ c)
    → ((a : A) → r ≡ ok a → P c')
    → P c'
settled P (ok a) c c' p failure success = success a refl
settled P (err e) c c' p failure success = subst P (sym (failure refl)) p

module _ {σ : Type 0} (h : Host σ) (laws : StateLaws h.os h.sites_file) ⦃u : Unicode⦄
    (k : HostKeeps laws.content h) where
  open laws use {content}

  -- If no two stored sites share an id, a name or a domain, the case of names and domains aside,
  -- then the same holds behind any request to the daemon, whether it is answered with an error
  -- or not. The host and the file of the runtimes do not touch the file of the sites, a stored
  -- site can be deleted, and a drawn id is that of no stored site.
  pub serve-IsUnique :
      (json : Decoders) (r : Request) (w : σ) (stored : List SiteRecord)
      → ((id : Text) (w' : σ) (sites : List SiteRecord)
          → content w' ≡ some (record { sites = sites })
          → is_some (remove_first id sites) ≡ true
          → is_ok (Sites.delete h.os h.sites_file id w').0 ≡ true)
      → content w ≡ some (record { sites = stored })
      → ((input : SiteRegistrationInput) (w' : σ) (site : SiteRecord)
          → (Sites.register h.os h.sites_file input w').0 ≡ ok site
          → LacksId site.id stored)
      → IsKeyed stored
      → IsUnique stored
      → (sites : List SiteRecord) × (content (serve json (dependencies h) r w).1
          ≡ some (record { sites = sites }))
        × IsKeyed sites
        × IsUnique sites
  unfolding succeeding
  serve-IsUnique json r w stored deletes e fresh keyed unique =
      serve-HandlerMeets content w (λ _ c. StoresUnique c) here json (dependencies h)
        (record {
          health_report = kept (report-Keeps h k (list-Keeps h.os h.sites_file laws));
          list_sites = kept (list-Keeps h.os h.sites_file laws);
          get_site = λ id. kept (get-Keeps h.os h.sites_file laws (trim_space id));
          activate_site = λ input.
              settled StoresUnique _ (content w) _ here
                (activation_undone h.os h.sites_file laws (site_activation h)
                  (activation_others h laws k) deletes input w stored e fresh)
                (λ result s.
                  (activate_yields h.os h.sites_file laws (site_activation h)
                      (activation_others h laws k) stored keyed unique fresh input).at
                    w result e s);
          update_site = λ input.
              settled StoresUnique _ (content w) _ here
                (update_failure h.os h.sites_file laws (site_management h)
                  (management_others h laws k) input w)
                (λ site s.
                  update-IsUnique h.os h.sites_file laws (site_management h)
                    (management_others h laws k) stored keyed unique input w site e s);
          list_registered = kept (catalog_list-Keeps h k);
          default_runtime = kept (catalog_default-Keeps h k);
          set_default = λ version. kept (catalog_set-Keeps h k version);
          inventory = kept (inventory-Keeps h k);
          onboard_runtime = λ request. kept (onboarding-Keeps h k request);
          switch_site_runtime = λ id version.
              settled StoresUnique _ (content w) _ here
                (switch_failure h.os h.sites_file laws (php_manager h) (switch_others h laws k) id
                  version w)
                (λ site s.
                  (switch_yields h.os h.sites_file laws (php_manager h) (switch_others h laws k)
                      stored keyed unique id version).at
                    w site e s);
          service_action = λ name requested.
              subst StoresUnique (sym (action-OutcomeKeeps h k name requested w)) here;
        })
        r
    where
      here : StoresUnique (content w)
      here = (stored, e, keyed, unique)

      kept : {A : Type 0} {m : Action σ A} → Keeps content m → StoresUnique (content (m w).1)
      kept keeps = subst StoresUnique (sym (keeps.at w)) here
