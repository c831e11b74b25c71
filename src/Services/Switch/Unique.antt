-- ===== src/Services/Switch/Unique.antt =====
-- A switch of a site's runtime that succeeds: daemon/internal/app/php_manager.go over
-- daemon/internal/app/site_registry.go.
use lara_nux.Base.{
  Bool, true, false, List, Option, some, ◌≡◌, refl, if◌then◌else◌, find, find_sound, sym, subst,
}
use lara_nux.Text.{Text, Unicode, text_eq, text_eq_iff}
use lara_nux.Effect.Action.{pure}
use lara_nux.Effect.Atomic.{Keeps-bind, Keeps-map_error}
use lara_nux.Effect.Yields.{
  Yields, Returns, Yields-bind, Keeps-Returns, Yields-guarded, Yields-map_error,
}
use lara_nux.World.{Os, StateFile, StateLaws}
use lara_nux.Sites.Record.{SiteRecord, SiteRegistryState}
use lara_nux.Sites.Registry
use lara_nux.Sites.Registry.{with_id}
use lara_nux.Sites.Registry.Unique.{IsUnique}
use lara_nux.Sites.Registry.Atomic.{get-Keeps}
use lara_nux.Sites.Registry.Methods.{get_finds}
use lara_nux.Runtimes.Registry.{PhpRuntimeRecord}
use lara_nux.Services.Keeps.{Keeps-present, WebKeeps}
use lara_nux.Services.Management.Others.{IsKeyed}
use lara_nux.Services.Retained.{StoresUnique, retained}
use lara_nux.Services.Switch.{
  PhpManager, switch_back, unpersisted, switched, perform_switch, switch_site_runtime,
}
use lara_nux.Services.Switch.Stored.{OthersKeep, over_registry, switch_host-Keeps}

module _ {σ : Type 0} (os : Os σ) (file : StateFile σ SiteRegistryState) (laws : StateLaws os file)
    ⦃u : Unicode⦄ (m : PhpManager σ) (others : OthersKeep laws.content m) (stored : List SiteRecord)
    (keyed : IsKeyed stored) (unique : IsUnique stored) where
  open laws use {content}

  abbrev before : Option SiteRegistryState
  before = some (record { sites = stored })

  got :
      (id : Text)
      → Returns content before
          (Registry.get os file id)
          (λ site. find (with_id id) stored ≡ some site)
  got id = record {
    at = λ w site e h.
        (cc ((get-Keeps os file laws id).at w, e), get_finds os file laws id w stored site e h);
  }

  -- The site is found by its own id.
  own_id :
      (id : Text) (site : SiteRecord)
      → find (with_id id) stored ≡ some site
      → find (with_id site.id) stored ≡ some site
  own_id id site found =
      let e : site.id ≡ id = (text_eq_iff site.id id).0 (find_sound (with_id id) stored found) in
      subst (λ i. find (with_id i) stored ≡ some site) (sym e) found

  perform_switch_yields :
      (site : SiteRecord) (target : PhpRuntimeRecord)
      → find (with_id site.id) stored ≡ some site
      → Yields content before
          (perform_switch (over_registry os file m) site target)
          (λ _ c. StoresUnique c)
  unfolding perform_switch switched
  perform_switch_yields site target found =
      let k : OthersKeep content (over_registry os file m) = record {
        runtimes = others.runtimes;
        services = others.services;
        host_php = others.host_php;
        web = others.web;
      } in
      Yields-bind _ _ (λ _. Unit) _
        (Keeps-Returns _
          (switch_host-Keeps (over_registry os file m) k site m.host_php target others.host_php))
        (λ socket _.
          Yields-bind _ _ (λ _. Unit) _
            (Yields-guarded (switch_back (over_registry os file m) site target) _ _ (
              Keeps-Returns _ (
                Keeps-map_error _ _ (
                  Keeps-present (WebKeeps content) m.web tt _ others.web
                    (λ web p. Keeps-bind _ _ (p.activate _) (λ _. record { at = λ w. refl }))))))
            (λ _ _. Yields-guarded (unpersisted (over_registry os file m) site) _ _ (
              Yields-map_error _ _ _ (
                retained os file laws site (switched (over_registry os file m) site target) stored
                  found refl refl refl keyed unique))))

  pub switch_yields :
      (site_id version : Text)
      → Yields content before
          (switch_site_runtime (over_registry os file m) site_id version)
          (λ _ c. StoresUnique c)
  unfolding switch_site_runtime
  switch_yields site_id version =
      Yields-bind _ _ (λ site. find (with_id site_id) stored ≡ some site) _ (got site_id)
        (λ site found.
          Yields-bind _ _ (λ _. Unit) _ (Keeps-Returns _ (others.runtimes.get version))
            (λ target _. chosen site target found (text_eq site.php_version target.version)))
    where
      chosen :
          (site : SiteRecord) (target : PhpRuntimeRecord)
          → find (with_id site_id) stored ≡ some site
          → (same : Bool)
          → Yields content before
              (if same then pure site else perform_switch (over_registry os file m) site target)
              (λ _ c. StoresUnique c)
      chosen site target found true = record { at = λ w a e h. (stored, e, keyed, unique) }
      chosen site target found false = perform_switch_yields site target (own_id site_id site found)
