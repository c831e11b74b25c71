-- ===== src/Services/Management/Unique.antt =====
-- An update of a site over the site registry: daemon/internal/app/site_management.go over
-- daemon/internal/app/site_registry.go.
use lara_nux.Base.{
  ℕ, Bool, true, false, ◌&&◌, not, List, [], ◌∷◌, ◌++◌, Option, none, some, ◌≡◌, refl, All,
  All-sort, if◌then◌else◌, sort, subst,
}
use lara_nux.Text.{Text, Unicode, codes, lit, text_eq, trim_space}
use lara_nux.Effect.Fault.{Result, ok, wrap}
use lara_nux.Effect.Action.{◌>>=◌, pure, lift, gets}
use lara_nux.Effect.Atomic.{Keeps, Keeps-bind, Keeps-map_error, keeps_rules}
use lara_nux.Effect.Yields.{
  Yields, Returns, Yields-bind, Keeps-Returns, Returns-lift, Returns-pure, Yields-gets,
  Yields-guarded, Yields-map_error,
}
use lara_nux.World.{Os, StateFile, StateLaws}
use lara_nux.Sites.Record.{SiteRecord, SiteRegistryState}
use lara_nux.Sites.Registry
use lara_nux.Sites.Registry.{by_domain, replace_first}
use lara_nux.Sites.Registry.Unique.{IsUnique}
use lara_nux.Sites.Registry.Atomic.{get-Keeps, list-Keeps}
use lara_nux.Sites.Registry.Methods.{update_replaces, list_returns}
use lara_nux.Runtimes.Registry.{PhpRuntimeRecord}
use lara_nux.Runtimes.Version.{normalize_php_version}
use lara_nux.Services.Interfaces.{PhpRuntimeMaterializer, ServiceController, registry_store}
use lara_nux.Services.Keeps.{
  Present, Keeps-present, WebKeeps, PhpKeeps, ServicesKeep, RuntimesKeep, ensure_services-Keeps,
  resolve_runtime-Keeps,
}
use lara_nux.Services.Management.{
  SiteManagementService, SiteUpdateInput, check_others, updated_root, updated_name, updated_domain,
  updated_version, prepare_updated_site, change_host, apply_runtime_change, reconfigure,
  apply_update, update, undo_runtime, undo_update, stamped,
}
use lara_nux.Services.Management.Keyed.{replace_first-IsKeyed}
use lara_nux.Services.Management.Others.{
  IsKeyed, spares, check_others_sound, replace_first-IsUnique,
}

pub record OthersKeep {σ C : Type 0} (view : σ → C) (s : SiteManagementService σ) : Type 0 where
  pub runtimes : RuntimesKeep view s.runtimes
  pub services : Present (ServicesKeep view) s.services
  pub host_php : Present (PhpKeeps view) s.host_php
  pub web : Present (WebKeeps view) s.web

pub Keeps-pure : {σ C A : Type 0} {view : σ → C} (a : A) → Keeps view (pure a)
Keeps-pure a = record { at = λ w. refl }

pub lift-Keeps : {σ C A : Type 0} {view : σ → C} (r : Result A) → Keeps view (lift r)
lift-Keeps r = record { at = λ w. refl }

module _ {σ C : Type 0} {view : σ → C} (s : SiteManagementService σ) (k : OthersKeep view s)
    ⦃u : Unicode⦄ where
  pub updated_root-Keeps :
      (current : SiteRecord) (given : Option Text) → Keeps view (updated_root s current given)
  unfolding updated_root
  updated_root-Keeps current none = Keeps-pure _
  updated_root-Keeps current (some given) = search keeps_rules depth 20

  change_host-Keeps :
      (php : Option (PhpRuntimeMaterializer σ)) (services : Option (ServiceController σ))
      (current : SiteRecord) (target : PhpRuntimeRecord)
      → Present (PhpKeeps view) php
      → Present (ServicesKeep view) services
      → Keeps view (change_host s php services current target)
  unfolding change_host
  change_host-Keeps (some php) services current target p q =
      Keeps-bind _ _ (Keeps-map_error _ _ (p.switch _)) (λ _. Keeps-pure _)
  change_host-Keeps none none current target p q = Keeps-pure _
  change_host-Keeps none (some services) current target p q =
      Keeps-bind _ _ (Keeps-map_error _ _ (q.restart _)) (λ _. Keeps-pure _)

  pub apply_runtime_change-Keeps :
      (current : SiteRecord) (target : PhpRuntimeRecord)
      → Keeps view (apply_runtime_change s current target)
  unfolding apply_runtime_change
  apply_runtime_change-Keeps current target =
      by_test (text_eq (normalize_php_version current.php_version) target.version)
    where
      by_test :
          (b : Bool)
          → Keeps view (if b then pure tt else change_host s s.host_php s.services current target)
      by_test true = Keeps-pure _
      by_test false = change_host-Keeps s.host_php s.services current target k.host_php k.services

abbrev pub over_registry :
    {σ : Type 0}
    → Os σ
    → StateFile σ SiteRegistryState
    → ⦃u : Unicode⦄ → SiteManagementService σ
    → SiteManagementService σ
over_registry os file s = record s { sites = registry_store os file }

module _ {σ : Type 0} (os : Os σ) (file : StateFile σ SiteRegistryState) (laws : StateLaws os file)
    ⦃u : Unicode⦄ (s : SiteManagementService σ) (others : OthersKeep laws.content s)
    (stored : List SiteRecord) where
  open laws use {content}

  others_over : OthersKeep content (over_registry os file s)
  others_over = record {
    runtimes = others.runtimes;
    services = others.services;
    host_php = others.host_php;
    web = others.web;
  }

  abbrev before : Option SiteRegistryState
  before = some (record { sites = stored })

  -- What `prepareUpdatedSite` makes sure of.
  abbrev Prepared : Text → SiteRecord × PhpRuntimeRecord → Type 0
  Prepared id prepared =
      (prepared.0.id ≡ id) × All (λ t. spares id prepared.0.name prepared.0.domain t ≡ true) stored

  listed : Returns content before (Registry.list os file) (λ sites. sites ≡ sort by_domain stored)
  listed = record {
    at = λ w sites e h.
        (cc ((list-Keeps os file laws).at w, e), list_returns os file laws w stored sites e h);
  }

  prepare_returns :
      (current : SiteRecord) (input : SiteUpdateInput)
      → Returns content before
          (prepare_updated_site (over_registry os file s) current input)
          (Prepared current.id)
  unfolding prepare_updated_site
  prepare_returns current input =
      Yields-bind _ _ (λ _. Unit) _
        (Keeps-Returns _ (updated_root-Keeps s others current input.root_path))
        (λ root _.
          Yields-bind _ _ (λ _. Unit) _
            (Keeps-Returns _ (
              lift-Keeps (
                updated_domain (over_registry os file s) current input.domain
                  (updated_name (over_registry os file s) current input.root_path root))))
            (λ domain _.
              Yields-bind _ _ (λ _. Unit) _
                (Keeps-Returns _ (
                  resolve_runtime-Keeps s.runtimes
                    (updated_version (over_registry os file s) current input.php_version)
                    others.runtimes))
                (λ target _. Yields-bind _ _ _ _ listed (λ existing e.
                  Yields-bind _ _ _ _
                    (Returns-lift (
                      check_others current.id
                        (updated_name (over_registry os file s) current input.root_path root) domain
                        existing))
                    (λ _ checked. Returns-pure _ _ (
                      refl,
                      All-sort by_domain _ stored (
                          subst (All _) e (
                            check_others_sound current.id
                              (updated_name (over_registry os file s) current input.root_path root)
                              domain existing checked)),
                    ))))))

  -- The list that is stored behind the update.
  abbrev StoresUnique : SiteRecord → Option SiteRegistryState → Type 0
  StoresUnique site c =
      (sites' : List SiteRecord) × (c ≡ some (record { sites = sites' }))
      × IsKeyed sites'
      × IsUnique sites'

  module _ (keyed : IsKeyed stored) (unique : IsUnique stored) where
    registry_update_yields :
        (id : Text) (next : SiteRecord) (target : PhpRuntimeRecord) (message : Text) (now : ℕ)
        → Prepared id (next, target)
        → Yields content before
            (Registry.update os file (stamped (over_registry os file s) next message now))
            StoresUnique
    registry_update_yields id next target message now (same, spared) = record {
      at = λ w site e h.
          let (sites', behind, replaced, identified, named, hosted) =
            update_replaces os file laws (stamped (over_registry os file s) next message now) w
              stored site e h in
          (
            sites',
            behind,
            replace_first-IsKeyed next.id site stored sites' replaced identified keyed,
            replace_first-IsUnique next.id site stored sites' replaced keyed
                (rw (named, hosted, same) spared) unique,
          );
    }

    reconfigure_yields :
        (current next : SiteRecord) (target : PhpRuntimeRecord) (changed : Bool)
        → Prepared current.id (next, target)
        → Yields content before
            (reconfigure (over_registry os file s) current next target changed)
            StoresUnique
    unfolding reconfigure
    reconfigure_yields current next target changed p =
        let undo = undo_runtime (over_registry os file s) current target changed in
        Yields-bind _ _ (λ _. Unit) _
          (Keeps-Returns _
            (apply_runtime_change-Keeps (over_registry os file s) others_over current target))
          (λ _ _.
            Yields-bind _ _ (λ _. Unit) _
              (Yields-guarded undo _ _ (
                Keeps-Returns _ (
                  Keeps-present (ServicesKeep content) s.services _ _ others.services (λ services k.
                    ensure_services-Keeps services (codes "caddy" ∷ target.fpm_service ∷ []) k))))
              (λ _ _.
                Yields-bind _ _ (λ _. Unit) _
                  (Yields-guarded undo _ _ (
                    Keeps-Returns _ (
                      Keeps-present (WebKeeps content) s.web _ _ others.web
                        (λ web k. Keeps-bind _ _ (k.activate _) (λ _. Keeps-pure _)))))
                  (λ _ _. Yields-gets s.clock _ _ (λ now.
                    Yields-guarded (undo_update (over_registry os file s) current target changed) _
                      _
                      (Yields-map_error
                        (wrap (lit "persist site update " ++ (current.id ++ lit ": "))) _ _
                        (registry_update_yields current.id next target
                          (lit "Site updated and ready at https://"
                            ++ (next.domain ++ (lit " with PHP " ++ (target.version ++ lit "."))))
                          now p))))))

    apply_update_yields :
        (current : SiteRecord) (prepared : SiteRecord × PhpRuntimeRecord)
        → Prepared current.id prepared
        → Yields content before
            (apply_update (over_registry os file s) current prepared)
            StoresUnique
    unfolding apply_update
    apply_update_yields current (next, target) p = by_test (
        text_eq current.root_path next.root_path
        && (text_eq current.domain next.domain
            && text_eq (normalize_php_version current.php_version) target.version))
      where
        by_test :
            (b : Bool)
            → Yields content before
                (if b
                  then (gets s.clock >>= λ now. Registry.update os file (
                      stamped
                        (over_registry os file s)
                        next
                        (lit "Site metadata updated for " ++ (next.domain ++ lit "."))
                        now))
                  else reconfigure
                      (over_registry os file s)
                      current
                      next
                      target
                      (not (text_eq (normalize_php_version current.php_version) target.version)))
                StoresUnique
        by_test true = Yields-gets s.clock _ _ (λ now.
            registry_update_yields current.id next target
              (lit "Site metadata updated for " ++ (next.domain ++ lit ".")) now p)
        by_test false = reconfigure_yields current next target _ p

    -- Over a site registry whose stored sites have different ids and no two names or domains
    -- that agree, case aside, and with other components that do not touch it, an Update of a
    -- site that succeeds leaves stored sites of which again no two agree in id, name or domain.
    pub update-IsUnique :
        (input : SiteUpdateInput) (w : σ) (site : SiteRecord)
        → content w ≡ before
        → (update (over_registry os file s) input w).0 ≡ ok site
        → (sites' : List SiteRecord) × (content (update (over_registry os file s) input w).1
            ≡ some (record { sites = sites' }))
          × IsKeyed sites'
          × IsUnique sites'
    unfolding update
    update-IsUnique input w site e h = all.at w site e h
      where
        all : Yields content before (update (over_registry os file s) input) StoresUnique
        all =
            Yields-bind _ _ (λ _. Unit) _
              (Keeps-Returns _ (get-Keeps os file laws (trim_space input.site_id)))
              (λ current _.
                Yields-bind _ _ (Prepared current.id) _ (prepare_returns current input)
                  (λ prepared p. apply_update_yields current prepared p))
