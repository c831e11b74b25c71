-- ===== src/Services/Activation/Undone.antt =====
-- What an activation leaves in the site registry: daemon/internal/app/orchestration.go over
-- daemon/internal/app/site_registry.go.
use lara_nux.Base.{Bool, true, false, List, [], ◌∷◌, ◌++◌, some, ◌≡◌, refl, arith, is_some}
use lara_nux.Text.{Text, Unicode, codes}
use lara_nux.Effect.Fault.{Result, ok, err, is_ok, ok_unit}
use lara_nux.Effect.Action.{Action, continue, ◌>>=◌, try, ignore, when}
use lara_nux.Effect.Atomic.{Keeps, Keeps-ignore, Keeps-try, Keeps-bind}
use lara_nux.Effect.Undoes.{
  FailsBack, Undoes-guarded, FailsBack-guarded, FailsBack-gets, FailsBack-bind, FailsBack-clocked,
}
use lara_nux.World.{Os, StateFile, StateLaws}
use lara_nux.Sites.Record.{SiteRecord, SiteRegistrationInput, SiteRegistryState}
use lara_nux.Sites.Registry
use lara_nux.Sites.Registry.{remove_first}
use lara_nux.Sites.Registry.Unique.{LacksId, remove_first-append}
use lara_nux.Sites.Registry.Atomic.{register-Atomic, update-Atomic, list-Keeps}
use lara_nux.Sites.Registry.Register.{register_stores}
use lara_nux.Sites.Registry.Methods.{delete_removes}
use lara_nux.Runtimes.Registry.{PhpRuntimeRecord}
use lara_nux.Services.Interfaces.{ResolverProvisioner, registry_store, if_present}
use lara_nux.Services.Keeps.{
  Present, Keeps-when, Keeps-present, ResolverKeeps, WebKeeps, PhpKeeps, ServicesKeep, RuntimesKeep,
  ensure_services-Keeps, resolve_runtime-Keeps,
}
use lara_nux.Services.Hosting.{resolve_runtime, runtime_to_host, site_to_web_site}
use lara_nux.Services.Activation.{
  SiteActivationService, activate, provision, undo, has_other_sites, remove_stub_unless, activated,
  result_of,
}

-- The other components of an activation leave the registry alone.
pub record OthersKeep {σ C : Type 0} (view : σ → C) (s : SiteActivationService σ) : Type 0 where
  pub runtimes : RuntimesKeep view s.runtimes
  pub resolver : Present (ResolverKeeps view) s.resolver
  pub web : Present (WebKeeps view) s.web
  pub php : Present (PhpKeeps view) s.php
  pub services : Present (ServicesKeep view) s.services

abbrev pub over_registry :
    {σ : Type 0}
    → Os σ
    → StateFile σ SiteRegistryState
    → ⦃u : Unicode⦄ → SiteActivationService σ
    → SiteActivationService σ
over_registry os file s = record s { sites = registry_store os file }

module _ {σ : Type 0} (os : Os σ) (file : StateFile σ SiteRegistryState) (laws : StateLaws os file)
    ⦃u : Unicode⦄ (s : SiteActivationService σ) (others : OthersKeep laws.content s) where
  open laws use {content}

  -- A site that is stored can be deleted.
  abbrev pub Deletes : Type 0
  Deletes =
      (id : Text) (w : σ) (sites : List SiteRecord)
      → content w ≡ some (record { sites = sites })
      → is_some (remove_first id sites) ≡ true
      → is_ok (Registry.delete os file id w).0 ≡ true

  module _ (deletes : Deletes) (stored : List SiteRecord) (site : SiteRecord)
      (fresh : LacksId site.id stored) where
    deleted :
        (w : σ)
        → content w ≡ some (record { sites = stored ++ site ∷ [] })
        → content (Registry.delete os file site.id w).1 ≡ some (record { sites = stored })
    deleted w e =
        let gone = remove_first-append stored site fresh in
        let works = deletes site.id w (stored ++ site ∷ []) e (ground (arith, gone)) in
        let (sites', behind, removed) =
          delete_removes os file laws site.id w (stored ++ site ∷ []) e
            (ok_unit (Registry.delete os file site.id w).0 works) in
        let same : sites' ≡ stored = cc (gone, removed) in rw (← same) behind

    web_undone :
        (committed : Bool)
        → Keeps content
            (ignore (when committed (if_present s.web tt (λ web. web.remove_site site.id))))
    web_undone committed = Keeps-ignore _ (
        Keeps-when committed _
          (Keeps-present (WebKeeps content) s.web tt _ others.web (λ web k. k.remove site.id)))

    stub_undone :
        (r : ResolverProvisioner σ) (answer : Result Bool)
        → ResolverKeeps content r
        → Keeps content (remove_stub_unless (over_registry os file s) r answer)
    unfolding remove_stub_unless
    stub_undone r (ok false) k = Keeps-ignore _ k.remove
    stub_undone r (ok true) k = record { at = λ w. refl }
    stub_undone r (err e) k = record { at = λ w. refl }

    others_listed : Keeps content (has_other_sites (over_registry os file s) site.id)
    unfolding has_other_sites
    others_listed = Keeps-bind _ _ (list-Keeps os file laws) (λ sites. record { at = λ w. refl })

    resolver_undone :
        (committed : Bool)
        → Keeps content (
            ignore (
              when committed (
                if_present s.resolver tt (λ resolver.
                  try (has_other_sites (over_registry os file s) site.id)
                  >>= remove_stub_unless (over_registry os file s) resolver))))
    resolver_undone committed = Keeps-ignore _ (
        Keeps-when committed _ (
          Keeps-present (ResolverKeeps content) s.resolver tt _ others.resolver
            (λ r k. Keeps-bind _ _ (Keeps-try _ others_listed) (λ answer. stub_undone r answer k))))

    undone :
        (committed_resolver committed_web : Bool) (w : σ)
        → content w ≡ some (record { sites = stored ++ site ∷ [] })
        → content (undo (over_registry os file s) site committed_resolver committed_web w).1
          ≡ some (record { sites = stored })
    unfolding undo ◌>>=◌ ignore
    undone committed_resolver committed_web w e =
        let w1 =
          (ignore (when committed_web (if_present s.web tt (λ web. web.remove_site site.id)))
            w).1 in
        let w2 =
          (ignore
            (when committed_resolver (
              if_present s.resolver tt (λ resolver.
                try (has_other_sites (over_registry os file s) site.id)
                >>= remove_stub_unless (over_registry os file s) resolver)))
            w1).1 in
        deleted w2
          (rw ((resolver_undone committed_resolver).at w1, (web_undone committed_web).at w) e)

    abbrev FailsHere : {A : Type 0} → Action σ A → Type 0
    FailsHere =
        FailsBack content (some (record { sites = stored ++ site ∷ [] }))
          (some (record { sites = stored }))

    provision_fails :
        (runtime : PhpRuntimeRecord) → FailsHere (provision (over_registry os file s) runtime site)
    unfolding provision
    provision_fails runtime =
        let with_resolver = is_some s.resolver in
        FailsBack-bind _ _
          (Undoes-guarded _ (undo (over_registry os file s) site false false)
            (Keeps-present (ResolverKeeps content) s.resolver _ _ others.resolver
              (λ r k. k.ensure s.stub_spec))
            (undone false false))
          (λ resolver.
            FailsBack-bind _ _
              (Undoes-guarded _ (undo (over_registry os file s) site with_resolver false)
                (Keeps-present (PhpKeeps content) s.php _ _ others.php
                  (λ php k. k.materialize (runtime_to_host runtime)))
                (undone with_resolver false))
              (λ materialization.
                FailsBack-bind _ _
                  (Undoes-guarded _ (undo (over_registry os file s) site with_resolver false)
                    (Keeps-present (ServicesKeep content) s.services _ _ others.services
                      (λ services k.
                        ensure_services-Keeps services (codes "caddy" ∷ runtime.fpm_service ∷ [])
                          k))
                    (undone with_resolver false))
                  (λ services.
                    FailsBack-bind _ _
                      (Undoes-guarded _ (undo (over_registry os file s) site with_resolver false)
                        (Keeps-present (WebKeeps content) s.web _ _ others.web
                          (λ web k. k.activate (site_to_web_site site materialization.socket_path)))
                        (undone with_resolver false))
                      (λ web. FailsBack-gets _ _ (λ now.
                        FailsBack-clocked _ s.clock
                          (result_of resolver runtime materialization services web)
                          (FailsBack-guarded _
                            (undo (over_registry os file s) site with_resolver (is_some s.web))
                            (update-Atomic os file laws
                              (activated (over_registry os file s) site runtime now))
                            (undone with_resolver (is_some s.web))))))))

  module _ (deletes : Deletes) where
    fails_registered :
        (runtime : PhpRuntimeRecord) (input : SiteRegistrationInput) (w : σ)
        (stored : List SiteRecord)
        → content w ≡ some (record { sites = stored })
        → ((site : SiteRecord)
            → (Registry.register os file input w).0 ≡ ok site
            → LacksId site.id stored)
        → is_ok
            ((Registry.register os file input >>= provision (over_registry os file s) runtime) w).0
          ≡ false
        → content
            ((Registry.register os file input >>= provision (over_registry os file s) runtime) w).1
          ≡ content w
    unfolding ◌>>=◌
    fails_registered runtime input w stored e fresh h =
        by_result (Registry.register os file input w).0 refl h
      where
        by_result :
            (r : Result SiteRecord)
            → (Registry.register os file input w).0 ≡ r
            → is_ok
                (continue
                  (provision (over_registry os file s) runtime)
                  r
                  (Registry.register os file input w).1).0
              ≡ false
            → content
                (continue
                  (provision (over_registry os file s) runtime)
                  r
                  (Registry.register os file input w).1).1
              ≡ content w
        by_result (ok site) r h =
            let registered = register_stores os file laws input w site r in
            let same : registered.stored ≡ stored = cc (e, registered.before) in
            let here : content (Registry.register os file input w).1
                ≡ some (record { sites = stored ++ site ∷ [] }) =
              rw (← same) registered.behind in
            cc (e, (provision_fails deletes stored site (fresh site r) runtime).back _ here h)
        by_result (err e') r h = (register-Atomic os file laws input).at w (rw r refl)

    -- Over a site registry whose stored sites can be deleted, with other components that do not
    -- touch the registry and a drawn id that no stored site has, an Activate that fails, at
    -- whatever step, leaves the stored sites as they were.
    pub activation_undone :
        (input : SiteRegistrationInput) (w : σ) (stored : List SiteRecord)
        → content w ≡ some (record { sites = stored })
        → ((input' : SiteRegistrationInput) (w' : σ) (site : SiteRecord)
            → (Registry.register os file input' w').0 ≡ ok site
            → LacksId site.id stored)
        → is_ok (activate (over_registry os file s) input w).0 ≡ false
        → content (activate (over_registry os file s) input w).1 ≡ content w
    unfolding activate ◌>>=◌
    activation_undone input w stored e fresh h =
        by_runtime (resolve_runtime s.runtimes input.php_version w).0
          ((resolve_runtime-Keeps s.runtimes input.php_version others.runtimes).at w) h
      where
        by_runtime :
            (r : Result PhpRuntimeRecord) {w' : σ}
            → content w' ≡ content w
            → is_ok
                (continue
                  (λ runtime.
                    Registry.register os file (record input { php_version = runtime.version })
                    >>= provision (over_registry os file s) runtime)
                  r
                  w').0
              ≡ false
            → content
                (continue
                  (λ runtime.
                    Registry.register os file (record input { php_version = runtime.version })
                    >>= provision (over_registry os file s) runtime)
                  r
                  w').1
              ≡ content w
        by_runtime (ok runtime) {w'} k h =
            let input' = record input { php_version = runtime.version } in
            cc (k, fails_registered runtime input' w' stored (cc (k, e)) (fresh input' w') h)
        by_runtime (err e') k h = k
