-- ===== src/Services/Activation/Unique.antt =====
-- An activation that succeeds: daemon/internal/app/orchestration.go over
-- daemon/internal/app/site_registry.go.
use lara_nux.Base.{false, List, [], ◌∷◌, ◌++◌, Option, some, ◌≡◌, refl, is_some, find, sym, subst}
use lara_nux.Text.{Unicode, codes}
use lara_nux.Effect.Fault.{ok}
use lara_nux.Effect.Yields.{
  Yields, Yields-bind, Yields-chain, Keeps-Returns, Yields-guarded, Yields-gets, Yields-clocked,
}
use lara_nux.World.{Os, StateFile, StateLaws}
use lara_nux.Sites.Record.{SiteRecord, SiteRegistrationInput, SiteRegistryState}
use lara_nux.Sites.Registry
use lara_nux.Sites.Registry.{with_id}
use lara_nux.Sites.Registry.Unique.{IsUnique, LacksId, find-append}
use lara_nux.Sites.Registry.Register.{register-IsUnique}
use lara_nux.Runtimes.Registry.{PhpRuntimeRecord}
use lara_nux.Services.Keeps.{
  Keeps-present, ResolverKeeps, WebKeeps, PhpKeeps, ServicesKeep, ensure_services-Keeps,
  resolve_runtime-Keeps,
}
use lara_nux.Services.Hosting.{runtime_to_host, site_to_web_site}
use lara_nux.Services.Management.Others.{IsKeyed}
use lara_nux.Services.Management.Keyed.{IsKeyed-append}
use lara_nux.Services.Retained.{StoresUnique, retained}
use lara_nux.Services.Activation.{
  SiteActivationService, activate, provision, undo, activated, result_of,
}
use lara_nux.Services.Activation.Undone.{OthersKeep, over_registry}

module _ {σ : Type 0} (os : Os σ) (file : StateFile σ SiteRegistryState) (laws : StateLaws os file)
    ⦃u : Unicode⦄ (s : SiteActivationService σ) (others : OthersKeep laws.content s) where
  open laws use {content}

  -- What follows the registration of a site that is found by its id.
  provision_yields :
      (runtime : PhpRuntimeRecord) (site : SiteRecord) (all_sites : List SiteRecord)
      → find (with_id site.id) all_sites ≡ some site
      → IsKeyed all_sites
      → IsUnique all_sites
      → Yields content
          (some (record { sites = all_sites }))
          (provision (over_registry os file s) runtime site)
          (λ _ c. StoresUnique c)
  unfolding provision activated
  provision_yields runtime site all_sites found keyed unique =
      let undone = undo (over_registry os file s) site in
      let with_resolver = is_some s.resolver in
      Yields-bind _ _ (λ _. Unit) _
        (Yields-guarded (undone false false) _ _ (
          Keeps-Returns _ (
            Keeps-present (ResolverKeeps content) s.resolver _ _ others.resolver
              (λ r k. k.ensure s.stub_spec))))
        (λ resolver _.
          Yields-bind _ _ (λ _. Unit) _
            (Yields-guarded (undone with_resolver false) _ _ (
              Keeps-Returns _ (
                Keeps-present (PhpKeeps content) s.php _ _ others.php
                  (λ php k. k.materialize (runtime_to_host runtime)))))
            (λ materialization _.
              Yields-bind _ _ (λ _. Unit) _
                (Yields-guarded (undone with_resolver false) _ _ (
                  Keeps-Returns _ (
                    Keeps-present (ServicesKeep content) s.services _ _ others.services
                      (λ services k.
                        ensure_services-Keeps services (codes "caddy" ∷ runtime.fpm_service ∷ [])
                          k))))
                (λ services _.
                  Yields-bind _ _ (λ _. Unit) _
                    (Yields-guarded (undone with_resolver false) _ _ (
                      Keeps-Returns _ (
                        Keeps-present (WebKeeps content) s.web _ _ others.web (λ web k.
                          k.activate (site_to_web_site site materialization.socket_path)))))
                    (λ web _. Yields-gets s.clock _ _ (λ now.
                      Yields-clocked _ s.clock
                        (result_of resolver runtime materialization services web) _
                        (Yields-guarded (undone with_resolver (is_some s.web)) _ _ (
                          retained os file laws site
                            (activated (over_registry os file s) site runtime now) all_sites found
                            refl refl refl keyed unique)))))))

  pub activate_yields :
      (stored : List SiteRecord)
      → IsKeyed stored
      → IsUnique stored
      → ((input : SiteRegistrationInput) (w : σ) (site : SiteRecord)
          → (Registry.register os file input w).0 ≡ ok site
          → LacksId site.id stored)
      → (input : SiteRegistrationInput)
      → Yields content
          (some (record { sites = stored }))
          (activate (over_registry os file s) input)
          (λ _ c. StoresUnique c)
  unfolding activate
  activate_yields stored keyed unique fresh input =
      Yields-bind _ _ (λ _. Unit) _
        (Keeps-Returns _ (resolve_runtime-Keeps s.runtimes input.php_version others.runtimes))
        (λ runtime _.
          Yields-chain _ _ Registered _ (registered runtime) (λ site c (e, lacks, unique').
            subst
              (λ c'.
                Yields content c' (provision (over_registry os file s) runtime site)
                  (λ _ c''. StoresUnique c''))
              (sym e)
              (provision_yields runtime site (stored ++ site ∷ []) (find-append stored site lacks)
                (IsKeyed-append stored site keyed lacks) unique')))
    where
      Registered : SiteRecord → Option SiteRegistryState → Type 0
      Registered site c =
          (c ≡ some (record { sites = stored ++ site ∷ [] }))
          × LacksId site.id stored
          × IsUnique (stored ++ site ∷ [])

      registered :
          (runtime : PhpRuntimeRecord)
          → Yields content
              (some (record { sites = stored }))
              (Registry.register os file (record input { php_version = runtime.version }))
              Registered
      registered runtime = record {
        at = λ w site e h.
            let (behind, unique', _) =
              register-IsUnique os file laws (record input { php_version = runtime.version }) w site
                stored e unique h in
            (behind, fresh _ w site h, unique');
      }
