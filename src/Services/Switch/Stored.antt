-- ===== src/Services/Switch/Stored.antt =====
-- What a switch of a site's runtime leaves in the site registry: daemon/internal/app/php_manager.go
-- over daemon/internal/app/site_registry.go.
use lara_nux.Base.{Bool, true, false, Option, none, some, ◌≡◌, refl, if◌then◌else◌}
use lara_nux.Text.{Text, Unicode, text_eq}
use lara_nux.Effect.Fault.{Result, ok, err, is_ok}
use lara_nux.Effect.Action.{pure}
use lara_nux.Effect.Atomic.{
  Keeps, Atomic, Keeps-bind, Keeps-try, Keeps-ignore, Keeps-map_error, Atomic-bind, Atomic-keeps,
}
use lara_nux.World.{Os, StateFile, StateLaws}
use lara_nux.Sites.Record.{SiteRecord, SiteRegistryState}
use lara_nux.Sites.Registry.Atomic.{update-Atomic, get-Keeps}
use lara_nux.Runtimes.Registry.{PhpRuntimeRecord}
use lara_nux.Services.Interfaces.{PhpRuntimeMaterializer, registry_store}
use lara_nux.Services.Keeps.{
  Present, Keeps-when, Keeps-present, WebKeeps, PhpKeeps, ServicesKeep, RuntimesKeep, Keeps-guarded,
  Atomic-guarded, Atomic-map_error,
}
use lara_nux.Services.Switch.{
  PhpManager, switch_host, switch_back, restart_previous, unpersisted, switched, perform_switch,
  switch_site_runtime,
}

pub record OthersKeep {σ C : Type 0} (view : σ → C) (m : PhpManager σ) : Type 0 where
  pub runtimes : RuntimesKeep view m.runtimes
  pub services : ServicesKeep view m.services
  pub host_php : Present (PhpKeeps view) m.host_php
  pub web : Present (WebKeeps view) m.web

Keeps-pure : {σ C A : Type 0} {view : σ → C} (a : A) → Keeps view (pure a)
Keeps-pure a = record { at = λ w. refl }

module _ {σ C : Type 0} {view : σ → C} (m : PhpManager σ) (k : OthersKeep view m) ⦃u : Unicode⦄
    (site : SiteRecord) where
  pub switch_host-Keeps :
      (php : Option (PhpRuntimeMaterializer σ)) (target : PhpRuntimeRecord)
      → Present (PhpKeeps view) php
      → Keeps view (switch_host m php site target)
  unfolding switch_host
  switch_host-Keeps none target p =
      Keeps-bind _ _ (Keeps-map_error _ _ (k.services.restart target.fpm_service))
        (λ _. Keeps-pure _)
  switch_host-Keeps (some php) target p =
      Keeps-bind _ _ (Keeps-map_error _ _ (p.switch _)) (λ _. Keeps-pure _)

  pub switch_back-Keeps : (target : PhpRuntimeRecord) → Keeps view (switch_back m site target)
  unfolding switch_back
  switch_back-Keeps target = Keeps-when _ _ (
      Keeps-present (PhpKeeps view) m.host_php tt _ k.host_php
        (λ php p. Keeps-ignore _ (p.switch _)))

  restart_previous-Keeps :
      (answer : Result PhpRuntimeRecord) → Keeps view (restart_previous m site answer)
  unfolding restart_previous
  restart_previous-Keeps (ok runtime) = Keeps-ignore _ (k.services.restart _)
  restart_previous-Keeps (err e) = Keeps-ignore _ (k.services.restart _)

  unpersisted-Keeps : Keeps view (unpersisted m site)
  unfolding unpersisted
  unpersisted-Keeps =
      Keeps-bind _ _
        (Keeps-present (WebKeeps view) m.web tt _ k.web (λ web p. Keeps-ignore _ (p.activate _)))
        (λ _.
          Keeps-when _ _ (Keeps-bind _ _ (Keeps-try _ (k.runtimes.get _)) restart_previous-Keeps))

abbrev pub over_registry :
    {σ : Type 0}
    → Os σ
    → StateFile σ SiteRegistryState
    → ⦃u : Unicode⦄ → PhpManager σ
    → PhpManager σ
over_registry os file m = record m { sites = registry_store os file }

module _ {σ : Type 0} (os : Os σ) (file : StateFile σ SiteRegistryState) (laws : StateLaws os file)
    ⦃u : Unicode⦄ (m : PhpManager σ) (others : OthersKeep laws.content m) where
  open laws use {content}

  perform_switch-Atomic :
      (site : SiteRecord) (target : PhpRuntimeRecord)
      → Atomic content (perform_switch (over_registry os file m) site target)
  unfolding perform_switch
  perform_switch-Atomic site target =
      let k : OthersKeep content (over_registry os file m) = record {
        runtimes = others.runtimes;
        services = others.services;
        host_php = others.host_php;
        web = others.web;
      } in
      Atomic-bind _ _
        (switch_host-Keeps (over_registry os file m) k site m.host_php target others.host_php)
        (λ socket.
          Atomic-bind _ _
            (Keeps-guarded (switch_back (over_registry os file m) site target) _
              (switch_back-Keeps (over_registry os file m) k site target)
              (Keeps-map_error _ _ (
                Keeps-present (WebKeeps content) m.web tt _ others.web
                  (λ web p. Keeps-bind _ _ (p.activate _) (λ _. Keeps-pure _)))))
            (λ _.
              Atomic-guarded (unpersisted (over_registry os file m) site) _
                (unpersisted-Keeps (over_registry os file m) k site)
                (Atomic-map_error _ _
                  (update-Atomic os file laws (switched (over_registry os file m) site target)))))

  -- Over a site registry, with other components that do not touch it, a SwitchSiteRuntime that
  -- fails, at whatever step, leaves the stored sites as they were.
  pub switch_failure :
      (site_id version : Text) (w : σ)
      → is_ok (switch_site_runtime (over_registry os file m) site_id version w).0 ≡ false
      → content (switch_site_runtime (over_registry os file m) site_id version w).1 ≡ content w
  unfolding switch_site_runtime
  switch_failure site_id version w h = all.at w h
    where
      chosen :
          (site : SiteRecord) (target : PhpRuntimeRecord) (same : Bool)
          → Atomic content
              (if same then pure site else perform_switch (over_registry os file m) site target)
      chosen site target true = Atomic-keeps _ (Keeps-pure site)
      chosen site target false = perform_switch-Atomic site target

      all : Atomic content (switch_site_runtime (over_registry os file m) site_id version)
      all = Atomic-bind _ _ (get-Keeps os file laws site_id) (λ site.
          Atomic-bind _ _ (others.runtimes.get version)
            (λ target. chosen site target (text_eq site.php_version target.version)))
