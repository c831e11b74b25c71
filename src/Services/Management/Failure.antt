-- ===== src/Services/Management/Failure.antt =====
-- An update of a site that fails: daemon/internal/app/site_management.go over
-- daemon/internal/app/site_registry.go.
use lara_nux.Base.{
  Bool, true, false, ◌&&◌, not, [], ◌∷◌, ◌++◌, Option, none, some, ◌≡◌, refl, if◌then◌else◌,
  is_empty,
}
use lara_nux.Text.{Text, Unicode, codes, lit, text_eq, trim_space}
use lara_nux.Effect.Fault.{is_ok, wrap}
use lara_nux.Effect.Action.{Action, ◌>>=◌, pure, gets, try}
use lara_nux.Effect.Atomic.{Keeps, Atomic, Keeps-bind, Keeps-try, Keeps-ignore, Atomic-bind}
use lara_nux.World.{Os, StateFile, StateLaws}
use lara_nux.Sites.Record.{SiteRecord, SiteRegistryState}
use lara_nux.Sites.Registry
use lara_nux.Sites.Registry.Atomic.{get-Keeps, list-Keeps, update-Atomic}
use lara_nux.Runtimes.Registry.{PhpRuntimeRecord}
use lara_nux.Runtimes.Version.{normalize_php_version}
use lara_nux.Services.Interfaces.{PhpRuntimeMaterializer, ServiceController}
use lara_nux.Services.Keeps.{
  Present, Keeps-when, Keeps-present, WebKeeps, PhpKeeps, ServicesKeep, ensure_services-Keeps,
  resolve_runtime-Keeps, Keeps-guarded, Atomic-guarded, Atomic-map_error,
}
use lara_nux.Services.Management.{
  SiteManagementService, SiteUpdateInput, check_others, updated_name, updated_domain,
  updated_version, prepare_updated_site, change_back, known_or_derived, rollback_runtime,
  reconfigure, apply_update, update, undo_runtime, undo_update, stamped,
}
use lara_nux.Services.Management.Unique.{
  OthersKeep, over_registry, Keeps-pure, lift-Keeps, updated_root-Keeps, apply_runtime_change-Keeps,
}

module _ {σ C : Type 0} {view : σ → C} (s : SiteManagementService σ) (k : OthersKeep view s)
    ⦃u : Unicode⦄ where
  change_back-Keeps :
      (php : Option (PhpRuntimeMaterializer σ)) (services : Option (ServiceController σ))
      (previous : SiteRecord) (runtime failed_target : PhpRuntimeRecord)
      → Present (PhpKeeps view) php
      → Present (ServicesKeep view) services
      → Keeps view (change_back s php services previous runtime failed_target)
  unfolding change_back
  change_back-Keeps (some php) services previous runtime failed_target p q =
      Keeps-bind _ _ (p.switch _) (λ _. Keeps-pure _)
  change_back-Keeps none none previous runtime failed_target p q = Keeps-pure _
  change_back-Keeps none (some services) previous runtime failed_target p q =
      Keeps-bind _ _ (q.restart _) (λ _. Keeps-pure _)

  rollback_runtime-Keeps :
      (previous : SiteRecord) (target : PhpRuntimeRecord)
      → Keeps view (rollback_runtime s previous target)
  unfolding rollback_runtime
  rollback_runtime-Keeps previous target = by_test (is_empty version)
    where
      version : Text
      version = normalize_php_version previous.php_version

      by_test :
          (b : Bool)
          → Keeps view (λ w.
            (if b then pure tt else (do
              answer ← try (s.runtimes.get version)
              change_back s s.host_php s.services previous
                  (known_or_derived s version answer)
                  target))
              w)
      by_test true = Keeps-pure _
      by_test false = Keeps-bind _ _ (Keeps-try _ (k.runtimes.get version)) (λ answer.
          change_back-Keeps s.host_php s.services previous (known_or_derived s version answer)
            target k.host_php k.services)

  undo_runtime-Keeps :
      (current : SiteRecord) (target : PhpRuntimeRecord) (changed : Bool)
      → Keeps view (undo_runtime s current target changed)
  unfolding undo_runtime
  undo_runtime-Keeps current target changed =
      Keeps-ignore _ (Keeps-when changed _ (rollback_runtime-Keeps current target))

  undo_update-Keeps :
      (current : SiteRecord) (target : PhpRuntimeRecord) (changed : Bool)
      → Keeps view (undo_update s current target changed)
  unfolding undo_update
  undo_update-Keeps current target changed =
      Keeps-bind _ _
        (Keeps-ignore _ (
          Keeps-present (WebKeeps view) s.web tt _ k.web
            (λ web p. Keeps-bind _ _ (p.activate _) (λ _. Keeps-pure _))))
        (λ _. undo_runtime-Keeps current target changed)

module _ {σ : Type 0} (os : Os σ) (file : StateFile σ SiteRegistryState) (laws : StateLaws os file)
    ⦃u : Unicode⦄ (s : SiteManagementService σ) (others : OthersKeep laws.content s) where
  open laws use {content}

  others_over : OthersKeep content (over_registry os file s)
  others_over = record {
    runtimes = others.runtimes;
    services = others.services;
    host_php = others.host_php;
    web = others.web;
  }

  Atomic-gets :
      {A B : Type 0} (g : σ → A) (f : A → Action σ B)
      → ((a : A) → Atomic content (f a))
      → Atomic content (gets g >>= f)
  Atomic-gets g f k = Atomic-bind (gets g) f (record { at = λ w. refl }) k

  prepare-Keeps :
      (current : SiteRecord) (input : SiteUpdateInput)
      → Keeps content (prepare_updated_site (over_registry os file s) current input)
  unfolding prepare_updated_site
  prepare-Keeps current input =
      Keeps-bind _ _ (updated_root-Keeps s others current input.root_path) (λ root.
        Keeps-bind _ _
          (lift-Keeps (
            updated_domain (over_registry os file s) current input.domain
              (updated_name (over_registry os file s) current input.root_path root)))
          (λ domain.
            Keeps-bind _ _
              (resolve_runtime-Keeps s.runtimes
                (updated_version (over_registry os file s) current input.php_version)
                others.runtimes)
              (λ target. Keeps-bind _ _ (list-Keeps os file laws) (λ existing.
                Keeps-bind _ _
                  (lift-Keeps (
                    check_others current.id
                      (updated_name (over_registry os file s) current input.root_path root) domain
                      existing))
                  (λ _. Keeps-pure _)))))

  reconfigure-Atomic :
      (current next : SiteRecord) (target : PhpRuntimeRecord) (changed : Bool)
      → Atomic content (reconfigure (over_registry os file s) current next target changed)
  unfolding reconfigure
  reconfigure-Atomic current next target changed =
      let undo = undo_runtime (over_registry os file s) current target changed in
      let undone =
        undo_runtime-Keeps (over_registry os file s) others_over current target changed in
      Atomic-bind _ _
        (apply_runtime_change-Keeps (over_registry os file s) others_over current target)
        (λ _.
          Atomic-bind _ _
            (Keeps-guarded undo _ undone (
              Keeps-present (ServicesKeep content) s.services _ _ others.services (λ services k.
                ensure_services-Keeps services (codes "caddy" ∷ target.fpm_service ∷ []) k)))
            (λ _.
              Atomic-bind _ _
                (Keeps-guarded undo _ undone (
                  Keeps-present (WebKeeps content) s.web _ _ others.web
                    (λ web k. Keeps-bind _ _ (k.activate _) (λ _. Keeps-pure _))))
                (λ _. Atomic-gets s.clock _ (λ now.
                  Atomic-guarded (undo_update (over_registry os file s) current target changed) _
                    (undo_update-Keeps (over_registry os file s) others_over current target changed)
                    (Atomic-map_error
                      (wrap (lit "persist site update " ++ (current.id ++ lit ": "))) _
                      (update-Atomic os file laws (
                        stamped (over_registry os file s) next
                          (lit "Site updated and ready at https://"
                            ++ (next.domain ++ (lit " with PHP " ++ (target.version ++ lit "."))))
                          now)))))))

  -- Over a site registry, with other components that do not touch it, an Update of a site that
  -- fails, at whatever step, leaves the stored sites as they were.
  pub update_failure :
      (input : SiteUpdateInput) (w : σ)
      → is_ok (update (over_registry os file s) input w).0 ≡ false
      → content (update (over_registry os file s) input w).1 ≡ content w
  unfolding update apply_update
  update_failure input w h = all.at w h
    where
      by_test :
          (current next : SiteRecord) (target : PhpRuntimeRecord) (b : Bool)
          → Atomic content (
              if b
              then (gets s.clock >>= λ now. Registry.update os file (
                  stamped
                    (over_registry os file s)
                    next
                    (lit "Site metadata updated for " ++ (next.domain ++ lit "."))
                    now))
              else reconfigure
                  (over_registry os file s)
                  current
                  next
                  target
                  (not (text_eq (normalize_php_version current.php_version) target.version)))
      by_test current next target true = Atomic-gets s.clock _ (λ now. update-Atomic os file laws (
          stamped (over_registry os file s) next
            (lit "Site metadata updated for " ++ (next.domain ++ lit ".")) now))
      by_test current next target false = reconfigure-Atomic current next target _

      applied :
          (current : SiteRecord) (prepared : SiteRecord × PhpRuntimeRecord)
          → Atomic content (apply_update (over_registry os file s) current prepared)
      applied current (next, target) = by_test current next target (
          text_eq current.root_path next.root_path
          && (text_eq current.domain next.domain
              && text_eq (normalize_php_version current.php_version) target.version))

      all : Atomic content (update (over_registry os file s) input)
      all = Atomic-bind _ _ (get-Keeps os file laws (trim_space input.site_id)) (λ current.
          Atomic-bind _ _ (prepare-Keeps current input) (λ prepared. applied current prepared))
