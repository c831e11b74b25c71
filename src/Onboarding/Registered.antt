-- ===== src/Onboarding/Registered.antt =====
-- What an onboarding that succeeds has registered: daemon/internal/app/runtime_onboarding.go.
use lara_nux.Base.{
  Bool, true, false, ◌||◌, List, [], ◌∷◌, ◌++◌, Option, none, some, ◌≡◌, refl, arith, is_empty,
  find_sound, Bool-cases, inl, inr, if◌then◌else◌,
}
use lara_nux.Text.{Text, Unicode, codes, text_eq, text_eq_iff, is_blank, to_lower, trim_space}
use lara_nux.Effect.Fault.{Error, ok}
use lara_nux.Effect.Action.{Action, pure}
use lara_nux.Effect.Atomic.{Keeps, Keeps-bind}
use lara_nux.Effect.Yields.{
  Yields, Yields-bind, Yields-chain, Yields-map, Keeps-Returns, Returns-lift, Returns-pure,
}
use lara_nux.World.{Os, StateFile, StateLaws}
use lara_nux.Runtimes.Version.{is_supported, normalize_php_version}
use lara_nux.Runtimes.Registry
use lara_nux.Runtimes.Registry.{
  PhpRuntimeRecord, RuntimeRegistrationInput, PhpRegistryState, with_runtime,
}
use lara_nux.Runtimes.Registry.Register.{runtime_register_stores}
use lara_nux.Fpm.Runtime.{PhpRuntime}
use lara_nux.Services.Keeps.{PhpKeeps, Present, Keeps-present, Keeps-when}
use lara_nux.Onboarding.Service.{
  RuntimeRegistrationRequest, RuntimeRegistrationResult, RuntimeOnboardingService, register,
  register_manually, register_from_package_inventory, materialize_if, observe_if,
  refreshed_inventory, offered, is_offered, requested_key, input_from, manual_input,
  package_runtime_key,
}

module _ ⦃u : Unicode⦄ where
  -- The version of a runtime fits what was asked for: a version, or else the key of a bundle.
  abbrev pub fits : RuntimeRegistrationRequest → Text → Bool
  fits request version =
      let target = normalize_php_version request.version in
      if is_empty target
      then is_blank request.package_key || text_eq (codes "php-" ++ version) (requested_key request)
      else text_eq target version

  to_lower-is_empty : (s : Text) → is_empty (to_lower s) ≡ is_empty s
  unfolding to_lower
  to_lower-is_empty [] = refl
  to_lower-is_empty (c ∷ s) = refl

  blank_key :
      (request : RuntimeRegistrationRequest)
      → is_empty (requested_key request) ≡ is_blank request.package_key
  unfolding requested_key is_blank
  blank_key request = to_lower-is_empty (trim_space request.package_key)

  offered-is_offered :
      (target key : Text) (inventory : List PhpRuntime) (runtime : PhpRuntime)
      → offered target key inventory ≡ ok runtime
      → is_offered target key runtime ≡ true
  unfolding offered
  offered-is_offered target key inventory runtime h =
      ground (arith, find_sound (is_offered target key) inventory {a = runtime})

  -- The version that a runtime on offer has registered under fits the request.
  offered-fits :
      (request : RuntimeRegistrationRequest) (runtime : PhpRuntime) (version : Text)
      → is_offered (normalize_php_version request.version) (requested_key request) runtime ≡ true
      → (is_empty (normalize_php_version runtime.version)
          || text_eq (normalize_php_version runtime.version) version)
        ≡ true
      → is_supported version ≡ true
      → fits request version ≡ true
  unfolding is_offered package_runtime_key
  offered-fits request runtime version on_offer stored supported =
      let target = normalize_php_version request.version in
      let offered_version = normalize_php_version runtime.version in
      let key = requested_key request in
      ground (
        arith,
        blank_key request,
        text_eq_iff offered_version target,
        text_eq_iff offered_version version,
        text_eq_iff [] key,
        text_eq_iff (codes "php-" ++ offered_version) key,
      )

-- What a component of the onboarding does to an observation.
module _ {σ C : Type 0} (view : σ → C) where
  pub record OnboardingKeeps (s : RuntimeOnboardingService σ) : Type 0 where
    pub packages : Present (λ refresh. Keeps view refresh) s.packages
    pub material : Present (PhpKeeps view) s.material
    pub services : Present (λ c. (name : Text) → Keeps view (c.status name)) s.services

module _ {σ : Type 0} (s : RuntimeOnboardingService σ) (os : Os σ)
    (file : StateFile σ PhpRegistryState) (run : Text → Action σ (Text × Option Error))
    (laws : StateLaws os file) (runs : (path : Text) → Keeps laws.content (run path))
    (others : OnboardingKeeps laws.content s) ⦃u : Unicode⦄ where
  open laws use {content}

  materialize-Keeps :
      (runtime : PhpRuntimeRecord) → Keeps content (materialize_if s os file run runtime)
  unfolding materialize_if
  materialize-Keeps runtime =
      Keeps-present (PhpKeeps content) _ _ _ others.material
        (λ m k. Keeps-bind _ _ (k.materialize _) (λ done. record { at = λ w. refl }))

  observe-Keeps : (service : Text) → Keeps content (observe_if s os file run service)
  unfolding observe_if
  observe-Keeps service = Keeps-present (PhpKeeps content) _ _ _ others.material (λ _ _.
      Keeps-present _ _ _ _ others.services (λ services k.
        Keeps-when _ _ (Keeps-bind _ _ (k service) (λ _. record { at = λ w. refl }))))

  inventory-Keeps :
      (packages : Option (Action σ (List PhpRuntime)))
      → Present (λ refresh. Keeps content refresh) packages
      → Keeps content (refreshed_inventory packages)
  unfolding refreshed_inventory
  inventory-Keeps none k = record { at = λ w. refl }
  inventory-Keeps (some refresh) k = k

  module _ (state : PhpRegistryState) where
    -- The runtime is stored and supported, and its version is the one asked for, if any was.
    abbrev Stored : Text → PhpRuntimeRecord → Option PhpRegistryState → Type 0
    Stored version runtime c =
        (c ≡ some (with_runtime runtime state))
        × (is_supported runtime.version ≡ true)
        × ((is_empty (normalize_php_version version)
              || text_eq (normalize_php_version version) runtime.version)
            ≡ true)

    registers :
        (input : RuntimeRegistrationInput)
        → Yields content (some state) (Registry.register os file run input) (Stored input.version)
    registers input = record {
      at = λ w runtime e h. runtime_register_stores os file run laws runs input w state runtime e h;
    }

    abbrev Onboarded :
        RuntimeRegistrationRequest → RuntimeRegistrationResult → Option PhpRegistryState → Type 0
    Onboarded request result c =
        (c ≡ some (with_runtime result.runtime state))
        × (is_supported result.runtime.version ≡ true)
        × (fits request result.runtime.version ≡ true)

    manual-Onboarded :
        (request : RuntimeRegistrationRequest)
        → is_blank request.package_key ≡ true
        → Yields content (some state) (register_manually s os file run request) (Onboarded request)
    unfolding register_manually manual_input
    manual-Onboarded request blank =
        Yields-chain _ _ _ _ (registers (manual_input request)) (λ runtime c stored.
          Yields-bind _ _ (λ _. Unit) _ (Keeps-Returns _ (materialize-Keeps runtime))
            (λ done _.
              Yields-bind _ _ (λ _. Unit) _ (Keeps-Returns _ (observe-Keeps runtime.fpm_service))
                (λ _ _.
                  let result : RuntimeRegistrationResult = record {
                    runtime = runtime;
                    materialization = done;
                    installed_from = [];
                    refreshed = false;
                  } in
                  Yields-map (pure result) (λ r c'. (c' ≡ c) × (r ≡ result)) (Onboarded request)
                    (λ r c' (e, e'). ground (arith, blank)) (Returns-pure result _ refl))))

    packaged-Onboarded :
        (request : RuntimeRegistrationRequest)
        → Yields content
            (some state)
            (register_from_package_inventory s os file run request)
            (Onboarded request)
    unfolding register_from_package_inventory input_from
    packaged-Onboarded request =
        let target = normalize_php_version request.version in
        let key = requested_key request in
        Yields-bind _ _ (λ _. Unit) _ (Keeps-Returns _ (inventory-Keeps s.packages others.packages))
          (λ inventory _.
            Yields-bind _ _ _ _ (Returns-lift (offered target key inventory)) (λ runtime on_offer.
              Yields-chain _ _ _ _ (registers (input_from request runtime))
                (λ stored c (e, supported, asked).
                  Yields-bind _ _ (λ _. Unit) _ (Keeps-Returns _ (materialize-Keeps stored))
                    (λ done _.
                      let result : RuntimeRegistrationResult = record {
                        runtime = stored;
                        materialization = done;
                        installed_from = key;
                        refreshed = true;
                      } in
                      let fit : fits request stored.version ≡ true =
                        offered-fits request runtime stored.version
                          (offered-is_offered target key inventory runtime on_offer) asked
                          supported in
                      Yields-map (pure result) (λ r c'. (c' ≡ c) × (r ≡ result)) (Onboarded request)
                        (λ r c' (e', e''). ground (arith, fit)) (Returns-pure result _ refl)))))

    register-Onboarded :
        (request : RuntimeRegistrationRequest)
        → Yields content (some state) (register s os file run request) (Onboarded request)
    unfolding register
    register-Onboarded request = elim (Bool-cases (is_blank request.package_key)) [
      | inl blank ↦ rw blank (manual-Onboarded request blank)
      | inr keyed ↦ rw keyed (packaged-Onboarded request)
    ]

    -- Where the other components do not touch the runtime registry, a Register of the onboarding
    -- that succeeds has stored the runtime of its result, the version of which is supported and
    -- is the requested version; where no version but a package key was given, the key names the
    -- version.
    pub onboarding_registers :
        (request : RuntimeRegistrationRequest) (w : σ) (result : RuntimeRegistrationResult)
        → content w ≡ some state
        → (register s os file run request w).0 ≡ ok result
        → (content (register s os file run request w).1 ≡ some (with_runtime result.runtime state))
          × (is_supported result.runtime.version ≡ true)
          × (fits request result.runtime.version ≡ true)
    onboarding_registers request w result e h = (register-Onboarded request).at w result e h
