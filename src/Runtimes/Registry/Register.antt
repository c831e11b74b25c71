-- ===== src/Runtimes/Registry/Register.antt =====
-- What `Register`, `SetDefault`, `Get` and `DefaultRuntime` store and return.
use lara_nux.Base.{
  true, false, ◌||◌, [], ◌∷◌, Option, none, some, ◌≡◌, refl, arith, find, is_empty, is_some,
  if◌then◌else◌,
}
use lara_nux.Text.{Text, Unicode, text_eq}
use lara_nux.Effect.Fault.{Error, Result, ok, err, is_ok}
use lara_nux.Effect.Action.{Action, ◌>>=◌, check}
use lara_nux.Effect.Atomic.{Keeps}
use lara_nux.World.{Os, StateFile, StateLaws}
use lara_nux.Runtimes.Version.{is_supported, normalize_php_version}
use lara_nux.Runtimes.Registry.{
  PhpRuntimeRecord, RuntimeRegistrationInput, PhpRegistryState, register, set_default,
  default_runtime, with_runtime, with_version,
}
use lara_nux.Runtimes.Registry.Upsert.{IsConsistent, with_runtime-IsConsistent, find-with_runtime}

abbrev blank_state : PhpRegistryState
blank_state = record { default_version = []; runtimes = [] }

abbrev state_of : Result PhpRegistryState → PhpRegistryState
state_of (ok state) = state
state_of (err e) = blank_state

module _ {σ : Type 0} (os : Os σ) (file : StateFile σ PhpRegistryState)
    (run : Text → Action σ (Text × Option Error)) (laws : StateLaws os file)
    (runs : (path : Text) → Keeps laws.content (run path)) ⦃u : Unicode⦄ where
  open laws use {content, load-content, content-load, content-save}

  load-stored : (w : σ) → is_ok (file.load w).0 ≡ true → content w ≡ some (state_of (file.load w).0)
  load-stored w h = by_result (file.load w).0 refl h
    where
      by_result :
          (r : Result PhpRegistryState)
          → (file.load w).0 ≡ r
          → is_ok r ≡ true
          → content w ≡ some (state_of r)
      by_result (ok state) e h = load-content w state e
      by_result (err e') e h = cc

  abbrev ran : Text → σ → σ
  ran path w = (run path w).1

  -- A Register of a runtime that succeeds has stored it, its version is supported, and it is the
  -- requested version if one was requested.
  pub runtime_register_stores :
      (input : RuntimeRegistrationInput) (w : σ) (state : PhpRegistryState)
      (runtime : PhpRuntimeRecord)
      → content w ≡ some state
      → (register os file run input w).0 ≡ ok runtime
      → (content (register os file run input w).1 ≡ some (with_runtime runtime state))
        × (is_supported runtime.version ≡ true)
        × ((is_empty (normalize_php_version input.version)
              || text_eq (normalize_php_version input.version) runtime.version)
            ≡ true)
  unfolding register ◌>>=◌ check
  runtime_register_stores input w state runtime s h =
      let after = ran runtime.binary_path w in
      (
        ground (
          arith,
          load-stored after,
          (runs runtime.binary_path).at w,
          content-save (with_runtime runtime state) (file.load after).1,
        ),
        ground arith,
        ground arith,
      )

  supported-ne-nil : (version : Text) → is_supported version ≡ true → is_empty version ≡ false
  supported-ne-nil [] h = unfold is_supported in cc
  supported-ne-nil (c ∷ s) h = refl

  default_found :
      (runtime : PhpRuntimeRecord) (state : PhpRegistryState)
      → is_supported runtime.version ≡ true
      → IsConsistent (with_runtime runtime state)
      → is_some (
          find
            (with_version (with_runtime runtime state).default_version)
            (with_runtime runtime state).runtimes)
        ≡ true
  unfolding with_runtime
  default_found runtime state supported c =
      ground (arith, c.default, supported-ne-nil runtime.version supported)

  -- If the stored runtimes have supported versions, no two the same, and the default, where
  -- there is one, is among them, then the same holds behind a Register that succeeds, the
  -- default is then found, the version of the new runtime finds it, and every other version
  -- finds what it found.
  pub register-IsConsistent :
      (input : RuntimeRegistrationInput) (w : σ) (state : PhpRegistryState)
      (runtime : PhpRuntimeRecord)
      → content w ≡ some state
      → IsConsistent state
      → (register os file run input w).0 ≡ ok runtime
      → (state' : PhpRegistryState) × (content (register os file run input w).1 ≡ some state')
        × IsConsistent state'
        × (is_some (find (with_version state'.default_version) state'.runtimes) ≡ true)
        × ((version : Text)
            → find (with_version version) state'.runtimes ≡ (
                if text_eq runtime.version version
                then some runtime
                else find (with_version version) state.runtimes))
  register-IsConsistent input w state runtime s c h =
      let (behind, supported, _) = runtime_register_stores input w state runtime s h in
      let c' = with_runtime-IsConsistent runtime state supported c in
      (
        with_runtime runtime state,
        behind,
        c',
        default_found runtime state supported c',
        λ version. find-with_runtime version runtime state c.distinct,
      )

  -- On a consistent registry a SetDefault that succeeds returns the stored runtime of the
  -- normalized version, changes the default alone to that version, and leaves the registry
  -- consistent.
  pub set_default_stores :
      (version : Text) (w : σ) (state : PhpRegistryState) (runtime : PhpRuntimeRecord)
      → content w ≡ some state
      → IsConsistent state
      → (set_default os file version w).0 ≡ ok runtime
      → (content (set_default os file version w).1
          ≡ some (record state { default_version = normalize_php_version version }))
        × (find (with_version (normalize_php_version version)) state.runtimes ≡ some runtime)
        × IsConsistent (record state { default_version = normalize_php_version version })
  unfolding set_default ◌>>=◌ check
  set_default_stores version w state runtime s c h =
      let default = normalize_php_version version in
      let found : find (with_version default) state.runtimes ≡ some runtime =
        ground (arith, load-stored w) in
      (
        ground (
          arith,
          load-stored w,
          content-save (record state { default_version = default }) (file.load w).1,
        ),
        found,
        record { distinct = c.distinct; supported = c.supported; default = ground (arith, found) },
      )

  -- DefaultRuntime succeeds if the stored default is not empty and is among the stored runtimes,
  -- the context is not done and the state can be read.
  default_runtime_finds :
      (w : σ) (state : PhpRegistryState)
      → content w ≡ some state
      → is_some (find (with_version state.default_version) state.runtimes) ≡ true
      → is_empty state.default_version ≡ false
      → os.done w ≡ none
      → is_ok (file.load w).0 ≡ true
      → is_ok (default_runtime os file w).0 ≡ true
  unfolding default_runtime ◌>>=◌ check
  default_runtime_finds w state s found named live read = ground (arith, load-stored w)
