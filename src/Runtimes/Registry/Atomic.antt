-- ===== src/Runtimes/Registry/Atomic.antt =====
-- A method of the runtime registry that fails leaves the stored runtimes as they were.
use lara_nux.Base.{Option}
use lara_nux.Text.{Text, Unicode}
use lara_nux.Effect.Fault.{Error}
use lara_nux.Effect.Action.{Action}
use lara_nux.Effect.Atomic.{Keeps, Atomic, atomic_rules}
use lara_nux.World.{Os, StateFile, StateLaws}
use lara_nux.Runtimes.Registry.{
  RuntimeRegistrationInput, PhpRegistryState, register, list, get, default_runtime, set_default,
}

module _ {σ : Type 0} (os : Os σ) (file : StateFile σ PhpRegistryState)
    (run : Text → Action σ (Text × Option Error)) (laws : StateLaws os file)
    (runs : (path : Text) → Keeps laws.content (run path)) ⦃u : Unicode⦄ where
  open laws use {content, content-load, content-save_failed}

  load-Keeps : Keeps content file.load
  load-Keeps = record { at = content-load }

  save-Atomic : (s : PhpRegistryState) → Atomic content (file.save s)
  save-Atomic s = record { at = content-save_failed s }

  run-Keeps : (path : Text) → Keeps content (run path)
  run-Keeps = runs

  ruleset registry_rules = (atomic_rules, load-Keeps, save-Atomic, run-Keeps)

  pub register-Atomic :
      (input : RuntimeRegistrationInput) → Atomic content (register os file run input)
  unfolding register
  register-Atomic input = search registry_rules depth 30

  pub set_default-Atomic : (version : Text) → Atomic content (set_default os file version)
  unfolding set_default
  set_default-Atomic version = search registry_rules depth 30

  pub get-Keeps : (version : Text) → Keeps content (get os file version)
  unfolding get
  get-Keeps version = search registry_rules depth 30

  pub default_runtime-Keeps : Keeps content (default_runtime os file)
  unfolding default_runtime
  default_runtime-Keeps = search registry_rules depth 30

  pub list-Keeps : Keeps content (list os file)
  unfolding list
  list-Keeps = search registry_rules depth 30
