-- ===== src/Runtimes/Registry.antt =====
-- The methods of `PHPRegistry`, and `normalizeExecutablePath`: daemon/internal/app/php_registry.go.
pub mod Paths
pub mod Atomic
pub mod Upsert
pub mod Register
use lara_nux.Base.{
  ℕ, Bool, true, false, not, ◌&&◌, ◌||◌, List, [], ◌∷◌, ◌++◌, if◌then◌else◌, is_empty, Option, none,
  some, find, sort,
}
use lara_nux.Text.{Text, Unicode, codes, lit, text_eq, text_lt, trim_space, is_blank}
use lara_nux.Effect.Fault.{
  Error, Result, ok, err, require, sentinel, unsupported_runtime, runtime_not_found,
  unverifiable_php,
}
use lara_nux.Effect.Action.{Action, ◌>>=◌, ◌>>◌, pure, lift, gets, check, map_error}
use lara_nux.World.{Os, FileInfo, StateFile, reads}
use lara_nux.Runtimes.Registry.Paths.{unverifiable}
use lara_nux.Runtimes.Version.{normalize_php_version, php_fpm_service_name, is_supported}

pub record PhpRuntimeRecord : Type 0 where
  pub version : Text
  pub binary_path : Text
  pub fpm_service : Text
  pub source : Text
  pub registered_at : ℕ

pub record RuntimeRegistrationInput : Type 0 where
  pub version : Text
  pub binary_path : Text
  pub fpm_service : Text
  pub source : Text

pub record PhpRegistryState : Type 0 where
  pub default_version : Text
  pub runtimes : List PhpRuntimeRecord

abbrev pub unknown_runtime : Text → Error
unknown_runtime reason = sentinel runtime_not_found (lit "php runtime not found: " ++ reason)

abbrev pub with_version : Text → PhpRuntimeRecord → Bool
with_version version runtime = text_eq runtime.version version

abbrev pub by_version : PhpRuntimeRecord → PhpRuntimeRecord → Bool
by_version a b = text_lt a.version b.version

abbrev pub or_unknown : Text → Option PhpRuntimeRecord → Result PhpRuntimeRecord
or_unknown reason none = err (unknown_runtime reason)
or_unknown reason (some runtime) = ok runtime

-- The loop of `Register`: the first runtime of the version is replaced, or the record appended.
unfoldable pub upsert : PhpRuntimeRecord → List PhpRuntimeRecord → List PhpRuntimeRecord
upsert new [] = new ∷ []
upsert new (runtime ∷ runtimes) =
    let rest = upsert new runtimes in
    if text_eq runtime.version new.version then new ∷ runtimes else runtime ∷ rest

-- The state behind a registration.
unfoldable pub with_runtime : PhpRuntimeRecord → PhpRegistryState → PhpRegistryState
unfolding upsert sort text_lt
with_runtime new state = record {
  default_version = if is_empty state.default_version then new.version else state.default_version;
  runtimes = sort by_version (upsert new state.runtimes);
}

module _ {σ : Type 0} (os : Os σ) (file : StateFile σ PhpRegistryState) ⦃u : Unicode⦄ where
  -- `List`
  unfoldable pub list : Action σ (List PhpRuntimeRecord)
  list = do check os.done; state ← file.load; pure state.runtimes

  -- `Get`
  unfoldable pub get : Text → Action σ PhpRuntimeRecord
  unfolding find
  get version = do
    check os.done
    state ← file.load
    let normalized = normalize_php_version version
    lift (or_unknown normalized (find (with_version normalized) state.runtimes))

  -- `DefaultRuntime`
  unfoldable pub default_runtime : Action σ PhpRuntimeRecord
  unfolding find
  default_runtime = do
    check os.done
    state ← file.load
    lift (
        require (not (is_empty state.default_version))
          (unknown_runtime (lit "no default runtime configured")))
    lift (
        or_unknown (lit "default runtime " ++ state.default_version)
          (find (with_version state.default_version) state.runtimes))

  -- `SetDefault`
  unfoldable pub set_default : Text → Action σ PhpRuntimeRecord
  unfolding find
  set_default version = do
    check os.done
    state ← file.load
    let normalized = normalize_php_version version
    runtime ← lift (or_unknown normalized (find (with_version normalized) state.runtimes))
    file.save (record state { default_version = normalized })
    pure runtime

-- `run` executes the PHP binary at a path, so that it prints its version.
module _ {σ : Type 0} (os : Os σ) (file : StateFile σ PhpRegistryState)
    (run : Text → Action σ (Text × Option Error)) ⦃u : Unicode⦄ where
  -- What the output of the PHP binary says of its version.
  reported : Text → Text × Option Error → Result Text
  reported binary_path (output, some e) = err (
      unverifiable (
        lit "inspect php version from "
        ++ (binary_path
            ++ (lit ": " ++ (e.message ++ (lit " (" ++ (trim_space output ++ lit ")")))))))
  reported binary_path (output, none) =
      let version = normalize_php_version output in
      if is_empty version
      then err
          (unverifiable (lit "php binary " ++ (binary_path ++ lit " returned an empty version")))
      else ok version

  -- `detectRuntimeVersion`
  unfoldable pub detect_runtime_version : Text → Action σ Text
  unfolding reported
  detect_runtime_version binary_path = do
    answer ← run binary_path
    lift (reported binary_path answer)

  -- `verifyRuntime`
  unfoldable pub verify_runtime : Text → Text → Action σ Text
  unfolding detect_runtime_version
  verify_runtime requested binary_path = do
    actual ← detect_runtime_version binary_path
    lift (
        require (is_supported actual) (
          sentinel unsupported_runtime (
            lit "unsupported php runtime: detected PHP "
            ++ (actual
                ++ (lit " at " ++ (binary_path ++ lit " is outside the supported matrix"))))))
    lift (
        require (is_empty requested || text_eq requested actual) (
          unverifiable (
            lit "binary "
            ++ (binary_path
                ++ (lit " reports PHP "
                    ++ (actual ++ (lit " but " ++ (requested ++ lit " was requested"))))))))
    pure actual

  -- `Register`
  unfoldable pub register : RuntimeRegistrationInput → Action σ PhpRuntimeRecord
  unfolding verify_runtime
  register input = do
    check os.done
    binary_path ← reads (λ w. Paths.normalize_executable_path os w input.binary_path)
    version ← verify_runtime (normalize_php_version input.version) binary_path
    let service = trim_space input.fpm_service
    state ← file.load
    now ← gets os.now
    let runtime : PhpRuntimeRecord = record {
      version = version;
      binary_path = binary_path;
      fpm_service = if is_empty service then php_fpm_service_name version else service;
      source = trim_space input.source;
      registered_at = now;
    }
    file.save (with_runtime runtime state)
    pure runtime
