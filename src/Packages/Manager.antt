-- ===== src/Packages/Manager.antt =====
-- `Acquire`, `Verify` and `RefreshRuntimeInventory`: daemon/internal/host/ubuntu/packages/manager.go.
use lara_nux.Base.{
  Bool, true, false, ◌&&◌, ◌||◌, not, List, [], ◌∷◌, ◌++◌, Option, none, some, is_empty, is_some,
  sort, if◌then◌else◌,
}
use lara_nux.Text.{Text, Unicode, codes, lit, text_lt, trim_space, has_prefix, join_path}
use lara_nux.Effect.Fault.{Error, Result, ok, err, sentinel, plain, package_verification}
use lara_nux.Effect.Action.{Action, ◌>>=◌, ◌>>◌, pure, lift, gets, try}
use lara_nux.World.{FileInfo}
use lara_nux.Machine.Calls.{Machine, Environment, run_command}
use lara_nux.Fpm.Runtime.{PhpRuntime}
use lara_nux.Packages.Catalog.{
  SupportedPackage, PackageRequest, PackageReceipt, PackageVerification, supported_catalog,
  find_supported,
}

abbrev pub query : Text → List Text
query name = codes "dpkg-query" ∷ codes "-W" ∷ codes "-f=${Status}|${Version}" ∷ name ∷ []

-- What `inspectPackage` makes of the answer of dpkg-query: the status, and whether it has an error.
unfoldable pub inspected : Text × Option Error → Text × Bool
unfolding trim_space has_prefix
inspected (output, error) =
    let status = trim_space output in
    (status, is_some error || not (has_prefix (codes "install ok installed|") status))

-- What `Verify` returns: its verification, as an error if it is not verified.
unfoldable pub verification_result : PackageVerification → Result PackageVerification
verification_result v =
    if v.verified
    then ok v
    else err (
        sentinel package_verification (
          lit "package verification failed: bundle "
          ++ (v.key ++ lit " has missing or unverified packages")))

-- The runtime of a bundle.
unfoldable pub runtime_of : Text → PhpRuntime
unfolding join_path
runtime_of version = record {
  version = version;
  binary_path = join_path (codes "/usr/bin" ∷ (codes "php" ++ version) ∷ []);
  fpm_binary_path = join_path (codes "/usr/sbin" ∷ (codes "php-fpm" ++ version) ∷ []);
  service_name = codes "php" ++ (version ++ codes "-fpm");
  socket_path =
      join_path (codes "/run/php" ∷ (codes "lara-nux-php" ++ (version ++ codes "-fpm.sock")) ∷ []);
}

is_file : Result FileInfo → Bool
is_file (ok info) = not info.is_dir
is_file (err e) = false

module _ (env : Environment) where
  -- `fileExists`
  unfoldable pub file_exists : Text → Machine → Bool
  unfolding is_file
  file_exists path m = is_file (env.stat m.files m.trace path)

  -- `inspectPackage`
  unfoldable pub inspect_package : Text → Action Machine (Text × Bool)
  unfolding inspected
  inspect_package name = do answer ← run_command env (query name); pure (inspected answer)

  -- The loop of `Verify`.
  unfoldable pub inspect_each : List Text → PackageVerification → Action Machine PackageVerification
  inspect_each [] v = pure v
  inspect_each (name ∷ names) v = do
    (status, refused) ← inspect_package name
    inspect_each names (record v {
      verified = v.verified && not refused;
      details = v.details ++ ((name, status) ∷ []);
    })

  module _ ⦃u : Unicode⦄ where
    unfoldable pub verify : Text → Action Machine PackageVerification
    unfolding verification_result
    verify key = do
      supported ← lift (find_supported key)
      v ←
          inspect_each supported.packages
            (record { key = supported.key; verified = true; details = [] })
      lift (verification_result v)

    -- What `Acquire` makes of the answer of apt-get.
    unfoldable pub installed : Text → Text × Option Error → Result (Unit {0})
    unfolding trim_space
    installed key (output, none) = ok tt
    installed key (output, some e) = err (
        plain (
          lit "install package bundle "
          ++ (key ++ (lit ": " ++ (e.message ++ (lit " (" ++ (trim_space output ++ lit ")")))))))

    unfoldable pub acquire : PackageRequest → Action Machine PackageReceipt
    unfolding installed
    acquire request = do
      supported ← lift (find_supported request.key)
      answer ← run_command env (
          codes "apt-get"
          ∷ codes "install"
          ∷ codes "-y"
          ∷ codes "--no-install-recommends"
          ∷ supported.packages)
      lift (installed supported.key answer)
      v ← verify supported.key
      lift (
          if v.verified
          then ok tt
          else err (
              sentinel package_verification (
                lit "package verification failed: package bundle "
                ++ (supported.key ++ lit " did not verify after installation"))))
      installed_at ← gets (λ m. env.now m.trace)
      pure (record {
        key = supported.key;
        packages = supported.packages;
        installed_at = installed_at;
      })

    -- The runtime of a bundle that has verified, if its binaries are there.
    detected : Text → Result PackageVerification → Machine → List PhpRuntime
    unfolding file_exists runtime_of
    detected version (err e) m = []
    detected version (ok v) m =
        let runtime = runtime_of version in
        if v.verified
          && (file_exists runtime.binary_path m && file_exists runtime.fpm_binary_path m)
        then runtime ∷ []
        else []

    refresh_each : List SupportedPackage → Action Machine (List PhpRuntime)
    unfolding detected
    refresh_each [] = pure []
    refresh_each (supported ∷ rest) =
        if is_empty supported.runtime_version then refresh_each rest else do
          verified ← try (verify supported.key)
          found ← gets (detected supported.runtime_version verified)
          others ← refresh_each rest
          pure (found ++ others)

    unfoldable pub refresh_runtime_inventory : Action Machine (List PhpRuntime)
    unfolding refresh_each sort text_lt
    refresh_runtime_inventory = do
      inventory ← refresh_each supported_catalog
      pure (sort (λ a b. text_lt a.version b.version) inventory)
