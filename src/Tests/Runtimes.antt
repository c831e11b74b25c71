-- ===== src/Tests/Runtimes.antt =====
-- The registry of PHP runtimes at concrete inputs.
use lara_nux.Base.{true, [], ◌∷◌, some, ◌≡◌, refl, if◌then◌else◌, find, is_some}
use lara_nux.Text.{Text, Unicode, codes, lit, text_eq}
use lara_nux.Effect.Fault.{ok}
use lara_nux.Effect.Action.{◌>>=◌, check}
use lara_nux.Runtimes.Version.{is_supported, normalize_php_version}
use lara_nux.Runtimes.Registry.{
  PhpRuntimeRecord, RuntimeRegistrationInput, PhpRegistryState, register, set_default,
  default_runtime, with_runtime, with_version,
}
use lara_nux.Runtimes.Registry.Upsert.{IsConsistent}
use lara_nux.Runtimes.Registry.Register.{register-IsConsistent, set_default_stores}
use lara_nux.Tests.Worlds.{
  ascii_only, memory_os, memory_file, memory_laws, says_83, says-Keeps, ending,
}

abbrev pub php_83 : PhpRuntimeRecord
php_83 = record {
  version = codes "8.3";
  binary_path = codes "/usr/bin/php8.3";
  fpm_service = codes "php8.3-fpm";
  source = codes "apt";
  registered_at = 5;
}

abbrev pub php_82 : PhpRuntimeRecord
php_82 = record php_83 {
  version = codes "8.2";
  binary_path = codes "/usr/bin/php8.2";
  fpm_service = codes "php8.2-fpm";
}

abbrev only_82 : PhpRegistryState
only_82 = record { default_version = codes "8.2"; runtimes = php_82 ∷ [] }

abbrev input : RuntimeRegistrationInput
input = record {
  version = codes "php8.3";
  binary_path = codes "/usr/bin/php8.3";
  fpm_service = [];
  source = codes "apt";
}

default_there : is_some (find (with_version only_82.default_version) only_82.runtimes) ≡ true
unfolding find text_eq
default_there = refl

only_82-IsConsistent : IsConsistent only_82
only_82-IsConsistent = record {
  distinct = (tt, tt);
  supported = (unfold is_supported in refl, tt);
  default = default_there;
}

php_83_registered : (register memory_os memory_file says_83 input only_82).0 ≡ ok php_83
unfolding register ◌>>=◌ check lara_nux.Runtimes.Registry.Paths.normalize_executable_path
    lara_nux.Text.trim_space ending normalize_php_version is_supported
    lara_nux.Runtimes.Version.php_fpm_service_name
php_83_registered = refl

register-IsConsistent_example :
    (state' : PhpRegistryState) × ((memory_laws {S = PhpRegistryState}).content
        (register memory_os memory_file says_83 input only_82).1
      ≡ some state')
    × IsConsistent state'
    × (is_some (find (with_version state'.default_version) state'.runtimes) ≡ true)
    × ((version : Text)
        → find (with_version version) state'.runtimes ≡ (
            if text_eq php_83.version version
            then some php_83
            else find (with_version version) only_82.runtimes))
register-IsConsistent_example =
    register-IsConsistent memory_os memory_file says_83 memory_laws says-Keeps input only_82 only_82
      php_83 refl only_82-IsConsistent php_83_registered

default_82 : (set_default memory_os memory_file (codes "PHP8.2") only_82).0 ≡ ok php_82
unfolding set_default ◌>>=◌ check text_eq normalize_php_version
default_82 = refl

set_default_stores_example :
    ((memory_laws {S = PhpRegistryState}).content
        (set_default memory_os memory_file (codes "PHP8.2") only_82).1
      ≡ some (record only_82 { default_version = normalize_php_version (codes "PHP8.2") }))
    × (find (with_version (normalize_php_version (codes "PHP8.2"))) only_82.runtimes ≡ some php_82)
    × IsConsistent (record only_82 { default_version = normalize_php_version (codes "PHP8.2") })
set_default_stores_example =
    set_default_stores memory_os memory_file says_83 memory_laws says-Keeps (codes "PHP8.2") only_82
      only_82 php_82 refl only_82-IsConsistent default_82
