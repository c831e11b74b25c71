-- ===== src/Runtimes/Version.antt =====
-- `NormalizePHPVersion`, `PHPFPMServiceName`, `IsSupported` and `phpSocketPath` of
-- daemon/internal/app, and `firstNonEmptyString`.
use lara_nux.Base.{Bool, List, [], ◌∷◌, ◌++◌, if◌then◌else◌, is_empty, any}
use lara_nux.Text.{Text, Unicode, codes, text_eq, trim_space, to_lower, trim_prefix}

abbrev pub php : Text
php = codes "php"

abbrev pub supported_php_versions : List Text
supported_php_versions = codes "8.1" ∷ codes "8.2" ∷ codes "8.3" ∷ codes "8.4" ∷ []

-- The first value that is not blank, trimmed; nothing if all are blank.
unfoldable pub first_non_empty_string : List Text → Text
unfolding trim_space
first_non_empty_string [] = []
first_non_empty_string (value ∷ values) =
    let trimmed = trim_space value in
    let rest = first_non_empty_string values in if is_empty trimmed then rest else trimmed

module _ ⦃u : Unicode⦄ where
  unfoldable pub normalize_php_version : Text → Text
  unfolding trim_space to_lower trim_prefix
  normalize_php_version raw = trim_space (trim_prefix php (trim_space (to_lower raw)))

  unfoldable pub php_fpm_service_name : Text → Text
  unfolding normalize_php_version
  php_fpm_service_name version = php ++ (normalize_php_version version ++ codes "-fpm")

  unfoldable pub is_supported : Text → Bool
  unfolding normalize_php_version any text_eq
  is_supported version = any (text_eq (normalize_php_version version)) supported_php_versions

  unfoldable pub php_socket_path : Text → Text
  unfolding normalize_php_version
  php_socket_path version =
      let normalized = normalize_php_version version in
      if is_empty normalized
      then []
      else codes "/run/php/lara-nux-php" ++ (normalized ++ codes "-fpm.sock")
