-- ===== src/Packages/Catalog.antt =====
-- The supported bundles: `supportedCatalog`, `findSupported` and `SupportedPackages` of
-- daemon/internal/host/ubuntu/packages/manager.go, and the package types of
-- daemon/internal/host/manager.go.
use lara_nux.Base.{ℕ, Bool, List, [], ◌∷◌, ◌++◌, none, some, map, find, sort}
use lara_nux.Text.{Text, Unicode, codes, lit, text_eq, text_lt, trim_space, to_lower}
use lara_nux.Effect.Fault.{Result, ok, err, sentinel, unsupported_package}

pub record SupportedPackage : Type 0 where
  pub key : Text
  pub description : Text
  pub runtime_version : Text
  pub packages : List Text

pub record PackageRequest : Type 0 where
  pub key : Text

pub record PackageReceipt : Type 0 where
  pub key : Text
  pub packages : List Text
  pub installed_at : ℕ

-- `details` is a Go map, here with its keys in the order of the calls.
pub record PackageVerification : Type 0 where
  pub key : Text
  pub verified : Bool
  pub details : List (Text × Text)

abbrev caddy_package : SupportedPackage
caddy_package = record {
  key = codes "caddy";
  description = codes "Local TLS/web server for Lara Nux sites.";
  runtime_version = [];
  packages = codes "caddy" ∷ [];
}

abbrev suffixes : List Text
suffixes =
    []
    ∷ codes "-cli"
    ∷ codes "-fpm"
    ∷ codes "-curl"
    ∷ codes "-mbstring"
    ∷ codes "-xml"
    ∷ codes "-zip"
    ∷ codes "-sqlite3"
    ∷ []

abbrev php_package : Text → SupportedPackage
php_package version = record {
  key = codes "php-" ++ version;
  description = codes "Supported PHP runtime " ++ (version ++ codes " for Laravel sites.");
  runtime_version = version;
  packages = map (λ suffix. codes "php" ++ (version ++ suffix)) suffixes;
}

abbrev pub runtime_versions : List Text
runtime_versions = codes "8.1" ∷ codes "8.2" ∷ codes "8.3" ∷ codes "8.4" ∷ []

-- `supportedCatalog`
abbrev pub supported_catalog : List SupportedPackage
supported_catalog = caddy_package ∷ map php_package runtime_versions

-- `SupportedPackages`
unfoldable pub supported_packages : List SupportedPackage
unfolding sort text_lt
supported_packages = sort (λ a b. text_lt a.key b.key) supported_catalog

-- `findSupported`
unfoldable pub find_supported : ⦃u : Unicode⦄ → Text → Result SupportedPackage
unfolding find to_lower trim_space text_eq
find_supported key =
    let normalized = to_lower (trim_space key) in
    elim (find (λ supported. text_eq supported.key normalized) supported_catalog) [
      | none ↦ err (sentinel unsupported_package (lit "unsupported package target: " ++ key))
      | some supported ↦ ok supported
    ]
