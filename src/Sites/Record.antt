-- ===== src/Sites/Record.antt =====
-- `SiteStatus`, `SiteRecord` and `SiteRegistrationInput` of daemon/internal/app/site_registry.go. Times are nanoseconds.
use lara_nux.Base.{ℕ, List}
use lara_nux.Text.{Text}

pub data SiteStatus : Type 0 where
  ready degraded conflict : SiteStatus

pub record SiteRecord : Type 0 where
  pub id : Text
  pub name : Text
  pub root_path : Text
  pub domain : Text
  pub php_version : Text
  pub tls : Text
  pub status : SiteStatus
  pub status_message : Text
  pub created_at : ℕ
  pub updated_at : ℕ
  pub last_checked_at : ℕ

pub record SiteRegistrationInput : Type 0 where
  pub root_path : Text
  pub domain : Text
  pub php_version : Text

-- `siteRegistryState`. A state file with no list reads as the empty list.
pub record SiteRegistryState : Type 0 where
  pub sites : List SiteRecord
