-- ===== src/Api/Response.antt =====
-- `rpcEnvelope`, `writeJSON`, `writeError` and `handleAppError`: daemon/internal/api/server.go.
use lara_nux.Base.{ℕ, ◌||◌, if◌then◌else◌}
use lara_nux.Text.{Text, codes}
use lara_nux.Effect.Fault.{
  Error, is, invalid_laravel_path, invalid_domain, unsupported_runtime, unverifiable_php,
  invalid_service_action, duplicate_domain, duplicate_site_name, resolver_conflict,
  activation_validation, package_verification, unsupported_package, site_not_found,
  runtime_not_found,
}

pub record RpcError : Type 0 where
  pub code : Text
  pub message : Text

-- `rpcEnvelope`, which is OK exactly if it has data.
pub data RpcEnvelope (A : Type 0) : Type 0 where
  data_of : A → RpcEnvelope A
  error_of : RpcError → RpcEnvelope A

-- The status and the envelope that are written.
pub record Response (A : Type 0) : Type 0 where
  pub status : ℕ
  pub envelope : RpcEnvelope A

module _ {A : Type 0} where
  unfoldable pub write_json : ℕ → A → Response A
  write_json status value = record { status = status; envelope = data_of value }

  unfoldable pub write_error : ℕ → Text → Text → Response A
  write_error status code message = record {
    status = status;
    envelope = error_of (record { code = code; message = message });
  }

  unfoldable pub handle_app_error : Error → Response A
  unfolding write_error is
  handle_app_error e =
      if is invalid_laravel_path e
        || (is invalid_domain e
            || (is unsupported_runtime e || (is unverifiable_php e || is invalid_service_action e)))
      then write_error 400 (codes "invalid_request") e.message
      else if is duplicate_domain e || is duplicate_site_name e
      then write_error 409 (codes "conflict") e.message
      else if is resolver_conflict e || (is activation_validation e || is package_verification e)
      then write_error 409 (codes "host_conflict") e.message
      else if is unsupported_package e
      then write_error 400 (codes "unsupported_package") e.message
      else if is site_not_found e || is runtime_not_found e
      then write_error 404 (codes "not_found") e.message
      else write_error 500 (codes "internal_error") e.message
