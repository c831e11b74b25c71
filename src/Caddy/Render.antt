-- ===== src/Caddy/Render.antt =====
-- `normalizeSite` and `renderSiteConfig` of daemon/internal/host/ubuntu/caddy/manager.go, and
-- `WebSite` of daemon/internal/host/manager.go.
use lara_nux.Base.{Bool, not, [], ◌∷◌, ◌++◌, if◌then◌else◌, is_empty}
use lara_nux.Text.{Text, Unicode, codes, lit, trim_space, to_lower, clean, join_path, is_blank}
use lara_nux.Effect.Fault.{
  Error, Result, ok, err, ◌>>=◌, ◌>>◌, require, sentinel, activation_validation,
}
use lara_nux.World.{FileInfo}
use lara_nux.Caddy.Tokens.{sanitize_token, first_non_empty}

pub record WebSite : Type 0 where
  pub id : Text
  pub domain : Text
  pub root_path : Text
  pub public_dir : Text
  pub php_socket_path : Text

pub record WebActivationResult : Type 0 where
  pub config_path : Text
  pub validated : Bool
  pub reloaded : Bool
  pub http_url : Text
  pub https_url : Text

abbrev refused : Text → Error
refused reason = sentinel activation_validation (lit "activation validation failed: " ++ reason)

inspected : Result FileInfo → Result FileInfo
inspected (ok info) = ok info
inspected (err e) = err (refused (lit "inspect public directory: " ++ e.message))

module _ ⦃u : Unicode⦄ where
  -- `stat` is `os.Stat` at the time of the call.
  unfoldable pub normalize_site : (Text → Result FileInfo) → WebSite → Result WebSite
  unfolding is_blank inspected clean sanitize_token first_non_empty trim_space to_lower join_path
  normalize_site stat site = do
    require (not (is_blank site.domain)) (refused (lit "domain is required"))
    require (not (is_blank site.root_path)) (refused (lit "root path is required"))
    require (not (is_blank site.php_socket_path)) (refused (lit "php socket path is required"))
    let given = trim_space site.public_dir
    let public_dir =
        if is_empty given then join_path (site.root_path ∷ codes "public" ∷ []) else given
    info ← inspected (stat public_dir)
    require info.is_dir
        (refused (lit "public directory " ++ (public_dir ++ lit " is not a directory")))
    ok (record {
      id = sanitize_token (first_non_empty (site.id ∷ site.domain ∷ []));
      domain = to_lower (trim_space site.domain);
      root_path = clean site.root_path;
      public_dir = clean public_dir;
      php_socket_path = clean site.php_socket_path;
    })

  -- One server of the rendered configuration.
  server : Text → Text → WebSite → Text
  server scheme tls site =
      scheme
      ++ (site.domain
          ++ (lit " {\n"
              ++ (tls
                  ++ (lit "\troot * "
                      ++ (u.quote site.public_dir
                          ++ (lit "\n\tencode zstd gzip\n\tphp_fastcgi unix/"
                              ++ (site.php_socket_path ++ lit "\n\tfile_server\n}\n")))))))

  unfoldable pub render_site_config : WebSite → Text
  unfolding server
  render_site_config site =
      codes "# Managed by Lara Nux\n"
      ++ (server (codes "http://") [] site
          ++ (lit "\n" ++ server (codes "https://") (codes "\ttls internal\n") site))

  unfoldable pub site_filename : WebSite → Text
  unfolding sanitize_token first_non_empty
  site_filename site =
      sanitize_token (first_non_empty (site.id ∷ site.domain ∷ [])) ++ codes ".caddy"
