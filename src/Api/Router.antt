-- ===== src/Api/Router.antt =====
-- `NewRouter` and its handlers: daemon/internal/api. A request is answered by the handler of its
-- path; `ServeMux` is taken to compare paths, without its redirects of unclean ones.
use lara_nux.Base.{ℕ, List, [], ◌∷◌, some, if◌then◌else◌}
use lara_nux.Text.{Text, codes, lit, text_eq}
use lara_nux.Effect.Fault.{Result, ok, err}
use lara_nux.Effect.Action.{Action}
use lara_nux.Control.Manager.{succeeding}
use lara_nux.Api.Response.{Response, write_json, write_error, handle_app_error}
use lara_nux.Api.Requests.{
  Request, Decoders, RouterDependencies, Payload, report, sites, site, activation, runtimes,
  runtime, catalog, registration, service, service_action_of, registration_input, update_input,
  onboarding_request, SetDefaultPhpRequest,
}

abbrev pub Handler : Type 0 → Type 0
Handler σ = σ → Response Payload × σ

unfoldable pub answered : {A : Type 0} → ℕ → (A → Payload) → Result A → Response Payload
unfolding write_json handle_app_error
answered status payload (ok a) = write_json status (payload a)
answered status payload (err e) = handle_app_error e

module _ {σ : Type 0} where
  -- Every handler ends with the call of a service, and writes its result or its error.
  unfoldable pub respond : {A : Type 0} → ℕ → (A → Payload) → Action σ A → Handler σ
  unfolding answered
  respond status payload call w = let (r, w') = call w in (answered status payload r, w')

  unfoldable pub refuse : ℕ → Text → Text → Handler σ
  unfolding write_error
  refuse status code message w = (write_error status code message, w)

  unfoldable pub method_not_allowed : Text → Handler σ
  unfolding refuse
  method_not_allowed message = refuse 405 (codes "method_not_allowed") message

  -- `if r.Method != method { … }`
  unfoldable pub only : Text → Text → Request → Handler σ → Handler σ
  unfolding method_not_allowed text_eq
  only method usage request handler =
      if text_eq request.method method then handler else method_not_allowed usage

  -- `if err := decodeJSON(r, &request); err != nil { … }`
  unfoldable pub decoded : {R : Type 0} → Result R → (R → Handler σ) → Handler σ
  unfolding refuse
  decoded (ok r) handler = handler r
  decoded (err e) handler = refuse 400 (codes "invalid_json") e.message

abbrev pub get : Text
get = codes "GET"

abbrev pub post : Text
post = codes "POST"

module _ {σ : Type 0} (json : Decoders) (deps : RouterDependencies σ) where
  unfoldable pub handle_health : Request → Handler σ
  unfolding only respond
  handle_health r = only get (lit "Use GET /rpc/health") r (respond 200 report deps.health_report)

  unfoldable pub handle_sites_list : Request → Handler σ
  unfolding only respond
  handle_sites_list r =
      only get (lit "Use GET /rpc/sites.list") r (respond 200 sites deps.list_sites)

  unfoldable pub handle_sites_get : Request → Handler σ
  unfolding only respond
  handle_sites_get r =
      only get (lit "Use GET /rpc/sites.get?siteId=<id>") r
        (respond 200 site (deps.get_site r.site_id))

  unfoldable pub handle_sites_register : Request → Handler σ
  unfolding only respond decoded registration_input
  handle_sites_register r = only post (lit "Use POST /rpc/sites.register") r (
      decoded (json.register_site r.body)
        (λ request. respond 201 activation (deps.activate_site (registration_input request))))

  unfoldable pub handle_sites_update : Request → Handler σ
  unfolding only respond decoded update_input
  handle_sites_update r = only post (lit "Use POST /rpc/sites.update") r (
      decoded (json.update_site r.body)
        (λ request. respond 200 site (deps.update_site (update_input request))))

  unfoldable pub handle_php_list : Request → Handler σ
  unfolding only respond
  handle_php_list r =
      only get (lit "Use GET /rpc/php.list") r (respond 200 runtimes deps.list_registered)

  set_default_of : SetDefaultPhpRequest → Handler σ
  unfolding respond
  set_default_of request =
      respond 200 (λ record_of. runtime (some record_of)) (deps.set_default request.version)

  unfoldable pub handle_php_default : Request → Handler σ
  unfolding respond decoded method_not_allowed text_eq set_default_of
  handle_php_default r =
      if text_eq r.method get
      then respond 200 runtime deps.default_runtime
      else if text_eq r.method post
      then decoded (json.set_default_php r.body) set_default_of
      else method_not_allowed (lit "Use GET or POST /rpc/php.default")

  unfoldable pub handle_php_inventory : Request → Handler σ
  unfolding only respond
  handle_php_inventory r =
      only get (lit "Use GET /rpc/php.inventory") r (respond 200 catalog deps.inventory)

  unfoldable pub handle_php_register : Request → Handler σ
  unfolding only respond decoded onboarding_request
  handle_php_register r = only post (lit "Use POST /rpc/php.register") r (
      decoded (json.register_php r.body)
        (λ request. respond 201 registration (deps.onboard_runtime (onboarding_request request))))

  unfoldable pub handle_php_switch : Request → Handler σ
  unfolding only respond decoded
  handle_php_switch r = only post (lit "Use POST /rpc/php.switch") r (
      decoded (json.switch_php r.body) (λ request.
        respond 200 site (deps.switch_site_runtime request.site_id request.php_version)))

  unfoldable pub handle_services_action : Request → Handler σ
  unfolding only respond decoded succeeding service_action_of
  handle_services_action r = only post (lit "Use POST /rpc/services.action") r (
      decoded (json.service_action r.body) (λ request.
        respond 200 service
          (succeeding (deps.service_action request.service (service_action_of request.action)))))

  unfoldable pub handle_unknown : Request → Handler σ
  unfolding refuse
  handle_unknown r = refuse 404 (codes "not_found") (lit "RPC endpoint not found")

  -- The handlers by their paths.
  abbrev pub routes : List (Text × (Request → Handler σ))
  routes =
      (codes "/rpc/health", handle_health)
      ∷ (codes "/rpc/sites.list", handle_sites_list)
      ∷ (codes "/rpc/sites.get", handle_sites_get)
      ∷ (codes "/rpc/sites.register", handle_sites_register)
      ∷ (codes "/rpc/sites.update", handle_sites_update)
      ∷ (codes "/rpc/php.list", handle_php_list)
      ∷ (codes "/rpc/php.default", handle_php_default)
      ∷ (codes "/rpc/php.inventory", handle_php_inventory)
      ∷ (codes "/rpc/php.register", handle_php_register)
      ∷ (codes "/rpc/php.switch", handle_php_switch)
      ∷ (codes "/rpc/services.action", handle_services_action)
      ∷ []

  unfoldable pub handler_at : Text → List (Text × (Request → Handler σ)) → Request → Handler σ
  unfolding text_eq
  handler_at path [] = handle_unknown
  handler_at path ((p, handler) ∷ rest) =
      let later = handler_at path rest in if text_eq p path then handler else later

  -- The router of `NewRouter`.
  unfoldable pub serve : Request → Handler σ
  unfolding handler_at handle_unknown handle_health handle_sites_list handle_sites_get
      handle_sites_register handle_sites_update handle_php_list handle_php_default
      handle_php_inventory handle_php_register handle_php_switch handle_services_action
  serve r = handler_at r.path routes r
