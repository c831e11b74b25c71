-- ===== src/Api/Outcomes.antt =====
-- What the methods of the services tell of the world behind them holds behind the handlers, which
-- answer with an error exactly if the method fails: daemon/internal/api.
use lara_nux.Base.{ℕ, Bool, true, false, not, List, [], ◌∷◌, ◌≡◌, arith, Bool-cases, inl, inr, All}
use lara_nux.Text.{Text, text_eq}
use lara_nux.Effect.Fault.{Error, Result, ok, err, is_ok}
use lara_nux.Effect.Action.{Action}
use lara_nux.Control.Systemd.{ServiceAction}
use lara_nux.Control.Manager.{succeeding}
use lara_nux.Sites.Record.{SiteRegistrationInput}
use lara_nux.Services.Management.{SiteUpdateInput}
use lara_nux.Onboarding.Service.{RuntimeRegistrationRequest}
use lara_nux.Api.Response.{Response, data_of, error_of, handle_app_error}
use lara_nux.Api.Requests.{
  Request, Decoders, RouterDependencies, Payload, report, sites, site, activation, runtimes,
  catalog, registration, service, registration_input, update_input, onboarding_request,
  service_action_of,
}
use lara_nux.Api.Router.{
  Handler, get, post, answered, respond, refuse, only, decoded, method_not_allowed, serve,
  handler_at, routes, handle_unknown, handle_health, handle_sites_list, handle_sites_get,
  handle_sites_register, handle_sites_update, handle_php_list, handle_php_default,
  handle_php_inventory, handle_php_register, handle_php_switch, handle_services_action,
}

abbrev pub is_error : Response Payload → Bool
is_error response = elim response.envelope [ data_of _ ↦ false | error_of _ ↦ true ]

handle_app_error-is_error : (e : Error) → is_error (handle_app_error e) ≡ true
unfolding handle_app_error
handle_app_error-is_error e = ground arith

module _ {σ C : Type 0} (view : σ → C) (w : σ) (P : Bool → C → Type 0) where
  -- Whether the method succeeded, and the view behind it.
  abbrev pub MethodMeets : {A : Type 0} → Action σ A → Type 0
  MethodMeets m = P (is_ok (m w).0) (view (m w).1)

  -- Whether the handler answered without an error, and the view behind it.
  abbrev pub HandlerMeets : Handler σ → Type 0
  HandlerMeets handler = P (not (is_error (handler w).0)) (view (handler w).1)

  -- The methods of the services, as the handlers call them.
  pub record AllMeet (deps : RouterDependencies σ) : Type 0 where
    pub health_report : MethodMeets deps.health_report
    pub list_sites : MethodMeets deps.list_sites
    pub get_site : (id : Text) → MethodMeets (deps.get_site id)
    pub activate_site : (input : SiteRegistrationInput) → MethodMeets (deps.activate_site input)
    pub update_site : (input : SiteUpdateInput) → MethodMeets (deps.update_site input)
    pub list_registered : MethodMeets deps.list_registered
    pub default_runtime : MethodMeets deps.default_runtime
    pub set_default : (version : Text) → MethodMeets (deps.set_default version)
    pub inventory : MethodMeets deps.inventory
    pub onboard_runtime :
        (request : RuntimeRegistrationRequest) → MethodMeets (deps.onboard_runtime request)
    pub switch_site_runtime :
        (id version : Text) → MethodMeets (deps.switch_site_runtime id version)
    pub service_action :
        (name : Text) (requested : ServiceAction)
        → MethodMeets (succeeding (deps.service_action name requested))

  respond-HandlerMeets :
      {A : Type 0} (status : ℕ) (payload : A → Payload) (m : Action σ A)
      → MethodMeets m
      → HandlerMeets (respond status payload m)
  unfolding respond answered
  respond-HandlerMeets {A} status payload m k = by_result (m w).0 k
    where
      by_result :
          (r : Result A)
          → P (is_ok r) (view (m w).1)
          → P (not (is_error (answered status payload r))) (view (m w).1)
      by_result (ok a) k = k
      by_result (err x) k = rw (handle_app_error-is_error x) k

  module _ (same : P false (view w)) where
    only-HandlerMeets :
        (method usage : Text) (r : Request) (handler : Handler σ)
        → HandlerMeets handler
        → HandlerMeets (only method usage r handler)
    unfolding only method_not_allowed refuse
    only-HandlerMeets method usage r handler k = elim (Bool-cases (text_eq r.method method)) [
      | inl e ↦ rw e k
      | inr e ↦ rw e same
    ]

    decoded-HandlerMeets :
        {R : Type 0} (d : Result R) (handler : R → Handler σ)
        → ((request : R) → HandlerMeets (handler request))
        → HandlerMeets (decoded d handler)
    unfolding decoded refuse
    decoded-HandlerMeets (ok request) handler k = k request
    decoded-HandlerMeets (err e) handler k = same

module _ {σ C : Type 0} (view : σ → C) (w : σ) (P : Bool → C → Type 0) (same : P false (view w))
    (json : Decoders) (deps : RouterDependencies σ) (k : AllMeet view w P deps) where
  default-HandlerMeets : (r : Request) → HandlerMeets view w P (handle_php_default json deps r)
  unfolding handle_php_default method_not_allowed refuse
  default-HandlerMeets r = elim (Bool-cases (text_eq r.method get)) [
    | inl e ↦ rw e (respond-HandlerMeets view w P 200 _ deps.default_runtime k.default_runtime)
    | inr e ↦ elim (Bool-cases (text_eq r.method post)) [
      | inl e' ↦
          rw (e, e')
            (decoded-HandlerMeets view w P same (json.set_default_php r.body) _ (λ request.
              respond-HandlerMeets view w P 200 _ (deps.set_default request.version)
                (k.set_default request.version)))
      | inr e' ↦ rw (e, e') same
    ]
  ]

  routes-HandlerMeets :
      (r : Request) → All (λ route. HandlerMeets view w P (route.1 r)) (routes json deps)
  unfolding handle_health handle_sites_list handle_sites_get handle_sites_register
      handle_sites_update handle_php_list handle_php_inventory handle_php_register handle_php_switch
      handle_services_action
  routes-HandlerMeets r = (
    reading _ report deps.health_report k.health_report,
    (
      reading _ sites deps.list_sites k.list_sites,
      (
        reading _ site (deps.get_site r.site_id) (k.get_site r.site_id),
        (
          writing _ (json.register_site r.body) _ (λ q.
              answering 201 activation (deps.activate_site (registration_input q))
                (k.activate_site (registration_input q))),
          (
            writing _ (json.update_site r.body) _ (λ q.
                answering 200 site (deps.update_site (update_input q))
                  (k.update_site (update_input q))),
            (
              reading _ runtimes deps.list_registered k.list_registered,
              (
                default-HandlerMeets r,
                (
                  reading _ catalog deps.inventory k.inventory,
                  (
                    writing _ (json.register_php r.body) _ (λ q.
                        answering 201 registration (deps.onboard_runtime (onboarding_request q))
                          (k.onboard_runtime (onboarding_request q))),
                    (
                      writing _ (json.switch_php r.body) _ (λ q.
                          answering 200 site (deps.switch_site_runtime q.site_id q.php_version)
                            (k.switch_site_runtime q.site_id q.php_version)),
                      (
                        writing _ (json.service_action r.body) _ (λ q.
                            answering 200 service
                              (succeeding
                                (deps.service_action q.service (service_action_of q.action)))
                              (k.service_action q.service (service_action_of q.action))),
                        tt,
                      ),
                    ),
                  ),
                ),
              ),
            ),
          ),
        ),
      ),
    ),
  )
    where
      answering :
          {A : Type 0} (status : ℕ) (payload : A → Payload) (m : Action σ A)
          → MethodMeets view w P m
          → HandlerMeets view w P (respond status payload m)
      answering {A} status payload m = respond-HandlerMeets view w P status payload m

      reading :
          {A : Type 0} (usage : Text) (payload : A → Payload) (m : Action σ A)
          → MethodMeets view w P m
          → HandlerMeets view w P (only get usage r (respond 200 payload m))
      reading {A} usage payload m h =
          only-HandlerMeets view w P same get usage r _
            (respond-HandlerMeets view w P 200 payload m h)

      writing :
          {R : Type 0} (usage : Text) (d : Result R) (handler : R → Handler σ)
          → ((request : R) → HandlerMeets view w P (handler request))
          → HandlerMeets view w P (only post usage r (decoded d handler))
      writing {R} usage d handler h =
          only-HandlerMeets view w P same post usage r _
            (decoded-HandlerMeets view w P same d handler h)

  handler_at-HandlerMeets :
      (path : Text) (hs : List (Text × (Request → Handler σ))) (r : Request)
      → All (λ route. HandlerMeets view w P (route.1 r)) hs
      → HandlerMeets view w P (handler_at json deps path hs r)
  unfolding handler_at handle_unknown refuse
  handler_at-HandlerMeets path [] r _ = same
  handler_at-HandlerMeets path ((p, handler) ∷ hs) r (h, rest) =
      elim (Bool-cases (text_eq p path)) [
        | inl e ↦ rw e h
        | inr e ↦ rw e (handler_at-HandlerMeets path hs r rest)
      ]

  pub serve-HandlerMeets : (r : Request) → HandlerMeets view w P (serve json deps r)
  unfolding serve
  serve-HandlerMeets r = handler_at-HandlerMeets r.path (routes json deps) r (routes-HandlerMeets r)
