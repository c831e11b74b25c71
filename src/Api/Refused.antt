-- ===== src/Api/Refused.antt =====
-- Requests that no handler accepts reach no service: daemon/internal/api.
use lara_nux.Base.{
  Bool, true, false, ◌&&◌, ◌||◌, List, [], ◌∷◌, ◌≡◌, refl, arith, ◌==◌, Bool-cases, inl, inr,
  if◌then◌else◌,
}
use lara_nux.Text.{Text, codes, text_eq}
use lara_nux.Effect.Fault.{Result, ok, err, is_ok}
use lara_nux.Api.Response.{Response, data_of, error_of}
use lara_nux.Api.Requests.{Request, Decoders, RouterDependencies, Payload}
use lara_nux.Api.Router.{
  Handler, get, post, only, decoded, refuse, method_not_allowed, serve, handler_at, routes,
  handle_unknown, handle_health, handle_sites_list, handle_sites_get, handle_sites_register,
  handle_sites_update, handle_php_list, handle_php_default, handle_php_inventory,
  handle_php_register, handle_php_switch, handle_services_action,
}

abbrev by_get : Request → Bool
by_get r = text_eq r.method get

-- A POST with a body that can be decoded.
abbrev by_post : {R : Type 0} → (Text → Result R) → Request → Bool
by_post decode r = text_eq r.method post && is_ok (decode r.body)

-- The requests that the endpoints accept, by their paths.
abbrev tests : Decoders → List (Text × (Request → Bool))
tests json =
    (codes "/rpc/health", by_get)
    ∷ (codes "/rpc/sites.list", by_get)
    ∷ (codes "/rpc/sites.get", by_get)
    ∷ (codes "/rpc/sites.register", by_post json.register_site)
    ∷ (codes "/rpc/sites.update", by_post json.update_site)
    ∷ (codes "/rpc/php.list", by_get)
    ∷ (codes "/rpc/php.default", λ r. by_get r || by_post json.set_default_php r)
    ∷ (codes "/rpc/php.inventory", by_get)
    ∷ (codes "/rpc/php.register", by_post json.register_php)
    ∷ (codes "/rpc/php.switch", by_post json.switch_php)
    ∷ (codes "/rpc/services.action", by_post json.service_action)
    ∷ []

accepted_at : Text → List (Text × (Request → Bool)) → Request → Bool
accepted_at path [] r = false
accepted_at path ((p, test) ∷ rest) r =
    let later = accepted_at path rest r in if text_eq p path then test r else later

unfoldable pub is_accepted : Decoders → Request → Bool
unfolding accepted_at text_eq
is_accepted json r = accepted_at r.path (tests json) r

-- An error with the status of a request that was not accepted.
unfoldable pub is_refusal : Response Payload → Bool
is_refusal response = elim response.envelope [
  | data_of _ ↦ false
  | error_of _ ↦ response.status == 400 || (response.status == 404 || response.status == 405)
]

module _ {σ : Type 0} where
  -- The world is as it was, and the response refuses the request.
  abbrev pub IsUntouched : σ → Response Payload × σ → Type 0
  IsUntouched w (response, w') = (is_refusal response ≡ true) × (w' ≡ w)

  -- A handler touches nothing for a request that its test does not accept.
  abbrev Guards : (Request → Handler σ) → (Request → Bool) → Type 0
  Guards handler test = (r : Request) (w : σ) → test r ≡ false → IsUntouched w (handler r w)

  abbrev Rows : List (Text × (Request → Handler σ)) → List (Text × (Request → Bool)) → Type 0
  Rows [] [] = Unit
  Rows ((p, handler) ∷ hs) ((q, test) ∷ ts) = (p ≡ q) × (Guards handler test × Rows hs ts)
  Rows _ _ = ⊥

  only-Guards :
      (method usage : Text) (call : Request → Handler σ) (test : Request → Bool)
      → Guards call test
      → Guards (λ r. only method usage r (call r)) (λ r. text_eq r.method method && test r)
  unfolding only method_not_allowed refuse is_refusal
  only-Guards method usage call test g r w h = elim (Bool-cases (text_eq r.method method)) [
    | inl e ↦ rw e (g r w (ground (arith, h)))
    | inr e ↦ rw e (refl, refl)
  ]

  get-Guards :
      (usage : Text) (call : Request → Handler σ) → Guards (λ r. only get usage r (call r)) by_get
  unfolding only method_not_allowed refuse is_refusal
  get-Guards usage call r w h = rw h (refl, refl)

  decoded-Guards :
      {R : Type 0} (decode : Text → Result R) (handler : R → Handler σ) (r : Request) (w : σ)
      → is_ok (decode r.body) ≡ false
      → IsUntouched w (decoded (decode r.body) handler w)
  unfolding decoded refuse is_refusal
  decoded-Guards decode handler r w h = by_result (decode r.body) h
    where
      by_result : (body : Result _) → is_ok body ≡ false → IsUntouched w (decoded body handler w)
      by_result (ok a) h = cc
      by_result (err e) h = (refl, refl)

  post-Guards :
      {R : Type 0} (usage : Text) (decode : Text → Result R) (handler : R → Handler σ)
      → Guards (λ r. only post usage r (decoded (decode r.body) handler)) (by_post decode)
  post-Guards usage decode handler =
      only-Guards post usage (λ r. decoded (decode r.body) handler) (λ r. is_ok (decode r.body))
        (decoded-Guards decode handler)

module _ {σ : Type 0} (json : Decoders) (deps : RouterDependencies σ) where
  default-Guards :
      Guards (handle_php_default json deps) (λ r. by_get r || by_post json.set_default_php r)
  unfolding handle_php_default method_not_allowed refuse is_refusal
  default-Guards r w h = elim (Bool-cases (text_eq r.method get)) [
    | inl e ↦ cc
    | inr e ↦ elim (Bool-cases (text_eq r.method post)) [
      | inl e' ↦ rw (e, e') (decoded-Guards json.set_default_php _ r w (ground (arith, h)))
      | inr e' ↦ rw (e, e') (refl, refl)
    ]
  ]

  rows : Rows (routes json deps) (tests json)
  unfolding handle_health handle_sites_list handle_sites_get handle_sites_register
      handle_sites_update handle_php_list handle_php_inventory handle_php_register handle_php_switch
      handle_services_action
  rows = (
    refl,
    (
      get-Guards _ _,
      (
        refl,
        (
          get-Guards _ _,
          (
            refl,
            (
              get-Guards _ _,
              (
                refl,
                (
                  post-Guards _ json.register_site _,
                  (
                    refl,
                    (
                      post-Guards _ json.update_site _,
                      (
                        refl,
                        (
                          get-Guards _ _,
                          (
                            refl,
                            (
                              default-Guards,
                              (
                                refl,
                                (
                                  get-Guards _ _,
                                  (
                                    refl,
                                    (
                                      post-Guards _ json.register_php _,
                                      (
                                        refl,
                                        (
                                          post-Guards _ json.switch_php _,
                                          (refl, (post-Guards _ json.service_action _, tt)),
                                        ),
                                      ),
                                    ),
                                  ),
                                ),
                              ),
                            ),
                          ),
                        ),
                      ),
                    ),
                  ),
                ),
              ),
            ),
          ),
        ),
      ),
    ),
  )

  handler_at-IsUntouched :
      (path : Text) (hs : List (Text × (Request → Handler σ))) (ts : List (Text × (Request → Bool)))
      → Rows hs ts
      → (r : Request) (w : σ) → accepted_at path ts r ≡ false
      → IsUntouched w (handler_at json deps path hs r w)
  unfolding handler_at accepted_at handle_unknown refuse is_refusal
  handler_at-IsUntouched path [] [] _ r w h = (refl, refl)
  handler_at-IsUntouched path [] (t ∷ ts) rs r w h = absurd rs
  handler_at-IsUntouched path (x ∷ hs) [] rs r w h = absurd rs
  handler_at-IsUntouched path ((p, handler) ∷ hs) ((q, test) ∷ ts) (e, (g, rs)) r w h =
      elim (Bool-cases (text_eq p path)) [
        | inl here ↦ rw here (g r w (ground (arith, h, e, here)))
        | inr apart ↦
            rw apart (handler_at-IsUntouched path hs ts rs r w (ground (arith, h, e, apart)))
      ]

  -- A request that no endpoint accepts, by its path, its method or a body that cannot be
  -- decoded, is answered with an error of status 400, 404 or 405, and no service is called.
  pub serve_refuses :
      (r : Request) (w : σ)
      → is_accepted json r ≡ false
      → (is_refusal (serve json deps r w).0 ≡ true) × ((serve json deps r w).1 ≡ w)
  unfolding serve is_accepted
  serve_refuses r w h = handler_at-IsUntouched r.path (routes json deps) (tests json) rows r w h
