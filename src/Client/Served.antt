-- ===== src/Client/Served.antt =====
-- The requests of the client at the router of the daemon: client/wails/bridge/daemon_client.go
-- against daemon/internal/api.
use lara_nux.Base.{Bool, true, false, [], ◌++◌, Option, none, some, ◌≡◌, refl, ◌∙◌, arith}
use lara_nux.Text.{Text, codes, trim_space, trim_prefix, cut}
use lara_nux.Effect.Fault.{Result, ok, is_ok}
use lara_nux.Api.Response.{Response, RpcEnvelope, data_of, error_of}
use lara_nux.Api.Requests.{Request, Decoders, RouterDependencies, Payload}
use lara_nux.Api.Router.{serve}
use lara_nux.Api.Refused.{is_accepted}
use lara_nux.Client.Bridge
use lara_nux.Client.Bridge.{
  Client, Envelope, HttpRequest, HttpResponse, Reply, received, failed, remote, perform,
  read_response, get_request, post_request, checked,
}

-- The methods of the client, with the payload of a POST in its encoding.
pub data ClientCall : Type 0 where
  health list_sites runtime_catalog : ClientCall
  get_site : Text → ClientCall
  register_site update_site set_default_runtime switch_site_runtime service_action :
      Text → ClientCall

abbrev pub base : Text
base = codes "http://lara-nuxd"

-- The path of a target, and its query.
abbrev parted : Text → Option (Text × Text) → Text × Text
parted target none = (target, [])
parted target (some (path, query)) = (path, query)

-- What the daemon reads of a request: the host is dropped, the query cut off, and `site_id` reads
-- the value of `siteId` in it.
unfoldable pub arrived : (Text → Text) → HttpRequest → Request
unfolding trim_prefix cut
arrived site_id r =
    let (path, query) = parted (trim_prefix base r.url) (cut b'?' (trim_prefix base r.url)) in
    record { method = r.method; path = path; site_id = site_id query; body = r.body }

module _ {T : Type 0} (decode : Text → Result (Envelope T)) {σ : Type 0} (client : Client σ)
    (escape : Text → Text) where
  -- The method that is called.
  abbrev pub called : ClientCall → σ → Reply T × σ
  called health = Bridge.health decode client
  called list_sites = Bridge.list_sites decode client
  called runtime_catalog = Bridge.runtime_catalog decode client
  called (get_site id) = Bridge.get_site decode client escape id
  called (register_site body) = Bridge.register_site decode client (ok body)
  called (update_site body) = Bridge.update_site decode client (ok body)
  called (set_default_runtime body) = Bridge.set_default_runtime decode client (ok body)
  called (switch_site_runtime body) = Bridge.switch_site_runtime decode client (ok body)
  called (service_action body) = Bridge.service_action decode client (ok body)

-- The bodies that the daemon can decode.
abbrev pub is_decoded : Decoders → ClientCall → Bool
is_decoded json health = true
is_decoded json list_sites = true
is_decoded json runtime_catalog = true
is_decoded json (get_site id) = true
is_decoded json (register_site body) = is_ok (json.register_site body)
is_decoded json (update_site body) = is_ok (json.update_site body)
is_decoded json (set_default_runtime body) = is_ok (json.set_default_php body)
is_decoded json (switch_site_runtime body) = is_ok (json.switch_php body)
is_decoded json (service_action body) = is_ok (json.service_action body)

-- The request of a method.
abbrev pub request_of : Text → (Text → Text) → ClientCall → HttpRequest
request_of url escape health = get_request url (codes "/rpc/health")
request_of url escape list_sites = get_request url (codes "/rpc/sites.list")
request_of url escape runtime_catalog = get_request url (codes "/rpc/php.inventory")
request_of url escape (get_site id) =
    get_request url (codes "/rpc/sites.get?siteId=" ++ escape (trim_space id))
request_of url escape (register_site body) = post_request url (codes "/rpc/sites.register") body
request_of url escape (update_site body) = post_request url (codes "/rpc/sites.update") body
request_of url escape (set_default_runtime body) = post_request url (codes "/rpc/php.default") body
request_of url escape (switch_site_runtime body) = post_request url (codes "/rpc/php.switch") body
request_of url escape (service_action body) = post_request url (codes "/rpc/services.action") body

accepted_as_decoded :
    (site_id escape : Text → Text) (json : Decoders) (call : ClientCall)
    → is_accepted json (arrived site_id (request_of base escape call)) ≡ is_decoded json call
unfolding is_accepted arrived
accepted_as_decoded site_id escape json health = refl
accepted_as_decoded site_id escape json list_sites = refl
accepted_as_decoded site_id escape json runtime_catalog = refl
accepted_as_decoded site_id escape json (get_site id) = refl
accepted_as_decoded site_id escape json (register_site body) = refl
accepted_as_decoded site_id escape json (update_site body) = refl
accepted_as_decoded site_id escape json (set_default_runtime body) = refl
accepted_as_decoded site_id escape json (switch_site_runtime body) = refl
accepted_as_decoded site_id escape json (service_action body) = refl

-- The id of the site that is asked for.
abbrev pub site_of : ClientCall → Text
site_of health = []
site_of list_sites = []
site_of runtime_catalog = []
site_of (get_site id) = trim_space id
site_of (register_site body) = []
site_of (update_site body) = []
site_of (set_default_runtime body) = []
site_of (switch_site_runtime body) = []
site_of (service_action body) = []

module _ (site_id escape : Text → Text) (no_query : site_id [] ≡ [])
    (escaped : (id : Text) → site_id (codes "siteId=" ++ escape id) ≡ id) where
  site_id-arrived :
      (call : ClientCall) → (arrived site_id (request_of base escape call)).site_id ≡ site_of call
  unfolding arrived
  site_id-arrived health = no_query
  site_id-arrived list_sites = no_query
  site_id-arrived runtime_catalog = no_query
  site_id-arrived (get_site id) = escaped (trim_space id)
  site_id-arrived (register_site body) = no_query
  site_id-arrived (update_site body) = no_query
  site_id-arrived (set_default_runtime body) = no_query
  site_id-arrived (switch_site_runtime body) = no_query
  site_id-arrived (service_action body) = no_query

module _ {T : Type 0} (decode : Text → Result (Envelope T)) {σ : Type 0} (client : Client σ)
    (escape : Text → Text) (valid : (url : Text) → client.new_request_error url ≡ none) where
  checked-valid :
      (request : HttpRequest) (w : σ)
      → checked decode client request w ≡ perform decode client request w
  unfolding checked
  checked-valid request w = ground (arith, valid request.url)

  called-perform :
      (call : ClientCall) (w : σ)
      → called decode client escape call w
        ≡ perform decode client (request_of client.base_url escape call) w
  unfolding Bridge.get Bridge.post
  called-perform health w = checked-valid _ w
  called-perform list_sites w = checked-valid _ w
  called-perform runtime_catalog w = checked-valid _ w
  called-perform (get_site id) w = checked-valid _ w
  called-perform (register_site body) w = checked-valid _ w
  called-perform (update_site body) w = checked-valid _ w
  called-perform (set_default_runtime body) w = checked-valid _ w
  called-perform (switch_site_runtime body) w = checked-valid _ w
  called-perform (service_action body) w = checked-valid _ w

-- An envelope as the client decodes it.
abbrev pub envelope_of : Payload → RpcEnvelope Payload → Envelope Payload
envelope_of zero (data_of a) = record { is_ok = true; content = a; fault = none }
envelope_of zero (error_of e) = record { is_ok = false; content = zero; fault = some e }

-- What the client makes of a response.
abbrev pub reply_of : Response Payload → Reply Payload
reply_of response = elim response.envelope [
  | data_of a ↦ received a
  | error_of e ↦
      failed (remote (record { status_code = response.status; code = e.code; message = e.message }))
]

module _ {σ : Type 0} (json : Decoders) (deps : RouterDependencies σ)
    (encode : RpcEnvelope Payload → Text) (site_id : Text → Text) where
  abbrev pub response_to : HttpRequest → σ → Response Payload × σ
  response_to request w = serve json deps (arrived site_id request) w

  -- A client whose requests the daemon's router answers.
  abbrev pub served_client : Client σ
  served_client = record {
    base_url = base;
    send = λ request w.
        let (response, w') = response_to request w in
        (ok (record { status_code = response.status; body = encode response.envelope }), w');
    new_request_error = λ url. none;
  }

  module _ (decode : Text → Result (Envelope Payload)) (zero : Payload) (escape : Text → Text) where
    perform-served :
        (request : HttpRequest) (w : σ)
        → decode (encode (response_to request w).0.envelope)
          ≡ ok (envelope_of zero (response_to request w).0.envelope)
        → perform decode served_client request w
          ≡ (reply_of (response_to request w).0, (response_to request w).1)
    unfolding perform read_response
    perform-served request w same = ground (arith, same)

    -- Where the query is read back as it was escaped, and the envelope of the answer is decoded
    -- to itself, a method of the client sends a request that the router of the daemon accepts
    -- exactly if it can decode the body, from which the daemon reads the trimmed id, and the
    -- method returns the data of the response to it, or its status with its error, and leaves
    -- the world of the daemon as the handler does.
    pub called-served :
        (call : ClientCall) (w : σ)
        → site_id [] ≡ []
        → ((id : Text) → site_id (codes "siteId=" ++ escape id) ≡ id)
        → decode (encode (response_to (request_of base escape call) w).0.envelope)
          ≡ ok (envelope_of zero (response_to (request_of base escape call) w).0.envelope)
        → (is_accepted json (arrived site_id (request_of base escape call)) ≡ is_decoded json call)
          × ((arrived site_id (request_of base escape call)).site_id ≡ site_of call)
          × (called decode served_client escape call w ≡ (
            reply_of (response_to (request_of base escape call) w).0,
            (response_to (request_of base escape call) w).1,
          ))
    called-served call w no_query escaped same = (
      accepted_as_decoded site_id escape json call,
      site_id-arrived site_id escape no_query escaped call,
      called-perform decode served_client escape (λ url. refl) call w
          ∙ perform-served (request_of base escape call) w same,
    )
