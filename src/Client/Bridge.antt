-- ===== src/Client/Bridge.antt =====
-- `RemoteError`, `Client` and its requests: client/wails/bridge/daemon_client.go. A contract type is
-- a type `T` with its decoder, which is encoding/json on the envelope of `T`.
use lara_nux.Base.{ℕ, Bool, [], ◌++◌, Option, none, some, if◌then◌else◌}
use lara_nux.Text.{Text, codes, lit, is_blank, trim_space}
use lara_nux.Effect.Fault.{Error, Result, ok, err, wrap}
use lara_nux.Effect.Action.{Action}
use lara_nux.Api.Response.{RpcError}

pub record RemoteError : Type 0 where
  pub status_code : ℕ
  pub code : Text
  pub message : Text

-- The error of a request: the daemon's answer, or what kept it from answering.
pub data ClientError : Type 0 where
  remote : RemoteError → ClientError
  local : Error → ClientError

-- `err.Error()`, of a `RemoteError` its `Error`.
unfoldable pub error_text : ClientError → Text
unfolding is_blank
error_text (remote e) = if is_blank e.code then e.message else e.code ++ (lit ": " ++ e.message)
error_text (local e) = e.message

pub data Reply (T : Type 0) : Type 0 where
  received : T → Reply T
  failed : ClientError → Reply T

-- `rpcEnvelope[T]` as it is decoded.
pub record Envelope (T : Type 0) : Type 0 where
  pub is_ok : Bool
  pub content : T
  pub fault : Option RpcError

pub record HttpRequest : Type 0 where
  pub method : Text
  pub url : Text
  pub content_type : Text
  pub body : Text

pub record HttpResponse : Type 0 where
  pub status_code : ℕ
  pub body : Text

-- `httpClient.Do` with the reading of the body, and the check of a URL by `http.NewRequest`.
pub record Client (σ : Type 0) : Type 0 where
  pub base_url : Text
  pub send : HttpRequest → Action σ HttpResponse
  pub new_request_error : Text → Option Error

remote_error : ℕ → Option RpcError → RemoteError
remote_error status none = record { status_code = status; code = []; message = [] }
remote_error status (some e) = record { status_code = status; code = e.code; message = e.message }

abbrev pub get_request : Text → Text → HttpRequest
get_request base path = record {
  method = codes "GET";
  url = base ++ path;
  content_type = [];
  body = [];
}

abbrev pub post_request : Text → Text → Text → HttpRequest
post_request base path body = record {
  method = codes "POST";
  url = base ++ path;
  content_type = codes "application/json";
  body = body;
}

module _ {T : Type 0} (decode : Text → Result (Envelope T)) where
  opened : ℕ → Result (Envelope T) → Reply T
  unfolding remote_error
  opened status (ok envelope) =
      if envelope.is_ok
      then received envelope.content
      else failed (remote (remote_error status envelope.fault))
  opened status (err e) = failed (local (wrap (lit "decode daemon response: ") e))

  unfoldable pub read_response : Result HttpResponse → Reply T
  unfolding opened
  read_response (ok response) = opened response.status_code (decode response.body)
  read_response (err e) = failed (local e)

  module _ {σ : Type 0} (client : Client σ) where
    -- `do`
    unfoldable pub perform : HttpRequest → σ → Reply T × σ
    unfolding read_response
    perform request w = let (response, w') = client.send request w in (read_response response, w')

    unfoldable pub checked : HttpRequest → σ → Reply T × σ
    unfolding perform
    checked request w =
        let sent = perform request w in
        elim (client.new_request_error request.url) [ none ↦ sent | some e ↦ (failed (local e), w) ]

    -- `get`, and `post` of a payload that has been encoded.
    unfoldable pub get : Text → σ → Reply T × σ
    unfolding checked
    get path = checked (get_request client.base_url path)

    unfoldable pub post : Text → Result Text → σ → Reply T × σ
    unfolding checked
    post path (ok body) w = checked (post_request client.base_url path body) w
    post path (err e) w = (failed (local e), w)

    abbrev pub health : σ → Reply T × σ
    health = get (codes "/rpc/health")

    abbrev pub list_sites : σ → Reply T × σ
    list_sites = get (codes "/rpc/sites.list")

    -- `escape` is `url.QueryEscape`.
    abbrev pub get_site : (Text → Text) → Text → σ → Reply T × σ
    get_site escape id = get (codes "/rpc/sites.get?siteId=" ++ escape (trim_space id))

    abbrev pub register_site : Result Text → σ → Reply T × σ
    register_site = post (codes "/rpc/sites.register")

    abbrev pub update_site : Result Text → σ → Reply T × σ
    update_site = post (codes "/rpc/sites.update")

    abbrev pub runtime_catalog : σ → Reply T × σ
    runtime_catalog = get (codes "/rpc/php.inventory")

    abbrev pub set_default_runtime : Result Text → σ → Reply T × σ
    set_default_runtime = post (codes "/rpc/php.default")

    abbrev pub switch_site_runtime : Result Text → σ → Reply T × σ
    switch_site_runtime = post (codes "/rpc/php.switch")

    abbrev pub service_action : Result Text → σ → Reply T × σ
    service_action = post (codes "/rpc/services.action")
