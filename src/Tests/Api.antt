-- ===== src/Tests/Api.antt =====
-- The router at concrete requests.
use lara_nux.Base.{true, false, [], none, ◌≡◌, refl}
use lara_nux.Text.{Text, codes}
use lara_nux.Effect.Fault.{Result, ok, err, plain, sentinel, site_not_found}
use lara_nux.Effect.Action.{Action}
use lara_nux.Control.Systemd.{zero_status}
use lara_nux.Sites.Record.{SiteRegistryState}
use lara_nux.Api.Response.{error_of}
use lara_nux.Api.Requests.{Request, Decoders, RouterDependencies, sites}
use lara_nux.Api.Router.{serve}
use lara_nux.Api.Refused.{serve_refuses, is_accepted, is_refusal}
use lara_nux.Tests.Services.{one_site}

abbrev undecodable : {A : Type 0} → Text → Result A
undecodable body = err (plain (codes "EOF"))

abbrev pub no_body : Decoders
no_body = record {
  register_site = undecodable;
  update_site = undecodable;
  switch_php = undecodable;
  register_php = undecodable;
  set_default_php = undecodable;
  service_action = undecodable;
}

-- A service that changes the sites whenever it is called, and fails.
abbrev clearing : {A : Type 0} → Action SiteRegistryState A
clearing w = (err (sentinel site_not_found (codes "site not found")), record { sites = [] })

abbrev pub services : RouterDependencies SiteRegistryState
services = record {
  health_report = clearing;
  list_sites = λ w. (ok w.sites, w);
  get_site = λ id. clearing;
  activate_site = λ input. clearing;
  update_site = λ input. clearing;
  list_registered = clearing;
  default_runtime = clearing;
  set_default = λ version. clearing;
  inventory = clearing;
  onboard_runtime = λ request. clearing;
  switch_site_runtime = λ id version. clearing;
  service_action = λ service action w. ((zero_status, none), w);
}

abbrev ask : Text → Text → Request
ask method path = record { method = method; path = path; site_id = []; body = [] }

sites_listed :
    (serve no_body services (ask (codes "GET") (codes "/rpc/sites.list")) one_site).0
    ≡ record { status = 200; envelope = lara_nux.Api.Response.data_of (sites one_site.sites) }
unfolding serve
sites_listed = refl

site_missing :
    (serve no_body services (ask (codes "GET") (codes "/rpc/sites.get")) one_site).0.status ≡ 404
unfolding serve
site_missing = refl

get_of_register : is_accepted no_body (ask (codes "GET") (codes "/rpc/sites.register")) ≡ false
unfolding is_accepted
get_of_register = refl

serve_refuses_example :
    (is_refusal
        (serve no_body services (ask (codes "GET") (codes "/rpc/sites.register")) one_site).0
      ≡ true)
    × ((serve no_body services (ask (codes "GET") (codes "/rpc/sites.register")) one_site).1
        ≡ one_site)
serve_refuses_example =
    serve_refuses no_body services (ask (codes "GET") (codes "/rpc/sites.register")) one_site
      get_of_register
