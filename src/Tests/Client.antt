-- ===== src/Tests/Client.antt =====
-- The client at the daemon's router, at concrete requests.
use lara_nux.Base.{ℕ, true, false, not, ◌&&◌, [], ◌++◌, none, ◌≡◌, refl, is_empty}
use lara_nux.Text.{Text, codes, trim_prefix}
use lara_nux.Effect.Fault.{Result, ok, plain}
use lara_nux.Api.Response.{RpcEnvelope}
use lara_nux.Api.Requests.{Payload, sites}
use lara_nux.Api.Refused.{is_accepted}
use lara_nux.Client.Bridge.{Client, Envelope, Reply, HttpRequest, received, failed, remote, perform}
use lara_nux.Client.Served.{
  ClientCall, list_sites, get_site, arrived, base, called, called-served, is_decoded, reply_of,
  request_of, site_of, response_to, served_client,
}
use lara_nux.Client.Shell.{ShellState, new_shell, request}
use lara_nux.Client.Connected.{requested, here, next, Reach-IsShown}
use lara_nux.Tests.Services.{one_site}
use lara_nux.Tests.Api.{no_body, services}

-- JSON for the one answer that is given here.
abbrev in_words : RpcEnvelope Payload → Text
in_words e = codes "{\"ok\":true}"

abbrev from_words : Text → Result (Envelope Payload)
from_words body = ok (record { is_ok = true; content = sites one_site.sites; fault = none })

abbrev as_is : Text → Text
as_is s = s

-- The value of a query that is `siteId` with a value, or empty.
abbrev site_id_of : Text → Text
site_id_of = trim_prefix (codes "siteId=")

escaped_again : (id : Text) → site_id_of (codes "siteId=" ++ as_is id) ≡ id
unfolding trim_prefix
escaped_again id = refl

no_query : site_id_of [] ≡ []
unfolding trim_prefix
no_query = refl

listed :
    called from_words (served_client no_body services in_words site_id_of) as_is list_sites one_site
    ≡ (received (sites one_site.sites), one_site)
unfolding lara_nux.Client.Bridge.get lara_nux.Api.Router.serve arrived
listed = refl

decoded_again :
    from_words (
      in_words
        (response_to no_body services in_words site_id_of
          (request_of base as_is list_sites)
          one_site).0.envelope)
    ≡ ok (
        lara_nux.Client.Served.envelope_of
          (sites [])
          (response_to no_body services in_words site_id_of
            (request_of base as_is list_sites)
            one_site).0.envelope)
unfolding lara_nux.Api.Router.serve arrived
decoded_again = refl

called-served_example :
    (is_accepted no_body (arrived site_id_of (request_of base as_is list_sites))
      ≡ is_decoded no_body list_sites)
    × ((arrived site_id_of (request_of base as_is list_sites)).site_id ≡ site_of list_sites)
    × (called from_words
          (served_client no_body services in_words site_id_of)
          as_is
          list_sites
          one_site
        ≡ (
          reply_of
              (response_to no_body services in_words site_id_of
                (request_of base as_is list_sites)
                one_site).0,
          (response_to no_body services in_words site_id_of
              (request_of base as_is list_sites)
              one_site).1,
        ))
called-served_example =
    called-served no_body services in_words site_id_of from_words (sites []) as_is list_sites
      one_site no_query escaped_again decoded_again

-- A daemon that does not answer.
abbrev silent : ℕ → Reply ℕ × ℕ
silent w = (failed (lara_nux.Client.Bridge.local (plain (codes "connection refused"))), w)

abbrev tick : ℕ → ℕ
tick w = w

abbrev after_silence : ℕ × ShellState
after_silence = (request tick silent (3, new_shell (codes "/run/lara-nux.sock"))).1

shows_error : after_silence.1.last_error ≡ codes "connection refused"
unfolding request
shows_error = refl

Reach-IsShown_example :
    (after_silence.1.socket_path ≡ codes "/run/lara-nux.sock")
    × ((after_silence.1.connected && not (is_empty after_silence.1.last_error)) ≡ false)
Reach-IsShown_example =
    Reach-IsShown tick (codes "/run/lara-nux.sock") {w = 3} {b = after_silence}
      (next here (requested silent 3 (new_shell (codes "/run/lara-nux.sock"))))
