-- ===== src/Proxy/Outbound.antt =====
-- proxy/proxy.go and route_service/route_service_config.go: the request that the reverse proxy sends
-- on. It is a copy of the request that came in and shares its header.
use gorouter.Base.{
  List, [], ◌∷◌, Option, none, some, Bool, true, false, not, ◌&&◌, Text, codes, text_eq, Map,
  map_get, map_delete,
}
use gorouter.RequestHandler.Upstream.{
  Outgoing, Around, put_header, set_request_x_request_start, set_request_x_vcap_request_id,
}
use gorouter.Proxy.{has_been_to_route_service}

-- The fields of a url.URL that are written or sent.
pub record Url : Type 0 where
  pub scheme : Text
  pub host : Text
  pub opaque : Text
  pub raw_query : Text

pub record RouteServiceArgs : Type 0 where
  pub url_string : Text
  pub parsed_url : Url
  pub signature : Text
  pub metadata : Text
  pub forwarded_url_raw : Text

-- The request, with the rest of its URL and its Host.
pub record Target : Type 0 where
  pub out : Outgoing
  pub opaque : Text
  pub raw_query : Text
  pub host : Text

abbrev pub first_value : Option (List Text) → Text
first_value none = []
first_value (some []) = []
first_value (some (v ∷ vs)) = v

-- `Header.Get`
unfoldable pub header_get : Text → Map (List Text) → Text
header_get k h = first_value (map_get k h)

unfoldable pub delete_header : Text → Outgoing → Outgoing
delete_header k r = record r { header = map_delete k r.header }

unfoldable pub forwarding_to_route_service : Text → Text → Bool
forwarding_to_route_service rs_url sig_header = text_eq sig_header [] && not (text_eq rs_url [])

unfoldable pub setup_route_service_request : Target → RouteServiceArgs → Target
setup_route_service_request t args =
    let out = put_header (codes "X-Cf-Forwarded-Url") args.forwarded_url_raw (
      put_header (codes "X-Cf-Proxy-Metadata") args.metadata
        (put_header (codes "X-Cf-Proxy-Signature") args.signature t.out)) in
    record {
      out = record out { scheme = args.parsed_url.scheme; url_host = args.parsed_url.host };
      opaque = args.parsed_url.opaque;
      raw_query = args.parsed_url.raw_query;
      host = args.parsed_url.host;
    }

-- The first lines of SetupProxyRequest: `host` and `request_uri` are those of the source.
unfoldable pub point_at_source : Text → Text → Around → Target → Target
point_at_source host request_uri a t = record t {
  out = set_request_x_vcap_request_id a.uuid (
      set_request_x_request_start a.millis
        (record t.out { scheme = codes "http"; url_host = host }));
  opaque = request_uri;
  raw_query = [];
}

unfoldable pub setup_proxy_request : Text → Text → Around → Target → RouteServiceArgs → Target
setup_proxy_request host request_uri a target args =
    let t = point_at_source host request_uri a target in
    let sig = header_get (codes "X-Cf-Proxy-Signature") t.out.header in
    elim (forwarding_to_route_service args.url_string sig) [
      | true ↦ setup_route_service_request t args
      | false ↦ elim (has_been_to_route_service args.url_string sig) [
        | true ↦ record t {
          out =
              delete_header (codes "X-Cf-Proxy-Metadata")
                (delete_header (codes "X-Cf-Proxy-Signature") t.out);
        }
        | false ↦ t
      ]
    ]
