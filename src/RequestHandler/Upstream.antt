-- ===== src/RequestHandler/Upstream.antt =====
-- proxy/request_handler.go: the request as it goes on to an endpoint.
use gorouter.Base.{
  ℕ, List, [], ◌∷◌, ◌++◌, Option, none, some, Text, codes, itoa, Map, map_get, map_put, text_eq,
  if◌then◌else◌,
}
use gorouter.Endpoint.{Endpoint, canonical_addr}

-- The URL's scheme and host, and the header.
pub record Outgoing : Type 0 where
  pub scheme : Text
  pub url_host : Text
  pub header : Map (List Text)

-- What is known beside the request: the host that net.SplitHostPort finds in its RemoteAddr, the
-- time in milliseconds, and what common.GenerateUUID makes.
pub record Around : Type 0 where
  pub client_ip : Option Text
  pub millis : ℕ
  pub uuid : Option Text

unfoldable pub put_header : Text → Text → Outgoing → Outgoing
put_header k v r = record r { header = map_put k (v ∷ []) r.header }

-- `strings.Join`
unfoldable pub join : List Text → Text → Text
join [] sep = []
join (t ∷ []) sep = t
join (t ∷ u ∷ ts) sep = t ++ sep ++ join (u ∷ ts) sep

unfoldable pub set_request_url : Text → Outgoing → Outgoing
set_request_url addr r = record r { scheme = codes "http"; url_host = addr }

unfoldable pub forwarded_for : Option (List Text) → Text → Text
forwarded_for none ip = ip
forwarded_for (some prior) ip = join prior (codes ", ") ++ codes ", " ++ ip

unfoldable pub set_request_x_forwarded_for : Option Text → Outgoing → Outgoing
set_request_x_forwarded_for none r = r
set_request_x_forwarded_for (some ip) r =
    let prior = map_get (codes "X-Forwarded-For") r.header in
    put_header (codes "X-Forwarded-For") (forwarded_for prior ip) r

unfoldable pub set_request_x_request_start : ℕ → Outgoing → Outgoing
set_request_x_request_start millis r = elim (map_get (codes "X-Request-Start") r.header) [
  | none ↦ put_header (codes "X-Request-Start") (itoa millis) r
  | some start ↦ r
]

unfoldable pub set_request_x_vcap_request_id : Option Text → Outgoing → Outgoing
set_request_x_vcap_request_id none r = r
set_request_x_vcap_request_id (some uuid) r = put_header (codes "X-Vcap-Request-Id") uuid r

unfoldable pub set_request_x_cf_instance_id : Endpoint → Outgoing → Outgoing
set_request_x_cf_instance_id e r =
    let value =
      if text_eq e.private_instance_id [] then canonical_addr e else e.private_instance_id in
    put_header (codes "X-Cf-Instanceid") value r

unfoldable pub setup_request : Around → Endpoint → Outgoing → Outgoing
setup_request a e r = set_request_x_vcap_request_id a.uuid (
    set_request_x_request_start a.millis
      (set_request_x_forwarded_for a.client_ip (set_request_url (canonical_addr e) r)))
