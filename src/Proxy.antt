-- ===== src/Proxy.antt =====
-- proxy/proxy.go: what ServeHTTP decides for a request, up to the call that serves it.
pub mod Deciding
pub mod Routing
pub mod Sticky
pub mod Outbound
pub mod Keys
pub mod Headers
mod Tests
use gorouter.Base.{
  ℕ, List, [], ◌∷◌, ◌++◌, Option, none, some, Bool, true, false, not, ◌&&◌, ◌||◌, Text, codes,
  text_eq, to_lower, cut, strip_prefix, Map, map_get, if◌then◌else◌, ◌==◌,
}
use gorouter.Uri.{Uri}
use gorouter.Pool.{Pool, route_service_url}
use gorouter.Registry.{Registry, lookup}
use gorouter.RouteService.{
  Codec, Error, RouteServiceConfig, generate_signature_and_metadata, validate_signature,
}

-- The parts of an http.Request that are read. A header that is not there is the empty text; the
-- values of Connection are a list.
pub record Request : Type 0 where
  pub host : Text
  pub request_uri : Text
  pub proto_major : ℕ
  pub proto_minor : ℕ
  pub user_agent : Text
  pub cookies : Map Text
  pub connection : List Text
  pub upgrade : Text
  pub route_service_signature : Text
  pub route_service_metadata : Text

unfoldable pub host_without_port : Request → Text
host_without_port r = elim (cut b':' r.host) [ none ↦ r.host | some (host, port) ↦ host ]

unfoldable pub get_sticky_session : Request → Text
get_sticky_session r = elim (map_get (codes "JSESSIONID") r.cookies) [
  | none ↦ []
  | some session ↦ elim (map_get (codes "__VCAP_ID__") r.cookies) [ none ↦ [] | some id ↦ id ]
]

unfoldable pub lookup_uri : Request → Uri
lookup_uri r = host_without_port r ++ r.request_uri

unfoldable pub is_protocol_supported : Request → Bool
is_protocol_supported r = r.proto_major == 1 && (r.proto_minor == 0 || r.proto_minor == 1)

unfoldable pub is_load_balancer_heartbeat : Request → Bool
is_load_balancer_heartbeat r = text_eq r.user_agent (codes "HTTP-Monitor/1.1")

-- `strings.Contains`
abbrev starts : Text → Text → Bool
starts s p = elim (strip_prefix p s) [ none ↦ false | some rest ↦ true ]

abbrev contains : Text → Text → Bool
contains [] p = starts [] p
contains (c ∷ s) p = starts (c ∷ s) p || contains s p

abbrev any_upgrade : List Text → Bool
any_upgrade [] = false
any_upgrade (v ∷ vs) = contains (to_lower v) (codes "upgrade") || any_upgrade vs

unfoldable pub upgrade_header : Request → Text
upgrade_header r = if any_upgrade r.connection then r.upgrade else []

unfoldable pub is_web_socket_upgrade : Request → Bool
is_web_socket_upgrade r = text_eq (to_lower (upgrade_header r)) (codes "websocket")

unfoldable pub is_tcp_upgrade : Request → Bool
is_tcp_upgrade r = text_eq (upgrade_header r) (codes "tcp")

abbrev is_set : Text → Bool
is_set t = not (text_eq t [])

unfoldable pub has_been_to_route_service : Text → Text → Bool
has_been_to_route_service rs_url sig_header = is_set sig_header && is_set rs_url

-- What is called for the request, with the pool where there is one.
pub data Decision : Type 0 where
  unsupported_protocol : Decision
  heartbeat : Decision
  missing_route : Decision
  tcp_request : ℕ → Decision
  web_socket_request : ℕ → Decision
  unsupported_route_service : Decision
  bad_signature : Error → Decision
  route_service_failure : Decision
  to_route_service : Text → Decision
  to_backend : ℕ → Decision

-- `parses` says whether url.Parse accepts a text.
pub record Proxy : Type 0 where
  pub registry : Registry
  pub route_service_enabled : Bool
  pub route_service_config : RouteServiceConfig
  pub codec : Codec
  pub parses : Text → Bool

unfoldable pub forwarded_url : Request → Text
forwarded_url r = codes "http" ++ codes "://" ++ r.host ++ r.request_uri

-- buildRouteServiceArgs
unfoldable pub forward : Proxy → Request → Text → ℕ → ℕ → Decision
forward p r url now random =
    elim (generate_signature_and_metadata p.codec p.route_service_config (forwarded_url r) now
      random) [
        | none ↦ route_service_failure
        | some headers ↦ if p.parses url then to_route_service url else route_service_failure
      ]

unfoldable pub come_back : Proxy → Request → ℕ → ℕ → Decision
come_back p r v now =
    elim (validate_signature p.codec p.route_service_config r.route_service_signature
      r.route_service_metadata (forwarded_url r) now) [
        | some e ↦ bad_signature e
        | none ↦ to_backend v
      ]

unfoldable pub serve_pool : Proxy → Request → ℕ → Text → ℕ → ℕ → Decision
serve_pool p r v url now random =
    if is_tcp_upgrade r
    then tcp_request v
    else if is_web_socket_upgrade r
    then web_socket_request v
    else if is_set url && not p.route_service_enabled
    then unsupported_route_service
    else if not (is_set url)
    then to_backend v
    else if has_been_to_route_service url r.route_service_signature
    then come_back p r v now
    else forward p r url now random

-- ServeHTTP; `none` is an endless loop of Lookup.
unfoldable pub serve_http : Proxy → Request → ℕ → ℕ → Option Decision
serve_http p r now random =
    if not (is_protocol_supported r)
    then some unsupported_protocol
    else if is_load_balancer_heartbeat r
    then some heartbeat
    else elim (lookup p.registry (lookup_uri r)) [
      | none ↦ none
      | some none ↦ some missing_route
      | some (some v) ↦ some (serve_pool p r v (route_service_url (p.registry.pools v)) now random)
    ]
