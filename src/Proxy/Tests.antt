-- ===== src/Proxy/Tests.antt =====
-- Requests to a proxy with one route.
use gorouter.Base.{
  ℕ, ◌+◌, arith, ◌≡◌, ◌≢◌, refl, text_eq_iff, List, [], ◌∷◌, none, some, true, false, Text, codes,
  cut, strip_prefix, trim_prefix, trim_suffix, lower, to_lower, map_get, map_put, map_delete, itoa,
  itoa_loop,
}
use gorouter.Uri.{uri_string, uri_to_lower, route_key, next_wildcard}
use gorouter.Pool.{new_pool, put, put_new, write, route_service_url}
use gorouter.Trie
use gorouter.Trie.{
  new_trie, find, find_path, walk, insert, insert_path, match_uri, match_path, path_of, segments,
  get,
}
use gorouter.Registry.{new_registry, write_pool, add_pool, pool_for, register, lookup, lookup_loop}
use gorouter.RouteService.{Codec, Crypto}
use gorouter.Proxy.{
  Request, Proxy, Decision, unsupported_protocol, missing_route, web_socket_request, to_backend,
  host_without_port, lookup_uri, serve_http, serve_pool, is_protocol_supported,
  has_been_to_route_service, is_load_balancer_heartbeat, upgrade_header, is_tcp_upgrade,
  is_web_socket_upgrade, get_sticky_session,
}
use gorouter.Pool.{find_by_id}
use gorouter.Pool.Samples.{a, one, last_place}
use gorouter.RequestHandler.Upstream.{
  Around, put_header, set_request_x_request_start, set_request_x_vcap_request_id,
}
use gorouter.Proxy.Outbound.{
  RouteServiceArgs, Target, header_get, delete_header, forwarding_to_route_service, point_at_source,
  setup_proxy_request,
}
use gorouter.Endpoint.{Endpoint}
use gorouter.Pool.{new_iterator}
use gorouter.Pool.Samples.{last_place-IsIntn}
use gorouter.Trie.{pool}
use gorouter.Trie.Find.{find_path-new_trie}
use gorouter.Registry.Routes.{IsFit, IsSound, key_path, new_registry-IsSound}
use gorouter.Registry.Register.{register-HasRoute}
use gorouter.RoundTrip.{Trip, round_trip, dial_error}
use gorouter.Proxy.Routing.{Routed, serve_http-Routed}
use gorouter.Proxy.Headers.{IsOutbound, setup_proxy_request-IsOutbound}
use gorouter.Proxy.Sticky.{
  ResponseCookie, session_age, sticky_cookie, setup_sticky_session, Sticks, sticky_session_lem,
}
use gorouter.Proxy.Deciding.{Admitted, serve_http-Admitted}

abbrev codec : Codec
codec = record {
  marshal_signature = λ s. s.forwarded_url;
  unmarshal_signature = λ t. none;
  marshal_metadata = λ n. n;
  unmarshal_metadata = λ t. some t;
  encode = λ t. t;
  decode = λ t. some t;
}

abbrev crypto : Crypto
crypto = record { encrypt = λ text random. none; decrypt = λ encrypted nonce. none }

abbrev registered : Endpoint
registered = record {
  ptr = 1;
  application_id = [];
  addr = codes "10.0.0.1:80";
  tags = [];
  private_instance_id = codes "a";
  stale_threshold = 0;
  route_service_url = [];
}

abbrev proxy : Proxy
proxy = record {
  registry = register (new_registry 120) (codes "foo.com") registered 99 100;
  route_service_enabled = false;
  route_service_config = record { route_service_timeout = 60; crypto = crypto; crypto_prev = none };
  codec = codec;
  parses = λ t. true;
}

abbrev request : Text → ℕ → List Text → Text → Request
request host minor connection upgrade = record {
  host = host;
  request_uri = codes "/x?a=b";
  proto_major = 1;
  proto_minor = minor;
  user_agent = [];
  cookies = (codes "__VCAP_ID__", codes "a") ∷ (codes "JSESSIONID", codes "s") ∷ [];
  connection = connection;
  upgrade = upgrade;
  route_service_signature = [];
  route_service_metadata = [];
}

abbrev plain : Request
plain = request (codes "foo.com:80") 1 [] []

abbrev Runs : Type 0
Runs =
    (serve_http proxy plain 200 3 ≡ some (to_backend 0))
    × (serve_http proxy (request (codes "bar.com") 1 [] []) 200 3 ≡ some missing_route)
    × (serve_http proxy (request (codes "foo.com") 2 [] []) 200 3 ≡ some unsupported_protocol)
    × (serve_http proxy
          (request (codes "foo.com") 1 (codes "keep-alive, Upgrade" ∷ []) (codes "WebSocket")) 200 3
        ≡ some (web_socket_request 0))
    × (get_sticky_session plain ≡ codes "a")

all_Runs : Runs
unfolding serve_http serve_pool host_without_port lookup_uri is_protocol_supported
    is_load_balancer_heartbeat upgrade_header is_tcp_upgrade is_web_socket_upgrade
    get_sticky_session route_service_url new_registry register pool_for add_pool write_pool find
    find_path walk insert insert_path new_trie path_of segments get Trie.put uri_string uri_to_lower
    route_key to_lower lower cut trim_prefix trim_suffix strip_prefix lookup lookup_loop match_uri
    match_path new_pool put put_new write map_get map_put next_wildcard
all_Runs = (refl, refl, refl, refl, refl)

serve_http-Admitted_example :
    (d : Decision) × (serve_http proxy plain 200 3 ≡ some d)
    × ((v : ℕ) → d ≡ to_backend v → Admitted proxy plain v 200)
serve_http-Admitted_example = serve_http-Admitted proxy plain 200 3

a_found : find_by_id one (codes "a") ≡ some a
unfolding find_by_id new_pool put put_new write map_get map_put
a_found = refl

a_has_id : a.private_instance_id ≢ []
a_has_id h = let t : false ≡ true = (text_eq_iff (codes "a") []).1 h in absurd cc

plain_has_session : map_get (codes "JSESSIONID") plain.cookies ≡ some (codes "s")
unfolding map_get
plain_has_session = refl

-- The application starts a session.
abbrev cookies : List ResponseCookie
cookies =
    record { name = codes "lang"; max_age = 60 }
    ∷ record { name = codes "JSESSIONID"; max_age = 0 }
    ∷ []

session_started :
    setup_sticky_session cookies a [] true (codes "/") ≡ some (sticky_cookie a true (codes "/") 0)
unfolding setup_sticky_session session_age
session_started = refl

-- An endpoint that has not changed gets no new cookie.
session_goes_on : setup_sticky_session [] a (codes "a") true (codes "/") ≡ none
unfolding setup_sticky_session session_age
session_goes_on = refl

sticky_session_lem_example :
    Sticks
      (session_age cookies)
      []
      a
      (setup_sticky_session cookies a [] true (codes "/"))
      plain
      one
      last_place
      120
sticky_session_lem_example =
    sticky_session_lem cookies a [] true (codes "/") plain (codes "s") one last_place 120
      plain_has_session a_has_id a_found

abbrev service_args : RouteServiceArgs
service_args = record {
  url_string = codes "https://rs.com";
  parsed_url = record {
    scheme = codes "https";
    host = codes "rs.com";
    opaque = [];
    raw_query = [];
  };
  signature = codes "sig";
  metadata = codes "meta";
  forwarded_url_raw = codes "http://foo.com/x";
}

abbrev around : Around
around = record { client_ip = none; millis = 7; uuid = some (codes "u") }

-- A request that has the signature of a route service.
abbrev signed : Target
signed = record {
  out = record {
    scheme = [];
    url_host = [];
    header =
        (codes "X-Cf-Proxy-Signature", codes "sig" ∷ []) ∷ (codes "Accept", codes "text" ∷ []) ∷ [];
  };
  opaque = [];
  raw_query = codes "a=b";
  host = codes "foo.com";
}

signature_left :
    (setup_proxy_request (codes "foo.com") (codes "/x?a=b") around signed service_args).out.header
    ≡ (codes "Accept", codes "text" ∷ [])
      ∷ (codes "X-Request-Start", codes "7" ∷ [])
      ∷ (codes "X-Vcap-Request-Id", codes "u" ∷ [])
      ∷ []
unfolding setup_proxy_request point_at_source header_get delete_header forwarding_to_route_service
    has_been_to_route_service set_request_x_request_start set_request_x_vcap_request_id put_header
    map_get map_put map_delete itoa itoa_loop
signature_left = refl

setup_proxy_request-IsOutbound_example :
    IsOutbound
      (codes "foo.com")
      (codes "/x?a=b")
      around
      signed
      (setup_proxy_request (codes "foo.com") (codes "/x?a=b") around signed service_args)
      service_args
setup_proxy_request-IsOutbound_example =
    setup_proxy_request-IsOutbound (codes "foo.com") (codes "/x?a=b") around signed service_args

registered-IsFit : IsFit (new_registry 120) (codes "foo.com") registered
unfolding new_registry
registered-IsFit = record {
  own = λ e.
      let t : false ≡ true = (text_eq_iff registered.private_instance_id registered.addr).1 e in
      absurd cc;
  apart = λ v at. absurd (ground (arith, find_path-new_trie {V = ℕ} (key_path (codes "foo.com"))));
  identified =
      λ v at. absurd (ground (arith, find_path-new_trie {V = ℕ} (key_path (codes "foo.com"))));
}

proxy-IsSound : IsSound proxy.registry
proxy-IsSound =
    (register-HasRoute (new_registry 120) (codes "foo.com") registered 99 100
      (new_registry-IsSound 120) registered-IsFit).0

serve_http-Routed_example :
    (s : Trip) × (round_trip
        (λ n e. dial_error)
        (λ n. 100 + n)
        last_place
        (proxy.registry.pools 0)
        (new_iterator (get_sticky_session plain))
      ≡ some s)
    × Routed proxy plain 0 s
serve_http-Routed_example =
    serve_http-Routed proxy plain 0 200 3 (λ n e. dial_error) (λ n. 100 + n) last_place
      proxy-IsSound last_place-IsIntn all_Runs.0
