-- ===== src/RequestHandler/Tests.antt =====
-- The answers of the router, and sessions on a pool without and with an endpoint.
use gorouter.Base.{
  ℕ, ◌+◌, ◌≡◌, ◌⊎◌, refl, zero, suc, List, [], ◌∷◌, Option, none, some, Bool, true, false, Text,
  codes, itoa, itoa_loop, map_get, map_put, map_delete, length,
}
use gorouter.Endpoint.{Endpoint}
use gorouter.Pool.{
  Pool, new_pool, put, put_new, write, next, next_loop, start_idx, still_failed, reset_failed,
  endpoint_failed, iterator_next, initial_choice, find_by_id, iterator_endpoint_failed,
  new_iterator,
}
use gorouter.Pool.Samples.{a, bare, one, last_place}
use gorouter.ResponseWriter.{ProxyResponseWriter, new_proxy_response_writer, write_header, set_done}
use gorouter.Proxy.{missing_route, unsupported_protocol}
use gorouter.RequestHandler.{
  Handler, hijack, takes, client_gets, set_header, send, http_error, write_status, done,
  handle_missing_route, handle_bad_gateway, error_body,
}
use gorouter.RequestHandler.Upstream.{
  Outgoing, Around, setup_request, put_header, set_request_url, set_request_x_forwarded_for,
  set_request_x_request_start, set_request_x_vcap_request_id, set_request_x_cf_instance_id,
  forwarded_for, join,
}
use gorouter.RequestHandler.Serving.{
  Session, dial_loop, serve_tcp, serve_web_socket, switching, hijacking, conclude,
  handle_tcp_request, handle_web_socket_request, close_client, forward_io, capture_bad_gateway,
}
use gorouter.RequestHandler.Answers.{answer, answer-Told, Told}

abbrev accept : Text → ℕ × Bool
accept b = (length b, false)

abbrev idle_handler : Handler
idle_handler = record {
  host = codes "x.org";
  log_status = 0;
  response = new_proxy_response_writer;
  header = (codes "Connection", codes "close") ∷ [];
  close = false;
  hijacked = false;
  raw = [];
  client_closed = false;
  bad_gateways = 0;
}

abbrev request : Outgoing
request = record {
  scheme = [];
  url_host = [];
  header = (codes "X-Forwarded-For", codes "1.1.1.1" ∷ codes "2.2.2.2" ∷ []) ∷ [];
}

abbrev around : Around
around = record { client_ip = some (codes "3.3.3.3"); millis = 7; uuid = some (codes "u") }

abbrev session : Pool → Session
session p = record {
  pool = p;
  iter = new_iterator [];
  dials = [];
  handler = idle_handler;
  request = request;
  forwarded = none;
}

abbrev second_dial : ℕ → Endpoint → Bool
second_dial zero e = false
second_dial (suc n) e = true

abbrev clock : ℕ → ℕ
clock n = 200 + n

-- The status of the log, those that are sent, and the endpoint.
abbrev statuses : Option Session → Option (ℕ × List ℕ × Option Endpoint)
statuses none = none
statuses (some s) = some (s.handler.log_status, (client_gets s.handler).0, s.forwarded)

abbrev forwards : Option (List Text) → Text
forwards none = []
forwards (some ts) = join ts (codes "|")

abbrev Runs : Type 0
Runs =
    (statuses (handle_tcp_request accept second_dial clock last_place true (session one))
      ≡ some (101, [], some a))
    × (statuses (handle_tcp_request accept second_dial clock last_place true (session bare))
        ≡ some (400, [], none))
    × (statuses (handle_tcp_request accept second_dial clock last_place false (session one))
        ≡ some (400, 400 ∷ [], none))
    × (statuses (handle_tcp_request accept (λ n e. false) clock last_place true (session one))
        ≡ some (400, [], none))
    × (statuses (
          handle_web_socket_request accept second_dial clock last_place true around false
            (session one))
        ≡ some (400, [], none))
    × ((answer accept true missing_route idle_handler).response.sent
        ≡ codes "404 Not Found: Requested route ('x.org') does not exist.\n" ∷ [])
    × (forwards (map_get (codes "X-Forwarded-For") (setup_request around a request).header)
        ≡ codes "1.1.1.1, 2.2.2.2, 3.3.3.3")
    × ((setup_request around a request).url_host ≡ codes "10.0.0.1:80")
    × (forwards (map_get (codes "X-Cf-Instanceid") (set_request_x_cf_instance_id a request).header)
        ≡ codes "a")

all_Runs : Runs
unfolding handle_tcp_request handle_web_socket_request serve_tcp serve_web_socket switching
    hijacking hijack takes conclude dial_loop close_client forward_io capture_bad_gateway answer
    set_header send http_error write_status done handle_missing_route handle_bad_gateway error_body
    write_header gorouter.ResponseWriter.write write new_proxy_response_writer set_done
    setup_request put_header set_request_url set_request_x_forwarded_for set_request_x_request_start
    set_request_x_vcap_request_id set_request_x_cf_instance_id forwarded_for join new_iterator
    iterator_next initial_choice find_by_id iterator_endpoint_failed endpoint_failed next next_loop
    start_idx still_failed reset_failed new_pool put put_new map_get map_put map_delete itoa
    itoa_loop
all_Runs = (refl, refl, refl, refl, refl, refl, refl, refl, refl)

answer-Told_example :
    (Told 404 idle_handler (answer accept true missing_route idle_handler)
      × (client_gets (answer accept true missing_route idle_handler) ≡ (
        (answer accept true missing_route idle_handler).response.headers,
        (answer accept true missing_route idle_handler).response.sent,
      )))
    ⊎ ((missing_route ≡ unsupported_protocol)
        × (true ≡ true)
        × ((answer accept true missing_route idle_handler).log_status ≡ 404)
        × ((answer accept true missing_route idle_handler).response ≡ new_proxy_response_writer)
        × ((answer accept true missing_route idle_handler).raw
            ≡ codes "HTTP/1.0 400 Bad Request\r\n\r\n")
        × ((answer accept true missing_route idle_handler).client_closed ≡ true))
answer-Told_example = answer-Told accept true missing_route 404 idle_handler refl refl refl
