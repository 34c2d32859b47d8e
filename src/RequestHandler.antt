-- ===== src/RequestHandler.antt =====
-- proxy/request_handler.go: the answers that the router gives itself. What the underlying writer
-- accepts of a text, and whether it can be hijacked, are arguments.
pub mod Upstream
pub mod Serving
pub mod Dials
pub mod Answers
pub mod Endings
pub mod Sessions
mod Tests
use gorouter.Base.{
  ℕ, ◌+◌, List, [], ◌∷◌, ◌++◌, Bool, true, false, Text, codes, itoa, Map, map_put, map_delete,
  if◌then◌else◌, ltb, ◌==◌,
}
use gorouter.ResponseWriter.{ProxyResponseWriter, write_header, write, set_done, status_ok}

-- The log record's status, the response with its header, Close of the request, whether the
-- client's connection is hijacked, what was written on it then and whether it is closed, and the
-- calls of CaptureBadGateway.
pub record Handler : Type 0 where
  pub host : Text
  pub log_status : ℕ
  pub response : ProxyResponseWriter
  pub header : Map Text
  pub close : Bool
  pub hijacked : Bool
  pub raw : Text
  pub client_closed : Bool
  pub bad_gateways : ℕ

abbrev pub status_switching_protocols : ℕ
status_switching_protocols = 101

abbrev pub status_bad_request : ℕ
status_bad_request = 400

abbrev pub status_not_found : ℕ
status_not_found = 404

abbrev pub status_internal_server_error : ℕ
status_internal_server_error = 500

abbrev pub status_bad_gateway : ℕ
status_bad_gateway = 502

-- `http.StatusText` of the codes above.
abbrev pub status_text : ℕ → Text
status_text code =
    if code == status_bad_request
    then codes "Bad Request"
    else if code == status_not_found
    then codes "Not Found"
    else if code == status_internal_server_error
    then codes "Internal Server Error"
    else if code == status_bad_gateway
    then codes "Bad Gateway"
    else codes ""

-- A hijack that succeeds.
unfoldable pub hijack : Handler → Handler
hijack h = record h { hijacked = true }

-- The status lines and the texts that net/http sends of those that its writer got: after a hijack
-- it drops all of them.
abbrev pub client_gets : Handler → List ℕ × List Text
client_gets h = if h.hijacked then ([], []) else (h.response.headers, h.response.sent)

unfoldable pub set_header : Text → Text → Handler → Handler
set_header k v h = record h { header = map_put k v h.header }

-- `fmt.Sprintf("%d %s: %s", code, http.StatusText(code), message)`
unfoldable pub error_body : ℕ → Text → Text
error_body code message = itoa code ++ codes " " ++ status_text code ++ codes ": " ++ message

module _ (accept : Text → ℕ × Bool) where
  -- What Write of net/http answers: ErrHijacked after a hijack.
  unfoldable pub takes : Handler → Text → ℕ × Bool
  takes h b = if h.hijacked then (0, true) else accept b

  unfoldable pub send : ℕ → Text → Handler → Handler
  send code body h = record h { response = (write (takes h) (write_header h.response code) body).0 }

  -- `http.Error`
  unfoldable pub http_error : Text → ℕ → Handler → Handler
  http_error body code h = send code (body ++ codes "\n") (
      set_header (codes "X-Content-Type-Options") (codes "nosniff")
        (set_header (codes "Content-Type") (codes "text/plain; charset=utf-8") h))

  unfoldable pub write_status : ℕ → Text → Handler → Handler
  write_status code message h =
      let h' = http_error (error_body code message) code (record h { log_status = code }) in
      if ltb 299 code then record h' { header = map_delete (codes "Connection") h'.header } else h'

  unfoldable pub done : Handler → Handler
  done h = record h { response = set_done h.response }

  unfoldable pub handle_heartbeat : Handler → Handler
  handle_heartbeat h =
      let h' =
        set_header (codes "Expires") (codes "0")
          (set_header (codes "Cache-Control") (codes "private, max-age=0") h) in
      record (send status_ok (codes "ok\n") (record h' { log_status = status_ok })) { close = true }

  -- With whether the writer can be hijacked.
  unfoldable pub handle_unsupported_protocol : Bool → Handler → Handler
  handle_unsupported_protocol false h =
      write_status status_bad_request (codes "Unsupported protocol") h
  handle_unsupported_protocol true h = record (hijack h) {
    log_status = status_bad_request;
    raw = h.raw ++ codes "HTTP/1.0 400 Bad Request\r\n\r\n";
    client_closed = true;
  }

  unfoldable pub handle_missing_route : Handler → Handler
  handle_missing_route h =
      write_status status_not_found
        (codes "Requested route ('" ++ h.host ++ codes "') does not exist.")
        (set_header (codes "X-Cf-RouterError") (codes "unknown_route") h)

  unfoldable pub handle_bad_gateway : Handler → Handler
  handle_bad_gateway h = done (
      write_status status_bad_gateway (codes "Registered endpoint failed to handle the request.")
        (set_header (codes "X-Cf-RouterError") (codes "endpoint_failure") h))

  unfoldable pub handle_bad_signature : Handler → Handler
  handle_bad_signature h =
      done (write_status status_bad_request (codes "Failed to validate Route Service Signature") h)

  unfoldable pub handle_route_service_failure : Handler → Handler
  handle_route_service_failure h =
      done (write_status status_internal_server_error (codes "Route service request failed.") h)

  unfoldable pub handle_unsupported_route_service : Handler → Handler
  handle_unsupported_route_service h = done (
      write_status status_bad_gateway (codes "Support for route services is disabled.")
        (set_header (codes "X-Cf-RouterError") (codes "route_service_unsupported") h))
