-- ===== src/RequestHandler/Serving.antt =====
-- proxy/request_handler.go: the requests that are served on the hijacked connection. `dial` answers
-- whether the n-th connection is made; the clock and the random numbers are arguments too.
use gorouter.Base.{
  ℕ, zero, suc, ◌+◌, ◌*◌, List, [], ◌∷◌, ◌++◌, Option, none, some, Bool, true, false, Text, codes,
}
use gorouter.Endpoint.{Endpoint}
use gorouter.Pool.{Pool, Iterator, iterator_next, iterator_endpoint_failed}
use gorouter.RoundTrip.{max_retries}
use gorouter.RequestHandler.{
  Handler, hijack, write_status, handle_bad_gateway, status_switching_protocols, status_bad_request,
}
use gorouter.RequestHandler.Upstream.{Outgoing, Around, setup_request}

pub data Failure : Type 0 where
  hijack_failed : Failure
  no_endpoints_available : Failure
  dial_failed : Failure
  write_failed : Failure

pub data Dialed : Type 0 where
  connected : Endpoint → Dialed
  failed : Failure → Dialed

-- The connections that were tried, and the endpoint that bytes were copied from and to.
pub record Session : Type 0 where
  pub pool : Pool
  pub iter : Iterator
  pub dials : List (Endpoint × Bool)
  pub handler : Handler
  pub request : Outgoing
  pub forwarded : Option Endpoint

unfoldable pub capture_bad_gateway : Handler → Handler
capture_bad_gateway h = record h { bad_gateways = h.bad_gateways + 1 }

unfoldable pub hijacking : Session → Session
hijacking s = record s { handler = hijack s.handler }

unfoldable pub close_client : Session → Session
close_client s = record s { handler = record (s.handler) { client_closed = true } }

unfoldable pub forward_io : Endpoint → Session → Session
forward_io e s = record s { forwarded = some e }

unfoldable pub switching : Session → Session
switching s = record s { handler = record (s.handler) { log_status = status_switching_protocols } }

unfoldable pub conclude :
    (Text → ℕ × Bool) → Text → Option (Session × Option Failure) → Option Session
conclude accept message none = none
conclude accept message (some (s, none)) = some s
conclude accept message (some (s, some f)) =
    some (record s { handler = write_status accept status_bad_request message s.handler })

abbrev pub dialing : Session → Pool → Iterator → Endpoint → Bool → Session
dialing s p it e ok = record s { pool = p; iter = it; dials = s.dials ++ (e, ok) ∷ [] }

module _ (accept : Text → ℕ × Bool) (dial : ℕ → Endpoint → Bool) (clock : ℕ → ℕ)
    (random : ℕ → ℕ) where
  -- The loop of serveTcp, which that of serveWebSocket repeats, with the tries that are left and
  -- the number of this one. `none` is a panic.
  unfoldable pub dial_loop : ℕ → ℕ → Session → Option (Session × Dialed)
  dial_loop zero n s = some (s, failed dial_failed)
  dial_loop (suc left) n s = elim (iterator_next s.pool s.iter random (clock (2 * n))) [
    | none ↦ none
    | some (p, it, none) ↦ some (
      record s {
        pool = p;
        iter = it;
        handler = handle_bad_gateway accept (capture_bad_gateway s.handler);
      },
      failed no_endpoints_available,
    )
    | some (p, it, some e) ↦ elim (dial n e) [
      | true ↦ some (dialing s p it e true, connected e)
      | false ↦
          dial_loop left (n + 1)
            (dialing s (iterator_endpoint_failed p it (clock (2 * n + 1))) it e false)
    ]
  ]

  -- The first argument says whether the writer can be hijacked; the result has the error.
  unfoldable pub serve_tcp : Bool → Session → Option (Session × Option Failure)
  serve_tcp false s = some (s, some hijack_failed)
  serve_tcp true s = elim (dial_loop max_retries 0 (hijacking s)) [
    | none ↦ none
    | some (s', failed f) ↦ some (close_client s', some f)
    | some (s', connected e) ↦ some (close_client (forward_io e s'), none)
  ]

  -- `writes` says whether the request can be written to the connection.
  unfoldable pub serve_web_socket :
      Bool → Around → Bool → Session → Option (Session × Option Failure)
  serve_web_socket false around writes s = some (s, some hijack_failed)
  serve_web_socket true around writes s = elim (dial_loop max_retries 0 (hijacking s)) [
    | none ↦ none
    | some (s', failed f) ↦ some (close_client s', some f)
    | some (s', connected e) ↦
        let s1 = record s' { request = setup_request around e s'.request } in
        elim writes [
          | false ↦ some (close_client s1, some write_failed)
          | true ↦ some (close_client (forward_io e s1), none)
        ]
  ]

  unfoldable pub handle_tcp_request : Bool → Session → Option Session
  handle_tcp_request hijacks s =
      conclude accept (codes "TCP forwarding to endpoint failed.") (serve_tcp hijacks (switching s))

  unfoldable pub handle_web_socket_request : Bool → Around → Bool → Session → Option Session
  handle_web_socket_request hijacks around writes s =
      conclude accept (codes "WebSocket request to endpoint failed.")
        (serve_web_socket hijacks around writes (switching s))
