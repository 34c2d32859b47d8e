-- ===== src/RequestHandler/Endings.antt =====
-- proxy/request_handler.go: the ways in which a session can end, and what is sent and logged for it.
use gorouter.Base.{
  ap, ℕ, ◌+◌, ◌≤◌, ◌≡◌, ◌⊎◌, refl, ◌∙◌, [], ◌∷◌, none, some, Bool, true, false, Text, arith, length,
}
use gorouter.Endpoint.{Endpoint}
use gorouter.Pool.Invariant.{IsValid, IsLive}
use gorouter.Pool.Next.{Frame}
use gorouter.RoundTrip.{max_retries}
use gorouter.ResponseWriter.{new_proxy_response_writer}
use gorouter.RequestHandler.{
  hijack, client_gets, write_status, handle_bad_gateway, status_switching_protocols,
  status_bad_request, status_bad_gateway,
}
use gorouter.RequestHandler.Answers.{
  Told, write_status-Told, write_status-done, write_status_hijacked, handle_bad_gateway-Told,
  handle_bad_gateway_hijacked,
}
use gorouter.RequestHandler.Upstream.{Around, setup_request}
use gorouter.RequestHandler.Serving.{
  Session, Failure, no_endpoints_available, hijack_failed, hijacking, capture_bad_gateway,
  close_client, switching, conclude,
}

-- A request whose connection could not be hijacked: 400 is sent, reaches the client, and is logged.
abbrev pub Refused : Session → Session → Type 0
Refused s s' =
    Told status_bad_request s.handler s'.handler
    × (client_gets s'.handler ≡ (status_bad_request ∷ [], s'.handler.response.sent))
    × (s'.forwarded ≡ none)

-- A request that failed on the hijacked connection: the client gets nothing, neither as a response
-- nor on the connection, which is closed, and 400 is logged.
abbrev pub Lost : Session → Session → Type 0
Lost s s' =
    (client_gets s'.handler ≡ ([], []))
    × (s'.handler.response.size ≡ 0)
    × (s'.handler.raw ≡ s.handler.raw)
    × (s'.handler.client_closed ≡ true)
    × (s'.handler.log_status ≡ status_bad_request)
    × (s'.forwarded ≡ none)

-- The 502 for a pool without endpoints is written on the response after the hijack.
abbrev pub Bare : Session → Session → Type 0
Bare s s' =
    (s.pool.endpoints ≡ [])
    × (s'.dials ≡ [])
    × (s'.handler.response.headers ≡ status_bad_gateway ∷ [])
    × (s'.handler.bad_gateways ≡ s.handler.bad_gateways + 1)
    × Lost s s'

-- Bytes are copied from and to an endpoint of the pool, and nothing is sent by the router.
abbrev pub Forwards : Session → Session → Endpoint → Type 0
Forwards s s' e =
    ((r : ℕ) × IsLive s.pool r × ((s.pool.heap r).endpoint ≡ e))
    × (s'.forwarded ≡ some e)
    × (s'.handler.log_status ≡ status_switching_protocols)
    × (s'.handler.response ≡ s.handler.response)
    × (client_gets s'.handler ≡ ([], []))
    × (s'.handler.client_closed ≡ true)

-- A session that can start.
pub record IsFresh (s : Session) : Type 0 where
  pub valid : IsValid s.pool
  pub dials : s.dials ≡ []
  pub forwarded : s.forwarded ≡ none
  pub response : s.handler.response ≡ new_proxy_response_writer
  pub hijacked : s.handler.hijacked ≡ false

-- What holds of the pool at the end of any session.
pub record Ended (s s' : Session) : Type 0 where
  pub valid : IsValid s'.pool
  pub frame : Frame s.pool s'.pool
  pub bounded : length s'.dials ≤ max_retries

module _ (accept : Text → ℕ × Bool) where
  -- The connection could not be hijacked.
  pub conclude-Refused :
      (message : Text) (s : Session)
      → IsFresh s
      → (s' : Session) × (conclude accept message (some (switching s, some hijack_failed))
          ≡ some s')
        × (s'.pool ≡ s.pool)
        × (s'.dials ≡ s.dials)
        × Refused s s'
  unfolding conclude switching
  conclude-Refused message s fresh =
      let h = (switching s).handler in
      let t = write_status-Told accept status_bad_request message h fresh.response (omega arith) in
      let h' = write_status accept status_bad_request message h in
      (
        record s { handler = h' },
        refl,
        refl,
        refl,
        (
          record {
            logged = t.logged;
            status = t.status;
            headers = t.headers;
            body = t.body;
            raw = t.raw;
            hijacked = t.hijacked;
            connection = t.connection;
          },
          ground (arith, fresh.hijacked, t.hijacked, t.headers),
          fresh.forwarded,
        ),
      )

  -- The connections, or the writing of the request, failed.
  pub conclude-Lost :
      (message : Text) (s s' : Session) (f : Failure)
      → IsFresh s
      → s'.handler ≡ hijack (switching s).handler
      → s'.forwarded ≡ none
      → (s'' : Session) × (conclude accept message (some (close_client s', some f)) ≡ some s'')
        × (s''.pool ≡ s'.pool)
        × (s''.dials ≡ s'.dials)
        × Lost s s''
  unfolding conclude close_client switching hijack
  conclude-Lost message s s' f fresh eq unforwarded =
      let h = (close_client s').handler in
      let (size, closed, logged, raw, taken) =
        write_status_hijacked accept status_bad_request message h
          (ap (λ u. u.response) eq ∙ fresh.response) (ap (λ u. u.hijacked) eq) in
      (
        record s' { handler = write_status accept status_bad_request message h },
        refl,
        refl,
        refl,
        (ground (arith, taken), size, raw ∙ ap (λ u. u.raw) eq, closed, logged, unforwarded),
      )

  pub conclude-Bare :
      (message : Text) (s s' : Session)
      → IsFresh s
      → s'.handler
        ≡ handle_bad_gateway accept (capture_bad_gateway (hijacking (switching s)).handler)
      → s'.forwarded ≡ none
      → s'.dials ≡ []
      → s.pool.endpoints ≡ []
      → (s'' : Session) × (conclude accept message
            (some (close_client s', some no_endpoints_available))
          ≡ some s'')
        × (s''.pool ≡ s'.pool)
        × (s''.dials ≡ s'.dials)
        × Bare s s''
  unfolding conclude close_client capture_bad_gateway switching hijacking hijack
  conclude-Bare message s s' fresh eq unforwarded undialed gone =
      let h0 = capture_bad_gateway (hijacking (switching s)).handler in
      let (t, over, count) = handle_bad_gateway-Told accept h0 fresh.response in
      let h1 = (close_client s').handler in
      let size = handle_bad_gateway_hijacked accept h0 fresh.response refl in
      let (kept, logged, counted, closed, raw, taken) =
        write_status-done accept status_bad_request message h1 (ground (arith, eq, over)) in
      (
        record (close_client s') { handler = write_status accept status_bad_request message h1 },
        refl,
        refl,
        refl,
        (
          gone,
          undialed,
          ground (arith, kept, eq, t.headers),
          ground (arith, counted, eq, count),
          (
            ground (arith, taken, eq, t.hijacked),
            ground (arith, kept, eq, size),
            ground (arith, raw, eq, t.raw),
            closed,
            logged,
            unforwarded,
          ),
        ),
      )

-- How a session ends: without the connection of the client, after three tries, on a pool without
-- endpoints, or at an endpoint.
abbrev pub TcpEnds : Bool → Session → Session → Type 0
TcpEnds hijacks s s' =
    ((hijacks ≡ false) × (s'.dials ≡ []) × Refused s s')
    ⊎ ((hijacks ≡ true) × (length s'.dials ≡ max_retries) × Lost s s')
    ⊎ ((hijacks ≡ true) × Bare s s')
    ⊎ ((hijacks ≡ true) × (e : Endpoint) × Forwards s s' e)

-- A request that is written to the endpoint first, or cannot be.
abbrev pub WebSocketEnds : Bool → Around → Bool → Session → Session → Type 0
WebSocketEnds hijacks around writes s s' =
    ((hijacks ≡ false) × (s'.dials ≡ []) × Refused s s')
    ⊎ ((hijacks ≡ true) × (length s'.dials ≡ max_retries) × Lost s s')
    ⊎ ((hijacks ≡ true) × Bare s s')
    ⊎ ((hijacks ≡ true) × (writes ≡ false) × Lost s s')
    ⊎ ((hijacks ≡ true)
        × (writes ≡ true)
        × (e : Endpoint) × (s'.request ≡ setup_request around e s.request)
        × Forwards s s' e)
