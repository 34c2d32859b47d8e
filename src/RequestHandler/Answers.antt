-- ===== src/RequestHandler/Answers.antt =====
-- proxy/request_handler.go: what a client and the access log are told, for the decisions of
-- ServeHTTP in proxy/proxy.go that the router answers itself.
use gorouter.Base.{
  ℕ, ◌<◌, ◌≡◌, subst, Bool-cases, ◌⊎◌, inl, inr, refl, [], ◌∷◌, ◌++◌, Option, none, some, Bool,
  true, false, Text, codes, arith, map_get, lt→ltb, get-delete, ltb,
}
use gorouter.ResponseWriter.{new_proxy_response_writer, write_header, write, set_done, status_ok}
use gorouter.Proxy.{
  Decision, unsupported_protocol, heartbeat, missing_route, tcp_request, web_socket_request,
  unsupported_route_service, bad_signature, route_service_failure, to_route_service, to_backend,
}
use gorouter.RequestHandler.{
  Handler, hijack, takes, client_gets, set_header, send, http_error, write_status, done,
  handle_heartbeat, handle_unsupported_protocol, handle_missing_route, handle_bad_gateway,
  handle_bad_signature, handle_route_service_failure, handle_unsupported_route_service, error_body,
  status_bad_gateway,
}

-- The handlers that ServeHTTP calls and returns; CaptureBadRequest is not in the handler's state.
unfoldable pub answer : (Text → ℕ × Bool) → Bool → Decision → Handler → Handler
answer accept hijacks unsupported_protocol h = handle_unsupported_protocol accept hijacks h
answer accept hijacks heartbeat h = handle_heartbeat accept h
answer accept hijacks missing_route h = handle_missing_route accept h
answer accept hijacks (tcp_request v) h = h
answer accept hijacks (web_socket_request v) h = h
answer accept hijacks unsupported_route_service h = handle_unsupported_route_service accept h
answer accept hijacks (bad_signature e) h = handle_bad_signature accept h
answer accept hijacks route_service_failure h = handle_route_service_failure accept h
answer accept hijacks (to_route_service url) h = h
answer accept hijacks (to_backend v) h = h

-- The status of a decision that the router answers itself.
abbrev pub status_of : Decision → Option ℕ
status_of unsupported_protocol = some 400
status_of heartbeat = some 200
status_of missing_route = some 404
status_of (tcp_request v) = none
status_of (web_socket_request v) = none
status_of unsupported_route_service = some 502
status_of (bad_signature e) = some 400
status_of route_service_failure = some 500
status_of (to_route_service url) = none
status_of (to_backend v) = none

-- One header and one text are sent, and the log has the status of the response. Above 299, the
-- text starts with the status, and the Connection header is gone.
pub record Told (code : ℕ) (h h' : Handler) : Type 0 where
  pub logged : h'.log_status ≡ code
  pub status : h'.response.status ≡ code
  pub headers : h'.response.headers ≡ code ∷ []
  pub body : (t : Text) × (h'.response.sent ≡ t ∷ [])
  pub raw : h'.raw ≡ h.raw
  pub hijacked : h'.hijacked ≡ h.hijacked
  pub connection : (code ≡ status_ok) ⊎ (map_get (codes "Connection") h'.header ≡ none)

module _ (accept : Text → ℕ × Bool) where
  pub write_status-Told :
      (code : ℕ) (message : Text) (h : Handler)
      → h.response ≡ new_proxy_response_writer
      → 299 < code
      → Told code h (write_status accept code message h)
  unfolding write_status http_error send write_header write new_proxy_response_writer set_header
  write_status-Told code message h fresh big =
      let m =
        (http_error accept (error_body code message) code
          (record h { log_status = code })).header in
      record {
        logged = ground (arith, big, fresh);
        status = ground (arith, big, fresh);
        headers = ground (arith, big, fresh);
        body = (error_body code message ++ codes "\n", ground (arith, big, fresh));
        raw = ground (arith, big, fresh);
        hijacked = ground (arith, big, fresh);
        connection = inr (
            ground
              (arith, lt→ltb 299 code big, get-delete (codes "Connection") (codes "Connection") m));
      }

  -- Nothing is sent on a hijacked connection.
  pub write_status_hijacked :
      (code : ℕ) (message : Text) (h : Handler)
      → h.response ≡ new_proxy_response_writer
      → h.hijacked ≡ true
      → ((write_status accept code message h).response.size ≡ 0)
        × ((write_status accept code message h).client_closed ≡ h.client_closed)
        × ((write_status accept code message h).log_status ≡ code)
        × ((write_status accept code message h).raw ≡ h.raw)
        × ((write_status accept code message h).hijacked ≡ true)
  unfolding write_status http_error send takes write_header write new_proxy_response_writer
      set_header
  write_status_hijacked code message h fresh taken = elim (Bool-cases (ltb 299 code)) [
    | inl big ↦ (
      ground (arith, big, fresh, taken),
      ground (arith, big),
      ground (arith, big),
      ground (arith, big),
      ground (arith, big, taken),
    )
    | inr small ↦ (
      ground (arith, small, fresh, taken),
      ground (arith, small),
      ground (arith, small),
      ground (arith, small),
      ground (arith, small, taken),
    )
  ]

  pub handle_bad_gateway_hijacked :
      (h : Handler)
      → h.response ≡ new_proxy_response_writer
      → h.hijacked ≡ true
      → (handle_bad_gateway accept h).response.size ≡ 0
  unfolding handle_bad_gateway done set_done set_header
  handle_bad_gateway_hijacked h fresh taken =
      (write_status_hijacked 502 (codes "Registered endpoint failed to handle the request.")
        (set_header (codes "X-Cf-RouterError") (codes "endpoint_failure") h) fresh taken).0

  -- Done after an answer.
  done-Told : (code : ℕ) (h h' : Handler) → Told code h h' → Told code h (done accept h')
  unfolding done set_done
  done-Told code h h' t = record {
    logged = t.logged;
    status = t.status;
    headers = t.headers;
    body = t.body;
    raw = t.raw;
    hijacked = t.hijacked;
    connection = t.connection;
  }

  -- A header that is set before an answer.
  set_header-Told :
      (code : ℕ) (k v : Text) (h h' : Handler) → Told code (set_header k v h) h' → Told code h h'
  unfolding set_header
  set_header-Told code k v h h' t = record {
    logged = t.logged;
    status = t.status;
    headers = t.headers;
    body = t.body;
    raw = t.raw;
    hijacked = t.hijacked;
    connection = t.connection;
  }

  fail-Told :
      (code : ℕ) (k v message : Text) (h : Handler)
      → h.response ≡ new_proxy_response_writer
      → 299 < code
      → Told code h (write_status accept code message (set_header k v h))
  unfolding set_header
  fail-Told code k v message h fresh big =
      set_header-Told code k v h (write_status accept code message (set_header k v h))
        (write_status-Told code message (set_header k v h) fresh big)

  recode : {a b : ℕ} {h h' : Handler} → some a ≡ some b → Told a h h' → Told b h h'
  recode {a} {b} {h} {h'} e t = let same : a ≡ b = cc in subst (λ u. Told u h h') same t

  -- The 502 of HandleBadGateway, after which the response is done.
  pub handle_bad_gateway-Told :
      (h : Handler)
      → h.response ≡ new_proxy_response_writer
      → Told status_bad_gateway h (handle_bad_gateway accept h)
        × ((handle_bad_gateway accept h).response.done ≡ true)
        × ((handle_bad_gateway accept h).bad_gateways ≡ h.bad_gateways)
  unfolding handle_bad_gateway done set_done write_status http_error send set_header
  handle_bad_gateway-Told h fresh =
      let message = codes "Registered endpoint failed to handle the request." in
      let k = codes "X-Cf-RouterError" in
      let v = codes "endpoint_failure" in
      (
        done-Told 502 h (write_status accept 502 message (set_header k v h))
            (fail-Told 502 k v message h fresh (omega arith)),
        refl,
        refl,
      )

  -- After Done, only the log record changes.
  pub write_status-done :
      (code : ℕ) (message : Text) (h : Handler)
      → h.response.done ≡ true
      → ((write_status accept code message h).response ≡ h.response)
        × ((write_status accept code message h).log_status ≡ code)
        × ((write_status accept code message h).bad_gateways ≡ h.bad_gateways)
        × ((write_status accept code message h).client_closed ≡ h.client_closed)
        × ((write_status accept code message h).raw ≡ h.raw)
        × ((write_status accept code message h).hijacked ≡ h.hijacked)
  unfolding write_status http_error send set_header write_header write
  write_status-done code message h over = elim (Bool-cases (ltb 299 code)) [
    | inl big ↦ (
      ground (arith, big, over),
      ground (arith, big),
      ground (arith, big),
      ground (arith, big),
      ground (arith, big),
      ground (arith, big),
    )
    | inr small ↦ (
      ground (arith, small, over),
      ground (arith, small),
      ground (arith, small),
      ground (arith, small),
      ground (arith, small),
      ground (arith, small),
    )
  ]

  heartbeat-Told :
      (h : Handler)
      → h.response ≡ new_proxy_response_writer
      → Told status_ok h (handle_heartbeat accept h)
  unfolding handle_heartbeat send write_header write new_proxy_response_writer set_header
  heartbeat-Told h fresh = record {
    logged = refl;
    status = ground (arith, fresh);
    headers = ground (arith, fresh);
    body = (codes "ok\n", ground (arith, fresh));
    raw = refl;
    hijacked = refl;
    connection = inl refl;
  }

  unhijacked :
      (code : ℕ) (h h' : Handler)
      → h.hijacked ≡ false
      → Told code h h'
      → Told code h h' × (client_gets h' ≡ (h'.response.headers, h'.response.sent))
  unhijacked code h h' free t = (t, ground (arith, free, t.hijacked))

  -- Where the decision on a request has a status that the router answers itself, its handler
  -- sends exactly one header, with that status, and one text, which reach the client, and logs
  -- the status of the response; except for a heartbeat, no Connection header is left. The
  -- response is new and the connection not yet hijacked. Only for an unsupported protocol on a
  -- writer that can be hijacked is nothing sent on the response: the text of a 400 is written on
  -- the connection, which is closed, and 400 is logged.
  pub answer-Told :
      (hijacks : Bool) (d : Decision) (code : ℕ) (h : Handler)
      → h.response ≡ new_proxy_response_writer
      → h.hijacked ≡ false
      → status_of d ≡ some code
      → (Told code h (answer accept hijacks d h)
          × (client_gets (answer accept hijacks d h) ≡ (
            (answer accept hijacks d h).response.headers,
            (answer accept hijacks d h).response.sent,
          )))
        ⊎ ((d ≡ unsupported_protocol)
            × (hijacks ≡ true)
            × ((answer accept hijacks d h).log_status ≡ code)
            × ((answer accept hijacks d h).response ≡ h.response)
            × ((answer accept hijacks d h).raw ≡ h.raw ++ codes "HTTP/1.0 400 Bad Request\r\n\r\n")
            × ((answer accept hijacks d h).client_closed ≡ true))
  unfolding answer handle_unsupported_protocol handle_missing_route handle_bad_signature
      handle_route_service_failure handle_unsupported_route_service hijack
  answer-Told true unsupported_protocol code h fresh free s =
      inr (refl, refl, ground arith, refl, refl, refl)
  answer-Told false unsupported_protocol code h fresh free s = inl (
      unhijacked code h (answer accept false unsupported_protocol h) free
        (recode s (write_status-Told 400 (codes "Unsupported protocol") h fresh (omega arith))))
  answer-Told hijacks heartbeat code h fresh free s = inl (
      unhijacked code h (answer accept hijacks heartbeat h) free
        (recode s (heartbeat-Told h fresh)))
  answer-Told hijacks missing_route code h fresh free s = inl (
      unhijacked code h (answer accept hijacks missing_route h) free (
        recode s (
          fail-Told 404 (codes "X-Cf-RouterError") (codes "unknown_route")
            (codes "Requested route ('" ++ h.host ++ codes "') does not exist.") h fresh
            (omega arith))))
  answer-Told hijacks (tcp_request v) code h fresh free s = absurd (ground arith)
  answer-Told hijacks (web_socket_request v) code h fresh free s = absurd (ground arith)
  answer-Told hijacks unsupported_route_service code h fresh free s = inl (
      unhijacked code h (answer accept hijacks unsupported_route_service h) free (
        recode s (
          done-Told 502 h
            (write_status accept 502 (codes "Support for route services is disabled.")
              (set_header (codes "X-Cf-RouterError") (codes "route_service_unsupported") h))
            (fail-Told 502 (codes "X-Cf-RouterError") (codes "route_service_unsupported")
              (codes "Support for route services is disabled.") h fresh (omega arith)))))
  answer-Told hijacks (bad_signature e) code h fresh free s = inl (
      unhijacked code h (answer accept hijacks (bad_signature e) h) free (
        recode s (
          done-Told 400 h
            (write_status accept 400 (codes "Failed to validate Route Service Signature") h)
            (write_status-Told 400 (codes "Failed to validate Route Service Signature") h fresh
              (omega arith)))))
  answer-Told hijacks route_service_failure code h fresh free s = inl (
      unhijacked code h (answer accept hijacks route_service_failure h) free (
        recode s (
          done-Told 500 h (write_status accept 500 (codes "Route service request failed.") h)
            (write_status-Told 500 (codes "Route service request failed.") h fresh (omega arith)))))
  answer-Told hijacks (to_route_service url) code h fresh free s = absurd (ground arith)
  answer-Told hijacks (to_backend v) code h fresh free s = absurd (ground arith)
