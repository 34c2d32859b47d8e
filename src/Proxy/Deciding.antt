-- ===== src/Proxy/Deciding.antt =====
-- proxy/proxy.go: what a decision of ServeHTTP says of the request.
use gorouter.Base.{
  ℕ, ◌≡◌, ◌≢◌, ◌⊎◌, inl, inr, subst, [], none, some, true, false, Text, text_eq_iff, arith,
  Bool-cases, Option-cases,
}
use gorouter.Pool.{route_service_url}
use gorouter.Registry.{lookup}
use gorouter.Registry.Lookup.{lookup-LooksUp}
use gorouter.RouteService.{validate_signature}
use gorouter.Proxy.{
  Request, Proxy, Decision, unsupported_protocol, heartbeat, missing_route, to_backend, lookup_uri,
  serve_http, serve_pool, forward, come_back, has_been_to_route_service, forwarded_url,
  is_protocol_supported, is_load_balancer_heartbeat, is_tcp_upgrade, is_web_socket_upgrade,
}

-- What has to hold of a request that goes to the endpoints of the pool `v`.
pub record Admitted (p : Proxy) (r : Request) (v : ℕ) (now : ℕ) : Type 0 where
  pub supported : is_protocol_supported r ≡ true
  pub found : lookup p.registry (lookup_uri r) ≡ some (some v)
  pub plain : (is_tcp_upgrade r ≡ false) × (is_web_socket_upgrade r ≡ false)
  pub signed :
      (route_service_url (p.registry.pools v) ≡ [])
      ⊎ ((p.route_service_enabled ≡ true)
          × (r.route_service_signature ≢ [])
          × (validate_signature p.codec p.route_service_config r.route_service_signature
                r.route_service_metadata
                (forwarded_url r)
                now
              ≡ none))

come_back_lem :
    (p : Proxy) (r : Request) (v w now : ℕ)
    → come_back p r v now ≡ to_backend w
    → (v ≡ w)
      × (validate_signature p.codec p.route_service_config r.route_service_signature
            r.route_service_metadata
            (forwarded_url r)
            now
          ≡ none)
unfolding come_back
come_back_lem p r v w now e = ground arith

forward_lem :
    (p : Proxy) (r : Request) (url : Text) (w now random : ℕ)
    → forward p r url now random ≢ to_backend w
unfolding forward
forward_lem p r url w now random e = ground arith

serve_pool_lem :
    (p : Proxy) (r : Request) (v w : ℕ) (url : Text) (now random : ℕ)
    → serve_pool p r v url now random ≡ to_backend w
    → (v ≡ w)
      × (is_tcp_upgrade r ≡ false)
      × (is_web_socket_upgrade r ≡ false)
      × ((url ≡ [])
          ⊎ ((p.route_service_enabled ≡ true)
              × (r.route_service_signature ≢ [])
              × (validate_signature p.codec p.route_service_config r.route_service_signature
                    r.route_service_metadata
                    (forwarded_url r)
                    now
                  ≡ none)))
unfolding serve_pool has_been_to_route_service
serve_pool_lem p r v w url now random e = ground (
  arith,
  text_eq_iff url [],
  text_eq_iff r.route_service_signature [],
  come_back_lem p r v w now,
  forward_lem p r url w now random,
)

-- ServeHTTP comes to a decision for every request, and passes a request on to the endpoints of a
-- pool only if its protocol is supported, Lookup answers that pool, it asks for no upgrade, and
-- the pool has no route service, or route services are enabled and the request has a signature
-- that ValidateSignature finds no error in.
pub serve_http-Admitted :
    (p : Proxy) (r : Request) (now random : ℕ)
    → (d : Decision) × (serve_http p r now random ≡ some d)
      × ((v : ℕ) → d ≡ to_backend v → Admitted p r v now)
unfolding serve_http
serve_http-Admitted p r now random =
    let (o, looked, _) = lookup-LooksUp p.registry (lookup_uri r) in
    elim (Bool-cases (is_protocol_supported r)) [
      | inr old ↦ (unsupported_protocol, ground arith, λ v e. cc)
      | inl supported ↦ elim (Bool-cases (is_load_balancer_heartbeat r)) [
        | inl beat ↦ (heartbeat, ground arith, λ v e. cc)
        | inr request ↦ elim (Option-cases o) [
          | inl nowhere ↦ (missing_route, ground (arith, looked), λ v e. cc)
          | inr (v, here) ↦
              let found : lookup p.registry (lookup_uri r) ≡ some (some v) = ground arith in
              let url = route_service_url (p.registry.pools v) in
              (
                serve_pool p r v url now random,
                ground (arith, found),
                λ w e.
                    let (same, tcp, socket, signed) = serve_pool_lem p r v w url now random e in
                    subst (λ u. Admitted p r u now) same
                      (record {
                        supported = supported;
                        found = found;
                        plain = (tcp, socket);
                        signed = signed;
                      }),
              )
        ]
      ]
    ]
