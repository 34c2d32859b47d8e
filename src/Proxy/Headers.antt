-- ===== src/Proxy/Headers.antt =====
-- proxy/proxy.go: what SetupProxyRequest makes of the header and the URL of a request.
use gorouter.Base.{
  ap, sym, subst, ◌∙◌, ℕ, ◌≡◌, ◌≢◌, ◌⊎◌, inl, inr, refl, [], ◌∷◌, Option, none, some, false, Text,
  codes, arith, text_eq, text_eq_iff, map_get, Bool-cases,
}
use gorouter.RequestHandler.Upstream.{
  Outgoing, Around, put_header, set_request_x_request_start, set_request_x_vcap_request_id,
}
use gorouter.Proxy.{has_been_to_route_service}
use gorouter.Proxy.Outbound.{
  RouteServiceArgs, Target, header_get, first_value, delete_header, forwarding_to_route_service,
  setup_route_service_request, point_at_source, setup_proxy_request,
}
use gorouter.Proxy.Keys.{
  ToService, own_keys, is_among, avoids, request_start_lem, request_id_lem, setup-ToService,
  setup-keeps, delete_both,
}

delete-url :
    (r : Outgoing)
    → (delete_header
        (codes "X-Cf-Proxy-Metadata")
        (delete_header (codes "X-Cf-Proxy-Signature") r)).url_host
      ≡ r.url_host
unfolding delete_header
delete-url r = refl

-- The request after SetupProxyRequest. It goes to the URL of its host if there is no route service; if
-- there is one, it goes there, or comes from there and leaves the headers of the service behind.
pub record IsOutbound (host request_uri : Text) (a : Around) (t t' : Target)
    (args : RouteServiceArgs) : Type 0 where
  pub started : map_get (codes "X-Request-Start") t'.out.header ≢ none
  pub identified :
      (a.uuid ≡ none)
      ⊎ ((u : Text) × (a.uuid ≡ some u)
          × (map_get (codes "X-Vcap-Request-Id") t'.out.header ≡ some (u ∷ [])))
  pub kept :
      (k : Text) → is_among k own_keys ≡ false → map_get k t'.out.header ≡ map_get k t.out.header
  pub goes :
      ((args.url_string ≡ [])
        × (map_get (codes "X-Cf-Proxy-Signature") t'.out.header
            ≡ map_get (codes "X-Cf-Proxy-Signature") t.out.header)
        × (t'.out.url_host ≡ host)
        × (t'.opaque ≡ request_uri)
        × (t'.host ≡ t.host))
      ⊎ ((args.url_string ≢ [])
          × (header_get (codes "X-Cf-Proxy-Signature") t.out.header ≡ [])
          × ToService args t')
      ⊎ ((args.url_string ≢ [])
          × (header_get (codes "X-Cf-Proxy-Signature") t.out.header ≢ [])
          × (map_get (codes "X-Cf-Proxy-Signature") t'.out.header ≡ none)
          × (map_get (codes "X-Cf-Proxy-Metadata") t'.out.header ≡ none)
          × (t'.out.url_host ≡ host)
          × (t'.opaque ≡ request_uri)
          × (t'.host ≡ t.host))

request_start-url : (n : ℕ) (r : Outgoing) → (set_request_x_request_start n r).url_host ≡ r.url_host
unfolding set_request_x_request_start put_header
request_start-url n r = ground arith

request_id-url :
    (o : Option Text) (r : Outgoing) → (set_request_x_vcap_request_id o r).url_host ≡ r.url_host
unfolding set_request_x_vcap_request_id put_header
request_id-url none r = refl
request_id-url (some u) r = refl

-- What the first lines do to the header.
record Pointed (host request_uri : Text) (a : Around) (t t' : Target) : Type 0 where
  started : map_get (codes "X-Request-Start") t'.out.header ≢ none
  identified :
      (a.uuid ≡ none)
      ⊎ ((u : Text) × (a.uuid ≡ some u)
          × (map_get (codes "X-Vcap-Request-Id") t'.out.header ≡ some (u ∷ [])))
  kept :
      (k : Text)
      → text_eq (codes "X-Request-Start") k ≡ false
      → text_eq (codes "X-Vcap-Request-Id") k ≡ false
      → map_get k t'.out.header ≡ map_get k t.out.header
  url_host : t'.out.url_host ≡ host
  opaque : t'.opaque ≡ request_uri
  same_host : t'.host ≡ t.host

point_at_source-Pointed :
    (host request_uri : Text) (a : Around) (t : Target)
    → Pointed host request_uri a t (point_at_source host request_uri a t)
unfolding point_at_source
point_at_source-Pointed host request_uri a t =
    let r0 = record t.out { scheme = codes "http"; url_host = host } in
    let r1 = set_request_x_request_start a.millis r0 in
    let (started, keeps) = request_start_lem a.millis r0 in
    let (identified, keeps') = request_id_lem a.uuid r1 in
    record {
      started = λ h. started (sym (keeps' (codes "X-Request-Start") refl) ∙ h);
      identified = identified;
      kept = λ k away away'. keeps' k away' ∙ keeps k away;
      url_host = request_id-url a.uuid r1 ∙ request_start-url a.millis r0;
      opaque = refl;
      same_host = refl;
    }

module _ (host request_uri : Text) (a : Around) (t t1 : Target) (args : RouteServiceArgs)
    (p : Pointed host request_uri a t t1) where
  plain-IsOutbound : args.url_string ≡ [] → IsOutbound host request_uri a t t1 args
  plain-IsOutbound no_url = record {
    started = p.started;
    identified = p.identified;
    kept = λ k out. let (start, (id, rest)) = avoids k own_keys out in p.kept k start id;
    goes = inl (
      no_url,
      p.kept (codes "X-Cf-Proxy-Signature") refl refl,
      p.url_host,
      p.opaque,
      p.same_host,
    );
  }

  service-IsOutbound :
      args.url_string ≢ []
      → header_get (codes "X-Cf-Proxy-Signature") t.out.header ≡ []
      → IsOutbound host request_uri a t (setup_route_service_request t1 args) args
  service-IsOutbound has_url no_sig = record {
    started =
        λ h. p.started (sym (setup-keeps args t1 (codes "X-Request-Start") refl refl refl) ∙ h);
    identified = elim p.identified [
      | inl no_id ↦ inl no_id
      | inr (u, is_u, there) ↦
          inr (u, is_u, setup-keeps args t1 (codes "X-Vcap-Request-Id") refl refl refl ∙ there)
    ];
    kept = λ k out.
        let (start, (id, (s, (m, (f, rest))))) = avoids k own_keys out in
        setup-keeps args t1 k s m f ∙ p.kept k start id;
    goes = inr (inl (has_url, no_sig, setup-ToService args t1));
  }

  backend-IsOutbound :
      args.url_string ≢ []
      → header_get (codes "X-Cf-Proxy-Signature") t.out.header ≢ []
      → IsOutbound host request_uri a t
          (record t1 {
            out =
                delete_header
                  (codes "X-Cf-Proxy-Metadata")
                  (delete_header (codes "X-Cf-Proxy-Signature") t1.out);
          })
          args
  backend-IsOutbound has_url has_sig =
      let gone = delete_both t1.out in
      record {
        started = λ h. p.started (sym (gone (codes "X-Request-Start")) ∙ h);
        identified = elim p.identified [
          | inl no_id ↦ inl no_id
          | inr (u, is_u, there) ↦ inr (u, is_u, gone (codes "X-Vcap-Request-Id") ∙ there)
        ];
        kept = λ k out.
            let (start, (id, (s, (m, (f, rest))))) = avoids k own_keys out in
            gone k ∙ (ground (arith, s, m)) ∙ p.kept k start id;
        goes = inr (
            inr (
              has_url,
              has_sig,
              gone (codes "X-Cf-Proxy-Signature"),
              gone (codes "X-Cf-Proxy-Metadata"),
              delete-url t1.out ∙ p.url_host,
              p.opaque,
              p.same_host,
            ));
      }

-- After SetupProxyRequest a request has X-Request-Start, and the new X-Vcap-Request-Id if one can
-- be made, and keeps every header but these two and the three of route services. Without a route
-- service it goes to its host with its URI and keeps the signature. With a route service and no
-- signature it goes to the service, whose host it gets, with the signature, the metadata and the
-- forwarded URL; with a signature it goes to its host with its URI, and the signature and the
-- metadata are gone.
pub setup_proxy_request-IsOutbound :
    (host request_uri : Text) (a : Around) (t : Target) (args : RouteServiceArgs)
    → IsOutbound host request_uri a t (setup_proxy_request host request_uri a t args) args
unfolding setup_proxy_request forwarding_to_route_service has_been_to_route_service header_get
setup_proxy_request-IsOutbound host request_uri a t args =
    let t1 = point_at_source host request_uri a t in
    let p = point_at_source-Pointed host request_uri a t in
    let key = codes "X-Cf-Proxy-Signature" in
    let sig = first_value (map_get key t1.out.header) in
    let same_sig : sig ≡ first_value (map_get key t.out.header) =
      ap first_value (p.kept key refl refl) in
    let no_url = text_eq_iff args.url_string [] in
    let no_sig = text_eq_iff sig [] in
    let t' = setup_proxy_request host request_uri a t args in
    elim (Bool-cases (text_eq args.url_string [])) [
      | inl plain ↦
          let e : t' ≡ t1 = ground (arith, plain) in
          subst (λ x. IsOutbound host request_uri a t x args) (sym e)
            (plain-IsOutbound host request_uri a t t1 args p (no_url.0 plain))
      | inr service ↦
          let has_url : args.url_string ≢ [] =
            λ h. let u = no_url.1 h in absurd (ground (arith, u, service)) in
          elim (Bool-cases (text_eq sig [])) [
            | inl outward ↦
                let e : t' ≡ setup_route_service_request t1 args =
                  ground (arith, service, outward) in
                subst (λ x. IsOutbound host request_uri a t x args) (sym e)
                  (service-IsOutbound host request_uri a t t1 args p has_url
                    (sym same_sig ∙ no_sig.0 outward))
            | inr back ↦
                let r2 =
                  delete_header (codes "X-Cf-Proxy-Metadata")
                    (delete_header (codes "X-Cf-Proxy-Signature") t1.out) in
                let e : t' ≡ (record t1 { out = r2 }) = ground (arith, service, back) in
                subst (λ x. IsOutbound host request_uri a t x args) (sym e)
                  (backend-IsOutbound host request_uri a t t1 args p has_url
                    (λ h. let z = no_sig.1 (same_sig ∙ h) in absurd (ground (arith, z, back))))
          ]
    ]
