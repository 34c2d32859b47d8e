-- ===== src/Proxy/Keys.antt =====
-- proxy/proxy.go: the keys of a header that SetupProxyRequest writes, each by itself.
use gorouter.Base.{
  ap, ◌∙◌, ℕ, ◌≡◌, ◌≢◌, ◌⊎◌, inl, inr, refl, List, [], ◌∷◌, Option, none, some, Bool, true, false,
  Text, codes, arith, text_eq, map_get, map_put, map_delete, get-put, get-delete, itoa, Bool-cases,
  Option-cases, if◌then◌else◌,
}
use gorouter.RequestHandler.Upstream.{
  Outgoing, put_header, set_request_x_request_start, set_request_x_vcap_request_id,
}
use gorouter.Proxy.Outbound.{
  RouteServiceArgs, Target, header_get, first_value, delete_header, setup_route_service_request,
}

-- The request goes to the route service, with what it has to come back with.
pub record ToService (args : RouteServiceArgs) (t : Target) : Type 0 where
  pub signature : header_get (codes "X-Cf-Proxy-Signature") t.out.header ≡ args.signature
  pub metadata : header_get (codes "X-Cf-Proxy-Metadata") t.out.header ≡ args.metadata
  pub forwarded : header_get (codes "X-Cf-Forwarded-Url") t.out.header ≡ args.forwarded_url_raw
  pub host : t.host ≡ args.parsed_url.host
  pub url_host : t.out.url_host ≡ args.parsed_url.host

pub setup-ToService :
    (args : RouteServiceArgs) (t : Target) → ToService args (setup_route_service_request t args)
unfolding setup_route_service_request put_header header_get
setup-ToService args t =
    let s = codes "X-Cf-Proxy-Signature" in
    let m = codes "X-Cf-Proxy-Metadata" in
    let u = codes "X-Cf-Forwarded-Url" in
    let h1 = map_put s (args.signature ∷ []) t.out.header in
    let h2 = map_put m (args.metadata ∷ []) h1 in
    let e1 : map_get s (map_put u (args.forwarded_url_raw ∷ []) h2) ≡ some (args.signature ∷ []) =
      get-put u s (args.forwarded_url_raw ∷ []) h2
      ∙ get-put m s (args.metadata ∷ []) h1
      ∙ get-put s s (args.signature ∷ []) t.out.header in
    let e2 : map_get m (map_put u (args.forwarded_url_raw ∷ []) h2) ≡ some (args.metadata ∷ []) =
      get-put u m (args.forwarded_url_raw ∷ []) h2 ∙ get-put m m (args.metadata ∷ []) h1 in
    let e3 : map_get u (map_put u (args.forwarded_url_raw ∷ []) h2)
        ≡ some (args.forwarded_url_raw ∷ []) =
      get-put u u (args.forwarded_url_raw ∷ []) h2 in
    record {
      signature = ap first_value e1;
      metadata = ap first_value e2;
      forwarded = ap first_value e3;
      host = refl;
      url_host = refl;
    }

-- The keys that SetupProxyRequest may write.
abbrev pub own_keys : List Text
own_keys =
    codes "X-Request-Start"
    ∷ codes "X-Vcap-Request-Id"
    ∷ codes "X-Cf-Proxy-Signature"
    ∷ codes "X-Cf-Proxy-Metadata"
    ∷ codes "X-Cf-Forwarded-Url"
    ∷ []

abbrev pub is_among : Text → List Text → Bool
is_among k [] = false
is_among k (j ∷ js) = if text_eq j k then true else is_among k js

pub request_start_lem :
    (n : ℕ) (r : Outgoing)
    → (map_get (codes "X-Request-Start") (set_request_x_request_start n r).header ≢ none)
      × ((k : Text)
          → text_eq (codes "X-Request-Start") k ≡ false
          → map_get k (set_request_x_request_start n r).header ≡ map_get k r.header)
unfolding set_request_x_request_start put_header
request_start_lem n r = elim (Option-cases (map_get (codes "X-Request-Start") r.header)) [
  | inr (start, there) ↦ (λ h. ground (arith, there, h), λ k away. ground (arith, there))
  | inl missing ↦
      let put =
        get-put (codes "X-Request-Start") (codes "X-Request-Start") (itoa n ∷ []) r.header in
      (
        λ h. ground (arith, missing, put, h),
        λ k away.
            let q = get-put (codes "X-Request-Start") k (itoa n ∷ []) r.header in
            ground (arith, missing, away, q),
      )
]

pub request_id_lem :
    (o : Option Text) (r : Outgoing)
    → ((o ≡ none)
        ⊎ ((u : Text) × (o ≡ some u)
            × (map_get (codes "X-Vcap-Request-Id") (set_request_x_vcap_request_id o r).header
                ≡ some (u ∷ []))))
      × ((k : Text)
          → text_eq (codes "X-Vcap-Request-Id") k ≡ false
          → map_get k (set_request_x_vcap_request_id o r).header ≡ map_get k r.header)
unfolding set_request_x_vcap_request_id put_header
request_id_lem none r = (inl refl, λ k away. refl)
request_id_lem (some u) r =
    let id = codes "X-Vcap-Request-Id" in
    (
      inr (u, refl, get-put id id (u ∷ []) r.header),
      λ k away. let q = get-put id k (u ∷ []) r.header in ground (arith, q, away),
    )

not_among :
    (k j : Text) (js : List Text)
    → is_among k (j ∷ js) ≡ false
    → (text_eq j k ≡ false) × (is_among k js ≡ false)
not_among k j js h = elim (Bool-cases (text_eq j k)) [
  | inl same ↦ absurd (ground (arith, h, same))
  | inr other ↦ (other, ground (arith, h, other))
]

-- None of the keys is the key.
abbrev Avoids : Text → List Text → Type 0
Avoids k [] = Unit
Avoids k (j ∷ js) = (text_eq j k ≡ false) × Avoids k js

pub avoids : (k : Text) (js : List Text) → is_among k js ≡ false → Avoids k js
avoids k [] h = tt
avoids k (j ∷ js) h = let (other, rest) = not_among k j js h in (other, avoids k js rest)

pub setup-keeps :
    (args : RouteServiceArgs) (t : Target) (k : Text)
    → text_eq (codes "X-Cf-Proxy-Signature") k ≡ false
    → text_eq (codes "X-Cf-Proxy-Metadata") k ≡ false
    → text_eq (codes "X-Cf-Forwarded-Url") k ≡ false
    → map_get k (setup_route_service_request t args).out.header ≡ map_get k t.out.header
unfolding setup_route_service_request put_header
setup-keeps args t k s m u =
    let h1 = map_put (codes "X-Cf-Proxy-Signature") (args.signature ∷ []) t.out.header in
    let h2 = map_put (codes "X-Cf-Proxy-Metadata") (args.metadata ∷ []) h1 in
    let e3 = get-put (codes "X-Cf-Forwarded-Url") k (args.forwarded_url_raw ∷ []) h2 in
    let e2 = get-put (codes "X-Cf-Proxy-Metadata") k (args.metadata ∷ []) h1 in
    let e1 = get-put (codes "X-Cf-Proxy-Signature") k (args.signature ∷ []) t.out.header in
    ground (arith, s, m, u, e1, e2, e3)

-- The two headers of a route service are gone, and no other one.
pub delete_both :
    (r : Outgoing) (k : Text)
    → map_get k
        (delete_header
          (codes "X-Cf-Proxy-Metadata")
          (delete_header (codes "X-Cf-Proxy-Signature") r)).header
      ≡ (if text_eq (codes "X-Cf-Proxy-Metadata") k
          then none
          else if text_eq (codes "X-Cf-Proxy-Signature") k
          then none
          else map_get k r.header)
unfolding delete_header
delete_both r k =
    let e2 =
      get-delete (codes "X-Cf-Proxy-Metadata") k
        (map_delete (codes "X-Cf-Proxy-Signature") r.header) in
    let e1 = get-delete (codes "X-Cf-Proxy-Signature") k r.header in ground (arith, e1, e2)
