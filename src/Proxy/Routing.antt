-- ===== src/Proxy/Routing.antt =====
-- proxy/proxy.go with registry/registry.go and proxy/proxy_round_tripper.go: where a request goes
-- that ServeHTTP passes on to a pool.
use gorouter.Base.{
  ℕ, ◌≤◌, ◌≡◌, ◌≢◌, refl, List, [], ◌∷◌, ◌++◌, Option, none, some, Text, length, inl, inr,
  Option-cases, subst, sym, ◌∙◌,
}
use gorouter.Uri.{Uri, route_key, next_wildcard}
use gorouter.Endpoint.{Endpoint}
use gorouter.Pool.{new_iterator}
use gorouter.Pool.Choice.{IsIntn}
use gorouter.Trie.{walk, Trie, pool, find_path, path_of}
use gorouter.Trie.Matching.{IsLongest, match_uri-IsLongest}
use gorouter.Registry.{Registry}
use gorouter.Registry.Routes.{pool_at, IsSound, HasRoute}
use gorouter.Registry.Lookup.{LooksUp, hit, stop, step, lookup-LooksUp}
use gorouter.RoundTrip.{Outcome, Trip, round_trip, max_retries}
use gorouter.RoundTrip.Tries.{Tries, AreMembers, round_trip-Tripped}
use gorouter.Proxy.{Request, Proxy, to_backend, serve_http, lookup_uri, get_sticky_session}
use gorouter.Proxy.Deciding.{serve_http-Admitted}

-- The path is the longest one with a pool that begins the URI's, or that of a wildcard of it, where
-- the URI and the wildcards before it have none.
pub data OnWay (t : Trie ℕ) : Uri → List Text → Type 0 where
  longest :
      (uri : Uri) (ks rest : List Text)
      → ks ++ rest ≡ path_of uri
      → ((more beyond : List Text)
          → more ++ beyond ≡ rest
          → more ≢ []
          → find_path t (ks ++ more) ≡ none)
      → OnWay t uri ks
  by_wildcard :
      (uri w : Uri) (ks : List Text)
      → ((ks' rest : List Text) → ks' ++ rest ≡ path_of uri → find_path t ks' ≡ none)
      → next_wildcard uri ≡ some w
      → OnWay t w ks
      → OnWay t uri ks

LooksUp-OnWay :
    (t : Trie ℕ) (uri : Uri) (o : Option ℕ) (v : ℕ)
    → pool t ≡ none
    → LooksUp t uri o
    → o ≡ some v
    → (ks : List Text) × (find_path t ks ≡ some v) × OnWay t uri ks
LooksUp-OnWay t _ _ v bare (hit uri u matched) e =
    let (ks, rest, whole, found, above) =
      subst (IsLongest (find_path t) (path_of uri)) matched (match_uri-IsLongest t uri bare) in
    (ks, found ∙ e, longest uri ks rest whole above)
LooksUp-OnWay t _ _ v bare (stop uri miss last) e = absurd cc
LooksUp-OnWay t _ o v bare (step uri w _ miss more later) e =
    let (ks, found, way) = LooksUp-OnWay t w o v bare later e in
    (
      ks,
      found,
      by_wildcard uri w ks
          (subst (IsLongest (find_path t) (path_of uri)) miss (match_uri-IsLongest t uri bare)) more
          way,
    )

find_path-nil : (t : Trie ℕ) → find_path t [] ≡ pool t
unfolding find_path walk
find_path-nil t = refl

root_bare : (r : Registry) → IsSound r → pool r.by_uri ≡ none
root_bare r sound = elim (Option-cases (pool r.by_uri)) [
  | inl none_there ↦ none_there
  | inr (v, there) ↦ absurd (sound.bare v (find_path-nil r.by_uri ∙ there))
]

-- Every try is at an endpoint that is registered for the path.
abbrev pub AreRegistered : Proxy → List Text → Tries → Type 0
AreRegistered p ks [] = Unit
AreRegistered p ks ((e, o) ∷ ts) = HasRoute p.registry ks e × AreRegistered p ks ts

members-AreRegistered :
    (p : Proxy) (ks : List Text) (v : ℕ) (ts : Tries)
    → pool_at p.registry ks ≡ some v
    → AreMembers (p.registry.pools v) ts
    → AreRegistered p ks ts
members-AreRegistered p ks v [] at m = tt
members-AreRegistered p ks v ((e, o) ∷ ts) at ((r, live, is_e), m) =
    ((v, _, _, at, (r, live, is_e, refl, refl)), members-AreRegistered p ks v ts at m)

not_nil : (ts : Tries) (x : Endpoint × Outcome) → ts ++ x ∷ [] ≢ []
not_nil [] x h = cc
not_nil (t ∷ ts) x h = cc

-- The round trip of a request that goes to the pool `v`.
pub record Routed (p : Proxy) (r : Request) (v : ℕ) (s : Trip) : Type 0 where
  pub path : List Text
  pub way : OnWay p.registry.by_uri (route_key (lookup_uri r)) path
  pub there : pool_at p.registry path ≡ some v
  pub registered : AreRegistered p path s.tries
  pub bounded : length s.tries ≤ max_retries
  pub idle : s.tries ≡ [] → (p.registry.pools v).endpoints ≡ []

-- A request that ServeHTTP passes on to the endpoints of a pool is tried, at most three times and
-- without a panic, only at endpoints that are registered for one path: the longest path with a
-- pool that begins the request's host and path, or else, of the first wildcard of it for which
-- there is one. It is not tried at all only if the pool of that path is empty. The registry is
-- sound, and Intn answers below its bound; the transport answers anything.
pub serve_http-Routed :
    (p : Proxy) (r : Request) (v now salt : ℕ) (transport : ℕ → Endpoint → Outcome)
    (clock random : ℕ → ℕ)
    → IsSound p.registry
    → IsIntn random
    → serve_http p r now salt ≡ some (to_backend v)
    → (s : Trip) × (round_trip transport clock random
          (p.registry.pools v)
          (new_iterator (get_sticky_session r))
        ≡ some s)
      × Routed p r v s
serve_http-Routed p r v now salt transport clock random sound intn served =
    let (d, decided, admitted) = serve_http-Admitted p r now salt in
    let is_d : d ≡ to_backend v = cc in
    let a = admitted v is_d in
    let (o, looked, up) = lookup-LooksUp p.registry (lookup_uri r) in
    let found = a.found in
    let is_o : o ≡ some v = cc in
    let (ks, at, way) =
      LooksUp-OnWay p.registry.by_uri (route_key (lookup_uri r)) o v (root_bare p.registry sound) up
        is_o in
    let (s, tripped, t) =
      round_trip-Tripped transport clock random intn (p.registry.pools v)
        (new_iterator (get_sticky_session r)) (sound.valid v) in
    (
      s,
      tripped,
      record {
        path = ks;
        way = way;
        there = at;
        registered = members-AreRegistered p ks v s.tries at t.members;
        bounded = t.bounded;
        idle = λ untried. elim t.ends [
          | inl (gone, _, _) ↦ gone
          | inr (e, u, earlier, (ends, _, _), _) ↦
              absurd (not_nil earlier (e, u) (sym ends ∙ untried))
        ];
      },
    )
