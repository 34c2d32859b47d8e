-- ===== src/Registry/Answers.antt =====
-- What Lookup answers for a path that has a route.
use gorouter.Base.{ℕ, ◌≡◌, refl, inl, Option, some, arith}
use gorouter.Uri.{Uri, route_key}
use gorouter.Endpoint.{Endpoint}
use gorouter.Pool.Invariant.{Contains}
use gorouter.Trie.Matching.{match_uri-find}
use gorouter.Registry.{Registry, lookup, lookup_loop, register}
use gorouter.Registry.Routes.{key_path, pool_at, IsSound, IsFit}
use gorouter.Registry.Register.{register-HasRoute}

pub lookup_path :
    (r : Registry) (uri : Uri) (v : ℕ)
    → pool_at r (key_path uri) ≡ some v
    → lookup r uri ≡ some (some v)
unfolding lookup lookup_loop
lookup_path r uri v at = ground (arith, match_uri-find r.by_uri (route_key uri) v at)

-- After Register, Lookup of the same URI answers a pool that contains the endpoint, under the
-- conditions of Register.
pub register-lookup :
    (r : Registry) (uri : Uri) (e : Endpoint) (t now : ℕ)
    → IsSound r
    → IsFit r uri e
    → (v : ℕ) × (lookup (register r uri e t now) uri ≡ some (some v))
      × ((updated : ℕ) × (f : Option ℕ) × Contains ((register r uri e t now).pools v) e updated f)
register-lookup r uri e t now v fit =
    let r' = register r uri e t now in
    let (w, u, f, at, c) =
      ((register-HasRoute r uri e t now v fit).1 (key_path uri) e).1 (inl (refl, refl)) in
    (w, lookup_path r' uri w at, (u, f, c))
