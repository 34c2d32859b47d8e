-- ===== src/Registry.antt =====
-- registry/registry.go: the routing table. The trie holds references to the pools, which live in
-- `pools`, since a pool that was looked up is used after the registry's lock is released. Each
-- method Runs under the lock, so it is one step; it takes the times that it reads from the clock.
pub mod Lookup
pub mod Routes
pub mod Register
pub mod Unregister
pub mod Answers
pub mod Prune
mod Tests
use gorouter.Base.{
  ℕ, zero, suc, ◌+◌, ◌/◌, ◌++◌, [], ◌∷◌, Option, none, some, Bool, true, false, Text, codes, cut,
  trim_prefix, if◌then◌else◌, length, ◌==◌, List, not, map, Map,
}
use gorouter.Uri.{Uri, route_key, next_wildcard, uri_string}
use gorouter.Endpoint.{Endpoint, EndpointJson}
use gorouter.Pool.{Pool, new_pool, put, remove, is_empty, prune_endpoints, each, pool_json}
use gorouter.Trie
use gorouter.Trie.Snip.{snip, each_at, endpoint_count}
use gorouter.Trie.{Trie, new_trie, find, insert, delete, match_uri, pool_count, to_map}

pub record Registry : Type 0 where
  pub by_uri : Trie ℕ
  pub pools : ℕ → Pool
  pub next_pool : ℕ
  pub droplet_stale_threshold : ℕ
  pub time_of_last_update : ℕ

unfoldable pub new_registry : ℕ → Registry
new_registry droplet_stale_threshold = record {
  by_uri = new_trie;
  pools = λ v. new_pool 0 [];
  next_pool = 0;
  droplet_stale_threshold = droplet_stale_threshold;
  time_of_last_update = 0;
}

unfoldable pub parse_context_path : Uri → Text
parse_context_path uri = elim (cut b'/' (trim_prefix (uri_string uri) (codes "/"))) [
  | none ↦ codes "/"
  | some (host, path) ↦ codes "/" ++ path
]

-- `*v = p`
unfoldable pub write_pool : (ℕ → Pool) → ℕ → Pool → ℕ → Pool
write_pool pools v p w = if w == v then p else pools w

-- A new pool for the key.
unfoldable pub add_pool : Registry → Uri → Registry
add_pool r key = record r {
  by_uri = insert r.by_uri key r.next_pool;
  pools =
      write_pool r.pools r.next_pool
        (new_pool (r.droplet_stale_threshold / 4) (parse_context_path key));
  next_pool = r.next_pool + 1;
}

-- The pool of the key, made where Find has none.
unfoldable pub pool_for : Registry → Uri → Registry × ℕ
pool_for r key = elim (find r.by_uri key) [ some v ↦ (r, v) | none ↦ (add_pool r key, r.next_pool) ]

-- Register; `t` is read before the lock is taken, and `now` by Put.
unfoldable pub register : Registry → Uri → Endpoint → ℕ → ℕ → Registry
register r uri endpoint t now =
    let (r', v) = pool_for r (route_key uri) in
    record r' {
      pools = write_pool r'.pools v (put (r'.pools v) endpoint now).0;
      time_of_last_update = t;
    }

-- `delete` where the pool has become empty
unfoldable pub delete_if_empty : Registry → Uri → ℕ → Option Registry
delete_if_empty r key v =
    if is_empty (r.pools v)
    then elim (delete r.by_uri key) [ none ↦ none | some t ↦ some (record r { by_uri = t }) ]
    else some r

-- Unregister; `none` is a panic.
unfoldable pub unregister : Registry → Uri → Endpoint → Option Registry
unregister r uri endpoint = elim (find r.by_uri (route_key uri)) [
  | none ↦ some r
  | some v ↦ elim (remove (r.pools v) endpoint) [
    | none ↦ none
    | some (p, known) ↦
        delete_if_empty (record r { pools = write_pool r.pools v p }) (route_key uri) v
  ]
]

-- The loop of Lookup on fuel; the outer `none` says that the fuel ran out. After an error of
-- NextWildcard the URI is as before, and is matched once more.
unfoldable pub lookup_loop : ℕ → Trie ℕ → Uri → Option (Option ℕ)
lookup_loop zero t uri = none
lookup_loop (suc fuel) t uri = elim (match_uri t uri) [
  | some v ↦ some (some v)
  | none ↦ elim (next_wildcard uri) [
    | none ↦ some (match_uri t uri)
    | some w ↦ lookup_loop fuel t w
  ]
]

unfoldable pub lookup : Registry → Uri → Option (Option ℕ)
lookup r uri =
    let key = route_key uri in
    lookup_loop (length (trim_prefix (uri_string key) (codes "*.")) + 1) r.by_uri key

unfoldable pub num_uris : Registry → ℕ
num_uris r = pool_count r.by_uri

abbrev pub snip_at : Registry → List Text → Registry
snip_at r up = record r { by_uri = snip (λ v. not (is_empty (r.pools v))) r.by_uri up }

-- The callback of pruneStaleDroplets; `clock v` is the time that PruneEndpoints of the pool `v`
-- reads.
unfoldable pub prune_pool : (ℕ → ℕ) → Registry → List Text → ℕ → Option Registry
prune_pool clock r up v = elim (prune_endpoints (r.pools v) r.droplet_stale_threshold (clock v)) [
  | none ↦ none
  | some p ↦ some (snip_at (record r { pools = write_pool r.pools v p }) up)
]

unfoldable pub prune_stale_droplets : Registry → (ℕ → ℕ) → Option Registry
prune_stale_droplets r clock = each_at (prune_pool clock) r.by_uri [] r

unfoldable pub num_endpoints : Registry → ℕ
num_endpoints r = endpoint_count (λ v. each (r.pools v)) r.by_uri

-- What MarshalJSON writes: the JSON of the pool for every key.
unfoldable pub registry_json : Registry → Map (List EndpointJson)
registry_json r = map (λ (e : Text × ℕ). (e.0, pool_json (r.pools e.1))) (to_map r.by_uri)
