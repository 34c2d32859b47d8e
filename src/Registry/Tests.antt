-- ===== src/Registry/Tests.antt =====
-- A registry of a few routes, on which the operations are run and the theorems applied.
use gorouter.Base.{
  ℕ, ◌≡◌, ◌≢◌, ◌⊎◌, ◌↔◌, subst, refl, List, [], Option, none, some, Text, codes, arith, cut,
  trim_prefix, trim_suffix, strip_prefix, map_get, map_put, map_delete, ◌≤◌, ◌+◌, lower, to_lower,
}
use gorouter.Uri.{Uri, uri_string, uri_to_lower, route_key, next_wildcard}
use gorouter.Endpoint.{Endpoint}
use mathlib.Core.Option
use gorouter.Pool.{
  new_pool, put, put_new, write, is_empty, prune_endpoints, prune_loop, is_stale, threshold,
  remove_endpoint, move_last,
}
use gorouter.Pool.Invariant.{IsLive, Contains, id_of}
use gorouter.Trie
use gorouter.Trie.{
  Trie, new_trie, find, find_path, walk, insert, insert_path, match_uri, match_path, path_of,
  segments, get, pool_count, remove_child,
}
use gorouter.Trie.Find.{find_path-new_trie}
use gorouter.Registry.{
  Registry, new_registry, write_pool, add_pool, pool_for, register, unregister, lookup, lookup_loop,
  num_uris, prune_stale_droplets, prune_pool,
}
use gorouter.Registry.Routes.{key_path, pool_at, IsSound, HasRoute, IsFit, new_registry-IsSound}
use gorouter.Registry.Register.{register-HasRoute}
use gorouter.Registry.Unregister.{unregister-HasRoute}
use gorouter.Registry.Lookup.{LooksUp, lookup-LooksUp}
use gorouter.Registry.Prune.{RoutesTo, prune_stale_droplets-RoutesTo}
use gorouter.Trie.Snip.{snip, each_at}
use gorouter.Registry.Answers.{register-lookup}

abbrev endpoint : ℕ → Text → Text → Endpoint
endpoint ptr addr id = record {
  ptr = ptr;
  application_id = codes "app";
  addr = addr;
  tags = [];
  private_instance_id = id;
  stale_threshold = 0;
  route_service_url = [];
}

abbrev a : Endpoint
a = endpoint 1 (codes "10.0.0.1:80") (codes "a")

abbrev b : Endpoint
b = endpoint 2 (codes "10.0.0.2:80") (codes "b")

abbrev shop : Uri
shop = codes "*.Foo.com"

abbrev bare : Registry
bare = new_registry 120

abbrev one : Registry
one = register bare shop a 99 100

a-IsFit : IsFit bare shop a
unfolding new_registry
a-IsFit = record {
  own = λ e. cc;
  apart = λ v at. absurd (ground (arith, find_path-new_trie {V = ℕ} (key_path shop)));
  identified = λ v at. absurd (ground (arith, find_path-new_trie {V = ℕ} (key_path shop)));
}

one-IsSound : IsSound one
one-IsSound = (register-HasRoute bare shop a 99 100 (new_registry-IsSound 120) a-IsFit).0

pool_of_shop : (v : ℕ) → pool_at one (key_path shop) ≡ some v → v ≡ 0
unfolding new_registry register pool_for add_pool find find_path walk insert insert_path new_trie
    path_of segments get Trie.put uri_string uri_to_lower route_key to_lower lower cut trim_prefix
    trim_suffix strip_prefix
pool_of_shop v e = ground arith

live_one : (r : ℕ) → IsLive (one.pools 0) r → r ≡ 0
unfolding new_registry register pool_for add_pool write_pool find find_path walk new_trie path_of
    segments get uri_string uri_to_lower route_key to_lower lower cut trim_prefix trim_suffix
    strip_prefix new_pool put put_new write map_get
live_one r e = ground arith

data_of_a : ((one.pools 0).heap 0).endpoint ≡ a
unfolding new_registry register pool_for add_pool write_pool find find_path walk new_trie path_of
    segments get uri_string uri_to_lower route_key to_lower lower cut trim_prefix trim_suffix
    strip_prefix new_pool put put_new write map_get
data_of_a = refl

b-IsFit : IsFit one shop b
b-IsFit = record {
  own = λ e. cc;
  apart = λ v at.
      let is_0 = pool_of_shop v at in
      rw is_0 (record {
        own = λ e. cc;
        id_free = λ r live e. let first = live_one r live in ground (arith, data_of_a);
        addr_free = λ r live e. let first = live_one r live in ground (arith, data_of_a);
      });
  identified = λ v at r live e.
      let is_0 = pool_of_shop v at in
      let live' : IsLive (one.pools 0) r = subst (λ u. IsLive (one.pools u) r) is_0 live in
      let first = live_one r live' in ground (arith, data_of_a);
}

register-HasRoute_example :
    IsSound (register one shop b 101 102)
    × ((ks : List Text) (x : Endpoint)
        → HasRoute (register one shop b 101 102) ks x ↔ (
            ((ks ≡ key_path shop) × (x ≡ b))
            ⊎ (HasRoute one ks x × (ks ≡ key_path shop → x.addr ≢ b.addr))))
register-HasRoute_example = register-HasRoute one shop b 101 102 one-IsSound b-IsFit

register-lookup_example :
    (v : ℕ) × (lookup (register one shop b 101 102) shop ≡ some (some v))
    × ((updated : ℕ) × (f : Option ℕ) × Contains
          ((register one shop b 101 102).pools v)
          b
          updated
          f)
register-lookup_example = register-lookup one shop b 101 102 one-IsSound b-IsFit

address_is_no_id :
    (w : ℕ)
    → pool_at one (key_path shop) ≡ some w
    → (s : ℕ) → IsLive (one.pools w) s
    → id_of (one.pools w) s ≢ a.addr
address_is_no_id w at s live e =
    let is_0 = pool_of_shop w at in
    let live' : IsLive (one.pools 0) s = subst (λ u. IsLive (one.pools u) s) is_0 live in
    let first = live_one s live' in ground (arith, data_of_a)

unregister-HasRoute_example :
    (r' : Registry) × (unregister one shop a ≡ some r')
    × IsSound r'
    × ((ks : List Text) (x : Endpoint)
        → HasRoute r' ks x ↔ (HasRoute one ks x × (ks ≡ key_path shop → x.addr ≢ a.addr)))
unregister-HasRoute_example = unregister-HasRoute one shop a one-IsSound address_is_no_id

lookup-LooksUp_example :
    (o : Option (ℕ)) × (lookup one (codes "bar.foo.com/x?q=1") ≡ some o)
    × LooksUp one.by_uri (route_key (codes "bar.foo.com/x?q=1")) o
lookup-LooksUp_example = lookup-LooksUp one (codes "bar.foo.com/x?q=1")

prune_stale_droplets-RoutesTo_example :
    (r' : Registry) × (prune_stale_droplets one (λ v. 300) ≡ some r')
    × IsSound r'
    × ((ks : List Text) (v : ℕ) (x : Endpoint) (t : ℕ) (f : Option ℕ)
        → RoutesTo r' ks v x t f
          ↔ (RoutesTo one ks v x t f × (300 ≤ t + threshold x one.droplet_stale_threshold)))
prune_stale_droplets-RoutesTo_example = prune_stale_droplets-RoutesTo one (λ v. 300) one-IsSound

-- At 220 the route is still fresh, and at 221 it goes, with its path.
pruned_at : ℕ → Option ℕ
pruned_at now = Option.map num_uris (prune_stale_droplets one (λ v. now))

prune_run : (pruned_at 220 ≡ some 1) × (pruned_at 221 ≡ some 0)
unfolding pruned_at num_uris pool_count Trie.each prune_stale_droplets each_at prune_pool
    prune_endpoints prune_loop is_stale threshold remove_endpoint move_last snip remove_child
    is_empty new_registry register pool_for add_pool write_pool find find_path walk insert
    insert_path new_trie path_of segments get Trie.put Trie.remove uri_string uri_to_lower route_key
    to_lower lower cut trim_prefix trim_suffix strip_prefix new_pool put put_new write map_get
    map_put map_delete
prune_run = (refl, refl)

abbrev Runs : Type 0
Runs =
    -- the wildcard answers, and no other domain does
    (lookup one (codes "bar.foo.com") ≡ some (some 0))
    × (lookup one (codes "foo.com") ≡ some none)
    × (lookup one (codes "bar.foo.com/x") ≡ some (some 0))
    -- a dot in the path is taken for one of the host
    × (lookup one (codes "nosuch/x.foo.com") ≡ some (some 0))

all_Runs : Runs
unfolding new_registry register pool_for add_pool write_pool find find_path walk insert insert_path
    new_trie path_of segments get Trie.put uri_string uri_to_lower route_key to_lower lower cut
    trim_prefix trim_suffix strip_prefix lookup lookup_loop next_wildcard match_uri match_path
all_Runs = (refl, refl, refl, refl)
