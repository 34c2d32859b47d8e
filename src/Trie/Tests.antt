-- ===== src/Trie/Tests.antt =====
-- A trie of three routes, on which the operations are run and the theorems applied.
use gorouter.Base.{
  ℕ, ◌+◌, ◌≡◌, refl, [], ◌∷◌, none, some, codes, trim_prefix, trim_suffix, strip_prefix,
  if◌then◌else◌, map_put, arith,
}
use gorouter.Base.{◌==◌, length, true, ◌↔◌, List, Text}
use gorouter.Endpoint.{Endpoint}
use gorouter.Trie.Snip.{endpoint_count, endpoint_addresses, has, prune_dead_leaves, snip}
use gorouter.Trie.Addresses.{endpoint_count_lem, AreDistinct, serves}
use gorouter.Uri.{Uri, uri_string}
use gorouter.Trie.{
  Trie, new_trie, find, find_path, walk, get, put, remove, insert, insert_path, delete,
  delete_empty_nodes, clear_path, scan, mark, detach, remove_child, match_uri, match_path,
  pool_count, each, path_of, segments, to_map, to_map_from, pool,
}
use gorouter.Trie.Find.{path_eq}
use gorouter.Trie.Shape.{IsWellFormed}
use gorouter.Trie.Delete.{delete-find}
use gorouter.Trie.Matching.{IsLongest, match_uri-IsLongest}
use gorouter.Trie.Find.{insert-find}
use gorouter.Trie.Count.{pool_count_lem, fresh}

abbrev foo : Uri
foo = codes "foo.com"

abbrev foo_a_b : Uri
foo_a_b = codes "foo.com/a/b"

abbrev foo_a_c : Uri
foo_a_c = codes "foo.com/a/c"

abbrev routes : Trie ℕ
routes = insert (insert (insert new_trie foo 1) foo_a_b 2) foo_a_c 3

-- Between "foo.com" and "foo.com/a/b", "foo.com" answers.
longest : match_uri routes (codes "foo.com/a") ≡ some 1
unfolding insert insert_path new_trie match_uri match_path path_of segments get put uri_string
    trim_prefix trim_suffix strip_prefix
longest = refl

-- Two of the three pools are left, and the node of "a" goes with its last child.
delete_two :
    (t : Trie ℕ) × (u : Trie ℕ) × (delete routes foo_a_b ≡ some t)
    × (delete t foo_a_c ≡ some u)
    × (pool_count t ≡ 2)
    × (u ≡ insert new_trie foo 1)
unfolding insert insert_path new_trie path_of segments get put remove uri_string trim_prefix
    trim_suffix strip_prefix delete delete_empty_nodes clear_path scan mark detach remove_child
    pool_count each
delete_two = (_, _, refl, refl, refl, refl)

keys_of_map : to_map routes ≡ (foo, 1) ∷ (foo_a_b, 2) ∷ (foo_a_c, 3) ∷ []
unfolding insert insert_path new_trie path_of segments get put uri_string trim_prefix trim_suffix
    strip_prefix to_map to_map_from map_put
keys_of_map = refl

routes-IsWellFormed : IsWellFormed routes
unfolding insert insert_path new_trie path_of segments get put uri_string trim_prefix trim_suffix
    strip_prefix
routes-IsWellFormed = ground arith

routes_bare : pool routes ≡ none
unfolding insert insert_path new_trie path_of segments get put uri_string trim_prefix trim_suffix
    strip_prefix
routes_bare = refl

b_is_there : find routes foo_a_b ≡ some 2
unfolding insert insert_path new_trie path_of segments get put uri_string trim_prefix trim_suffix
    strip_prefix find find_path walk
b_is_there = refl

match_uri-IsLongest_example :
    IsLongest
      (find_path routes)
      (path_of (codes "foo.com/a/d"))
      (match_uri routes (codes "foo.com/a/d"))
match_uri-IsLongest_example = match_uri-IsLongest routes (codes "foo.com/a/d") routes_bare

delete-find_example :
    (r' : Trie ℕ) × (delete routes foo_a_b ≡ some r')
    × ((u : Uri)
        → find r' u ≡ (if path_eq (path_of foo_a_b) (path_of u) then none else find routes u))
    × IsWellFormed r'
delete-find_example = delete-find routes foo_a_b 2 routes-IsWellFormed b_is_there

insert-find_example : find (insert routes (codes "foo.com/a") 4) foo_a_b ≡ (
    if path_eq (path_of (codes "foo.com/a")) (path_of foo_a_b) then some 4 else find routes foo_a_b)
insert-find_example = insert-find routes (codes "foo.com/a") foo_a_b 4

abbrev pruned : Trie ℕ
pruned = insert (insert new_trie foo 1) foo_a_c 3

deleted : delete routes foo_a_b ≡ some pruned
unfolding insert insert_path new_trie path_of segments get put remove uri_string trim_prefix
    trim_suffix strip_prefix delete delete_empty_nodes clear_path scan mark detach remove_child
deleted = refl

pool_count_lem_example :
    (pool_count pruned + 1 ≡ pool_count routes)
    × (pool_count (insert routes (codes "foo.com/a") 4)
        ≡ pool_count routes + fresh (find routes (codes "foo.com/a")))
pool_count_lem_example =
    pool_count_lem routes pruned foo_a_b (codes "foo.com/a") 2 4 routes-IsWellFormed b_is_there
      deleted

-- Two of the three pools have the endpoint in common, and one is empty.
abbrev behind : ℕ → List Endpoint
behind v =
    if v == 3
    then []
    else record {
      ptr = 1;
      application_id = [];
      addr = codes "10.0.0.1:80";
      tags = [];
      private_instance_id = [];
      stale_threshold = 0;
      route_service_url = [];
    }
      ∷ []

one_address : endpoint_count behind routes ≡ 1
unfolding insert insert_path new_trie path_of segments get put uri_string trim_prefix trim_suffix
    strip_prefix endpoint_count endpoint_addresses
one_address = refl

endpoint_count_lem_example :
    (m : List Text) × (endpoint_count behind routes ≡ length m)
    × AreDistinct m
    × ((k : Text)
        → (has m k ≡ true) ↔ (
            (ks : List Text) × (v : ℕ) × (find_path routes ks ≡ some v)
            × (serves (behind v) k ≡ true)))
endpoint_count_lem_example = endpoint_count_lem behind routes routes-IsWellFormed

-- The leaves without a pool or with an empty one go, and the node of "a" with them.
dead_leaves : prune_dead_leaves (λ v. v == 1) routes [] routes ≡ insert new_trie foo 1
unfolding insert insert_path new_trie path_of segments get put remove uri_string trim_prefix
    trim_suffix strip_prefix prune_dead_leaves snip walk remove_child
dead_leaves = refl
