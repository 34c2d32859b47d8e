-- ===== src/Trie/Snip.antt =====
-- registry/trie.go: Snip and what uses it, and the visit of all nodes by a callback that changes
-- the trie. A node is named by its path, last segment first.
use gorouter.Base.{
  ℕ, List, [], ◌∷◌, ◌++◌, Option, none, some, Bool, true, false, not, ◌||◌, Text, if◌then◌else◌,
  ◌==◌, text_eq, length,
}
use gorouter.Endpoint.{Endpoint, canonical_addr}
use gorouter.Trie.{
  Trie, node, Children, nil, cons, walk, pool, segment, is_leaf, remove_child, size,
}

abbrev pub path_up : List Text → List Text
path_up [] = []
path_up (k ∷ up) = path_up up ++ k ∷ []

module _ {V : Type 0} where
  abbrev pub holds : (V → Bool) → Option V → Bool
  holds busy none = false
  holds busy (some v) = busy v

  -- Snip; `busy` says of a pool that it is not empty.
  unfoldable pub snip : (V → Bool) → Trie V → List Text → Trie V
  snip busy r [] = r
  snip busy r (k ∷ up) = elim (walk r (path_up (k ∷ up))) [
    | none ↦ r
    | some n ↦ elim (holds busy (pool n) || not (is_leaf n)) [
      | true ↦ r
      | false ↦ snip busy (remove_child r (path_up up) (segment n)) up
    ]
  ]

  unfoldable mutual
    -- PruneDeadLeaves of the node at `up`. What it removes it has visited before.
    pub prune_dead_leaves : (V → Bool) → Trie V → List Text → Trie V → Trie V
    prune_dead_leaves busy (node s p cs) up r =
        prune_dead_children busy cs up (if size cs == 0 then snip busy r up else r)

    pub prune_dead_children : (V → Bool) → Children V → List Text → Trie V → Trie V
    prune_dead_children busy nil up r = r
    prune_dead_children busy (cons k t cs) up r =
        prune_dead_children busy cs up (prune_dead_leaves busy t (k ∷ up) r)

-- EachNodeWithPool, for a callback that gets the path and the pool of the node, changes the state
-- and can panic. It removes no node that is still to be visited.
module _ {V S : Type 0} (f : S → List Text → V → Option S) where
  abbrev visit_at : Option V → List Text → S → Option S
  visit_at none up st = some st
  visit_at (some v) up st = f st up v

  unfoldable mutual
    pub each_at : Trie V → List Text → S → Option S
    each_at (node s p cs) up st = elim (visit_at p up st) [
      | none ↦ none
      | some st' ↦ each_at_child cs up st'
    ]

    pub each_at_child : Children V → List Text → S → Option S
    each_at_child nil up st = some st
    each_at_child (cons k t cs) up st = elim (each_at t (k ∷ up) st) [
      | none ↦ none
      | some st' ↦ each_at_child cs up st'
    ]

-- The keys of a map of empty structs.
abbrev pub has : List Text → Text → Bool
has [] k = false
has (j ∷ ks) k = text_eq j k || has ks k

-- `m[k] = struct{}{}`
abbrev pub add_key : Text → List Text → List Text
add_key k ks = if has ks k then ks else k ∷ ks

abbrev pub add_addresses : List Endpoint → List Text → List Text
add_addresses [] m = m
add_addresses (e ∷ es) m = add_addresses es (add_key (canonical_addr e) m)

-- `endpoints` lists what Each of the pool meets.
module _ {V : Type 0} (endpoints : V → List Endpoint) where
  abbrev pub add_pool_addresses : Option V → List Text → List Text
  add_pool_addresses none m = m
  add_pool_addresses (some v) m = add_addresses (endpoints v) m

  unfoldable mutual
    pub endpoint_addresses : Trie V → List Text → List Text
    endpoint_addresses (node s p cs) m = child_addresses cs (add_pool_addresses p m)

    pub child_addresses : Children V → List Text → List Text
    child_addresses nil m = m
    child_addresses (cons k t cs) m = child_addresses cs (endpoint_addresses t m)

  unfoldable pub endpoint_count : Trie V → ℕ
  endpoint_count r = length (endpoint_addresses r [])
