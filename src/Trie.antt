-- ===== src/Trie.antt =====
-- registry/trie.go: routes as a tree of path segments. A node keeps the pool's reference; `V` is
-- the type of references. A reference to a node is the path that leads to it from the root, so the
-- field Parent is the path without its last segment.
pub mod Maps
pub mod Segments
pub mod Find
pub mod Shape
pub mod Removal
pub mod Delete
pub mod Matching
pub mod Count
pub mod Snip
pub mod Snipping
pub mod Visits
pub mod Addresses
mod Tests
use mathlib.Core.Path.{◌≡◌, refl}
use mathlib.Core.Bool.{◌&&◌, ◌||◌, not}
use gorouter.Base.{
  ℕ, zero, suc, ◌+◌, List, [], ◌∷◌, ◌++◌, Option, none, some, Bool, true, false, Text, codes, cut,
  trim_prefix, text_eq, if◌then◌else◌, ltb, ◌==◌, length, Map, map_put,
}
use gorouter.Uri.{Uri, uri_string}

mutual
  -- Segment, Pool, ChildNodes.
  pub data Trie (V : Type 0) : Type 0 where
    node : Text → Option V → Children V → Trie V

  -- The map of children, in the order in which `range` meets them.
  pub data Children (V : Type 0) : Type 0 where
    nil : Children V
    cons : Text → Trie V → Children V → Children V

module _ {V : Type 0} where
  abbrev pub segment : Trie V → Text
  segment (node s p cs) = s

  abbrev pub pool : Trie V → Option V
  pool (node s p cs) = p

  abbrev pub child_nodes : Trie V → Children V
  child_nodes (node s p cs) = cs

  abbrev pub size : Children V → ℕ
  size nil = 0
  size (cons k t cs) = suc (size cs)

  -- `m[k]`
  unfoldable pub get : Text → Children V → Option (Trie V)
  get k nil = none
  get k (cons j t cs) = if text_eq j k then some t else get k cs

  -- `m[k] = t`
  unfoldable pub put : Text → Trie V → Children V → Children V
  put k t nil = cons k t nil
  put k t (cons j u cs) = if text_eq j k then cons j t cs else cons j u (put k t cs)

  -- `delete(m, k)`
  unfoldable pub remove : Text → Children V → Children V
  remove k nil = nil
  remove k (cons j u cs) = if text_eq j k then remove k cs else cons j u (remove k cs)

  unfoldable pub new_trie : Trie V
  new_trie = node [] none nil

-- `parts`: the key up to its first slash, and the rest if there is a slash.
unfoldable pub parts : Text → Text × Option Text
parts key = elim (cut b'/' key) [ none ↦ (key, none) | some (a, b) ↦ (a, some b) ]

abbrev onto : ℕ → List Text → List Text
onto c [] = []
onto c (s ∷ ss) = (c ∷ s) ∷ ss

-- The segments that the loops of this file meet one by one: each round takes the first of
-- `parts key` and goes on with the second, while there is one.
unfoldable pub segments : Text → List Text
segments [] = [] ∷ []
segments (c ∷ s) = if c == b'/' then [] ∷ segments s else onto c (segments s)

unfoldable pub path_of : Uri → List Text
path_of uri = segments (trim_prefix (uri_string uri) (codes "/"))

module _ {V : Type 0} where
  -- The loop of Find: the node at the end of the path, if each child is there.
  unfoldable pub walk : Trie V → List Text → Option (Trie V)
  walk n [] = some n
  walk n (s ∷ ss) = elim (get s (child_nodes n)) [ none ↦ none | some c ↦ walk c ss ]

  abbrev pub pool_of : Option (Trie V) → Option V
  pool_of none = none
  pool_of (some n) = pool n

  unfoldable pub find_path : Trie V → List Text → Option V
  find_path r ss = pool_of (walk r ss)

  -- Find; `none` stands for `nil, false`.
  unfoldable pub find : Trie V → Uri → Option V
  find r uri = find_path r (path_of uri)

  abbrev pub or_else : Option V → Option V → Option V
  or_else none q = q
  or_else (some p) q = some p

  -- The loop of MatchUri and the tests after it; `last` is `lastPool`.
  unfoldable pub match_path : Trie V → List Text → Option V → Option V
  match_path n [] last = or_else (pool n) last
  match_path n (s ∷ ss) last = elim (get s (child_nodes n)) [
    | none ↦ or_else (pool n) last
    | some c ↦ match_path c ss (or_else (pool c) last)
  ]

  unfoldable pub match_uri : Trie V → Uri → Option V
  match_uri r uri = match_path r (path_of uri) none

  abbrev pub child_or_new : Text → Option (Trie V) → Trie V
  child_or_new s none = node s none nil
  child_or_new s (some c) = c

  -- The loop of Insert makes each missing child, and the last node gets the pool.
  unfoldable pub insert_path : Trie V → List Text → V → Trie V
  insert_path (node s p cs) [] v = node s (some v) cs
  insert_path (node s p cs) (k ∷ ks) v =
      node s p (put k (insert_path (child_or_new k (get k cs)) ks v) cs)

  unfoldable pub insert : Trie V → Uri → V → Trie V
  insert r uri v = insert_path r (path_of uri) v

abbrev pub is_none {ℓ} : {A : Type ℓ} → Option A → Bool
is_none none = true
is_none (some a) = false

-- `nodeToKeep`, by its path, and `nodeToRemove`, by its segment.
pub record Marks : Type 0 where
  pub keep : List Text
  pub doomed : Option Text

module _ {V : Type 0} where
  abbrev pub is_leaf : Trie V → Bool
  is_leaf n = size (child_nodes n) == 0

  -- The loop of Delete, which then clears the pool of the last node. `none` is a nil dereference:
  -- a child on the path is missing.
  unfoldable pub clear_path : Trie V → List Text → Option (Trie V)
  clear_path (node s p cs) [] = some (node s none cs)
  clear_path (node s p cs) (k ∷ ks) = elim (get k cs) [
    | none ↦ none
    | some c ↦ elim (clear_path c ks) [ none ↦ none | some c' ↦ some (node s p (put k c' cs)) ]
  ]

  -- The tests of one round of deleteEmptyNodes; the child stands at the path `here`.
  unfoldable pub mark : Trie V → List Text → Marks → Marks
  mark c here m =
      if is_none m.doomed && is_none (pool c) && ltb (size (child_nodes c)) 2
      then record m { doomed = some (segment c) }
      else if not (is_none (pool c)) || ltb 1 (size (child_nodes c))
      then record { keep = here; doomed = none }
      else m

  unfoldable pub scan : Trie V → List Text → List Text → Marks → Option (Trie V × Marks)
  scan n [] at m = some (n, m)
  scan n (s ∷ ss) at m = elim (get s (child_nodes n)) [
    | none ↦ none
    | some c ↦ scan c ss (at ++ s ∷ []) (mark c (at ++ s ∷ []) m)
  ]

  -- `delete(keep.ChildNodes, k)`
  unfoldable pub remove_child : Trie V → List Text → Text → Trie V
  remove_child (node s p cs) [] k = node s p (remove k cs)
  remove_child (node s p cs) (j ∷ js) k = elim (get j cs) [
    | none ↦ node s p cs
    | some c ↦ node s p (put j (remove_child c js k) cs)
  ]

  unfoldable pub detach : Trie V → Marks → Option (Trie V)
  detach r m = elim m.doomed [ none ↦ none | some k ↦ some (remove_child r m.keep k) ]

  unfoldable pub delete_empty_nodes : Trie V → List Text → Option (Trie V)
  delete_empty_nodes r ss = elim (scan r ss [] (record { keep = []; doomed = none })) [
    | none ↦ none
    | some (n, m) ↦ if is_leaf n then detach r m else some r
  ]

  unfoldable pub delete : Trie V → Uri → Option (Trie V)
  delete r uri = elim (clear_path r (path_of uri)) [
    | none ↦ none
    | some r' ↦ delete_empty_nodes r' (path_of uri)
  ]

-- EachNodeWithPool, for a callback that reads the node and changes a state of its own.
module _ {V S : Type 0} (f : S → Trie V → S) where
  abbrev visit : Text → Option V → Children V → S → S
  visit s none cs st = st
  visit s (some p) cs st = f st (node s (some p) cs)

  unfoldable mutual
    pub each : Trie V → S → S
    each (node s p cs) st = each_child cs (visit s p cs st)

    pub each_child : Children V → S → S
    each_child nil st = st
    each_child (cons k t cs) st = each_child cs (each t st)

abbrev child_segment : Text → Text → Text
child_segment [] s = s
child_segment (c ∷ seg) s = (c ∷ seg) ++ b'/' ∷ s

module _ {V : Type 0} where
  unfoldable pub pool_count : Trie V → ℕ
  pool_count r = each (λ n _. n + 1) r 0

  abbrev put_pool : Text → Option V → Map V → Map V
  put_pool seg none m = m
  put_pool seg (some p) m = map_put seg p m

  unfoldable mutual
    pub to_map_from : Trie V → Text → Map V → Map V
    to_map_from (node s p cs) seg m = to_map_child cs seg (put_pool seg p m)

    pub to_map_child : Children V → Text → Map V → Map V
    to_map_child nil seg m = m
    to_map_child (cons k t cs) seg m =
        to_map_child cs seg (to_map_from t (child_segment seg (segment t)) m)

  unfoldable pub to_map : Trie V → Map V
  to_map r = to_map_from r (segment r) []
