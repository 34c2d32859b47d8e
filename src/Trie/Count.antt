-- ===== src/Trie/Count.antt =====
-- registry/trie.go: PoolCount under Insert and Delete.
use mathlib.Core.Path.{◌≡◌, refl, ap}
use gorouter.Base.{
  ℕ, ◌+◌, Text, Option, none, some, arith, Option-cases, inl, inr, List, [], ◌∷◌, ◌++◌, text_eq_iff,
  text_eq_refl,
}
use gorouter.Trie.{
  Trie, node, Children, nil, cons, get, put, remove, walk, find_path, insert_path, child_or_new,
  each, each_child, pool_count, clear_path, remove_child, find, insert, path_of, delete,
}
use gorouter.Trie.Find.{find_path-cons, clear_path-cons, find_path-child_or_new}
use gorouter.Trie.Shape.{IsWellFormed, AreWellFormed, get-IsWellFormed}
use gorouter.Trie.Removal.{IsDead}
use gorouter.Trie.Delete.{Pruned, delete-Pruned}
use gorouter.Trie.Segments.{path_of-ne-nil}
use gorouter.Uri.{Uri}

module _ {V : Type 0} where
  abbrev pub held : Option V → ℕ
  held none = 0
  held (some v) = 1

  -- The number of pools, without the running total.
  mutual
    pub count : Trie V → ℕ
    count (node s p cs) = held p + count_child cs

    pub count_child : Children V → ℕ
    count_child nil = 0
    count_child (cons k t cs) = count t + count_child cs

  abbrev tally : ℕ → Trie V → ℕ
  tally n _ = n + 1

  mutual
    unfolding each count

    each-count : (t : Trie V) (n : ℕ) → each tally t n ≡ n + count t
    each-count (node s none cs) n = omega (arith, each_child-count cs n)
    each-count (node s (some v) cs) n = omega (arith, each_child-count cs (n + 1))

    each_child-count : (cs : Children V) (n : ℕ) → each_child tally cs n ≡ n + count_child cs
    each_child-count nil n = omega arith
    each_child-count (cons k t cs) n =
        omega (arith, each_child-count cs (each tally t n), each-count t n)

  pub pool_count-count : (t : Trie V) → pool_count t ≡ count t
  unfolding pool_count
  pool_count-count t = omega (arith, each-count t 0)

  count_found : Option (Trie V) → ℕ
  unfolding count
  count_found none = 0
  count_found (some t) = count t

  count_found-some : (t : Trie V) → count_found (some t) ≡ count t
  unfolding count_found
  count_found-some t = refl

  count-put :
      (k : Text) (t : Trie V) (cs : Children V)
      → count_child (put k t cs) + count_found (get k cs) ≡ count_child cs + count t
  unfolding put get count count_found
  count-put k t nil = omega arith
  count-put k t (cons j u cs) = ground (arith, count-put k t cs)

  count-child_or_new : (k : Text) (o : Option (Trie V)) → count (child_or_new k o) ≡ count_found o
  unfolding count count_found
  count-child_or_new k none = omega arith
  count-child_or_new k (some t) = refl

  abbrev pub fresh : Option V → ℕ
  fresh none = 1
  fresh (some v) = 0

  count-insert_path :
      (t : Trie V) (ks : List Text) (v : V)
      → count (insert_path t ks v) ≡ count t + fresh (find_path t ks)
  unfolding count insert_path find_path walk
  count-insert_path (node s none cs) [] v = omega arith
  count-insert_path (node s (some w) cs) [] v = omega arith
  count-insert_path (node s p cs) (k ∷ ks) v =
      let c = child_or_new k (get k cs) in
      omega (
        arith,
        count-insert_path c ks v,
        count-put k (insert_path c ks v) cs,
        count-child_or_new k (get k cs),
        ap fresh (find_path-cons k ks (node s p cs)),
        ap fresh (find_path-child_or_new k (get k cs) ks),
      )

  -- Insert adds one for a path that had no pool.
  pool_count-insert :
      (r : Trie V) (uri : Uri) (v : V)
      → pool_count (insert r uri v) ≡ pool_count r + fresh (find r uri)
  unfolding insert find
  pool_count-insert r uri v =
      rw (pool_count-count r, pool_count-count (insert_path r (path_of uri) v))
        (count-insert_path r (path_of uri) v)

  get_self : (k : Text) (t : Trie V) (cs : Children V) → get k (cons k t cs) ≡ some t
  unfolding get
  get_self k t cs = ground (arith, text_eq_refl k)

  get-later :
      (k j : Text) (t c : Trie V) (cs : Children V)
      → get k cs ≡ none
      → get j cs ≡ some c
      → get j (cons k t cs) ≡ some c
  unfolding get
  get-later k j t c cs fresh found = ground (arith, text_eq_iff k j)

  mutual
    unfolding count find_path walk

    count-IsDead : (t : Trie V) → IsWellFormed t → IsDead t → count t ≡ 0
    count-IsDead (node s none cs) v dead =
        omega (arith, count_child-IsDead cs v (λ k c found ks. ground (arith, dead (k ∷ ks))))
    count-IsDead (node s (some p) cs) v dead = absurd (ground (arith, dead []))

    count_child-IsDead :
        (cs : Children V)
        → AreWellFormed cs
        → ((k : Text) (c : Trie V) → get k cs ≡ some c → IsDead c)
        → count_child cs ≡ 0
    count_child-IsDead nil v dead = refl
    count_child-IsDead (cons k t cs) v dead = omega (
      arith,
      count-IsDead t v.1 (dead k t (get_self k t cs)),
      count_child-IsDead cs v.3 (λ j c found. dead j c (get-later k j t c cs v.2 found)),
    )

  remove-missing : (k : Text) (cs : Children V) → get k cs ≡ none → remove k cs ≡ cs
  unfolding get remove
  remove-missing k nil e = refl
  remove-missing k (cons j t cs) e = ground (arith, remove-missing k cs)

  count-remove :
      (k : Text) (cs : Children V)
      → AreWellFormed cs
      → count_child (remove k cs) + count_found (get k cs) ≡ count_child cs
  unfolding count count_found get remove
  count-remove k nil v = omega arith
  count-remove k (cons j t cs) v =
      ground (arith, text_eq_iff j k, count-remove k cs v.3, remove-missing j cs v.2)

  -- A removed child under which there is no pool held none.
  count-remove_child :
      (r : Trie V) (ks : List Text) (k : Text)
      → IsWellFormed r
      → ((js : List Text) → find_path r (ks ++ k ∷ js) ≡ none)
      → count (remove_child r ks k) ≡ count r
  unfolding remove_child count
  count-remove_child (node s p cs) [] k v dead = elim (Option-cases (get k cs)) [
    | inl missing ↦ omega (arith, ap count_child (remove-missing k cs missing))
    | inr (c, found) ↦
        let empty =
          count-IsDead c (get-IsWellFormed k cs c found v).1
            (λ js. ground (arith, dead js, find_path-cons k js (node s p cs))) in
        omega (arith, count-remove k cs v, ap count_found found, count_found-some c)
  ]
  count-remove_child (node s p cs) (j ∷ js) k v dead = elim (Option-cases (get j cs)) [
    | inl missing ↦ ground arith
    | inr (c, found) ↦
        let same =
          count-remove_child c js k (get-IsWellFormed j cs c found v).1
            (λ is. ground (arith, dead is, find_path-cons j (js ++ k ∷ is) (node s p cs))) in
        rw (found, remove_child)
          (omega (
            arith,
            same,
            count-put j (remove_child c js k) cs,
            ap count_found found,
            count_found-some c,
          ))
  ]

  count-clear_path :
      (t u : Trie V) (ks : List Text) (v : V)
      → clear_path t ks ≡ some u
      → find_path t ks ≡ some v
      → count u + 1 ≡ count t
  unfolding count clear_path find_path walk
  count-clear_path (node s none cs) u [] v e found = cc
  count-clear_path (node s (some w) cs) u [] v e found =
      let same : u ≡ node s none cs = ground arith in omega (arith, ap count same)
  count-clear_path (node s p cs) u (k ∷ ks) v e found =
      let (c, c', there, done, eq) = clear_path-cons k ks s p cs u e in
      let below : find_path c ks ≡ some v = ground (arith, find_path-cons k ks (node s p cs)) in
      omega (
        arith,
        ap count eq,
        count-clear_path c c' ks v done below,
        count-put k c' cs,
        ap count_found there,
        count_found-some c,
      )

  count-Pruned : (r r' : Trie V) → IsWellFormed r → Pruned r r' → count r' ≡ count r
  count-Pruned r r' v (inl e) = rw e
  count-Pruned r r' v (inr (keep, k, e, dead)) = rw e (count-remove_child r keep k v dead)

  -- Delete takes one away.
  pool_count-delete :
      (r r' : Trie V) (uri : Uri) (v : V)
      → IsWellFormed r
      → find r uri ≡ some v
      → delete r uri ≡ some r'
      → pool_count r' + 1 ≡ pool_count r
  unfolding find delete
  pool_count-delete r r' uri v shape found e =
      let (u, w, done, deleted, kept, pruned) =
        delete-Pruned r (path_of uri) v shape (path_of-ne-nil uri) found in
      let same : w ≡ r' = ground arith in
      omega (
        arith,
        pool_count-count r,
        pool_count-count r',
        ap count same,
        count-Pruned u w kept pruned,
        count-clear_path r u (path_of uri) v done found,
      )

  -- In a trie of good shape where Find finds a pool, PoolCount is one less after Delete of its
  -- URI, and after Insert one more if Find had found nothing for the URI of Insert, and else the
  -- same.
  pub pool_count_lem :
      (r r' : Trie V) (uri uri' : Uri) (v v' : V)
      → IsWellFormed r
      → find r uri ≡ some v
      → delete r uri ≡ some r'
      → (pool_count r' + 1 ≡ pool_count r)
        × (pool_count (insert r uri' v') ≡ pool_count r + fresh (find r uri'))
  pool_count_lem r r' uri uri' v v' shape found e =
      (pool_count-delete r r' uri v shape found e, pool_count-insert r uri' v')
