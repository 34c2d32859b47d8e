-- ===== src/Trie/Shape.antt =====
-- The shape of a trie: the keys of each map of children are distinct, and the field Segment of a
-- node is the key under which its parent keeps it.
use mathlib.Core.Path.{subst, ◌≡◌, refl, ◌∙◌}
use gorouter.Base.{Text, text_eq_iff, none, some, arith, Option-cases, inl, inr, List, [], ◌∷◌}
use gorouter.Trie.Find.{clear_path-cons}
use gorouter.Trie.Maps
use gorouter.Trie.{
  Trie, node, Children, nil, cons, get, put, remove, segment, child_nodes, insert_path,
  child_or_new, clear_path, remove_child,
}

module _ {V : Type 0} where
  abbrev mutual
    pub IsWellFormed : Trie V → Type 0
    IsWellFormed (node s p cs) = AreWellFormed cs

    pub AreWellFormed : Children V → Type 0
    AreWellFormed nil = Unit
    AreWellFormed (cons k t cs) =
        (segment t ≡ k) × IsWellFormed t × (get k cs ≡ none) × AreWellFormed cs

  -- Named children, and named nodes below them.
  pub IsWellFormed-children : (t : Trie V) → IsWellFormed t → AreWellFormed (child_nodes t)
  IsWellFormed-children (node s p cs) n = n

  pub get-IsWellFormed :
      (k : Text) (cs : Children V) (c : Trie V)
      → get k cs ≡ some c
      → AreWellFormed cs
      → (segment c ≡ k) × IsWellFormed c
  unfolding get
  get-IsWellFormed k nil c e v = absurd (ground arith)
  get-IsWellFormed k (cons j t cs) c e v = ground (arith, text_eq_iff j k, get-IsWellFormed k cs c)

  put-AreWellFormed :
      (k : Text) (t : Trie V) (cs : Children V)
      → segment t ≡ k
      → IsWellFormed t
      → AreWellFormed cs
      → AreWellFormed (put k t cs)
  unfolding put get
  put-AreWellFormed k t nil e n v = (e, n, refl, tt)
  put-AreWellFormed k t (cons j u cs) e n v = ground (
    arith,
    text_eq_iff j k,
    text_eq_iff k j,
    put-AreWellFormed k t cs e n v.3,
    Maps.get-put k j t cs,
  )

  pub remove-AreWellFormed :
      (k : Text) (cs : Children V) → AreWellFormed cs → AreWellFormed (remove k cs)
  unfolding remove
  remove-AreWellFormed k nil v = tt
  remove-AreWellFormed k (cons j u cs) v =
      ground (arith, remove-AreWellFormed k cs v.3, Maps.get-remove k j cs)

  pub segment-insert_path :
      (t : Trie V) (ks : List Text) (v : V) → segment (insert_path t ks v) ≡ segment t
  unfolding insert_path
  segment-insert_path (node s p cs) [] v = refl
  segment-insert_path (node s p cs) (k ∷ ks) v = refl

  child_or_new-IsWellFormed :
      (k : Text) (cs : Children V)
      → AreWellFormed cs
      → (segment (child_or_new k (get k cs)) ≡ k) × IsWellFormed (child_or_new k (get k cs))
  child_or_new-IsWellFormed k cs v = elim (Option-cases (get k cs)) [
    | inl missing ↦ rw missing (refl, tt)
    | inr (c, found) ↦ rw found (get-IsWellFormed k cs c found v)
  ]

  pub insert_path-IsWellFormed :
      (t : Trie V) (ks : List Text) (v : V) → IsWellFormed t → IsWellFormed (insert_path t ks v)
  unfolding insert_path
  insert_path-IsWellFormed (node s p cs) [] v n = n
  insert_path-IsWellFormed (node s p cs) (k ∷ ks) v n =
      let c = child_or_new k (get k cs) in
      let (named, below) = child_or_new-IsWellFormed k cs n in
      put-AreWellFormed k (insert_path c ks v) cs (segment-insert_path c ks v ∙ named)
        (insert_path-IsWellFormed c ks v below) n

  pub clear_path-IsWellFormed :
      (t : Trie V) (ks : List Text) (u : Trie V)
      → clear_path t ks ≡ some u
      → IsWellFormed t
      → (segment u ≡ segment t) × IsWellFormed u
  unfolding clear_path
  clear_path-IsWellFormed (node s p cs) [] u e n =
      let same : node s none cs ≡ u = ground arith in
      subst (λ w. (segment w ≡ s) × IsWellFormed w) same (refl, n)
  clear_path-IsWellFormed (node s p cs) (k ∷ ks) u e n =
      let (c, c', found, done, eq) = clear_path-cons k ks s p cs u e in
      let (named, below) = get-IsWellFormed k cs c found n in
      let (same, kept) = clear_path-IsWellFormed c ks c' done below in
      rw eq (refl, put-AreWellFormed k c' cs (same ∙ named) kept n)

  pub remove_child-IsWellFormed :
      (t : Trie V) (ks : List Text) (k : Text)
      → IsWellFormed t
      → (segment (remove_child t ks k) ≡ segment t) × IsWellFormed (remove_child t ks k)
  unfolding remove_child
  remove_child-IsWellFormed (node s p cs) [] k n = (refl, remove-AreWellFormed k cs n)
  remove_child-IsWellFormed (node s p cs) (j ∷ js) k n = elim (Option-cases (get j cs)) [
    | inl missing ↦ rw (missing, remove_child) (refl, n)
    | inr (c, found) ↦
        let (named, below) = get-IsWellFormed j cs c found n in
        let (same, kept) = remove_child-IsWellFormed c js k below in
        rw (found, remove_child)
          (refl, put-AreWellFormed j (remove_child c js k) cs (same ∙ named) kept n)
  ]
