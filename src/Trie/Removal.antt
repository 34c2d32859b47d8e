-- ===== src/Trie/Removal.antt =====
-- registry/trie.go: a child that is removed from the map of its parent, and the answers of Find.
use mathlib.Core.Path.{◌≡◌, refl}
use mathlib.Core.Logic.{◌⊎◌}
use gorouter.Base.{
  ◌<◌, Text, text_eq_iff, none, some, arith, Option-cases, inl, inr, List, [], ◌∷◌, ◌++◌,
}
use gorouter.Trie.{
  Trie, node, Children, nil, cons, get, put, remove, size, walk, find_path, pool, child_nodes,
  remove_child,
}
use gorouter.Trie.Maps.{get-put, get-remove}
use gorouter.Trie.Find.{find_path-cons}

module _ {V : Type 0} where
  -- No path leads to a pool.
  abbrev pub IsDead : Trie V → Type 0
  IsDead t = (ks : List Text) → find_path t ks ≡ none

  pub walk-append :
      (ks js : List Text) (r n : Trie V) → walk r ks ≡ some n → walk r (ks ++ js) ≡ walk n js
  unfolding walk
  walk-append [] js r n e = ground arith
  walk-append (k ∷ ks) js r n e = elim (Option-cases (get k (child_nodes r))) [
    | inl missing ↦ absurd (ground (arith))
    | inr (c, found) ↦ ground (arith, walk-append ks js c n)
  ]

  pub find_path-append :
      (ks js : List Text) (r n : Trie V)
      → walk r ks ≡ some n
      → find_path r (ks ++ js) ≡ find_path n js
  unfolding find_path
  find_path-append ks js r n e = rw (walk-append ks js r n e)

  get_only :
      (j k : Text) (cs : Children V) (c : Trie V)
      → size cs < 2
      → get k cs ≡ some c
      → (get j cs ≡ none) ⊎ (get j cs ≡ some c)
  unfolding get
  get_only j k nil c h e = inl refl
  get_only j k (cons i t nil) c h e = ground arith
  get_only j k (cons i t (cons i' t' cs)) c h e = absurd (omega arith)

  -- A node with no pool and one child is dead if the child is.
  pub IsDead-above :
      (n c : Trie V) (k : Text)
      → pool n ≡ none
      → size (child_nodes n) < 2
      → get k (child_nodes n) ≡ some c
      → IsDead c
      → IsDead n
  unfolding find_path walk
  IsDead-above n c k p h e dead [] = p
  IsDead-above n c k p h e dead (j ∷ js) =
      ground (arith, find_path-cons j js n, get_only j k (child_nodes n) c h e, dead js)

  -- Removing a child under which there is no pool changes no answer of Find.
  pub find_path-remove_child :
      (ks js : List Text) (k : Text) (r : Trie V)
      → ((is : List Text) → find_path r (ks ++ k ∷ is) ≡ none)
      → find_path (remove_child r ks k) js ≡ find_path r js
  unfolding remove_child find_path walk
  find_path-remove_child [] [] k (node s p cs) dead = refl
  find_path-remove_child [] (j ∷ js) k (node s p cs) dead = ground (
    arith,
    find_path-cons j js (node s p cs),
    find_path-cons j js (node s p (remove k cs)),
    get-remove k j cs,
    text_eq_iff k j,
    dead js,
  )
  find_path-remove_child (i ∷ ks) js k (node s p cs) dead = elim (Option-cases (get i cs)) [
    | inl missing ↦ rw (missing, remove_child)
    | inr (c, found) ↦
        rw (found, remove_child)
          (below c found (λ is. find_path-remove_child ks is k c (buried c found)) js)
  ]
    where
      buried :
          (c : Trie V) → get i cs ≡ some c → (is : List Text) → find_path c (ks ++ k ∷ is) ≡ none
      buried c found is = ground (arith, dead is, find_path-cons i (ks ++ k ∷ is) (node s p cs))

      below :
          (c : Trie V)
          → get i cs ≡ some c
          → ((is : List Text) → find_path (remove_child c ks k) is ≡ find_path c is)
          → (js : List Text)
          → find_path (node s p (put i (remove_child c ks k) cs)) js ≡ find_path (node s p cs) js
      below c found ih [] = refl
      below c found ih (j ∷ js) = ground (
        arith,
        find_path-cons j js (node s p cs),
        find_path-cons j js (node s p (put i (remove_child c ks k) cs)),
        get-put i j (remove_child c ks k) cs,
        text_eq_iff i j,
        ih js,
      )
