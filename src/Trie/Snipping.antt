-- ===== src/Trie/Snipping.antt =====
-- registry/trie.go: what Snip does to the answers of Find.
use gorouter.Base.{
  ◌≡◌, ◌⊎◌, inl, inr, refl, sym, ◌∙◌, List, [], ◌∷◌, ◌++◌, none, some, Bool, true, false, not, ◌||◌,
  Text, text_eq_iff, if◌then◌else◌, arith, Option-cases, Bool-cases,
}
use gorouter.Trie.{
  Trie, node, nil, cons, get, put, remove, walk, find_path, pool, segment, is_leaf, remove_child,
  child_nodes,
}
use gorouter.Trie.Maps.{get-put, get-remove}
use gorouter.Trie.Find.{path_eq, path_eq_iff, find_path-cons}
use gorouter.Trie.Shape.{
  IsWellFormed, IsWellFormed-children, get-IsWellFormed, remove_child-IsWellFormed,
}
use gorouter.Trie.Snip.{snip, path_up, holds}

module _ {V : Type 0} where
  nothing_below :
      (n : Trie V) (k : Text) (ks : List Text) → is_leaf n ≡ true → find_path n (k ∷ ks) ≡ none
  unfolding find_path walk get
  nothing_below (node s p nil) k ks leaf = refl
  nothing_below (node s p (cons j t cs)) k ks leaf = absurd (ground arith)

  find_path-nil : (n : Trie V) → find_path n [] ≡ pool n
  unfolding find_path walk
  find_path-nil n = refl

  -- Without a leaf, exactly the pool of the leaf is missing.
  find_path-remove_leaf :
      (ks js : List Text) (k : Text) (r n : Trie V)
      → walk r (ks ++ k ∷ []) ≡ some n
      → is_leaf n ≡ true
      → find_path (remove_child r ks k) js
        ≡ (if path_eq (ks ++ k ∷ []) js then none else find_path r js)
  unfolding remove_child walk
  find_path-remove_leaf [] [] k (node s p cs) n e leaf =
      ground (arith, find_path-nil (node s p cs), find_path-nil (node s p (remove k cs)))
  find_path-remove_leaf [] (j ∷ []) k (node s p cs) n e leaf = ground (
    arith,
    find_path-cons j [] (node s p cs),
    find_path-cons j [] (node s p (remove k cs)),
    get-remove k j cs,
    text_eq_iff k j,
  )
  find_path-remove_leaf [] (j ∷ i ∷ js) k (node s p cs) n e leaf = ground (
    arith,
    find_path-cons j (i ∷ js) (node s p cs),
    find_path-cons j (i ∷ js) (node s p (remove k cs)),
    get-remove k j cs,
    text_eq_iff k j,
    nothing_below n i js leaf,
  )
  find_path-remove_leaf (i ∷ ks) js k (node s p cs) n e leaf = elim (Option-cases (get i cs)) [
    | inl missing ↦ absurd (ground arith)
    | inr (c, found) ↦
        rw (found, remove_child)
          (below js c found (λ is. find_path-remove_leaf ks is k c n (ground arith) leaf))
  ]
    where
      below :
          (js : List Text) (c : Trie V)
          → get i cs ≡ some c
          → ((is : List Text)
              → find_path (remove_child c ks k) is
                ≡ (if path_eq (ks ++ k ∷ []) is then none else find_path c is))
          → find_path (node s p (put i (remove_child c ks k) cs)) js
            ≡ (if path_eq (i ∷ ks ++ k ∷ []) js then none else find_path (node s p cs) js)
      below [] c found ih = ground (
        arith,
        find_path-nil (node s p cs),
        find_path-nil (node s p (put i (remove_child c ks k) cs)),
      )
      below (j ∷ js) c found ih = ground (
        arith,
        find_path-cons j js (node s p cs),
        find_path-cons j js (node s p (put i (remove_child c ks k) cs)),
        get-put i j (remove_child c ks k) cs,
        text_eq_iff i j,
        ih js,
      )

  walk-last-segment :
      (ks : List Text) (k : Text) (r n : Trie V)
      → IsWellFormed r
      → walk r (ks ++ k ∷ []) ≡ some n
      → segment n ≡ k
  unfolding walk
  walk-last-segment [] k r n shape e = elim (Option-cases (get k (child_nodes r))) [
    | inl missing ↦ absurd (ground arith)
    | inr (c, found) ↦
        let named =
          (get-IsWellFormed k (child_nodes r) c found (IsWellFormed-children r shape)).0 in
        ground arith
  ]
  walk-last-segment (i ∷ ks) k r n shape e = elim (Option-cases (get i (child_nodes r))) [
    | inl missing ↦ absurd (ground arith)
    | inr (c, found) ↦
        walk-last-segment ks k c n
          (get-IsWellFormed i (child_nodes r) c found (IsWellFormed-children r shape)).1
          (ground arith)
  ]

  -- `t'` has the pools of `t`, but for some that are not busy.
  abbrev pub Sheds : (V → Bool) → Trie V → Trie V → Type 0
  Sheds busy t t' =
      (js : List Text)
      → (find_path t' js ≡ find_path t js)
        ⊎ ((find_path t' js ≡ none) × ((v : V) → find_path t js ≡ some v → busy v ≡ false))

  find_path-walk : (ks : List Text) (r n : Trie V) → walk r ks ≡ some n → find_path r ks ≡ pool n
  unfolding find_path
  find_path-walk ks r n e = ground arith

  remove_leaf-Sheds :
      (busy : V → Bool) (ks : List Text) (k : Text) (r n : Trie V)
      → walk r (ks ++ k ∷ []) ≡ some n
      → is_leaf n ≡ true
      → holds busy (pool n) ≡ false
      → Sheds busy r (remove_child r ks k)
  remove_leaf-Sheds busy ks k r n e leaf idle js = elim (Bool-cases (path_eq (ks ++ k ∷ []) js)) [
    | inl same ↦ inr (
      ground (arith, find_path-remove_leaf ks js k r n e leaf),
      λ v at.
          let eq = (path_eq_iff (ks ++ k ∷ []) js).0 same in
          let here : find_path r (ks ++ k ∷ []) ≡ some v = rw eq at in
          let has : pool n ≡ some v = sym (find_path-walk (ks ++ k ∷ []) r n e) ∙ here in
          ground arith,
    )
    | inr differ ↦ inl (ground (arith, find_path-remove_leaf ks js k r n e leaf))
  ]

  Sheds-trans :
      (busy : V → Bool) (t u w : Trie V) → Sheds busy t u → Sheds busy u w → Sheds busy t w
  Sheds-trans busy t u w a b js = elim (a js) [
    | inl same ↦ elim (b js) [
      | inl same' ↦ inl (same' ∙ same)
      | inr (gone, idle) ↦ inr (gone, λ v at. idle v (same ∙ at))
    ]
    | inr (gone, idle) ↦ elim (b js) [
      | inl same' ↦ inr (same' ∙ gone, idle)
      | inr (gone', _) ↦ inr (gone', idle)
    ]
  ]

  -- Snip keeps the shape of the trie, and every pool that is busy.
  pub snip-Sheds :
      (busy : V → Bool) (up : List Text) (t : Trie V)
      → IsWellFormed t
      → IsWellFormed (snip busy t up) × Sheds busy t (snip busy t up)
  unfolding snip
  snip-Sheds busy [] t shape = (shape, λ js. inl refl)
  snip-Sheds busy (k ∷ up) t shape = elim (Option-cases (walk t (path_up (k ∷ up)))) [
    | inl missing ↦ rw (missing, snip) (shape, λ js. inl refl)
    | inr (n, there) ↦ elim (Bool-cases (holds busy (pool n) || not (is_leaf n))) [
      | inl kept ↦ rw (there, snip, kept) (shape, λ js. inl refl)
      | inr idle ↦
          let named : segment n ≡ k = walk-last-segment (path_up up) k t n shape there in
          let (shape', rest) =
            snip-Sheds busy up (remove_child t (path_up up) k)
              (remove_child-IsWellFormed t (path_up up) k shape).1 in
          let first =
            remove_leaf-Sheds busy (path_up up) k t n there (ground arith) (ground arith) in
          rw (there, snip, idle, named)
            (shape', Sheds-trans busy t (remove_child t (path_up up) k) _ first rest)
    ]
  ]
