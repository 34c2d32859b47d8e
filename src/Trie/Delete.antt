-- ===== src/Trie/Delete.antt =====
-- registry/trie.go: Delete and deleteEmptyNodes.
use mathlib.Core.Path.{◌≡◌, refl, ◌∙◌}
use mathlib.Core.Logic.{◌≢◌, ◌⊎◌}
use mathlib.Core.List.{append_assoc, append-nil}
use gorouter.Base.{
  ◌<◌, Text, text_eq_refl, Option, none, some, if◌then◌else◌, arith, Bool-cases, Option-cases, inl,
  inr, List, [], ◌∷◌, ◌++◌, true,
}
use gorouter.Trie.{
  Trie, node, nil, cons, get, size, walk, find_path, pool, child_nodes, segment, clear_path, Marks,
  mark, scan, remove_child, detach, delete_empty_nodes, is_leaf, delete, find, path_of,
}
use gorouter.Trie.Maps.{get-put}
use gorouter.Trie.Find.{
  find_path-cons, path_eq, clear_path-cons, find_path-clear_path, clear_path-total,
}
use gorouter.Trie.Segments.{path_of-ne-nil}
use gorouter.Uri.{Uri}
use gorouter.Trie.Shape.{
  IsWellFormed, IsWellFormed-children, get-IsWellFormed, remove_child-IsWellFormed,
  clear_path-IsWellFormed,
}
use gorouter.Trie.Removal.{
  IsDead, walk-append, find_path-append, IsDead-above, find_path-remove_child,
}

module _ {V : Type 0} where
  -- The state of the loop of deleteEmptyNodes at the node `n`, which stands at the path `at`.
  record Scanned (r n : Trie V) (at : List Text) (m : Marks) : Type 0 where
    here : walk r at ≡ some n
    kept : m.doomed ≡ none → m.keep ≡ at
    awake : m.doomed ≡ none → (at ≡ []) ⊎ (pool n ≢ none) ⊎ (1 < size (child_nodes n))
    thin : (k : Text) → m.doomed ≡ some k → (pool n ≡ none) × (size (child_nodes n) < 2)
    sunk :
        (k : Text)
        → m.doomed ≡ some k
        → IsDead n
        → (ks : List Text) → find_path r (m.keep ++ k ∷ ks) ≡ none

  -- What one round makes of the marks.
  mark_cases :
      (c : Trie V) (at : List Text) (m : Marks)
      → ((m.doomed ≡ none)
          × (pool c ≡ none)
          × (size (child_nodes c) < 2)
          × (mark c at m ≡ record m { doomed = some (segment c) }))
        ⊎ (((pool c ≢ none) ⊎ (1 < size (child_nodes c)))
            × (mark c at m ≡ record { keep = at; doomed = none }))
        ⊎ ((m.doomed ≢ none) × (pool c ≡ none) × (size (child_nodes c) < 2) × (mark c at m ≡ m))
  unfolding mark
  mark_cases c at m = ground arith

  walk-concat :
      (at : List Text) (s : Text) (r n c : Trie V)
      → walk r at ≡ some n
      → get s (child_nodes n) ≡ some c
      → walk r (at ++ s ∷ []) ≡ some c
  unfolding walk
  walk-concat at s r n c e found = ground (arith, walk-append at (s ∷ []) r n e)

  mark-Scanned :
      (r n c : Trie V) (at : List Text) (s : Text) (m : Marks)
      → IsWellFormed n
      → get s (child_nodes n) ≡ some c
      → Scanned r n at m
      → Scanned r c (at ++ s ∷ []) (mark c (at ++ s ∷ []) m)
  mark-Scanned r n c at s m named found v = elim (mark_cases c (at ++ s ∷ []) m) [
    | inl (free, empty, few, e) ↦ rw e (record {
      here = walk-concat at s r n c v.here found;
      kept = λ h. cc;
      awake = λ h. cc;
      thin = λ k h. (empty, few);
      sunk = λ k h dead ks. ground (
        arith,
        v.kept free,
        (get-IsWellFormed s (child_nodes n) c found (IsWellFormed-children n named)).0,
        find_path-append at (s ∷ ks) r n v.here,
        find_path-cons s ks n,
        dead ks,
      );
    })
    | inr rest ↦ elim rest [
      | inl (busy, e) ↦ rw e (record {
        here = walk-concat at s r n c v.here found;
        kept = λ h. refl;
        awake = λ h. inr busy;
        thin = λ k h. cc;
        sunk = λ k h. cc;
      })
      | inr (taken, empty, few, e) ↦ rw e (record {
        here = walk-concat at s r n c v.here found;
        kept = λ h. absurd (taken h);
        awake = λ h. absurd (taken h);
        thin = λ k h. (empty, few);
        sunk = λ k h dead. v.sunk k h (IsDead-above n c s (v.thin k h).0 (v.thin k h).1 found dead);
      })
    ]
  ]

  scan-Scanned :
      (ss at : List Text) (r n n' : Trie V) (m m' : Marks)
      → IsWellFormed n
      → Scanned r n at m
      → scan n ss at m ≡ some (n', m')
      → Scanned r n' (at ++ ss) m'
  unfolding scan
  scan-Scanned [] at r n n' m m' named v e =
      let same_n : n ≡ n' = ground arith in
      let same_m : m ≡ m' = ground arith in rw (append-nil at, ← same_n, ← same_m) v
  scan-Scanned (s ∷ ss) at r n n' m m' named v e = elim (Option-cases (get s (child_nodes n))) [
    | inl missing ↦ absurd (ground arith)
    | inr (c, found) ↦ rw (← append_assoc at (s ∷ []) ss) (
        scan-Scanned ss (at ++ s ∷ []) r c n' (mark c (at ++ s ∷ []) m) m'
          (get-IsWellFormed s (child_nodes n) c found (IsWellFormed-children n named)).1
          (mark-Scanned r n c at s m named found v) (ground arith))
  ]

  scan-total :
      (ss at : List Text) (n n' : Trie V) (m : Marks)
      → walk n ss ≡ some n'
      → (m' : Marks) × (scan n ss at m ≡ some (n', m'))
  unfolding scan walk
  scan-total [] at n n' m e = (m, ground arith)
  scan-total (s ∷ ss) at n n' m e = elim (Option-cases (get s (child_nodes n))) [
    | inl missing ↦ absurd (ground arith)
    | inr (c, found) ↦
        let (m', done) =
          scan-total ss (at ++ s ∷ []) c n' (mark c (at ++ s ∷ []) m) (ground arith) in
        (m', ground arith)
  ]

  leaf-IsDead : (n : Trie V) → pool n ≡ none → is_leaf n ≡ true → IsDead n
  unfolding find_path walk get
  leaf-IsDead (node s p nil) empty leaf [] = empty
  leaf-IsDead (node s p nil) empty leaf (k ∷ ks) = refl
  leaf-IsDead (node s p (cons k t cs)) empty leaf ks = absurd (ground arith)

  -- The marks at the end of the path, when the last node has no pool and no child.
  detach_lem :
      (r n : Trie V) (s : Text) (ss : List Text) (m : Marks)
      → Scanned r n (s ∷ ss) m
      → pool n ≡ none
      → is_leaf n ≡ true
      → (k : Text) × (m.doomed ≡ some k)
        × ((js : List Text) → find_path r (m.keep ++ k ∷ js) ≡ none)
  detach_lem r n s ss m v empty leaf = elim (Option-cases m.doomed) [
    | inl free ↦ absurd (ground (arith, v.awake free))
    | inr (k, e) ↦ (k, e, v.sunk k e (leaf-IsDead n empty leaf))
  ]

  -- `r'` is `r`, or `r` without one child under which there was no pool.
  abbrev pub Pruned : Trie V → Trie V → Type 0
  Pruned r r' =
      (r' ≡ r)
      ⊎ ((keep : List Text) × (k : Text) × (r' ≡ remove_child r keep k)
          × ((js : List Text) → find_path r (keep ++ k ∷ js) ≡ none))

  delete_empty_nodes-Pruned :
      (r n : Trie V) (s : Text) (ss : List Text)
      → IsWellFormed r
      → walk r (s ∷ ss) ≡ some n
      → pool n ≡ none
      → (r' : Trie V) × (delete_empty_nodes r (s ∷ ss) ≡ some r') × Pruned r r'
  unfolding delete_empty_nodes detach walk
  delete_empty_nodes-Pruned r n s ss shape e empty =
      let start : Marks = record { keep = []; doomed = none } in
      let (m, scanned) = scan-total (s ∷ ss) [] r n start e in
      let v = scan-Scanned (s ∷ ss) [] r r n start m shape (started r) scanned in
      elim (Bool-cases (is_leaf n)) [
        | inl leaf ↦
            let (k, doomed, dead) = detach_lem r n s ss m v empty leaf in
            (remove_child r m.keep k, ground arith, inr (m.keep, k, refl, dead))
        | inr inner ↦ (r, ground arith, inl refl)
      ]
    where
      started : (r : Trie V) → Scanned r r [] (record { keep = []; doomed = none })
      started r = record {
        here = refl;
        kept = λ h. refl;
        awake = λ h. inl refl;
        thin = λ k h. cc;
        sunk = λ k h. cc;
      }

  Pruned-find_path :
      (r r' : Trie V) → Pruned r r' → (js : List Text) → find_path r' js ≡ find_path r js
  Pruned-find_path r r' (inl e) js = rw e
  Pruned-find_path r r' (inr (keep, k, e, dead)) js = rw e (find_path-remove_child keep js k r dead)

  Pruned-IsWellFormed : (r r' : Trie V) → Pruned r r' → IsWellFormed r → IsWellFormed r'
  Pruned-IsWellFormed r r' (inl e) v = rw e v
  Pruned-IsWellFormed r r' (inr (keep, k, e, dead)) v =
      rw e (remove_child-IsWellFormed r keep k v).1

  walk-clear_path :
      (ks : List Text) (t u : Trie V)
      → clear_path t ks ≡ some u
      → (n : Trie V) × (walk u ks ≡ some n) × (pool n ≡ none)
  unfolding clear_path walk
  walk-clear_path [] (node s p cs) u e = (u, refl, ground arith)
  walk-clear_path (k ∷ ks) (node s p cs) u e =
      let (c, c', found, done, eq) = clear_path-cons k ks s p cs u e in
      let (n, there, empty) = walk-clear_path ks c c' done in
      (n, ground (arith, get-put k k c' cs, text_eq_refl k), empty)

  abbrev pub cleared : Trie V → List Text → Option (Trie V)
  cleared r ks = elim (clear_path r ks) [ none ↦ none | some u ↦ delete_empty_nodes u ks ]

  clear_path-none : (ks : List Text) (t : Trie V) → walk t ks ≡ none → clear_path t ks ≡ none
  unfolding walk clear_path
  clear_path-none [] t e = cc
  clear_path-none (k ∷ ks) (node s p cs) e = elim (Option-cases (get k cs)) [
    | inl missing ↦ ground arith
    | inr (c, found) ↦ ground (arith, clear_path-none ks c)
  ]

  -- Delete clears the last node of the path, and then prunes.
  pub delete-Pruned :
      (r : Trie V) (ks : List Text) (v : V)
      → IsWellFormed r
      → ks ≢ []
      → find_path r ks ≡ some v
      → (u : Trie V) × (r' : Trie V) × (clear_path r ks ≡ some u)
        × (cleared r ks ≡ some r')
        × IsWellFormed u
        × Pruned u r'
  delete-Pruned r [] v shape some_path e = absurd (some_path refl)
  delete-Pruned r (k ∷ ks) v shape some_path e =
      let (u, done) = clear_path-total (k ∷ ks) r v e in
      let (n, there, empty) = walk-clear_path (k ∷ ks) r u done in
      let kept = (clear_path-IsWellFormed r (k ∷ ks) u done shape).1 in
      let (r', deleted, pruned) = delete_empty_nodes-Pruned u n k ks kept there empty in
      (u, r', done, rw (done, cleared) deleted, kept, pruned)

  pub delete-find_path :
      (r : Trie V) (uri : Uri) (v : V)
      → IsWellFormed r
      → find_path r (path_of uri) ≡ some v
      → (r' : Trie V) × (delete r uri ≡ some r')
        × ((js : List Text)
            → find_path r' js ≡ (if path_eq (path_of uri) js then none else find_path r js))
        × IsWellFormed r'
  unfolding delete
  delete-find_path r uri v shape e =
      let (u, r', done, deleted, kept, pruned) =
        delete-Pruned r (path_of uri) v shape (path_of-ne-nil uri) e in
      (
        r',
        deleted,
        λ js. Pruned-find_path u r' pruned js ∙ find_path-clear_path (path_of uri) js r u done,
        Pruned-IsWellFormed u r' pruned kept,
      )

  -- In a trie whose maps of children have distinct keys, equal to the Segment of the child, where
  -- Find finds a pool, Delete does not panic; afterwards Find finds no pool for that URI and for
  -- those with the same path, and the same pool as before for every other URI. The shape of the
  -- trie stays.
  pub delete-find :
      (r : Trie V) (uri : Uri) (v : V)
      → IsWellFormed r
      → find r uri ≡ some v
      → (r' : Trie V) × (delete r uri ≡ some r')
        × ((u : Uri) → find r' u ≡ (if path_eq (path_of uri) (path_of u) then none else find r u))
        × IsWellFormed r'
  unfolding find
  delete-find r uri v shape e =
      let (r', deleted, after, kept) = delete-find_path r uri v shape e in
      (r', deleted, λ w. after (path_of w), kept)

  -- Without a node for the path, Delete panics.
  pub delete_missing : (r : Trie V) (uri : Uri) → walk r (path_of uri) ≡ none → delete r uri ≡ none
  unfolding delete
  delete_missing r uri e = ground (arith, clear_path-none (path_of uri) r e)
