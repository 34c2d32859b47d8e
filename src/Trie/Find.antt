-- ===== src/Trie/Find.antt =====
-- What Find answers after Insert and after the steps of Delete.
use mathlib.Core.Path.{◌≡◌, refl}
use mathlib.Core.Logic.{◌↔◌, ◌⊎◌, ◌≢◌}
use gorouter.Base.{
  Text, text_eq, text_eq_iff, Option, none, some, if◌then◌else◌, arith, Option-cases, Bool-cases,
  inl, inr, List, [], ◌∷◌, ◌&&◌, Bool, true, false,
}
use gorouter.Trie.{
  Trie, node, Children, get, put, walk, find_path, child_nodes, insert_path, child_or_new,
  clear_path, find, insert, path_of, new_trie,
}
use gorouter.Uri.{Uri}
use gorouter.Trie.Maps.{get-put}

-- `s == t` for paths.
abbrev pub path_eq : List Text → List Text → Bool
path_eq [] [] = true
path_eq (s ∷ ss) (t ∷ ts) = text_eq s t && path_eq ss ts
path_eq _ _ = false

pub path_eq_iff : (ss ts : List Text) → (path_eq ss ts ≡ true) ↔ (ss ≡ ts)
path_eq_iff [] [] = (λ _. refl, λ _. refl)
path_eq_iff [] (t ∷ ts) = (λ e. cc, λ e. cc)
path_eq_iff (s ∷ ss) [] = (λ e. cc, λ e. cc)
path_eq_iff (s ∷ ss) (t ∷ ts) = (
  λ e. ground (arith, text_eq_iff s t, path_eq_iff ss ts),
  λ e. ground (arith, text_eq_iff s t, path_eq_iff ss ts),
)

pub path_cases : (ks js : List Text) → (ks ≡ js) ⊎ (ks ≢ js)
path_cases ks js = elim (Bool-cases (path_eq ks js)) [
  | inl same ↦ inl ((path_eq_iff ks js).0 same)
  | inr other ↦ inr (λ e. let t = (path_eq_iff ks js).1 e in absurd (ground (arith, t, other)))
]

abbrev pub find_in : {V : Type 0} → Option (Trie V) → List Text → Option V
find_in none ks = none
find_in (some c) ks = find_path c ks

module _ {V : Type 0} where
  -- One step of Find.
  pub find_path-cons :
      (k : Text) (ks : List Text) (t : Trie V)
      → find_path t (k ∷ ks) ≡ find_in (get k (child_nodes t)) ks
  unfolding find_path walk
  find_path-cons k ks t = ground arith

  pub find_path-child_or_new :
      (k : Text) (o : Option (Trie V)) (ks : List Text)
      → find_path (child_or_new k o) ks ≡ find_in o ks
  unfolding find_path walk get
  find_path-child_or_new k none [] = refl
  find_path-child_or_new k none (j ∷ ks) = refl
  find_path-child_or_new k (some c) ks = refl

  pub find_path-insert_path :
      (ks js : List Text) (v : V) (t : Trie V)
      → find_path (insert_path t ks v) js ≡ (if path_eq ks js then some v else find_path t js)
  unfolding insert_path find_path walk
  find_path-insert_path [] [] v (node s p cs) = refl
  find_path-insert_path [] (j ∷ js) v (node s p cs) = refl
  find_path-insert_path (k ∷ ks) [] v (node s p cs) = refl
  find_path-insert_path (k ∷ ks) (j ∷ js) v (node s p cs) =
      let c = child_or_new k (get k cs) in
      ground (
        arith,
        find_path-cons j js (node s p (put k (insert_path c ks v) cs)),
        find_path-cons j js (node s p cs),
        get-put k j (insert_path c ks v) cs,
        find_path-insert_path ks js v c,
        find_path-child_or_new k (get k cs) js,
        text_eq_iff k j,
      )

  pub clear_path-cons :
      (k : Text) (ks : List Text) (s : Text) (p : Option V) (cs : Children V) (u : Trie V)
      → clear_path (node s p cs) (k ∷ ks) ≡ some u
      → (c : Trie V) × (c' : Trie V) × (get k cs ≡ some c)
        × (clear_path c ks ≡ some c')
        × (u ≡ node s p (put k c' cs))
  unfolding clear_path
  clear_path-cons k ks s p cs u e = elim (Option-cases (get k cs)) [
    | inl missing ↦ absurd (ground (arith))
    | inr (c, found) ↦ elim (Option-cases (clear_path c ks)) [
      | inl missing ↦ absurd (ground (arith))
      | inr (c', done) ↦ (c, c', found, done, ground arith)
    ]
  ]

  -- Clearing the pool of the last node.
  pub find_path-clear_path :
      (ks js : List Text) (t u : Trie V)
      → clear_path t ks ≡ some u
      → find_path u js ≡ (if path_eq ks js then none else find_path t js)
  unfolding clear_path find_path walk
  find_path-clear_path [] [] (node s p cs) u e = ground arith
  find_path-clear_path [] (j ∷ js) (node s p cs) u e = ground arith
  find_path-clear_path (k ∷ ks) [] (node s p cs) u e = ground arith
  find_path-clear_path (k ∷ ks) (j ∷ js) (node s p cs) u e =
      let (c, c', found, done, eq) = clear_path-cons k ks s p cs u e in
      ground (
        arith,
        find_path-cons j js u,
        find_path-cons j js (node s p cs),
        get-put k j c' cs,
        find_path-clear_path ks js c c' done,
        text_eq_iff k j,
      )

  -- Every path that Delete is called for is there, if Find finds a pool.
  pub clear_path-total :
      (ks : List Text) (t : Trie V) (v : V)
      → find_path t ks ≡ some v
      → (u : Trie V) × (clear_path t ks ≡ some u)
  unfolding clear_path find_path walk
  clear_path-total [] (node s p cs) v e = (node s none cs, refl)
  clear_path-total (k ∷ ks) (node s p cs) v e = elim (Option-cases (get k cs)) [
    | inl missing ↦ absurd (ground (arith))
    | inr (c, found) ↦
        let (c', done) =
          clear_path-total ks c v (ground (arith, find_path-cons k ks (node s p cs))) in
        (node s p (put k c' cs), ground arith)
  ]

  -- Insert refines the update of a finite map: afterwards Find answers the new pool for every URI
  -- of the same path, and what it answered before for every other.
  pub insert-find :
      (r : Trie V) (uri u : Uri) (v : V)
      → find (insert r uri v) u ≡ (if path_eq (path_of uri) (path_of u) then some v else find r u)
  unfolding find insert
  insert-find r uri u v = find_path-insert_path (path_of uri) (path_of u) v r

  pub find_path-new_trie : (ks : List Text) → find_path {V = V} new_trie ks ≡ none
  unfolding new_trie find_path walk get
  find_path-new_trie [] = refl
  find_path-new_trie (k ∷ ks) = refl
