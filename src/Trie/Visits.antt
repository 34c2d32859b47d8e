-- ===== src/Trie/Visits.antt =====
-- The visit of all nodes as a run over the list of the paths with a pool.
use gorouter.Base.{
  ◌≡◌, ◌⊎◌, inl, inr, refl, List, [], ◌∷◌, ◌++◌, Option, none, some, Text, text_eq, arith,
  Option-cases, Bool-cases,
}
use gorouter.Trie.{Trie, node, Children, nil, cons, get, walk, find_path}
use gorouter.Trie.Find.{find_path-cons}
use gorouter.Trie.Snip.{each_at, each_at_child}

module _ {V : Type 0} where
  abbrev here : Option V → List Text → List (List Text × V)
  here none up = []
  here (some v) up = (up, v) ∷ []

  -- The pools with their paths, in the order of the visit.
  abbrev mutual
    pub entries : Trie V → List Text → List (List Text × V)
    entries (node s p cs) up = here p up ++ entries_child cs up

    pub entries_child : Children V → List Text → List (List Text × V)
    entries_child nil up = []
    entries_child (cons k t cs) up = entries t (k ∷ up) ++ entries_child cs up

module _ {V S : Type 0} (f : S → List Text → V → Option S) where
  abbrev pub run : List (List Text × V) → S → Option S
  run [] st = some st
  run ((up, v) ∷ es) st = elim (f st up v) [ none ↦ none | some st' ↦ run es st' ]

  run-append :
      (es ds : List (List Text × V)) (st : S)
      → run (es ++ ds) st ≡ elim (run es st) [ none ↦ none | some st' ↦ run ds st' ]
  run-append [] ds st = refl
  run-append ((up, v) ∷ es) ds st = elim (Option-cases (f st up v)) [
    | inl panic ↦ ground arith
    | inr (st', done) ↦ ground (arith, run-append es ds st')
  ]

  mutual
    unfolding each_at

    pub each_at-run :
        (t : Trie V) (up : List Text) (st : S) → each_at f t up st ≡ run (entries t up) st
    each_at-run (node s none cs) up st = each_at_child-run cs up st
    each_at-run (node s (some v) cs) up st = elim (Option-cases (f st up v)) [
      | inl panic ↦ ground arith
      | inr (st', done) ↦ ground (arith, each_at_child-run cs up st')
    ]

    each_at_child-run :
        (cs : Children V) (up : List Text) (st : S)
        → each_at_child f cs up st ≡ run (entries_child cs up) st
    each_at_child-run nil up st = refl
    each_at_child-run (cons k t cs) up st = elim (Option-cases (each_at f t (k ∷ up) st)) [
      | inl panic ↦ ground (
        arith,
        each_at-run t (k ∷ up) st,
        run-append (entries t (k ∷ up)) (entries_child cs up) st,
      )
      | inr (st', done) ↦ ground (
        arith,
        each_at-run t (k ∷ up) st,
        run-append (entries t (k ∷ up)) (entries_child cs up) st,
        each_at_child-run cs up st',
      )
    ]

module _ {V : Type 0} where
  -- The pool is visited.
  abbrev pub Visited : List (List Text × V) → V → Type 0
  Visited [] v = ⊥
  Visited ((up, w) ∷ es) v = (w ≡ v) ⊎ Visited es v

  Visited-left : (es ds : List (List Text × V)) (v : V) → Visited es v → Visited (es ++ ds) v
  Visited-left [] ds v h = absurd h
  Visited-left (e ∷ es) ds v (inl eq) = inl eq
  Visited-left (e ∷ es) ds v (inr h) = inr (Visited-left es ds v h)

  Visited-right : (es ds : List (List Text × V)) (v : V) → Visited ds v → Visited (es ++ ds) v
  Visited-right [] ds v h = h
  Visited-right (e ∷ es) ds v h = inr (Visited-right es ds v h)

  get-Visited :
      (k : Text) (cs : Children V) (up : List Text) (c : Trie V) (v : V)
      → get k cs ≡ some c
      → ((is : List Text) → Visited (entries c is) v)
      → Visited (entries_child cs up) v
  unfolding get
  get-Visited k nil up c v e h = cc
  get-Visited k (cons j t cs) up c v e h = elim (Bool-cases (text_eq j k)) [
    | inl same ↦
        let is_c : t ≡ c = ground arith in
        Visited-left (entries t (j ∷ up)) (entries_child cs up) v (rw is_c (h (j ∷ up)))
    | inr other ↦
        Visited-right (entries t (j ∷ up)) (entries_child cs up) v
          (get-Visited k cs up c v (ground arith) h)
  ]

  pub find_path-Visited :
      (ks : List Text) (t : Trie V) (up : List Text) (v : V)
      → find_path t ks ≡ some v
      → Visited (entries t up) v
  unfolding find_path walk
  find_path-Visited [] (node s p cs) up v e = rw e (inl refl)
  find_path-Visited (k ∷ ks) (node s p cs) up v e = elim (Option-cases (get k cs)) [
    | inl missing ↦ absurd (ground arith)
    | inr (c, found) ↦ Visited-right (here p up) (entries_child cs up) v (
        get-Visited k cs up c v found
          (λ is. find_path-Visited ks c is v (ground (arith, find_path-cons k ks (node s p cs)))))
  ]
