-- ===== src/Trie/Matching.antt =====
-- registry/trie.go: MatchUri against the longest prefix of a path.
use mathlib.Core.Path.{◌≡◌, refl, ap, subst, sym, fun_ext}
use mathlib.Core.Logic.{◌≢◌}
use gorouter.Base.{Text, Option, none, some, arith, Option-cases, inl, inr, List, [], ◌∷◌, ◌++◌}
use gorouter.Trie.{
  Trie, get, walk, find_path, pool, child_nodes, or_else, match_path, match_uri, path_of,
}
use gorouter.Trie.Find.{find_path-cons}
use gorouter.Uri.{Uri}

module _ {V : Type 0} where
  -- `r` is what `f` says of the longest prefix of the path for which it says something.
  abbrev pub IsLongest : (List Text → Option V) → List Text → Option V → Type 0
  IsLongest f ks none = (pre post : List Text) → pre ++ post ≡ ks → f pre ≡ none
  IsLongest f ks (some v) =
      (pre : List Text) × (post : List Text) × (pre ++ post ≡ ks)
      × (f pre ≡ some v)
      × ((more rest : List Text) → more ++ rest ≡ post → more ≢ [] → f (pre ++ more) ≡ none)

  abbrev deepest : (List Text → Option V) → List Text → Option V
  deepest f [] = f []
  deepest f (k ∷ ks) = or_else (deepest (λ p. f (k ∷ p)) ks) (f [])

  nothing_above :
      (f : List Text → Option V) (post more rest : List Text)
      → post ≡ []
      → more ++ rest ≡ post
      → more ≢ []
      → f more ≡ none
  nothing_above f post [] rest e h ne = absurd (ne refl)
  nothing_above f post (k ∷ more) rest e h ne = cc

  nothing_at :
      (f : List Text → Option V) (pre post : List Text)
      → f [] ≡ none
      → pre ++ post ≡ []
      → f pre ≡ none
  nothing_at f [] post e h = e
  nothing_at f (k ∷ pre) post e h = cc

  deepest-nil-IsLongest : (f : List Text → Option V) (o : Option V) → f [] ≡ o → IsLongest f [] o
  deepest-nil-IsLongest f none e = λ pre post. nothing_at f pre post e
  deepest-nil-IsLongest f (some v) e =
      ([], [], refl, e, λ more rest. nothing_above f [] more rest refl)

  beyond :
      (f : List Text → Option V) (k : Text) (ks more rest : List Text)
      → IsLongest (λ js. f (k ∷ js)) ks none
      → more ++ rest ≡ k ∷ ks
      → more ≢ []
      → f more ≡ none
  beyond f k ks [] rest l h ne = absurd (ne refl)
  beyond f k ks (j ∷ more) rest l h ne = ground (arith, l more rest)

  beyond_or_here :
      (f : List Text → Option V) (k : Text) (ks pre post : List Text)
      → IsLongest (λ js. f (k ∷ js)) ks none
      → f [] ≡ none
      → pre ++ post ≡ k ∷ ks
      → f pre ≡ none
  beyond_or_here f k ks [] post l e h = e
  beyond_or_here f k ks (j ∷ pre) post l e h = ground (arith, l pre post)

  deepest-cons-IsLongest :
      (f : List Text → Option V) (k : Text) (ks : List Text) (o : Option V) (p : Option V)
      → IsLongest (λ js. f (k ∷ js)) ks o
      → f [] ≡ p
      → IsLongest f (k ∷ ks) (or_else o p)
  deepest-cons-IsLongest f k ks (some v) p l h =
      let (pre, post, e, found, above) = l in (k ∷ pre, post, ap (◌∷◌ k) e, found, above)
  deepest-cons-IsLongest f k ks none none l h = λ pre post. beyond_or_here f k ks pre post l h
  deepest-cons-IsLongest f k ks none (some v) l h =
      ([], k ∷ ks, refl, h, λ more rest. beyond f k ks more rest l)

  deepest-IsLongest : (f : List Text → Option V) (ks : List Text) → IsLongest f ks (deepest f ks)
  deepest-IsLongest f [] = deepest-nil-IsLongest f (f []) refl
  deepest-IsLongest f (k ∷ ks) =
      deepest-cons-IsLongest f k ks (deepest (λ p. f (k ∷ p)) ks) (f [])
        (deepest-IsLongest (λ p. f (k ∷ p)) ks) refl

  deepest-none :
      (f : List Text → Option V) (ks : List Text)
      → ((js : List Text) → f js ≡ none)
      → deepest f ks ≡ none
  deepest-none f [] h = h []
  deepest-none f (k ∷ ks) h = rw (deepest-none (λ p. f (k ∷ p)) ks (λ js. h (k ∷ js))) (h [])

  or_else_assoc : (a b c : Option V) → or_else (or_else a b) c ≡ or_else a (or_else b c)
  or_else_assoc none b c = refl
  or_else_assoc (some v) b c = refl

  or_else_idem : (a c : Option V) → or_else a (or_else a c) ≡ or_else a c
  or_else_idem none c = refl
  or_else_idem (some v) c = refl

  or_else-none : (a : Option V) → or_else a none ≡ a
  or_else-none none = refl
  or_else-none (some v) = refl

  -- The loop, at a node whose own pool `last` already counts with.
  match_path-deepest :
      (n : Trie V) (ks : List Text) (last : Option V)
      → match_path n ks (or_else (pool n) last) ≡ or_else (deepest (find_path n) ks) last
  unfolding match_path find_path walk
  match_path-deepest n [] last = or_else_idem (pool n) last
  match_path-deepest n (k ∷ ks) last = elim (Option-cases (get k (child_nodes n))) [
    | inl missing ↦ ground (
      arith,
      or_else_idem (pool n) last,
      deepest-none (λ p. find_path n (k ∷ p)) ks (λ js. ground (arith, find_path-cons k js n)),
    )
    | inr (c, found) ↦
        let same : deepest (λ p. find_path n (k ∷ p)) ks ≡ deepest (find_path c) ks =
          ap (λ f. deepest f ks) (fun_ext (λ js. ground (arith, find_path-cons k js n))) in
        ground (
          arith,
          same,
          match_path-deepest c ks (or_else (pool n) last),
          or_else_assoc (deepest (find_path c) ks) (pool n) last,
        )
  ]

  match_path-IsLongest :
      (r : Trie V) (ks : List Text)
      → pool r ≡ none
      → IsLongest (find_path r) ks (match_path r ks none)
  match_path-IsLongest r ks bare =
      let step : match_path r ks none ≡ deepest (find_path r) ks =
        ground (arith, match_path-deepest r ks none, or_else-none (deepest (find_path r) ks)) in
      subst (IsLongest (find_path r) ks) (sym step) (deepest-IsLongest (find_path r) ks)

  match_path-find_path :
      (n : Trie V) (ks : List Text) (last : Option V) (v : V)
      → find_path n ks ≡ some v
      → match_path n ks last ≡ some v
  unfolding match_path find_path walk
  match_path-find_path n [] last v e = ground arith
  match_path-find_path n (k ∷ ks) last v e = elim (Option-cases (get k (child_nodes n))) [
    | inl missing ↦ absurd (ground arith)
    | inr (c, found) ↦ ground (arith, match_path-find_path c ks (or_else (pool c) last) v)
  ]

  -- A pool at the whole path is the one that MatchUri answers.
  pub match_uri-find :
      (r : Trie V) (uri : Uri) (v : V)
      → find_path r (path_of uri) ≡ some v
      → match_uri r uri ≡ some v
  unfolding match_uri
  match_uri-find r uri v e = match_path-find_path r (path_of uri) none v e

  -- MatchUri answers the pool at the longest prefix of the URI's path that has one: no pool only
  -- if no prefix has a pool, and otherwise the pool of a prefix such that no longer one has a
  -- pool. The root has no pool.
  pub match_uri-IsLongest :
      (r : Trie V) (uri : Uri)
      → pool r ≡ none
      → IsLongest (find_path r) (path_of uri) (match_uri r uri)
  unfolding match_uri
  match_uri-IsLongest r uri bare = match_path-IsLongest r (path_of uri) bare
