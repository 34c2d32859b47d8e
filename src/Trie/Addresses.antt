-- ===== src/Trie/Addresses.antt =====
-- registry/trie.go: EndpointCount and the set of addresses that it fills.
use gorouter.Base.{
  ◌≡◌, ◌⊎◌, ◌↔◌, inl, inr, refl, List, [], ◌∷◌, ◌++◌, none, some, Text, text_eq, text_eq_iff, arith,
  Bool, true, false, ◌||◌, Bool-cases, length,
}
use gorouter.Endpoint.{Endpoint}
use gorouter.Trie.{Trie, node, Children, nil, cons, get, find_path, walk}
use gorouter.Trie.Find.{find_path-cons}
use gorouter.Trie.Shape.{IsWellFormed, AreWellFormed}
use gorouter.Trie.Snip.{
  has, add_key, add_addresses, endpoint_addresses, child_addresses, endpoint_count,
}
use gorouter.Trie.Visits.{entries, entries_child, Visited, find_path-Visited}

abbrev pub AreDistinct : List Text → Type 0
AreDistinct [] = Unit
AreDistinct (k ∷ ks) = (has ks k ≡ false) × AreDistinct ks

-- One of the endpoints has the address.
abbrev pub serves : List Endpoint → Text → Bool
serves [] k = false
serves (e ∷ es) k = text_eq e.addr k || serves es k

has-add_key : (j k : Text) (m : List Text) → has (add_key j m) k ≡ (text_eq j k || has m k)
has-add_key j k m = ground (arith, text_eq_iff j k)

add_addresses-AreDistinct :
    (es : List Endpoint) (m : List Text) → AreDistinct m → AreDistinct (add_addresses es m)
add_addresses-AreDistinct [] m d = d
add_addresses-AreDistinct (e ∷ es) m d =
    add_addresses-AreDistinct es (add_key e.addr m) (added e.addr)
  where
    added : (k : Text) → AreDistinct (add_key k m)
    added k = elim (Bool-cases (has m k)) [
      | inl known ↦ rw known d
      | inr new ↦ rw (new, add_key) (new, d)
    ]

has-add_addresses :
    (es : List Endpoint) (m : List Text) (k : Text)
    → has (add_addresses es m) k ≡ (serves es k || has m k)
has-add_addresses [] m k = refl
has-add_addresses (e ∷ es) m k =
    ground (arith, has-add_addresses es (add_key e.addr m) k, has-add_key e.addr k m)

module _ {V : Type 0} (endpoints : V → List Endpoint) where
  abbrev collect : List (List Text × V) → List Text → List Text
  collect [] m = m
  collect ((up, v) ∷ es) m = collect es (add_addresses (endpoints v) m)

  collect-append :
      (es ds : List (List Text × V)) (m : List Text)
      → collect (es ++ ds) m ≡ collect ds (collect es m)
  collect-append [] ds m = refl
  collect-append ((up, v) ∷ es) ds m = collect-append es ds (add_addresses (endpoints v) m)

  mutual
    unfolding endpoint_addresses

    endpoint_addresses-collect :
        (t : Trie V) (up : List Text) (m : List Text)
        → endpoint_addresses endpoints t m ≡ collect (entries t up) m
    endpoint_addresses-collect (node s none cs) up m = child_addresses-collect cs up m
    endpoint_addresses-collect (node s (some v) cs) up m =
        child_addresses-collect cs up (add_addresses (endpoints v) m)

    child_addresses-collect :
        (cs : Children V) (up : List Text) (m : List Text)
        → child_addresses endpoints cs m ≡ collect (entries_child cs up) m
    child_addresses-collect nil up m = refl
    child_addresses-collect (cons k t cs) up m =
        rw
          (
            endpoint_addresses-collect t (k ∷ up) m,
            collect-append (entries t (k ∷ up)) (entries_child cs up) m,
          )
          (child_addresses-collect cs up (collect (entries t (k ∷ up)) m))

  collect-AreDistinct :
      (es : List (List Text × V)) (m : List Text) → AreDistinct m → AreDistinct (collect es m)
  collect-AreDistinct [] m d = d
  collect-AreDistinct ((up, v) ∷ es) m d =
      collect-AreDistinct es (add_addresses (endpoints v) m)
        (add_addresses-AreDistinct (endpoints v) m d)

  has-collect :
      (es : List (List Text × V)) (m : List Text) (k : Text)
      → (has (collect es m) k ≡ true)
        ↔ ((has m k ≡ true) ⊎ ((v : V) × Visited es v × (serves (endpoints v) k ≡ true)))
  has-collect [] m k =
      (λ h. inl h, λ o. elim o [ inl h ↦ h | inr (v, nowhere, _) ↦ absurd nowhere ])
  has-collect ((up, v) ∷ es) m k = (
    λ h. elim ((has-collect es (add_addresses (endpoints v) m) k).0 h) [
      | inl known ↦ elim (Bool-cases (serves (endpoints v) k)) [
        | inl now ↦ inr (v, inl refl, now)
        | inr other ↦ inl (ground (arith, has-add_addresses (endpoints v) m k))
      ]
      | inr (w, later, there) ↦ inr (w, inr later, there)
    ],
    λ o. (has-collect es (add_addresses (endpoints v) m) k).1 (elim o [
      | inl known ↦ inl (ground (arith, has-add_addresses (endpoints v) m k))
      | inr (w, visit, there) ↦ elim visit [
        | inl is_w ↦
            let now : serves (endpoints v) k ≡ true = rw is_w there in
            inl (ground (arith, has-add_addresses (endpoints v) m k))
        | inr later ↦ inr (w, later, there)
      ]
    ]),
  )

module _ {V : Type 0} where
  Visited-append :
      (es ds : List (List Text × V)) (v : V) → Visited (es ++ ds) v → Visited es v ⊎ Visited ds v
  Visited-append [] ds v h = inr h
  Visited-append (e ∷ es) ds v (inl same) = inl (inl same)
  Visited-append (e ∷ es) ds v (inr h) = elim (Visited-append es ds v h) [
    | inl l ↦ inl (inr l)
    | inr r ↦ inr r
  ]

  mutual
    unfolding find_path walk get

    Visited-find_path :
        (t : Trie V) (up : List Text) (v : V)
        → IsWellFormed t
        → Visited (entries t up) v
        → (ks : List Text) × (find_path t ks ≡ some v)
    Visited-find_path (node s none cs) up v shape h =
        let (k, ks, c, found, at) = Visited-child cs up v shape h in
        (k ∷ ks, ground (arith, find_path-cons k ks (node s none cs)))
    Visited-find_path (node s (some w) cs) up v shape (inl same) = ([], ground arith)
    Visited-find_path (node s (some w) cs) up v shape (inr h) =
        let (k, ks, c, found, at) = Visited-child cs up v shape h in
        (k ∷ ks, ground (arith, find_path-cons k ks (node s (some w) cs)))

    Visited-child :
        (cs : Children V) (up : List Text) (v : V)
        → AreWellFormed cs
        → Visited (entries_child cs up) v
        → (k : Text) × (ks : List Text) × (c : Trie V) × (get k cs ≡ some c)
          × (find_path c ks ≡ some v)
    Visited-child nil up v shape h = absurd h
    Visited-child (cons k t cs) up v (named, below, fresh, rest) h =
        elim (Visited-append (entries t (k ∷ up)) (entries_child cs up) v h) [
          | inl first ↦
              let (ks, at) = Visited-find_path t (k ∷ up) v below first in
              (k, ks, t, ground (arith, text_eq_iff k k), at)
          | inr later ↦
              let (j, ks, c, found, at) = Visited-child cs up v rest later in
              (j, ks, c, ground (arith, text_eq_iff k j), at)
        ]

-- EndpointCount is the number of different addresses of the endpoints of all pools that Find can
-- find, in a trie of good shape: the length of a list of these addresses, with no address twice.
pub endpoint_count_lem :
    {V : Type 0} (endpoints : V → List Endpoint) (r : Trie V)
    → IsWellFormed r
    → (m : List Text) × (endpoint_count endpoints r ≡ length m)
      × AreDistinct m
      × ((k : Text)
          → (has m k ≡ true) ↔ (
              (ks : List Text) × (v : V) × (find_path r ks ≡ some v)
              × (serves (endpoints v) k ≡ true)))
unfolding endpoint_count
endpoint_count_lem endpoints r shape =
    let m = collect endpoints (entries r []) [] in
    (
      m,
      rw (endpoint_addresses-collect endpoints r [] []) refl,
      collect-AreDistinct endpoints (entries r []) [] tt,
      λ k. (
        λ h. elim ((has-collect endpoints (entries r []) [] k).0 h) [
          | inl unknown ↦ cc
          | inr (v, visit, there) ↦
              let (ks, at) = Visited-find_path r [] v shape visit in (ks, v, at, there)
        ],
        λ (ks, v, at, there).
            (has-collect endpoints (entries r []) [] k).1
              (inr (v, find_path-Visited ks r [] v at, there)),
      ),
    )
