-- ===== src/Pool/Remove.antt =====
-- route/pool.go: removeEndpoint and Remove.
use gorouter.Base.{
  ℕ, ◌+◌, ◌-◌, ◌<◌, ◌≡◌, ◌≢◌, ◌↔◌, inl, inr, refl, ◌∙◌, Option, none, some, Text, arith, length,
  get_elem?, get_elem?-lt, get_elem?-total, get_elem?-take, get_elem?-set, length-take, length-set,
  set, map_get, get-delete, map_delete, if◌then◌else◌, ltb, ◌==◌, text_eq, text_eq_iff,
  Option-cases, List-cases, Bool, true, false,
}
use gorouter.Endpoint.{Endpoint}
use gorouter.Pool.{Pool, remove_endpoint, remove, move_last, set_index, write}
use gorouter.Pool.Invariant.{IsValid, IsLive, addr_of, id_of, Contains}

abbrev removed : Pool → ℕ → ℕ → Pool
removed p r moved = record p {
  endpoints = move_last p.endpoints (p.heap r).index moved;
  heap =
      if ltb (p.heap r).index (length p.endpoints - 1)
      then set_index p.heap moved (p.heap r).index
      else p.heap;
  index = map_delete (id_of p r) (map_delete (addr_of p r) p.index);
}

module _ (p : Pool) (r moved : ℕ) (v : IsValid p) (live : IsLive p r)
    (at_end : get_elem? p.endpoints (length p.endpoints - 1) ≡ some moved) where
  abbrev i : ℕ
  i = (p.heap r).index

  abbrev last : ℕ
  last = length p.endpoints

  abbrev q : Pool
  q = removed p r moved

  inside : i < last
  inside = get_elem?-lt p.endpoints i r live

  slots :
      (j : ℕ)
      → get_elem? q.endpoints j ≡ (
          if ltb j (last - 1)
          then (if j == i then some moved else get_elem? p.endpoints j)
          else none)
  unfolding move_last
  slots j =
      get_elem?-take (last - 1) (set p.endpoints i moved) j
      ∙ ground (arith, get_elem?-set p.endpoints i j moved inside)

  heap_lem :
      (s : ℕ)
      → ((q.heap s).endpoint ≡ (p.heap s).endpoint)
        × ((q.heap s).updated ≡ (p.heap s).updated)
        × ((q.heap s).failed_at ≡ (p.heap s).failed_at)
        × ((q.heap s).index ≡ (
            if ltb i (last - 1)
            then (if s == moved then i else (p.heap s).index)
            else (p.heap s).index))
  unfolding write
  heap_lem s = (ground arith, ground arith, ground arith, ground arith)

  moved_index : (p.heap moved).index ≡ last - 1
  moved_index = v.placed (last - 1) moved at_end

  IsLive-down : (s : ℕ) → IsLive q s → IsLive p s × (s ≢ r)
  IsLive-down s h = ground (arith, slots (q.heap s).index, heap_lem s, moved_index, inside)

  IsLive-up : (s : ℕ) → IsLive p s → s ≢ r → IsLive q s
  IsLive-up s h ne = ground (
    arith,
    slots (q.heap s).index,
    heap_lem s,
    moved_index,
    inside,
    get_elem?-lt p.endpoints (p.heap s).index s h,
  )

  placed_left : (j s : ℕ) → get_elem? q.endpoints j ≡ some s → (q.heap s).index ≡ j
  placed_left j s h = ground (arith, slots j, heap_lem s, moved_index, v.placed j s, inside)

  keys :
      (k : Text)
      → map_get k q.index ≡ (
          if text_eq (id_of p r) k
          then none
          else if text_eq (addr_of p r) k
          then none
          else map_get k p.index)
  keys k =
      get-delete (id_of p r) k (map_delete (addr_of p r) p.index)
      ∙ ground (arith, get-delete (addr_of p r) k p.index)

  removed-IsValid : IsValid q
  removed-IsValid = record {
    placed = placed_left;
    used = λ s h. v.used s (IsLive-down s h).0;
    by_addr = λ s h.
        let (was, ne) = IsLive-down s h in
        ground (
          arith,
          heap_lem s,
          keys (addr_of p s),
          v.by_addr s was,
          v.by_addr r live,
          v.apart r s live was,
          text_eq_iff (id_of p r) (addr_of p s),
          text_eq_iff (addr_of p r) (addr_of p s),
        );
    keyed = λ k s h.
        let old : map_get k p.index ≡ some s = ground (arith, keys k) in
        let (was, key) = v.keyed k s old in
        let ne : s ≢ r =
          λ same. ground (arith, keys k, text_eq_iff (id_of p r) k, text_eq_iff (addr_of p r) k) in
        (IsLive-up s was ne, ground (arith, heap_lem s));
    apart = λ s t h k same.
        v.apart s t (IsLive-down s h).0 (IsLive-down t k).0
          (ground (arith, heap_lem s, heap_lem t));
  }

  length-removed : length q.endpoints ≡ last - 1
  unfolding move_last
  length-removed =
      length-take (last - 1) (set p.endpoints i moved)
        (omega (arith, length-set p.endpoints i moved))

-- An element keeps what it says of its endpoint.
abbrev pub SameData : Pool → Pool → Type 0
SameData p q =
    (s : ℕ)
    → ((q.heap s).endpoint ≡ (p.heap s).endpoint)
      × ((q.heap s).updated ≡ (p.heap s).updated)
      × ((q.heap s).failed_at ≡ (p.heap s).failed_at)

-- `q` is the valid pool `p` without the element `r`.
pub record Drops (p : Pool) (r : ℕ) (q : Pool) : Type 0 where
  pub valid : IsValid q
  pub live : (s : ℕ) → IsLive q s ↔ (IsLive p s × (s ≢ r))
  pub same : SameData p q
  pub shorter : length q.endpoints + 1 ≡ length p.endpoints
  pub below : (s : ℕ) → (q.heap s).index < (p.heap r).index → (q.heap s).index ≡ (p.heap s).index

pub remove_endpoint-Drops :
    (p : Pool) (r : ℕ)
    → IsValid p
    → IsLive p r
    → (q : Pool) × (remove_endpoint p r ≡ some q) × Drops p r q
unfolding remove_endpoint
remove_endpoint-Drops p r v live =
    let room : (p.heap r).index < length p.endpoints =
      get_elem?-lt p.endpoints (p.heap r).index r live in
    let (moved, at_end) = get_elem?-total p.endpoints (length p.endpoints - 1) (omega arith) in
    (
      removed p r moved,
      ground arith,
      record {
        valid = removed-IsValid p r moved v live at_end;
        live = λ s. (
          IsLive-down p r moved v live at_end s,
          λ h. IsLive-up p r moved v live at_end s h.0 h.1,
        );
        same = λ s. ground (arith, heap_lem p r moved v live at_end s);
        shorter = omega (arith, length-removed p r moved v live at_end);
        below = λ s h. ground (arith, heap_lem p r moved v live at_end s);
      },
    )

-- `q` is `p` without the endpoint of the address of `e`, and `known` says whether there was one.
pub record Removes (p : Pool) (e : Endpoint) (q : Pool) (known : Bool) : Type 0 where
  pub valid : IsValid q
  pub left :
      (x : Endpoint) (t : ℕ) (f : Option ℕ)
      → Contains q x t f ↔ (Contains p x t f × (x.addr ≢ e.addr))
  pub flag :
      (known ≡ false) ↔ ((x : Endpoint) (t : ℕ) (f : Option ℕ) → Contains p x t f → x.addr ≢ e.addr)

module _ (p : Pool) (e : Endpoint) (v : IsValid p)
    (addr_free : (r : ℕ) → IsLive p r → id_of p r ≢ e.addr) where
  unknown :
      map_get e.addr p.index ≡ none
      → (x : Endpoint) (t : ℕ) (f : Option ℕ) → Contains p x t f
      → x.addr ≢ e.addr
  unknown free x t f (r, live, same, _, _) eq = ground (arith, v.by_addr r live)

  unknown-Removes : map_get e.addr p.index ≡ none → Removes p e p false
  unknown-Removes free = record {
    valid = v;
    left = λ x t f. (λ c. (c, unknown free x t f c), λ c. c.0);
    flag = (λ _. unknown free, λ _. refl);
  }

  Drops-Removes :
      (r : ℕ) (q : Pool) → map_get e.addr p.index ≡ some r → Drops p r q → Removes p e q true
  Drops-Removes r q found d =
      let (live, key) = v.keyed e.addr r found in
      let same_addr : addr_of p r ≡ e.addr = ground (arith, addr_free r live) in
      record {
        valid = d.valid;
        left = λ x t f. (
          λ (s, here, is_x, at, failed).
              let (was, ne) = (d.live s).0 here in
              let data_of_s = d.same s in
              (
                (s, was, ground arith, ground arith, ground arith),
                λ eq. ground (arith, v.by_addr s was),
              ),
          λ ((s, was, is_x, at, failed), other).
              let data_of_s = d.same s in
              let ne : s ≢ r = λ eq. other (ground arith) in
              (s, (d.live s).1 (was, ne), ground arith, ground arith, ground arith),
        );
        flag = (
          λ h. cc,
          λ h. absurd (
              h (p.heap r).endpoint (p.heap r).updated (p.heap r).failed_at
                (r, live, refl, refl, refl) same_addr),
        );
      }

  -- Remove does not panic on a valid pool. It takes away the endpoint with that address, whatever
  -- its place in the slice, keeps all others as they were, and answers whether there was one. No
  -- instance id of the pool is the address.
  pub remove-Removes :
      (q : Pool) × ((known : Bool) × (remove p e ≡ some (q, known)) × Removes p e q known)
  unfolding remove
  remove-Removes = elim (Option-cases (map_get e.addr p.index)) [
    | inl free ↦ elim (List-cases p.endpoints) [
      | inl none_left ↦ (p, (false, ground (arith, none_left), unknown-Removes free))
      | inr (s, ss, some_left) ↦ (p, (false, ground (arith, some_left), unknown-Removes free))
    ]
    | inr (r, found) ↦
        let live = (v.keyed e.addr r found).0 in
        let (q, done, d) = remove_endpoint-Drops p r v live in
        elim (List-cases p.endpoints) [
          | inl none_left ↦ absurd (ground (arith, live))
          | inr (s, ss, some_left) ↦
              (q, (true, ground (arith, some_left, done), Drops-Removes r q found d))
        ]
  ]
