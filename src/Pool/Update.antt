-- ===== src/Pool/Update.antt =====
-- Put, seen as the update of a map from addresses to endpoints.
use gorouter.Base.{
  ℕ, ◌≡◌, ◌≢◌, ◌⊎◌, ◌↔◌, inl, inr, refl, Option, none, some, arith, map_get, ◌==◌, Bool-cases,
  Option-cases, Bool, true, false,
}
use gorouter.Endpoint.{Endpoint}
use gorouter.Pool.{Pool, put, put_new, put_again}
use gorouter.Pool.Invariant.{IsValid, IsLive, addr_of, Contains}
use gorouter.Pool.Put.{
  IsApart, put-IsValid, n_cases, heap_new, heap_old, IsLive-new, IsLive-kept, found-IsLive,
  same_addr, heap_again, IsLive-again,
}

-- `q` is `p` with `e` under its address, and `new` says whether the address was free.
pub record Puts (p : Pool) (e : Endpoint) (now : ℕ) (q : Pool) (new : Bool) : Type 0 where
  pub others :
      (x : Endpoint) (t : ℕ) (f : Option ℕ) → x.addr ≢ e.addr → Contains q x t f ↔ Contains p x t f
  pub only : (x : Endpoint) (t : ℕ) (f : Option ℕ) → x.addr ≡ e.addr → Contains q x t f → x ≡ e
  pub there :
      ((f : Option ℕ) × Contains q e now f)
      ⊎ ((q ≡ p) × ((t : ℕ) × ((f : Option ℕ) × Contains p e t f)))
  pub flag :
      (new ≡ true) ↔ ((x : Endpoint) (t : ℕ) (f : Option ℕ) → Contains p x t f → x.addr ≢ e.addr)

-- An object in the pool that is the same as `e` has the same fields.
abbrev pub IsIdentified : Pool → Endpoint → Type 0
IsIdentified p e = (r : ℕ) → IsLive p r → (p.heap r).endpoint.ptr ≡ e.ptr → (p.heap r).endpoint ≡ e

module _ (p : Pool) (e : Endpoint) (now : ℕ) (v : IsValid p) where
  address_free :
      map_get e.addr p.index ≡ none
      → (x : Endpoint) (t : ℕ) (f : Option ℕ) → Contains p x t f
      → x.addr ≢ e.addr
  address_free free x t f (r, live, same, _, _) eq = ground (arith, v.by_addr r live)

  put_new-Puts : map_get e.addr p.index ≡ none → Puts p e now (put_new p e now) true
  put_new-Puts free = record {
    others = λ x t f ne. (
      λ (r, live, same, at, failed). elim (n_cases p e now v free r live) [
        | inl (_, is_e) ↦ absurd (ne (ground arith))
        | inr (live', _, kept) ↦ (r, live', ground arith, ground arith, ground arith)
      ],
      λ (r, live, same, at, failed).
          let (live', fresh) = IsLive-kept p e now v free r live in
          let kept = heap_old p e now v free r fresh in
          (r, live', ground arith, ground arith, ground arith),
    );
    only = λ x t f eq (r, live, same, _, _). elim (n_cases p e now v free r live) [
      | inl (_, is_e) ↦ ground arith
      | inr (live', _, kept) ↦ absurd (
          address_free free x (p.heap r).updated (p.heap r).failed_at
            (r, live', ground arith, refl, refl) eq)
    ];
    there =
        let (is_e, at, failed) = heap_new p e now v free in
        inl (none, (p.next_ref, IsLive-new p e now v free, is_e, at, failed));
    flag = (λ _. address_free free, λ _. refl);
  }

  module _ (a : IsApart p e) (r : ℕ) (found : map_get e.addr p.index ≡ some r) where
    address_taken : ¬ ((x : Endpoint) (t : ℕ) (f : Option ℕ) → Contains p x t f → x.addr ≢ e.addr)
    address_taken none_there =
        none_there (p.heap r).endpoint (p.heap r).updated (p.heap r).failed_at
          (r, found-IsLive p r e now v a found, refl, refl, refl) (same_addr p r e now v a found)

    -- No other element has the address.
    only_found : (s : ℕ) → IsLive p s → addr_of p s ≡ e.addr → s ≡ r
    only_found s live same = ground (arith, v.by_addr s live)

    put_again-Puts : Puts p e now (put_again p r e now) false
    put_again-Puts = record {
      others = λ x t f ne. (
        λ (s, live, same, at, failed).
            let live' = (IsLive-again p r e now v a found s).0 live in
            let step = heap_again p r e now v a found s in
            (s, live', ground arith, ground arith, ground arith),
        λ (s, live, same, at, failed).
            let live' = (IsLive-again p r e now v a found s).1 live in
            let step = heap_again p r e now v a found s in
            let was = same_addr p r e now v a found in
            (s, live', ground arith, ground arith, ground arith),
      );
      only = λ x t f eq (s, live, same, _, _).
          let live' = (IsLive-again p r e now v a found s).0 live in
          ground (arith, heap_again p r e now v a found s, only_found s live');
      there = inl (
        (p.heap r).failed_at,
        (
          r,
          (IsLive-again p r e now v a found r).1 (found-IsLive p r e now v a found),
          ground (arith, heap_again p r e now v a found r),
          ground (arith, heap_again p r e now v a found r),
          ground (arith, heap_again p r e now v a found r),
        ),
      );
      flag = (λ h. cc, λ h. absurd (address_taken h));
    }

    put_same-Puts : (p.heap r).endpoint ≡ e → Puts p e now p false
    put_same-Puts is_e = record {
      others = λ x t f ne. (λ c. c, λ c. c);
      only = λ x t f eq (s, live, same, _, _). ground (arith, only_found s live);
      there = inr (
        refl,
        (
          (p.heap r).updated,
          ((p.heap r).failed_at, (r, found-IsLive p r e now v a found, is_e, refl, refl)),
        ),
      );
      flag = (λ h. cc, λ h. absurd (address_taken h));
    }

-- Put as an update of the map.
pub put-Puts :
    (p : Pool) (e : Endpoint) (now : ℕ)
    → IsValid p
    → IsApart p e
    → IsIdentified p e
    → Puts p e now (put p e now).0 (put p e now).1
unfolding put
put-Puts p e now v a same_object = elim (Option-cases (map_get e.addr p.index)) [
  | inl free ↦ rw (free, put) (put_new-Puts p e now v free)
  | inr (r, found) ↦ elim (Bool-cases ((p.heap r).endpoint.ptr == e.ptr)) [
    | inl same ↦
        rw (found, put, same)
          (put_same-Puts p e now v a r found
            (same_object r (found-IsLive p r e now v a found) (ground arith)))
    | inr other ↦ rw (found, put, other) (put_again-Puts p e now v a r found)
  ]
]

-- Put keeps a valid pool valid and binds the endpoint to its address, with the time of the call,
-- and leaves every other address alone; it answers whether the address was new. Only where the
-- pool holds the same object already does it change nothing, the time included. The address and
-- the instance id are apart from those in the pool, and the same object there has the same
-- fields.
pub put_lem :
    (p : Pool) (e : Endpoint) (now : ℕ)
    → IsValid p
    → IsApart p e
    → IsIdentified p e
    → IsValid (put p e now).0 × Puts p e now (put p e now).0 (put p e now).1
put_lem p e now v a same_object = (put-IsValid p e now v a, put-Puts p e now v a same_object)
