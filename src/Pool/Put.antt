-- ===== src/Pool/Put.antt =====
-- route/pool.go: Put, for a new address and for a known one.
use gorouter.Base.{
  ℕ, ◌+◌, ◌≡◌, ◌≢◌, ◌⊎◌, ◌↔◌, inl, inr, refl, ◌∙◌, none, some, Text, arith, length, get_elem?,
  map_get, get-put, get-delete, map_put, map_delete, if◌then◌else◌, ◌==◌, text_eq, text_eq_iff,
  get_elem?-concat, get_elem?-lt, Bool-cases, Option-cases,
}
use gorouter.Endpoint.{Endpoint}
use gorouter.Pool.{Pool, put, put_new, put_again, write}
use gorouter.Pool.Invariant.{IsValid, IsLive, addr_of, id_of}

-- The address and the instance id of the endpoint are apart from those in the pool.
pub record IsApart (p : Pool) (e : Endpoint) : Type 0 where
  pub own : e.private_instance_id ≢ e.addr
  pub id_free : (r : ℕ) → IsLive p r → e.private_instance_id ≢ addr_of p r
  pub addr_free : (r : ℕ) → IsLive p r → id_of p r ≢ e.addr

module _ (p : Pool) (e : Endpoint) (now : ℕ) (v : IsValid p)
    (free : map_get e.addr p.index ≡ none) where
  abbrev pub n : ℕ
  n = p.next_ref

  abbrev pub q : Pool
  q = put_new p e now

  pub IsLive-new : IsLive q n
  unfolding put_new write
  IsLive-new = ground (arith, get_elem?-concat p.endpoints n (length p.endpoints))

  IsLive-old : (r : ℕ) → r ≢ n → IsLive q r → IsLive p r
  unfolding put_new write
  IsLive-old r ne h = ground (arith, get_elem?-concat p.endpoints n (p.heap r).index)

  pub IsLive-kept : (r : ℕ) → IsLive p r → IsLive q r × (r ≢ n)
  unfolding put_new write
  IsLive-kept r h = ground (
    arith,
    v.used r h,
    get_elem?-concat p.endpoints n (p.heap r).index,
    get_elem?-lt p.endpoints (p.heap r).index r h,
  )

  pub heap_new :
      ((q.heap n).endpoint ≡ e) × ((q.heap n).updated ≡ now) × ((q.heap n).failed_at ≡ none)
  unfolding put_new write
  heap_new = (ground arith, ground arith, ground arith)

  pub heap_old : (r : ℕ) → r ≢ n → q.heap r ≡ p.heap r
  unfolding put_new write
  heap_old r ne = ground arith

  keys_new :
      (k : Text)
      → map_get k q.index ≡ (
          if text_eq e.private_instance_id k
          then some n
          else if text_eq e.addr k
          then some n
          else map_get k p.index)
  unfolding put_new
  keys_new k =
      get-put e.private_instance_id k n (map_put e.addr n p.index)
      ∙ ground (arith, get-put e.addr k n p.index)

  placed_new : (i r : ℕ) → get_elem? q.endpoints i ≡ some r → (q.heap r).index ≡ i
  unfolding put_new write
  placed_new i r h = ground (arith, get_elem?-concat p.endpoints n i, v.placed i r, v.used r)

  pub n_cases :
      (r : ℕ)
      → IsLive q r
      → ((r ≡ n) × ((q.heap r).endpoint ≡ e)) ⊎ (IsLive p r × (r ≢ n) × (q.heap r ≡ p.heap r))
  n_cases r h = elim (Bool-cases (r == n)) [
    | inl same ↦ inl (ground (arith, heap_new))
    | inr other ↦ inr (IsLive-old r (ground arith) h, ground arith, heap_old r (ground arith))
  ]

  next_new : q.next_ref ≡ n + 1
  unfolding put_new
  next_new = refl

  module _ (a : IsApart p e) where
    by_addr_new : (r : ℕ) → IsLive q r → map_get (addr_of q r) q.index ≡ some r
    by_addr_new r h = elim (n_cases r h) [
      | inl (same, is_e) ↦ ground (
        arith,
        keys_new e.addr,
        text_eq_iff e.addr e.addr,
        text_eq_iff e.private_instance_id e.addr,
      )
      | inr (live, ne, kept) ↦ ground (
        arith,
        keys_new (addr_of p r),
        v.by_addr r live,
        a.id_free r live,
        text_eq_iff e.private_instance_id (addr_of p r),
        text_eq_iff e.addr (addr_of p r),
      )
    ]

    keyed_new :
        (k : Text) (r : ℕ)
        → map_get k q.index ≡ some r
        → IsLive q r × ((k ≡ addr_of q r) ⊎ (k ≡ id_of q r))
    keyed_new k r h = elim (Bool-cases (r == n)) [
      | inl same ↦
          let eq : n ≡ r = ground arith in
          let old : map_get k p.index ≢ some n =
            λ m. absurd (omega (arith, v.used n (v.keyed k n m).0)) in
          rw (← eq) (
            IsLive-new,
            ground (
              arith,
              keys_new k,
              heap_new,
              old,
              text_eq_iff e.private_instance_id k,
              text_eq_iff e.addr k,
            ),
          )
      | inr other ↦
          let ne : r ≢ n = ground arith in
          let old : map_get k p.index ≡ some r = ground (arith, keys_new k) in
          ((IsLive-kept r (v.keyed k r old).0).0, ground (arith, v.keyed k r old, heap_old r ne))
    ]

    apart_new : (r s : ℕ) → IsLive q r → IsLive q s → id_of q r ≢ addr_of q s
    apart_new r s h k = elim (n_cases r h) [
      | inl (_, is_e) ↦ elim (n_cases s k) [
        | inl (_, is_e') ↦ λ same. a.own (ground arith)
        | inr (live, _, kept) ↦ λ same. a.id_free s live (ground arith)
      ]
      | inr (live, _, kept) ↦ elim (n_cases s k) [
        | inl (_, is_e) ↦ λ same. a.addr_free r live (ground arith)
        | inr (live', _, kept') ↦ λ same. v.apart r s live live' (ground arith)
      ]
    ]

    pub put_new-IsValid : IsValid q
    put_new-IsValid = record {
      placed = placed_new;
      used = λ r h. ground (arith, n_cases r h, v.used r, next_new);
      by_addr = by_addr_new;
      keyed = keyed_new;
      apart = apart_new;
    }

module _ (p : Pool) (r : ℕ) (e : Endpoint) (now : ℕ) (v : IsValid p) (a : IsApart p e)
    (found : map_get e.addr p.index ≡ some r) where
  abbrev pub q' : Pool
  q' = put_again p r e now

  pub found-IsLive : IsLive p r
  found-IsLive = (v.keyed e.addr r found).0

  pub same_addr : addr_of p r ≡ e.addr
  same_addr = ground (arith, v.keyed e.addr r found, a.addr_free r found-IsLive)

  pub heap_again :
      (s : ℕ)
      → q'.heap s ≡ (if s == r then record (p.heap r) { endpoint = e; updated = now } else p.heap s)
  unfolding put_again write
  heap_again s = refl

  slots_again : (s : ℕ) → ((q'.heap s).index ≡ (p.heap s).index) × (q'.endpoints ≡ p.endpoints)
  unfolding put_again
  slots_again s = (ground (arith, heap_again s), refl)

  pub IsLive-again : (s : ℕ) → IsLive q' s ↔ IsLive p s
  IsLive-again s = (λ h. ground (arith, slots_again s), λ h. ground (arith, slots_again s))

  keys_again :
      (k : Text)
      → map_get k q'.index ≡ (
          if text_eq (id_of p r) e.private_instance_id
          then map_get k p.index
          else if text_eq e.private_instance_id k
          then some r
          else if text_eq (id_of p r) k
          then none
          else map_get k p.index)
  unfolding put_again
  keys_again k = ground (
    arith,
    get-put e.private_instance_id k r (map_delete (id_of p r) p.index),
    get-delete (id_of p r) k p.index,
  )

  by_addr_again : (s : ℕ) → IsLive q' s → map_get (addr_of q' s) q'.index ≡ some s
  by_addr_again s h =
      let live = (IsLive-again s).0 h in
      ground (
        arith,
        heap_again s,
        keys_again (addr_of q' s),
        same_addr,
        v.by_addr s live,
        a.own,
        a.id_free s live,
        v.apart r s found-IsLive live,
        text_eq_iff (id_of p r) (addr_of q' s),
        text_eq_iff e.private_instance_id (addr_of q' s),
      )

  keyed_again :
      (k : Text) (s : ℕ)
      → map_get k q'.index ≡ some s
      → IsLive q' s × ((k ≡ addr_of q' s) ⊎ (k ≡ id_of q' s))
  keyed_again k s h = ground (
    arith,
    heap_again s,
    keys_again k,
    same_addr,
    v.keyed k s,
    slots_again s,
    found-IsLive,
    text_eq_iff (id_of p r) e.private_instance_id,
    text_eq_iff (id_of p r) k,
    text_eq_iff e.private_instance_id k,
  )

  apart_again : (s t : ℕ) → IsLive q' s → IsLive q' t → id_of q' s ≢ addr_of q' t
  apart_again s t h k =
      let live = (IsLive-again s).0 h in
      let live' = (IsLive-again t).0 k in
      λ same. ground (
        arith,
        heap_again s,
        heap_again t,
        a.own,
        a.id_free t live',
        a.addr_free s live,
        v.apart s t live live',
      )

  pub put_again-IsValid : IsValid q'
  unfolding put_again
  put_again-IsValid = record {
    placed = λ i s h. ground (arith, slots_again s, v.placed i s);
    used = λ s h. v.used s ((IsLive-again s).0 h);
    by_addr = by_addr_again;
    keyed = keyed_again;
    apart = apart_again;
  }

-- Put keeps a pool valid.
pub put-IsValid :
    (p : Pool) (e : Endpoint) (now : ℕ) → IsValid p → IsApart p e → IsValid (put p e now).0
unfolding put
put-IsValid p e now v a = elim (Option-cases (map_get e.addr p.index)) [
  | inl free ↦ rw (free, put) (put_new-IsValid p e now v free a)
  | inr (r, found) ↦ elim (Bool-cases ((p.heap r).endpoint.ptr == e.ptr)) [
    | inl same ↦ rw (found, put, same) v
    | inr other ↦ rw (found, put, other) (put_again-IsValid p r e now v a found)
  ]
]
