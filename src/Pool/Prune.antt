-- ===== src/Pool/Prune.antt =====
-- route/pool.go: PruneEndpoints and its loop.
use gorouter.Base.{
  ℕ, zero, suc, ◌+◌, ◌<◌, ◌≤◌, ◌≡◌, ◌≢◌, ◌↔◌, inl, inr, refl, ◌∙◌, Option, some, arith, length,
  get_elem?-lt, get_elem?-total, Bool-cases, true, false,
}
use gorouter.Endpoint.{Endpoint}
use gorouter.Pool.{Pool, prune_loop, prune_endpoints, is_stale, threshold}
use gorouter.Pool.Invariant.{IsValid, IsLive, Contains}
use gorouter.Pool.Remove.{Drops, SameData, remove_endpoint-Drops}

-- `q` is the valid pool `p` without the elements that are stale at `now`.
record Keeps (p : Pool) (default now : ℕ) (q : Pool) : Type 0 where
  valid : IsValid q
  live : (s : ℕ) → IsLive q s ↔ (IsLive p s × (is_stale (p.heap s) default now ≡ false))
  same : SameData p q

module _ (default now : ℕ) where
  abbrev IsFresh : Pool → ℕ → Type 0
  IsFresh p s = is_stale (p.heap s) default now ≡ false

  fresh_of_same :
      (p q : Pool) (s : ℕ)
      → SameData p q
      → is_stale (q.heap s) default now ≡ is_stale (p.heap s) default now
  unfolding is_stale
  fresh_of_same p q s same = ground (arith, same s)

  -- A stale element is removed, and the rest is pruned.
  after :
      (p p' q : Pool) (r : ℕ)
      → is_stale (p.heap r) default now ≡ true
      → Drops p r p'
      → Keeps p' default now q
      → Keeps p default now q
  after p p' q r stale d k = record {
    valid = k.valid;
    live = λ s. (
      λ h. ground (arith, (k.live s).0 h, (d.live s).0, fresh_of_same p p' s d.same),
      λ (h, fresh).
          let ne : s ≢ r = λ eq. ground arith in
          (k.live s).1 ((d.live s).1 (h, ne), fresh_of_same p p' s d.same ∙ fresh),
    );
    same = λ s. ground (arith, k.same s, d.same s);
  }

  -- The elements before place `i` are fresh, and `n` more are to be looked at.
  prune_loop-Keeps :
      (n i : ℕ) (p : Pool)
      → IsValid p
      → n + i ≡ length p.endpoints
      → ((s : ℕ) → IsLive p s → (p.heap s).index < i → IsFresh p s)
      → (q : Pool) × (prune_loop n i p default now ≡ some q) × Keeps p default now q
  unfolding prune_loop
  prune_loop-Keeps zero i p v rounds seen = (
    p,
    refl,
    record {
      valid = v;
      live = λ s. (
        λ h. (h, seen s h (omega (arith, get_elem?-lt p.endpoints (p.heap s).index s h))),
        λ h. h.0,
      );
      same = λ s. (refl, refl, refl);
    },
  )
  prune_loop-Keeps (suc n) i p v rounds seen =
      let (r, here) = get_elem?-total p.endpoints i (omega arith) in
      let at = v.placed i r here in
      let live : IsLive p r = ground arith in
      elim (Bool-cases (is_stale (p.heap r) default now)) [
        | inl stale ↦
            let (p', done, d) = remove_endpoint-Drops p r v live in
            let (q, rest, k) =
              prune_loop-Keeps n i p' d.valid (omega (arith, d.shorter)) (λ s h low.
                let (was, ne) = (d.live s).0 h in
                ground (arith, d.below s, seen s was, fresh_of_same p p' s d.same)) in
            (q, ground (arith, here, stale, done, rest), after p p' q r stale d k)
        | inr fresh ↦
            let (q, rest, k) = prune_loop-Keeps n (suc i) p v (omega arith) (λ s h low.
              ground
                (arith, seen s h, get_elem?-lt p.endpoints (p.heap s).index s h, here, fresh)) in
            (q, ground (arith, here, fresh, rest), k)
      ]

-- PruneEndpoints does not panic on a valid pool and leaves it valid. An endpoint is in it
-- afterwards, with its times, exactly if it was before and its last registration is no older than
-- the threshold that applies to it.
pub prune_endpoints-Contains :
    (p : Pool) (default now : ℕ)
    → IsValid p
    → (q : Pool) × (prune_endpoints p default now ≡ some q)
      × IsValid q
      × ((x : Endpoint) (t : ℕ) (f : Option ℕ)
          → Contains q x t f ↔ (Contains p x t f × (now ≤ t + threshold x default)))
unfolding prune_endpoints is_stale
prune_endpoints-Contains p default now v =
    let (q, done, k) =
      prune_loop-Keeps default now (length p.endpoints) 0 p v (omega arith)
        (λ s h low. absurd (omega arith)) in
    (
      q,
      done,
      k.valid,
      λ x t f. (
        λ (s, here, is_x, at, failed).
            let (was, fresh) = (k.live s).0 here in
            let data_of_s = k.same s in
            ((s, was, ground arith, ground arith, ground arith), ground arith),
        λ ((s, here, is_x, at, failed), young).
            let same_data = k.same s in
            (s, (k.live s).1 (here, ground arith), ground arith, ground arith, ground arith),
      ),
    )
