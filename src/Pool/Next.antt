-- ===== src/Pool/Next.antt =====
-- route/pool.go: the round robin of `next`, round by round.
use gorouter.Base.{
  ℕ, zero, suc, ◌+◌, ◌-◌, ◌<◌, ◌≡◌, ◌≢◌, ◌⊎◌, inl, inr, subst, List, [], ◌∷◌, Option, none, some,
  arith, length, get_elem?, get_elem?-lt, get_elem?-total, if◌then◌else◌, ltb, leb, ◌==◌, ◌||◌,
  ◌&&◌, Bool-cases, Option-cases, Bool, true, false,
}
use gorouter.Endpoint.{Endpoint}
use gorouter.Pool.{Pool, next_loop, wrap, still_failed, reset_failed, set_failed, write, mem}
use gorouter.Pool.Invariant.{IsValid, IsLive}

-- The element has not failed, or its failure is longer ago than the pool waits.
abbrev pub IsAvailable : Pool → ℕ → ℕ → Type 0
IsAvailable p now r = still_failed (p.heap r).failed_at p.retry_after_failure now ≡ none

-- Nothing but failures and the turn differ.
pub record Frame (p q : Pool) : Type 0 where
  pub endpoints : q.endpoints ≡ p.endpoints
  pub index : q.index ≡ p.index
  pub next_ref : q.next_ref ≡ p.next_ref
  pub retry : q.retry_after_failure ≡ p.retry_after_failure
  pub data_of :
      (s : ℕ)
      → ((q.heap s).endpoint ≡ (p.heap s).endpoint)
        × ((q.heap s).updated ≡ (p.heap s).updated)
        × ((q.heap s).index ≡ (p.heap s).index)

pub record Served (p : Pool) (now : ℕ) (q : Pool) (e : Endpoint) : Type 0 where
  pub ref : ℕ
  pub live : IsLive p ref
  pub serves : (p.heap ref).endpoint ≡ e
  pub best : IsAvailable p now ref ⊎ ((s : ℕ) → IsLive p s → ¬ IsAvailable p now s)
  pub turn : q.next_idx ≡ some (wrap (p.heap ref).index (length p.endpoints))
  pub frame : Frame p q

pub Frame-IsValid : (p q : Pool) → Frame p q → IsValid p → IsValid q
Frame-IsValid p q f v = record {
  placed = λ i r h. ground (arith, f.data_of r, f.endpoints, v.placed i r);
  used = λ r h. ground (arith, f.data_of r, f.endpoints, f.next_ref, v.used r);
  by_addr = λ r h. ground (arith, f.data_of r, f.endpoints, f.index, v.by_addr r);
  keyed = λ k r h. ground (arith, f.data_of r, f.endpoints, f.index, v.keyed k r);
  apart = λ r s h k e. ground (arith, f.data_of r, f.data_of s, f.endpoints, v.apart r s);
}

-- The places that the loop has still to visit, from `cur` round to `start`.
abbrev pub pending : ℕ → ℕ → ℕ → Bool
pending start cur j = if ltb cur start then leb cur j && ltb j start else leb cur j || ltb j start

-- The loop's pool `q` is the pool `p` of the call, but for its turn.
pub record Searching (p : Pool) (start cur now : ℕ) (q : Pool) : Type 0 where
  pub frame : Frame p q
  pub same_failed : (s : ℕ) → (q.heap s).failed_at ≡ (p.heap s).failed_at
  pub same_retry : q.retry_after_failure ≡ p.retry_after_failure
  pub passed :
      (j s : ℕ)
      → get_elem? p.endpoints j ≡ some s
      → pending start cur j ≡ false
      → ¬ IsAvailable p now s

abbrev pub to_go : ℕ → ℕ → ℕ → ℕ
to_go start cur last = if ltb cur start then start - cur else last - cur + start

mem-get : (rs : List ℕ) (i r : ℕ) → get_elem? rs i ≡ some r → mem rs r ≡ true
mem-get [] i r e = cc
mem-get (x ∷ rs) zero r e = ground arith
mem-get (x ∷ rs) (suc i) r e = ground (arith, mem-get rs i r)

abbrev pub Serves : Pool → ℕ → Option (Pool × Endpoint) → Type 0
Serves p now o = (q : Pool) × ((e : Endpoint) × (o ≡ some (q, e)) × Served p now q e)

abbrev turned : Pool → ℕ → ℕ → Pool
turned q r cur = record (set_failed q r none) { next_idx = some (wrap cur (length q.endpoints)) }

module _ (p : Pool) (now start : ℕ) (v : IsValid p) where
  -- A round that finds its element available.
  serve :
      (fuel cur r : ℕ) (q : Pool)
      → Frame p q
      → get_elem? p.endpoints cur ≡ some r
      → IsAvailable q now r
      → IsAvailable p now r ⊎ ((s : ℕ) → IsLive p s → ¬ IsAvailable p now s)
      → Serves p now (next_loop (suc fuel) start cur now q)
  unfolding next_loop write
  serve fuel cur r q f here free best =
      let at = v.placed cur r here in
      let data_of_r = f.data_of r in
      (
        turned q r cur,
        (
          (q.heap r).endpoint,
          ground (arith, f.endpoints),
          record {
            ref = r;
            live = ground arith;
            serves = ground arith;
            best = best;
            turn = ground (arith, f.endpoints);
            frame = record {
              endpoints = f.endpoints;
              index = f.index;
              next_ref = f.next_ref;
              retry = f.retry;
              data_of = λ s. ground (arith, f.data_of s);
            };
          },
        ),
      )

  Frame-reset : (q : Pool) → Frame p q → Frame p (reset_failed q)
  unfolding reset_failed
  Frame-reset q f = record {
    endpoints = f.endpoints;
    index = f.index;
    next_ref = f.next_ref;
    retry = f.retry;
    data_of = λ s. ground (arith, f.data_of s);
  }

  -- The round after the reset.
  serve_reset :
      (fuel cur : ℕ) (q : Pool)
      → cur < length p.endpoints
      → Frame p q
      → ((s : ℕ) → IsLive p s → ¬ IsAvailable p now s)
      → Serves p now (next_loop (suc fuel) start cur now (reset_failed q))
  unfolding reset_failed still_failed
  serve_reset fuel cur q room f all_failed =
      let (r, here) = get_elem?-total p.endpoints cur room in
      serve fuel cur r (reset_failed q) (Frame-reset q f) here
        (ground (arith, mem-get p.endpoints cur r here, f.endpoints)) (inr all_failed)

  -- The pool after a round whose element has failed: the same, by its fields.
  abbrev passed_by : Pool → ℕ → ℕ → Pool
  passed_by q r t = set_failed q r (some t)

  Frame-passed_by : (r t : ℕ) (q : Pool) → Frame p q → Frame p (passed_by q r t)
  unfolding write
  Frame-passed_by r t q f = record {
    endpoints = f.endpoints;
    index = f.index;
    next_ref = f.next_ref;
    retry = f.retry;
    data_of = λ s. ground (arith, f.data_of s);
  }

  -- A round that finds its element failed.
  step_failed :
      (k cur r t : ℕ) (q : Pool)
      → Frame p q
      → get_elem? p.endpoints cur ≡ some r
      → still_failed (q.heap r).failed_at q.retry_after_failure now ≡ some t
      → next_loop k start (wrap cur (length p.endpoints)) now (
          if wrap cur (length p.endpoints) == start
          then reset_failed (passed_by q r t)
          else passed_by q r t)
        ≡ next_loop (suc k) start cur now q
  unfolding next_loop
  step_failed k cur r t q f here failed = ground (arith, f.endpoints, here)

  Searching-next :
      (cur r t : ℕ) (q : Pool)
      → Searching p start cur now q
      → start < length p.endpoints
      → cur < length p.endpoints
      → get_elem? p.endpoints cur ≡ some r
      → still_failed (q.heap r).failed_at q.retry_after_failure now ≡ some t
      → wrap cur (length p.endpoints) ≢ start
      → Searching p start (wrap cur (length p.endpoints)) now (passed_by q r t)
  unfolding write still_failed
  Searching-next cur r t q g ahead room here failed more = record {
    frame = Frame-passed_by r t q g.frame;
    same_failed = λ s. ground (arith, g.same_failed s, g.same_failed r);
    same_retry = g.same_retry;
    passed = λ j s there out. elim (Bool-cases (j == cur)) [
      | inl same ↦ λ free. ground (arith, g.same_failed r)
      | inr other ↦ g.passed j s there (ground (arith, get_elem?-lt p.endpoints j s there))
    ];
  }

  -- When the loop is round, every element has failed.
  all_passed :
      (cur r t : ℕ) (q : Pool)
      → Searching p start cur now q
      → get_elem? p.endpoints cur ≡ some r
      → still_failed (q.heap r).failed_at q.retry_after_failure now ≡ some t
      → cur < length p.endpoints
      → wrap cur (length p.endpoints) ≡ start
      → (s : ℕ) → IsLive p s
      → ¬ IsAvailable p now s
  unfolding still_failed
  all_passed cur r t q g here failed room round s live =
      elim (Bool-cases ((p.heap s).index == cur)) [
        | inl same ↦ λ free. ground (arith, g.same_failed r, g.same_retry)
        | inr other ↦
            g.passed (p.heap s).index s live
              (ground (arith, get_elem?-lt p.endpoints (p.heap s).index s live))
      ]

  pub next_loop-Serves :
      (fuel cur : ℕ) (q : Pool)
      → start < length p.endpoints
      → cur < length p.endpoints
      → to_go start cur (length p.endpoints) < fuel
      → Searching p start cur now q
      → Serves p now (next_loop fuel start cur now q)
  next_loop-Serves zero cur q ahead room enough g = absurd (omega arith)
  next_loop-Serves (suc zero) cur q ahead room enough g = absurd (ground arith)
  next_loop-Serves (suc (suc fuel)) cur q ahead room enough g =
      let (r, here) = get_elem?-total p.endpoints cur room in
      elim (Option-cases (still_failed (q.heap r).failed_at q.retry_after_failure now)) [
        | inl free ↦
            serve (suc fuel) cur r q g.frame here free
              (inl (ground (arith, g.same_failed r, g.same_retry)))
        | inr (t, failed) ↦ elim (Bool-cases (wrap cur (length p.endpoints) == start)) [
          | inl round ↦
              subst (Serves p now)
                (ground (arith, step_failed (suc fuel) cur r t q g.frame here failed))
                (serve_reset fuel (wrap cur (length p.endpoints)) (passed_by q r t) (ground arith)
                  (Frame-passed_by r t q g.frame)
                  (all_passed cur r t q g here failed room (ground arith)))
          | inr more ↦
              subst (Serves p now)
                (ground (arith, step_failed (suc fuel) cur r t q g.frame here failed))
                (next_loop-Serves (suc fuel) (wrap cur (length p.endpoints)) (passed_by q r t) ahead
                  (ground arith) (ground arith)
                  (Searching-next cur r t q g ahead room here failed (ground arith)))
        ]
      ]
