-- ===== src/Pool/Failures.antt =====
-- route/pool.go: endpointFailed and the choices after it.
use gorouter.Base.{ℕ, ◌+◌, ◌≤◌, ◌≡◌, ◌≢◌, inl, inr, refl, subst, some, arith, map_get, Option-cases}
use gorouter.Endpoint.{Endpoint}
use gorouter.Pool.{Pool, next, still_failed, write, endpoint_failed}
use gorouter.Pool.Invariant.{IsValid, IsLive, addr_of}
use gorouter.Pool.Next.{IsAvailable, Frame, Frame-IsValid}
use gorouter.Pool.Choice.{IsIntn, next-Served}

endpoint_failed-failed :
    (p : Pool) (r now : ℕ)
    → IsValid p
    → IsLive p r
    → ((endpoint_failed p (p.heap r).endpoint now).heap r).failed_at ≡ some now
unfolding endpoint_failed write
endpoint_failed-failed p r now v live = ground (arith, v.by_addr r live)

pub Frame-failed : (p : Pool) (e : Endpoint) (now : ℕ) → Frame p (endpoint_failed p e now)
unfolding endpoint_failed write
Frame-failed p e now = elim (Option-cases (map_get e.addr p.index)) [
  | inl missing ↦
      rw (missing, endpoint_failed)
        (record {
          endpoints = refl;
          index = refl;
          next_ref = refl;
          retry = refl;
          data_of = λ s. (refl, refl, refl);
        })
  | inr (r, found) ↦
      rw (found, endpoint_failed)
        (record {
          endpoints = refl;
          index = refl;
          next_ref = refl;
          retry = refl;
          data_of = λ s. ground arith;
        })
]

not_rested :
    (p : Pool) (r now later : ℕ)
    → IsValid p
    → IsLive p r
    → later ≤ now + p.retry_after_failure
    → ¬ IsAvailable (endpoint_failed p (p.heap r).endpoint now) later r
unfolding still_failed
not_rested p r now later v live soon rested =
    ground
      (arith, endpoint_failed-failed p r now v live, (Frame-failed p (p.heap r).endpoint now).retry)

-- In a valid pool, an endpoint that a request reports as failed is not served again before the
-- pool's waiting time is over, as long as another endpoint of the pool is available. Intn answers
-- below its bound.
pub failed_not_served :
    (p : Pool) (r s now later : ℕ) (random : ℕ → ℕ)
    → IsValid p
    → IsIntn random
    → IsLive p r
    → later ≤ now + p.retry_after_failure
    → IsLive p s
    → IsAvailable (endpoint_failed p (p.heap r).endpoint now) later s
    → (q : Pool) × ((e : Endpoint) × (next (endpoint_failed p (p.heap r).endpoint now) random later
          ≡ some (q, some e))
        × (e.addr ≢ addr_of p r))
failed_not_served p r s now later random v intn live soon other free =
    let p' = endpoint_failed p (p.heap r).endpoint now in
    let f = Frame-failed p (p.heap r).endpoint now in
    let v' = Frame-IsValid p p' f v in
    elim (next-Served p' random later v' intn) [
      | inl (none_left, _) ↦ absurd (ground (arith, f.endpoints))
      | inr (q, (e, done, served)) ↦ (
        q,
        (
          e,
          done,
          λ same.
              let w = served.ref in
              let here : IsLive p w = ground (arith, f.data_of w, f.endpoints, served.live) in
              let is_r : w ≡ r =
                ground (arith, f.data_of w, served.serves, v.by_addr w here, v.by_addr r live) in
              elim served.best [
                | inl rested ↦
                    not_rested p r now later v live soon (subst (IsAvailable p' later) is_r rested)
                | inr all_failed ↦ all_failed s (ground (arith, f.data_of s, f.endpoints)) free
              ],
        ),
      )
    ]
