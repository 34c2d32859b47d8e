-- ===== src/RoundTrip/Tries.antt =====
-- proxy/proxy_round_tripper.go: the tries of one request, in their order.
use gorouter.Base.{
  ap, ℕ, zero, suc, ◌+◌, ◌*◌, ◌≤◌, ◌≡◌, ◌⊎◌, inl, inr, refl, List, [], ◌∷◌, ◌++◌, some, true, arith,
  length, length-append, Option-cases, Bool-cases,
}
use gorouter.Endpoint.{Endpoint}
use gorouter.Pool.{Pool, Iterator, iterator_endpoint_failed}
use gorouter.Pool.Invariant.{IsValid, IsLive}
use gorouter.Pool.Next.{Frame, Frame-IsValid}
use gorouter.Pool.Failures.{Frame-failed}
use gorouter.Pool.Choice.{IsIntn, iterator_next_lem, Frame-refl, Frame-trans}
use gorouter.RoundTrip.{
  Outcome, retryable_error, nothing, no_endpoints, tried, Trip, round_trip_loop, round_trip,
  max_retries,
}

abbrev pub Tries : Type 0
Tries = List (Endpoint × Outcome)

abbrev pub AreRetryable : Tries → Type 0
AreRetryable [] = Unit
AreRetryable ((e, o) ∷ ts) = (retryable_error o ≡ true) × AreRetryable ts

-- Each try is at an endpoint of the pool.
abbrev pub AreMembers : Pool → Tries → Type 0
AreMembers p [] = Unit
AreMembers p ((e, o) ∷ ts) = ((r : ℕ) × IsLive p r × ((p.heap r).endpoint ≡ e)) × AreMembers p ts

AreRetryable-append :
    (ts : Tries) (e : Endpoint) (o : Outcome)
    → AreRetryable ts
    → retryable_error o ≡ true
    → AreRetryable (ts ++ (e, o) ∷ [])
AreRetryable-append [] e o h r = (r, tt)
AreRetryable-append ((d, u) ∷ ts) e o (first, h) r = (first, AreRetryable-append ts e o h r)

AreMembers-append :
    (p : Pool) (ts : Tries) (e : Endpoint) (o : Outcome)
    → AreMembers p ts
    → (r : ℕ) × IsLive p r × ((p.heap r).endpoint ≡ e)
    → AreMembers p (ts ++ (e, o) ∷ [])
AreMembers-append p [] e o h m = (m, tt)
AreMembers-append p ((d, u) ∷ ts) e o (first, h) m = (first, AreMembers-append p ts e o h m)

no_members : (p : Pool) (ts : Tries) → p.endpoints ≡ [] → AreMembers p ts → ts ≡ []
no_members p [] e h = refl
no_members p ((d, u) ∷ ts) e ((r, live, _), h) = absurd (ground (arith, live))

-- The last try is the answer, and those before it failed to connect.
abbrev pub EndsWith : Trip → Endpoint → Outcome → Tries → Type 0
EndsWith s e o earlier =
    (s.tries ≡ earlier ++ (e, o) ∷ []) × (s.answer ≡ tried e o) × AreRetryable earlier

-- What a round trip leaves of the pool `p`.
pub record Tripped (p : Pool) (s : Trip) : Type 0 where
  pub valid : IsValid s.pool
  pub frame : Frame p s.pool
  pub members : AreMembers p s.tries
  pub bounded : length s.tries ≤ max_retries
  pub ends :
      ((p.endpoints ≡ []) × (s.tries ≡ []) × (s.answer ≡ no_endpoints))
      ⊎ ((e : Endpoint) × (o : Outcome) × (earlier : Tries) × EndsWith s e o earlier
          × (retryable_error o ≡ true → length s.tries ≡ max_retries))

-- The state of the loop with `left` tries to go.
record Trying (p : Pool) (left : ℕ) (s : Trip) : Type 0 where
  valid : IsValid s.pool
  frame : Frame p s.pool
  members : AreMembers p s.tries
  all : AreRetryable s.tries
  used : left + length s.tries ≡ max_retries
  last :
      (s.tries ≡ []) ⊎ ((e : Endpoint) × (o : Outcome) × (earlier : Tries) × EndsWith s e o earlier)

Frame-iterator_failed :
    (p : Pool) (it : Iterator) (now : ℕ) → Frame p (iterator_endpoint_failed p it now)
unfolding iterator_endpoint_failed
Frame-iterator_failed p it now = elim (Option-cases it.last_endpoint) [
  | inl none_yet ↦ rw (none_yet, iterator_endpoint_failed) (Frame-refl p)
  | inr (e, last) ↦ rw (last, iterator_endpoint_failed) (Frame-failed p e now)
]

AreMembers-Frame :
    (p q : Pool) (ts : Tries)
    → Frame p q
    → (e : Endpoint) → (r : ℕ) × IsLive q r × ((q.heap r).endpoint ≡ e)
    → (r : ℕ) × IsLive p r × ((p.heap r).endpoint ≡ e)
AreMembers-Frame p q ts f e (r, live, same) =
    (r, ground (arith, f.data_of r, f.endpoints), ground (arith, f.data_of r))

module _ (transport : ℕ → Endpoint → Outcome) (clock random : ℕ → ℕ) (intn : IsIntn random)
    (p : Pool) where
  -- The pool is empty.
  nobody-Tripped :
      (left : ℕ) (s : Trip)
      → Trying p (suc left) s
      → (q : Pool) (it : Iterator) → p.endpoints ≡ []
      → Frame s.pool q
      → IsValid q
      → Tripped p (record s { pool = q; iter = it; answer = no_endpoints })
  nobody-Tripped left s t q it gone f v = record {
    valid = v;
    frame = Frame-trans p s.pool q t.frame f;
    members = t.members;
    bounded = omega (arith, t.used);
    ends = inl (gone, no_members p s.tries gone t.members, refl);
  }

  round_trip_loop-Tripped :
      (left n : ℕ) (s : Trip)
      → Trying p left s
      → (s' : Trip) × (round_trip_loop transport clock random left n s ≡ some s') × Tripped p s'
  unfolding round_trip_loop
  round_trip_loop-Tripped zero n s t = (
    s,
    refl,
    record {
      valid = t.valid;
      frame = t.frame;
      members = t.members;
      bounded = omega (arith, t.used);
      ends = elim t.last [
        | inl no_tries ↦ absurd (omega (arith, t.used, ap length no_tries))
        | inr (e, o, earlier, ends) ↦ inr (e, o, earlier, ends, λ h. omega (arith, t.used))
      ];
    },
  )
  round_trip_loop-Tripped (suc left) n s t =
      let (q, (it, (o, next, c))) =
        iterator_next_lem s.pool random (clock (2 * n)) t.valid intn s.iter in
      elim (Option-cases o) [
        | inl nobody ↦ (
          record s { pool = q; iter = it; answer = no_endpoints },
          ground (arith, next),
          nobody-Tripped left s t q it (ground (arith, t.frame.endpoints, c.empty)) c.frame c.valid,
        )
        | inr (e, chosen) ↦
            let u = transport n e in
            let member = AreMembers-Frame p s.pool s.tries t.frame e (c.member e chosen) in
            let members = AreMembers-append p s.tries e u t.members member in
            let longer = length-append s.tries ((e, u) ∷ []) in
            let f = Frame-trans p s.pool q t.frame c.frame in
            elim (Bool-cases (retryable_error u)) [
              | inl again ↦
                  let now = clock (2 * n + 1) in
                  let q' = iterator_endpoint_failed q it now in
                  let g = Frame-iterator_failed q it now in
                  let s1 : Trip = record {
                    pool = q';
                    iter = it;
                    tries = s.tries ++ (e, u) ∷ [];
                    answer = tried e u;
                  } in
                  let (s', done, k) = round_trip_loop-Tripped left (n + 1) s1 (record {
                    valid = Frame-IsValid q q' g c.valid;
                    frame = Frame-trans p q q' f g;
                    members = members;
                    all = AreRetryable-append s.tries e u t.all again;
                    used = omega (arith, t.used, longer);
                    last = inr (e, u, s.tries, (refl, refl, t.all));
                  }) in
                  (s', ground (arith, next, again, done), k)
              | inr final ↦ (
                record { pool = q; iter = it; tries = s.tries ++ (e, u) ∷ []; answer = tried e u },
                ground (arith, next, final),
                record {
                  valid = c.valid;
                  frame = f;
                  members = members;
                  bounded = omega (arith, t.used, longer);
                  ends = inr (e, u, s.tries, (refl, refl, t.all), λ h. absurd (ground arith));
                },
              )
            ]
      ]

  -- A round trip of a request on a valid pool ends without a panic after at most three tries,
  -- where Intn answers below its bound, whatever the transport answers. Each try is at an
  -- endpoint of the pool, all but the last one failed to connect, and the answer is that of the
  -- last one, which failed to connect only if it is the third; without a try the pool is empty
  -- and the answer is noEndpointsAvailable. The pool stays valid and, but for its turn and its
  -- failures, the same.
  pub round_trip-Tripped :
      (it : Iterator)
      → IsValid p
      → (s : Trip) × (round_trip transport clock random p it ≡ some s) × Tripped p s
  unfolding round_trip
  round_trip-Tripped it v =
      round_trip_loop-Tripped max_retries 0
        (record { pool = p; iter = it; tries = []; answer = nothing })
        (record {
          valid = v;
          frame = Frame-refl p;
          members = tt;
          all = tt;
          used = refl;
          last = inl refl;
        })
