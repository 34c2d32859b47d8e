-- ===== src/RequestHandler/Dials.antt =====
-- proxy/request_handler.go: the connections that are tried, which are those of the round trips in
-- proxy/proxy_round_tripper.go.
use gorouter.Base.{
  ap, sym, subst, ◌∙◌, ℕ, zero, suc, ◌+◌, ◌*◌, ◌≤◌, ◌≡◌, inl, inr, refl, List, [], ◌∷◌, ◌++◌, none,
  some, Bool, true, false, Text, arith, length, Bool-cases, Option-cases,
}
use gorouter.Endpoint.{Endpoint}
use gorouter.Pool.{Pool, Iterator, iterator_next, iterator_endpoint_failed}
use gorouter.RoundTrip.{
  Outcome, response, dial_error, retryable_error, Answer, nothing, no_endpoints, tried, Trip,
  round_trip_loop, round_trip, max_retries,
}
use gorouter.Pool.Invariant.{IsValid, IsLive}
use gorouter.Pool.Next.{Frame}
use gorouter.Pool.Choice.{IsIntn}
use gorouter.RoundTrip.Tries.{Tries, AreMembers, Tripped, round_trip-Tripped}
use gorouter.RequestHandler.{Handler, handle_bad_gateway, status_switching_protocols}
use gorouter.RequestHandler.Serving.{
  Session, Dialed, connected, failed, no_endpoints_available, dial_failed, hijack_failed,
  write_failed, dial_loop, dialing, capture_bad_gateway,
}

-- A connection as the transport's answer.
abbrev pub outcome : Bool → Outcome
outcome true = response status_switching_protocols
outcome false = dial_error

abbrev pub outcomes : List (Endpoint × Bool) → List (Endpoint × Outcome)
outcomes [] = []
outcomes ((e, ok) ∷ ds) = (e, outcome ok) ∷ outcomes ds

outcomes-append :
    (ds : List (Endpoint × Bool)) (e : Endpoint) (ok : Bool)
    → outcomes (ds ++ (e, ok) ∷ []) ≡ outcomes ds ++ (e, outcome ok) ∷ []
outcomes-append [] e ok = refl
outcomes-append ((d, u) ∷ ds) e ok = ap (λ t. (d, outcome u) ∷ t) (outcomes-append ds e ok)

-- The answer of the round trip for what came of the connections.
abbrev pub Concludes : Dialed → Trip → Type 0
Concludes (connected e) t = t.answer ≡ tried e (outcome true)
Concludes (failed no_endpoints_available) t = t.answer ≡ no_endpoints
Concludes (failed dial_failed) t = (e : Endpoint) × (t.answer ≡ tried e (outcome false))
Concludes (failed hijack_failed) t = ⊥
Concludes (failed write_failed) t = ⊥

-- The handler answers only where there are no endpoints.
abbrev pub handled : (Text → ℕ × Bool) → Dialed → Handler → Handler
handled accept (failed no_endpoints_available) h = handle_bad_gateway accept (capture_bad_gateway h)
handled accept (failed dial_failed) h = h
handled accept (failed hijack_failed) h = h
handled accept (failed write_failed) h = h
handled accept (connected e) h = h

pub record Matches (accept : Text → ℕ × Bool) (s s' : Session) (d : Dialed) (t : Trip)
    : Type 0 where
  pub pool : s'.pool ≡ t.pool
  pub iter : s'.iter ≡ t.iter
  pub dials : outcomes s'.dials ≡ t.tries
  pub concludes : Concludes d t
  pub handler : s'.handler ≡ handled accept d s.handler
  pub request : s'.request ≡ s.request
  pub forwarded : s'.forwarded ≡ s.forwarded

abbrev view : Answer → Session → Trip
view a s = record { pool = s.pool; iter = s.iter; tries = outcomes s.dials; answer = a }

module _ (accept : Text → ℕ × Bool) (dial : ℕ → Endpoint → Bool) (clock random : ℕ → ℕ) where
  abbrev pub transport : ℕ → Endpoint → Outcome
  transport n e = outcome (dial n e)

  module _ (left n : ℕ) (s : Session) (a : Answer) (t : Trip)
      (r : round_trip_loop transport clock random (suc left) n (view a s) ≡ some t) where
    -- The iterator has no endpoint.
    nobody-Matches :
        (q : Pool) (it : Iterator)
        → iterator_next s.pool s.iter random (clock (2 * n)) ≡ some (q, it, none)
        → (s' : Session) × (d : Dialed) × (dial_loop accept dial clock random (suc left) n s
            ≡ some (s', d))
          × Matches accept s s' d t
    unfolding dial_loop round_trip_loop
    nobody-Matches q it next = (
      record s {
        pool = q;
        iter = it;
        handler = handle_bad_gateway accept (capture_bad_gateway s.handler);
      },
      failed no_endpoints_available,
      ground (arith, next),
      record {
        pool = ground (arith, next, r);
        iter = ground (arith, next, r);
        dials = ground (arith, next, r);
        concludes = ground (arith, next, r);
        handler = refl;
        request = refl;
        forwarded = refl;
      },
    )

    -- The endpoint accepts the connection.
    connected-Matches :
        (q : Pool) (it : Iterator) (e : Endpoint)
        → iterator_next s.pool s.iter random (clock (2 * n)) ≡ some (q, it, some e)
        → dial n e ≡ true
        → (s' : Session) × (d : Dialed) × (dial_loop accept dial clock random (suc left) n s
            ≡ some (s', d))
          × Matches accept s s' d t
    unfolding dial_loop round_trip_loop
    connected-Matches q it e next ok = (
      dialing s q it e true,
      connected e,
      ground (arith, next, ok),
      record {
        pool = ground (arith, next, ok, r);
        iter = ground (arith, next, ok, r);
        dials = outcomes-append s.dials e true ∙ ground (arith, next, ok, r);
        concludes = ground (arith, next, ok, r);
        handler = refl;
        request = refl;
        forwarded = refl;
      },
    )

  -- `a` is the answer so far of the round trip, `t` is where it ends.
  dial_loop-Matches :
      (left n : ℕ) (s : Session) (a : Answer) (t : Trip)
      → (left ≡ 0 → (e : Endpoint) × (a ≡ tried e (outcome false)))
      → round_trip_loop transport clock random left n (view a s) ≡ some t
      → (s' : Session) × (d : Dialed) × (dial_loop accept dial clock random left n s ≡ some (s', d))
        × Matches accept s s' d t
  unfolding dial_loop round_trip_loop
  dial_loop-Matches zero n s a t l r =
      let same : view a s ≡ t = cc in
      let (e, last) = l refl in
      (
        s,
        failed dial_failed,
        refl,
        record {
          pool = ap (λ u. u.pool) same;
          iter = ap (λ u. u.iter) same;
          dials = ap (λ u. u.tries) same;
          concludes = (e, sym (ap (λ u. u.answer) same) ∙ last);
          handler = refl;
          request = refl;
          forwarded = refl;
        },
      )
  dial_loop-Matches (suc left) n s a t l r =
      elim (Option-cases (iterator_next s.pool s.iter random (clock (2 * n)))) [
        | inl panics ↦ absurd (ground (arith, panics, r))
        | inr ((q, it, o), next) ↦ elim (Option-cases o) [
          | inl nobody ↦ nobody-Matches left n s a t r q it (ground (arith, next, nobody))
          | inr (e, chosen) ↦ elim (Bool-cases (dial n e)) [
            | inl ok ↦ connected-Matches left n s a t r q it e (ground (arith, next, chosen)) ok
            | inr down ↦
                let q' = iterator_endpoint_failed q it (clock (2 * n + 1)) in
                let s1 = dialing s q' it e false in
                let same = outcomes-append s.dials e false in
                let a1 = tried e (outcome false) in
                let rest : round_trip_loop transport clock random left (n + 1) (view a1 s1)
                    ≡ some t =
                  ground (arith, next, chosen, down, r, same) in
                let (s', d, go, m) = dial_loop-Matches left (n + 1) s1 a1 t (λ z. (e, refl)) rest in
                (
                  s',
                  d,
                  ground (arith, next, chosen, down, go),
                  record {
                    pool = m.pool;
                    iter = m.iter;
                    dials = m.dials;
                    concludes = m.concludes;
                    handler = m.handler;
                    request = m.request;
                    forwarded = m.forwarded;
                  },
                )
          ]
        ]
      ]

-- What came of the connections.
abbrev pub Came : Pool → List (Endpoint × Bool) → Dialed → Type 0
Came p ds (connected e) = (r : ℕ) × IsLive p r × ((p.heap r).endpoint ≡ e)
Came p ds (failed no_endpoints_available) = (p.endpoints ≡ []) × (ds ≡ [])
Came p ds (failed dial_failed) = length ds ≡ max_retries
Came p ds (failed hijack_failed) = ⊥
Came p ds (failed write_failed) = ⊥

pub record Settled (accept : Text → ℕ × Bool) (s s' : Session) (d : Dialed) : Type 0 where
  pub valid : IsValid s'.pool
  pub frame : Frame s.pool s'.pool
  pub bounded : length s'.dials ≤ max_retries
  pub came : Came s.pool s'.dials d
  pub handler : s'.handler ≡ handled accept d s.handler
  pub request : s'.request ≡ s.request
  pub forwarded : s'.forwarded ≡ s.forwarded

length-outcomes : (ds : List (Endpoint × Bool)) → length (outcomes ds) ≡ length ds
length-outcomes [] = refl
length-outcomes (d ∷ ds) = ap suc (length-outcomes ds)

none_dialed : (ds : List (Endpoint × Bool)) → outcomes ds ≡ [] → ds ≡ []
none_dialed [] e = refl
none_dialed (d ∷ ds) e = absurd cc

-- The last try of a round trip is at an endpoint of the pool.
last_member :
    (p : Pool) (ts earlier : Tries) (e : Endpoint) (o : Outcome)
    → ts ≡ earlier ++ (e, o) ∷ []
    → AreMembers p ts
    → (r : ℕ) × IsLive p r × ((p.heap r).endpoint ≡ e)
last_member p ts earlier e o same ms = go earlier (subst (λ u. AreMembers p u) same ms)
  where
    go :
        (us : Tries)
        → AreMembers p (us ++ (e, o) ∷ [])
        → (r : ℕ) × IsLive p r × ((p.heap r).endpoint ≡ e)
    go [] (m, rest) = m
    go ((d, u) ∷ us) (m, rest) = go us rest

Came-Tripped :
    (p : Pool) (ds : List (Endpoint × Bool)) (d : Dialed) (t : Trip)
    → Tripped p t
    → outcomes ds ≡ t.tries
    → Concludes d t
    → Came p ds d
Came-Tripped p ds (connected e) t k same a = elim k.ends [
  | inl (gone, untried, nobody) ↦ absurd cc
  | inr (f, o, earlier, (tries, last, all), third) ↦
      let eq : f ≡ e = cc in
      subst (λ u. (r : ℕ) × IsLive p r × ((p.heap r).endpoint ≡ u)) eq
        (last_member p t.tries earlier f o tries k.members)
]
Came-Tripped p ds (failed no_endpoints_available) t k same a = elim k.ends [
  | inl (gone, untried, nobody) ↦ (gone, none_dialed ds (same ∙ untried))
  | inr (f, o, earlier, (tries, last, all), third) ↦ absurd cc
]
Came-Tripped p ds (failed dial_failed) t k same (e, a) = elim k.ends [
  | inl (gone, untried, nobody) ↦ absurd cc
  | inr (f, o, earlier, (tries, last, all), third) ↦
      let eq : o ≡ dial_error = cc in
      sym (length-outcomes ds) ∙ ap length same ∙ third (ap retryable_error eq)
]
Came-Tripped p ds (failed hijack_failed) t k same a = absurd a
Came-Tripped p ds (failed write_failed) t k same a = absurd a

module _ (accept : Text → ℕ × Bool) (dial : ℕ → Endpoint → Bool) (clock random : ℕ → ℕ) where
  pub dial_loop-Settled :
      (s : Session)
      → IsIntn random
      → IsValid s.pool
      → s.dials ≡ []
      → (s' : Session) × (d : Dialed) × (dial_loop accept dial clock random max_retries 0 s
          ≡ some (s', d))
        × Settled accept s s' d
  unfolding round_trip
  dial_loop-Settled s intn v fresh =
      let (t, trip, k) =
        round_trip-Tripped (transport accept dial clock random) clock random intn s.pool s.iter v in
      let run : round_trip_loop (transport accept dial clock random) clock random max_retries 0
            (view nothing s)
          ≡ some t =
        ground (arith, trip, fresh) in
      let (s', d, go, m) =
        dial_loop-Matches accept dial clock random max_retries 0 s nothing t (λ z. absurd cc) run in
      (
        s',
        d,
        go,
        record {
          valid = subst (λ u. IsValid u) (sym m.pool) k.valid;
          frame = subst (λ u. Frame s.pool u) (sym m.pool) k.frame;
          bounded = omega (arith, ap length m.dials, length-outcomes s'.dials, k.bounded);
          came = Came-Tripped s.pool s'.dials d t k m.dials m.concludes;
          handler = m.handler;
          request = m.request;
          forwarded = m.forwarded;
        },
      )
