-- ===== src/RoundTrip.antt =====
-- proxy/proxy_round_tripper.go: the tries of a request, at the endpoints of a pool or at a route
-- service. What the transport answers is an argument, as are the clock and the random numbers.
pub mod Tries
pub mod Service
mod Tests
use gorouter.Base.{
  ℕ, zero, suc, ◌+◌, ◌*◌, List, [], ◌∷◌, ◌++◌, Option, none, some, Bool, true, false,
}
use gorouter.Endpoint.{Endpoint}
use gorouter.Pool.{Pool, Iterator, iterator_next, iterator_endpoint_failed}

-- A response with its status, a net.OpError of the operation "dial", or any other error.
pub data Outcome : Type 0 where
  response : ℕ → Outcome
  dial_error : Outcome
  other_error : Outcome

abbrev pub retryable_error : Outcome → Bool
retryable_error (response status) = false
retryable_error dial_error = true
retryable_error other_error = false

abbrev pub max_retries : ℕ
max_retries = 3

-- `res, err` with the endpoint: nothing yet, the error noEndpointsAvailable, or a try.
pub data Answer : Type 0 where
  nothing : Answer
  no_endpoints : Answer
  tried : Endpoint → Outcome → Answer

pub record Trip : Type 0 where
  pub pool : Pool
  pub iter : Iterator
  pub tries : List (Endpoint × Outcome)
  pub answer : Answer

module _ (transport : ℕ → Endpoint → Outcome) (clock : ℕ → ℕ) (random : ℕ → ℕ) where
  abbrev try : Trip → Pool → Iterator → Endpoint → Outcome → Trip
  try s p it e o = record {
    pool = p;
    iter = it;
    tries = s.tries ++ (e, o) ∷ [];
    answer = tried e o;
  }

  -- The loop of BackendRoundTripper.RoundTrip, with the tries that are left and the number of this
  -- one. `none` is a panic.
  unfoldable pub round_trip_loop : ℕ → ℕ → Trip → Option Trip
  round_trip_loop zero n s = some s
  round_trip_loop (suc left) n s = elim (iterator_next s.pool s.iter random (clock (2 * n))) [
    | none ↦ none
    | some (p, it, none) ↦ some (record s { pool = p; iter = it; answer = no_endpoints })
    | some (p, it, some e) ↦ elim (retryable_error (transport n e)) [
      | false ↦ some (try s p it e (transport n e))
      | true ↦
          round_trip_loop left (n + 1)
            (try s (iterator_endpoint_failed p it (clock (2 * n + 1))) it e (transport n e))
    ]
  ]

  unfoldable pub round_trip : Pool → Iterator → Option Trip
  round_trip p it =
      round_trip_loop max_retries 0 (record { pool = p; iter = it; tries = []; answer = nothing })

-- The loop of RouteServiceRoundTripper.RoundTrip; the result is that of the last try.
unfoldable pub service_loop : (ℕ → Outcome) → ℕ → ℕ → Outcome → Outcome
service_loop transport zero n o = o
service_loop transport (suc left) n o = elim (retryable_error (transport n)) [
  | false ↦ transport n
  | true ↦ service_loop transport left (n + 1) (transport n)
]

unfoldable pub service_round_trip : (ℕ → Outcome) → Outcome
service_round_trip transport = service_loop transport max_retries 0 other_error
