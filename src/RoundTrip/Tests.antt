-- ===== src/RoundTrip/Tests.antt =====
-- Round trips on a pool of one endpoint.
use gorouter.Base.{
  zero, suc, ℕ, ◌+◌, ◌<◌, ◌≡◌, refl, [], Option, none, some, true, codes, map_get, map_put,
}
use gorouter.Endpoint.{Endpoint}
use gorouter.Pool.{
  new_pool, put, put_new, write, next, next_loop, start_idx, still_failed, reset_failed,
  endpoint_failed, iterator_next, initial_choice, find_by_id, iterator_endpoint_failed,
  new_iterator,
}
use gorouter.Pool.Samples.{a, bare, one, one-IsValid, last_place, last_place-IsIntn}
use gorouter.RoundTrip.{
  Outcome, response, dial_error, retryable_error, Answer, no_endpoints, tried, Trip, round_trip,
  round_trip_loop, service_round_trip, service_loop, max_retries,
}
use gorouter.RoundTrip.Tries.{Tripped, round_trip-Tripped}
use gorouter.RoundTrip.Service.{service_round_trip_lem}

-- The first try does not connect, the second one does.
abbrev flaky : ℕ → Endpoint → Outcome
flaky zero e = dial_error
flaky (suc n) e = response 200

abbrev clock : ℕ → ℕ
clock n = 200 + n

abbrev answers : Option Trip → Option Answer
answers none = none
answers (some s) = some s.answer

abbrev Runs : Type 0
Runs =
    (answers (round_trip flaky clock last_place one (new_iterator (codes "a")))
      ≡ some (tried a (response 200)))
    × (answers (round_trip (λ n e. dial_error) clock last_place one (new_iterator []))
        ≡ some (tried a dial_error))
    × (answers (round_trip flaky clock last_place bare (new_iterator [])) ≡ some no_endpoints)
    × (service_round_trip (λ n. flaky n a) ≡ response 200)

all_Runs : Runs
unfolding round_trip round_trip_loop service_round_trip service_loop new_iterator iterator_next
    initial_choice find_by_id iterator_endpoint_failed endpoint_failed next next_loop start_idx
    still_failed reset_failed new_pool put put_new write map_get map_put
all_Runs = (refl, refl, refl, refl)

round_trip-Tripped_example :
    (s : Trip) × (round_trip flaky clock last_place one (new_iterator (codes "a")) ≡ some s)
    × Tripped one s
round_trip-Tripped_example =
    round_trip-Tripped flaky clock last_place last_place-IsIntn one (new_iterator (codes "a"))
      one-IsValid

service_round_trip_lem_example :
    (k : ℕ) × (k < max_retries)
    × (service_round_trip (λ n. flaky n a) ≡ flaky k a)
    × ((j : ℕ) → j < k → retryable_error (flaky j a) ≡ true)
    × (retryable_error (flaky k a) ≡ true → k + 1 ≡ max_retries)
service_round_trip_lem_example = service_round_trip_lem (λ n. flaky n a)
