-- ===== src/Varz/Tests.antt =====
-- A few calls of a RealVarz.
use gorouter.Base.{
  ℕ, ◌+◌, ◌*◌, ◌%◌, ◌^◌, ◌/◌, ◌-◌, ◌≡◌, refl, List, [], ◌∷◌, Option, none, some, true, false, Text,
  codes, map_get, length,
}
use gorouter.Endpoint.{Endpoint}
use gorouter.Varz.{
  RealVarz, new_http_metric, capture_response, status_class, count_class, http_metric,
  tagged_capture_request, capture_request, top_entries,
}
use gorouter.Varz.Calls.{
  Call, bad_gateway, routing_request, routing_response, report, active_tick, top_tick, run_calls,
}
use gorouter.Varz.Counting.{Counted, run_calls-Counted}

abbrev cell : Endpoint
cell = record {
  ptr = 0;
  application_id = codes "app";
  addr = codes "10.0.0.1:80";
  tags = (codes "component", codes "dea-1") ∷ [];
  private_instance_id = [];
  stale_threshold = 120;
  route_service_url = [];
}

-- The last one first.
abbrev calls : List Call
calls =
    report 70_000_000_000
    ∷ active_tick 4
    ∷ top_tick 4
    ∷ routing_response cell (some 404) 5_000_000_000 3_000_000
    ∷ bad_gateway
    ∷ routing_request cell
    ∷ []

-- A response without a status and one with 399.
two_responses :
    capture_response (capture_response new_http_metric none 7) (some 399) 9
    ≡ record new_http_metric {
      responses_3xx = 1 ∷ [];
      responses_xxx = 1 ∷ [];
      latency = 9 ∷ 7 ∷ [];
    }
unfolding capture_response status_class count_class new_http_metric
two_responses = refl

first_of_tag :
    tagged_capture_request [] (codes "dea-1")
    ≡ (codes "dea-1", capture_request new_http_metric) ∷ []
unfolding tagged_capture_request http_metric gorouter.Base.map_get gorouter.Base.map_put
first_of_tag = refl

per_second :
    top_entries (record { application_id = codes "app"; requests = 150 } ∷ [])
    ≡ record { application_id = codes "app"; requests_per_second = 2; requests_per_minute = 150 }
      ∷ []
unfolding top_entries
per_second = refl

run_calls-Counted_example : (x : RealVarz) × (run_calls calls ≡ some x) × Counted calls x
run_calls-Counted_example = run_calls-Counted calls
