-- ===== src/RouteFetcher/Tests.antt =====
-- A fetch of two routes and then of another one, and an event.
use gorouter.Base.{ℕ, ◌≡◌, refl, List, [], ◌∷◌, none, some, true, false, Text, codes}
use gorouter.Messages.Handling.{start, start-IsClean}
use gorouter.RouteFetcher.{
  ApiRoute, RouteFetcher, Event, fetch_routes, handle_event, vanished, route_found, route_equals,
}
use gorouter.RouteFetcher.Refreshing.{Refreshed, Handled, route_fetcher_lem}

abbrev api_route : Text → ℕ → ApiRoute
api_route uri port = record {
  route = uri;
  port = port;
  ip = codes "10.0.0.1";
  ttl = 120;
  log_guid = codes "guid";
  route_service_url = [];
}

abbrev before : RouteFetcher
before = record { endpoints = api_route (codes "a.org") 80 ∷ []; world = start 120 }

abbrev valid_routes : List ApiRoute
valid_routes = api_route (codes "a.org") 81 ∷ api_route (codes "b.org/x") 80 ∷ []

abbrev event : Event
event = record { action = codes "Upsert"; route = api_route (codes "c.org") 80 }

-- Only the route that is not among the valid ones vanishes.
all_vanished :
    vanished (api_route (codes "a.org") 80 ∷ api_route (codes "b.org/x") 80 ∷ []) valid_routes
    ≡ api_route (codes "a.org") 80 ∷ []
unfolding vanished route_found route_equals
all_vanished = refl

route_fetcher_lem_example :
    ((f : RouteFetcher) × (fetch_routes (λ n. n) true (some valid_routes) before ≡ some (f, false))
      × Refreshed before f valid_routes)
    × (fetch_routes (λ n. n) false (some valid_routes) before ≡ some (before, true))
    × (fetch_routes (λ n. n) true none before ≡ some (before, true))
    × ((f : RouteFetcher) × (handle_event (λ n. n) before event ≡ some f) × Handled before f event)
route_fetcher_lem_example =
    route_fetcher_lem (λ n. n) before valid_routes event (start-IsClean 120) (refl, (refl, tt)) refl
