-- ===== src/RouteFetcher.antt =====
-- route_fetcher/route_fetcher.go: the routes of the routing API, which the registry follows. What the
-- token fetcher and the client of the API answer are arguments; a panic is `none`.
pub mod Calls
pub mod Refreshing
mod Tests
use gorouter.Base.{
  ℕ, ◌+◌, ◌%◌, ◌^◌, List, [], ◌∷◌, Option, none, some, Bool, true, false, ◌&&◌, ◌||◌, Text, codes,
  text_eq, if◌then◌else◌, ◌==◌,
}
use gorouter.Registry.{unregister}
use gorouter.Messages.{RegistryMessage, World, make_endpoint, register_uri}

-- The fields of a db.Route that are read.
pub record ApiRoute : Type 0 where
  pub route : Text
  pub port : ℕ
  pub ip : Text
  pub ttl : ℕ
  pub log_guid : Text
  pub route_service_url : Text

-- RouteFetcher, with the state of the registry and the objects that it calls.
pub record RouteFetcher : Type 0 where
  pub endpoints : List ApiRoute
  pub world : World

-- The arguments of the calls of NewEndpoint, as those of a message for one URI.
unfoldable pub route_message : ApiRoute → RegistryMessage
route_message r = record {
  host = r.ip;
  port = r.port % 2 ^ 16;
  uris = r.route ∷ [];
  tags = [];
  app = r.log_guid;
  stale_threshold_in_seconds = r.ttl;
  route_service_url = r.route_service_url;
  private_instance_id = r.log_guid;
}

unfoldable pub register_route : (ℕ → ℕ) → World → ApiRoute → World
register_route clock w r = register_uri clock (route_message r) w r.route

unfoldable pub unregister_route : World → ApiRoute → Option World
unregister_route w r =
    elim (unregister w.registry r.route (make_endpoint (route_message r) w.next_ptr)) [
      | none ↦ none
      | some g ↦ some (record w { registry = g; next_ptr = w.next_ptr + 1 })
    ]

unfoldable pub route_equals : ApiRoute → ApiRoute → Bool
route_equals current desired =
    text_eq current.route desired.route
    && text_eq current.ip desired.ip
    && current.port == desired.port

unfoldable pub route_found : ApiRoute → List ApiRoute → Bool
route_found cur [] = false
route_found cur (valid ∷ valids) = route_equals cur valid || route_found cur valids

-- `diff` of deleteEndpoints
unfoldable pub vanished : List ApiRoute → List ApiRoute → List ApiRoute
vanished [] valids = []
vanished (cur ∷ curs) valids =
    if route_found cur valids then vanished curs valids else cur ∷ vanished curs valids

unfoldable pub unregister_routes : List ApiRoute → World → Option World
unregister_routes [] w = some w
unregister_routes (r ∷ rs) w = elim (unregister_route w r) [
  | none ↦ none
  | some w' ↦ unregister_routes rs w'
]

unfoldable pub delete_endpoints : RouteFetcher → List ApiRoute → Option RouteFetcher
delete_endpoints f valids = elim (unregister_routes (vanished f.endpoints valids) f.world) [
  | none ↦ none
  | some w ↦ some (record f { world = w })
]

unfoldable pub register_routes : (ℕ → ℕ) → List ApiRoute → World → World
register_routes clock [] w = w
register_routes clock (r ∷ rs) w = register_routes clock rs (register_route clock w r)

unfoldable pub refresh_endpoints : (ℕ → ℕ) → RouteFetcher → List ApiRoute → Option RouteFetcher
refresh_endpoints clock f valids = elim (delete_endpoints f valids) [
  | none ↦ none
  | some f' ↦ some (record f' { endpoints = valids; world = register_routes clock valids f'.world })
]

-- Whether there is a token, and the routes that the API answers; the result says whether there was
-- an error.
unfoldable pub fetch_routes :
    (ℕ → ℕ) → Bool → Option (List ApiRoute) → RouteFetcher → Option (RouteFetcher × Bool)
fetch_routes clock false routes f = some (f, true)
fetch_routes clock true none f = some (f, true)
fetch_routes clock true (some valids) f = elim (refresh_endpoints clock f valids) [
  | none ↦ none
  | some f' ↦ some (f', false)
]

pub record Event : Type 0 where
  pub action : Text
  pub route : ApiRoute

unfoldable pub handle_event : (ℕ → ℕ) → RouteFetcher → Event → Option RouteFetcher
handle_event clock f e =
    if text_eq e.action (codes "Upsert")
    then some (record f { world = register_route clock f.world e.route })
    else elim (text_eq e.action (codes "Delete")) [
      | false ↦ some f
      | true ↦ elim (unregister_route f.world e.route) [
        | none ↦ none
        | some w ↦ some (record f { world = w })
      ]
    ]
