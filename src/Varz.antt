-- ===== src/Varz.antt =====
-- varz/varz.go: what is counted of the requests. A counter, a meter or a histogram of the metrics
-- library is the list of the values that it got, the last one first. A panic is `none`.
pub mod Calls
pub mod Tallies
pub mod Tags
pub mod Apps
pub mod Counting
mod Tests
use gorouter.Base.{
  ℕ, ◌+◌, ◌-◌, ◌*◌, ◌%◌, ◌^◌, ◌/◌, List, [], ◌∷◌, Option, none, some, Bool, true, false, Text,
  codes, text_eq, Map, map_get, map_put, if◌then◌else◌, ◌==◌,
}
use gorouter.Endpoint.{Endpoint, second, unix}
use gorouter.Stats.ActiveApps.{ActiveApps, new_active_apps}
use gorouter.Stats.ActiveApps
use gorouter.Stats.TopApps.{TopApps, TopEntry, new_top_apps, top_since}
use gorouter.Stats.TopApps

-- The entry of the ten applications with the most requests.
pub record TopAppsEntry : Type 0 where
  pub application_id : Text
  pub requests_per_second : ℕ
  pub requests_per_minute : ℕ

pub record HttpMetric : Type 0 where
  pub requests : List ℕ
  pub rate : List ℕ
  pub responses_2xx : List ℕ
  pub responses_3xx : List ℕ
  pub responses_4xx : List ℕ
  pub responses_5xx : List ℕ
  pub responses_xxx : List ℕ
  pub latency : List ℕ

unfoldable pub new_http_metric : HttpMetric
new_http_metric = record {
  requests = [];
  rate = [];
  responses_2xx = [];
  responses_3xx = [];
  responses_4xx = [];
  responses_5xx = [];
  responses_xxx = [];
  latency = [];
}

unfoldable pub capture_request : HttpMetric → HttpMetric
capture_request x = record x { requests = 1 ∷ x.requests; rate = 1 ∷ x.rate }

-- `statusCode` of CaptureResponse, for the status of the response if there is one.
unfoldable pub status_class : Option ℕ → ℕ
status_class none = 0
status_class (some status) = status / 100

unfoldable pub count_class : ℕ → HttpMetric → HttpMetric
count_class n x = elim (n == 2) [
  | true ↦ record x { responses_2xx = 1 ∷ x.responses_2xx }
  | false ↦ elim (n == 3) [
    | true ↦ record x { responses_3xx = 1 ∷ x.responses_3xx }
    | false ↦ elim (n == 4) [
      | true ↦ record x { responses_4xx = 1 ∷ x.responses_4xx }
      | false ↦ elim (n == 5) [
        | true ↦ record x { responses_5xx = 1 ∷ x.responses_5xx }
        | false ↦ record x { responses_xxx = 1 ∷ x.responses_xxx }
      ]
    ]
  ]
]

unfoldable pub capture_response : HttpMetric → Option ℕ → ℕ → HttpMetric
capture_response x response duration =
    let y = count_class (status_class response) x in record y { latency = duration ∷ y.latency }

-- TaggedHttpMetric.httpMetric, which also puts a new metric into the map.
unfoldable pub http_metric : Map HttpMetric → Text → HttpMetric
http_metric x t = elim (map_get t x) [ none ↦ new_http_metric | some y ↦ y ]

unfoldable pub tagged_capture_request : Map HttpMetric → Text → Map HttpMetric
tagged_capture_request x t = map_put t (capture_request (http_metric x t)) x

unfoldable pub tagged_capture_response : Map HttpMetric → Text → Option ℕ → ℕ → Map HttpMetric
tagged_capture_response x t y z = map_put t (capture_response (http_metric x t) y z) x

-- RealVarz with the fields of `varz` that the captures and updateTop write.
pub record RealVarz : Type 0 where
  pub active_apps : ActiveApps
  pub top_apps : TopApps
  pub all : HttpMetric
  pub component : Map HttpMetric
  pub bad_requests : ℕ
  pub bad_gateways : ℕ
  pub top : List TopAppsEntry

unfoldable pub new_varz : RealVarz
new_varz = record {
  active_apps = new_active_apps;
  top_apps = new_top_apps;
  all = new_http_metric;
  component = [];
  bad_requests = 0;
  bad_gateways = 0;
  top = [];
}

unfoldable pub top_entries : List TopEntry → List TopAppsEntry
top_entries [] = []
top_entries (z ∷ y) =
    record {
      application_id = z.application_id;
      requests_per_second = z.requests / 60;
      requests_per_minute = z.requests;
    }
    ∷ top_entries y

-- `now` is at least a minute. TopSince and Mark take the time's Unix() first, which is written
-- here, since their models take seconds.
unfoldable pub update_top : ℕ → RealVarz → Option RealVarz
update_top now x = elim (top_since x.top_apps (unix (now - 60 * second)) 10) [
  | none ↦ none
  | some (apps, y) ↦ some (record x { top_apps = apps; top = top_entries y })
]

unfoldable pub capture_bad_request : RealVarz → RealVarz
capture_bad_request x = record x { bad_requests = (x.bad_requests + 1) % 2 ^ 64 }

unfoldable pub capture_bad_gateway : RealVarz → RealVarz
capture_bad_gateway x = record x { bad_gateways = (x.bad_gateways + 1) % 2 ^ 64 }

unfoldable pub capture_app_stats : Endpoint → ℕ → RealVarz → Option RealVarz
capture_app_stats b t x = elim (text_eq b.application_id []) [
  | true ↦ some x
  | false ↦ elim (ActiveApps.mark x.active_apps b.application_id (unix t)) [
    | none ↦ none
    | some apps ↦ elim (TopApps.mark x.top_apps b.application_id (unix t)) [
      | none ↦ none
      | some tops ↦ some (record x { active_apps = apps; top_apps = tops })
    ]
  ]
]

unfoldable pub capture_routing_request : Endpoint → RealVarz → RealVarz
capture_routing_request b x = record x {
  component = elim (map_get (codes "component") b.tags) [
    | none ↦ x.component
    | some t ↦ tagged_capture_request x.component t
  ];
  all = capture_request x.all;
}

unfoldable pub capture_routing_response : Endpoint → Option ℕ → ℕ → ℕ → RealVarz → Option RealVarz
capture_routing_response endpoint response started_at duration x =
    let tagged : Map HttpMetric = elim (map_get (codes "component") endpoint.tags) [
      | none ↦ x.component
      | some tags ↦ tagged_capture_response x.component tags response duration
    ] in
    elim (capture_app_stats endpoint started_at (record x { component = tagged })) [
      | none ↦ none
      | some y ↦ some (record y { all = capture_response y.all response duration })
    ]
