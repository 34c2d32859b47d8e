-- ===== src/Config.antt =====
-- config/config.go: the configuration and what Process makes of it. An int, a time.Duration (a number
-- of nanoseconds) and a uint16 are their bits: a number below 2 ^ 64, for a negative one that with
-- 2 ^ 64 added. A panic is `none`.
pub mod Durations
pub mod Processing
mod Tests
use gorouter.Base.{
  ℕ, ◌+◌, ◌-◌, ◌*◌, ◌%◌, ◌^◌, List, [], ◌∷◌, Option, none, some, Bool, true, false, not, ◌&&◌, ◌||◌,
  Text, codes, text_eq, Map, map_get, if◌then◌else◌, ltb, ◌==◌, cut,
}
use gorouter.Endpoint.{second}

pub record RoutingApiConfig : Type 0 where
  pub uri : Text
  pub port : ℕ

-- What Process and RoutingApiEnabled read and write; it keeps every other field.
pub record Config : Type 0 where
  pub routing_api : RoutingApiConfig
  pub job_name : Text
  pub go_max_procs : ℕ
  pub enable_ssl : Bool
  pub ssl_certificate : Option Text
  pub cipher_string : Text
  pub cipher_suites : List ℕ
  pub prune_stale_droplets_interval_in_seconds : ℕ
  pub droplet_stale_threshold_in_seconds : ℕ
  pub publish_active_apps_interval_in_seconds : ℕ
  pub start_response_delay_interval_in_seconds : ℕ
  pub endpoint_timeout_in_seconds : ℕ
  pub route_service_timeout_in_seconds : ℕ
  pub drain_timeout_in_seconds : ℕ
  pub route_service_secret : Text
  pub prune_stale_droplets_interval : ℕ
  pub droplet_stale_threshold : ℕ
  pub publish_active_apps_interval : ℕ
  pub start_response_delay_interval : ℕ
  pub endpoint_timeout : ℕ
  pub route_service_timeout : ℕ
  pub drain_timeout : ℕ
  pub ip : Text
  pub route_service_enabled : Bool

unfoldable pub default_config : Config
default_config = record {
  routing_api = record { uri = []; port = 0 };
  job_name = [];
  go_max_procs = 2 ^ 64 - 1;
  enable_ssl = false;
  ssl_certificate = none;
  cipher_string = [];
  cipher_suites = [];
  prune_stale_droplets_interval_in_seconds = 30;
  droplet_stale_threshold_in_seconds = 120;
  publish_active_apps_interval_in_seconds = 0;
  start_response_delay_interval_in_seconds = 5;
  endpoint_timeout_in_seconds = 60;
  route_service_timeout_in_seconds = 60;
  drain_timeout_in_seconds = 0;
  route_service_secret = [];
  prune_stale_droplets_interval = 0;
  droplet_stale_threshold = 0;
  publish_active_apps_interval = 0;
  start_response_delay_interval = 0;
  endpoint_timeout = 0;
  route_service_timeout = 0;
  drain_timeout = 0;
  ip = [];
  route_service_enabled = false;
}

-- `time.Duration(n) * time.Second`
unfoldable pub in_seconds : ℕ → ℕ
in_seconds n = n * second % 2 ^ 64

-- `a > b` of two signed numbers.
unfoldable pub greater : ℕ → ℕ → Bool
greater a b = ltb ((b + 2 ^ 63) % 2 ^ 64) ((a + 2 ^ 63) % 2 ^ 64)

unfoldable pub process_durations : Config → Config
process_durations c =
    let stale = in_seconds c.droplet_stale_threshold_in_seconds in
    let delay = in_seconds c.start_response_delay_interval_in_seconds in
    record c {
      prune_stale_droplets_interval = in_seconds c.prune_stale_droplets_interval_in_seconds;
      droplet_stale_threshold = if greater delay stale then delay else stale;
      publish_active_apps_interval = in_seconds c.publish_active_apps_interval_in_seconds;
      start_response_delay_interval = delay;
      endpoint_timeout = in_seconds c.endpoint_timeout_in_seconds;
      route_service_timeout = in_seconds c.route_service_timeout_in_seconds;
      drain_timeout = in_seconds (
          if c.drain_timeout_in_seconds == 0
          then c.endpoint_timeout_in_seconds
          else c.drain_timeout_in_seconds);
      job_name = codes "gorouter";
    }

unfoldable pub cipher_map : Map ℕ
cipher_map =
    (codes "TLS_RSA_WITH_AES_128_CBC_SHA", 0x002f)
    ∷ (codes "TLS_RSA_WITH_AES_256_CBC_SHA", 0x0035)
    ∷ (codes "TLS_ECDHE_ECDSA_WITH_AES_128_CBC_SHA", 0xc009)
    ∷ (codes "TLS_ECDHE_ECDSA_WITH_AES_256_CBC_SHA", 0xc00a)
    ∷ (codes "TLS_ECDHE_RSA_WITH_AES_128_CBC_SHA", 0xc013)
    ∷ (codes "TLS_ECDHE_RSA_WITH_AES_256_CBC_SHA", 0xc014)
    ∷ (codes "TLS_ECDHE_RSA_WITH_AES_128_GCM_SHA256", 0xc02f)
    ∷ (codes "TLS_ECDHE_ECDSA_WITH_AES_128_GCM_SHA256", 0xc02b)
    ∷ []

-- `len(strings.TrimSpace(s)) == 0`
abbrev pub is_blank : Text → Bool
is_blank [] = true
is_blank (c ∷ s) = (c == 32 || c == 9 || c == 10 || c == 11 || c == 12 || c == 13) && is_blank s

-- `strings.Split` at a character
abbrev pub split : ℕ → Text → List Text
split sep [] = [] ∷ []
split sep (c ∷ s) = elim (c == sep) [
  | true ↦ [] ∷ split sep s
  | false ↦ elim (split sep s) [ [] ↦ (c ∷ []) ∷ [] | part ∷ parts ↦ (c ∷ part) ∷ parts ]
]

unfoldable pub convert_cipher_string_to_int : List Text → Map ℕ → Option (List ℕ)
convert_cipher_string_to_int [] m = some []
convert_cipher_string_to_int (cipher ∷ ciphers) m = elim (map_get cipher m) [
  | none ↦ none
  | some val ↦ elim (convert_cipher_string_to_int ciphers m) [
    | none ↦ none
    | some vals ↦ some (val ∷ vals)
  ]
]

unfoldable pub process_cipher_suites : Config → Option (List ℕ)
process_cipher_suites c = elim (is_blank c.cipher_string) [
  | true ↦ none
  | false ↦ convert_cipher_string_to_int (split b':' c.cipher_string) cipher_map
]

-- `tls.LoadX509KeyPair` answers `cert`.
unfoldable pub process_ssl : Option Text → Config → Option Config
process_ssl cert c = elim c.enable_ssl [
  | false ↦ some c
  | true ↦ elim (process_cipher_suites c) [
    | none ↦ none
    | some suites ↦ elim cert [
      | none ↦ none
      | some pair ↦ some (record c { cipher_suites = suites; ssl_certificate = some pair })
    ]
  ]
]

-- `runtime.NumCPU` answers `cpus`, and `localip.LocalIP` answers `local_ip`.
unfoldable pub process : ℕ → Option Text → Option Text → Config → Option Config
process cpus local_ip cert c =
    let c1 =
      process_durations (record c {
        go_max_procs = if c.go_max_procs == 2 ^ 64 - 1 then cpus else c.go_max_procs;
      }) in
    elim local_ip [
      | none ↦ none
      | some ip ↦ elim (process_ssl cert (record c1 { ip = ip })) [
        | none ↦ none
        | some c2 ↦ some (record c2 {
          route_service_enabled =
              if text_eq c2.route_service_secret [] then c2.route_service_enabled else true;
        })
      ]
    ]

unfoldable pub routing_api_enabled : Config → Bool
routing_api_enabled c = not (text_eq c.routing_api.uri []) && not (c.routing_api.port == 0)

-- `read` is the content of the file, and `unmarshal` puts it into the configuration.
unfoldable pub init_config_from_file :
    (Text → Config → Option Config) → Option Text → ℕ → Option Text → Option Text → Option Config
init_config_from_file unmarshal read cpus local_ip cert =
    elim (process cpus local_ip cert default_config) [
      | none ↦ none
      | some c ↦ elim read [
        | none ↦ none
        | some b ↦ elim (unmarshal b c) [ none ↦ none | some c' ↦ process cpus local_ip cert c' ]
      ]
    ]
