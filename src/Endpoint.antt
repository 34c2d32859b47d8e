-- ===== src/Endpoint.antt =====
-- route/endpoint.go. An endpoint is never changed once it is made; `ptr` is the identity of the
-- object, which Pool.Put compares. Durations are nanoseconds, and not negative.
use gorouter.Base.{ℕ, ◌*◌, ◌/◌, ◌++◌, ◌∷◌, Text, Map, itoa}

pub record Endpoint : Type 0 where
  pub ptr : ℕ
  pub application_id : Text
  pub addr : Text
  pub tags : Map Text
  pub private_instance_id : Text
  pub stale_threshold : ℕ
  pub route_service_url : Text

abbrev pub second : ℕ
second = 1_000_000_000

-- `time.Time.Unix` of a time in nanoseconds.
abbrev pub unix : ℕ → ℕ
unix t = t / second

unfoldable pub new_endpoint : ℕ → Text → Text → ℕ → Text → Map Text → ℕ → Text → Endpoint
new_endpoint ptr app_id host port private_instance_id tags stale_threshold_in_seconds url = record {
  ptr = ptr;
  application_id = app_id;
  addr = host ++ (b':' ∷ itoa port);
  tags = tags;
  private_instance_id = private_instance_id;
  stale_threshold = stale_threshold_in_seconds * second;
  route_service_url = url;
}

abbrev pub canonical_addr : Endpoint → Text
canonical_addr e = e.addr

-- What MarshalJSON writes: the address, the threshold in whole seconds and the route service.
pub record EndpointJson : Type 0 where
  pub address : Text
  pub ttl : ℕ
  pub route_service_url : Text

unfoldable pub endpoint_json : Endpoint → EndpointJson
endpoint_json e = record {
  address = e.addr;
  ttl = e.stale_threshold / second;
  route_service_url = e.route_service_url;
}
