-- ===== src/Config/Tests.antt =====
-- Configurations that Process and InitConfigFromFile read.
use gorouter.Base.{
  ◌-◌, ◌^◌, ◌≡◌, ◌⊎◌, refl, [], ◌∷◌, none, some, true, false, Text, codes, arith, map_get,
}
use gorouter.Config.{
  Config, default_config, in_seconds, greater, process_durations, cipher_map,
  convert_cipher_string_to_int, process_cipher_suites, process_ssl, process, routing_api_enabled,
  init_config_from_file,
}
use gorouter.Config.Durations.{AreModest}
use gorouter.Config.Processing.{IsRefused, Processed, process-Processed}

-- TLS with two suites, a late start and a secret.
abbrev secure : Config
secure = record default_config {
  enable_ssl = true;
  cipher_string = codes "TLS_RSA_WITH_AES_128_CBC_SHA:TLS_ECDHE_RSA_WITH_AES_128_GCM_SHA256";
  start_response_delay_interval_in_seconds = 200;
  route_service_secret = codes "secret";
}

two_suites : process_cipher_suites secure ≡ some (0x002f ∷ 0xc02f ∷ [])
unfolding default_config process_cipher_suites convert_cipher_string_to_int cipher_map map_get
two_suites = refl

late_start : (process_durations secure).droplet_stale_threshold ≡ 200_000_000_000
unfolding default_config process_durations in_seconds greater
late_start = refl

-- A negative number of seconds is a negative duration, which is not later.
negative : greater (in_seconds (2 ^ 64 - 1)) (in_seconds 120) ≡ false
unfolding greater in_seconds
negative = refl

unknown_suite :
    process 4
      (some (codes "10.0.0.1"))
      (some (codes "pair"))
      (record secure { cipher_string = codes "RC4" })
    ≡ none
unfolding default_config process process_durations process_ssl process_cipher_suites
    convert_cipher_string_to_int cipher_map map_get
unknown_suite = refl

no_api : routing_api_enabled default_config ≡ false
unfolding default_config routing_api_enabled
no_api = refl

no_file : init_config_from_file (λ b c. some c) none 4 (some (codes "10.0.0.1")) none ≡ none
unfolding init_config_from_file default_config process process_durations process_ssl
no_file = refl

secure-AreModest : AreModest secure
unfolding default_config
secure-AreModest = record {
  prune = omega arith;
  stale = omega arith;
  publish = omega arith;
  delay = omega arith;
  endpoint = omega arith;
  service = omega arith;
  drain = omega arith;
}

process-Processed_example :
    ((process 4 (some (codes "10.0.0.1")) (some (codes "pair")) secure ≡ none)
      × ((some (codes "10.0.0.1") ≡ none) ⊎ IsRefused (some (codes "pair")) secure))
    ⊎ ((ip : Text) × (c : Config) × (some (codes "10.0.0.1") ≡ some ip)
        × (process 4 (some (codes "10.0.0.1")) (some (codes "pair")) secure ≡ some c)
        × Processed 4 ip (some (codes "pair")) secure c)
process-Processed_example =
    process-Processed 4 (some (codes "10.0.0.1")) (some (codes "pair")) secure secure-AreModest
