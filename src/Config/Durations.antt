-- ===== src/Config/Durations.antt =====
-- config/config.go: the durations that Process computes.
use gorouter.Base.{
  ◌∙◌, ℕ, ◌*◌, ◌^◌, ◌≤◌, ◌<◌, ◌≡◌, ◌≢◌, ◌⊎◌, inl, inr, true, false, arith, lt_cases, if◌then◌else◌,
}
use gorouter.Endpoint.{second}
use gorouter.Config.{Config, in_seconds, greater, process_durations}

-- The greatest number of seconds whose nanoseconds are a positive time.Duration.
abbrev pub longest : ℕ
longest = 9_223_372_036

-- The intervals that are read are not negative and fit into a time.Duration.
pub record AreModest (c : Config) : Type 0 where
  pub prune : c.prune_stale_droplets_interval_in_seconds ≤ longest
  pub stale : c.droplet_stale_threshold_in_seconds ≤ longest
  pub publish : c.publish_active_apps_interval_in_seconds ≤ longest
  pub delay : c.start_response_delay_interval_in_seconds ≤ longest
  pub endpoint : c.endpoint_timeout_in_seconds ≤ longest
  pub service : c.route_service_timeout_in_seconds ≤ longest
  pub drain : c.drain_timeout_in_seconds ≤ longest

in_seconds_lem : (n : ℕ) → n ≤ longest → in_seconds n ≡ n * second
unfolding in_seconds
in_seconds_lem n h = omega arith

greater_lem :
    (a b : ℕ)
    → a < 2 ^ 63
    → b < 2 ^ 63
    → (b < a → greater a b ≡ true) × (a ≤ b → greater a b ≡ false)
unfolding greater
greater_lem a b h g = (λ l. ground arith, λ l. ground arith)

-- The durations of a configuration that has been processed.
pub record Timed (c c' : Config) : Type 0 where
  pub prune : c'.prune_stale_droplets_interval ≡ c.prune_stale_droplets_interval_in_seconds * second
  pub publish : c'.publish_active_apps_interval ≡ c.publish_active_apps_interval_in_seconds * second
  pub delay : c'.start_response_delay_interval ≡ c.start_response_delay_interval_in_seconds * second
  pub endpoint : c'.endpoint_timeout ≡ c.endpoint_timeout_in_seconds * second
  pub service : c'.route_service_timeout ≡ c.route_service_timeout_in_seconds * second
  pub late : c'.start_response_delay_interval ≤ c'.droplet_stale_threshold
  pub stale : c.droplet_stale_threshold_in_seconds * second ≤ c'.droplet_stale_threshold
  pub stale_is :
      (c'.droplet_stale_threshold ≡ c'.start_response_delay_interval)
      ⊎ (c'.droplet_stale_threshold ≡ c.droplet_stale_threshold_in_seconds * second)
  pub stale_fits : c'.droplet_stale_threshold < 2 ^ 63
  pub drain_given :
      c.drain_timeout_in_seconds ≢ 0 → c'.drain_timeout ≡ c.drain_timeout_in_seconds * second
  pub drain_not_given : c.drain_timeout_in_seconds ≡ 0 → c'.drain_timeout ≡ c'.endpoint_timeout

in_seconds-fits : (n : ℕ) → n ≤ longest → in_seconds n < 2 ^ 63
in_seconds-fits n h = let e = in_seconds_lem n h in omega arith

-- The later of two durations.
later_lem :
    (a b : ℕ)
    → a < 2 ^ 63
    → b < 2 ^ 63
    → ((b < a) × ((if greater a b then a else b) ≡ a))
      ⊎ ((a ≤ b) × ((if greater a b then a else b) ≡ b))
later_lem a b h g = elim (lt_cases b a) [
  | inl less ↦ let e = (greater_lem a b h g).0 less in inl (less, ground (arith, e))
  | inr more ↦ let e = (greater_lem a b h g).1 more in inr (more, ground (arith, e))
]

pub process_durations-Timed : (c : Config) → AreModest c → Timed c (process_durations c)
unfolding process_durations
process_durations-Timed c m =
    let s = in_seconds_lem c.droplet_stale_threshold_in_seconds m.stale in
    let stale = in_seconds c.droplet_stale_threshold_in_seconds in
    let delay = in_seconds c.start_response_delay_interval_in_seconds in
    let fits = in_seconds-fits c.droplet_stale_threshold_in_seconds m.stale in
    let fits' = in_seconds-fits c.start_response_delay_interval_in_seconds m.delay in
    let late = later_lem delay stale fits' fits in
    record {
      prune = in_seconds_lem c.prune_stale_droplets_interval_in_seconds m.prune;
      publish = in_seconds_lem c.publish_active_apps_interval_in_seconds m.publish;
      delay = in_seconds_lem c.start_response_delay_interval_in_seconds m.delay;
      endpoint = in_seconds_lem c.endpoint_timeout_in_seconds m.endpoint;
      service = in_seconds_lem c.route_service_timeout_in_seconds m.service;
      late = elim late [ inl (less, e) ↦ omega arith | inr (more, e) ↦ omega arith ];
      stale = elim late [ inl (less, e) ↦ omega arith | inr (more, e) ↦ omega arith ];
      stale_is = elim late [ inl (less, e) ↦ inl e | inr (more, e) ↦ inr (e ∙ s) ];
      stale_fits = elim late [ inl (less, e) ↦ omega arith | inr (more, e) ↦ omega arith ];
      drain_given =
          λ h. let n = in_seconds_lem c.drain_timeout_in_seconds m.drain in ground (arith, h, n);
      drain_not_given = λ h. ground (arith, h);
    }
