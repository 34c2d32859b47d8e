-- ===== src/Varz/Counting.antt =====
-- varz/varz.go: what the metrics say of the calls that a RealVarz got.
use gorouter.Base.{
  ap, ◌∙◌, ℕ, ◌+◌, ◌-◌, ◌*◌, ◌%◌, ◌^◌, ◌≡◌, refl, List, [], ◌∷◌, Option, none, some, true, Text,
  codes, arith, Map, map_get, if◌then◌else◌,
}
use gorouter.Endpoint.{Endpoint, second, unix}
use gorouter.Stats.ActiveApps.{new_active_apps}
use gorouter.Stats.TopApps.{new_top_apps, mark_slots, trim_slots}
use gorouter.Stats.ActiveApps.Times
use gorouter.Stats.ActiveApps.Times.{newest}
use gorouter.Stats.ActiveApps.Trims
use gorouter.Stats.TopApps.Rounds.{trim-TrimsTo}
use gorouter.Stats.TopApps.Counts
use gorouter.Stats.TopApps.Refinement.{top_since-Answers}
use gorouter.Varz.{
  HttpMetric, capture_request, capture_response, http_metric, tagged_capture_request,
  tagged_capture_response, RealVarz, new_varz, top_entries, update_top, capture_bad_request,
  capture_bad_gateway, capture_routing_request, capture_routing_response,
}
use gorouter.Varz.Calls.{
  Call, bad_request, bad_gateway, routing_request, routing_response, report, active_tick, top_tick,
  take_call, run_calls, count, is_bad_request, is_bad_gateway, is_tagged, is_of, last_start,
  slots_made, Tallies,
}
use gorouter.Varz.Tallies.{
  capture_response-Tallies, capture_request-Tallies, quiet-Tallies, new-Tallies,
}
use gorouter.Varz.Tags.{component_lem, untagged_lem}
use gorouter.Varz.Apps.{capture_app_stats-total}

-- What a RealVarz has counted of its calls, and that its applications are in order and as the
-- responses make them.
pub record Counted (cs : List Call) (x : RealVarz) : Type 0 where
  pub all : Tallies (λ c. true) cs x.all
  pub component : (t : Text) → Tallies (is_tagged t) cs (http_metric x.component t)
  pub bad_requests : x.bad_requests ≡ count is_bad_request cs % 2 ^ 64
  pub bad_gateways : x.bad_gateways ≡ count is_bad_gateway cs % 2 ^ 64
  pub active_apps : Times.IsSound x.active_apps
  pub top_apps : Counts.IsSound x.top_apps
  pub starts : (a : Text) → Times.last_mark x.active_apps a ≡ last_start a cs
  pub slots : (a : Text) → Counts.slots_of x.top_apps a ≡ slots_made a cs

mod_step : (a n : ℕ) → a ≡ n % 2 ^ 64 → (a + 1) % 2 ^ 64 ≡ (n + 1) % 2 ^ 64
mod_step a n h = omega arith

module _ (cs : List Call) (x : RealVarz) (k : Counted cs x) where
  request-Counted : (b : Endpoint) → Counted (routing_request b ∷ cs) (capture_routing_request b x)
  unfolding capture_routing_request count tagged_capture_request last_start slots_made
  request-Counted b = record {
    all = capture_request-Tallies (λ y. true) cs x.all b refl k.all;
    component =
        component_lem cs (routing_request b) capture_request (map_get (codes "component") b.tags)
          x.component (λ u. refl) (λ picks m p y. capture_request-Tallies picks cs m b p y)
          k.component;
    bad_requests = k.bad_requests;
    bad_gateways = k.bad_gateways;
    active_apps = k.active_apps;
    top_apps = k.top_apps;
    starts = λ a. k.starts a;
    slots = k.slots;
  }

  response-Counted :
      (b : Endpoint) (o : Option ℕ) (t d : ℕ)
      → (x' : RealVarz) × (capture_routing_response b o t d x ≡ some x')
        × Counted (routing_response b o t d ∷ cs) x'
  unfolding capture_routing_response count tagged_capture_response last_start slots_made
  response-Counted b o t d =
      let tagged : Map HttpMetric = elim (map_get (codes "component") b.tags) [
        | none ↦ x.component
        | some u ↦ tagged_capture_response x.component u o d
      ] in
      let (a, p, marked, sa, sp, last, slots) =
        capture_app_stats-total b o t d (record x { component = tagged }) k.active_apps
          k.top_apps in
      (
        record x {
          component = tagged;
          active_apps = a;
          top_apps = p;
          all = capture_response x.all o d;
        },
        ground (arith, marked),
        record {
          all = capture_response-Tallies (λ y. true) cs x.all b o t d refl k.all;
          component =
              component_lem cs (routing_response b o t d) (λ m. capture_response m o d)
                (map_get (codes "component") b.tags) x.component (λ u. refl)
                (λ picks m p y. capture_response-Tallies picks cs m b o t d p y) k.component;
          bad_requests = k.bad_requests;
          bad_gateways = k.bad_gateways;
          active_apps = sa;
          top_apps = sp;
          starts = λ u.
              last u
              ∙ ap (λ v. if is_of u (routing_response b o t d) then some (newest v (unix t)) else v)
                  (k.starts u);
          slots = λ u.
              slots u
              ∙ ap (λ v. if is_of u (routing_response b o t d) then mark_slots v (unix t) else v)
                  (k.slots u);
        },
      )

  report-Counted :
      (now : ℕ) → (x' : RealVarz) × (update_top now x ≡ some x') × Counted (report now ∷ cs) x'
  unfolding update_top count last_start slots_made
  report-Counted now =
      let (apps, y, answered, sound, slots, top) =
        top_since-Answers x.top_apps (unix (now - 60 * second)) 10 k.top_apps in
      (
        record x { top_apps = apps; top = top_entries y },
        ground (arith, answered),
        record {
          all = quiet-Tallies cs x.all (report now) refl refl k.all;
          component = untagged_lem cs (report now) x.component (λ u. refl) k.component;
          bad_requests = k.bad_requests;
          bad_gateways = k.bad_gateways;
          active_apps = k.active_apps;
          top_apps = sound;
          starts = λ a. k.starts a;
          slots =
              λ a. slots a ∙ ap (λ v. (trim_slots v (unix (now - 60 * second) - 1)).0) (k.slots a);
        },
      )

  active_tick-Counted :
      (t : ℕ)
      → (x' : RealVarz) × (take_call (active_tick t) x ≡ some x') × Counted (active_tick t ∷ cs) x'
  unfolding take_call count last_start slots_made
  active_tick-Counted t =
      let (apps, trimmed, sound, last) = Trims.trim-Trims x.active_apps t k.active_apps in
      (
        record x { active_apps = apps },
        ground (arith, trimmed),
        record {
          all = quiet-Tallies cs x.all (active_tick t) refl refl k.all;
          component = untagged_lem cs (active_tick t) x.component (λ u. refl) k.component;
          bad_requests = k.bad_requests;
          bad_gateways = k.bad_gateways;
          active_apps = sound;
          top_apps = k.top_apps;
          starts = λ a. last a ∙ ap (Trims.since t) (k.starts a);
          slots = k.slots;
        },
      )

  top_tick-Counted :
      (t : ℕ)
      → (x' : RealVarz) × (take_call (top_tick t) x ≡ some x') × Counted (top_tick t ∷ cs) x'
  unfolding take_call count last_start slots_made
  top_tick-Counted t =
      let (apps, trimmed, sound, left) = trim-TrimsTo x.top_apps t k.top_apps in
      (
        record x { top_apps = apps },
        ground (arith, trimmed),
        record {
          all = quiet-Tallies cs x.all (top_tick t) refl refl k.all;
          component = untagged_lem cs (top_tick t) x.component (λ u. refl) k.component;
          bad_requests = k.bad_requests;
          bad_gateways = k.bad_gateways;
          active_apps = k.active_apps;
          top_apps = sound;
          starts = k.starts;
          slots = λ a. left a ∙ ap (λ v. (trim_slots v t).0) (k.slots a);
        },
      )

-- Each call is taken and counted.
take_call-Counted :
    (cs : List Call) (c : Call) (x : RealVarz)
    → Counted cs x
    → (x' : RealVarz) × (take_call c x ≡ some x') × Counted (c ∷ cs) x'
unfolding take_call capture_bad_request capture_bad_gateway count last_start slots_made
take_call-Counted cs bad_request x k = (
  capture_bad_request x,
  refl,
  record {
    all = quiet-Tallies cs x.all bad_request refl refl k.all;
    component = untagged_lem cs bad_request x.component (λ u. refl) k.component;
    bad_requests = mod_step x.bad_requests (count is_bad_request cs) k.bad_requests;
    bad_gateways = k.bad_gateways;
    active_apps = k.active_apps;
    top_apps = k.top_apps;
    starts = λ a. k.starts a;
    slots = k.slots;
  },
)
take_call-Counted cs bad_gateway x k = (
  capture_bad_gateway x,
  refl,
  record {
    all = quiet-Tallies cs x.all bad_gateway refl refl k.all;
    component = untagged_lem cs bad_gateway x.component (λ u. refl) k.component;
    bad_requests = k.bad_requests;
    bad_gateways = mod_step x.bad_gateways (count is_bad_gateway cs) k.bad_gateways;
    active_apps = k.active_apps;
    top_apps = k.top_apps;
    starts = λ a. k.starts a;
    slots = k.slots;
  },
)
take_call-Counted cs (routing_request b) x k =
    (capture_routing_request b x, refl, request-Counted cs x k b)
take_call-Counted cs (routing_response b o t d) x k = response-Counted cs x k b o t d
take_call-Counted cs (report now) x k = report-Counted cs x k now
take_call-Counted cs (active_tick t) x k = active_tick-Counted cs x k t
take_call-Counted cs (top_tick t) x k = top_tick-Counted cs x k t

-- Whatever calls a new RealVarz gets, the Trims of the two tickers included, none panics. The
-- metric of all requests has counted each request and, in the class that its status is in, or in
-- the rest if there is no status from 200 to 599, each response, every one by one, and its
-- latencies are the durations of the responses in their order; the metric of a tag has counted so
-- the calls with an endpoint of that tag, and no others. The bad requests and gateways are
-- counted, up to the overflow of 64 bits. The tables of active and top applications are in order:
-- the time of an application is the latest second in which one of its responses started, unless a
-- tick has trimmed it, and its time slots are those that its responses make, of which a tick
-- leaves those after its second and a report those from a minute before on.
pub run_calls-Counted : (cs : List Call) → (x : RealVarz) × (run_calls cs ≡ some x) × Counted cs x
unfolding run_calls count new_varz http_metric map_get last_start slots_made new_active_apps
    new_top_apps
run_calls-Counted [] = (
  new_varz,
  refl,
  record {
    all = new-Tallies (λ c. true);
    component = λ t. new-Tallies (is_tagged t);
    bad_requests = refl;
    bad_gateways = refl;
    active_apps = Times.new_active_apps-IsSound;
    top_apps = Counts.new_top_apps-IsSound;
    starts = λ a. refl;
    slots = λ a. refl;
  },
)
run_calls-Counted (c ∷ cs) =
    let (x, ran, k) = run_calls-Counted cs in
    let (x', taken, k') = take_call-Counted cs c x k in (x', ground (arith, ran, taken), k')
