-- ===== src/Varz/Calls.antt =====
-- varz/varz.go: the calls that a RealVarz gets, and how many of them a metric has counted.
use gorouter.Base.{
  ℕ, zero, suc, ◌+◌, ◌-◌, ◌*◌, ◌++◌, ◌≡◌, List, [], ◌∷◌, Option, none, some, Bool, true, false, not,
  ◌&&◌, Text, codes, text_eq, map_get, if◌then◌else◌, ltb, leb,
}
use gorouter.Endpoint.{Endpoint, second, unix}
use gorouter.Stats.ActiveApps
use gorouter.Stats.ActiveApps.Times.{newest}
use gorouter.Stats.ActiveApps.Trims.{since}
use gorouter.Stats.TopApps
use gorouter.Stats.TopApps.{Slot, mark_slots, trim_slots}
use gorouter.Varz.{
  HttpMetric, RealVarz, new_varz, update_top, capture_bad_request, capture_bad_gateway,
  capture_routing_request, capture_routing_response,
}

-- The calls of a RealVarz, each under its lock: a response with its endpoint, its status if there is
-- one, its start and its duration. A report is what MarshalJSON changes, and the ticks are the
-- calls of Trim that the tickers of the two tables make, with the second up to which they trim.
pub data Call : Type 0 where
  bad_request : Call
  bad_gateway : Call
  routing_request : Endpoint → Call
  routing_response : Endpoint → Option ℕ → ℕ → ℕ → Call
  report : ℕ → Call
  active_tick : ℕ → Call
  top_tick : ℕ → Call

unfoldable pub take_call : Call → RealVarz → Option RealVarz
take_call bad_request x = some (capture_bad_request x)
take_call bad_gateway x = some (capture_bad_gateway x)
take_call (routing_request b) x = some (capture_routing_request b x)
take_call (routing_response b response t d) x = capture_routing_response b response t d x
take_call (report now) x = update_top now x
take_call (active_tick t) x = elim (ActiveApps.trim x.active_apps t) [
  | none ↦ none
  | some apps ↦ some (record x { active_apps = apps })
]
take_call (top_tick t) x = elim (TopApps.trim x.top_apps t) [
  | none ↦ none
  | some tops ↦ some (record x { top_apps = tops })
]

-- The calls that a new RealVarz got, the last one first.
unfoldable pub run_calls : List Call → Option RealVarz
run_calls [] = some new_varz
run_calls (c ∷ cs) = elim (run_calls cs) [ none ↦ none | some x ↦ take_call c x ]

unfoldable pub count : (Call → Bool) → List Call → ℕ
count p [] = 0
count p (c ∷ cs) = if p c then count p cs + 1 else count p cs

abbrev pub is_bad_request : Call → Bool
is_bad_request bad_request = true
is_bad_request _ = false

abbrev pub is_bad_gateway : Call → Bool
is_bad_gateway bad_gateway = true
is_bad_gateway _ = false

abbrev pub is_request : Call → Bool
is_request (routing_request b) = true
is_request _ = false

abbrev pub is_response : Call → Bool
is_response (routing_response b response t d) = true
is_response _ = false

abbrev pub duration_of : Call → List ℕ
duration_of (routing_response b response t d) = d ∷ []
duration_of _ = []

abbrev pub status_within : ℕ → ℕ → Option ℕ → Bool
status_within low high none = false
status_within low high (some s) = leb low s && ltb s high

-- A response with a status from `low` on and below `high`.
abbrev pub is_within : ℕ → ℕ → Call → Bool
is_within low high (routing_response b response t d) = status_within low high response
is_within low high _ = false

-- A response without a status from 200 to 599.
abbrev pub is_other : Call → Bool
is_other (routing_response b response t d) = not (status_within 200 600 response)
is_other _ = false

-- The call is about an endpoint whose tag `component` is the text.
abbrev pub tags_are : Text → Option Text → Bool
tags_are t none = false
tags_are t (some u) = text_eq u t

abbrev pub is_tagged : Text → Call → Bool
is_tagged t (routing_request b) = tags_are t (map_get (codes "component") b.tags)
is_tagged t (routing_response b response s d) = tags_are t (map_get (codes "component") b.tags)
is_tagged t _ = false

-- What a counter got that was increased by one so many times.
unfoldable pub ones : ℕ → List ℕ
ones zero = []
ones (suc n) = 1 ∷ ones n

-- The durations of the responses that the test picks, the last one first.
unfoldable pub durations : (Call → Bool) → List Call → List ℕ
durations p [] = []
durations p (c ∷ cs) = if p c then duration_of c ++ durations p cs else durations p cs

-- A metric has counted the calls that the test picks, each by one, and has their durations.
pub record Tallies (picks : Call → Bool) (cs : List Call) (m : HttpMetric) : Type 0 where
  pub requests : m.requests ≡ ones (count (λ c. picks c && is_request c) cs)
  pub rate : m.rate ≡ ones (count (λ c. picks c && is_request c) cs)
  pub ok : m.responses_2xx ≡ ones (count (λ c. picks c && is_within 200 300 c) cs)
  pub moved : m.responses_3xx ≡ ones (count (λ c. picks c && is_within 300 400 c) cs)
  pub wrong : m.responses_4xx ≡ ones (count (λ c. picks c && is_within 400 500 c) cs)
  pub failed : m.responses_5xx ≡ ones (count (λ c. picks c && is_within 500 600 c) cs)
  pub other : m.responses_xxx ≡ ones (count (λ c. picks c && is_other c) cs)
  pub latency : m.latency ≡ durations picks cs

-- The call is a response of the application.
abbrev pub is_of : Text → Call → Bool
is_of a (routing_response b response t d) =
    not (text_eq b.application_id []) && text_eq b.application_id a
is_of a _ = false

-- The latest start of an application's responses after a call.
abbrev pub start_after : Text → Call → Option ℕ → Option ℕ
start_after a (routing_response b response t d) last =
    if is_of a (routing_response b response t d) then some (newest last (unix t)) else last
start_after a (active_tick t) last = since t last
start_after a _ last = last

-- The latest second in which a response of the application started, while no tick of ActiveApps has
-- forgotten it.
unfoldable pub last_start : Text → List Call → Option ℕ
last_start a [] = none
last_start a (c ∷ cs) = start_after a c (last_start a cs)

-- The time slots of an application after a call.
abbrev pub slots_after : Text → Call → List Slot → List Slot
slots_after a (report now) ss = (trim_slots ss (unix (now - 60 * second) - 1)).0
slots_after a (top_tick t) ss = (trim_slots ss t).0
slots_after a (routing_response b response t d) ss =
    if is_of a (routing_response b response t d) then mark_slots ss (unix t) else ss
slots_after a _ ss = ss

-- The time slots that the responses of the application make, of which a report and a tick of
-- TopApps leave the later ones.
unfoldable pub slots_made : Text → List Call → List Slot
slots_made a [] = []
slots_made a (c ∷ cs) = slots_after a c (slots_made a cs)
