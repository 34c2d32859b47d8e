-- ===== src/Pool.antt =====
-- route/pool.go: the endpoints of one route. The slice and the map of the Go code share their
-- elements, so an element is a reference into `heap`. A time is a count of nanoseconds; each method
-- that reads the clock takes what it reads. A pool is used under its lock, so a method is one step.
pub mod Invariant
pub mod Put
pub mod Update
pub mod Remove
pub mod Prune
pub mod Next
pub mod Choice
pub mod Failures
pub mod Samples
mod Tests
use gorouter.Base.{
  ℕ, zero, suc, ◌+◌, ◌-◌, ◌<◌, List, [], ◌∷◌, ◌++◌, map, Option, none, some, Bool, true, false, not,
  ◌&&◌, ◌||◌, Text, text_eq, if◌then◌else◌, ltb, leb, ◌==◌, length, get_elem?, set, take, Map,
  map_get, map_put, map_delete,
}
use gorouter.Endpoint.{Endpoint, canonical_addr, EndpointJson, endpoint_json}

pub record Elem : Type 0 where
  pub endpoint : Endpoint
  pub index : ℕ
  pub updated : ℕ
  pub failed_at : Option ℕ

-- `next_ref` is a reference that is not in use, and `next_idx` is `none` for -1.
pub record Pool : Type 0 where
  pub endpoints : List ℕ
  pub index : Map ℕ
  pub heap : ℕ → Elem
  pub next_ref : ℕ
  pub context_path : Text
  pub retry_after_failure : ℕ
  pub next_idx : Option ℕ

abbrev pub no_elem : Elem
no_elem = record {
  endpoint = record {
    ptr = 0;
    application_id = [];
    addr = [];
    tags = [];
    private_instance_id = [];
    stale_threshold = 0;
    route_service_url = [];
  };
  index = 0;
  updated = 0;
  failed_at = none;
}

unfoldable pub new_pool : ℕ → Text → Pool
new_pool retry_after_failure context_path = record {
  endpoints = [];
  index = [];
  heap = λ r. no_elem;
  next_ref = 0;
  context_path = context_path;
  retry_after_failure = retry_after_failure;
  next_idx = none;
}

-- `*r = e`
unfoldable pub write : (ℕ → Elem) → ℕ → Elem → ℕ → Elem
write heap r e q = if q == r then e else heap q

-- A new element at the end of the slice, under its two keys.
unfoldable pub put_new : Pool → Endpoint → ℕ → Pool
put_new p endpoint now =
    let r = p.next_ref in
    let e : Elem = record {
      endpoint = endpoint;
      index = length p.endpoints;
      updated = now;
      failed_at = none;
    } in
    record p {
      heap = write p.heap r e;
      next_ref = r + 1;
      endpoints = p.endpoints ++ r ∷ [];
      index = map_put endpoint.private_instance_id r (map_put (canonical_addr endpoint) r p.index);
    }

unfoldable pub put_again : Pool → ℕ → Endpoint → ℕ → Pool
put_again p r endpoint now =
    let old = (p.heap r).endpoint in
    record p {
      heap = write p.heap r (record (p.heap r) { endpoint = endpoint; updated = now });
      index =
          if text_eq old.private_instance_id endpoint.private_instance_id
          then p.index
          else map_put endpoint.private_instance_id r (map_delete old.private_instance_id p.index);
    }

-- Put; the Boolean says whether the address is new.
unfoldable pub put : Pool → Endpoint → ℕ → Pool × Bool
put p endpoint now = elim (map_get (canonical_addr endpoint) p.index) [
  | none ↦ (put_new p endpoint now, true)
  | some r ↦
      if (p.heap r).endpoint.ptr == endpoint.ptr
      then (p, false)
      else (put_again p r endpoint now, false)
]

unfoldable pub route_service_url : Pool → Text
route_service_url p = elim p.endpoints [ [] ↦ [] | r ∷ rs ↦ (p.heap r).endpoint.route_service_url ]

-- The re-ordering delete: the last element takes the place of the one that goes.
unfoldable pub move_last : List ℕ → ℕ → ℕ → List ℕ
move_last es i moved = take (length es - 1) (set es i moved)

abbrev pub set_index : (ℕ → Elem) → ℕ → ℕ → ℕ → Elem
set_index heap r i = write heap r (record (heap r) { index = i })

-- removeEndpoint; `none` is an index out of range.
unfoldable pub remove_endpoint : Pool → ℕ → Option Pool
remove_endpoint p r =
    let e = p.heap r in
    let last = length p.endpoints in
    elim (get_elem? p.endpoints (last - 1)) [
      | none ↦ none
      | some moved ↦
          if ltb e.index last
          then some (record p {
            endpoints = move_last p.endpoints e.index moved;
            heap = if ltb e.index (last - 1) then set_index p.heap moved e.index else p.heap;
            index =
                map_delete e.endpoint.private_instance_id
                  (map_delete (canonical_addr e.endpoint) p.index);
          })
          else none
    ]

-- Remove; the Boolean says whether the address was known.
unfoldable pub remove : Pool → Endpoint → Option (Pool × Bool)
remove p endpoint = elim p.endpoints [
  | [] ↦ some (p, false)
  | _ ∷ _ ↦ elim (map_get (canonical_addr endpoint) p.index) [
    | none ↦ some (p, false)
    | some r ↦ elim (remove_endpoint p r) [ none ↦ none | some p' ↦ some (p', true) ]
  ]
]

-- `e.updated.Before(staleTime)` for the threshold that applies to the endpoint.
unfoldable pub threshold : Endpoint → ℕ → ℕ
threshold e default =
    if ltb 0 e.stale_threshold && ltb e.stale_threshold default then e.stale_threshold else default

unfoldable pub is_stale : Elem → ℕ → ℕ → Bool
is_stale e default now = ltb e.updated (now - threshold e.endpoint default)

-- The loop of PruneEndpoints; `last - i` rounds are left.
unfoldable pub prune_loop : ℕ → ℕ → Pool → ℕ → ℕ → Option Pool
prune_loop zero i p default now = some p
prune_loop (suc n) i p default now = elim (get_elem? p.endpoints i) [
  | none ↦ none
  | some r ↦ elim (is_stale (p.heap r) default now) [
    | true ↦ elim (remove_endpoint p r) [ none ↦ none | some p' ↦ prune_loop n i p' default now ]
    | false ↦ prune_loop n (suc i) p default now
  ]
]

unfoldable pub prune_endpoints : Pool → ℕ → ℕ → Option Pool
prune_endpoints p default now = prune_loop (length p.endpoints) 0 p default now

unfoldable pub is_empty : Pool → Bool
is_empty p = length p.endpoints == 0

abbrev pub mem : List ℕ → ℕ → Bool
mem [] q = false
mem (r ∷ rs) q = q == r || mem rs q

unfoldable pub mark_updated : Pool → ℕ → Pool
mark_updated p t = record p {
  heap = λ q. if mem p.endpoints q then record (p.heap q) { updated = t } else p.heap q;
}

unfoldable pub endpoint_failed : Pool → Endpoint → ℕ → Pool
endpoint_failed p endpoint now = elim (map_get (canonical_addr endpoint) p.index) [
  | none ↦ p
  | some r ↦ record p { heap = write p.heap r (record (p.heap r) { failed_at = some now }) }
]

unfoldable pub find_by_id : Pool → Text → Option Endpoint
find_by_id p id = elim (map_get id p.index) [ none ↦ none | some r ↦ some (p.heap r).endpoint ]

-- The endpoints in the order in which Each and MarshalJSON meet them.
unfoldable pub each : Pool → List Endpoint
each p = map (λ r. (p.heap r).endpoint) p.endpoints

unfoldable pub pool_json : Pool → List EndpointJson
pool_json p = map endpoint_json (each p)

-- The value from which the rounds of `next` start; `random` is `random.Intn`.
unfoldable pub start_idx : Pool → (ℕ → ℕ) → ℕ
start_idx p random =
    let last = length p.endpoints in
    elim p.next_idx [ none ↦ random last | some i ↦ if leb last i then 0 else i ]

abbrev pub wrap : ℕ → ℕ → ℕ
wrap cur last = if cur + 1 == last then 0 else cur + 1

-- The failure of an element, after the test whether its time is over.
unfoldable pub still_failed : Option ℕ → ℕ → ℕ → Option ℕ
still_failed none retry now = none
still_failed (some t) retry now = if ltb retry (now - t) then none else some t

unfoldable pub reset_failed : Pool → Pool
reset_failed p = record p {
  heap = λ q. if mem p.endpoints q then record (p.heap q) { failed_at = none } else p.heap q;
}

abbrev pub set_failed : Pool → ℕ → Option ℕ → Pool
set_failed p r f = record p { heap = write p.heap r (record (p.heap r) { failed_at = f }) }

-- The loop of `next` on fuel, with the one time that all its rounds read; `none` is an index out of range, or that the fuel ran out.
unfoldable pub next_loop : ℕ → ℕ → ℕ → ℕ → Pool → Option (Pool × Endpoint)
next_loop zero start cur now p = none
next_loop (suc fuel) start cur now p = elim (get_elem? p.endpoints cur) [
  | none ↦ none
  | some r ↦
      let cur' = wrap cur (length p.endpoints) in
      let f = still_failed (p.heap r).failed_at p.retry_after_failure now in
      let p' = set_failed p r f in
      elim f [
        | none ↦ some (record p' { next_idx = some cur' }, (p.heap r).endpoint)
        | some t ↦ next_loop fuel start cur' now (if cur' == start then reset_failed p' else p')
      ]
]

-- `next`; the endpoint is `none` for nil. The fuel is one round more than the pool has elements.
unfoldable pub next : Pool → (ℕ → ℕ) → ℕ → Option (Pool × Option Endpoint)
next p random now =
    if length p.endpoints == 0
    then some (p, none)
    else let start = start_idx p random in
      elim (next_loop (length p.endpoints + 1) start start now
        (record p { next_idx = some start })) [ none ↦ none | some (p', e) ↦ some (p', some e) ]

-- endpointIterator, without its pool, which the operations take and give back.
pub record Iterator : Type 0 where
  pub initial_endpoint : Text
  pub last_endpoint : Option Endpoint

unfoldable pub new_iterator : Text → Iterator
new_iterator initial = record { initial_endpoint = initial; last_endpoint = none }

unfoldable pub initial_choice : Pool → Text → Option Endpoint
initial_choice p [] = none
initial_choice p (c ∷ id) = find_by_id p (c ∷ id)

unfoldable pub iterator_next :
    Pool → Iterator → (ℕ → ℕ) → ℕ → Option (Pool × Iterator × Option Endpoint)
iterator_next p it random now = elim (initial_choice p it.initial_endpoint) [
  | some e ↦ some (p, record { initial_endpoint = []; last_endpoint = some e }, some e)
  | none ↦ elim (next p random now) [
    | none ↦ none
    | some (p', e) ↦ some (p', record { initial_endpoint = []; last_endpoint = e }, e)
  ]
]

unfoldable pub iterator_endpoint_failed : Pool → Iterator → ℕ → Pool
iterator_endpoint_failed p it now = elim it.last_endpoint [
  | none ↦ p
  | some e ↦ endpoint_failed p e now
]
