-- ===== src/Pool/Tests.antt =====
-- A pool of two endpoints, on which the operations are run and the theorems applied.
use gorouter.Base.{
  ℕ, ◌+◌, ◌-◌, ◌≤◌, ◌≡◌, ◌≢◌, ◌⊎◌, ◌↔◌, inl, inr, refl, [], ◌∷◌, Option, none, some, Text, codes,
  arith, map_get, map_put, map_delete, Bool, false,
}
use mathlib.Core.Option
use gorouter.Endpoint.{Endpoint}
use gorouter.Pool.{
  Pool, new_pool, put, put_new, put_again, write, remove, remove_endpoint, move_last,
  prune_endpoints, prune_loop, is_stale, threshold, next, next_loop, start_idx, still_failed,
  endpoint_failed, Iterator, iterator_next, each,
}
use gorouter.Pool.Invariant.{IsValid, IsLive, Contains, addr_of, new_pool-IsValid}
use gorouter.Pool.Put.{IsApart, put-IsValid}
use gorouter.Pool.Update.{Puts, IsIdentified, put_lem}
use gorouter.Pool.Remove.{Removes, remove-Removes}
use gorouter.Pool.Prune.{prune_endpoints-Contains}
use gorouter.Pool.Next.{Served, IsAvailable}
use gorouter.Pool.Failures.{failed_not_served}
use gorouter.Pool.Choice.{Chooses, IsIntn, next-Served, iterator_next_lem}

abbrev endpoint : ℕ → Text → Text → ℕ → Endpoint
endpoint ptr addr id stale = record {
  ptr = ptr;
  application_id = codes "app";
  addr = addr;
  tags = [];
  private_instance_id = id;
  stale_threshold = stale;
  route_service_url = [];
}

abbrev a : Endpoint
a = endpoint 1 (codes "10.0.0.1:80") (codes "a") 5

abbrev b : Endpoint
b = endpoint 2 (codes "10.0.0.2:80") (codes "b") 0

-- The endpoint `a`, registered anew.
abbrev a' : Endpoint
a' = endpoint 3 (codes "10.0.0.1:80") (codes "c") 5

abbrev empty : Pool
empty = new_pool 30 (codes "/")

abbrev one : Pool
one = (put empty a 100).0

abbrev two : Pool
two = (put one b 101).0

none-IsLive : (r : ℕ) → ¬ IsLive empty r
unfolding new_pool
none-IsLive r e = cc

live_one : (r : ℕ) → IsLive one r → r ≡ 0
unfolding new_pool put put_new write map_get
live_one r e = ground arith

live_two : (r : ℕ) → IsLive two r → (r ≡ 0) ⊎ (r ≡ 1)
unfolding new_pool put put_new write map_get map_put
live_two r e = ground arith

a-IsApart : IsApart empty a
a-IsApart = record {
  own = λ e. cc;
  id_free = λ r live. absurd (none-IsLive r live);
  addr_free = λ r live. absurd (none-IsLive r live);
}

one-IsValid : IsValid one
one-IsValid = put-IsValid empty a 100 (new_pool-IsValid 30 (codes "/")) a-IsApart

b-IsApart : IsApart one b
unfolding new_pool put put_new write map_get
b-IsApart = record {
  own = λ e. cc;
  id_free = λ r live e. let is_0 = live_one r live in ground arith;
  addr_free = λ r live e. let is_0 = live_one r live in ground arith;
}

two-IsValid : IsValid two
two-IsValid = put-IsValid one b 101 one-IsValid b-IsApart

a'-IsApart : IsApart two a'
unfolding new_pool put put_new write map_get map_put
a'-IsApart = record {
  own = λ e. cc;
  id_free =
      λ r live e. elim (live_two r live) [ inl is_0 ↦ ground arith | inr is_1 ↦ ground arith ];
  addr_free =
      λ r live e. elim (live_two r live) [ inl is_0 ↦ ground arith | inr is_1 ↦ ground arith ];
}

a'-IsIdentified : IsIdentified two a'
unfolding new_pool put put_new write map_get map_put
a'-IsIdentified r live e = elim (live_two r live) [
  | inl is_0 ↦ ground arith
  | inr is_1 ↦ ground arith
]

-- `random.Intn`, always with the last place.
abbrev last_place : ℕ → ℕ
last_place n = n - 1

last_place-IsIntn : IsIntn last_place
last_place-IsIntn n some_left = omega arith

-- A new object for an address is no new endpoint, and takes the place of the old one.
put_twice : ((put two a' 110).1 ≡ false) × (each (put two a' 110).0 ≡ a' ∷ b ∷ [])
unfolding new_pool put put_new put_again write map_get map_put map_delete each
put_twice = (refl, refl)

-- The last element moves to the place of the one that is removed.
remove_first : Option.map (λ r. each r.0) (remove two a) ≡ some (b ∷ [])
unfolding new_pool put put_new write map_get map_put map_delete remove remove_endpoint move_last
    each
remove_first = refl

-- At 110 the endpoint with a threshold of 5 is stale, the other one is not.
prune_one : Option.map each (prune_endpoints two 20 110) ≡ some (b ∷ [])
unfolding new_pool put put_new write map_get map_put map_delete remove_endpoint move_last each
    prune_endpoints prune_loop is_stale threshold
prune_one = refl

-- Round robin from the last place.
round_robin :
    (q : Pool) × (next two last_place 120 ≡ some (q, some b))
    × (Option.map (λ r. r.1) (next q last_place 121) ≡ some (some a))
unfolding new_pool put put_new write next next_loop start_idx still_failed map_get map_put
round_robin = (_, refl, refl)

put_lem_example : IsValid (put two a' 110).0 × Puts two a' 110 (put two a' 110).0 (put two a' 110).1
put_lem_example = put_lem two a' 110 two-IsValid a'-IsApart a'-IsIdentified

remove-Removes_example :
    (q : Pool) × ((known : Bool) × (remove two a' ≡ some (q, known)) × Removes two a' q known)
remove-Removes_example = remove-Removes two a' two-IsValid a'-IsApart.addr_free

prune_endpoints-Contains_example :
    (q : Pool) × (prune_endpoints two 20 110 ≡ some q)
    × IsValid q
    × ((x : Endpoint) (t : ℕ) (f : Option ℕ)
        → Contains q x t f ↔ (Contains two x t f × (110 ≤ t + threshold x 20)))
prune_endpoints-Contains_example = prune_endpoints-Contains two 20 110 two-IsValid

next-Served_example :
    ((two.endpoints ≡ []) × (next two last_place 120 ≡ some (two, none)))
    ⊎ ((q : Pool) × ((e : Endpoint) × (next two last_place 120 ≡ some (q, some e))
          × Served two 120 q e))
next-Served_example = next-Served two last_place 120 two-IsValid last_place-IsIntn

abbrev sticky : Iterator
sticky = record { initial_endpoint = codes "b"; last_endpoint = none }

iterator_next_lem_example :
    (q : Pool) × ((it : Iterator) × ((o : Option Endpoint) × (iterator_next two sticky last_place
            120
          ≡ some (q, it, o))
        × Chooses last_place 120 two sticky q it o))
iterator_next_lem_example =
    iterator_next_lem two last_place 120 two-IsValid last_place-IsIntn sticky

first-IsLive : IsLive two 0
unfolding new_pool put put_new write map_get map_put
first-IsLive = refl

second-IsLive : IsLive two 1
unfolding new_pool put put_new write map_get map_put
second-IsLive = refl

second-IsAvailable : IsAvailable (endpoint_failed two (two.heap 0).endpoint 120) 125 1
unfolding new_pool put put_new write map_get map_put endpoint_failed still_failed
second-IsAvailable = refl

soon : 125 ≤ 120 + two.retry_after_failure
unfolding new_pool put put_new map_get map_put
soon = omega arith

failed_not_served_example :
    (q : Pool) × ((e : Endpoint) × (next
          (endpoint_failed two (two.heap 0).endpoint 120)
          last_place
          125
        ≡ some (q, some e))
      × (e.addr ≢ addr_of two 0))
failed_not_served_example =
    failed_not_served two 0 1 120 125 last_place two-IsValid last_place-IsIntn first-IsLive soon
      second-IsLive second-IsAvailable
