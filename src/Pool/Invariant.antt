-- ===== src/Pool/Invariant.antt =====
-- What holds of a pool between two calls.
use gorouter.Base.{ℕ, ◌<◌, ◌≡◌, ◌≢◌, ◌⊎◌, Option, some, Text, get_elem?, map_get}
use gorouter.Endpoint.{Endpoint}
use gorouter.Pool.{Pool, new_pool}

-- The element `r` is in the slice, at the place that it names.
abbrev pub IsLive : Pool → ℕ → Type 0
IsLive p r = get_elem? p.endpoints (p.heap r).index ≡ some r

abbrev pub addr_of : Pool → ℕ → Text
addr_of p r = (p.heap r).endpoint.addr

abbrev pub id_of : Pool → ℕ → Text
id_of p r = (p.heap r).endpoint.private_instance_id

pub record IsValid (p : Pool) : Type 0 where
  -- every place of the slice holds an element that knows the place
  pub placed : (i r : ℕ) → get_elem? p.endpoints i ≡ some r → (p.heap r).index ≡ i
  pub used : (r : ℕ) → IsLive p r → r < p.next_ref
  -- the map finds every element by its address, and nothing but the elements
  pub by_addr : (r : ℕ) → IsLive p r → map_get (addr_of p r) p.index ≡ some r
  pub keyed :
      (k : Text) (r : ℕ)
      → map_get k p.index ≡ some r
      → IsLive p r × ((k ≡ addr_of p r) ⊎ (k ≡ id_of p r))
  -- no instance id is spelled like an address
  pub apart : (r q : ℕ) → IsLive p r → IsLive p q → id_of p r ≢ addr_of p q

-- `x` is in the pool, and was last registered at `t` and failed at `f`.
abbrev pub Contains : Pool → Endpoint → ℕ → Option ℕ → Type 0
Contains p x t f =
    (r : ℕ) × IsLive p r
    × ((p.heap r).endpoint ≡ x)
    × ((p.heap r).updated ≡ t)
    × ((p.heap r).failed_at ≡ f)

pub new_pool-IsValid : (retry : ℕ) (path : Text) → IsValid (new_pool retry path)
unfolding new_pool map_get
new_pool-IsValid retry path = record {
  placed = λ i r e. cc;
  used = λ r e. cc;
  by_addr = λ r e. cc;
  keyed = λ k r e. cc;
  apart = λ r q e. cc;
}
