-- ===== src/Pool/Samples.antt =====
-- Values that the tests share: an endpoint, and the pools without it and with it.
use gorouter.Base.{ℕ, ◌-◌, [], codes, arith}
use gorouter.Endpoint.{Endpoint}
use gorouter.Pool.{Pool, new_pool, put}
use gorouter.Pool.Invariant.{IsValid, IsLive, new_pool-IsValid}
use gorouter.Pool.Put.{IsApart, put-IsValid}
use gorouter.Pool.Choice.{IsIntn}

abbrev pub a : Endpoint
a = record {
  ptr = 1;
  application_id = codes "app";
  addr = codes "10.0.0.1:80";
  tags = [];
  private_instance_id = codes "a";
  stale_threshold = 0;
  route_service_url = [];
}

abbrev pub bare : Pool
bare = new_pool 30 (codes "/")

abbrev pub one : Pool
one = (put bare a 100).0

none-IsLive : (r : ℕ) → ¬ IsLive bare r
unfolding new_pool
none-IsLive r e = cc

a-IsApart : IsApart bare a
a-IsApart = record {
  own = λ e. cc;
  id_free = λ r live. absurd (none-IsLive r live);
  addr_free = λ r live. absurd (none-IsLive r live);
}

pub one-IsValid : IsValid one
one-IsValid = put-IsValid bare a 100 (new_pool-IsValid 30 (codes "/")) a-IsApart

abbrev pub last_place : ℕ → ℕ
last_place n = n - 1

pub last_place-IsIntn : IsIntn last_place
last_place-IsIntn n some_left = omega arith
