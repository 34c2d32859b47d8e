-- ===== src/Registry/Routes.antt =====
-- The registry as a set of routes: pairs of a path and an endpoint.
use gorouter.Base.{
  [], Bool-cases, ◌==◌, ℕ, ◌/◌, ◌<◌, ◌≡◌, ◌≢◌, ◌⊎◌, inl, inr, refl, sym, Option, none, some, Text,
  List, arith, if◌then◌else◌, Option-cases,
}
use gorouter.Uri.{Uri, route_key}
use gorouter.Endpoint.{Endpoint}
use gorouter.Pool.{new_pool}
use gorouter.Pool.Invariant.{IsValid, IsLive, Contains, new_pool-IsValid}
use gorouter.Pool.Put.{IsApart}
use gorouter.Pool.Update.{IsIdentified}
use gorouter.Trie.{new_trie, find, find_path, insert, path_of}
use gorouter.Trie.Segments.{path_of-ne-nil}
use gorouter.Trie.Shape.{IsWellFormed, insert_path-IsWellFormed}
use gorouter.Trie.Find.{path_eq, path_eq_iff, find_path-insert_path, find_path-new_trie}
use gorouter.Registry.{Registry, new_registry, pool_for, add_pool, parse_context_path, write_pool}

-- The path of a URI's key.
abbrev pub key_path : Uri → List Text
key_path uri = path_of (route_key uri)

abbrev pub pool_at : Registry → List Text → Option ℕ
pool_at r ks = find_path r.by_uri ks

pub record IsSound (r : Registry) : Type 0 where
  pub shape : IsWellFormed r.by_uri
  pub used : (ks : List Text) (v : ℕ) → pool_at r ks ≡ some v → v < r.next_pool
  -- a pool belongs to one path
  pub owned : (ks js : List Text) (v : ℕ) → pool_at r ks ≡ some v → pool_at r js ≡ some v → ks ≡ js
  pub valid : (v : ℕ) → IsValid (r.pools v)
  -- the root of the trie has no pool
  pub bare : (v : ℕ) → pool_at r [] ≢ some v

-- The endpoint is registered for the path.
abbrev pub HasRoute : Registry → List Text → Endpoint → Type 0
HasRoute r ks x =
    (v : ℕ) × (t : ℕ) × (f : Option ℕ) × (pool_at r ks ≡ some v) × Contains (r.pools v) x t f

-- What Put asks of an endpoint and the pool of its path, if there is one.
pub record IsFit (r : Registry) (uri : Uri) (e : Endpoint) : Type 0 where
  pub own : e.private_instance_id ≢ e.addr
  pub apart : (v : ℕ) → pool_at r (key_path uri) ≡ some v → IsApart (r.pools v) e
  pub identified : (v : ℕ) → pool_at r (key_path uri) ≡ some v → IsIdentified (r.pools v) e

pub new_registry-IsSound : (threshold : ℕ) → IsSound (new_registry threshold)
unfolding new_registry new_trie
new_registry-IsSound threshold = record {
  shape = tt;
  used = λ ks v e. absurd (ground (arith, find_path-new_trie {V = ℕ} ks));
  owned = λ ks js v e. absurd (ground (arith, find_path-new_trie {V = ℕ} ks));
  bare = λ v e. absurd (ground (arith, find_path-new_trie {V = ℕ} []));
  valid = λ v. new_pool-IsValid 0 [];
}

-- What `pool_for` makes of the registry: the pool of the key, new and empty if there was none.
pub record HasPool (r : Registry) (key : Uri) (q : Registry) (v : ℕ) : Type 0 where
  pub sound : IsSound q
  pub here : pool_at q (path_of key) ≡ some v
  pub others : (ks : List Text) → ks ≢ path_of key → pool_at q ks ≡ pool_at r ks
  pub same_pool : (w : ℕ) → w ≢ v → q.pools w ≡ r.pools w
  pub fresh_or_old :
      (pool_at r (path_of key) ≡ some v) × (q ≡ r)
      ⊎ ((pool_at r (path_of key) ≡ none)
          × (v ≡ r.next_pool)
          × ((x : Endpoint) (t : ℕ) (f : Option ℕ) → ¬ Contains (q.pools v) x t f)
          × ((s : ℕ) → ¬ IsLive (q.pools v) s))

module _ (r : Registry) (key : Uri) (v : IsSound r) (unknown : pool_at r (path_of key) ≡ none) where
  abbrev n : ℕ
  n = r.next_pool

  abbrev q : Registry
  q = add_pool r key

  paths :
      (ks : List Text) → pool_at q ks ≡ (if path_eq (path_of key) ks then some n else pool_at r ks)
  unfolding add_pool insert
  paths ks = find_path-insert_path (path_of key) ks n r.by_uri

  path_cases :
      (ks : List Text) (w : ℕ)
      → pool_at q ks ≡ some w
      → ((ks ≡ path_of key) × (w ≡ n)) ⊎ ((pool_at r ks ≡ some w) × (w < n))
  path_cases ks w e = ground (arith, paths ks, path_eq_iff (path_of key) ks, v.used ks w)

  pool_new : q.pools n ≡ new_pool (r.droplet_stale_threshold / 4) (parse_context_path key)
  unfolding add_pool write_pool
  pool_new = ground arith

  pool_old : (w : ℕ) → w ≢ n → q.pools w ≡ r.pools w
  unfolding add_pool write_pool
  pool_old w ne = ground arith

  add_pool-IsSound : IsSound q
  unfolding add_pool insert
  add_pool-IsSound = record {
    shape = insert_path-IsWellFormed r.by_uri (path_of key) n v.shape;
    used = λ ks w e. ground (arith, path_cases ks w);
    owned = λ ks js w e d. ground (arith, path_cases ks w, path_cases js w, v.owned ks js w);
    bare = λ w e. elim (path_cases [] w e) [
      | inl (is_key, _) ↦ path_of-ne-nil key (sym is_key)
      | inr (old, _) ↦ v.bare w old
    ];
    valid = λ w. elim (Bool-cases (w == n)) [
      | inl same ↦ let new : w ≡ n = ground arith in rw (new, pool_new) (new_pool-IsValid _ _)
      | inr other ↦ rw (pool_old w (ground arith)) (v.valid w)
    ];
  }

  nothing-IsLive : (s : ℕ) → ¬ IsLive (q.pools n) s
  nothing-IsLive s = rw pool_new (none-IsLive s)
    where
      none-IsLive :
          (s : ℕ) → ¬ IsLive (new_pool (r.droplet_stale_threshold / 4) (parse_context_path key)) s
      none-IsLive s = unfold new_pool in λ e. cc

  add_pool-HasPool : HasPool r key q n
  add_pool-HasPool = record {
    sound = add_pool-IsSound;
    here = ground (arith, paths (path_of key), path_eq_iff (path_of key) (path_of key));
    others = λ ks ne. ground (arith, paths ks, path_eq_iff (path_of key) ks);
    same_pool = pool_old;
    fresh_or_old =
        inr (unknown, refl, (λ x t f (s, live, _, _, _). nothing-IsLive s live), nothing-IsLive);
  }

pub pool_for-HasPool :
    (r : Registry) (key : Uri) → IsSound r → HasPool r key (pool_for r key).0 (pool_for r key).1
unfolding pool_for find
pool_for-HasPool r key v = elim (Option-cases (pool_at r (path_of key))) [
  | inr (w, known) ↦
      rw (known, pool_for, find)
        (record {
          sound = v;
          here = known;
          others = λ ks ne. refl;
          same_pool = λ u ne. refl;
          fresh_or_old = inl (known, refl);
        })
  | inl unknown ↦ rw (unknown, pool_for, find) (add_pool-HasPool r key v unknown)
]
