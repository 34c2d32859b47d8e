-- ===== src/Registry/Prune.antt =====
-- registry/registry.go: pruneStaleDroplets, seen as a change of the set of routes.
use gorouter.Base.{
  ℕ, ◌+◌, ◌≤◌, ◌≡◌, ◌≢◌, ◌⊎◌, ◌↔◌, inl, inr, refl, subst, ◌∙◌, [], ◌∷◌, Option, some, Text, List,
  arith, List-cases, true, not,
}
use gorouter.Endpoint.{Endpoint}
use gorouter.Pool.{Pool, threshold, is_empty}
use gorouter.Pool.Invariant.{IsValid, Contains}
use gorouter.Pool.Prune.{prune_endpoints-Contains}
use gorouter.Trie.Snipping.{Sheds, snip-Sheds}
use gorouter.Trie.Visits.{entries, run, each_at-run, Visited, find_path-Visited}
use gorouter.Registry.{Registry, prune_pool, prune_stale_droplets, write_pool, snip_at}
use gorouter.Registry.Routes.{pool_at, IsSound}

-- The route to `x`, by the pool `v`, last registered at `t`.
abbrev pub RoutesTo : Registry → List Text → ℕ → Endpoint → ℕ → Option ℕ → Type 0
RoutesTo r ks v x t f = (pool_at r ks ≡ some v) × Contains (r.pools v) x t f

busy-Contains :
    (p : Pool) (x : Endpoint) (t : ℕ) (f : Option ℕ) → Contains p x t f → not (is_empty p) ≡ true
unfolding is_empty
busy-Contains p x t f (s, live, _, _, _) = elim (List-cases p.endpoints) [
  | inl none_left ↦ absurd (ground (arith, none_left))
  | inr (y, ys, some_left) ↦ ground (arith, some_left)
]

-- Snip takes no route.
module _ (r : Registry) (up : List Text) (v : IsSound r) where
  abbrev r' : Registry
  r' = snip_at r up

  sheds : Sheds (λ w. not (is_empty (r.pools w))) r.by_uri r'.by_uri
  sheds = (snip-Sheds (λ w. not (is_empty (r.pools w))) up r.by_uri v.shape).1

  still_there : (ks : List Text) (w : ℕ) → pool_at r' ks ≡ some w → pool_at r ks ≡ some w
  still_there ks w at = ground (arith, sheds ks)

  snip_at-IsSound : IsSound r'
  snip_at-IsSound = record {
    shape = (snip-Sheds (λ w. not (is_empty (r.pools w))) up r.by_uri v.shape).0;
    used = λ ks w at. v.used ks w (still_there ks w at);
    owned = λ ks js w at bt. v.owned ks js w (still_there ks w at) (still_there js w bt);
    bare = λ w at. v.bare w (still_there [] w at);
    valid = v.valid;
  }

  snip_at-RoutesTo :
      (ks : List Text) (w : ℕ) (x : Endpoint) (t : ℕ) (f : Option ℕ)
      → RoutesTo r' ks w x t f ↔ RoutesTo r ks w x t f
  snip_at-RoutesTo ks w x t f = (
    λ (at, c). (still_there ks w at, c),
    λ (at, c). elim (sheds ks) [
      | inl same ↦ (same ∙ at, c)
      | inr (gone, idle) ↦
          let busy = busy-Contains (r.pools w) x t f c in
          let not_busy = idle w at in absurd (ground arith)
    ],
  )

-- The pool `v` becomes `p`.
module _ (r : Registry) (v : ℕ) (p : Pool) (s : IsSound r) (kept : IsValid p) where
  abbrev q : Registry
  q = record r { pools = write_pool r.pools v p }

  pools_cases : (w : ℕ) → ((v ≡ w) × (q.pools w ≡ p)) ⊎ ((v ≢ w) × (q.pools w ≡ r.pools w))
  unfolding write_pool
  pools_cases w = ground arith

  write_pool-IsSound : IsSound q
  write_pool-IsSound = record {
    shape = s.shape;
    used = s.used;
    owned = s.owned;
    bare = s.bare;
    valid = λ w. elim (pools_cases w) [
      | inl (_, new) ↦ rw new kept
      | inr (_, old) ↦ rw old (s.valid w)
    ];
  }

module _ (default : ℕ) (clock : ℕ → ℕ) where
  abbrev IsFresh : ℕ → Endpoint → ℕ → Type 0
  IsFresh v x t = clock v ≤ t + threshold x default

  -- `r'` has the routes of `r` that are fresh, where `G` holds of their pool.
  record Pruned (r : Registry) (G : ℕ → Type 0) (r' : Registry) : Type 0 where
    sound : IsSound r'
    same_default : r'.droplet_stale_threshold ≡ default
    routes :
        (ks : List Text) (w : ℕ) (x : Endpoint) (t : ℕ) (f : Option ℕ)
        → RoutesTo r' ks w x t f ↔ (RoutesTo r ks w x t f × (G w → IsFresh w x t))

  prune_pool-Pruned :
      (r : Registry) (up : List Text) (v : ℕ)
      → IsSound r
      → r.droplet_stale_threshold ≡ default
      → (r' : Registry) × (prune_pool clock r up v ≡ some r') × Pruned r (λ w. v ≡ w) r'
  unfolding prune_pool
  prune_pool-Pruned r up v s d =
      let (p, done, kept, left) =
        prune_endpoints-Contains (r.pools v) default (clock v) (s.valid v) in
      let s' = write_pool-IsSound r v p s kept in
      let q : Registry = record r { pools = write_pool r.pools v p } in
      let contains : (w : ℕ) (x : Endpoint) (t : ℕ) (f : Option ℕ)
          → Contains (q.pools w) x t f ↔ (Contains (r.pools w) x t f × (v ≡ w → IsFresh w x t)) =
        λ w x t f. elim (pools_cases r v p s kept w) [
          | inl (is_w, new) ↦
              let after : Contains p x t f ↔ (Contains (r.pools w) x t f × IsFresh w x t) =
                subst (λ u. Contains p x t f ↔ (Contains (r.pools u) x t f × IsFresh u x t)) is_w
                  (left x t f) in
              rw new (λ c. ((after.0 c).0, λ _. (after.0 c).1), λ (c, g). after.1 (c, g is_w))
          | inr (other, old) ↦ rw old (λ c. (c, λ is_w. absurd (other is_w)), λ h. h.0)
        ] in
      (
        snip_at q up,
        ground (arith, d, done),
        record {
          sound = snip_at-IsSound q up s';
          same_default = d;
          routes = λ ks w x t f. (
            λ h.
                let (at, c) = (snip_at-RoutesTo q up s' ks w x t f).0 h in
                let (c', g) = (contains w x t f).0 c in ((at, c'), g),
            λ ((at, c), g).
                (snip_at-RoutesTo q up s' ks w x t f).1 (at, (contains w x t f).1 (c, g)),
          );
        },
      )

  run-Pruned :
      (es : List (List Text × ℕ)) (r : Registry)
      → IsSound r
      → r.droplet_stale_threshold ≡ default
      → (r' : Registry) × (run (prune_pool clock) es r ≡ some r') × Pruned r (Visited es) r'
  run-Pruned [] r s d = (
    r,
    refl,
    record {
      sound = s;
      same_default = d;
      routes = λ ks w x t f. (λ h. (h, λ nowhere. absurd nowhere), λ h. h.0);
    },
  )
  run-Pruned ((up, v) ∷ es) r s d =
      let (q, done, first) = prune_pool-Pruned r up v s d in
      let (r', rest, later) = run-Pruned es q first.sound first.same_default in
      (
        r',
        ground arith,
        record {
          sound = later.sound;
          same_default = later.same_default;
          routes = λ ks w x t f. (
            λ h.
                let (h', g) = (later.routes ks w x t f).0 h in
                let (h'', g') = (first.routes ks w x t f).0 h' in
                (h'', λ o. elim o [ inl is_w ↦ g' is_w | inr after ↦ g after ]),
            λ (h, g).
                (later.routes ks w x t f).1
                  ((first.routes ks w x t f).1 (h, λ is_w. g (inl is_w)), λ after. g (inr after)),
          );
        },
      )

-- From a sound registry, pruneStaleDroplets does not panic and leaves a sound registry. A route
-- is there afterwards, with its times, exactly if it was before and its last registration is no
-- older than the threshold that applies to the endpoint, at the time that the pruning of its pool
-- reads.
pub prune_stale_droplets-RoutesTo :
    (r : Registry) (clock : ℕ → ℕ)
    → IsSound r
    → (r' : Registry) × (prune_stale_droplets r clock ≡ some r')
      × IsSound r'
      × ((ks : List Text) (v : ℕ) (x : Endpoint) (t : ℕ) (f : Option ℕ)
          → RoutesTo r' ks v x t f
            ↔ (RoutesTo r ks v x t f × (clock v ≤ t + threshold x r.droplet_stale_threshold)))
unfolding prune_stale_droplets
prune_stale_droplets-RoutesTo r clock s =
    let default = r.droplet_stale_threshold in
    let (r', done, k) = run-Pruned default clock (entries r.by_uri []) r s refl in
    (
      r',
      each_at-run (prune_pool clock) r.by_uri [] r ∙ done,
      k.sound,
      λ ks v x t f. (
        λ h.
            let (h', fresh) = (k.routes ks v x t f).0 h in
            (h', fresh (find_path-Visited ks r.by_uri [] v h'.0)),
        λ (h, fresh). (k.routes ks v x t f).1 (h, λ _. fresh),
      ),
    )
