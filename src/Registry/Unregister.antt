-- ===== src/Registry/Unregister.antt =====
-- registry/registry.go: Unregister, seen as a change of the set of routes.
use gorouter.Base.{
  ℕ, ◌≡◌, ◌≢◌, ◌↔◌, inl, inr, sym, subst, Option, none, some, Text, List, [], arith, if◌then◌else◌,
  ◌==◌, Bool-cases, Option-cases, List-cases, Bool, true,
}
use gorouter.Uri.{Uri, route_key}
use gorouter.Endpoint.{Endpoint}
use gorouter.Pool.{Pool, is_empty}
use gorouter.Pool.Invariant.{IsLive, Contains, id_of}
use gorouter.Pool.Remove.{Removes, remove-Removes}
use gorouter.Trie.{Trie, find, find_path}
use gorouter.Trie.Shape.{IsWellFormed}
use gorouter.Trie.Find.{path_eq, path_eq_iff}
use gorouter.Trie.Delete.{delete-find_path}
use gorouter.Registry.{Registry, unregister, write_pool, delete_if_empty}
use gorouter.Registry.Routes.{key_path, pool_at, IsSound, HasRoute}

abbrev changed : Registry → ℕ → Pool → Registry
changed r w q = record r { pools = write_pool r.pools w q }

-- The routes that Unregister leaves.
abbrev Left : Registry → Uri → Endpoint → Registry → Type 0
Left r uri e r' =
    (ks : List Text) (x : Endpoint)
    → HasRoute r' ks x ↔ (HasRoute r ks x × (ks ≡ key_path uri → x.addr ≢ e.addr))

-- The pool of the path loses an endpoint.
module _ (r : Registry) (uri : Uri) (e : Endpoint) (w : ℕ) (q : Pool) (known : Bool) (v : IsSound r)
    (here : pool_at r (key_path uri) ≡ some w) (taken : Removes (r.pools w) e q known) where
  abbrev r' : Registry
  r' = changed r w q

  pool_here : r'.pools w ≡ q
  unfolding write_pool
  pool_here = ground arith

  pool_there : (u : ℕ) → u ≢ w → r'.pools u ≡ r.pools u
  unfolding write_pool
  pool_there u ne = ground arith

  changed-IsSound : IsSound r'
  changed-IsSound = record {
    shape = v.shape;
    used = v.used;
    owned = v.owned;
    bare = v.bare;
    valid = λ u. elim (Bool-cases (u == w)) [
      | inl same ↦ let eq : u ≡ w = ground arith in rw (eq, pool_here) taken.valid
      | inr other ↦ rw (pool_there u (ground arith)) (v.valid u)
    ];
  }

  on_path :
      (ks : List Text) (x : Endpoint) (u t : ℕ) (f : Option ℕ)
      → pool_at r ks ≡ some u
      → ks ≡ key_path uri
      → Contains (r'.pools u) x t f ↔ (Contains (r.pools u) x t f × (x.addr ≢ e.addr))
  on_path ks x u t f at eq =
      let at_key : pool_at r (key_path uri) ≡ some u = subst (λ js. pool_at r js ≡ some u) eq at in
      let is_w : u ≡ w = ground (arith, here) in rw (is_w, pool_here) (taken.left x t f)

  off_path :
      (ks : List Text) (u : ℕ) → pool_at r ks ≡ some u → ks ≢ key_path uri → r'.pools u ≡ r.pools u
  off_path ks u at ne = pool_there u (λ eq. ne (v.owned ks (key_path uri) u at (rw eq here)))

  changed-Left : Left r uri e r'
  changed-Left ks x = elim (Bool-cases (path_eq ks (key_path uri))) [
    | inl same ↦
        let eq = (path_eq_iff ks (key_path uri)).0 same in
        (
          λ (u, t, f, at, c).
              let (c', ne) = (on_path ks x u t f at eq).0 c in ((u, t, f, at, c'), λ _. ne),
          λ ((u, t, f, at, c), kept). (u, t, f, at, (on_path ks x u t f at eq).1 (c, kept eq)),
        )
    | inr differ ↦
        let ne : ks ≢ key_path uri = λ eq. ground (arith, path_eq_iff ks (key_path uri)) in
        (
          λ (u, t, f, at, c). (
            (u, t, f, at, subst (λ m. Contains m x t f) (off_path ks u at ne) c),
            λ eq. absurd (ne eq),
          ),
          λ ((u, t, f, at, c), kept).
              (u, t, f, at, subst (λ m. Contains m x t f) (sym (off_path ks u at ne)) c),
        )
  ]

-- The path of an empty pool goes.
module _ (r : Registry) (uri : Uri) (w : ℕ) (v : IsSound r)
    (here : pool_at r (key_path uri) ≡ some w)
    (bare : (x : Endpoint) (t : ℕ) (f : Option ℕ) → ¬ Contains (r.pools w) x t f) (d : Trie ℕ)
    (kept : IsWellFormed d)
    (after : (js : List Text)
      → find_path d js ≡ (if path_eq (key_path uri) js then none else find_path r.by_uri js)) where
  abbrev s : Registry
  s = record r { by_uri = d }

  was_there : (ks : List Text) (u : ℕ) → pool_at s ks ≡ some u → pool_at r ks ≡ some u
  was_there ks u at = ground (arith, after ks)

  dropped-IsSound : IsSound s
  dropped-IsSound = record {
    shape = kept;
    used = λ ks u at. v.used ks u (was_there ks u at);
    owned = λ ks js u at bt. v.owned ks js u (was_there ks u at) (was_there js u bt);
    bare = λ u at. v.bare u (was_there [] u at);
    valid = λ u. v.valid u;
  }

  dropped-HasRoute : (ks : List Text) (x : Endpoint) → HasRoute s ks x ↔ HasRoute r ks x
  dropped-HasRoute ks x = (
    λ (u, t, f, at, c). (u, t, f, was_there ks u at, c),
    λ (u, t, f, at, c). elim (Bool-cases (path_eq (key_path uri) ks)) [
      | inl same ↦
          let eq = (path_eq_iff (key_path uri) ks).0 same in
          let at_key : pool_at r (key_path uri) ≡ some u = rw eq at in
          let is_w : u ≡ w = ground (arith, here) in
          absurd (bare x t f (subst (λ m. Contains (r.pools m) x t f) is_w c))
      | inr differ ↦ (u, t, f, ground (arith, after ks), c)
    ],
  )

is_empty-bare :
    (p : Pool) → is_empty p ≡ true → (x : Endpoint) (t : ℕ) (f : Option ℕ) → ¬ Contains p x t f
unfolding is_empty
is_empty-bare p e x t f (s, live, _, _, _) = elim (List-cases p.endpoints) [
  | inl none_left ↦ ground (arith, none_left)
  | inr (y, ys, some_left) ↦ ground (arith, some_left)
]

delete_if_empty_lem :
    (r : Registry) (uri : Uri) (w : ℕ)
    → IsSound r
    → pool_at r (key_path uri) ≡ some w
    → (r' : Registry) × (delete_if_empty r (route_key uri) w ≡ some r')
      × IsSound r'
      × ((ks : List Text) (x : Endpoint) → HasRoute r' ks x ↔ HasRoute r ks x)
unfolding delete_if_empty
delete_if_empty_lem r uri w v here = elim (Bool-cases (is_empty (r.pools w))) [
  | inl empty ↦
      let (d, deleted, after, kept) = delete-find_path r.by_uri (route_key uri) w v.shape here in
      let bare = is_empty-bare (r.pools w) empty in
      (
        record r { by_uri = d },
        ground arith,
        dropped-IsSound r uri w v here bare d kept after,
        dropped-HasRoute r uri w v here bare d kept after,
      )
  | inr busy ↦ (r, ground arith, v, λ ks x. (λ h. h, λ h. h))
]

-- In a sound registry, where no element of the pool of the path has the address of the endpoint
-- as its instance id, Unregister does not panic. It takes away the route from the path of the
-- URI's key to the address of the endpoint, if there is one, and leaves every other route and a
-- sound registry.
pub unregister-HasRoute :
    (r : Registry) (uri : Uri) (e : Endpoint)
    → IsSound r
    → ((w : ℕ)
        → pool_at r (key_path uri) ≡ some w
        → (s : ℕ) → IsLive (r.pools w) s
        → id_of (r.pools w) s ≢ e.addr)
    → (r' : Registry) × (unregister r uri e ≡ some r')
      × IsSound r'
      × ((ks : List Text) (x : Endpoint)
          → HasRoute r' ks x ↔ (HasRoute r ks x × (ks ≡ key_path uri → x.addr ≢ e.addr)))
unfolding unregister find
unregister-HasRoute r uri e v addr_free = elim (Option-cases (pool_at r (key_path uri))) [
  | inl unknown ↦ (
    r,
    ground arith,
    v,
    λ ks x. (λ (u, t, f, at, c). ((u, t, f, at, c), λ eq. absurd (ground arith)), λ h. h.0),
  )
  | inr (w, here) ↦
      let (q, (known, removed, taken)) =
        remove-Removes (r.pools w) e (v.valid w) (addr_free w here) in
      let v1 = changed-IsSound r uri e w q known v here taken in
      let left = changed-Left r uri e w q known v here taken in
      let (r', done, sound, same) = delete_if_empty_lem (changed r w q) uri w v1 here in
      (
        r',
        ground arith,
        sound,
        λ ks x. (λ h. (left ks x).0 ((same ks x).0 h), λ h. (same ks x).1 ((left ks x).1 h)),
      )
]
