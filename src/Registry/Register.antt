-- ===== src/Registry/Register.antt =====
-- registry/registry.go: Register, seen as a change of the set of routes.
use gorouter.Base.{
  ℕ, ◌≡◌, ◌≢◌, ◌⊎◌, ◌↔◌, inl, inr, sym, subst, ◌∙◌, Option, some, Text, List, arith, ◌==◌, text_eq,
  text_eq_iff, Bool-cases,
}
use gorouter.Uri.{Uri, route_key}
use gorouter.Endpoint.{Endpoint}
use gorouter.Pool.{Pool, put}
use gorouter.Pool.Invariant.{IsValid, Contains}
use gorouter.Pool.Put.{IsApart, put-IsValid}
use gorouter.Pool.Update.{Puts, IsIdentified, put-Puts}
use gorouter.Trie.Find.{path_eq, path_eq_iff}
use gorouter.Registry.{Registry, register, pool_for, write_pool}
use gorouter.Registry.Routes.{
  key_path, pool_at, IsSound, HasRoute, IsFit, HasPool, pool_for-HasPool,
}

abbrev with_pool : Registry → ℕ → Pool → ℕ → Registry
with_pool r v p t = record r { pools = write_pool r.pools v p; time_of_last_update = t }

module _ (r : Registry) (uri : Uri) (e : Endpoint) (now : ℕ) (q : Registry) (w t' : ℕ)
    (h : HasPool r (route_key uri) q w) (fit : IsFit r uri e) where
  abbrev p : Pool
  p = q.pools w

  abbrev p' : Pool
  p' = (put p e now).0

  abbrev r' : Registry
  r' = with_pool q w p' t'

  p-IsValid : IsValid p
  p-IsValid = h.sound.valid w

  p-IsApart : IsApart p e
  p-IsApart = elim h.fresh_or_old [
    | inl (old, same) ↦ rw same (fit.apart w old)
    | inr (_, _, _, bare) ↦ record {
      own = fit.own;
      id_free = λ s live. absurd (bare s live);
      addr_free = λ s live. absurd (bare s live);
    }
  ]

  p-IsIdentified : IsIdentified p e
  p-IsIdentified = elim h.fresh_or_old [
    | inl (old, same) ↦ rw same (fit.identified w old)
    | inr (_, _, _, bare) ↦ λ s live same. absurd (bare s live)
  ]

  p'-Puts : Puts p e now p' (put p e now).1
  p'-Puts = put-Puts p e now p-IsValid p-IsApart p-IsIdentified

  pool_here : r'.pools w ≡ p'
  unfolding write_pool
  pool_here = ground arith

  pool_there : (u : ℕ) → u ≢ w → r'.pools u ≡ q.pools u
  unfolding write_pool
  pool_there u ne = ground arith

  with_pool-IsSound : IsSound r'
  with_pool-IsSound = record {
    shape = h.sound.shape;
    used = h.sound.used;
    owned = h.sound.owned;
    bare = h.sound.bare;
    valid = λ u. elim (Bool-cases (u == w)) [
      | inl same ↦
          let eq : u ≡ w = ground arith in
          rw (eq, pool_here) (put-IsValid p e now p-IsValid p-IsApart)
      | inr other ↦ rw (pool_there u (ground arith)) (h.sound.valid u)
    ];
  }

  -- The route of the call.
  new_route : HasRoute r' (key_path uri) e
  new_route = elim p'-Puts.there [
    | inl (f, c) ↦ (w, now, f, h.here, subst (λ u. Contains u e now f) (sym pool_here) c)
    | inr (same, (t, (f, c))) ↦
        (w, t, f, h.here, subst (λ u. Contains u e t f) (sym (pool_here ∙ same)) c)
  ]

  route_here :
      (x : Endpoint) (t : ℕ) (f : Option ℕ)
      → Contains p' x t f
      → (x ≡ e) ⊎ (HasRoute r (key_path uri) x × (x.addr ≢ e.addr))
  route_here x t f c = elim (Bool-cases (text_eq x.addr e.addr)) [
    | inl same ↦ inl (p'-Puts.only x t f ((text_eq_iff x.addr e.addr).0 same) c)
    | inr other ↦
        let ne : x.addr ≢ e.addr = λ eq. ground (arith, text_eq_iff x.addr e.addr) in
        let c' = (p'-Puts.others x t f ne).0 c in
        elim h.fresh_or_old [
          | inl (old, same) ↦
              inr ((w, t, f, old, subst (λ u. Contains (u.pools w) x t f) same c'), ne)
          | inr (_, _, no_elem, _) ↦ absurd (no_elem x t f c')
        ]
  ]

  -- A route that was there before, and is not replaced.
  old_route :
      (ks : List Text) (x : Endpoint)
      → HasRoute r ks x
      → (ks ≡ key_path uri → x.addr ≢ e.addr)
      → HasRoute r' ks x
  old_route ks x (u, t, f, at, c) kept = elim (Bool-cases (path_eq ks (key_path uri))) [
    | inl same ↦
        let eq = (path_eq_iff ks (key_path uri)).0 same in
        elim h.fresh_or_old [
          | inl (old, is_r) ↦
              let is_w : u ≡ w = ground arith in
              let c' : Contains p x t f =
                rw is_r (subst (λ m. Contains (r.pools m) x t f) is_w c) in
              (
                w,
                t,
                f,
                rw eq h.here,
                subst (λ m. Contains m x t f) (sym pool_here)
                    ((p'-Puts.others x t f (kept eq)).1 c'),
              )
          | inr (none_there, _, _, _) ↦ absurd (ground arith)
        ]
    | inr differ ↦
        let ne : ks ≢ key_path uri = λ eq. ground (arith, path_eq_iff ks (key_path uri)) in
        let at' = h.others ks ne ∙ at in
        let apart : u ≢ w = λ eq. ne (h.sound.owned ks (key_path uri) u at' (rw eq h.here)) in
        (
          u,
          t,
          f,
          at',
          subst (λ m. Contains m x t f) (sym (pool_there u apart ∙ h.same_pool u apart)) c,
        )
  ]

  route_there :
      (ks : List Text) (x : Endpoint) → ks ≢ key_path uri → HasRoute r' ks x → HasRoute r ks x
  route_there ks x ne (u, t, f, at, c) =
      let apart : u ≢ w = λ eq. ne (h.sound.owned ks (key_path uri) u at (rw eq h.here)) in
      (
        u,
        t,
        f,
        sym (h.others ks ne) ∙ at,
        subst (λ m. Contains m x t f) (pool_there u apart ∙ h.same_pool u apart) c,
      )

  route_key_path :
      (ks : List Text) (x : Endpoint)
      → ks ≡ key_path uri
      → HasRoute r' ks x
      → ((ks ≡ key_path uri) × (x ≡ e)) ⊎ (HasRoute r ks x × (ks ≡ key_path uri → x.addr ≢ e.addr))
  route_key_path ks x eq (u, t, f, at, c) =
      let at_key : pool_at q (key_path uri) ≡ some u = subst (λ js. pool_at q js ≡ some u) eq at in
      let is_w : u ≡ w = ground (arith, h.here) in
      let c' =
        subst (λ m. Contains m x t f) pool_here (subst (λ m. Contains (r'.pools m) x t f) is_w c) in
      elim (route_here x t f c') [
        | inl is_e ↦ inl (eq, is_e)
        | inr (old, ne) ↦ inr (rw eq old, λ _. ne)
      ]

  with_pool-HasRoute :
      (ks : List Text) (x : Endpoint)
      → HasRoute r' ks x ↔ (
          ((ks ≡ key_path uri) × (x ≡ e))
          ⊎ (HasRoute r ks x × (ks ≡ key_path uri → x.addr ≢ e.addr)))
  with_pool-HasRoute ks x = (
    λ route. elim (Bool-cases (path_eq ks (key_path uri))) [
      | inl same ↦ route_key_path ks x ((path_eq_iff ks (key_path uri)).0 same) route
      | inr differ ↦
          let ne : ks ≢ key_path uri = λ eq. ground (arith, path_eq_iff ks (key_path uri)) in
          inr (route_there ks x ne route, λ eq. absurd (ne eq))
    ],
    λ o. elim o [
      | inl (is_key, is_e) ↦ rw (is_key, is_e) new_route
      | inr (old, kept) ↦ old_route ks x old kept
    ],
  )

-- Register adds the route from the path of the URI's key to the endpoint, in place of the route
-- of that path to the same address, if there is one, and changes no other route. The registry is
-- sound, the address and the instance id of the endpoint are apart from those in the pool of the
-- path, and the same object there has the same fields. Register keeps the registry sound.
pub register-HasRoute :
    (r : Registry) (uri : Uri) (e : Endpoint) (t now : ℕ)
    → IsSound r
    → IsFit r uri e
    → IsSound (register r uri e t now)
      × ((ks : List Text) (x : Endpoint)
          → HasRoute (register r uri e t now) ks x ↔ (
              ((ks ≡ key_path uri) × (x ≡ e))
              ⊎ (HasRoute r ks x × (ks ≡ key_path uri → x.addr ≢ e.addr))))
unfolding register
register-HasRoute r uri e t now v fit =
    let (q, w) = pool_for r (route_key uri) in
    let h = pool_for-HasPool r (route_key uri) v in
    (with_pool-IsSound r uri e now q w t h fit, with_pool-HasRoute r uri e now q w t h fit)
