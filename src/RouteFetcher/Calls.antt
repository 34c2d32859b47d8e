-- ===== src/RouteFetcher/Calls.antt =====
-- route_fetcher/route_fetcher.go: what the calls of Register and Unregister for a list of routes do.
use gorouter.Base.{
  ap, sym, subst, ◌∙◌, ℕ, ◌+◌, ◌≡◌, ◌⊎◌, ◌↔◌, inl, inr, refl, List, [], ◌∷◌, some, Bool, true,
  false, Text, arith, text_eq, text_eq_iff, text_cases, ==_iff, Bool-cases, ◌&&◌, ◌%◌, ◌^◌, ◌++◌,
  itoa, ◌==◌,
}
use gorouter.Endpoint.{Endpoint}
use gorouter.Trie.Find.{path_cases}
use gorouter.Registry.Routes.{key_path, HasRoute}
use gorouter.Messages.{World, make_endpoint}
use gorouter.Messages.Domain.{
  Reaches, has_colon, address, make_endpoint-fields, IsClean, register_uri-HasRoute,
  unregister-World,
}
use gorouter.RouteFetcher.{
  ApiRoute, route_message, register_route, unregister_route, route_equals, route_found, vanished,
  unregister_routes, register_routes,
}

abbrev pub address_of : ApiRoute → Text
address_of r = address (route_message r)

-- A route of the list is from the path to the address.
abbrev pub Targets : List ApiRoute → List Text → Text → Type 0
Targets [] ks a = ⊥
Targets (r ∷ rs) ks a = ((ks ≡ key_path r.route) × (a ≡ address_of r)) ⊎ Targets rs ks a

-- The routes have no colon in their guid.
abbrev pub ArePlain : List ApiRoute → Type 0
ArePlain [] = Unit
ArePlain (r ∷ rs) = (has_colon r.log_guid ≡ false) × ArePlain rs

and_left : (b c : Bool) → (b && c) ≡ true → b ≡ true
and_left true c h = refl
and_left false c h = h

and_right : (b c : Bool) → (b && c) ≡ true → c ≡ true
and_right true c h = h
and_right false c h = absurd cc

guid_plain :
    (r : ApiRoute)
    → has_colon r.log_guid ≡ false
    → has_colon (route_message r).private_instance_id ≡ false
unfolding route_message
guid_plain r plain = plain

pub unregister_route_lem :
    (w : World) (r : ApiRoute)
    → IsClean w
    → (w' : World) × (unregister_route w r ≡ some w')
      × IsClean w'
      × ((ks : List Text) (x : Endpoint)
          → HasRoute w'.registry ks x ↔ (HasRoute w.registry ks x × ¬ Targets (r ∷ []) ks x.addr))
unfolding unregister_route
unregister_route_lem w r c =
    let (g, done, clean, routes) = unregister-World w r.route c (route_message r) in
    (
      record w { registry = g; next_ptr = w.next_ptr + 1 },
      ground (arith, done),
      clean,
      λ ks x. (
        λ h.
            let (was, apart) = (routes ks x).0 h in
            (was, λ t. elim t [ inl (here, same) ↦ apart here same | inr bad ↦ absurd bad ]),
        λ (was, out). (routes ks x).1 (was, λ here same. out (inl (here, same))),
      ),
    )

pub unregister_routes_lem :
    (rs : List ApiRoute) (w : World)
    → IsClean w
    → (w' : World) × (unregister_routes rs w ≡ some w')
      × IsClean w'
      × ((ks : List Text) (x : Endpoint)
          → HasRoute w'.registry ks x ↔ (HasRoute w.registry ks x × ¬ Targets rs ks x.addr))
unfolding unregister_routes
unregister_routes_lem [] w c = (w, refl, c, λ ks x. (λ h. (h, λ bad. bad), λ (h, out). h))
unregister_routes_lem (r ∷ rs) w c =
    let (w1, first, c1, routes1) = unregister_route_lem w r c in
    let (w2, rest, c2, routes2) = unregister_routes_lem rs w1 c1 in
    (
      w2,
      ground (arith, first, rest),
      c2,
      λ ks x. (
        λ h.
            let (h1, out2) = (routes2 ks x).0 h in
            let (was, out1) = (routes1 ks x).0 h1 in
            (was, λ t. elim t [ inl here ↦ out1 (inl here) | inr there ↦ out2 there ]),
        λ (was, out). (routes2 ks x).1 (
          (routes1 ks x).1 (was, λ t. elim t [ inl here ↦ out (inl here) | inr bad ↦ absurd bad ]),
          λ t. out (inr t),
        ),
      ),
    )

module _ (clock : ℕ → ℕ) where
  -- What a call of Register does to the routes that are from paths to addresses.
  pub register_route_lem :
      (w : World) (r : ApiRoute)
      → IsClean w
      → has_colon r.log_guid ≡ false
      → IsClean (register_route clock w r)
        × Reaches (register_route clock w r) (key_path r.route) (address_of r)
        × ((ks : List Text) (x : Endpoint)
            → ¬ Targets (r ∷ []) ks x.addr
            → HasRoute (register_route clock w r).registry ks x ↔ HasRoute w.registry ks x)
        × ((ks : List Text) (a : Text) → Reaches w ks a → Reaches (register_route clock w r) ks a)
  unfolding register_route
  register_route_lem w r c plain =
      let rm = route_message r in
      let e = make_endpoint rm w.next_ptr in
      let (addr, id, ptr) = make_endpoint-fields rm w.next_ptr in
      let (clean, routes) = register_uri-HasRoute w r.route c rm (guid_plain r plain) clock in
      (
        clean,
        (e, (routes (key_path r.route) e).1 (inl (refl, refl)), addr),
        λ ks x out. (
          λ h. elim ((routes ks x).0 h) [
            | inl (here, is_e) ↦ absurd (out (inl (here, ap (λ y. y.addr) is_e ∙ addr)))
            | inr (was, apart) ↦ was
          ],
          λ was. (routes ks x).1 (inr (was, λ here same. out (inl (here, same ∙ addr)))),
        ),
        λ ks a (x, h, at). elim (path_cases ks (key_path r.route)) [
          | inr away ↦ (x, (routes ks x).1 (inr (h, λ here. absurd (away here))), at)
          | inl here ↦ elim (text_cases x.addr e.addr) [
            | inl same ↦ (e, (routes ks e).1 (inl (here, refl)), sym same ∙ at)
            | inr other ↦ (x, (routes ks x).1 (inr (h, λ z same. other same)), at)
          ]
        ],
      )

  pub register_routes_lem :
      (rs : List ApiRoute) (w : World)
      → IsClean w
      → ArePlain rs
      → IsClean (register_routes clock rs w)
        × ((ks : List Text) (a : Text)
            → Targets rs ks a
            → Reaches (register_routes clock rs w) ks a)
        × ((ks : List Text) (x : Endpoint)
            → ¬ Targets rs ks x.addr
            → HasRoute (register_routes clock rs w).registry ks x ↔ HasRoute w.registry ks x)
        × ((ks : List Text) (a : Text) → Reaches w ks a → Reaches (register_routes clock rs w) ks a)
  unfolding register_routes
  register_routes_lem [] w c plain =
      (c, λ ks a bad. absurd bad, λ ks x out. (λ h. h, λ h. h), λ ks a h. h)
  register_routes_lem (r ∷ rs) w c (plain, plains) =
      let (c1, there, others, stay) = register_route_lem w r c plain in
      let w1 = register_route clock w r in
      let (c2, theres, others2, stay2) = register_routes_lem rs w1 c1 plains in
      (
        c2,
        λ ks a t. elim t [
          | inl (path, at) ↦ stay2 ks a (
              subst (λ j. Reaches w1 j a) (sym path)
                (subst (λ b. Reaches w1 (key_path r.route) b) (sym at) there))
          | inr later ↦ theres ks a later
        ],
        λ ks x out.
            let out1 : ¬ Targets (r ∷ []) ks x.addr =
              λ t. elim t [ inl here ↦ out (inl here) | inr bad ↦ absurd bad ] in
            let (f, g) = others ks x out1 in
            let (f2, g2) = others2 ks x (λ t. out (inr t)) in (λ h. f (f2 h), λ h. g2 (g h)),
        λ ks a h. stay2 ks a (stay ks a h),
      )

route_equals_lem :
    (r v : ApiRoute)
    → route_equals r v ≡ true
    → (key_path r.route ≡ key_path v.route) × (address_of r ≡ address_of v)
unfolding route_equals route_message
route_equals_lem r v h =
    let both = and_left (text_eq r.route v.route && text_eq r.ip v.ip) (r.port == v.port) h in
    let rr : r.route ≡ v.route =
      (text_eq_iff r.route v.route).0
        (and_left (text_eq r.route v.route) (text_eq r.ip v.ip) both) in
    let ips : r.ip ≡ v.ip =
      (text_eq_iff r.ip v.ip).0 (and_right (text_eq r.route v.route) (text_eq r.ip v.ip) both) in
    let ports : r.port ≡ v.port =
      (==_iff r.port v.port).0
        (and_right (text_eq r.route v.route && text_eq r.ip v.ip) (r.port == v.port) h) in
    (
      ap key_path rr,
      ap (λ j. j ++ b':' ∷ itoa (r.port % 2 ^ 16)) ips
          ∙ ap (λ n. v.ip ++ b':' ∷ itoa (n % 2 ^ 16)) ports,
    )

-- A route that is found among the valid ones is a target of theirs.
found-Targets :
    (r : ApiRoute) (vs : List ApiRoute)
    → route_found r vs ≡ true
    → Targets vs (key_path r.route) (address_of r)
unfolding route_found
found-Targets r [] h = absurd cc
found-Targets r (v ∷ vs) h = elim (Bool-cases (route_equals r v)) [
  | inl same ↦ inl (route_equals_lem r v same)
  | inr differ ↦ inr (found-Targets r vs (ground (arith, h, differ)))
]

-- Where no valid route is, those that vanish are those that were there.
pub vanished-Targets :
    (os vs : List ApiRoute) (ks : List Text) (a : Text)
    → ¬ Targets vs ks a
    → Targets (vanished os vs) ks a ↔ Targets os ks a
unfolding vanished
vanished-Targets [] vs ks a out = (λ t. t, λ t. t)
vanished-Targets (r ∷ os) vs ks a out =
    let (f, g) = vanished-Targets os vs ks a out in
    elim (Bool-cases (route_found r vs)) [
      | inl found ↦
          let e : vanished (r ∷ os) vs ≡ vanished os vs = ground (arith, found) in
          (
            λ t. inr (f (subst (λ l. Targets l ks a) e t)),
            λ t. elim t [
              | inl (path, at) ↦ absurd (
                  out (
                    subst (λ j. Targets vs j a) (sym path)
                      (subst (λ b. Targets vs (key_path r.route) b) (sym at)
                        (found-Targets r vs found))))
              | inr later ↦ subst (λ l. Targets l ks a) (sym e) (g later)
            ],
          )
      | inr lost ↦
          let e : vanished (r ∷ os) vs ≡ r ∷ vanished os vs = ground (arith, lost) in
          (
            λ t. elim (subst (λ l. Targets l ks a) e t) [
              | inl here ↦ inl here
              | inr later ↦ inr (f later)
            ],
            λ t.
                subst (λ l. Targets l ks a) (sym e)
                  (elim t [ inl here ↦ inl here | inr later ↦ inr (g later) ]),
          )
    ]
