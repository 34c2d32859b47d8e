-- ===== src/RouteFetcher/Refreshing.antt =====
-- route_fetcher/route_fetcher.go: what the calls of the fetcher do to the routes of the registry.
use gorouter.Base.{
  sym, ◌∙◌, ℕ, ◌≡◌, ◌≢◌, ◌↔◌, inl, inr, refl, List, [], ◌∷◌, none, some, true, false, Text, codes,
  arith, text_eq_iff, text_cases, text_ne,
}
use gorouter.Endpoint.{Endpoint}
use gorouter.Registry.Routes.{key_path, HasRoute}
use gorouter.Messages.{World}
use gorouter.Messages.Domain.{Reaches, has_colon, IsClean}
use gorouter.RouteFetcher.{
  unregister_route, register_route, ApiRoute, RouteFetcher, vanished, delete_endpoints,
  register_routes, refresh_endpoints, fetch_routes, Event, handle_event,
}
use gorouter.RouteFetcher.Calls.{
  address_of, Targets, ArePlain, unregister_route_lem, unregister_routes_lem, register_route_lem,
  register_routes_lem, vanished-Targets,
}

-- What the registry has after the routes of the API were fetched.
pub record Refreshed (f f' : RouteFetcher) (vs : List ApiRoute) : Type 0 where
  pub endpoints : f'.endpoints ≡ vs
  pub clean : IsClean f'.world
  pub there : (ks : List Text) (a : Text) → Targets vs ks a → Reaches f'.world ks a
  pub others :
      (ks : List Text) (x : Endpoint)
      → ¬ Targets vs ks x.addr
      → HasRoute f'.world.registry ks x
        ↔ (HasRoute f.world.registry ks x × ¬ Targets f.endpoints ks x.addr)

refresh_endpoints-Refreshed :
    (clock : ℕ → ℕ) (f : RouteFetcher) (vs : List ApiRoute)
    → IsClean f.world
    → ArePlain vs
    → (f' : RouteFetcher) × (refresh_endpoints clock f vs ≡ some f') × Refreshed f f' vs
unfolding refresh_endpoints delete_endpoints
refresh_endpoints-Refreshed clock f vs c plain =
    let (w1, deleted, c1, gone) = unregister_routes_lem (vanished f.endpoints vs) f.world c in
    let (c2, there, others, stay) = register_routes_lem clock vs w1 c1 plain in
    (
      record { endpoints = vs; world = register_routes clock vs w1 },
      ground (arith, deleted),
      record {
        endpoints = refl;
        clean = c2;
        there = there;
        others = λ ks x out.
            let (f1, g1) = others ks x out in
            let (f2, g2) = gone ks x in
            let (f3, g3) = vanished-Targets f.endpoints vs ks x.addr out in
            (
              λ h. let (was, left) = f2 (f1 h) in (was, λ t. left (g3 t)),
              λ (was, left). g1 (g2 (was, λ t. left (f3 t))),
            );
      },
    )

-- What an event does to the registry.
pub record Handled (f f' : RouteFetcher) (e : Event) : Type 0 where
  pub endpoints : f'.endpoints ≡ f.endpoints
  pub clean : IsClean f'.world
  pub upserts :
      e.action ≡ codes "Upsert" → Reaches f'.world (key_path e.route.route) (address_of e.route)
  pub deletes :
      e.action ≡ codes "Delete" → ¬ Reaches f'.world (key_path e.route.route) (address_of e.route)
  pub others :
      (ks : List Text) (x : Endpoint)
      → ¬ Targets (e.route ∷ []) ks x.addr
      → HasRoute f'.world.registry ks x ↔ HasRoute f.world.registry ks x
  pub ignores : e.action ≢ codes "Upsert" → e.action ≢ codes "Delete" → f' ≡ f

two_actions : codes "Upsert" ≢ codes "Delete"
two_actions e =
    let t : false ≡ true = (text_eq_iff (codes "Upsert") (codes "Delete")).1 e in absurd cc

module _ (clock : ℕ → ℕ) (f : RouteFetcher) (e : Event) (c : IsClean f.world) where
  upsert-Handled :
      e.action ≡ codes "Upsert"
      → has_colon e.route.log_guid ≡ false
      → Handled f (record f { world = register_route clock f.world e.route }) e
  upsert-Handled is_up plain =
      let (c', there, others, stay) = register_route_lem clock f.world e.route c plain in
      record {
        endpoints = refl;
        clean = c';
        upserts = λ h. there;
        deletes = λ h. absurd (two_actions (sym is_up ∙ h));
        others = others;
        ignores = λ h g. absurd (h is_up);
      }

  delete-Handled :
      e.action ≡ codes "Delete"
      → (w : World) × (unregister_route f.world e.route ≡ some w)
        × Handled f (record f { world = w }) e
  delete-Handled is_down =
      let (w, done, c', routes) = unregister_route_lem f.world e.route c in
      (
        w,
        done,
        record {
          endpoints = refl;
          clean = c';
          upserts = λ h. absurd (two_actions (sym h ∙ is_down));
          deletes =
              λ h (x, has, at). ((routes (key_path e.route.route) x).0 has).1 (inl (refl, at));
          others = λ ks x out. (λ h. ((routes ks x).0 h).0, λ h. (routes ks x).1 (h, out));
          ignores = λ h g. absurd (g is_down);
        },
      )

  other-Handled : e.action ≢ codes "Upsert" → e.action ≢ codes "Delete" → Handled f f e
  other-Handled not_up not_down = record {
    endpoints = refl;
    clean = c;
    upserts = λ h. absurd (not_up h);
    deletes = λ h. absurd (not_down h);
    others = λ ks x out. (λ h. h, λ h. h);
    ignores = λ h g. refl;
  }

  handle_event-Handled :
      has_colon e.route.log_guid ≡ false
      → (f' : RouteFetcher) × (handle_event clock f e ≡ some f') × Handled f f' e
  unfolding handle_event
  handle_event-Handled plain = elim (text_cases e.action (codes "Upsert")) [
    | inl is_up ↦
        let t = (text_eq_iff e.action (codes "Upsert")).1 is_up in
        (
          record f { world = register_route clock f.world e.route },
          ground (arith, t),
          upsert-Handled is_up plain,
        )
    | inr not_up ↦
        let t = text_ne e.action (codes "Upsert") not_up in
        elim (text_cases e.action (codes "Delete")) [
          | inl is_down ↦
              let (w, done, handled) = delete-Handled is_down in
              let u = (text_eq_iff e.action (codes "Delete")).1 is_down in
              (record f { world = w }, ground (arith, t, u, done), handled)
          | inr not_down ↦
              let u = text_ne e.action (codes "Delete") not_down in
              (f, ground (arith, t, u), other-Handled not_up not_down)
        ]
  ]

-- Where the registry and the messages so far are in order, and no guid has a colon: FetchRoutes
-- with a token and routes of the API does not panic, remembers these routes and has each of them
-- in the registry; of all other pairs of a path and an endpoint the registry has exactly those
-- that it had, without the ones that the fetcher remembered from before. Without a token, or if
-- the API answers an error, it changes nothing and reports an error. HandleEvent does not panic:
-- an Upsert has the route in the registry, a Delete has it there no more, no other route changes,
-- and any other action changes nothing at all.
pub route_fetcher_lem :
    (clock : ℕ → ℕ) (f : RouteFetcher) (vs : List ApiRoute) (e : Event)
    → IsClean f.world
    → ArePlain vs
    → has_colon e.route.log_guid ≡ false
    → ((f' : RouteFetcher) × (fetch_routes clock true (some vs) f ≡ some (f', false))
        × Refreshed f f' vs)
      × (fetch_routes clock false (some vs) f ≡ some (f, true))
      × (fetch_routes clock true none f ≡ some (f, true))
      × ((f' : RouteFetcher) × (handle_event clock f e ≡ some f') × Handled f f' e)
unfolding fetch_routes
route_fetcher_lem clock f vs e c plain guid =
    let (f', done, r) = refresh_endpoints-Refreshed clock f vs c plain in
    ((f', ground (arith, done), r), refl, refl, handle_event-Handled clock f e c guid)
