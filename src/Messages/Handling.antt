-- ===== src/Messages/Handling.antt =====
-- What a message does to the routes.
use gorouter.Base.{
  ℕ, ◌+◌, ◌≡◌, ◌≢◌, ◌⊎◌, ◌↔◌, inl, inr, refl, ◌∙◌, List, [], ◌∷◌, some, true, false, Text, arith,
  Bool-cases,
}
use gorouter.Uri.{Uri}
use gorouter.Endpoint.{Endpoint}
use gorouter.Trie.Find.{path_eq, path_eq_iff, find_path-new_trie}
use gorouter.Registry.{new_registry}
use gorouter.Registry.Routes.{key_path, HasRoute, new_registry-IsSound}
use gorouter.Messages.{
  RegistryMessage, World, make_endpoint, validate_message, register_uri, register_uris,
  unregister_uris, handle_register, handle_unregister,
}
use gorouter.Messages.Domain.{
  has_colon, address, make_endpoint-fields, IsClean, register_uri-HasRoute, unregister-World,
}

-- One of the URIs has the path.
abbrev pub Names : List Uri → List Text → Type 0
Names [] ks = ⊥
Names (uri ∷ uris) ks = (ks ≡ key_path uri) ⊎ Names uris ks

-- The endpoint is one that the message announces.
abbrev pub Announces : RegistryMessage → Endpoint → Type 0
Announces rm x = (ptr : ℕ) × (x ≡ make_endpoint rm ptr)

-- What `w'` has instead of `w` after the message was handled for the URIs.
pub record Registers (rm : RegistryMessage) (uris : List Uri) (w w' : World) : Type 0 where
  pub clean : IsClean w'
  pub named :
      (ks : List Text) → Names uris ks → (x : Endpoint) × HasRoute w'.registry ks x × Announces rm x
  pub others :
      (ks : List Text) (x : Endpoint)
      → x.addr ≢ address rm
      → HasRoute w'.registry ks x ↔ HasRoute w.registry ks x
  pub elsewhere :
      (ks : List Text) (x : Endpoint)
      → ¬ Names uris ks
      → HasRoute w'.registry ks x ↔ HasRoute w.registry ks x

module _ (clock : ℕ → ℕ) (rm : RegistryMessage)
    (id : has_colon rm.private_instance_id ≡ false) where
  announced_addr : (x : Endpoint) → Announces rm x → x.addr ≡ address rm
  announced_addr x (ptr, is_x) = ground (arith, make_endpoint-fields rm ptr)

  -- A route to the message's address stays, for an old or a new object.
  announced_once :
      (uri : Uri) (w : World) (ks : List Text) (x : Endpoint)
      → IsClean w
      → HasRoute w.registry ks x
      → Announces rm x
      → (y : Endpoint) × HasRoute (register_uri clock rm w uri).registry ks y × Announces rm y
  announced_once uri w ks x c h a =
      let (_, routes) = register_uri-HasRoute w uri c rm id clock in
      elim (Bool-cases (path_eq ks (key_path uri))) [
        | inl same ↦ (
          make_endpoint rm w.next_ptr,
          (routes ks (make_endpoint rm w.next_ptr)).1
              (inl ((path_eq_iff ks (key_path uri)).0 same, refl)),
          (w.next_ptr, refl),
        )
        | inr differ ↦ (
          x,
          (routes ks x).1 (inr (h, λ eq. absurd (ground (arith, path_eq_iff ks (key_path uri))))),
          a,
        )
      ]

  announced_still :
      (uris : List Uri) (w : World) (ks : List Text) (x : Endpoint)
      → IsClean w
      → HasRoute w.registry ks x
      → Announces rm x
      → (y : Endpoint) × HasRoute (register_uris clock rm uris w).registry ks y × Announces rm y
  unfolding register_uris
  announced_still [] w ks x c h a = (x, h, a)
  announced_still (uri ∷ uris) w ks x c h a =
      let (y, h', a') = announced_once uri w ks x c h a in
      announced_still uris (register_uri clock rm w uri) ks y
        (register_uri-HasRoute w uri c rm id clock).0 h' a'

  register_uris-Registers :
      (uris : List Uri) (w : World)
      → IsClean w
      → Registers rm uris w (register_uris clock rm uris w)
  unfolding register_uris
  register_uris-Registers [] w c = record {
    clean = c;
    named = λ ks nowhere. absurd nowhere;
    others = λ ks x ne. (λ h. h, λ h. h);
    elsewhere = λ ks x ne. (λ h. h, λ h. h);
  }
  register_uris-Registers (uri ∷ uris) w c =
      let (c', routes) = register_uri-HasRoute w uri c rm id clock in
      let w' = register_uri clock rm w uri in
      let rest = register_uris-Registers uris w' c' in
      let e = make_endpoint rm w.next_ptr in
      let is_addr : e.addr ≡ address rm = (make_endpoint-fields rm w.next_ptr).0 in
      record {
        clean = rest.clean;
        named = λ ks o. elim o [
          | inl here ↦
              announced_still uris w' ks e c' ((routes ks e).1 (inl (here, refl)))
                (w.next_ptr, refl)
          | inr later ↦ rest.named ks later
        ];
        others = λ ks x ne. (
          λ h. elim ((routes ks x).0 ((rest.others ks x ne).0 h)) [
            | inl (_, is_e) ↦ absurd (ne (ground arith))
            | inr (before, _) ↦ before
          ],
          λ h. (rest.others ks x ne).1 ((routes ks x).1 (inr (h, λ _ eq. ne (eq ∙ is_addr)))),
        );
        elsewhere = λ ks x ne. (
          λ h. elim ((routes ks x).0 ((rest.elsewhere ks x (λ o. ne (inr o))).0 h)) [
            | inl (here, _) ↦ absurd (ne (inl here))
            | inr (before, _) ↦ before
          ],
          λ h.
              (rest.elsewhere ks x (λ o. ne (inr o))).1
                ((routes ks x).1 (inr (h, λ here. absurd (ne (inl here))))),
        );
      }

-- After a valid router.register, from a world whose registry is sound and holds only endpoints of
-- earlier messages without a colon in their instance id, and for a message whose instance id has
-- none: the path of every URI of the message has a route to an endpoint that the message makes,
-- the routes to other addresses and those of paths that the message does not name are as before,
-- and the world is again such a one.
pub handle_register-Registers :
    (clock : ℕ → ℕ) (w : World) (rm : RegistryMessage)
    → IsClean w
    → has_colon rm.private_instance_id ≡ false
    → validate_message rm ≡ true
    → Registers rm rm.uris w (handle_register clock w (some rm))
unfolding handle_register
handle_register-Registers clock w rm c id valid =
    rw valid (register_uris-Registers clock rm id rm.uris w c)

-- What router.unregister leaves.
abbrev pub Unregisters : RegistryMessage → List Uri → World → World → Type 0
Unregisters rm uris w w' =
    IsClean w'
    × ((ks : List Text) (x : Endpoint)
        → HasRoute w'.registry ks x
          ↔ (HasRoute w.registry ks x × (Names uris ks → x.addr ≢ address rm)))

unregister_uris-Unregisters :
    (rm : RegistryMessage) (uris : List Uri) (w : World)
    → IsClean w
    → (w' : World) × (unregister_uris rm uris w ≡ some w') × Unregisters rm uris w w'
unfolding unregister_uris
unregister_uris-Unregisters rm [] w c =
    (w, refl, (c, λ ks x. (λ h. (h, λ nowhere. absurd nowhere), λ h. h.0)))
unregister_uris-Unregisters rm (uri ∷ uris) w c =
    let (r, done, c', routes) = unregister-World w uri c rm in
    let (w', rest, (clean, later)) =
      unregister_uris-Unregisters rm uris (record w { registry = r; next_ptr = w.next_ptr + 1 })
        c' in
    (
      w',
      ground arith,
      (
        clean,
        λ ks x. (
          λ h.
              let (h', other) = (later ks x).0 h in
              let (h'', here) = (routes ks x).0 h' in
              (h'', λ o. elim o [ inl at ↦ here at | inr after ↦ other after ]),
          λ (h, ne).
              (later ks x).1 ((routes ks x).1 (h, λ at. ne (inl at)), λ after. ne (inr after)),
        ),
      ),
    )

-- A valid router.unregister makes no panic, from a world whose registry is sound and holds only
-- endpoints of earlier messages without a colon in their instance id. It takes away exactly the
-- routes from the paths of the message's URIs to the message's address, and the world is again
-- such a one.
pub handle_unregister-Unregisters :
    (w : World) (rm : RegistryMessage)
    → IsClean w
    → validate_message rm ≡ true
    → (w' : World) × (handle_unregister w (some rm) ≡ some w') × Unregisters rm rm.uris w w'
unfolding handle_unregister
handle_unregister-Unregisters w rm c valid =
    let (w', done, rest) = unregister_uris-Unregisters rm rm.uris w c in
    (w', ground (arith, done), rest)

-- The world in which the router starts.
abbrev pub start : ℕ → World
start threshold = record { registry = new_registry threshold; next_ptr = 0; ticks = 0 }

pub start-IsClean : (threshold : ℕ) → IsClean (start threshold)
unfolding new_registry
start-IsClean threshold = record {
  sound = new_registry-IsSound threshold;
  olds = λ ks x (v, t, f, at, c). absurd (ground (arith, find_path-new_trie {V = ℕ} ks));
}
