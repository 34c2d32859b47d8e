-- ===== src/Messages/Domain.antt =====
-- What holds of the registry while messages feed it. An address is a host and a port with a colon
-- between them; the instance ids are those that have no colon.
use gorouter.Base.{
  ℕ, ◌+◌, ◌<◌, ◌≡◌, ◌≢◌, ◌⊎◌, ◌↔◌, inl, inr, refl, ap, ◌∙◌, subst, List, [], ◌∷◌, ◌++◌, some, Bool,
  true, false, ◌||◌, Text, ◌==◌, arith, itoa,
}
use gorouter.Uri.{Uri}
use gorouter.Endpoint.{Endpoint, new_endpoint}
use gorouter.Pool.Invariant.{IsLive}
use gorouter.Registry.{Registry, unregister}
use gorouter.Registry.Routes.{key_path, pool_at, IsSound, HasRoute, IsFit}
use gorouter.Registry.Register.{register-HasRoute}
use gorouter.Registry.Unregister.{unregister-HasRoute}
use gorouter.Messages.{RegistryMessage, World, make_endpoint, register_uri}

abbrev pub has_colon : Text → Bool
has_colon [] = false
has_colon (c ∷ s) = c == b':' || has_colon s

has_colon-append : (s t : Text) → has_colon (s ++ b':' ∷ t) ≡ true
has_colon-append [] t = refl
has_colon-append (c ∷ s) t = ground (arith, has_colon-append s t)

abbrev pub address : RegistryMessage → Text
address rm = rm.host ++ b':' ∷ itoa rm.port

pub make_endpoint-fields :
    (rm : RegistryMessage) (ptr : ℕ)
    → ((make_endpoint rm ptr).addr ≡ address rm)
      × ((make_endpoint rm ptr).private_instance_id ≡ rm.private_instance_id)
      × ((make_endpoint rm ptr).ptr ≡ ptr)
unfolding make_endpoint new_endpoint
make_endpoint-fields rm ptr = (refl, refl, refl)

pub address-has_colon : (rm : RegistryMessage) → has_colon (address rm) ≡ true
address-has_colon rm = has_colon-append rm.host (itoa rm.port)

-- The endpoint is one that a message made, and older than the object `ptr`.
pub record IsOld (ptr : ℕ) (x : Endpoint) : Type 0 where
  pub in_addr : has_colon x.addr ≡ true
  pub in_id : has_colon x.private_instance_id ≡ false
  pub older : x.ptr < ptr

pub record IsClean (w : World) : Type 0 where
  pub sound : IsSound w.registry
  pub olds : (ks : List Text) (x : Endpoint) → HasRoute w.registry ks x → IsOld w.next_ptr x

-- The endpoint is in the registry, by its address.
abbrev pub Reaches : World → List Text → Text → Type 0
Reaches w ks a = (x : Endpoint) × HasRoute w.registry ks x × (x.addr ≡ a)

module _ (w : World) (uri : Uri) (c : IsClean w) where
  live-IsOld :
      (v s : ℕ)
      → pool_at w.registry (key_path uri) ≡ some v
      → IsLive (w.registry.pools v) s
      → IsOld w.next_ptr ((w.registry.pools v).heap s).endpoint
  live-IsOld v s at live =
      c.olds (key_path uri) ((w.registry.pools v).heap s).endpoint
        (v, _, _, at, (s, live, refl, refl, refl))

  module _ (rm : RegistryMessage) (id : has_colon rm.private_instance_id ≡ false) where
    abbrev e : Endpoint
    e = make_endpoint rm w.next_ptr

    e-IsOld : IsOld (w.next_ptr + 1) e
    e-IsOld =
        let (is_addr, is_id, is_ptr) = make_endpoint-fields rm w.next_ptr in
        record {
          in_addr = ap has_colon is_addr ∙ address-has_colon rm;
          in_id = ap has_colon is_id ∙ id;
          older = omega (arith, is_ptr);
        }

    e-IsFit : IsFit w.registry uri e
    e-IsFit = record {
      own = λ eq. ground (arith, e-IsOld.in_addr, e-IsOld.in_id);
      apart = λ v at. record {
        own = λ eq. ground (arith, e-IsOld.in_addr, e-IsOld.in_id);
        id_free =
            λ s live eq. let o = live-IsOld v s at live in ground (arith, o.in_addr, e-IsOld.in_id);
        addr_free =
            λ s live eq. let o = live-IsOld v s at live in ground (arith, o.in_id, e-IsOld.in_addr);
      };
      identified = λ v at s live same.
          let o = live-IsOld v s at live in
          let (_, _, is_ptr) = make_endpoint-fields rm w.next_ptr in
          absurd (omega (arith, o.older, same, is_ptr));
    }

    -- One round of the loop of router.register.
    pub register_uri-HasRoute :
        (clock : ℕ → ℕ)
        → IsClean (register_uri clock rm w uri)
          × ((ks : List Text) (x : Endpoint)
              → HasRoute (register_uri clock rm w uri).registry ks x ↔ (
                  ((ks ≡ key_path uri) × (x ≡ e))
                  ⊎ (HasRoute w.registry ks x × (ks ≡ key_path uri → x.addr ≢ e.addr))))
    unfolding register_uri
    register_uri-HasRoute clock =
        let (sound, routes) =
          register-HasRoute w.registry uri e (clock w.ticks) (clock (w.ticks + 1)) c.sound
            e-IsFit in
        (
          record {
            sound = sound;
            olds = λ ks x h. elim ((routes ks x).0 h) [
              | inl (_, is_e) ↦ rw is_e e-IsOld
              | inr (before, _) ↦
                  let o = c.olds ks x before in
                  record { in_addr = o.in_addr; in_id = o.in_id; older = omega (arith, o.older) }
            ];
          },
          routes,
        )

  -- One round of the loop of router.unregister.
  pub unregister-World :
      (rm : RegistryMessage)
      → (r : Registry) × (unregister w.registry uri (make_endpoint rm w.next_ptr) ≡ some r)
        × IsClean (record w { registry = r; next_ptr = w.next_ptr + 1 })
        × ((ks : List Text) (x : Endpoint)
            → HasRoute r ks x
              ↔ (HasRoute w.registry ks x × (ks ≡ key_path uri → x.addr ≢ address rm)))
  unregister-World rm =
      let (is_addr, _, _) = make_endpoint-fields rm w.next_ptr in
      let (r, done, sound, routes) =
        unregister-HasRoute w.registry uri (make_endpoint rm w.next_ptr) c.sound (λ v at s live eq.
          let o = live-IsOld v s at live in
          let colon = address-has_colon rm in ground (arith, o.in_id)) in
      (
        r,
        done,
        record {
          sound = sound;
          olds = λ ks x h.
              let o = c.olds ks x ((routes ks x).0 h).0 in
              record { in_addr = o.in_addr; in_id = o.in_id; older = omega (arith, o.older) };
        },
        λ ks x.
            subst
              (λ a. HasRoute r ks x ↔ (HasRoute w.registry ks x × (ks ≡ key_path uri → x.addr ≢ a)))
              is_addr (routes ks x),
      )
