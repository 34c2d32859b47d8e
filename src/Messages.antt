-- ===== src/Messages.antt =====
-- router/registry_message.go and the handlers of router.register and router.unregister in
-- router/router.go, which turn a message into calls of the registry.
pub mod Domain
pub mod Handling
pub mod Table
pub mod Steps
pub mod Orders
mod Tests
use gorouter.Base.{
  ℕ, ◌+◌, List, [], ◌∷◌, Option, none, some, Bool, true, false, ◌||◌, Text, codes, text_eq, Map,
  if◌then◌else◌, strip_prefix,
}
use gorouter.Uri.{Uri}
use gorouter.Endpoint.{Endpoint, new_endpoint}
use gorouter.Registry.{Registry, register, unregister}

pub record RegistryMessage : Type 0 where
  pub host : Text
  pub port : ℕ
  pub uris : List Uri
  pub tags : Map Text
  pub app : Text
  pub stale_threshold_in_seconds : ℕ
  pub route_service_url : Text
  pub private_instance_id : Text

-- `ptr` is the identity of the new object.
unfoldable pub make_endpoint : RegistryMessage → ℕ → Endpoint
make_endpoint rm ptr =
    new_endpoint ptr rm.app rm.host rm.port rm.private_instance_id rm.tags
      rm.stale_threshold_in_seconds rm.route_service_url

abbrev has_prefix : Text → Text → Bool
has_prefix s p = elim (strip_prefix p s) [ none ↦ false | some rest ↦ true ]

unfoldable pub validate_message : RegistryMessage → Bool
validate_message rm =
    text_eq rm.route_service_url [] || has_prefix rm.route_service_url (codes "https")

-- The registry, the identity of the next object, and the reading of the clock that comes next.
pub record World : Type 0 where
  pub registry : Registry
  pub next_ptr : ℕ
  pub ticks : ℕ

-- One round of the loop over the URIs; Register reads the clock twice.
unfoldable pub register_uri : (ℕ → ℕ) → RegistryMessage → World → Uri → World
register_uri clock rm w uri = record {
  registry =
      register w.registry uri (make_endpoint rm w.next_ptr) (clock w.ticks) (clock (w.ticks + 1));
  next_ptr = w.next_ptr + 1;
  ticks = w.ticks + 2;
}

unfoldable pub register_uris : (ℕ → ℕ) → RegistryMessage → List Uri → World → World
register_uris clock rm [] w = w
register_uris clock rm (uri ∷ uris) w = register_uris clock rm uris (register_uri clock rm w uri)

unfoldable pub unregister_uris : RegistryMessage → List Uri → World → Option World
unregister_uris rm [] w = some w
unregister_uris rm (uri ∷ uris) w = elim (unregister w.registry uri (make_endpoint rm w.next_ptr)) [
  | none ↦ none
  | some r ↦ unregister_uris rm uris (record w { registry = r; next_ptr = w.next_ptr + 1 })
]

-- The callbacks of subscribeRegistry; the message is `none` where its JSON is not one.
unfoldable pub handle_register : (ℕ → ℕ) → World → Option RegistryMessage → World
handle_register clock w none = w
handle_register clock w (some rm) =
    if validate_message rm then register_uris clock rm rm.uris w else w

unfoldable pub handle_unregister : World → Option RegistryMessage → Option World
handle_unregister w none = some w
handle_unregister w (some rm) = elim (validate_message rm) [
  | true ↦ unregister_uris rm rm.uris w
  | false ↦ some w
]
