-- ===== src/Messages/Tests.antt =====
-- Messages of one application, on which the handlers are run and the theorems applied.
use gorouter.Base.{
  ℕ, ◌+◌, ◌≡◌, ◌≢◌, refl, List, false, text_eq_iff, [], ◌∷◌, Option, none, some, true, Text, codes,
  itoa, itoa_loop, map_get, map_put, map_delete, cut, trim_prefix, trim_suffix, strip_prefix, lower,
  to_lower,
}
use gorouter.Uri.{uri_string, uri_to_lower, route_key}
use gorouter.Endpoint.{new_endpoint}
use gorouter.Pool.{
  new_pool, put, put_new, put_again, write, remove, remove_endpoint, move_last, is_empty,
}
use gorouter.Trie
use gorouter.Trie.{
  new_trie, find, find_path, walk, insert, insert_path, delete, delete_empty_nodes, clear_path,
  scan, mark, detach, remove_child, path_of, segments, get, pool_count,
}
use gorouter.Registry.{
  new_registry, write_pool, add_pool, pool_for, register, unregister, delete_if_empty, num_uris,
}
use gorouter.Messages.{
  RegistryMessage, World, make_endpoint, validate_message, register_uri, register_uris,
  unregister_uris, handle_register, handle_unregister,
}
use gorouter.Messages.Domain.{IsClean, address}
use gorouter.Messages.Table.{PlainMessage, SameTable}
use gorouter.Messages.Steps.{Step, announce, withdraw}
use gorouter.Messages.Orders.{both_done, first, second, AreForeign, run_steps, run_steps-SameTable}
use gorouter.Messages.Handling.{
  Registers, Unregisters, start, start-IsClean, handle_register-Registers,
  handle_unregister-Unregisters,
}

abbrev app : Text → RegistryMessage
app url = record {
  host = codes "10.0.0.1";
  port = 80;
  uris = codes "foo.com" ∷ codes "foo.com/a" ∷ [];
  tags = [];
  app = codes "app";
  stale_threshold_in_seconds = 0;
  route_service_url = url;
  private_instance_id = codes "id";
}

abbrev clock : ℕ → ℕ
clock n = 100 + n

abbrev fed : World
fed = handle_register clock (start 120) (some (app []))

app-validate_message : validate_message (app []) ≡ true
unfolding validate_message
app-validate_message = refl

-- Such a message changes nothing.
http_refused : (w : World) → handle_register clock w (some (app (codes "http://x"))) ≡ w
unfolding handle_register validate_message strip_prefix
http_refused w = refl

uris_of : Option World → ℕ
uris_of none = 0
uris_of (some w) = num_uris w.registry

abbrev Runs : Type 0
Runs = (num_uris fed.registry ≡ 2) × (uris_of (handle_unregister fed (some (app []))) ≡ 0)

all_Runs : Runs
unfolding uris_of handle_register handle_unregister validate_message register_uris register_uri
    unregister_uris make_endpoint new_endpoint itoa itoa_loop num_uris pool_count Trie.each
    new_registry register unregister delete_if_empty pool_for add_pool write_pool find find_path
    walk insert insert_path delete delete_empty_nodes clear_path scan mark detach remove_child
    is_empty new_trie path_of segments get Trie.put Trie.remove uri_string uri_to_lower route_key
    to_lower lower cut trim_prefix trim_suffix strip_prefix new_pool put put_new put_again remove
    remove_endpoint move_last write map_get map_put map_delete
all_Runs = (refl, refl)

handle_register-Registers_example :
    Registers (app []) (app []).uris (start 120) (handle_register clock (start 120) (some (app [])))
handle_register-Registers_example =
    handle_register-Registers clock (start 120) (app []) (start-IsClean 120) refl
      app-validate_message

fed-IsClean : IsClean fed
fed-IsClean =
    (handle_register-Registers clock (start 120) (app []) (start-IsClean 120) refl
      app-validate_message).clean

handle_unregister-Unregisters_example :
    (w' : World) × (handle_unregister fed (some (app [])) ≡ some w')
    × Unregisters (app []) (app []).uris fed w'
handle_unregister-Unregisters_example =
    handle_unregister-Unregisters fed (app []) fed-IsClean app-validate_message

-- Two instances of one application, whose messages come in two orders.
abbrev instance_at : ℕ → PlainMessage
instance_at port = (record (app []) { port = port }, refl)

abbrev of_first : List Step
of_first = announce clock (instance_at 80) ∷ withdraw (instance_at 80) ∷ []

abbrev of_second : List Step
of_second = announce clock (instance_at 81) ∷ []

senders-AreForeign : AreForeign of_first of_second
unfolding itoa itoa_loop
senders-AreForeign =
    let apart : address (instance_at 81).0 ≢ address (instance_at 80).0 = λ e.
      let t : false ≡ true =
        (text_eq_iff (address (instance_at 81).0) (address (instance_at 80).0)).1 e in
      absurd cc in
    ((apart, (apart, tt)), tt)

run_steps-SameTable_example :
    SameTable
      (run_steps
        (announce clock (instance_at 80)
          ∷ announce clock (instance_at 81)
          ∷ withdraw (instance_at 80)
          ∷ [])
        (start 120, start-IsClean 120))
      (run_steps
        (announce clock (instance_at 81)
          ∷ announce clock (instance_at 80)
          ∷ withdraw (instance_at 80)
          ∷ [])
        (start 120, start-IsClean 120))
run_steps-SameTable_example =
    run_steps-SameTable of_first of_second
      (announce clock (instance_at 80)
        ∷ announce clock (instance_at 81)
        ∷ withdraw (instance_at 80)
        ∷ [])
      (announce clock (instance_at 81)
        ∷ announce clock (instance_at 80)
        ∷ withdraw (instance_at 80)
        ∷ [])
      (start 120, start-IsClean 120) senders-AreForeign
      (first (announce clock (instance_at 80))
        (second (announce clock (instance_at 81)) (first (withdraw (instance_at 80)) both_done)))
      (second (announce clock (instance_at 81))
        (first (announce clock (instance_at 80)) (first (withdraw (instance_at 80)) both_done)))
