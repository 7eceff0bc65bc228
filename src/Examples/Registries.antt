-- ===== src/Examples/Registries.antt =====
-- The theorems about the client registry, logins and ratings at concrete worlds.
use jeux_game_server.Prelude.{◌≡◌, refl, true, none, some, ◌∷◌, [], arith}
use jeux_game_server.Prelude.Int.{negsuc}
use jeux_game_server.World.{
  World, Client, Run, ok, fault, blocked, client_logged_in, update, load_client, store_client,
  granted, calloc,
}
use jeux_game_server.Player.{drop_count}
use jeux_game_server.Client.Object.{
  initial_client, client_unref, lock_client, unlock_client, client_create, init_semaphores,
  client_ref,
}
use jeux_game_server.Client.Session.{client_logout, logout_step}
use jeux_game_server.ClientRegistry.{creg_init, creg_wait_for_empty, lock_registry, unlock_registry}
use jeux_game_server.ClientRegistry.Stale.{creg_wait_for_empty-returns}
use jeux_game_server.ClientRegistry.Membership.{
  creg_register, creg_unregister, unregister_at, find_entry, is_entry, remove_entry, shift,
  add_entry,
}
use jeux_game_server.ClientRegistry.Membership.Entering.{Registers, creg_register-Registers}
use jeux_game_server.ClientRegistry.Membership.Unregistering.{
  Unregistering, creg_unregister-Unregistering,
}
use jeux_game_server.ClientRegistry.Membership.Places.{
  creg_init-PlacesValid, PlacesValid, EndsValid, places-valid,
}
use jeux_game_server.Server.{user_line}
use jeux_game_server.Server.Printing.{Reads, user_line-Reads}
use jeux_game_server.Examples.Worlds.{start, bob}

-- A client that is registered and logged in, with a post of the semaphore left from before.
abbrev member : Client
member = record (initial_client 5) { ref_count = 1; logged_in = client_logged_in }

abbrev one_member : World
one_member = record start {
  clients = update start.clients 1 (some member);
  client_registry = record start.client_registry {
    sem = 1;
    length = 1;
    clients = some 1 ∷ none ∷ [];
    login_queue = 63;
  };
}

creg_register-Registers_example : Registers 7 start (creg_register 7 start)
unfolding creg_init
creg_register-Registers_example = creg_register-Registers start 7 refl refl

creg_unregister-Unregistering_example :
    Unregistering one_member 1 (creg_unregister 2 (some 1) one_member)
creg_unregister-Unregistering_example = creg_unregister-Unregistering 2 one_member 1 (omega arith)

start-PlacesValid : PlacesValid start.client_registry
unfolding creg_init
start-PlacesValid = creg_init-PlacesValid true true true true start.client_registry refl

places-valid_example : EndsValid (creg_register 7 start)
places-valid_example = (places-valid 2 start start-PlacesValid).0 7

-- What a run leaves, where it returns.
abbrev after : {A : Type 0} → Run A → World
after (ok a w) = w
after fault = start
after blocked = start

-- The one client has not logged in.
abbrev one_guest : World
one_guest = record one_member {
  clients = update start.clients 1 (some (record (initial_client 5) { ref_count = 1 }));
}

abbrev emptied : World
emptied = after (creg_unregister 2 (some 1) one_guest)

abbrev refilled : World
refilled = after (creg_register 7 emptied)

creg_wait_for_empty-returns_example :
    (refilled.client_registry.length ≡ 1)
    × (creg_wait_for_empty refilled
        ≡ ok tt (record refilled { client_registry = record refilled.client_registry { sem = 1 } }))
unfolding creg_unregister creg_register unregister_at find_entry is_entry remove_entry shift
    lock_registry unlock_registry client_logout logout_step client_unref drop_count lock_client
    unlock_client load_client store_client client_create init_semaphores granted calloc client_ref
    add_entry
creg_wait_for_empty-returns_example =
    creg_wait_for_empty-returns 2 one_guest emptied refilled 1 1 7 (omega arith) refl refl refl

user_line-Reads_example : Reads bob (negsuc 41) (user_line bob (negsuc 41))
user_line-Reads_example = user_line-Reads bob (negsuc 41)
