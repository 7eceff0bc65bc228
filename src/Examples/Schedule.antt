-- ===== src/Examples/Schedule.antt =====
-- A run of the server with one connection, and the theorem at it.
use jeux_game_server.Prelude.{◌≤◌, refl, true, none, [], ◌∷◌, length}
use jeux_game_server.World.{World, load_client, store_client, calloc, granted, new_header, send_on}
use jeux_game_server.Client.Object.{
  client_create, client_ref, lock_client, unlock_client, init_semaphores,
}
use jeux_game_server.Client.Packets.{client_send_nack}
use jeux_game_server.ClientRegistry.{creg_init, lock_registry, unlock_registry}
use jeux_game_server.ClientRegistry.Membership.{creg_register, add_entry}
use jeux_game_server.Server.Service.{dispatch, guarded}
use jeux_game_server.Server.Service.Schedule.{System, Step, accepted, served, Reach, start, later}
use jeux_game_server.Server.Service.Schedule.Reachable.{Boots, IsSound, Reach-IsSound}
use jeux_game_server.Examples.Worlds
use jeux_game_server.Examples.Worlds.{after}
use jeux_game_server.Examples.Sessions.{request}

-- One connection is accepted and asks for the users before it logs in.
abbrev one_client : World
one_client = after (creg_register 5 Worlds.start)

abbrev asked : World
asked = after (dispatch 1 none 1 (request 2) none one_client)

accept_one :
    Step 1
      (record { world = Worlds.start; connections = [] })
      (record {
        world = one_client;
        connections = record { client = 1; flag = none; cont = true } ∷ [];
      })
unfolding creg_register client_create client_ref lock_client unlock_client load_client store_client
    calloc granted init_semaphores lock_registry unlock_registry add_entry
accept_one = accepted 5 1 one_client refl refl

ask_one :
    Step 1
      (record {
        world = one_client;
        connections = record { client = 1; flag = none; cont = true } ∷ [];
      })
      (record { world = asked; connections = record { client = 1; flag = none; cont = true } ∷ [] })
unfolding creg_register client_create client_ref lock_client unlock_client load_client store_client
    calloc granted init_semaphores lock_registry unlock_registry add_entry dispatch guarded
    client_send_nack new_header send_on
ask_one = served [] [] 1 none none true (request 2) none asked refl refl refl

abbrev asked_system : System
asked_system = record {
  world = asked;
  connections = record { client = 1; flag = none; cont = true } ∷ [];
}

reach_asked : Reach 1 Worlds.start asked_system
reach_asked = later (later start accept_one) ask_one

start-Boots : Boots Worlds.start
unfolding creg_init
start-Boots = record { registry = refl; clients = λ p. refl }

Reach-IsSound_example : IsSound asked_system × (length asked_system.connections ≤ 64)
Reach-IsSound_example = Reach-IsSound 1 Worlds.start asked_system start-Boots reach_asked
