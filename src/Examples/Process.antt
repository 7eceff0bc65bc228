-- ===== src/Examples/Process.antt =====
-- The command line and the shutdown at concrete inputs.
use jeux_game_server.Prelude.{ℕ, ◌≡◌, refl, some, none, List, [], ◌∷◌}
use jeux_game_server.World.{World, ok, update}
use jeux_game_server.Client.Object.{initial_client}
use jeux_game_server.ClientRegistry.{creg_shutdown_all}
use jeux_game_server.ClientRegistry.Membership.{creg_register}
use jeux_game_server.Main.{Opt, option_processor}
use jeux_game_server.Main.Options.{Processing, option_processor-Processing}
use jeux_game_server.Main.Shutting.{closed_registry, creg_shutdown_all-closes}
use jeux_game_server.Examples.Worlds.{start}

-- -p 80 -p
abbrev line : List Opt
line =
    record { opt = b'p'; argument = some (b'8' ∷ b'0' ∷ []) }
    ∷ record { opt = b'p'; argument = none }
    ∷ []

option_processor-Processing_example : Processing line (option_processor line)
option_processor-Processing_example = option_processor-Processing line

-- Two clients that are registered, on the descriptors 5 and 6.
abbrev two_clients : World
two_clients = record start {
  clients = update (update start.clients 1 (some (initial_client 5))) 2 (some (initial_client 6));
  client_registry = record start.client_registry {
    length = 2;
    clients = some 1 ∷ some 2 ∷ none ∷ [];
    login_queue = 62;
  };
}

creg_shutdown_all-closes_example :
    (creg_shutdown_all two_clients ≡ ok tt (closed_registry two_clients))
    × ((fd : ℕ)
        → creg_register fd (closed_registry two_clients) ≡ ok none (closed_registry two_clients))
creg_shutdown_all-closes_example =
    creg_shutdown_all-closes two_clients refl
      ((initial_client 5, refl), ((initial_client 6, refl), tt))
