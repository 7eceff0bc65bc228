-- ===== src/Examples/Sessions.antt =====
-- The theorems about connections and names at concrete worlds.
use jeux_game_server.Prelude.{
  ℕ, ◌≡◌, refl, inl, inr, none, some, List, [], ◌∷◌, Option, sym, ◌∙◌, arith,
}
use jeux_game_server.Game.Text.{Text}
use jeux_game_server.Protocol.{Header}
use jeux_game_server.World.{Ptr, World, Player, update}
use jeux_game_server.Player.{player_initial_rating}
use jeux_game_server.PlayerRegistry.{preg_register}
use jeux_game_server.PlayerRegistry.Search.{In}
use jeux_game_server.PlayerRegistry.Names.{NamesValid, Registered, preg_register-Registered}
use jeux_game_server.Client.Object.{initial_client}
use jeux_game_server.Server.Service.{service_loop}
use jeux_game_server.Server.Service.Guest.{IdlesIn, guest-Idles}
use jeux_game_server.Examples.Worlds.{start, alice, bob}

-- A client that has just connected.
abbrev guest_world : World
guest_world = record start { clients = update start.clients 1 (some (initial_client 5)) }

abbrev pub request : ℕ → Header
request type = record {
  type = type;
  id = 0;
  role = 0;
  size = 0;
  timestamp_sec = 0;
  timestamp_nsec = 0;
}

-- USERS, REVOKE, a type that is none, and NO_PKT.
abbrev requests : List (Header × Option Text)
requests = (request 2, none) ∷ (request 4, none) ∷ (request 99, none) ∷ (request 0, none) ∷ []

guest-Idles_example : IdlesIn guest_world (service_loop 1 none 1 requests guest_world)
guest-Idles_example =
    guest-Idles 0 1 requests guest_world (initial_client 5) refl refl refl
      (refl, (refl, (refl, (refl, tt))))

abbrev alice_player : Player
alice_player = record { name = alice; ref_count = 1; rating = player_initial_rating }

-- A registry with one player.
abbrev alice_world : World
alice_world = record start {
  players = update start.players 1 (some alice_player);
  fresh = 2;
  player_registry = record { nodes = 1 ∷ []; length = 1 };
}

only : (p : Ptr) → In p (1 ∷ []) → p ≡ 1
only p (inl e) = e
only p (inr i) = absurd i

alice_world-NamesValid : NamesValid alice_world
alice_world-NamesValid = record {
  live = λ p i. (alice_player, rw (only p i) refl);
  old = λ p i. rw (only p i) (omega arith);
  distinct = λ p q x y i j l k e. only p i ∙ sym (only q j);
}

preg_register-Registered_example : Registered bob (preg_register bob alice_world)
preg_register-Registered_example =
    preg_register-Registered alice_world bob alice_world-NamesValid refl
