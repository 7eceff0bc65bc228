-- ===== src/Examples/Logins.antt =====
-- A login and the list of users at a concrete world.
use jeux_game_server.Prelude.{◌<◌, ◌≡◌, length, refl, inl, inr, some, none, [], ◌∷◌, arith}
use jeux_game_server.World.{Ptr, World, Player, Client, client_logged_in, update}
use jeux_game_server.Player.{player_initial_rating}
use jeux_game_server.Client.Object.{initial_client}
use jeux_game_server.Client.Session.{client_login}
use jeux_game_server.ClientRegistry.Players.{In}
use jeux_game_server.Client.Session.Login.{Known, LogsIn, client_login-LogsIn}
use jeux_game_server.Examples.Worlds.{start, alice, bob}

abbrev alice_player : Player
alice_player = record { name = alice; ref_count = 2; rating = player_initial_rating }

abbrev bob_player : Player
bob_player = record { name = bob; ref_count = 1; rating = player_initial_rating }

abbrev alice_client : Client
alice_client = record (initial_client 5) { player = some 1; logged_in = client_logged_in }

-- Two clients, the first of which is logged in as the first player.
abbrev one_logged_in : World
one_logged_in = record start {
  players = update (update start.players 1 (some alice_player)) 2 (some bob_player);
  clients = update (update start.clients 1 (some alice_client)) 2 (some (initial_client 6));
  client_registry = record start.client_registry {
    length = 2;
    clients = some 1 ∷ some 2 ∷ none ∷ [];
    login_queue = 62;
  };
}

from_some : {A : Type 0} → (x y : A) → some x ≡ some y → x ≡ y
from_some x y e = cc

entries :
    (p : Ptr)
    → In (some p) (some 1 ∷ some 2 ∷ [])
    → (d : Client) × (one_logged_in.clients p ≡ some d)
entries p (inl e) = (alice_client, rw (from_some p 1 e) refl)
entries p (inr (inl e)) = (initial_client 6, rw (from_some p 2 e) refl)
entries p (inr (inr i)) = absurd i

held :
    (p : Ptr)
    → Known one_logged_in 2 p
    → (x : Player) × (one_logged_in.players p ≡ some x) × (0 < x.ref_count)
held p (inl e) = (bob_player, rw e refl, omega arith)
held p (inr (inl e)) = (alice_player, rw e refl, omega arith)
held p (inr (inr i)) = absurd i

client_login-LogsIn_example :
    LogsIn one_logged_in 2 2 (initial_client 6) (client_login 2 2 one_logged_in)
client_login-LogsIn_example = client_login-LogsIn one_logged_in 2 2 (initial_client 6) (record {
  at = refl;
  unlocked = refl;
  out = refl;
  sem = omega arith;
  mutex = refl;
  grants = refl;
  entries = entries;
  held = held;
})
