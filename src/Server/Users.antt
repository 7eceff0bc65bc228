-- ===== src/Server/Users.antt =====
-- src/server.c: what process_users answers.
use jeux_game_server.Prelude.{◌≡◌, some, List, [], ◌∷◌, ◌++◌}
use jeux_game_server.Prelude.Int.{ℤ}
use jeux_game_server.Game.{Status, success, failure}
use jeux_game_server.Game.Text.{Text}
use jeux_game_server.Protocol.{Sending}
use jeux_game_server.World.{Ptr, Player, Client, World, Run, ok, fault, blocked}
use jeux_game_server.World.Changing.{Holds}
use jeux_game_server.Client.Offers.Touching.{unlocked}
use jeux_game_server.Client.Session.Login.{name_of, refs_of, rating_of, logged_players}
use jeux_game_server.ClientRegistry.Players.{In, Watched}
use jeux_game_server.Client.Packets.Going.{Goes}
use jeux_game_server.Server.{line_text}

-- A line for each player of a list.
abbrev pub listing : (Ptr → Text) → (Ptr → ℤ) → List Ptr → Text
listing names ratings [] = []
listing names ratings (p ∷ ps) = line_text (names p) (ratings p) ++ listing names ratings ps

-- The text that lists the players of the registered clients.
abbrev pub all_users : World → Text
all_users w = listing (name_of w) (rating_of w) (logged_players w)

-- The answer to the request: the text, or the part of it that could be written.
abbrev pub Answers : World → Ptr → Client → Run Status → Type 0
Answers w client c (ok success w') =
    Holds w'.clients w.clients client (unlocked c)
    × ((p : Sending) × Goes c.fd 9 0 0 (some (all_users w)) p w.sent w'.sent)
    × Watched (λ q. In q (logged_players w)) (name_of w) (refs_of w) (rating_of w) w'.players
        (λ q. 0)
    × (w'.semaphores ≡ w.semaphores)
    × (w'.client_registry ≡ w.client_registry)
Answers w client c (ok failure w') = ⊥
Answers w client c fault = ⊥
Answers w client c blocked = ⊥
