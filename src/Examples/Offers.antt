-- ===== src/Examples/Offers.antt =====
-- An invitation at a concrete world.
use jeux_game_server.Prelude.{refl, some, none, [], ◌∷◌, arith}
use jeux_game_server.Game.{first_player_role, second_player_role}
use jeux_game_server.World.{World, Player, Client, Invitation, client_logged_in, update}
use jeux_game_server.Player.{player_initial_rating}
use jeux_game_server.Client.Object.{initial_client}
use jeux_game_server.Client.Ids.Entries.{IdsValid, length-ids_from, ids_from-Own, taken-ids_from}
use jeux_game_server.Client.Session.{client_logout}
use jeux_game_server.Client.Offers.Stuck.{Stuck, client_revoke_invitation-Stuck}
use jeux_game_server.Protocol.Send.{proto_send_packet-no_writes}
use jeux_game_server.Client.Offers.{
  client_revoke_invitation, client_make_invitation, client_decline_invitation,
  client_accept_invitation,
}
use jeux_game_server.Client.Offers.Making.{Makes, client_make_invitation-Makes}
use jeux_game_server.Client.Invites.{find_invitation, find_id}
use jeux_game_server.Invitation.{new_invitation}
use jeux_game_server.Client.Offers.Losing.{Declines, client_decline_invitation-Declines}
use jeux_game_server.Client.Offers.Undoing.{Undone, make-Undone}
use jeux_game_server.Client.Offers.Accepting.{Accepts, client_accept_invitation-Accepts}
use jeux_game_server.Examples.Worlds.{start, alice}

abbrev alice_player : Player
alice_player = record { name = alice; ref_count = 2; rating = player_initial_rating }

abbrev source_client : Client
source_client = record (initial_client 5) {
  player = some 1;
  logged_in = client_logged_in;
  ref_count = 1;
}

abbrev target_client : Client
target_client = record (initial_client 6) {
  player = some 2;
  logged_in = client_logged_in;
  ref_count = 1;
}

-- Two clients that are logged in.
abbrev two_logged_in : World
two_logged_in = record start {
  players = update start.players 1 (some alice_player);
  clients = update (update start.clients 1 (some source_client)) 2 (some target_client);
}

source_client-IdsValid : IdsValid source_client
source_client-IdsValid = record {
  size = length-ids_from 0 100;
  own = ids_from-Own 0 100;
  usage = taken-ids_from 0 100;
  room = omega arith;
}

target_client-IdsValid : IdsValid target_client
target_client-IdsValid = record {
  size = length-ids_from 0 100;
  own = ids_from-Own 0 100;
  usage = taken-ids_from 0 100;
  room = omega arith;
}

client_make_invitation-Makes_example :
    Makes 1 2 first_player_role second_player_role source_client target_client alice_player
      two_logged_in
      (client_make_invitation
        (client_logout 2)
        1
        2
        first_player_role
        second_player_role
        two_logged_in)
client_make_invitation-Makes_example =
    client_make_invitation-Makes (client_logout 2) two_logged_in 1 2 1 first_player_role
      second_player_role source_client target_client alice_player refl refl refl refl refl
      source_client-IdsValid target_client-IdsValid refl refl (omega arith) refl (omega arith)
      (omega arith)

make-Undone_example :
    Undone
      (client_logout 2)
      1
      2
      first_player_role
      second_player_role
      source_client
      target_client
      two_logged_in
      (client_make_invitation
        (client_logout 2)
        1
        2
        first_player_role
        second_player_role
        two_logged_in)
make-Undone_example =
    make-Undone (client_logout 2) two_logged_in 1 2 1 first_player_role second_player_role
      source_client target_client alice_player 0 0 refl refl refl refl refl source_client-IdsValid
      target_client-IdsValid refl refl refl refl (omega arith) refl refl (omega arith) (omega arith)

-- A client whose list holds the invitation at the address 1 under the ID 0.
abbrev with_invitation : Client → Client
with_invitation c = record c {
  ref_count = 2;
  available_ids = none ∷ some 1 ∷ [];
  id_usage = 1;
  current_id_size = 2;
  invite_head = record { id = some 0; invitation = 1 } ∷ [];
}

abbrev invitation : Invitation
invitation = record (new_invitation 1 2 first_player_role second_player_role) { ref_count = 2 }

abbrev one_offer : World
one_offer = record two_logged_in {
  clients =
      update (update start.clients 1 (some (with_invitation source_client))) 2
        (some (with_invitation target_client));
  invitations = update start.invitations 1 (some invitation);
}

-- The array of IDs of a client that holds one invitation.
source_in_order : IdsValid (with_invitation source_client)
source_in_order = record { size = refl; own = (refl, tt); usage = refl; room = omega arith }

target_in_order : IdsValid (with_invitation target_client)
target_in_order = record { size = refl; own = (refl, tt); usage = refl; room = omega arith }

client_decline_invitation-Declines_example :
    Declines 1 1 2
      (with_invitation source_client)
      (with_invitation target_client)
      0
      0
      one_offer
      (client_decline_invitation (client_logout 2) 2 0 one_offer)
unfolding find_invitation find_id
client_decline_invitation-Declines_example =
    client_decline_invitation-Declines (client_logout 2) one_offer 1 2 1
      (with_invitation source_client) (with_invitation target_client) invitation 0 0 0 0 refl refl
      refl refl refl source_in_order target_in_order refl refl refl refl refl (omega arith)
      (omega arith) refl (omega arith) (omega arith)

client_accept_invitation-Accepts_example :
    Accepts 1 1 2
      (with_invitation source_client)
      (with_invitation target_client)
      invitation
      0
      one_offer
      (client_accept_invitation 2 0 one_offer)
unfolding find_invitation find_id
client_accept_invitation-Accepts_example =
    client_accept_invitation-Accepts one_offer 1 2 1 (with_invitation source_client)
      (with_invitation target_client) invitation 0 0 refl refl refl refl refl refl refl refl refl
      (omega arith)

-- The same where nothing can be written.
abbrev no_writes : World
no_writes = record one_offer { writes = [] }

client_revoke_invitation-Stuck_example :
    Stuck
      (client_logout 2)
      1
      1
      2
      (with_invitation source_client)
      (with_invitation target_client)
      invitation
      0
      0
      no_writes
      (client_revoke_invitation (client_logout 2) 1 0 no_writes)
unfolding find_invitation find_id
client_revoke_invitation-Stuck_example =
    client_revoke_invitation-Stuck (client_logout 2) no_writes 1 2 1 (with_invitation source_client)
      (with_invitation target_client) invitation 0 0 refl refl refl refl refl refl refl refl
      (proto_send_packet-no_writes _ none) (omega arith)
