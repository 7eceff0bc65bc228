-- ===== src/Examples/Objects.antt =====
-- The theorems about IDs, invitations, registries and clients at concrete objects.
use jeux_game_server.Prelude.{
  ℕ, zero, suc, ◌≤◌, ◌≡◌, refl, ◌⊎◌, true, false, none, some, [], ◌∷◌, arith, take,
}
use jeux_game_server.Game.{first_player_role, second_player_role}
use jeux_game_server.World.{
  World, Client, Invitation, ClientRegistry, accepted_state, client_logged_out, update,
}
use jeux_game_server.World.Keeps.{Ends}
use jeux_game_server.Invitation.{inv_close, inv_accept, new_invitation}
use jeux_game_server.Invitation.States.{
  Closing, inv_close-Closing, Accepting, inv_accept-Accepting, first_game,
}
use jeux_game_server.Client.Ids.{allot_id, get_available_id, free_id}
use jeux_game_server.Client.Ids.Entries.{IdsValid}
use jeux_game_server.Client.Ids.Allot.{with_room, free_id-next}
use jeux_game_server.Client.Ids.Least.{GivesId, get_available_id-GivesId}
use jeux_game_server.Client.Invites.{client_add_invitation, client_get_invitation}
use jeux_game_server.Client.Invites.Adding.{Adds, client_add_invitation-Adds}
use jeux_game_server.Client.Play.{client_make_move}
use jeux_game_server.Client.Session.{client_logout}
use jeux_game_server.Client.Outside.{SameOp}
use jeux_game_server.World.{closed_state}
use jeux_game_server.Client.Offers.{client_accept_invitation}
use jeux_game_server.Client.Balance.Agreement.{StaysAgreed, operations-StaysAgreed}
use jeux_game_server.Client.Lists.{mark, uses}
use jeux_game_server.Client.Lists.Lookup.{Agrees}
use jeux_game_server.Client.Lists.Finding.{FindsNode, client_get_invitation-FindsNode}
use jeux_game_server.Client.Balance.Closed.{StaysDead, operations-StaysDead}
use jeux_game_server.Client.Balance.Logout.{operations-balanced}
use jeux_game_server.ClientRegistry.{registered}
use jeux_game_server.ClientRegistry.Membership.{find_entry, remove_entry}
use jeux_game_server.ClientRegistry.Membership.Entries.{contains, erase, remove_entry-erase}
use jeux_game_server.Examples.Worlds.{start, last_move_world}

-- A client whose two IDs are in use, and one with the ID 1 free.
abbrev busy : Client
busy = record {
  lock = false;
  fd = 5;
  ref_count = 1;
  player = none;
  logged_in = client_logged_out;
  available_ids = none ∷ none ∷ [];
  id_usage = 2;
  current_id_size = 2;
  invite_head = [];
}

busy-IdsValid : IdsValid busy
busy-IdsValid = record { size = refl; own = tt; usage = refl; room = omega arith }

free_id-next_example :
    IdsValid (free_id busy 1)
    × ((next : ℕ) × ((allot_id (with_room (free_id busy 1))).0 ≡ some next) × (next ≤ 1))
free_id-next_example = free_id-next busy 1 busy-IdsValid (omega arith) refl

abbrev offered : Invitation
offered = record (new_invitation 1 2 first_player_role second_player_role) { ref_count = 2 }

abbrev playing : Invitation
playing = record offered { state = accepted_state; game = some 4 }

-- The same two clients with an offer at 3, and with a game at 4.
abbrev offer_world : World
offer_world = record start { invitations = update start.invitations 3 (some offered); fresh = 5 }

abbrev game_world : World
game_world = record offer_world {
  invitations = update start.invitations 3 (some playing);
  games = update start.games 4 (some first_game);
}

-- The busy client is to be sent the offer.
abbrev busy_world : World
busy_world = record offer_world { clients = update start.clients 1 (some busy) }

get_available_id-GivesId_example : GivesId 1 busy busy_world (get_available_id 1 busy_world)
get_available_id-GivesId_example =
    get_available_id-GivesId busy_world 1 busy refl refl refl busy-IdsValid

client_add_invitation-Adds_example : Adds 1 3 busy busy_world (client_add_invitation 1 3 busy_world)
client_add_invitation-Adds_example =
    client_add_invitation-Adds busy_world 1 3 busy offered refl refl busy-IdsValid refl refl
      (omega arith)

inv_close-Closing_example :
    Closing game_world 3 playing second_player_role
      (inv_close (some 3) second_player_role game_world)
inv_close-Closing_example = inv_close-Closing game_world 3 playing second_player_role refl

inv_accept-Accepting_example : Accepting offer_world 3 offered (inv_accept (some 3) offer_world)
inv_accept-Accepting_example = inv_accept-Accepting offer_world 3 offered refl refl

-- Three clients in an array of four places.
abbrev three : ClientRegistry
three = record start.client_registry { length = 3; clients = some 1 ∷ some 2 ∷ some 3 ∷ none ∷ [] }

remove_entry-erase_example :
    ((i : ℕ) × (find_entry 3 0 three.clients 2 ≡ some i)
      × (contains 2 (registered three) ≡ true)
      × (take 2 (remove_entry three i) ≡ erase 2 (registered three)))
    ⊎ ((find_entry 3 0 three.clients 2 ≡ none) × (contains 2 (registered three) ≡ false))
remove_entry-erase_example = remove_entry-erase three 2 (omega arith)

operations-balanced_example :
    Ends SameOp last_move_world (client_make_move (client_logout 2) 1 0 (b'3' ∷ []) last_move_world)
operations-balanced_example = ((operations-balanced 2).5 1 0 (b'3' ∷ [])).run last_move_world

operations-StaysAgreed_example :
    Ends StaysAgreed last_move_world
      (client_make_move (client_logout 2) 1 0 (b'3' ∷ []) last_move_world)
operations-StaysAgreed_example = ((operations-StaysAgreed 2).5 1 0 (b'3' ∷ [])).run last_move_world

-- A client with one invitation, under the ID 1.
abbrev holder : Client
holder = record busy {
  available_ids = some 0 ∷ none ∷ [];
  id_usage = 1;
  invite_head = record { id = some 1; invitation = 3 } ∷ [];
}

holder-Agrees : Agrees holder
holder-Agrees = record {
  ids = record { size = refl; own = (refl, tt); usage = refl; room = omega arith };
  named = ((1, refl), tt);
  same = one_used;
}
  where
    one_used : (id : ℕ) → uses holder.invite_head id ≡ mark holder.available_ids id
    one_used zero = refl
    one_used (suc zero) = refl
    one_used (suc (suc id)) = ground arith

abbrev holder_world : World
holder_world = record offer_world { clients = update start.clients 1 (some holder) }

client_get_invitation-FindsNode_example :
    FindsNode 1 holder holder_world (client_get_invitation 1 1 holder_world)
client_get_invitation-FindsNode_example =
    client_get_invitation-FindsNode holder_world 1 holder 1 refl refl holder-Agrees

-- The offer of the world above, once it is revoked.
abbrev closed_world : World
closed_world = record offer_world {
  invitations = update start.invitations 3 (some (record offered { state = closed_state }));
}

operations-StaysDead_example :
    Ends StaysDead closed_world (client_accept_invitation 2 0 closed_world)
operations-StaysDead_example = ((operations-StaysDead 2).3 2 0).run closed_world
