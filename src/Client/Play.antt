-- ===== src/Client/Play.antt =====
-- src/client.c: post_player_results, client_resign_game and client_make_move.
use jeux_game_server.Prelude.{ℕ, not, Option, none, some, if◌then◌else◌, length}
use jeux_game_server.Prelude.Int.{pos}
use jeux_game_server.Game.{
  Role, first_player_role, role_eq, role_code, Status, success, failure, game_apply_move,
  game_is_over, game_get_winner,
}
use jeux_game_server.Game.Text.{Text, game_unparse_state, game_parse_move}
use jeux_game_server.Protocol.{int8, resigned_pkt, moved_pkt, ended_pkt}
use jeux_game_server.World.{
  Ptr, Invitation, M, pure, ◌>>=◌, ◌>>◌, present, load_game, store_game, load_invitation, sem_wait,
  sem_post, new_header,
}
use jeux_game_server.Player.{player_post_result}
use jeux_game_server.Invitation.{inv_close, inv_get_source, inv_get_target, inv_get_game}
use jeux_game_server.Client.Object.{client_get_player}
use jeux_game_server.Client.Packets.{client_send_packet}
use jeux_game_server.Client.Invites.{client_get_invitation, client_get_invitation_id}
use jeux_game_server.Client.Offers.{wait_op, leave, is_ptr, remove_both}

abbrev pub wait_elo : M (Unit {0})
wait_elo = sem_wait (λ s. s.update_elo) (λ n s. record s { update_elo = n })

abbrev pub post_elo : M (Unit {0})
post_elo = sem_post (λ s. s.update_elo) (λ n s. record s { update_elo = n })

-- The two players, in the order of their roles, and the result of the game as an int.
unfoldable pub post_players : Option Ptr → Option Ptr → Role → M Status
post_players (some p1) (some p2) winner = do
  player_post_result (some p1) (some p2) (pos (role_code winner))
  post_elo
  pure success
post_players _ _ winner = post_elo >> pure failure

unfoldable pub post_player_results : (client opponent : Ptr) (client_role winner : Role) → M Status
unfolding post_players
post_player_results client opponent client_role winner = do
  wait_elo
  let first = role_eq client_role first_player_role
  player1 ← client_get_player (some (if first then client else opponent))
  player2 ← client_get_player (some (if first then opponent else client))
  post_players player1 player2 winner

-- The part that a client has in an invitation: its role, its opponent and the opponent's role.
pub record Part : Type 0 where
  pub role : Role
  pub opponent : Ptr
  pub opp_role : Role

unfoldable pub take_part :
    Option Ptr → Option Ptr → (Invitation → Role) → (Invitation → Role) → M (Option Part)
take_part inv other mine theirs = do
  i ← load_invitation (← present inv)
  o ← present other
  pure (some (record { role = mine i; opponent = o; opp_role = theirs i }))

unfoldable pub part_of : Ptr → Option Ptr → M (Option Part)
part_of client inv = do
  source ← inv_get_source inv
  target ← inv_get_target inv
  if is_ptr source client
      then take_part inv target (λ i. i.source_role) (λ i. i.target_role)
      else if is_ptr target client
      then take_part inv source (λ i. i.target_role) (λ i. i.source_role)
      else pure none

module _ (again : Ptr → M Status) where
  -- The branch for a game that was resigned.
  unfoldable pub resign_closed : Ptr → Ptr → Part → M Status
  resign_closed client inv part = do
    opponent_id ← client_get_invitation_id (some part.opponent) inv
    header ← new_header resigned_pkt opponent_id 0 0
    ret ← client_send_packet part.opponent header none
    elim ret [
      | failure ↦ leave failure
      | success ↦ do
        posted ← post_player_results client part.opponent part.role part.opp_role
        elim posted [
          | failure ↦ leave failure
          | success ↦ remove_both again client part.opponent inv
        ]
    ]

  unfoldable pub client_resign_game : Ptr → ℕ → M Status
  client_resign_game client id = do
    wait_op
    inv ← client_get_invitation client id
    part ← part_of client inv
    elim part [
      | none ↦ leave failure
      | some part ↦ do
        closed ← inv_close inv part.role
        elim closed [
          | failure ↦ leave failure
          | success ↦ do i ← present inv; resign_closed client i part
        ]
    ]

  -- The game is over: both players are told, the result is posted, and the invitation is removed.
  unfoldable pub finish : Ptr → ℕ → Ptr → Ptr → Part → Option ℕ → M Status
  finish client id inv game part opponent_id = do
    g ← load_game game
    let winner = game_get_winner g
    header ← new_header ended_pkt opponent_id (role_code winner) 0
    told ← client_send_packet part.opponent header none
    elim told [
      | failure ↦ leave failure
      | success ↦ do
        told_self ← client_send_packet client (record header { id = int8 (some id) }) none
        elim told_self [
          | failure ↦ leave failure
          | success ↦ do
            _ ← post_player_results client part.opponent part.role winner
            remove_both again client part.opponent inv
        ]
    ]

  -- The move is on the board.
  unfoldable pub moved : Ptr → ℕ → Ptr → Ptr → Part → M Status
  moved client id inv game part = do
    g ← load_game game
    let state = game_unparse_state g
    opponent_id ← client_get_invitation_id (some part.opponent) inv
    header ← new_header moved_pkt opponent_id 0 (length state)
    ret ← client_send_packet part.opponent header (some state)
    elim ret [
      | failure ↦ leave failure
      | success ↦ do
        h ← load_game game
        store_game game (some (game_is_over h).0)
        if not (game_is_over h).1 then leave success else finish client id inv game part opponent_id
    ]

  -- Parsing the move and applying it.
  unfoldable pub try_move : Ptr → ℕ → Text → Ptr → Ptr → Part → M Status
  try_move client id move inv game part = do
    g ← load_game game
    elim (game_parse_move g part.role move) [
      | none ↦ leave failure
      | some m ↦ do
        store_game game (some (game_apply_move g m).0)
        elim (game_apply_move g m).1 [
          | failure ↦ leave failure
          | success ↦ moved client id inv game part
        ]
    ]

  unfoldable pub client_make_move : Ptr → ℕ → Text → M Status
  client_make_move client id move = do
    wait_op
    inv ← client_get_invitation client id
    game ← inv_get_game inv
    elim game [
      | none ↦ leave failure
      | some game ↦ do
        part ← part_of client inv
        elim part [
          | none ↦ leave failure
          | some part ↦ do i ← present inv; try_move client id move i game part
        ]
    ]
