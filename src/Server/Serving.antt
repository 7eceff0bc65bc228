-- ===== src/Server/Serving.antt =====
-- src/server.c: what every request keeps, whatever the packet and whoever the client.
use jeux_game_server.Prelude.{ℕ, true, false, Option, none, some, List, [], ◌∷◌, ◌++◌, ◌==◌, length}
use jeux_game_server.Game.{Role, first_player_role, second_player_role, Status, success, failure}
use jeux_game_server.Game.Text.{Text}
use jeux_game_server.Protocol.{
  Header, type_code, login_pkt, users_pkt, invite_pkt, revoke_pkt, accept_pkt, decline_pkt,
  move_pkt, resign_pkt, no_pkt,
}
use jeux_game_server.World.{Ptr, M, ◌>>=◌}
use jeux_game_server.World.Keeps.{Keeps, branch}
use jeux_game_server.Player.{player_get_rating}
use jeux_game_server.Client.Packets.{client_send_ack, client_send_nack}
use jeux_game_server.Client.Offers.{client_make_invitation}
use jeux_game_server.Client.Session.{client_logout}
use jeux_game_server.Client.Outside.{SameOp}
use jeux_game_server.Client.Balance.{same_rules, player_unref-Same, new_header-Same}
use jeux_game_server.Client.Balance.Locks.{
  lock_rules, player_get_name-Same, client_send_packet-Same,
}
use jeux_game_server.Client.Balance.Parts.{client_get_player-Same, client_unref-Same}
use jeux_game_server.Client.Balance.Logout.{client_logout-Same, operations-balanced}
use jeux_game_server.Client.Serving.{
  Serves, kept, and_serve, serve_done, serve_present, serve_option, serve_status,
}
use jeux_game_server.Client.Serving.Login.{preg_register-Serves, client_login-Serves}
use jeux_game_server.ClientRegistry.Serving.{creg_lookup-Serves, creg_all_players-Serves}
use jeux_game_server.Client.Offers.{GameString, no_string, game_string, freed_string}
use jeux_game_server.Server.{
  c_string, refuse, accept, finish_login, login_payload, process_login, user_line, users_loop,
  process_users, ack_invitation, invite_as, process_invite, answer, process_revoke, process_decline,
  ack_accepted, process_accept, process_move, process_resign,
}
use jeux_game_server.Server.Service.{LoginFlag, guarded, dispatch}

client_send_ack-Same : (p : Ptr) (s : Option Text) (n : ℕ) → Keeps SameOp (client_send_ack p s n)
unfolding client_send_ack
client_send_ack-Same p s n = search lock_rules depth 20

client_send_nack-Same : (p : Ptr) → Keeps SameOp (client_send_nack p)
unfolding client_send_nack
client_send_nack-Same p = search lock_rules depth 20

player_get_rating-Same : (p : Ptr) → Keeps SameOp (player_get_rating p)
unfolding player_get_rating
player_get_rating-Same p = search same_rules depth 20

refuse-Serves : (c : Ptr) → Keeps Serves (refuse c)
unfolding refuse
refuse-Serves c = and_serve _ _ (kept (client_send_nack-Same c)) λ _. serve_done failure

accept-Serves : (c : Ptr) → Keeps Serves (accept c)
unfolding accept
accept-Serves c = and_serve _ _ (kept (client_send_ack-Same c none 0)) λ _. serve_done success

finish_login-Serves : (c p : Ptr) → Keeps Serves (finish_login c p)
unfolding finish_login
finish_login-Serves c p = and_serve _ _ (client_login-Serves c p) λ s.
    and_serve _ _
      (serve_status s _ _ (serve_done tt)
        (and_serve _ _ (kept (client_send_nack-Same c)) λ _. serve_done tt))
      λ _. and_serve _ _ (kept (player_unref-Same p)) λ _. accept-Serves c

login_payload-Serves : (s : Option Text) (h : Header) (c : Ptr) → Keeps Serves (login_payload s h c)
unfolding login_payload
login_payload-Serves none h c = refuse-Serves c
login_payload-Serves (some s) h c = branch _ (refuse-Serves c) (
    and_serve _ _ (preg_register-Serves (c_string h.size s))
      λ p. serve_option p _ _ (refuse-Serves c) (finish_login-Serves c))

process_login-Serves : (s : Option Text) (h : Header) (c : Ptr) → Keeps Serves (process_login s h c)
unfolding process_login
process_login-Serves s h c =
    and_serve _ _ (kept (client_get_player-Same (some c)))
      λ p. serve_option p _ _ (login_payload-Serves s h c) (λ _. refuse-Serves c)

users_loop-Serves : (players : List Ptr) → Keeps Serves (users_loop players)
unfolding users_loop
users_loop-Serves [] = serve_done []
users_loop-Serves (p ∷ players) = and_serve _ _ (kept (player_get_name-Same p)) λ name.
    and_serve _ _ (kept (player_get_rating-Same p)) λ rating.
      and_serve _ _ (serve_present (user_line name rating)) λ line.
        and_serve _ _ (kept (player_unref-Same p))
          λ _. and_serve _ _ (users_loop-Serves players) λ rest. serve_done (line ++ rest)

process_users-Serves : (s : Option Text) (c : Ptr) → Keeps Serves (process_users s c)
unfolding process_users
process_users-Serves (some s) c = refuse-Serves c
process_users-Serves none c = and_serve _ _ creg_all_players-Serves λ players.
    and_serve _ _ (serve_present players) λ players.
      and_serve _ _ (users_loop-Serves players) λ text.
        and_serve _ _ (kept (client_send_ack-Same c (some text) (length text)))
          λ _. serve_done success

module _ (depth : ℕ) where
  ack_invitation-Serves : (c : Ptr) (id : Option ℕ) → Keeps Serves (ack_invitation depth c id)
  unfolding ack_invitation
  ack_invitation-Serves c id =
      and_serve _ _ (kept (new_header-Same _ id 0 0))
        λ h. and_serve _ _ (kept (client_send_packet-Same c h none)) λ _. serve_done success

  invite_as-Serves : (c i : Ptr) (h : Header) → Keeps Serves (invite_as depth c i h)
  unfolding invite_as
  invite_as-Serves c i h =
      branch (h.role == 1) (made second_player_role first_player_role)
        (branch (h.role == 2) (made first_player_role second_player_role) (refuse-Serves c))
    where
      made :
          (r q : Role)
          → Keeps Serves
              (client_make_invitation (client_logout depth) c i r q >>= ack_invitation depth c)
      made r q =
          and_serve _ _ (kept ((operations-balanced depth).0 c i r q)) (ack_invitation-Serves c)

  process_invite-Serves :
      (s : Option Text) (c : Ptr) (h : Header) → Keeps Serves (process_invite depth s c h)
  unfolding process_invite
  process_invite-Serves none c h = refuse-Serves c
  process_invite-Serves (some s) c h = and_serve _ _ (creg_lookup-Serves s) λ i.
      serve_option i _ _ (refuse-Serves c) λ i.
        and_serve _ _ (kept (client_unref-Same (client_logout depth) (client_logout-Same depth) i))
          λ _. branch _ (refuse-Serves c) (invite_as-Serves c i h)

  answer-Serves : (c : Ptr) (s : Status) → Keeps Serves (answer depth c s)
  unfolding answer
  answer-Serves c failure = refuse-Serves c
  answer-Serves c success = accept-Serves c

  process_revoke-Serves :
      (s : Option Text) (c : Ptr) (h : Header) → Keeps Serves (process_revoke depth s c h)
  unfolding process_revoke
  process_revoke-Serves (some s) c h = refuse-Serves c
  process_revoke-Serves none c h =
      and_serve _ _ (kept ((operations-balanced depth).1 c h.id)) (answer-Serves c)

  process_decline-Serves :
      (s : Option Text) (c : Ptr) (h : Header) → Keeps Serves (process_decline depth s c h)
  unfolding process_decline
  process_decline-Serves (some s) c h = refuse-Serves c
  process_decline-Serves none c h =
      and_serve _ _ (kept ((operations-balanced depth).2 c h.id)) (answer-Serves c)

  ack_accepted-Serves : (c : Ptr) (r : Status × GameString) → Keeps Serves (ack_accepted depth c r)
  unfolding ack_accepted
  ack_accepted-Serves c (failure, s) = refuse-Serves c
  ack_accepted-Serves c (success, no_string) = accept-Serves c
  ack_accepted-Serves c (success, freed_string) = serve_present none
  ack_accepted-Serves c (success, game_string s) =
      and_serve _ _ (kept (client_send_ack-Same c (some s) (length s))) λ _. serve_done success

  process_accept-Serves :
      (s : Option Text) (c : Ptr) (h : Header) → Keeps Serves (process_accept depth s c h)
  unfolding process_accept
  process_accept-Serves (some s) c h = refuse-Serves c
  process_accept-Serves none c h =
      and_serve _ _ (kept ((operations-balanced depth).3 c h.id)) (ack_accepted-Serves c)

  process_move-Serves :
      (s : Option Text) (c : Ptr) (h : Header) → Keeps Serves (process_move depth s c h)
  unfolding process_move
  process_move-Serves none c h = refuse-Serves c
  process_move-Serves (some s) c h =
      and_serve _ _ (kept ((operations-balanced depth).5 c h.id _)) (answer-Serves c)

  process_resign-Serves :
      (s : Option Text) (c : Ptr) (h : Header) → Keeps Serves (process_resign depth s c h)
  unfolding process_resign
  process_resign-Serves (some s) c h = refuse-Serves c
  process_resign-Serves none c h =
      and_serve _ _ (kept ((operations-balanced depth).4 c h.id)) (answer-Serves c)

  guarded-Serves :
      (f : LoginFlag) (c : Ptr) (m : M Status) → Keeps Serves m → Keeps Serves (guarded f c m)
  unfolding guarded
  guarded-Serves none c m k =
      and_serve _ _ (kept (client_send_nack-Same c)) λ _. serve_done (none, true)
  guarded-Serves (some s) c m k = and_serve _ _ k λ _. serve_done (some s, true)

  pub dispatch-Serves :
      (f : LoginFlag) (c : Ptr) (h : Header) (s : Option Text)
      → Keeps Serves (dispatch depth f c h s)
  unfolding dispatch
  dispatch-Serves f c h s =
      branch (h.type == type_code login_pkt)
        (and_serve _ _ (process_login-Serves s h c) λ r. serve_done (some r, true))
        (branch (h.type == type_code users_pkt) (guarded-Serves f c _ (process_users-Serves none c))
          (branch (h.type == type_code invite_pkt)
            (guarded-Serves f c _ (process_invite-Serves s c h))
            (branch (h.type == type_code revoke_pkt)
              (guarded-Serves f c _ (process_revoke-Serves none c h))
              (branch (h.type == type_code accept_pkt)
                (guarded-Serves f c _ (process_accept-Serves none c h))
                (branch (h.type == type_code decline_pkt)
                  (guarded-Serves f c _ (process_decline-Serves none c h))
                  (branch (h.type == type_code move_pkt)
                    (guarded-Serves f c _ (process_move-Serves s c h))
                    (branch (h.type == type_code resign_pkt)
                      (guarded-Serves f c _ (process_resign-Serves none c h))
                      (branch (h.type == type_code no_pkt)
                        (and_serve _ _ (kept (client_logout-Same depth c))
                          λ _. serve_done (f, false))
                        (serve_done (f, true))))))))))
