-- ===== src/Server.antt =====
-- src/server.c: the handlers of the requests. `depth` bounds the nesting of client_logout.
pub mod Service
pub mod Printing
pub mod Serving
pub mod Users
use jeux_game_server.Prelude.{
  ℕ, zero, suc, ◌+◌, ◌-◌, ◌*◌, ◌/◌, ◌%◌, ◌≡◌, Bool, true, false, not, Option, none, some, List, [],
  ◌∷◌, ◌++◌, ◌==◌, if◌then◌else◌, length, ltb, leb,
}
use jeux_game_server.Prelude.Int.{ℤ, pos, negsuc}
use jeux_game_server.Game.{Role, first_player_role, second_player_role, Status, success, failure}
use jeux_game_server.Game.Text.{Text}
use jeux_game_server.Protocol.{Header, ack_pkt}
use jeux_game_server.World.{
  Ptr, World, Run, M, pure, ◌>>=◌, ◌>>◌, and_then, present, fail, new_header,
}
use jeux_game_server.Player.{player_unref, player_get_name, player_get_rating}
use jeux_game_server.PlayerRegistry.{preg_register}
use jeux_game_server.ClientRegistry.{creg_lookup, creg_all_players}
use jeux_game_server.Client.Object.{client_get_player, client_unref}
use jeux_game_server.Client.Packets.{client_send_packet, client_send_ack, client_send_nack}
use jeux_game_server.Client.Offers.{
  client_make_invitation, client_revoke_invitation, client_decline_invitation,
  client_accept_invitation, GameString, no_string, game_string, freed_string,
}
use jeux_game_server.Client.Play.{client_resign_game, client_make_move}
use jeux_game_server.Client.Session.{client_login, client_logout}

-- strncpy of `n` bytes into a buffer of n + 1 zeros, read as a string: it ends at the first NUL.
pub c_string : ℕ → Text → Text
c_string zero s = []
c_string (suc n) [] = []
c_string (suc n) (c ∷ s) = let rest = c_string n s in if c == 0 then [] else c ∷ rest

-- client_send_nack(client) and `return -1`.
unfoldable pub refuse : Ptr → M Status
refuse client = do _ ← client_send_nack client; pure failure

-- client_send_ack(client, NULL, 0) and `return 0`.
unfoldable pub accept : Ptr → M Status
accept client = do _ ← client_send_ack client none 0; pure success

-- The branch for a player that preg_register returned: after a login that fails the client is
-- sent a NACK, and then an ACK all the same.
finish_login : Ptr → Ptr → M Status
finish_login client player = do
  logged_in ← client_login client player
  elim logged_in [ success ↦ pure tt | failure ↦ do _ ← client_send_nack client; pure tt ]
  player_unref player
  accept client

-- The branch for a client without a player.
login_payload : Option Text → Header → Ptr → M Status
login_payload none hdr client = refuse client
login_payload (some payload) hdr client = if length payload == 0 then refuse client else do
  player ← preg_register (c_string hdr.size payload)
  elim player [ none ↦ refuse client | some p ↦ finish_login client p ]

-- The result 1 is `success`, and -1 `failure`.
unfoldable pub process_login : Option Text → Header → Ptr → M Status
unfolding login_payload finish_login
process_login payload hdr client = do
  player ← client_get_player (some client)
  elim player [ some _ ↦ refuse client | none ↦ login_payload payload hdr client ]

-- "%d"
unfoldable pub print_digits : ℕ → ℕ → Text → Text
print_digits zero n acc = acc
print_digits (suc fuel) n acc =
    let rest = print_digits fuel (n / 10) ((n % 10 + b'0') ∷ acc) in
    if ltb n 10 then (n + b'0') ∷ acc else rest

unfoldable pub print_int : ℤ → Text
print_int (pos n) = print_digits (n + 1) n []
print_int (negsuc n) = b'-' ∷ print_digits (n + 2) (n + 1) []

-- "%s\t%d\n"
abbrev pub line_text : Text → ℤ → Text
line_text name rating = name ++ (9 ∷ (print_int rating ++ 10 ∷ []))

-- The line in its buffer, which has four characters for the rating: a longer one overflows it.
unfoldable pub user_line : Text → ℤ → Option Text
user_line name rating =
    if leb (length (print_int rating)) 4 then some (line_text name rating) else none

pub users_loop : List Ptr → M Text
users_loop [] = pure []
users_loop (p ∷ players) = do
  name ← player_get_name p
  rating ← player_get_rating p
  line ← present (user_line name rating)
  player_unref p
  rest ← users_loop players
  pure (line ++ rest)

unfoldable pub process_users : Option Text → Ptr → M Status
unfolding users_loop
process_users (some payload) client = refuse client
process_users none client = do
  players ← creg_all_players
  players ← present players
  text ← users_loop players
  _ ← client_send_ack client (some text) (length text)
  pure success

module _ (depth : ℕ) where
  -- The ACK carries the ID that client_make_invitation returned, -1 included.
  ack_invitation : Ptr → Option ℕ → M Status
  ack_invitation client id = do
    header ← new_header ack_pkt id 0 0
    _ ← client_send_packet client header none
    pure success

  -- The branch for an invitee other than the client.
  invite_as : Ptr → Ptr → Header → M Status
  invite_as client invitee hdr =
      if hdr.role == 1
      then (client_make_invitation (client_logout depth) client invitee second_player_role
            first_player_role
          >>= ack_invitation client)
      else if hdr.role == 2
      then (client_make_invitation (client_logout depth) client invitee first_player_role
            second_player_role
          >>= ack_invitation client)
      else refuse client

  unfoldable pub process_invite : Option Text → Ptr → Header → M Status
  unfolding invite_as ack_invitation
  process_invite none client hdr = refuse client
  process_invite (some payload) client hdr = do
    invitee ← creg_lookup payload
    elim invitee [
      | none ↦ refuse client
      | some invitee ↦ do
        client_unref (client_logout depth) invitee
        if client == invitee then refuse client else invite_as client invitee hdr
    ]

  unfoldable pub answer : Ptr → Status → M Status
  answer client failure = refuse client
  answer client success = accept client

  unfoldable pub process_revoke : Option Text → Ptr → Header → M Status
  process_revoke (some payload) client hdr = refuse client
  process_revoke none client hdr =
      client_revoke_invitation (client_logout depth) client hdr.id >>= answer client

  unfoldable pub process_decline : Option Text → Ptr → Header → M Status
  process_decline (some payload) client hdr = refuse client
  process_decline none client hdr =
      client_decline_invitation (client_logout depth) client hdr.id >>= answer client

  -- The ACK of an accepted invitation carries the game, if the client moves first.
  ack_accepted : Ptr → Status × GameString → M Status
  ack_accepted client (failure, game_state) = refuse client
  ack_accepted client (success, no_string) = accept client
  ack_accepted client (success, freed_string) = fail
  ack_accepted client (success, game_string game_state) = do
    _ ← client_send_ack client (some game_state) (length game_state)
    pure success

  unfoldable pub process_accept : Option Text → Ptr → Header → M Status
  unfolding ack_accepted
  process_accept (some payload) client hdr = refuse client
  process_accept none client hdr = client_accept_invitation client hdr.id >>= ack_accepted client

  unfoldable pub process_move : Option Text → Ptr → Header → M Status
  process_move none client hdr = refuse client
  process_move (some payload) client hdr =
      client_make_move (client_logout depth) client hdr.id (c_string hdr.size payload)
      >>= answer client

  unfoldable pub process_resign : Option Text → Ptr → Header → M Status
  process_resign (some payload) client hdr = refuse client
  process_resign none client hdr =
      client_resign_game (client_logout depth) client hdr.id >>= answer client
