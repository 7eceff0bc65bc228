-- ===== src/Server/Service.antt =====
-- src/server.c: jeux_client_service, the loop that serves one connection.
pub mod Guest
pub mod Schedule
use jeux_game_server.Prelude.{
  ℕ, Bool, true, false, Option, none, some, List, [], ◌∷◌, ◌==◌, if◌then◌else◌,
}
use mathlib.Core.Option
use jeux_game_server.Game.{Status}
use jeux_game_server.Game.Text.{Text}
use jeux_game_server.Protocol.{
  Header, no_pkt, login_pkt, users_pkt, invite_pkt, revoke_pkt, accept_pkt, decline_pkt, move_pkt,
  resign_pkt, type_code,
}
use jeux_game_server.World.{Ptr, M, pure, ◌>>=◌, ◌>>◌}
use jeux_game_server.ClientRegistry.Membership.{creg_register, creg_unregister}
use jeux_game_server.Client.Packets.{client_send_nack}
use jeux_game_server.Client.Session.{client_logout}
use jeux_game_server.Server.{
  c_string, process_login, process_users, process_invite, process_revoke, process_accept,
  process_decline, process_move, process_resign,
}

-- The local `process_login_packet`: `none` is 0, and a result of process_login is not 0.
abbrev pub LoginFlag : Type 0
LoginFlag = Option Status

-- A request that is honoured once the flag is set.
unfoldable pub guarded : LoginFlag → Ptr → M Status → M (LoginFlag × Bool)
guarded none client handler = do _ ← client_send_nack client; pure (none, true)
guarded (some s) client handler = do _ ← handler; pure (some s, true)

module _ (depth : ℕ) where
  -- The switch, with the new flag and whether the loop goes on.
  unfoldable pub dispatch : LoginFlag → Ptr → Header → Option Text → M (LoginFlag × Bool)
  dispatch flag client hdr payload =
      if hdr.type == type_code login_pkt
      then (process_login payload hdr client >>= λ s. pure (some s, true))
      else if hdr.type == type_code users_pkt
      then guarded flag client (process_users none client)
      else if hdr.type == type_code invite_pkt
      then guarded flag client (process_invite depth payload client hdr)
      else if hdr.type == type_code revoke_pkt
      then guarded flag client (process_revoke depth none client hdr)
      else if hdr.type == type_code accept_pkt
      then guarded flag client (process_accept depth none client hdr)
      else if hdr.type == type_code decline_pkt
      then guarded flag client (process_decline depth none client hdr)
      else if hdr.type == type_code move_pkt
      then guarded flag client (process_move depth payload client hdr)
      else if hdr.type == type_code resign_pkt
      then guarded flag client (process_resign depth none client hdr)
      else if hdr.type == type_code no_pkt
      then (client_logout depth client >>= λ _. pure (flag, false))
      else pure (flag, true)

  -- The loop over the packets that proto_recv_packet returns; the list ends where it returns -1.
  unfoldable pub service_loop : LoginFlag → Ptr → List (Header × Option Text) → M (Unit {0})
  service_loop flag client [] = do _ ← client_logout depth client; pure tt
  service_loop flag client ((hdr, payload) ∷ packets) = do
    next ← dispatch flag client hdr (Option.map (c_string hdr.size) payload)
    elim next.1 [ true ↦ service_loop next.0 client packets | false ↦ pure tt ]

  unfoldable pub jeux_client_service : ℕ → List (Header × Option Text) → M (Unit {0})
  jeux_client_service connfd packets = do
    client ← creg_register connfd
    elim client [
      | none ↦ pure tt
      | some c ↦ do service_loop none c packets; _ ← creg_unregister depth (some c); pure tt
    ]
