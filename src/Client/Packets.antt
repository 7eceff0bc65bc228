-- ===== src/Client/Packets.antt =====
-- src/client.c: client_send_packet, client_send_ack and client_send_nack.
pub mod Going
use jeux_game_server.Prelude.{ℕ, Option, none, some}
use jeux_game_server.Game.{Status}
use jeux_game_server.Game.Text.{Text}
use jeux_game_server.Protocol.{Header, ack_pkt, nack_pkt}
use jeux_game_server.World.{Ptr, M, pure, ◌>>=◌, ◌>>◌, load_client, new_header, send_on}
use jeux_game_server.Client.Object.{lock_client, unlock_client}

unfoldable pub client_send_packet : Ptr → Header → Option Text → M Status
client_send_packet p header payload = do
  lock_client p
  c ← load_client p
  ret ← send_on c.fd header payload
  unlock_client p
  pure ret

unfoldable pub client_send_ack : Ptr → Option Text → ℕ → M Status
client_send_ack p payload datalen = do
  lock_client p
  header ← new_header ack_pkt (some 0) 0 datalen
  c ← load_client p
  ret ← send_on c.fd header payload
  unlock_client p
  pure ret

unfoldable pub client_send_nack : Ptr → M Status
client_send_nack p = do
  lock_client p
  header ← new_header nack_pkt (some 0) 0 0
  c ← load_client p
  ret ← send_on c.fd header none
  unlock_client p
  pure ret
