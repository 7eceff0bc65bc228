-- ===== src/Examples/Connections.antt =====
-- src/protocol.c: the theorems about it at a concrete packet.
use jeux_game_server.Prelude.{◌≡◌, refl, ◌≢◌, Option, some, List, [], ◌∷◌, ◌++◌, arith, take, drop}
use jeux_game_server.Game.Text.{Text}
use jeux_game_server.Protocol.{
  Header, header_bytes, Write, written, write_error, proto_send_packet, proto_recv_packet, Incoming,
}
use jeux_game_server.Protocol.Send.{Fits, packet_bytes, Delivers, proto_send_packet-Delivers}
use jeux_game_server.Protocol.Receive.{Receives, recv-send, IsLive}

-- A MOVE of one byte.
abbrev move_header : Header
move_header = record {
  type = 7;
  id = 3;
  role = 0;
  size = 1;
  timestamp_sec = 70000;
  timestamp_nsec = 999;
}

abbrev move_payload : Option Text
move_payload = some (b'5' ∷ [])

move_header-Fits : Fits move_header
move_header-Fits = record {
  type = omega arith;
  id = omega arith;
  role = omega arith;
  size = omega arith;
  timestamp_sec = omega arith;
  timestamp_nsec = omega arith;
}

-- The packet in three pieces, the last of which runs into the next packet.
abbrev wire : Text
wire = packet_bytes move_header move_payload ++ 1 ∷ 2 ∷ []

abbrev pieces : Incoming
pieces = take 5 wire ∷ take 9 (drop 5 wire) ∷ drop 14 wire ∷ []

pieces-IsLive : IsLive pieces
unfolding header_bytes
pieces-IsLive = tt

same_bytes : take 5 wire ++ (take 9 (drop 5 wire) ++ (drop 14 wire ++ [])) ≡ wire
unfolding header_bytes
same_bytes = refl

not_empty : move_payload ≢ some []
not_empty e = cc

recv-send_example : Receives move_header move_payload (1 ∷ 2 ∷ []) (proto_recv_packet pieces)
recv-send_example =
    recv-send move_header move_payload (1 ∷ 2 ∷ []) pieces (move_header-Fits, refl, not_empty)
      pieces-IsLive same_bytes

abbrev writes : List Write
writes = written 7 ∷ written 3 ∷ write_error ∷ []

proto_send_packet-Delivers_example :
    Delivers
      (packet_bytes move_header move_payload)
      (proto_send_packet move_header move_payload writes)
proto_send_packet-Delivers_example = proto_send_packet-Delivers move_header move_payload writes refl
