-- ===== src/Protocol.antt =====
-- include/protocol.h, src/protocol.c and src/includeme.c: packets, and how they cross a connection
-- in pieces. Memory for a payload and for a header is taken to be available.
pub mod Send
pub mod Receive
use jeux_game_server.Prelude.{
  ℕ, zero, suc, ◌+◌, ◌-◌, ◌*◌, ◌/◌, ◌%◌, ◌^◌, ◌≡◌, Bool, true, false, not, ◌&&◌, ◌||◌, Option, none,
  some, List, [], ◌∷◌, ◌++◌, ltb, leb, ◌==◌, if◌then◌else◌, get_or, length, take, drop,
}
use jeux_game_server.Game.{Status, success, failure}
use jeux_game_server.Game.Text.{Text}

-- JEUX_PACKET_TYPE.
pub data PacketType : Type 0 where
  no_pkt login_pkt users_pkt invite_pkt revoke_pkt accept_pkt decline_pkt move_pkt : PacketType
  resign_pkt ack_pkt nack_pkt invited_pkt revoked_pkt accepted_pkt declined_pkt : PacketType
  moved_pkt resigned_pkt ended_pkt : PacketType

abbrev pub type_code : PacketType → ℕ
type_code no_pkt = 0
type_code login_pkt = 1
type_code users_pkt = 2
type_code invite_pkt = 3
type_code revoke_pkt = 4
type_code accept_pkt = 5
type_code decline_pkt = 6
type_code move_pkt = 7
type_code resign_pkt = 8
type_code ack_pkt = 9
type_code nack_pkt = 10
type_code invited_pkt = 11
type_code revoked_pkt = 12
type_code accepted_pkt = 13
type_code declined_pkt = 14
type_code moved_pkt = 15
type_code resigned_pkt = 16
type_code ended_pkt = 17

-- JEUX_PACKET_HEADER. A field of more than one byte is here the number that its bytes spell in
-- network byte order: the program writes such a field by htons or htonl, reads the size by ntohs,
-- and reads no timestamp.
pub record Header : Type 0 where
  pub type : ℕ
  pub id : ℕ
  pub role : ℕ
  pub size : ℕ
  pub timestamp_sec : ℕ
  pub timestamp_nsec : ℕ

-- An int that is an ID, or -1.
abbrev pub int8 : Option ℕ → ℕ
int8 none = 255
int8 (some n) = n % 256

-- The fields are cut to the widths of the header. `now` is what clock_gettime reports.
unfoldable pub create_header : (now : ℕ × ℕ) → PacketType → Option ℕ → ℕ → ℕ → Header
create_header now type id role size = record {
  type = type_code type;
  id = int8 id;
  role = role % 256;
  size = size % 2 ^ 16;
  timestamp_sec = now.0 % 2 ^ 32;
  timestamp_nsec = now.1 % 2 ^ 32;
}

abbrev pub big16 : ℕ → Text
big16 n = (n / 256 % 256) ∷ (n % 256) ∷ []

abbrev pub big32 : ℕ → Text
big32 n = (n / 2 ^ 24 % 256) ∷ (n / 2 ^ 16 % 256) ∷ (n / 256 % 256) ∷ (n % 256) ∷ []

-- The 16 bytes of the struct, two paddings included, multi-byte fields in network byte order.
unfoldable pub header_bytes : Header → Text
header_bytes h =
    h.type
    ∷ h.id
    ∷ h.role
    ∷ 0
    ∷ (big16 h.size ++ (0 ∷ 0 ∷ (big32 h.timestamp_sec ++ big32 h.timestamp_nsec)))

abbrev pub byte_at : Text → ℕ → ℕ
byte_at s i = get_or s i 0

-- The struct that 16 bytes make, with the fields as above. What the program decodes of it is the
-- size.
pub header_of_bytes : Text → Header
header_of_bytes s = record {
  type = byte_at s 0;
  id = byte_at s 1;
  role = byte_at s 2;
  size = byte_at s 4 * 256 + byte_at s 5;
  timestamp_sec = ((byte_at s 8 * 256 + byte_at s 9) * 256 + byte_at s 10) * 256 + byte_at s 11;
  timestamp_nsec = ((byte_at s 12 * 256 + byte_at s 13) * 256 + byte_at s 14) * 256 + byte_at s 15;
}

-- What one call of write(2) does: it fails, or takes some of the bytes that it is offered.
pub data Write : Type 0 where
  write_error : Write
  written : ℕ → Write

-- How a send ends: its status, the bytes that went out, and the writes that are still to come.
abbrev pub Sending : Type 0
Sending = Status × Text × List Write

abbrev pub sent_first : Text → Sending → Sending
sent_first bytes (s, out, ws) = (s, bytes ++ out, ws)

-- while (bytes_sent < bytes_to_send): each round that goes on sends at least one byte, so the
-- length of the bytes is enough fuel. A list of writes that ends stands for a failing connection.
pub write_all : ℕ → Text → List Write → Sending
write_all zero bytes ws = (if length bytes == 0 then success else failure, [], ws)
write_all (suc fuel) [] ws = (success, [], ws)
write_all (suc fuel) (b ∷ bytes) [] = (failure, [], [])
write_all (suc fuel) (b ∷ bytes) (write_error ∷ ws) = (failure, [], ws)
write_all (suc fuel) (b ∷ bytes) (written zero ∷ ws) = (failure, [], ws)
write_all (suc fuel) (b ∷ bytes) (written (suc n) ∷ ws) =
    sent_first (take (suc n) (b ∷ bytes)) (write_all fuel (drop (suc n) (b ∷ bytes)) ws)

-- The second half of proto_send_packet: the payload, whose size is in the header.
pub send_payload : ℕ → Option Text → List Write → Sending
send_payload size none ws = if size == 0 then (success, [], ws) else (failure, [], ws)
send_payload size (some payload) ws =
    if size == 0 then (failure, [], ws) else write_all size (take size payload) ws

after_header : ℕ → Option Text → Sending → Sending
after_header size payload (success, out, ws) = sent_first out (send_payload size payload ws)
after_header size payload (failure, out, ws) = (failure, out, ws)

pub proto_send_packet : Header → Option Text → List Write → Sending
unfolding after_header
proto_send_packet h payload ws = after_header h.size payload (write_all 16 (header_bytes h) ws)

-- What read(2) will deliver: pieces of the stream, of which an empty one is the end of file. A list
-- that ends is a failing connection.
abbrev pub Incoming : Type 0
Incoming = List Text

-- A piece that is longer than what is asked for keeps its rest for the next read.
abbrev pub put_back : Text → Incoming → Incoming
put_back [] input = input
put_back (b ∷ rest) input = (b ∷ rest) ∷ input

abbrev pub prepend : Text → Option (Text × Incoming) → Option (Text × Incoming)
prepend got none = none
prepend got (some (more, input)) = some (got ++ more, input)

-- while (bytes_read < bytes_to_read), with the bytes left as fuel: a round that goes on reads one.
pub read_all : (fuel left : ℕ) → Incoming → Option (Text × Incoming)
read_all zero left input = if left == 0 then some ([], input) else none
read_all (suc fuel) zero input = some ([], input)
read_all (suc fuel) (suc left) [] = none
read_all (suc fuel) (suc left) ([] ∷ input) = none
read_all (suc fuel) (suc left) ((b ∷ piece) ∷ input) =
    let got = take (suc left) (b ∷ piece) in
    prepend got
      (read_all fuel (suc left - length got) (put_back (drop (suc left) (b ∷ piece)) input))

-- `none` is the result -1. No payload is NULL.
after_payload : Header → Option (Text × Incoming) → Option (Header × Option Text × Incoming)
after_payload h none = none
after_payload h (some (payload, rest)) = some (h, some payload, rest)

after_read : Option (Text × Incoming) → Option (Header × Option Text × Incoming)
after_read none = none
after_read (some (bytes, rest)) =
    let h = header_of_bytes bytes in
    if h.size == 0 then some (h, none, rest) else after_payload h (read_all h.size h.size rest)

pub proto_recv_packet : Incoming → Option (Header × Option Text × Incoming)
unfolding after_read after_payload
proto_recv_packet input = after_read (read_all 16 16 input)
