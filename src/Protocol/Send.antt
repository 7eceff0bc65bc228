-- ===== src/Protocol/Send.antt =====
-- src/protocol.c: what proto_send_packet puts on the wire, and the header as bytes.
use jeux_game_server.Prelude.{
  ℕ, zero, suc, ◌+◌, ◌-◌, ◌*◌, ◌/◌, ◌%◌, ◌^◌, ◌≤◌, ◌<◌, ◌≡◌, refl, sym, ap, ◌∙◌, false, Option,
  none, some, List, [], ◌∷◌, ◌++◌, arith, length, take, drop, ◌==◌,
}
use mathlib.Core.List.{append_assoc}
use jeux_game_server.Game.{success, failure}
use jeux_game_server.Game.Text.{Text}
use jeux_game_server.Protocol.{
  Header, header_bytes, header_of_bytes, Write, write_error, written, Sending, sent_first,
  write_all, send_payload, after_header, proto_send_packet,
}

-- The fields fit their widths.
pub record Fits (h : Header) : Type 0 where
  pub type : h.type < 256
  pub id : h.id < 256
  pub role : h.role < 256
  pub size : h.size < 2 ^ 16
  pub timestamp_sec : h.timestamp_sec < 2 ^ 32
  pub timestamp_nsec : h.timestamp_nsec < 2 ^ 32

-- A header whose fields fit their widths is read back from its 16 bytes in network byte order.
pub header_of_bytes-header_bytes : (h : Header) → Fits h → header_of_bytes (header_bytes h) ≡ h
unfolding header_of_bytes header_bytes
header_of_bytes-header_bytes h f = λ i. record {
  type = h.type;
  id = h.id;
  role = h.role;
  size = size i;
  timestamp_sec = sec i;
  timestamp_nsec = nsec i;
}
  where
    size : h.size / 256 % 256 * 256 + h.size % 256 ≡ h.size
    size = omega (arith, f.size)

    sec :
        ((h.timestamp_sec / 2 ^ 24 % 256 * 256 + h.timestamp_sec / 2 ^ 16 % 256) * 256
              + h.timestamp_sec / 256 % 256)
            * 256
          + h.timestamp_sec % 256
        ≡ h.timestamp_sec
    sec = omega (arith, f.timestamp_sec)

    nsec :
        ((h.timestamp_nsec / 2 ^ 24 % 256 * 256 + h.timestamp_nsec / 2 ^ 16 % 256) * 256
              + h.timestamp_nsec / 256 % 256)
            * 256
          + h.timestamp_nsec % 256
        ≡ h.timestamp_nsec
    nsec = omega (arith, f.timestamp_nsec)

take-drop : (n : ℕ) (s : Text) → take n s ++ drop n s ≡ s
take-drop zero s = refl
take-drop (suc n) [] = refl
take-drop (suc n) (b ∷ s) = rw (take-drop n s)

length-drop : (n : ℕ) (s : Text) → length (drop n s) ≡ length s - n
length-drop zero s = omega arith
length-drop (suc n) [] = omega arith
length-drop (suc n) (b ∷ s) = omega (arith, length-drop n s)

take-all : (n : ℕ) (s : Text) → length s ≤ n → take n s ≡ s
take-all zero [] h = refl
take-all zero (b ∷ s) h = elim h [ ]
take-all (suc n) [] h = refl
take-all (suc n) (b ∷ s) h = rw (take-all n s (omega arith))

-- What a sending has put out: all of the bytes if it succeeded, and otherwise a part at the front.
abbrev pub Delivers : Text → Sending → Type 0
Delivers bytes (success, out, ws) = out ≡ bytes
Delivers bytes (failure, out, ws) = (rest : Text) × (out ++ rest ≡ bytes)

sent_first-Delivers :
    (front bytes : Text) (s : Sending)
    → Delivers bytes s
    → Delivers (front ++ bytes) (sent_first front s)
sent_first-Delivers front bytes (success, out, ws) e = ap (λ s. front ++ s) e
sent_first-Delivers front bytes (failure, out, ws) (rest, e) =
    (rest, append_assoc front out rest ∙ ap (λ s. front ++ s) e)

write_all-Delivers :
    (fuel : ℕ) (bytes : Text) (ws : List Write)
    → length bytes ≤ fuel
    → Delivers bytes (write_all fuel bytes ws)
unfolding write_all
write_all-Delivers zero [] ws h = refl
write_all-Delivers zero (b ∷ bytes) ws h = elim h [ ]
write_all-Delivers (suc fuel) [] ws h = refl
write_all-Delivers (suc fuel) (b ∷ bytes) [] h = (b ∷ bytes, refl)
write_all-Delivers (suc fuel) (b ∷ bytes) (write_error ∷ ws) h = (b ∷ bytes, refl)
write_all-Delivers (suc fuel) (b ∷ bytes) (written zero ∷ ws) h = (b ∷ bytes, refl)
write_all-Delivers (suc fuel) (b ∷ bytes) (written (suc n) ∷ ws) h = rw (take-drop n bytes) at (
    sent_first-Delivers (b ∷ take n bytes) (drop n bytes) _
      (write_all-Delivers fuel (drop n bytes) ws (omega (arith, length-drop n bytes))))

-- The bytes of a packet: the header, and the payload if there is one.
abbrev pub payload_bytes : Option Text → Text
payload_bytes none = []
payload_bytes (some s) = s

abbrev pub packet_bytes : Header → Option Text → Text
packet_bytes h payload = header_bytes h ++ payload_bytes payload

-- The header tells the length of the payload.
abbrev pub HasSize : Header → Option Text → Type 0
HasSize h none = h.size ≡ 0
HasSize h (some s) = length s ≡ h.size

suc-eq-zero : (n : ℕ) → (suc n == 0) ≡ false
suc-eq-zero n = ground arith

send_payload-Delivers :
    (h : Header) (payload : Option Text) (ws : List Write)
    → HasSize h payload
    → Delivers (payload_bytes payload) (send_payload h.size payload ws)
unfolding send_payload
send_payload-Delivers h none ws e = rw e refl
send_payload-Delivers h (some []) ws e = rw (← e) ([], refl)
send_payload-Delivers h (some (b ∷ s)) ws e =
    rw (← e, suc-eq-zero (length s), take-all (length s) s (omega arith))
      (write_all-Delivers (length (b ∷ s)) (b ∷ s) ws (omega arith))

after_header-Delivers :
    (h : Header) (payload : Option Text) (s : Sending)
    → HasSize h payload
    → Delivers (header_bytes h) s
    → Delivers (packet_bytes h payload) (after_header h.size payload s)
unfolding after_header
after_header-Delivers h payload (success, out, ws) e d = rw d (
    sent_first-Delivers (header_bytes h) (payload_bytes payload) _
      (send_payload-Delivers h payload ws e))
after_header-Delivers h payload (failure, out, ws) e (rest, d) = (
  rest ++ payload_bytes payload,
  sym (append_assoc out rest _) ∙ ap (λ s. s ++ payload_bytes payload) d,
)

-- Whatever each write takes, for a payload of the length that the header tells: a packet that is
-- sent successfully is on the wire byte for byte, and a send that fails has put a part at the front
-- of the packet there.
pub proto_send_packet-Delivers :
    (h : Header) (payload : Option Text) (ws : List Write)
    → HasSize h payload
    → Delivers (packet_bytes h payload) (proto_send_packet h payload ws)
unfolding proto_send_packet header_bytes
proto_send_packet-Delivers h payload ws e =
    after_header-Delivers h payload (write_all 16 (header_bytes h) ws) e
      (write_all-Delivers 16 (header_bytes h) ws (header_size h))
  where
    header_size : (h : Header) → length (header_bytes h) ≤ 16
    header_size h = omega arith

-- Where nothing can be written no packet is sent.
pub proto_send_packet-no_writes :
    (h : Header) (payload : Option Text) → (proto_send_packet h payload []).0 ≡ failure
unfolding proto_send_packet header_bytes write_all
proto_send_packet-no_writes h payload = refl
