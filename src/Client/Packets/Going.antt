-- ===== src/Client/Packets/Going.antt =====
-- src/client.c, src/includeme.c, src/protocol.c: a packet that goes out to a client.
use jeux_game_server.Prelude.{
  ℕ, ◌<◌, ◌≡◌, ◌%◌, ◌^◌, refl, ap, ◌∙◌, Option, none, some, List, ◌∷◌, arith, length,
}
use jeux_game_server.Game.Text.{Text}
use jeux_game_server.Protocol.{
  PacketType, type_code, Header, Write, Sending, create_header, proto_send_packet,
}
use jeux_game_server.Protocol.Send.{Delivers, packet_bytes, HasSize, proto_send_packet-Delivers}

abbrev pub payload_length : Option Text → ℕ
payload_length none = 0
payload_length (some s) = length s

-- After the packets that went out `before`, one more to a descriptor: its header has a type, the
-- low eight bits of an ID, a role and the length of the payload, and what went out is the packet,
-- or the part of it that could be written.
abbrev pub Goes :
    (fd type id role : ℕ) → Option Text → Sending → List (ℕ × Text) → List (ℕ × Text) → Type 0
Goes fd type id role payload p before after =
    (h : Header) × (h.type ≡ type)
    × (h.id ≡ id % 256)
    × (h.role ≡ role)
    × (h.size ≡ payload_length payload)
    × Delivers (packet_bytes h payload) p
    × (after ≡ (fd, p.1) ∷ before)

has_size :
    (h : Header) (payload : Option Text) → h.size ≡ payload_length payload → HasSize h payload
has_size h none e = e
has_size h (some s) e = omega (arith, e)

pub proto_send_packet-Goes :
    (fd : ℕ) (now : ℕ × ℕ) (type : PacketType) (id role : ℕ) (payload : Option Text)
    (ws : List Write) (before : List (ℕ × Text))
    → role < 256
    → payload_length payload < 2 ^ 16
    → Goes fd
        (type_code type)
        id
        role
        payload
        (proto_send_packet
          (create_header now type (some id) role (payload_length payload))
          payload
          ws)
        before
        ((
          fd,
          (proto_send_packet
              (create_header now type (some id) role (payload_length payload))
              payload
              ws).1,
        )
          ∷ before)
unfolding create_header
proto_send_packet-Goes fd now type id role payload ws before r l =
    let h = create_header now type (some id) role (payload_length payload) in
    let s : h.size ≡ payload_length payload = omega (arith, l) in
    (
      h,
      refl,
      refl,
      omega (arith, r),
      s,
      proto_send_packet-Delivers h payload ws (has_size h payload s),
      refl,
    )

-- The lists of packets may be given by equal ones.
pub Goes-along :
    (fd type id role : ℕ) (payload : Option Text) (p : Sending)
    (before before' after after' : List (ℕ × Text))
    → before ≡ before'
    → after' ≡ after
    → Goes fd type id role payload p before after
    → Goes fd type id role payload p before' after'
Goes-along fd type id role payload p before before' after after' e f (h, a, b, c, d, g, u) =
    (h, a, b, c, d, g, f ∙ (u ∙ ap (λ l. (fd, p.1) ∷ l) e))
