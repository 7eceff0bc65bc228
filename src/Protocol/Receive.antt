-- ===== src/Protocol/Receive.antt =====
-- src/protocol.c: that proto_recv_packet takes a packet off the wire, however its bytes are cut.
use jeux_game_server.Prelude.{
  ℕ, zero, suc, ◌+◌, ◌-◌, ◌≤◌, ◌≡◌, refl, sym, ap, ◌∙◌, ◌≢◌, false, Option, none, some, [], ◌∷◌,
  ◌++◌, arith, length, length-append, take, drop, if◌then◌else◌, ◌==◌,
}
use native.Mathlib.Nat.{sub-zero, suc-sub-suc}
use jeux_game_server.Game.Text.{Text}
use jeux_game_server.Protocol.{
  Header, header_bytes, Incoming, put_back, read_all, prepend, after_payload, after_read,
  proto_recv_packet,
}
use jeux_game_server.Protocol.Send.{
  Fits, header_of_bytes-header_bytes, payload_bytes, packet_bytes, HasSize,
}

-- The stream that the pieces make up.
abbrev pub stream : Incoming → Text
stream [] = []
stream (piece ∷ input) = piece ++ stream input

-- No end of file among the pieces.
abbrev pub IsLive : Incoming → Type 0
IsLive [] = Unit {0}
IsLive ([] ∷ input) = ⊥
IsLive ((b ∷ piece) ∷ input) = IsLive input

take-append :
    (n : ℕ) (p s : Text)
    → take n (p ++ s) ≡ take n p ++ take (n - length (take n p)) (drop n p ++ s)
take-append zero p s = refl
take-append (suc n) [] s = rw (sub-zero (suc n))
take-append (suc n) (b ∷ p) s =
    rw (suc-sub-suc n (length (take n p))) (ap (λ t. b ∷ t) (take-append n p s))

drop-append : (n : ℕ) (p s : Text) → drop n (p ++ s) ≡ drop (n - length (take n p)) (drop n p ++ s)
drop-append zero p s = refl
drop-append (suc n) [] s = rw (sub-zero (suc n))
drop-append (suc n) (b ∷ p) s = rw (suc-sub-suc n (length (take n p))) (drop-append n p s)

length-take-drop : (n : ℕ) (p : Text) → length (take n p) + length (drop n p) ≡ length p
length-take-drop zero p = omega arith
length-take-drop (suc n) [] = omega arith
length-take-drop (suc n) (b ∷ p) = omega (arith, length-take-drop n p)

stream-put_back : (p : Text) (input : Incoming) → stream (put_back p input) ≡ p ++ stream input
stream-put_back [] input = refl
stream-put_back (b ∷ p) input = refl

put_back-IsLive : (p : Text) (input : Incoming) → IsLive input → IsLive (put_back p input)
put_back-IsLive [] input live = live
put_back-IsLive (b ∷ p) input live = live

-- A read of `n` bytes from a live connection that has them: it ends, and takes them off the stream.
abbrev pub Reads : ℕ → Text → Option (Text × Incoming) → Type 0
Reads n s none = ⊥
Reads n s (some (bytes, rest)) = (bytes ≡ take n s) × (stream rest ≡ drop n s) × IsLive rest

prepend-Reads :
    (n m : ℕ) (got s t : Text) (r : Option (Text × Incoming))
    → take n s ≡ got ++ take m t
    → drop n s ≡ drop m t
    → Reads m t r
    → Reads n s (prepend got r)
prepend-Reads n m got s t none e f d = d
prepend-Reads n m got s t (some (more, rest)) e f (a, b, c) =
    (ap (λ x. got ++ x) a ∙ sym e, b ∙ sym f, c)

read_round :
    (fuel left : ℕ) (b : ℕ) (piece : Text) (input : Incoming)
    → let p = b ∷ piece in
      let m = suc left - length (take (suc left) p) in
      Reads m
        (stream (put_back (drop (suc left) p) input))
        (read_all fuel m (put_back (drop (suc left) p) input))
      → Reads (suc left) (p ++ stream input) (read_all (suc fuel) (suc left) (p ∷ input))
unfolding read_all
read_round fuel left b piece input r =
    prepend-Reads (suc left) (suc left - length (take (suc left) p)) (take (suc left) p)
      (p ++ stream input) (stream (put_back (drop (suc left) p) input)) _
      (rw (stream-put_back (drop (suc left) p) input) (take-append (suc left) p (stream input)))
      (rw (stream-put_back (drop (suc left) p) input) (drop-append (suc left) p (stream input))) r
  where
    p : Text
    p = b ∷ piece

read_all-Reads :
    (fuel left : ℕ) (input : Incoming)
    → left ≤ fuel
    → left ≤ length (stream input)
    → IsLive input
    → Reads left (stream input) (read_all fuel left input)
unfolding read_all
read_all-Reads zero zero input h l live = (refl, refl, live)
read_all-Reads zero (suc left) input h l live = elim h [ ]
read_all-Reads (suc fuel) zero input h l live = (refl, refl, live)
read_all-Reads (suc fuel) (suc left) [] h l live = elim l [ ]
read_all-Reads (suc fuel) (suc left) ([] ∷ input) h l live = absurd live
read_all-Reads (suc fuel) (suc left) ((b ∷ piece) ∷ input) h l live =
    read_round fuel left b piece input (
      read_all-Reads fuel (suc left - length (take (suc left) (b ∷ piece)))
        (put_back (drop (suc left) (b ∷ piece)) input) (omega arith)
        (omega (
          arith,
          ap length (stream-put_back (drop left piece) input),
          length-append (drop left piece) (stream input),
          length-append piece (stream input),
          length-take-drop left piece,
        ))
        (put_back-IsLive (drop (suc left) (b ∷ piece)) input live))

-- What a received packet is, and what it leaves on the stream.
abbrev pub Receives :
    Header → Option Text → Text → Option (Header × Option Text × Incoming) → Type 0
Receives h payload rest none = ⊥
Receives h payload rest (some (h', payload', input)) =
    (h' ≡ h) × (payload' ≡ payload) × (stream input ≡ rest) × IsLive input

-- A payload that is sent is not empty: one of no bytes is refused.
abbrev pub IsSendable : Header → Option Text → Type 0
IsSendable h payload = Fits h × HasSize h payload × (payload ≢ some [])

take-length : (s t : Text) → take (length s) (s ++ t) ≡ s
take-length [] t = refl
take-length (b ∷ s) t = rw (take-length s t)

drop-length : (s t : Text) → drop (length s) (s ++ t) ≡ t
drop-length [] t = refl
drop-length (b ∷ s) t = drop-length s t

after_payload-Receives :
    (h : Header) (s rest : Text) (n : ℕ) (r : Option (Text × Incoming))
    → length s ≡ n
    → Reads n (s ++ rest) r
    → Receives h (some s) rest (after_payload h r)
unfolding after_payload
after_payload-Receives h s rest n none l r = r
after_payload-Receives h s rest n (some (payload, input)) l (a, b, c) =
    (refl, ap some (a ∙ rw (← l) (take-length s rest)), b ∙ rw (← l) (drop-length s rest), c)

size-nonzero :
    (h : Header) (s : Text) → HasSize h (some s) → some s ≢ some [] → (h.size == 0) ≡ false
size-nonzero h [] e p = absurd (p refl)
size-nonzero h (b ∷ s) e p = ground arith

-- Once the header is known.
header-Receives :
    (h : Header) (payload : Option Text) (rest : Text) (input : Incoming)
    → IsSendable h payload
    → stream input ≡ payload_bytes payload ++ rest
    → IsLive input
    → Receives h payload rest (
        if h.size == 0
        then some (h, none, input)
        else after_payload h (read_all h.size h.size input))
header-Receives h none rest input k e live = rw k.1 (refl, refl, e, live)
header-Receives h (some s) rest input k e live = rw (size-nonzero h s k.1 k.2) (
    after_payload-Receives h s rest h.size _ k.1 (
      rw e at (
        read_all-Reads h.size h.size input (omega arith)
          (omega (arith, ap length e, length-append s rest, k.1)) live)))

after_read-Receives :
    (h : Header) (payload : Option Text) (rest : Text) (r : Option (Text × Incoming))
    → IsSendable h payload
    → Reads 16 (packet_bytes h payload ++ rest) r
    → Receives h payload rest (after_read r)
unfolding after_read header_bytes
after_read-Receives h payload rest none k r = r
after_read-Receives h payload rest (some (bytes, input)) k (a, b, c) =
    rw (a, header_of_bytes-header_bytes h k.0) (header-Receives h payload rest input k b c)

-- For a header whose fields fit and that tells the length of the payload, which is absent or not
-- empty: if the stream begins with the packet's bytes and holds no end of file, then, however it is
-- cut into pieces, proto_recv_packet gets the same header and payload and leaves exactly what
-- follows.
pub recv-send :
    (h : Header) (payload : Option Text) (rest : Text) (input : Incoming)
    → IsSendable h payload
    → IsLive input
    → stream input ≡ packet_bytes h payload ++ rest
    → Receives h payload rest (proto_recv_packet input)
unfolding proto_recv_packet header_bytes
recv-send h payload rest input k live e =
    after_read-Receives h payload rest _ k
      (rw e at (read_all-Reads 16 16 input (omega arith) (omega (arith, ap length e)) live))
